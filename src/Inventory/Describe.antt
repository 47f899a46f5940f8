-- ===== src/Inventory/Describe.antt =====
-- `get_host_info_dict_from_describe_dict` of ops/ansible/ec2.py: the variables of an ElastiCache
-- cluster, node or replication group.
use reliable_broadcast.Prelude.{
  ℕ, ◌+◌, Bool, true, false, not, ◌&&◌, length, List, [], ◌∷◌, ◌++◌, nat_eq, list_eq, if◌then◌else◌,
  Text, codes, ◌==◌,
}
use reliable_broadcast.Result.{Result, ok, raise, ◌>>=◌, type_error}
use reliable_broadcast.Dict.{insert}
use reliable_broadcast.Inventory.Names.{strip, join, uncammelize}
use reliable_broadcast.Inventory.Settings.{Settings, number, words, HostInfo}
use reliable_broadcast.Inventory.Filing.{safe}
use reliable_broadcast.Decimal.{decimal}

-- The dictionary of an address and a port.
pub record Endpoint : Type 0 where
  pub address : Text
  pub port : ℕ

-- A member of a node group.
pub record Member : Type 0 where
  pub current_role : Text
  pub read_endpoint : Endpoint
  pub cache_cluster_id : Text

-- A value in the dictionary, by what the code reads of it; of the node groups, it is the first. A
-- value of another kind than the interface documents for its key is refused with `TypeError`.
pub data Described : Type 0 where
  integer : ℕ → Described
  text : Text → Described
  null : Described
  endpoint : Endpoint → Described
  node_group : Endpoint → List Member → Described
  member_clusters : List Text → Described
  parameter_group : List Text → Text → Text → Described
  security_groups : List Text → Described
  empty other : Described

-- The address and the port, with what follows their names.
unfoldable pub add_endpoint : Text → Text → Endpoint → HostInfo → HostInfo
add_endpoint prefix suffix e info =
    insert (prefix ++ (codes "_port" ++ suffix)) (number e.port)
      (insert (prefix ++ (codes "_address" ++ suffix)) (words e.address) info)

-- One member of the node group, and the number of replicas before it.
unfoldable pub add_member : Member → ℕ → HostInfo → HostInfo × ℕ
unfolding add_endpoint
add_member member replica_count info =
    let suffix = codes "_" ++ decimal replica_count in
    if member.current_role == codes "primary"
    then (
      insert (codes "ec2_primary_cluster_id") (words member.cache_cluster_id)
          (add_endpoint (codes "ec2_primary_cluster") [] member.read_endpoint info),
      replica_count,
    )
    else if member.current_role == codes "replica"
    then (
      insert (codes "ec2_replica_cluster_id" ++ suffix) (words member.cache_cluster_id)
          (add_endpoint (codes "ec2_replica_cluster") suffix member.read_endpoint info),
      replica_count + 1,
    )
    else (info, replica_count)

unfoldable pub add_members : List Member → ℕ → HostInfo → HostInfo
unfolding add_member
add_members [] replica_count info = info
add_members (member ∷ members) replica_count info =
    let (info', count') = add_member member replica_count info in add_members members count' info'

-- `not value`
unfoldable pub is_false : Described → Bool
is_false (integer n) = n == 0
is_false (text value) = value == []
is_false null = true
is_false empty = true
is_false (member_clusters names) = length names == 0
is_false (security_groups ids) = length ids == 0
is_false _ = false

unfoldable pub add_endpoint_value : Text → Described → HostInfo → Result HostInfo
unfolding add_endpoint
add_endpoint_value prefix value info = elim value [
  | endpoint e ↦ ok (add_endpoint prefix [] e info)
  | _ ↦ raise type_error
]

unfoldable pub add_node_group : Described → HostInfo → Result HostInfo
unfolding add_endpoint add_members
add_node_group value info = elim value [
  | node_group e members ↦
      ok (add_members members 0 (add_endpoint (codes "ec2_endpoint") [] e info))
  | _ ↦ raise type_error
]

-- The three tests that stand before the chain of the others.
unfoldable pub add_endpoints : Text → Described → HostInfo → Result HostInfo
unfolding is_false add_endpoint_value add_node_group
add_endpoints key value info =
    if is_false value
    then ok info
    else if key == codes "ec2_configuration_endpoint"
    then add_endpoint_value key value info
    else if key == codes "ec2_endpoint"
    then add_endpoint_value key value info
    else if key == codes "ec2_node_groups"
    then add_node_group value info
    else ok info

-- The last tests, on the type of the value.
unfoldable pub add_plain : Text → Described → HostInfo → HostInfo
add_plain key (integer n) info = insert key (number n) info
add_plain key (text value) info = insert key (words (strip value)) info
add_plain key null info = insert key (words []) info
add_plain key _ info = info

unfoldable pub add_member_clusters : Described → HostInfo → Result HostInfo
add_member_clusters value info = elim value [
  | member_clusters names ↦ ok (insert (codes "ec2_member_clusters") (words (join b',' names)) info)
  | _ ↦ raise type_error
]

unfoldable pub add_parameter_group : Described → HostInfo → Result HostInfo
add_parameter_group value info = elim value [
  | parameter_group reboot name status ↦ ok (
      insert (codes "ec2_cache_parameter_apply_status") (words status) (
        insert (codes "ec2_cache_parameter_group_name") (words name)
          (insert (codes "ec2_cache_node_ids_to_reboot") (words (join b',' reboot)) info)))
  | _ ↦ raise type_error
]

unfoldable pub add_security_groups : Described → HostInfo → Result HostInfo
add_security_groups value info = elim value [
  | null ↦ ok info
  | empty ↦ ok (insert (codes "ec2_security_group_ids") (words []) info)
  | security_groups ids ↦ ok (insert (codes "ec2_security_group_ids") (words (join b',' ids)) info)
  | _ ↦ raise type_error
]

-- The chain from `if key == 'ec2_member_clusters' and value` on.
unfoldable pub add_value : Text → Described → HostInfo → Result HostInfo
unfolding is_false add_plain add_member_clusters add_parameter_group add_security_groups
add_value key value info =
    if key == codes "ec2_member_clusters" && not (is_false value)
    then add_member_clusters value info
    else if key == codes "ec2_cache_parameter_group"
    then add_parameter_group value info
    else if key == codes "ec2_security_groups"
    then add_security_groups value info
    else ok (add_plain key value info)

module _ (s : Settings) where
  unfoldable pub describe_entries : List (Text × Described) → HostInfo → Result HostInfo
  unfolding add_endpoints add_value
  describe_entries [] info = ok info
  describe_entries ((name, value) ∷ entries) info = do
    let key = safe s (codes "ec2_" ++ uncammelize name)
    first ← add_endpoints key value info
    next ← add_value key value first
    describe_entries entries next

  unfoldable pub get_host_info_dict_from_describe_dict : List (Text × Described) → Result HostInfo
  unfolding describe_entries
  get_host_info_dict_from_describe_dict entries = describe_entries entries []
