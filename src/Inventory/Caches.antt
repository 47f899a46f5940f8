-- ===== src/Inventory/Caches.antt =====
-- `add_elasticache_cluster`, `add_elasticache_node` and `add_elasticache_replication_group` of
-- ops/ansible/ec2.py.
pub mod Membership
pub mod Adding
use reliable_broadcast.Prelude.{
  Bool, true, false, not, ◌&&◌, ◌||◌, Option, none, some, List, [], ◌∷◌, ◌++◌, nat_eq, list_eq,
  if◌then◌else◌, Text, codes, ◌==◌,
}
use reliable_broadcast.Result.{Result, ok, raise, ◌>>=◌, key_error, index_error}
use reliable_broadcast.Dict.{lookup, insert}
use reliable_broadcast.Inventory.Groups.{Groups, push}
use reliable_broadcast.Inventory.Settings.{Settings, Inventory, HostInfo, enter_host}
use reliable_broadcast.Inventory.Filing.{truthy, safe, nest, file_if, file_as, own_group, file_zone}
use reliable_broadcast.Inventory.Instances.{security_group_keys}
use reliable_broadcast.Inventory.Describe.{Described, get_host_info_dict_from_describe_dict}

-- The dictionaries of the interface, by the keys that are read; `entries` are all of their entries,
-- for the variables. A key that may be missing has an option; an address may be `None` too.
pub record CacheNode : Type 0 where
  pub cache_node_id : Text
  pub cache_node_status : Text
  pub endpoint : Option (Option Text)
  pub entries : List (Text × Described)

-- `configuration_endpoint` is missing where the key is, or its value is empty. Of a security group,
-- only the id is read.
pub record Cluster : Type 0 where
  pub cache_cluster_id : Text
  pub cache_cluster_status : Text
  pub configuration_endpoint : Option (Option Text)
  pub cache_nodes : List CacheNode
  pub preferred_availability_zone : Text
  pub cache_node_type : Text
  pub security_groups : Option (List Text)
  pub engine : Text
  pub parameter_group : Text
  pub replication_group_id : Option Text
  pub entries : List (Text × Described)

-- `node_groups` are the primary endpoints of the groups, `None` or with an address.
pub record ReplicationGroup : Type 0 where
  pub replication_group_id : Text
  pub status : Text
  pub node_groups : List (Option (Option Text))
  pub entries : List (Text × Described)

-- `node['Endpoint']['Address']`
unfoldable pub node_address : CacheNode → Result (Option Text)
node_address node = elim node.endpoint [ none ↦ raise key_error | some address ↦ ok address ]

unfoldable pub first_address : List CacheNode → Result (Option Text)
unfolding node_address
first_address [] = raise index_error
first_address (node ∷ nodes) = node_address node

-- The address of a cluster, and whether it is taken for Redis.
unfoldable pub cluster_destination : Cluster → Result (Option Text × Bool)
unfolding first_address
cluster_destination cluster = elim cluster.configuration_endpoint [
  | some address ↦ ok (truthy address, false)
  | none ↦ do address ← first_address cluster.cache_nodes; ok (truthy address, true)
]

unfoldable pub replication_destination : List (Option (Option Text)) → Result (Option Text)
replication_destination [] = raise index_error
replication_destination (none ∷ groups) = ok none
replication_destination (some address ∷ groups) = ok address

-- `dict.update`
unfoldable pub update : HostInfo → HostInfo → HostInfo
update old [] = old
update old ((key, value) ∷ new) = update (insert key value old) new

-- The variables that a node leaves where its address may have some already.
unfoldable pub merged : Option HostInfo → HostInfo → HostInfo
unfolding update
merged none info = info
merged (some old) info = update old info

module _ (s : Settings) (region : Text) where
  unfoldable pub cache_security_keys : Option (List Text) → List Text
  unfolding security_group_keys
  cache_security_keys none = []
  cache_security_keys (some ids) = security_group_keys s ids

  -- The groups from the region to the security groups.
  unfoldable pub group_placed : Bool → Cluster → Text → Groups → Groups
  unfolding cache_security_keys
  group_placed asked cluster dest groups =
      let in_region =
        file_if s (s.group_by_region && asked) (codes "regions") (region ∷ []) dest groups in
      let in_zone =
        file_zone s (s.group_by_availability_zone && asked) region
          cluster.preferred_availability_zone dest in_region in
      let typed =
        file_if s (s.group_by_instance_type && asked) (codes "types")
          (safe s (codes "type_" ++ cluster.cache_node_type) ∷ []) dest in_zone in
      file_if s (s.group_by_security_group && asked) (codes "security_groups")
        (cache_security_keys cluster.security_groups) dest typed

  unfoldable pub by_replication_group : Option Text → Text → Groups → Groups
  by_replication_group none dest groups = groups
  by_replication_group (some id) dest groups =
      file_as s s.group_by_elasticache_replication_group (codes "elasticache_replication_groups")
        (safe s id) (safe s (codes "elasticache_replication_group_" ++ id)) dest groups

  -- The name of the engine and of the parameter group goes to the parent without the prefix of the
  -- group; the last group has the cluster's id, not its address.
  unfoldable pub group_cluster : Bool → Cluster → Text → Groups → Groups
  unfolding group_placed by_replication_group
  group_cluster is_redis cluster dest groups =
      let placed =
        group_placed (not is_redis) cluster dest
          (own_group s cluster.cache_cluster_id dest groups) in
      let in_engine =
        file_as s (s.group_by_elasticache_engine && not is_redis) (codes "elasticache_engines")
          (safe s cluster.engine) (safe s (codes "elasticache_" ++ cluster.engine)) dest placed in
      let with_parameters =
        file_as s s.group_by_elasticache_parameter_group (codes "elasticache_parameter_groups")
          (safe s cluster.parameter_group)
          (safe s (codes "elasticache_parameter_group_" ++ cluster.parameter_group)) dest
          in_engine in
      push (by_replication_group (truthy cluster.replication_group_id) dest with_parameters)
        (codes "elasticache_clusters") cluster.cache_cluster_id

  unfoldable pub node_id : Cluster → CacheNode → Text
  node_id cluster node = safe s (cluster.cache_cluster_id ++ b'_' ∷ node.cache_node_id)

  unfoldable pub group_node : Cluster → CacheNode → Text → Groups → Groups
  unfolding group_placed node_id
  group_node cluster node dest groups =
      let placed =
        group_placed true cluster dest (own_group s (node_id cluster node) dest groups) in
      let in_engine =
        file_if s s.group_by_elasticache_engine (codes "elasticache_engines")
          (safe s (codes "elasticache_" ++ cluster.engine) ∷ []) dest placed in
      let in_cluster =
        if s.group_by_elasticache_cluster
        then push in_engine (safe s (codes "elasticache_cluster_" ++ cluster.cache_cluster_id)) dest
        else in_engine in
      push in_cluster (codes "elasticache_nodes") dest

  unfoldable pub group_replication : ReplicationGroup → Text → Groups → Groups
  group_replication group dest groups =
      let in_region =
        file_if s s.group_by_region (codes "regions") (region ∷ []) dest
          (own_group s group.replication_group_id dest groups) in
      let in_engine =
        file_as s s.group_by_elasticache_engine (codes "elasticache_engines") (codes "redis")
          (codes "elasticache_redis") dest in_region in
      push in_engine (codes "elasticache_replication_groups") group.replication_group_id
