-- ===== src/Witness/Clouds.antt =====
-- Databases, caches and their inventories at concrete inputs.
use reliable_broadcast.Prelude.{
  ◌≡◌, refl, true, ◌&&◌, none, some, [], ◌∷◌, ◌++◌, nat_eq, list_eq, list_beq, if◌then◌else◌, ◌==◌,
  Text, codes,
}
use reliable_broadcast.Result.{ok, raise}
use reliable_broadcast.Dict.{lookup, insert}
use reliable_broadcast.Inventory.Names.{to_safe, starts_with, uncammelize}
use reliable_broadcast.Inventory.Groups.{Groups}
use reliable_broadcast.Inventory.Groups.Members.{hosts_of}
use reliable_broadcast.Inventory.Settings.{Inventory, HostInfo, enter_host}
use reliable_broadcast.Inventory.Filing.{file_all, file_if, file_as, own_group, file_zone}
use reliable_broadcast.Inventory.Filing.Copies.{copies}
use reliable_broadcast.Inventory.Address.{configured_name}
use reliable_broadcast.Inventory.HostVars.{get_host_info_dict_from_instance}
use reliable_broadcast.Inventory.Databases.{Database, group_rds}
use reliable_broadcast.Inventory.Databases.Membership.{rds_keys, group_rds-hosts_of}
use reliable_broadcast.Inventory.Databases.Adding.{AddedAt, add_rds_instance-Added}
use reliable_broadcast.Inventory.Describe.{endpoint, integer, get_host_info_dict_from_describe_dict}
use reliable_broadcast.Inventory.Caches.{
  Cluster, CacheNode, group_cluster, group_node, node_id, cluster_destination,
}
use reliable_broadcast.Inventory.Caches.Membership.{
  cluster_keys, node_keys, group_cluster-hosts_of, group_node-hosts_of,
}
use reliable_broadcast.Inventory.Caches.Adding.{add_elasticache_cluster}
use reliable_broadcast.Inventory.Indexed.{IsIndexed}
use reliable_broadcast.Inventory.Reachable.{
  Reachable, empty, after, cluster_step, Reachable-IsIndexed,
}
use reliable_broadcast.Witness.Inventory.{settings, plain_format, inventory}

abbrev pub database : Database
database = record {
  id = codes "db-1";
  status = codes "available";
  endpoint = some (codes "db.local");
  availability_zone = codes "us-east-1a";
  instance_class = codes "db.t2.micro";
  subnet_group = none;
  security_group = some (some (codes "default"));
  tags = [];
  engine = codes "postgres";
  parameter_group = codes "plain";
  attributes = (codes "tag_Name", none) ∷ [];
  variables = [];
}

group_rds-hosts_of_example :
    (h : Groups) × (group_rds settings database (codes "us-east-1") (codes "db_local") [] ≡ ok h)
    × ((k : Text)
        → hosts_of k h
          ≡ (if true && database.id == k then codes "db_local" ∷ [] else hosts_of k [])
            ++ copies (codes "db_local") k (
                rds_keys settings database
                  (codes "us-east-1")
                  (codes "db_local")
                  (some (codes "default"))))
group_rds-hosts_of_example =
    group_rds-hosts_of settings database (codes "us-east-1") (codes "db_local")
      (some (codes "default")) [] refl

abbrev database_info : HostInfo
unfolding get_host_info_dict_from_instance
database_info =
    elim (get_host_info_dict_from_instance settings inventory.aws_account_id none
      database.variables) [ ok info ↦ info | raise e ↦ [] ]

add_rds_instance-Added_example :
    AddedAt settings database
      (codes "us-east-1")
      inventory
      (codes "db.local")
      none
      (some (codes "default"))
      database_info
unfolding configured_name get_host_info_dict_from_instance lookup list_beq codes starts_with
add_rds_instance-Added_example =
    add_rds_instance-Added settings database (codes "us-east-1") inventory (codes "db.local") none
      (some (codes "default")) database_info refl refl refl refl refl

abbrev node : CacheNode
node = record {
  cache_node_id = codes "0001";
  cache_node_status = codes "available";
  endpoint = some (some (codes "cache.local"));
  entries =
      (codes "Endpoint", endpoint (record { address = codes "cache.local"; port = 6379 })) ∷ [];
}

abbrev cluster : Cluster
cluster = record {
  cache_cluster_id = codes "cache-1";
  cache_cluster_status = codes "available";
  configuration_endpoint = none;
  cache_nodes = node ∷ [];
  preferred_availability_zone = codes "us-east-1a";
  cache_node_type = codes "cache.m1";
  security_groups = none;
  engine = codes "redis";
  parameter_group = codes "plain";
  replication_group_id = none;
  entries = (codes "NumCacheNodes", integer 1) ∷ [];
}

group_cluster-hosts_of_example :
    hosts_of
      (codes "x")
      (group_cluster settings (codes "us-east-1") true cluster (codes "cache.local") [])
    ≡ ((if true && cluster.cache_cluster_id == codes "x"
          then codes "cache.local" ∷ []
          else hosts_of (codes "x") [])
        ++ copies
            (codes "cache.local")
            (codes "x")
            (cluster_keys settings (codes "us-east-1") (codes "cache.local") cluster true))
      ++ copies cluster.cache_cluster_id (codes "x") (codes "elasticache_clusters" ∷ [])
group_cluster-hosts_of_example =
    group_cluster-hosts_of settings (codes "us-east-1") (codes "cache.local") cluster true []
      (codes "x")

group_node-hosts_of_example :
    hosts_of
      (codes "x")
      (group_node settings (codes "us-east-1") cluster node (codes "cache.local") [])
    ≡ (if true && node_id settings (codes "us-east-1") cluster node == codes "x"
        then codes "cache.local" ∷ []
        else hosts_of (codes "x") [])
      ++ copies
          (codes "cache.local")
          (codes "x")
          (node_keys settings (codes "us-east-1") (codes "cache.local") cluster)
group_node-hosts_of_example =
    group_node-hosts_of settings (codes "us-east-1") (codes "cache.local") cluster node []
      (codes "x")

-- The cluster is added with its one node.
abbrev final : Inventory
unfolding add_elasticache_cluster
final = elim (add_elasticache_cluster settings (codes "us-east-1") cluster inventory) [
  | ok inv ↦ inv
  | raise e ↦ inventory
]

final_index :
    lookup (codes "cache.local") final.index ≡ some (codes "us-east-1", codes "cache_1_0001")
unfolding add_elasticache_cluster group_cluster group_node node_id enter_host file_if file_as
    file_all own_group file_zone get_host_info_dict_from_describe_dict lookup insert list_beq codes
    to_safe uncammelize cluster_destination
final_index = refl

final_built : Reachable plain_format settings final
unfolding add_elasticache_cluster group_cluster group_node node_id enter_host file_if file_as
    file_all own_group file_zone get_host_info_dict_from_describe_dict lookup insert list_beq codes
    to_safe uncammelize cluster_destination
final_built =
    after (empty (some (codes "123")) [])
      (cluster_step {inv = inventory} {inv' = final} cluster (codes "us-east-1") refl)

Reachable-IsIndexed_example : IsIndexed final
Reachable-IsIndexed_example = Reachable-IsIndexed plain_format settings final_built
