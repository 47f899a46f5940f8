-- ===== src/Inventory/Caches/Adding.antt =====
-- The handlers for ElastiCache of ops/ansible/ec2.py: a node, a cluster with its nodes, and a
-- replication group.
use reliable_broadcast.Prelude.{
  Bool, not, ◌||◌, Option, none, some, List, [], ◌∷◌, nat_eq, list_eq, if◌then◌else◌, Text, codes,
  ◌==◌,
}
use reliable_broadcast.Result.{Result, ok, ◌>>=◌}
use reliable_broadcast.Dict.{lookup}
use reliable_broadcast.Inventory.Settings.{Settings, Inventory, enter_host}
use reliable_broadcast.Inventory.Filing.{truthy}
use reliable_broadcast.Inventory.Describe.{get_host_info_dict_from_describe_dict}
use reliable_broadcast.Inventory.Caches.{
  CacheNode, Cluster, ReplicationGroup, node_address, cluster_destination, replication_destination,
  merged, group_cluster, node_id, group_node, group_replication,
}

module _ (s : Settings) (region : Text) where
  -- A node may have the address of its cluster, whose variables it then extends.
  unfoldable pub enter_node : Cluster → CacheNode → Option Text → Inventory → Result Inventory
  unfolding merged enter_host
  enter_node cluster node none inventory = ok inventory
  enter_node cluster node (some dest) inventory = do
    info ← get_host_info_dict_from_describe_dict s node.entries
    ok (
        enter_host dest (region, node_id s region cluster node)
          (merged (lookup dest inventory.hostvars) info)
          (group_node s region cluster node dest inventory.groups) inventory)

  unfoldable pub add_elasticache_node : CacheNode → Cluster → Inventory → Result Inventory
  unfolding enter_node
  add_elasticache_node node cluster inventory =
      if not (s.all_elasticache_nodes || node.cache_node_status == codes "available")
      then ok inventory
      else do address ← node_address node; enter_node cluster node (truthy address) inventory

  unfoldable pub add_nodes : List CacheNode → Cluster → Inventory → Result Inventory
  unfolding add_elasticache_node
  add_nodes [] cluster inventory = ok inventory
  add_nodes (node ∷ nodes) cluster inventory = do
    inventory' ← add_elasticache_node node cluster inventory
    add_nodes nodes cluster inventory'

  unfoldable pub enter_cluster : Cluster → Option Text → Bool → Inventory → Result Inventory
  unfolding add_nodes enter_host
  enter_cluster cluster none is_redis inventory = ok inventory
  enter_cluster cluster (some dest) is_redis inventory = do
    info ← get_host_info_dict_from_describe_dict s cluster.entries
    add_nodes cluster.cache_nodes cluster (
        enter_host dest (region, cluster.cache_cluster_id) info
          (group_cluster s region is_redis cluster dest inventory.groups) inventory)

  unfoldable pub add_elasticache_cluster : Cluster → Inventory → Result Inventory
  unfolding enter_cluster
  add_elasticache_cluster cluster inventory =
      if not (s.all_elasticache_clusters || cluster.cache_cluster_status == codes "available")
      then ok inventory
      else do
        destination ← cluster_destination cluster
        enter_cluster cluster destination.0 destination.1 inventory

  unfoldable pub enter_replication : ReplicationGroup → Option Text → Inventory → Result Inventory
  unfolding enter_host
  enter_replication group none inventory = ok inventory
  enter_replication group (some dest) inventory = do
    info ← get_host_info_dict_from_describe_dict s group.entries
    ok (
        enter_host dest (region, group.replication_group_id) info
          (group_replication s region group dest inventory.groups) inventory)

  unfoldable pub add_elasticache_replication_group : ReplicationGroup → Inventory → Result Inventory
  unfolding enter_replication
  add_elasticache_replication_group group inventory =
      if not (s.all_elasticache_replication_groups || group.status == codes "available")
      then ok inventory
      else do
        dest ← replication_destination group.node_groups
        enter_replication group dest inventory
