-- ===== src/Inventory/Caches/Membership.antt =====
-- The groups that an ElastiCache cluster and its nodes join.
use reliable_broadcast.Prelude.{
  ◌≡◌, ap, ◌∙◌, Bool, true, not, ◌&&◌, Option, none, some, List, [], ◌∷◌, ◌++◌, ◌==◌, nat_eq,
  list_eq, if◌then◌else◌, Text, codes,
}
use reliable_broadcast.Inventory.Groups.{Groups}
use reliable_broadcast.Inventory.Groups.Members.{hosts_of}
use reliable_broadcast.Inventory.Settings.{Settings}
use reliable_broadcast.Inventory.Filing.{truthy, safe, own_group}
use reliable_broadcast.Inventory.Filing.Copies.{
  copies, Files, Files-nothing, Files-then, Files-push, Files-if, Files-as, Files-zone,
  Files-file_if, hosts_of-own_group,
}
use reliable_broadcast.Inventory.Caches.{
  CacheNode, Cluster, cache_security_keys, group_placed, by_replication_group, group_cluster,
  node_id, group_node,
}

module _ (s : Settings) (region dest : Text) (c : Cluster) where
  abbrev placed_keys : Bool → List Text
  placed_keys asked =
      (if s.group_by_region && asked then region ∷ [] else [])
      ++ ((if s.group_by_availability_zone && asked then c.preferred_availability_zone ∷ [] else [])
          ++ ((if s.group_by_instance_type && asked
                then safe s (codes "type_" ++ c.cache_node_type) ∷ []
                else [])
              ++ (if s.group_by_security_group && asked
                  then cache_security_keys s region c.security_groups
                  else [])))

  Files-placed :
      (asked : Bool) (g : Groups)
      → Files dest (placed_keys asked) g (group_placed s region asked c dest g)
  unfolding group_placed
  Files-placed asked g = Files-then dest (Files-file_if dest s _ _ _ _) (
      Files-then dest (Files-zone dest s _ _ _ _)
        (Files-then dest (Files-file_if dest s _ _ _ _) (Files-file_if dest s _ _ _ _)))

  abbrev replication_keys : Option Text → List Text
  replication_keys none = []
  replication_keys (some id) =
      if s.group_by_elasticache_replication_group
      then safe s (codes "elasticache_replication_group_" ++ id) ∷ []
      else []

  Files-replication :
      (id : Option Text) (g : Groups)
      → Files dest (replication_keys id) g (by_replication_group s region id dest g)
  unfolding by_replication_group
  Files-replication none g = Files-nothing dest g
  Files-replication (some id) g = Files-as dest s _ _ _ _ g

  -- The groups of a cluster at its address.
  pub cluster_keys : Bool → List Text
  cluster_keys is_redis =
      placed_keys (not is_redis)
      ++ ((if s.group_by_elasticache_engine && not is_redis
            then safe s (codes "elasticache_" ++ c.engine) ∷ []
            else [])
          ++ ((if s.group_by_elasticache_parameter_group
                then safe s (codes "elasticache_parameter_group_" ++ c.parameter_group) ∷ []
                else [])
              ++ replication_keys (truthy c.replication_group_id)))

  -- A cluster's address becomes the one host of its own group, and is appended to the groups that
  -- the settings ask for; for Redis, these are only its parameter group and its replication group.
  -- Its id, not its address, is appended to `elasticache_clusters`. No other list of hosts changes.
  pub group_cluster-hosts_of :
      (is_redis : Bool) (g : Groups) (k : Text)
      → hosts_of k (group_cluster s region is_redis c dest g)
        ≡ ((if s.group_by_instance_id && c.cache_cluster_id == k then dest ∷ [] else hosts_of k g)
            ++ copies dest k (cluster_keys is_redis))
          ++ copies c.cache_cluster_id k (codes "elasticache_clusters" ∷ [])
  unfolding group_cluster cluster_keys
  group_cluster-hosts_of is_redis g k =
      let all =
        Files-then dest (Files-placed (not is_redis) (own_group s c.cache_cluster_id dest g)) (
          Files-then dest (Files-as dest s _ _ _ _ _) (
            Files-then dest (Files-as dest s _ _ _ _ _)
              (Files-replication (truthy c.replication_group_id) _))) in
      (Files-push c.cache_cluster_id _ (codes "elasticache_clusters")).at k
      ∙ ap (λ l. l ++ copies c.cache_cluster_id k (codes "elasticache_clusters" ∷ []))
          (all.at k
            ∙ ap (λ l. l ++ copies dest k (cluster_keys is_redis))
                (hosts_of-own_group dest s c.cache_cluster_id k g))

  -- The groups of a node.
  pub node_keys : List Text
  node_keys =
      placed_keys true
      ++ ((if s.group_by_elasticache_engine
            then safe s (codes "elasticache_" ++ c.engine) ∷ []
            else [])
          ++ ((if s.group_by_elasticache_cluster
                then safe s (codes "elasticache_cluster_" ++ c.cache_cluster_id) ∷ []
                else [])
              ++ codes "elasticache_nodes" ∷ []))

  -- A node's address becomes the one host of its own group, and is appended to the groups that the
  -- settings ask for and to `elasticache_nodes`; no other list of hosts changes.
  pub group_node-hosts_of :
      (node : CacheNode) (g : Groups) (k : Text)
      → hosts_of k (group_node s region c node dest g)
        ≡ (if s.group_by_instance_id && node_id s region c node == k
            then dest ∷ []
            else hosts_of k g)
          ++ copies dest k node_keys
  unfolding group_node node_keys
  group_node-hosts_of node g k =
      let all = Files-then dest (Files-placed true (own_group s (node_id s region c node) dest g)) (
        Files-then dest (Files-file_if dest s _ _ _ _) (
          Files-then dest (Files-if dest s.group_by_elasticache_cluster (Files-push dest _ _))
            (Files-push dest _ _))) in
      all.at k
      ∙ ap (λ l. l ++ copies dest k node_keys)
          (hosts_of-own_group dest s (node_id s region c node) k g)
