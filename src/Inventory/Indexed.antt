-- ===== src/Inventory/Indexed.antt =====
-- Every handler of ops/ansible/ec2.py keeps the index and the variables of the hosts in step.
use reliable_broadcast.Prelude.{
  is_some, ◌≡◌, refl, sym, Bool, true, false, Option, none, some, List, [], ◌∷◌, ◌==◌, ◌||◌, nat_eq,
  list_eq, if◌then◌else◌, Text, codes, Bool-cases, inl, inr,
}
use reliable_broadcast.Result.{Result, ok, >>=-eq-ok, ok-injective}
use reliable_broadcast.Dict.{lookup, lookup-insert}
use reliable_broadcast.Inventory.Groups.{Groups}
use reliable_broadcast.Inventory.Settings.{Settings, Instance, Inventory, HostInfo, enter_host}
use reliable_broadcast.Inventory.Filing.{truthy}
use reliable_broadcast.Inventory.Instances.{add_instance}
use reliable_broadcast.Inventory.Instances.Adding.{Added, add_instance-Added}
use reliable_broadcast.Inventory.Databases.{
  Database, is_wanted, enter_rds, add_addressed_rds, add_rds_instance, group_rds, rds_destination,
}
use reliable_broadcast.Inventory.HostVars.{get_host_info_dict_from_instance}
use reliable_broadcast.Inventory.Caches.{
  CacheNode, Cluster, ReplicationGroup, node_address, cluster_destination, replication_destination,
}
use reliable_broadcast.Inventory.Describe.{get_host_info_dict_from_describe_dict}
use reliable_broadcast.Inventory.Address.{configured_name}
use reliable_broadcast.Inventory.Caches.Adding.{
  enter_node, add_elasticache_node, add_nodes, enter_cluster, add_elasticache_cluster,
  enter_replication, add_elasticache_replication_group,
}

-- A host is in the index if it has variables, and only then.
pub record IsIndexed (inv : Inventory) : Type 0 where
  pub at : (k : Text) → is_some (lookup k inv.index) ≡ is_some (lookup k inv.hostvars)

both :
    {A B : Type 0} (b : Bool) (x : A) (y : B) (o : Option A) (o' : Option B)
    → is_some o ≡ is_some o'
    → is_some (if b then some x else o) ≡ is_some (if b then some y else o')
both true x y o o' h = refl
both false x y o o' h = h

entered :
    (hostname : Text) (entry : Text × Text) (variables : HostInfo) (groups : Groups)
    (inv : Inventory)
    → IsIndexed inv
    → IsIndexed (enter_host hostname entry variables groups inv)
unfolding enter_host
entered hostname entry variables groups inv v = record {
  at = λ k.
      rw (lookup-insert hostname k entry inv.index, lookup-insert hostname k variables inv.hostvars)
        (both (hostname == k) entry variables (lookup k inv.index) (lookup k inv.hostvars)
          (v.at k));
}

kept : {inv inv' : Inventory} → ok inv ≡ ok inv' → IsIndexed inv → IsIndexed inv'
kept h v = rw (sym (ok-injective h)) v

module _ (format : Text → List Text → Result Text) (s : Settings) where
  Added-IsIndexed :
      (i : Instance) (region : Text) (inv inv' : Inventory)
      → IsIndexed inv
      → Added format s i region inv inv'
      → IsIndexed inv'
  Added-IsIndexed i region inv inv' v a = record {
    at = λ k.
        rw (a.index_at k, a.hostvars_at k)
          (both (a.hostname == k) _ _ (lookup k inv.index) (lookup k inv.hostvars) (v.at k));
  }

  pub add_instance-IsIndexed :
      (i : Instance) (region : Text) (inv inv' : Inventory)
      → IsIndexed inv
      → add_instance format s i region inv ≡ ok inv'
      → IsIndexed inv'
  add_instance-IsIndexed i region inv inv' v h =
      elim (add_instance-Added format s i region inv inv' h) [
        | inl same ↦ rw same v
        | inr a ↦ Added-IsIndexed i region inv inv' v a
      ]

module _ (s : Settings) (region : Text) where
  module _ (i : Database) (inv inv' : Inventory) (v : IsIndexed inv) where
    enter_rds-IsIndexed :
        (dest hostname : Text) → enter_rds s i region dest hostname inv ≡ ok inv' → IsIndexed inv'
    unfolding enter_rds
    enter_rds-IsIndexed dest hostname h =
        let (groups, grouped, h₁) = >>=-eq-ok (group_rds s i region hostname inv.groups) _ h in
        let (info, described, h₂) =
          >>=-eq-ok (get_host_info_dict_from_instance s inv.aws_account_id none i.variables) _ h₁ in
        kept h₂ (entered hostname _ _ groups inv v)

    addressed_rds-IsIndexed :
        (dest : Option Text) → add_addressed_rds s i region dest inv ≡ ok inv' → IsIndexed inv'
    unfolding add_addressed_rds
    addressed_rds-IsIndexed none h = kept h v
    addressed_rds-IsIndexed (some dest) h =
        let (name, named, h₁) = >>=-eq-ok (configured_name s i.tags i.attributes) _ h in
        enter_rds-IsIndexed dest _ h₁

    pub add_rds_instance-IsIndexed : add_rds_instance s i region inv ≡ ok inv' → IsIndexed inv'
    unfolding add_rds_instance
    add_rds_instance-IsIndexed h = elim (Bool-cases (is_wanted s i)) [
      | inr unwanted ↦ kept (rw unwanted at h) v
      | inl wanted ↦
          let (dest, addressed, h₁) = >>=-eq-ok (rds_destination s i.endpoint) _ (rw wanted at h) in
          addressed_rds-IsIndexed dest h₁
    ]

  enter_node-IsIndexed :
      (c : Cluster) (node : CacheNode) (address : Option Text) (inv inv' : Inventory)
      → IsIndexed inv
      → enter_node s region c node address inv ≡ ok inv'
      → IsIndexed inv'
  unfolding enter_node
  enter_node-IsIndexed c node none inv inv' v h = kept h v
  enter_node-IsIndexed c node (some dest) inv inv' v h =
      let (info, described, h₁) =
        >>=-eq-ok (get_host_info_dict_from_describe_dict s node.entries) _ h in
      kept h₁ (entered dest _ _ _ inv v)

  add_node-IsIndexed :
      (c : Cluster) (node : CacheNode) (inv inv' : Inventory)
      → IsIndexed inv
      → add_elasticache_node s region node c inv ≡ ok inv'
      → IsIndexed inv'
  unfolding add_elasticache_node
  add_node-IsIndexed c node inv inv' v h =
      elim (Bool-cases (s.all_elasticache_nodes || node.cache_node_status == codes "available")) [
        | inr unwanted ↦ kept (rw unwanted at h) v
        | inl wanted ↦
            let (address, addressed, h₁) = >>=-eq-ok (node_address node) _ (rw wanted at h) in
            enter_node-IsIndexed c node (truthy address) inv inv' v h₁
      ]

  add_nodes-IsIndexed :
      (nodes : List CacheNode) (c : Cluster) (inv inv' : Inventory)
      → IsIndexed inv
      → add_nodes s region nodes c inv ≡ ok inv'
      → IsIndexed inv'
  unfolding add_nodes
  add_nodes-IsIndexed [] c inv inv' v h = kept h v
  add_nodes-IsIndexed (node ∷ nodes) c inv inv' v h =
      let (next, first, h₁) = >>=-eq-ok (add_elasticache_node s region node c inv) _ h in
      add_nodes-IsIndexed nodes c next inv' (add_node-IsIndexed c node inv next v first) h₁

  enter_cluster-IsIndexed :
      (c : Cluster) (dest : Option Text) (is_redis : Bool) (inv inv' : Inventory)
      → IsIndexed inv
      → enter_cluster s region c dest is_redis inv ≡ ok inv'
      → IsIndexed inv'
  unfolding enter_cluster
  enter_cluster-IsIndexed c none is_redis inv inv' v h = kept h v
  enter_cluster-IsIndexed c (some dest) is_redis inv inv' v h =
      let (info, described, h₁) =
        >>=-eq-ok (get_host_info_dict_from_describe_dict s c.entries) _ h in
      add_nodes-IsIndexed c.cache_nodes c _ inv' (entered dest _ _ _ inv v) h₁

  pub add_cluster-IsIndexed :
      (c : Cluster) (inv inv' : Inventory)
      → IsIndexed inv
      → add_elasticache_cluster s region c inv ≡ ok inv'
      → IsIndexed inv'
  unfolding add_elasticache_cluster
  add_cluster-IsIndexed c inv inv' v h =
      elim (Bool-cases
        (s.all_elasticache_clusters || c.cache_cluster_status == codes "available")) [
          | inr unwanted ↦ kept (rw unwanted at h) v
          | inl wanted ↦
              let (d, addressed, h₁) = >>=-eq-ok (cluster_destination c) _ (rw wanted at h) in
              enter_cluster-IsIndexed c d.0 d.1 inv inv' v h₁
        ]

  enter_replication-IsIndexed :
      (g : ReplicationGroup) (dest : Option Text) (inv inv' : Inventory)
      → IsIndexed inv
      → enter_replication s region g dest inv ≡ ok inv'
      → IsIndexed inv'
  unfolding enter_replication
  enter_replication-IsIndexed g none inv inv' v h = kept h v
  enter_replication-IsIndexed g (some dest) inv inv' v h =
      let (info, described, h₁) =
        >>=-eq-ok (get_host_info_dict_from_describe_dict s g.entries) _ h in
      kept h₁ (entered dest _ _ _ inv v)

  pub add_replication-IsIndexed :
      (g : ReplicationGroup) (inv inv' : Inventory)
      → IsIndexed inv
      → add_elasticache_replication_group s region g inv ≡ ok inv'
      → IsIndexed inv'
  unfolding add_elasticache_replication_group
  add_replication-IsIndexed g inv inv' v h =
      elim (Bool-cases (s.all_elasticache_replication_groups || g.status == codes "available")) [
        | inr unwanted ↦ kept (rw unwanted at h) v
        | inl wanted ↦
            let (dest, addressed, h₁) =
              >>=-eq-ok (replication_destination g.node_groups) _ (rw wanted at h) in
            enter_replication-IsIndexed g dest inv inv' v h₁
      ]
