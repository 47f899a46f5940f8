-- ===== src/Inventory/Reachable.antt =====
-- The inventory that the handlers of ops/ansible/ec2.py build, one call after the other.
use reliable_broadcast.Prelude.{Option, ◌≡◌, refl, List, [], nat_eq, list_eq, Text}
use reliable_broadcast.Result.{Result, ok}
use reliable_broadcast.Dict.{Dict, lookup}
use reliable_broadcast.Inventory.Settings.{Settings, Instance, Inventory}
use reliable_broadcast.Inventory.Instances.{add_instance}
use reliable_broadcast.Inventory.Databases.{Database, add_rds_instance}
use reliable_broadcast.Inventory.Caches.{Cluster, ReplicationGroup}
use reliable_broadcast.Inventory.Caches.Adding.{
  add_elasticache_cluster, add_elasticache_replication_group,
}
use reliable_broadcast.Inventory.Indexed.{
  IsIndexed, add_instance-IsIndexed, add_rds_instance-IsIndexed, add_cluster-IsIndexed,
  add_replication-IsIndexed,
}

module _ (format : Text → List Text → Result Text) (s : Settings) where
  -- A call of a handler that returns.
  pub data Step : Inventory → Inventory → Type 0 where
    instance_step :
        {inv inv' : Inventory} (i : Instance) (region : Text)
        → add_instance format s i region inv ≡ ok inv'
        → Step inv inv'
    rds_step :
        {inv inv' : Inventory} (i : Database) (region : Text)
        → add_rds_instance s i region inv ≡ ok inv'
        → Step inv inv'
    cluster_step :
        {inv inv' : Inventory} (c : Cluster) (region : Text)
        → add_elasticache_cluster s region c inv ≡ ok inv'
        → Step inv inv'
    replication_step :
        {inv inv' : Inventory} (g : ReplicationGroup) (region : Text)
        → add_elasticache_replication_group s region g inv ≡ ok inv'
        → Step inv inv'

  -- The inventories that calls lead to, from the empty one.
  pub data Reachable : Inventory → Type 0 where
    empty :
        (aws_account_id : Option Text) (route53_records : Dict Text (List Text))
        → Reachable (record {
          groups = [];
          hostvars = [];
          index = [];
          aws_account_id = aws_account_id;
          route53_records = route53_records;
        })
    after : {inv inv' : Inventory} → Reachable inv → Step inv inv' → Reachable inv'

module _ (format : Text → List Text → Result Text) (s : Settings) where
  Step-IsIndexed : {inv inv' : Inventory} → IsIndexed inv → Step format s inv inv' → IsIndexed inv'
  Step-IsIndexed v (instance_step i region h) = add_instance-IsIndexed format s i region _ _ v h
  Step-IsIndexed v (rds_step i region h) = add_rds_instance-IsIndexed s region i _ _ v h
  Step-IsIndexed v (cluster_step c region h) = add_cluster-IsIndexed s region c _ _ v h
  Step-IsIndexed v (replication_step g region h) = add_replication-IsIndexed s region g _ _ v h

  -- In every inventory that calls of the handlers build, from the empty one and in any order, the
  -- hosts in the index are the hosts that have variables.
  pub Reachable-IsIndexed : {inv : Inventory} → Reachable format s inv → IsIndexed inv
  unfolding lookup
  Reachable-IsIndexed (empty account records) = record { at = λ k. refl }
  Reachable-IsIndexed (after r step) = Step-IsIndexed (Reachable-IsIndexed r) step
