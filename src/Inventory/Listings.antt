-- ===== src/Inventory/Listings.antt =====
-- ops/ansible/ec2.py: the methods that list databases and caches, and what they write when the
-- cloud refuses. The connections are parameters, as the answers that they give.
pub mod Pages
use reliable_broadcast.Prelude.{
  ℕ, zero, suc, Bool, true, false, not, Option, none, some, List, [], ◌∷◌, ◌++◌, list_eq, nat_eq,
  ◌==◌, if◌then◌else◌, Text, codes,
}
use reliable_broadcast.Result.{Result, raise, ok, ◌>>=◌, index_error}
use reliable_broadcast.Dict.{Dict, insert}
use reliable_broadcast.Inventory.Settings.{Settings, Inventory, text, tag_set}
use reliable_broadcast.Inventory.Filters.{FilterValue, tags_match_filters}
use reliable_broadcast.Inventory.Databases.{Database, add_rds_instance}
use reliable_broadcast.Inventory.Caches.{Cluster, ReplicationGroup}
use reliable_broadcast.Inventory.Caches.Adding.{
  add_elasticache_cluster, add_elasticache_replication_group,
}
use reliable_broadcast.Inventory.Report.{
  Ending, exits, ending, get_auth_error_message, fail_with_error,
}

-- `boto.exception.BotoServerError`
pub record ServerError : Type 0 where
  pub error_code : Text
  pub reason : Text
  pub message : Text

pub data Reply {ℓ} (A : Type ℓ) : Type ℓ where
  refused : ServerError → Reply A
  replied : A → Reply A

unfoldable pub looks_down : Text → ServerError → Text
looks_down service e =
    if not (e.reason == codes "Forbidden")
    then codes "Looks like AWS " ++ (service ++ (codes " is down:" ++ (10 ∷ e.message)))
    else e.reason

module _ (env : Text → Option Text) (is_file : Text → Bool) where
  unfoldable pub rds_error : ServerError → Text
  unfolding looks_down
  rds_error e =
      if e.error_code == codes "AuthFailure"
      then get_auth_error_message env is_file
      else if e.error_code == codes "OptInRequired"
      then codes
          "RDS hasn't been enabled for this account yet. You must either log in to the RDS service through the AWS console to enable it, or set 'rds = False' in ec2.ini"
      else looks_down (codes "RDS") e

  unfoldable pub clusters_error : ServerError → Text
  unfolding looks_down
  clusters_error e =
      if e.error_code == codes "AuthFailure"
      then get_auth_error_message env is_file
      else if e.error_code == codes "OptInRequired"
      then codes
          "ElastiCache hasn't been enabled for this account yet. You must either log in to the ElastiCache service through the AWS console to enable it, or set 'elasticache = False' in ec2.ini"
      else looks_down (codes "ElastiCache") e

  -- The second test is not tied to the first, so that it replaces the advice on credentials.
  unfoldable pub replication_error : ServerError → Text
  replication_error e =
      if not (e.reason == codes "Forbidden")
      then codes "Looks like AWS ElastiCache [Replication Groups] is down:" ++ (10 ∷ e.message)
      else if e.error_code == codes "AuthFailure"
      then get_auth_error_message env is_file
      else e.reason

  module _ (s : Settings) (region : Text) where
    unfoldable pub add_clusters : List Cluster → Inventory → Result Inventory
    add_clusters [] inventory = ok inventory
    add_clusters (cluster ∷ clusters) inventory = do
      next ← add_elasticache_cluster s region cluster inventory
      add_clusters clusters next

    -- A reply in which a key is missing is `none`.
    abbrev pub clusters_ending : Reply (Option (List Cluster)) → Inventory → Ending
    clusters_ending (refused e) inventory =
        exits (fail_with_error (clusters_error e) (codes "getting ElastiCache clusters"))
    clusters_ending (replied none) inventory = exits (
        fail_with_error (codes "ElastiCache query to AWS failed (unexpected format).")
          (codes "getting ElastiCache clusters"))
    clusters_ending (replied (some clusters)) inventory = ending (add_clusters clusters inventory)

    unfoldable pub get_elasticache_clusters_by_region :
        Reply (Option (List Cluster)) → Inventory → Ending
    unfolding clusters_error add_clusters
    get_elasticache_clusters_by_region reply inventory = clusters_ending reply inventory

    unfoldable pub add_groups : List ReplicationGroup → Inventory → Result Inventory
    add_groups [] inventory = ok inventory
    add_groups (group ∷ groups) inventory = do
      next ← add_elasticache_replication_group s region group inventory
      add_groups groups next

    abbrev pub groups_ending : Reply (Option (List ReplicationGroup)) → Inventory → Ending
    groups_ending (refused e) inventory =
        exits (fail_with_error (replication_error e) (codes "getting ElastiCache clusters"))
    groups_ending (replied none) inventory = exits (
        fail_with_error
          (codes "ElastiCache [Replication Groups] query to AWS failed (unexpected format).")
          (codes "getting ElastiCache clusters"))
    groups_ending (replied (some groups)) inventory = ending (add_groups groups inventory)

    unfoldable pub get_elasticache_replication_groups_by_region :
        Reply (Option (List ReplicationGroup)) → Inventory → Ending
    unfolding replication_error add_groups
    get_elasticache_replication_groups_by_region reply inventory = groups_ending reply inventory

-- A page of databases, and the marker of the next page.
pub record Page : Type 0 where
  pub databases : List Database
  pub marker : Text

-- The connections of `get_rds_instances_by_region`: the first marker is none, here the empty text,
-- and a page whose marker is empty is the last. `arns` are those of the one call that describes
-- databases.
pub record RdsConnection : Type 0 where
  pub arns : List Text
  pub list_tags_for_resource : Text → List (Text × Text)
  pub get_all_dbinstances : Text → Reply Page

unfoldable pub tag_dict : Dict Text Text → List (Text × Text) → Dict Text Text
tag_dict d [] = d
tag_dict d ((key, value) ∷ tags) = tag_dict (insert key value d) tags

module _ (s : Settings) (stack_filters : Bool) (filters : List (Dict Text FilterValue))
    (conn : RdsConnection) (region : Text) where
  -- `instance.arn` and `instance.tags` are attributes that `vars` lists too.
  unfoldable pub add_database : Text → Database → Inventory → Result Inventory
  unfolding tag_dict
  add_database arn database inventory =
      let tags = tag_dict [] (conn.list_tags_for_resource arn) in
      if tags_match_filters stack_filters tags filters
      then add_rds_instance s
          (record database {
            tags = tags;
            variables =
                insert (codes "tags") (tag_set tags)
                  (insert (codes "arn") (text arn) database.variables);
          })
          region inventory
      else ok inventory

  -- The arns are counted from the first for each page.
  unfoldable pub add_page : List Text → List Database → Inventory → Result Inventory
  unfolding add_database
  add_page arns [] inventory = ok inventory
  add_page [] (database ∷ databases) inventory = raise index_error
  add_page (arn ∷ arns) (database ∷ databases) inventory = do
    next ← add_database arn database inventory
    add_page arns databases next

  module _ (env : Text → Option Text) (is_file : Text → Bool) where
    -- `rest` goes on with a marker.
    abbrev pub after_page :
        (Text → Inventory → Option Ending) → Text → Result Inventory → Option Ending
    after_page rest marker (raise e) = some (ending (raise e))
    after_page rest [] (ok inventory) = some (ending (ok inventory))
    after_page rest (c ∷ marker) (ok inventory) = rest (c ∷ marker) inventory

    unfoldable pub after_reply :
        (Text → Inventory → Option Ending) → Reply Page → Inventory → Option Ending
    unfolding add_page rds_error
    after_reply rest (refused e) inventory =
        some (exits (fail_with_error (rds_error env is_file e) (codes "getting RDS instances")))
    after_reply rest (replied page) inventory =
        after_page rest page.marker (add_page conn.arns page.databases inventory)

    -- The loop over the pages; `none` means that the fuel ran out.
    unfoldable pub add_pages : ℕ → Text → Inventory → Option Ending
    unfolding after_reply
    add_pages zero marker inventory = none
    add_pages (suc fuel) marker inventory =
        after_reply (add_pages fuel) (conn.get_all_dbinstances marker) inventory

    unfoldable pub get_rds_instances_by_region : Bool → ℕ → Inventory → Option Ending
    unfolding add_pages
    get_rds_instances_by_region has_boto3 fuel inventory =
        if not has_boto3
        then some (
            exits (
              fail_with_error
                (codes
                  "Working with RDS instances requires boto3 - please install boto3 and try again")
                (codes "getting RDS instances")))
        else add_pages fuel [] inventory
