-- ===== src/Inventory/Cache.antt =====
-- ops/ansible/ec2.py: the choice between the cache files and the calls of the cloud, from
-- `__init__` to what is printed. The methods that call the cloud are parameters of the flow, one
-- reading of the clock stands for those of a run, and a file is the data last written to it and
-- when.
pub mod Printed
use reliable_broadcast.Prelude.{
  ℕ, ◌+◌, Bool, true, false, not, ◌&&◌, Option, none, some, List, [], ◌∷◌, ltb, list_eq, nat_eq,
  ◌==◌, if◌then◌else◌, Text, is_some,
}
use reliable_broadcast.Result.{Result, raise, ok, ◌>>=◌, file_not_found_error}
use reliable_broadcast.Dict.{Dict, lookup}
use reliable_broadcast.Inventory.Groups.{Groups}
use reliable_broadcast.Inventory.Settings.{Inventory, HostInfo}

-- `self.index`, by host.
abbrev pub Index : Type 0
Index = Dict Text (Text × Text)

-- `self.inventory`, as it is printed.
pub record Listing : Type 0 where
  pub groups : Groups
  pub hostvars : Dict Text HostInfo

abbrev pub listing_of : Inventory → Listing
listing_of inventory = record { groups = inventory.groups; hostvars = inventory.hostvars }

abbrev pub is_nil {ℓ} : {A : Type ℓ} → List A → Bool
is_nil [] = true
is_nil (x ∷ xs) = false

-- `self.inventory == self._empty_inventory()`
abbrev pub is_empty_inventory : Inventory → Bool
is_empty_inventory inventory = is_nil inventory.groups && is_nil inventory.hostvars

pub record CacheFiles : Type 0 where
  pub cache : Option (ℕ × Listing)
  pub index : Option Index

pub record Program : Type 0 where
  pub inventory : Inventory
  pub files : CacheFiles

-- The settings and the methods that call the cloud.
pub record Cloud : Type 0 where
  pub route53_enabled : Bool
  pub rds_enabled : Bool
  pub elasticache_enabled : Bool
  pub include_rds_clusters : Bool
  pub regions : List Text
  pub get_route53_records : Inventory → Result Inventory
  pub get_instances_by_region : Text → Inventory → Result Inventory
  pub get_rds_instances_by_region : Text → Inventory → Result Inventory
  pub get_elasticache_clusters_by_region : Text → Inventory → Result Inventory
  pub get_elasticache_replication_groups_by_region : Text → Inventory → Result Inventory
  pub include_rds_clusters_by_region : Text → Inventory → Result Inventory
  pub host_info : Text × Text → Result HostInfo

unfoldable pub is_cache_valid : ℕ → ℕ → CacheFiles → Bool
is_cache_valid cache_max_age now files = elim files.cache [
  | none ↦ false
  | some (mod_time, listing) ↦ ltb now (mod_time + cache_max_age) && is_some files.index
]

abbrev pub call_when : Bool → (Inventory → Result Inventory) → Inventory → Result Inventory
call_when true call inventory = call inventory
call_when false call inventory = ok inventory

pub data Output : Type 0 where
  listing : Listing → Output
  variables : HostInfo → Output

module _ (cloud : Cloud) where
  unfoldable pub call_region : Text → Inventory → Result Inventory
  call_region region inventory = do
    instances ← cloud.get_instances_by_region region inventory
    databases ← call_when cloud.rds_enabled (cloud.get_rds_instances_by_region region) instances
    clusters ←
        call_when cloud.elasticache_enabled (cloud.get_elasticache_clusters_by_region region)
          databases
    groups ←
        call_when cloud.elasticache_enabled
          (cloud.get_elasticache_replication_groups_by_region region) clusters
    call_when cloud.include_rds_clusters (cloud.include_rds_clusters_by_region region) groups

  unfoldable pub call_regions : List Text → Inventory → Result Inventory
  unfolding call_region
  call_regions [] inventory = ok inventory
  call_regions (region ∷ regions) inventory = do
    next ← call_region region inventory
    call_regions regions next

  -- The inventory and then the index are written, the inventory at `now`.
  unfoldable pub write_caches : ℕ → Inventory → Program
  write_caches now inventory = record {
    inventory = inventory;
    files = record { cache = some (now, listing_of inventory); index = some inventory.index };
  }

  unfoldable pub do_api_calls_update_cache : ℕ → Program → Result Program
  unfolding call_regions write_caches
  do_api_calls_update_cache now program = do
    records ← call_when cloud.route53_enabled cloud.get_route53_records program.inventory
    inventory ← call_regions cloud.regions records
    ok (write_caches now inventory)

  abbrev pub read_file {ℓ} : {A : Type ℓ} → Option A → Result A
  read_file none = raise file_not_found_error
  read_file (some content) = ok content

  unfoldable pub load_index : Program → Result Program
  load_index program =
      if is_nil program.inventory.index
      then read_file program.files.index >>= (λ index.
        ok (record program { inventory = record (program.inventory) { index = index } }))
      else ok program

  abbrev pub describe : Program → Option (Text × Text) → Result (Output × Program)
  describe program none = ok (variables [], program)
  describe program (some entry) = do info ← cloud.host_info entry; ok (variables info, program)

  -- A host that is not in the index is looked for once more after an update.
  unfoldable pub find_host : ℕ → Text → Program → Result (Output × Program)
  unfolding do_api_calls_update_cache
  find_host now host loaded =
      if is_some (lookup host loaded.inventory.index)
      then describe loaded (lookup host loaded.inventory.index)
      else do_api_calls_update_cache now loaded
        >>= (λ updated. describe updated (lookup host updated.inventory.index))

  unfoldable pub get_host_info : ℕ → Text → Program → Result (Output × Program)
  unfolding load_index find_host
  get_host_info now host program = load_index program >>= find_host now host

  -- `data_to_print` of `--list`
  unfoldable pub list_inventory : Program → Result (Output × Program)
  list_inventory program =
      if is_empty_inventory program.inventory
      then read_file program.files.cache >>= (λ stored. ok (listing stored.1, program))
      else ok (listing (listing_of program.inventory), program)

  unfoldable pub refresh : Bool → ℕ → ℕ → Program → Result Program
  unfolding is_cache_valid do_api_calls_update_cache
  refresh refresh_cache cache_max_age now program =
      if refresh_cache
      then do_api_calls_update_cache now program
      else if not (is_cache_valid cache_max_age now program.files)
      then do_api_calls_update_cache now program
      else ok program

  -- `args.host`, or none for `--list`
  unfoldable pub print_data : Option Text → ℕ → Program → Result (Output × Program)
  print_data none now program = list_inventory program
  print_data (some host) now program = get_host_info now host program

  unfoldable pub main : Bool → Option Text → ℕ → ℕ → Program → Result (Output × Program)
  unfolding refresh print_data
  main refresh_cache host cache_max_age now program = do
    ready ← refresh refresh_cache cache_max_age now program
    print_data host now ready
