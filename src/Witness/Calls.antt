-- ===== src/Witness/Calls.antt =====
-- The calls of the inventory, its cache files and its settings, and the scripts, at concrete inputs.
use reliable_broadcast.Prelude.{
  ℕ, ◌+◌, ◌<◌, ◌≤◌, ◌≡◌, refl, true, false, ◌&&◌, ◌||◌, none, some, List, [], ◌∷◌, ◌⊎◌, map, length,
  contains, Distinct, All, list_eq, nat_eq, list_beq, if◌then◌else◌, ◌==◌, Text, codes,
}
use reliable_broadcast.Result.{ok}
use reliable_broadcast.Dict.{lookup, insert}
use reliable_broadcast.Inventory.Names.{split, strip}
use reliable_broadcast.Inventory.Settings.{Inventory}
use reliable_broadcast.Inventory.Calls.{Connection, Reservation, Tag, answer, slices}
use reliable_broadcast.Inventory.Calls.Batches.{joined, slices_lem}
use reliable_broadcast.Inventory.Calls.Tagged.{tags_among}
use reliable_broadcast.Inventory.Report.{get_instances_by_region}
use reliable_broadcast.Inventory.Cache.{
  Cloud, Program, Listing, listing, listing_of, main, refresh, print_data, list_inventory,
  do_api_calls_update_cache, call_regions, write_caches,
}
use reliable_broadcast.Inventory.Cache.Printed.{main-cached}
use reliable_broadcast.Inventory.Reading.{
  instance_states, ec2_valid_instance_states, read_filters, read_filter_sets, read_filter_set,
  add_filter, cut_at,
}
use reliable_broadcast.Inventory.Reading.States.{contains-instance_states}
use reliable_broadcast.ProcessManager.{
  DiskEntry, node_directory, pipes_dir, chains_conf_dir, chain_file, fifo, node_file, default_chain,
  default_node, init_configs,
}
use reliable_broadcast.Files.{Disk}
use reliable_broadcast.ProcessManager.Made.{
  IsClear, node_path, fifo_path, chain_path, lookup-init_configs,
}
use reliable_broadcast.Client.Words.{string_generator}
use reliable_broadcast.Client.Words.Different.{Distinct-string_generator}
use reliable_broadcast.Witness.Inventory.{machine, inventory}

abbrev two_ids : List Text
two_ids = codes "i-1" ∷ codes "i-2" ∷ []

slices_example :
    (joined (slices 2 0 two_ids) ≡ two_ids) × All (λ batch. length batch ≤ 199) (slices 2 0 two_ids)
slices_example = slices_lem two_ids

abbrev known_tags : List Tag
known_tags =
    record { res_id = codes "i-1"; name = codes "env"; value = codes "test" }
    ∷ record { res_id = codes "i-9"; name = codes "env"; value = codes "live" }
    ∷ []

abbrev reservation : Reservation
reservation = record { owner_id = codes "123"; instances = machine ∷ [] }

abbrev connection : Connection
connection = record {
  get_all_instances = λ filters. answer (reservation ∷ []);
  get_all_tags = λ ids. answer (tags_among ids known_tags);
}

abbrev nothing : Inventory
nothing = record {
  groups = [];
  hostvars = [];
  index = [];
  aws_account_id = none;
  route53_records = [];
}

abbrev quiet_cloud : Cloud
quiet_cloud = record {
  route53_enabled = false;
  rds_enabled = false;
  elasticache_enabled = false;
  include_rds_clusters = false;
  regions = codes "eu-west-1" ∷ [];
  get_route53_records = λ inventory. ok inventory;
  get_instances_by_region = λ region before. ok inventory;
  get_rds_instances_by_region = λ region inventory. ok inventory;
  get_elasticache_clusters_by_region = λ region inventory. ok inventory;
  get_elasticache_replication_groups_by_region = λ region inventory. ok inventory;
  include_rds_clusters_by_region = λ region inventory. ok inventory;
  host_info = λ entry. ok [];
}

abbrev first_run : Program
first_run = record { inventory = nothing; files = record { cache = none; index = none } }

abbrev after_run : Program
after_run = write_caches quiet_cloud 1000 inventory

main-cached_example :
    (at : ℕ) × (stored : Listing) × (after_run.files.cache ≡ some (at, stored))
    × (listing (listing_of inventory) ≡ listing stored)
    × ((at ≡ 1000) ⊎ ((true ≡ false) × (1000 < at + 300)))
unfolding main refresh print_data list_inventory do_api_calls_update_cache call_regions
main-cached_example =
    main-cached quiet_cloud true 300 1000 first_run after_run (listing (listing_of inventory)) refl
      refl

contains-instance_states_example :
    contains (instance_states false (some (codes "running, stopped,bad"))) (codes "stopped") ≡ (
      contains ec2_valid_instance_states (codes "stopped")
      && (false
          || contains (map strip (split b',' (codes "running, stopped,bad"))) (codes "stopped")))
contains-instance_states_example =
    contains-instance_states false (some (codes "running, stopped,bad")) (codes "stopped")

-- A filter without a sign, and one without a key, are passed over.
read_filters_test :
    read_filters false (some (codes "tag:env=a & x,instance-type=t1&=z"))
    ≡ ok (((codes "tag:env", codes "a") ∷ []) ∷ ((codes "instance-type", codes "t1") ∷ []) ∷ [])
unfolding read_filters read_filter_sets read_filter_set add_filter cut_at split strip codes list_beq
    insert
read_filters_test = refl

abbrev empty_disk : Disk DiskEntry
empty_disk = record { directories = []; entries = [] }

empty_disk-IsClear : IsClear empty_disk
unfolding lookup contains
empty_disk-IsClear = record {
  tmp = refl;
  node_directory = refl;
  pipes_dir = refl;
  chains_conf_dir = refl;
  node_path = refl;
  fifo_path = refl;
  chain_path = refl;
}

lookup-init_configs_example :
    (disk : Disk DiskEntry) × (init_configs empty_disk ≡ ok disk)
    × (contains disk.directories node_directory ≡ true)
    × (contains disk.directories pipes_dir ≡ true)
    × (contains disk.directories chains_conf_dir ≡ true)
    × (lookup fifo_path disk.entries ≡ (
        if chain_path == fifo_path
        then some (chain_file default_chain)
        else if fifo_path == fifo_path
        then some fifo
        else if node_path == fifo_path
        then some (node_file default_node)
        else lookup fifo_path empty_disk.entries))
lookup-init_configs_example = lookup-init_configs fifo_path empty_disk empty_disk-IsClear

Distinct-string_generator_example : Distinct (string_generator 1)
Distinct-string_generator_example = Distinct-string_generator 1
