-- ===== src/Witness/Inventory.antt =====
-- The inventory at concrete inputs.
use reliable_broadcast.Prelude.{
  get_elem?, All, length, ◌⊎◌, ◌≡◌, refl, true, false, ◌&&◌, none, some, List, [], ◌∷◌, ◌++◌,
  nat_eq, list_eq, list_beq, if◌then◌else◌, ◌==◌, length, Text, codes, ◌⊎◌, contains,
}
use reliable_broadcast.Result.{Result, ok, raise}
use reliable_broadcast.Dict.{lookup, insert}
use reliable_broadcast.Inventory.Names.{to_safe, lower, uncammelize, strip, starts_with}
use reliable_broadcast.Inventory.Names.Safe.{IsSafeChar, to_safe_lem}
use reliable_broadcast.Inventory.Groups.{Groups, host_list, push, push_group}
use reliable_broadcast.Inventory.Groups.Members.{hosts_of, children_of, push_lem, push_group_lem}
use reliable_broadcast.Inventory.Settings.{Settings, Instance, Inventory}
use reliable_broadcast.Inventory.Filing.{file_under, file_all, file_tags, own_group, file_zone}
use reliable_broadcast.Inventory.Filing.Copies.{copies}
use reliable_broadcast.Inventory.Address.{
  destination, configured_name, with_route53, inventory_name, selected, route53_suffix,
  get_instance_route53_names,
}
use reliable_broadcast.Inventory.HostVars.{get_host_info_dict_from_instance}
use reliable_broadcast.Inventory.Instances.{
  by_region, by_ami_id, by_instance_type, by_instance_state, by_platform, by_key_pair, by_vpc_id,
  by_security_group, by_aws_account, by_tag_keys, by_route53_names, by_tag_none, group_instance,
  add_instance,
}
use reliable_broadcast.Inventory.Instances.Membership.{instance_keys, group_instance-hosts_of}

uncammelize_test : uncammelize (codes "CacheClusterId") ≡ codes "cache_cluster_id"
unfolding uncammelize codes
uncammelize_test = refl

to_safe_test : to_safe true (codes "web.server-1") ≡ codes "web_server_1"
unfolding to_safe codes
to_safe_test = refl

strip_test : strip (codes "  a b ") ≡ codes "a b"
unfolding strip codes
strip_test = refl

to_safe_example :
    (length (to_safe false (codes "Web.Server-1")) ≡ length (codes "Web.Server-1"))
    × ((IsSafeChar false b'.' × (get_elem? (to_safe false (codes "Web.Server-1")) 3 ≡ some b'.'))
        ⊎ ((¬ IsSafeChar false b'.')
            × (get_elem? (to_safe false (codes "Web.Server-1")) 3 ≡ some b'_')))
    × All (IsSafeChar false) (lower (to_safe false (codes "Web.Server-1")))
unfolding codes get_elem?
to_safe_example = to_safe_lem false (codes "Web.Server-1") 3 b'.' refl

abbrev groups : Groups
groups = (codes "ec2", host_list (codes "a" ∷ [])) ∷ []

push_example :
    (hosts_of (codes "ec2") (push groups (codes "ec2") (codes "b")) ≡ (
      if codes "ec2" == codes "ec2"
      then hosts_of (codes "ec2") groups ++ codes "b" ∷ []
      else hosts_of (codes "ec2") groups))
    × (children_of (codes "ec2") (push groups (codes "ec2") (codes "b"))
        ≡ children_of (codes "ec2") groups)
push_example = push_lem groups (codes "ec2") (codes "b") (codes "ec2")

push_group_example :
    (hosts_of (codes "ec2") (push_group groups (codes "ec2") (codes "b"))
      ≡ hosts_of (codes "ec2") groups)
    × (children_of (codes "ec2") (push_group groups (codes "ec2") (codes "b")) ≡ (
        if codes "ec2" == codes "ec2"
        then (if contains (children_of (codes "ec2") groups) (codes "b")
            then children_of (codes "ec2") groups
            else children_of (codes "ec2") groups ++ codes "b" ∷ [])
        else children_of (codes "ec2") groups))
push_group_example = push_group_lem groups (codes "ec2") (codes "b") (codes "ec2")

abbrev pub settings : Settings
settings = record {
  ec2_instance_states = codes "running" ∷ [];
  destination_format = none;
  destination_format_tags = [];
  destination_variable = codes "public_dns_name";
  vpc_destination_variable = codes "ip_address";
  hostname_variable = some (codes "tag_Name");
  route53_enabled = false;
  route53_hostnames = none;
  pattern_include = none;
  pattern_exclude = none;
  replace_dash_in_groups = true;
  nested_groups = true;
  expand_csv_tags = false;
  all_rds_instances = false;
  group_by_instance_id = true;
  group_by_region = true;
  group_by_availability_zone = true;
  group_by_ami_id = true;
  group_by_instance_type = true;
  group_by_instance_state = false;
  group_by_platform = true;
  group_by_key_pair = true;
  group_by_vpc_id = true;
  group_by_security_group = true;
  group_by_aws_account = false;
  group_by_tag_keys = true;
  group_by_tag_none = true;
  group_by_route53_names = true;
  group_by_rds_engine = true;
  group_by_rds_parameter_group = true;
  all_elasticache_clusters = false;
  all_elasticache_nodes = false;
  all_elasticache_replication_groups = false;
  group_by_elasticache_cluster = true;
  group_by_elasticache_engine = true;
  group_by_elasticache_parameter_group = true;
  group_by_elasticache_replication_group = true;
  set_list = λ names. names;
}

abbrev pub machine : Instance
machine = record {
  id = codes "i-1";
  state = codes "running";
  state_code = 16;
  previous_state = none;
  previous_state_code = 0;
  subnet_id = some (codes "subnet-1");
  placement = codes "us-east-1a";
  image_id = codes "ami-1";
  instance_type = codes "t2.micro";
  platform = none;
  key_name = some (codes "ops");
  vpc_id = none;
  groups = some (codes "default" ∷ []);
  tags = (codes "Name", codes "Node.1") ∷ [];
  attributes = (codes "ip_address", some (codes "10.1.0.19")) ∷ [];
  variables = [];
}

abbrev pub inventory : Inventory
inventory = record {
  groups = [];
  hostvars = [];
  index = [];
  aws_account_id = some (codes "123");
  route53_records = [];
}

group_instance-hosts_of_example :
    (h : Groups) × (group_instance settings machine
        (codes "us-east-1")
        (codes "node_1")
        (codes "123")
        []
        []
      ≡ ok h)
    × ((k : Text)
        → hosts_of k h
          ≡ (if true && machine.id == k then codes "node_1" ∷ [] else hosts_of k [])
            ++ copies (codes "node_1") k (
                instance_keys settings machine
                  (codes "us-east-1")
                  (codes "node_1")
                  (codes "123")
                  []
                  (codes "default" ∷ [])))
group_instance-hosts_of_example =
    group_instance-hosts_of settings machine (codes "us-east-1") (codes "node_1") (codes "123") []
      (codes "default" ∷ []) [] refl

-- `str.format` for texts without fields.
abbrev pub plain_format : Text → List Text → Result Text
plain_format pattern' values = ok pattern'

-- The machine of the example is added as `node_1`.
abbrev pub added : Inventory
unfolding add_instance
added = elim (add_instance plain_format settings machine (codes "us-east-1") inventory) [
  | ok inv ↦ inv
  | raise e ↦ inventory
]

added_index : lookup (codes "node_1") added.index ≡ some (codes "us-east-1", codes "i-1")
unfolding add_instance destination get_instance_route53_names with_route53 route53_suffix
    configured_name inventory_name selected group_instance own_group by_region file_zone by_ami_id
    by_instance_type by_instance_state by_platform by_key_pair by_vpc_id by_security_group
    by_aws_account by_tag_keys by_route53_names by_tag_none file_under file_all file_tags push
    push_group get_host_info_dict_from_instance lookup insert contains list_beq codes to_safe lower
    starts_with
added_index = refl
