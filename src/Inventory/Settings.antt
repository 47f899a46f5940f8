-- ===== src/Inventory/Settings.antt =====
-- The settings of ops/ansible/ec2.py that its handlers read, the state that they write, and the
-- objects of the cloud that they are given.
use reliable_broadcast.Prelude.{ℕ, Bool, Option, List, Text, list_eq, nat_eq}
use reliable_broadcast.Dict.{Dict, insert}
use reliable_broadcast.Inventory.Groups.{Groups}

-- The fields that `read_settings` fills. A pattern is the `match` of the compiled expression, and
-- `set_list` the order in which Python lists a set.
pub record Settings : Type 0 where
  pub ec2_instance_states : List Text
  pub destination_format : Option Text
  pub destination_format_tags : List Text
  pub destination_variable : Text
  pub vpc_destination_variable : Text
  pub hostname_variable : Option Text
  pub route53_enabled : Bool
  pub route53_hostnames : Option Text
  pub pattern_include : Option (Text → Bool)
  pub pattern_exclude : Option (Text → Bool)
  pub replace_dash_in_groups : Bool
  pub nested_groups : Bool
  pub expand_csv_tags : Bool
  pub all_rds_instances : Bool
  pub group_by_instance_id : Bool
  pub group_by_region : Bool
  pub group_by_availability_zone : Bool
  pub group_by_ami_id : Bool
  pub group_by_instance_type : Bool
  pub group_by_instance_state : Bool
  pub group_by_platform : Bool
  pub group_by_key_pair : Bool
  pub group_by_vpc_id : Bool
  pub group_by_security_group : Bool
  pub group_by_aws_account : Bool
  pub group_by_tag_keys : Bool
  pub group_by_tag_none : Bool
  pub group_by_route53_names : Bool
  pub group_by_rds_engine : Bool
  pub group_by_rds_parameter_group : Bool
  pub all_elasticache_clusters : Bool
  pub all_elasticache_nodes : Bool
  pub all_elasticache_replication_groups : Bool
  pub group_by_elasticache_cluster : Bool
  pub group_by_elasticache_engine : Bool
  pub group_by_elasticache_parameter_group : Bool
  pub group_by_elasticache_replication_group : Bool
  pub set_list : List Text → List Text

-- An attribute of a boto object, by the tests that `get_host_info_dict_from_instance` makes of it.
pub data Attribute : Type 0 where
  integer : ℕ → Attribute
  text : Text → Attribute
  null : Attribute
  region_info : Text → Attribute
  placement_info : Text → Attribute
  tag_set : Dict Text Text → Attribute
  group_set : List (Text × Text) → Attribute
  block_devices : Dict Text Text → Attribute
  other : Attribute

-- `boto.ec2.instance.Instance`: the attributes that are read by their names; `attributes` is what
-- `getattr` finds for a name from the settings, and `variables` what `vars` lists. `groups` is
-- missing in old versions of boto.
pub record Instance : Type 0 where
  pub id : Text
  pub state : Text
  pub state_code : ℕ
  pub previous_state : Option Text
  pub previous_state_code : ℕ
  pub subnet_id : Option Text
  pub placement : Text
  pub image_id : Text
  pub instance_type : Text
  pub platform : Option Text
  pub key_name : Option Text
  pub vpc_id : Option Text
  pub groups : Option (List Text)
  pub tags : Dict Text Text
  pub attributes : Dict Text (Option Text)
  pub variables : List (Text × Attribute)

-- What the properties `state` and `previous_state` of an instance tell.
pub record States : Type 0 where
  pub state : Text
  pub state_code : ℕ
  pub previous_state : Option Text
  pub previous_state_code : ℕ

abbrev pub states_of : Instance → States
states_of i = record {
  state = i.state;
  state_code = i.state_code;
  previous_state = i.previous_state;
  previous_state_code = i.previous_state_code;
}

-- A variable of a host in the inventory.
pub data Variable : Type 0 where
  number : ℕ → Variable
  words : Text → Variable
  word_list : List Text → Variable
  volumes : Dict Text Text → Variable
  unset : Variable

abbrev pub HostInfo : Type 0
HostInfo = Dict Text Variable

-- `self.inventory`, with `hostvars` for `_meta`, and the other fields that the handlers change.
-- `aws_account_id` is `None` until a reservation is found, so while only databases are added.
pub record Inventory : Type 0 where
  pub groups : Groups
  pub hostvars : Dict Text HostInfo
  pub index : Dict Text (Text × Text)
  pub aws_account_id : Option Text
  pub route53_records : Dict Text (List Text)

-- A host entered into the index and among the variables, with the groups as they then are.
unfoldable pub enter_host : Text → Text × Text → HostInfo → Groups → Inventory → Inventory
enter_host hostname entry variables groups inventory = record inventory {
  groups = groups;
  hostvars = insert hostname variables inventory.hostvars;
  index = insert hostname entry inventory.index;
}
