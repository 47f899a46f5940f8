-- ===== src/Inventory/Databases.antt =====
-- `add_rds_instance` of ops/ansible/ec2.py.
pub mod Membership
pub mod Adding
use reliable_broadcast.Prelude.{
  Bool, true, false, not, ◌&&◌, ◌||◌, Option, none, some, List, [], ◌∷◌, ◌++◌, nat_eq, list_eq,
  if◌then◌else◌, Text, codes, ◌==◌,
}
use reliable_broadcast.Result.{Result, ok, raise, ◌>>=◌, system_exit, type_error}
use reliable_broadcast.Dict.{Dict, insert}
use reliable_broadcast.Inventory.Groups.{Groups, push}
use reliable_broadcast.Inventory.Names.{lower}
use reliable_broadcast.Inventory.Settings.{Settings, Attribute, Inventory, words, enter_host}
use reliable_broadcast.Inventory.Filing.{
  truthy, safe, file_all, file_tags, file_if, own_group, file_zone,
}
use reliable_broadcast.Inventory.Address.{configured_name}
use reliable_broadcast.Inventory.HostVars.{get_host_info_dict_from_instance}
use reliable_broadcast.Inventory.Instances.{is_empty, optional_key}

-- `boto.rds.dbinstance.DBInstance`, as `Instance`. The address is the first part of `endpoint`,
-- which is `None` while a database is being created. `security_group` is missing in old versions of
-- boto; where it is not, it is `None` or a group with a name.
pub record Database : Type 0 where
  pub id : Text
  pub status : Text
  pub endpoint : Option Text
  pub availability_zone : Text
  pub instance_class : Text
  pub subnet_group : Option (Option Text)
  pub security_group : Option (Option Text)
  pub tags : Dict Text Text
  pub engine : Text
  pub parameter_group : Text
  pub attributes : Dict Text (Option Text)
  pub variables : List (Text × Attribute)

-- `instance.subnet_group and instance.subnet_group.vpc_id`
abbrev pub vpc_of : Option (Option Text) → Option Text
vpc_of none = none
vpc_of (some vpc_id) = truthy vpc_id

module _ (s : Settings) (instance' : Database) (region hostname : Text) where
  unfoldable pub by_rds_security_groups : Option (Option Text) → Groups → Result Groups
  by_rds_security_groups none groups = raise system_exit
  by_rds_security_groups (some name) groups = ok (
      file_all s (codes "security_groups") (optional_key s (codes "security_group_") name) hostname
        groups)

  unfoldable pub by_rds_security_group : Groups → Result Groups
  unfolding by_rds_security_groups
  by_rds_security_group groups =
      if s.group_by_security_group
      then by_rds_security_groups instance'.security_group groups
      else ok groups

  -- From the region to the VPC.
  unfoldable pub group_place : Groups → Groups
  group_place groups =
      let in_region =
        file_if s s.group_by_region (codes "regions") (region ∷ []) hostname
          (own_group s instance'.id hostname groups) in
      let in_zone =
        file_zone s s.group_by_availability_zone region instance'.availability_zone hostname
          in_region in
      let typed =
        file_if s s.group_by_instance_type (codes "types")
          (safe s (codes "type_" ++ instance'.instance_class) ∷ []) hostname in_zone in
      file_if s s.group_by_vpc_id (codes "vpcs")
        (optional_key s (codes "vpc_id_") (vpc_of instance'.subnet_group)) hostname typed

  -- From the tags on.
  unfoldable pub group_kind : Groups → Groups
  group_kind groups =
      let tagged =
        if s.group_by_tag_keys then file_tags s instance'.tags hostname groups else groups in
      let in_engine =
        file_if s s.group_by_rds_engine (codes "rds_engines")
          (safe s (codes "rds_" ++ instance'.engine) ∷ []) hostname tagged in
      let with_parameters =
        file_if s s.group_by_rds_parameter_group (codes "rds_parameter_groups")
          (safe s (codes "rds_parameter_group_" ++ instance'.parameter_group) ∷ []) hostname
          in_engine in
      let untagged =
        file_if s (s.group_by_tag_none && is_empty instance'.tags) (codes "tags")
          (codes "tag_none" ∷ []) hostname with_parameters in
      push untagged (codes "rds") hostname

  unfoldable pub group_rds : Groups → Result Groups
  unfolding group_place group_kind
  group_rds groups = do
    grouped ← by_rds_security_group (group_place groups)
    ok (group_kind grouped)

module _ (s : Settings) where
  -- The name that the settings ask for, or else the address; `to_safe` is applied to both.
  unfoldable pub rds_name : Option Text → Text → Text
  rds_name none dest = lower (safe s dest)
  rds_name (some hostname) dest = lower (safe s hostname)

  unfoldable pub enter_rds : Database → Text → Text → Text → Inventory → Result Inventory
  unfolding group_rds enter_host
  enter_rds instance' region dest hostname inventory = do
    groups ← group_rds s instance' region hostname inventory.groups
    info ← get_host_info_dict_from_instance s inventory.aws_account_id none instance'.variables
    ok (
        enter_host hostname (region, instance'.id) (insert (codes "ansible_host") (words dest) info)
          groups inventory)

  -- `if not dest: return`
  unfoldable pub add_addressed_rds : Database → Text → Option Text → Inventory → Result Inventory
  unfolding enter_rds rds_name
  add_addressed_rds instance' region none inventory = ok inventory
  add_addressed_rds instance' region (some dest) inventory = do
    configured ← configured_name s instance'.tags instance'.attributes
    enter_rds instance' region dest (rds_name (truthy configured) dest) inventory

  -- `instance.endpoint[0]`
  unfoldable pub rds_destination : Option Text → Result (Option Text)
  rds_destination none = raise type_error
  rds_destination (some address) = ok (truthy (some address))

  -- `not self.all_rds_instances and instance.status != 'available'`
  unfoldable pub is_wanted : Database → Bool
  is_wanted instance' = s.all_rds_instances || instance'.status == codes "available"

  unfoldable pub add_rds_instance : Database → Text → Inventory → Result Inventory
  unfolding add_addressed_rds rds_destination is_wanted
  add_rds_instance instance' region inventory =
      if not (is_wanted instance') then ok inventory else do
        dest ← rds_destination instance'.endpoint
        add_addressed_rds instance' region dest inventory
