-- ===== src/Inventory/Instances.antt =====
-- `add_instance` of ops/ansible/ec2.py.
pub mod Membership
pub mod Adding
use reliable_broadcast.Prelude.{
  Bool, true, false, not, ◌&&◌, Option, none, some, List, [], ◌∷◌, ◌++◌, map, contains, nat_eq,
  list_eq, if◌then◌else◌, Text, codes,
}
use reliable_broadcast.Result.{Result, ok, raise, ◌>>=◌, system_exit}
use reliable_broadcast.Dict.{Dict, insert}
use reliable_broadcast.Inventory.Groups.{Groups, host_list, push}
use reliable_broadcast.Inventory.Settings.{
  Settings, Instance, Inventory, words, states_of, enter_host,
}
use reliable_broadcast.Inventory.Filing.{
  truthy, safe, file_under, file_tags, file_all, own_group, file_zone,
}
use reliable_broadcast.Inventory.Address.{
  destination, configured_name, with_route53, route53_suffix, inventory_name, selected,
  get_instance_route53_names,
}
use reliable_broadcast.Inventory.HostVars.{get_host_info_dict_from_instance}

unfoldable pub is_empty : Dict Text Text → Bool
is_empty [] = true
is_empty (_ ∷ _) = false

module _ (s : Settings) where
  unfoldable pub platform_key : Option Text → Text
  platform_key none = safe s (codes "platform_undefined")
  platform_key (some platform) = safe s (codes "platform_" ++ platform)

  -- The groups of an attribute that may be missing.
  unfoldable pub optional_key : Text → Option Text → List Text
  optional_key prefix none = []
  optional_key prefix (some value) = safe s (prefix ++ value) ∷ []

  unfoldable pub security_group_keys : List Text → List Text
  security_group_keys = map (λ name. safe s (codes "security_group_" ++ name))

module _ (s : Settings) (instance' : Instance) (region hostname : Text) where
  unfoldable pub by_region : Groups → Groups
  by_region groups =
      if s.group_by_region then file_under s (codes "regions") region hostname groups else groups

  unfoldable pub by_ami_id : Groups → Groups
  by_ami_id groups =
      if s.group_by_ami_id
      then file_under s (codes "images") (safe s instance'.image_id) hostname groups
      else groups

  unfoldable pub by_instance_type : Groups → Groups
  by_instance_type groups =
      if s.group_by_instance_type
      then file_under s (codes "types") (safe s (codes "type_" ++ instance'.instance_type)) hostname
          groups
      else groups

  unfoldable pub by_instance_state : Groups → Groups
  by_instance_state groups =
      if s.group_by_instance_state
      then file_under s (codes "instance_states")
          (safe s (codes "instance_state_" ++ instance'.state)) hostname groups
      else groups

  unfoldable pub by_platform : Groups → Groups
  unfolding platform_key
  by_platform groups =
      if s.group_by_platform
      then file_under s (codes "platforms") (platform_key s (truthy instance'.platform)) hostname
          groups
      else groups

  unfoldable pub by_key_pair : Groups → Groups
  unfolding optional_key
  by_key_pair groups =
      if s.group_by_key_pair
      then file_all s (codes "keys") (optional_key s (codes "key_") (truthy instance'.key_name))
          hostname groups
      else groups

  unfoldable pub by_vpc_id : Groups → Groups
  unfolding optional_key
  by_vpc_id groups =
      if s.group_by_vpc_id
      then file_all s (codes "vpcs") (optional_key s (codes "vpc_id_") (truthy instance'.vpc_id))
          hostname groups
      else groups

  unfoldable pub by_security_groups : Option (List Text) → Groups → Result Groups
  unfolding security_group_keys
  by_security_groups none groups = raise system_exit
  by_security_groups (some names) groups =
      ok (file_all s (codes "security_groups") (security_group_keys s names) hostname groups)

  -- An old boto has no `groups`: the `AttributeError` ends the program.
  unfoldable pub by_security_group : Groups → Result Groups
  unfolding by_security_groups
  by_security_group groups =
      if s.group_by_security_group then by_security_groups instance'.groups groups else ok groups

  unfoldable pub by_aws_account : Text → Groups → Groups
  by_aws_account aws_account_id groups =
      if s.group_by_aws_account
      then file_under s (codes "accounts") aws_account_id hostname groups
      else groups

  unfoldable pub by_tag_keys : Groups → Groups
  by_tag_keys groups =
      if s.group_by_tag_keys then file_tags s instance'.tags hostname groups else groups

  unfoldable pub by_route53_names : List Text → Groups → Groups
  by_route53_names names groups =
      if s.route53_enabled && s.group_by_route53_names
      then file_all s (codes "route53") names hostname groups
      else groups

  unfoldable pub by_tag_none : Groups → Groups
  unfolding is_empty
  by_tag_none groups =
      if s.group_by_tag_none && is_empty instance'.tags
      then file_under s (codes "tags") (codes "tag_none") hostname groups
      else groups

  -- All the groups of an instance, in the order of the code.
  unfoldable pub group_instance : Text → List Text → Groups → Result Groups
  group_instance aws_account_id names groups = do
    let first = by_vpc_id (
        by_key_pair (
          by_platform (
            by_instance_state (
              by_instance_type (
                by_ami_id (
                  file_zone s s.group_by_availability_zone region instance'.placement hostname
                    (by_region (own_group s instance'.id hostname groups))))))))
    grouped ← by_security_group first
    let last = by_route53_names names (by_tag_keys (by_aws_account aws_account_id grouped))
    ok (push (by_tag_none last) (codes "ec2") hostname)

-- The account, which `get_instances_by_region` has set before it adds an instance.
abbrev pub known_account : Option Text → Text
known_account none = []
known_account (some account) = account

module _ (format : Text → List Text → Result Text) (s : Settings) where
  -- From the index on, for an instance that has an address and a name.
  unfoldable pub enter_instance : Instance → Text → Text → Text → Inventory → Result Inventory
  unfolding enter_host
  enter_instance instance' region dest hostname inventory = do
    let names = get_instance_route53_names s inventory.route53_records instance'
    groups ←
        group_instance s instance' region hostname (known_account inventory.aws_account_id) names
          inventory.groups
    info ←
        get_host_info_dict_from_instance s inventory.aws_account_id (some (states_of instance'))
          instance'.variables
    ok (
        enter_host hostname (region, instance'.id) (insert (codes "ansible_host") (words dest) info)
          groups inventory)

  -- A host that the patterns leave out is not added.
  unfoldable pub enter_if : Bool → Instance → Text → Text → Text → Inventory → Result Inventory
  unfolding enter_instance
  enter_if true instance' region dest hostname inventory =
      enter_instance instance' region dest hostname inventory
  enter_if false instance' region dest hostname inventory = ok inventory

  unfoldable pub hostname_of : Instance → Text → Inventory → Result Text
  hostname_of instance' dest inventory = do
    configured ← configured_name s instance'.tags instance'.attributes
    let names = get_instance_route53_names s inventory.route53_records instance'
    let named = with_route53 s (route53_suffix s) names configured
    ok (inventory_name s (truthy named) dest)

  unfoldable pub add_addressed : Instance → Text → Option Text → Inventory → Result Inventory
  unfolding enter_if hostname_of
  add_addressed instance' region none inventory = ok inventory
  add_addressed instance' region (some dest) inventory = do
    hostname ← hostname_of instance' dest inventory
    enter_if (selected s hostname) instance' region dest hostname inventory

  unfoldable pub add_instance : Instance → Text → Inventory → Result Inventory
  unfolding add_addressed
  add_instance instance' region inventory =
      if not (contains s.ec2_instance_states instance'.state)
      then ok inventory
      else do dest ← destination format s instance'; add_addressed instance' region dest inventory
