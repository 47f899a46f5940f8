-- ===== src/Inventory/HostVars.antt =====
-- `get_host_info_dict_from_instance` of ops/ansible/ec2.py: the variables of a host.
use reliable_broadcast.Prelude.{
  ◌&&◌, Option, none, some, List, [], ◌∷◌, ◌++◌, map, contains, nat_eq, list_eq, if◌then◌else◌,
  Text, codes, ◌==◌,
}
use reliable_broadcast.Result.{Result, ok, raise, ◌>>=◌, attribute_error}
use reliable_broadcast.Dict.{Dict, insert}
use reliable_broadcast.Inventory.Names.{strip, split, join}
use reliable_broadcast.Inventory.Settings.{
  Settings, States, Attribute, integer, text, null, region_info, placement_info, tag_set, group_set,
  block_devices, Variable, number, words, word_list, volumes, unset, HostInfo,
}
use reliable_broadcast.Inventory.Filing.{safe}

-- `os.path.basename`: what follows the last slash
abbrev tail_of : Text → List Text → Text
tail_of part [] = part
tail_of part (next ∷ parts) = tail_of next parts

abbrev last_part : List Text → Text
last_part [] = []
last_part (part ∷ parts) = tail_of part parts

unfoldable pub basename : Text → Text
basename path = last_part (split b'/' path)

abbrev or_blank : Option Text → Text
or_blank none = []
or_blank (some value) = value

-- `instance_vars["ec2_block_devices"][os.path.basename(k)] = v.volume_id`
unfoldable pub volumes_by_name : Dict Text Text → Dict Text Text → Dict Text Text
unfolding basename
volumes_by_name [] named = named
volumes_by_name ((k, volume_id) ∷ devices) named =
    volumes_by_name devices (insert (basename k) volume_id named)

abbrev account_variable : Option Text → Variable
account_variable none = unset
account_variable (some account) = words account

module _ (s : Settings) where
  -- `ec2_tag_...`, a list where the value is expanded
  unfoldable pub tag_variable : Text → Variable
  tag_variable v =
      if s.expand_csv_tags && contains v b',' then word_list (map strip (split b',' v)) else words v

  unfoldable pub tag_variables : Dict Text Text → HostInfo → HostInfo
  unfolding tag_variable
  tag_variables [] info = info
  tag_variables ((k, v) ∷ tags) info =
      tag_variables tags (insert (safe s (codes "ec2_tag_" ++ k)) (tag_variable v) info)

  -- An attribute that is an object, by the name under which it stands.
  unfoldable pub object_variable : Text → Attribute → HostInfo → Result HostInfo
  unfolding tag_variables volumes_by_name
  object_variable key value info =
      if key == codes "ec2_region"
      then (elim value [
        | region_info name ↦ ok (insert key (words name) info)
        | _ ↦ raise attribute_error
      ])
      else if key == codes "ec2__placement"
      then (elim value [
        | placement_info zone ↦ ok (insert (codes "ec2_placement") (words zone) info)
        | _ ↦ raise attribute_error
      ])
      else if key == codes "ec2_tags"
      then (elim value [ tag_set tags ↦ ok (tag_variables tags info) | _ ↦ raise attribute_error ])
      else if key == codes "ec2_groups"
      then (elim value [
        | group_set groups ↦ ok (
            insert (codes "ec2_security_group_names") (words (join b',' (map (λ g. g.1) groups))) (
              insert (codes "ec2_security_group_ids") (words (join b',' (map (λ g. g.0) groups)))
                info))
        | _ ↦ raise attribute_error
      ])
      else if key == codes "ec2_block_device_mapping"
      then (elim value [
        | block_devices devices ↦
            ok (insert (codes "ec2_block_devices") (volumes (volumes_by_name devices [])) info)
        | _ ↦ raise attribute_error
      ])
      else ok info

  -- The tests on the type of a value come before those on most of the names.
  unfoldable pub plain_variable : Text → Attribute → HostInfo → Result HostInfo
  unfolding object_variable
  plain_variable key (integer n) info = ok (insert key (number n) info)
  plain_variable key (text value) info = ok (insert key (words (strip value)) info)
  plain_variable key null info = ok (insert key (words []) info)
  plain_variable key value info = object_variable key value info

  -- The two properties that stand for a pair of variables.
  unfoldable pub state_variables : States → HostInfo → HostInfo
  state_variables states info =
      insert (codes "ec2_state_code") (number states.state_code)
        (insert (codes "ec2_state") (words states.state) info)

  unfoldable pub previous_state_variables : States → HostInfo → HostInfo
  previous_state_variables states info =
      insert (codes "ec2_previous_state_code") (number states.previous_state_code)
        (insert (codes "ec2_previous_state") (words (or_blank states.previous_state)) info)

  -- An object without states has no such properties.
  abbrev with_states : Option States → (States → HostInfo) → Result HostInfo
  with_states none describe = raise attribute_error
  with_states (some states) describe = ok (describe states)

  unfoldable pub add_variable : Option States → Text → Attribute → HostInfo → Result HostInfo
  unfolding plain_variable state_variables previous_state_variables
  add_variable states name value info =
      let key = safe s (codes "ec2_" ++ name) in
      if key == codes "ec2__state"
      then with_states states (λ st. state_variables st info)
      else if key == codes "ec2__previous_state"
      then with_states states (λ st. previous_state_variables st info)
      else plain_variable key value info

  unfoldable pub add_variables :
      Option States → List (Text × Attribute) → HostInfo → Result HostInfo
  unfolding add_variable
  add_variables states [] info = ok info
  add_variables states ((name, value) ∷ variables) info = do
    info' ← add_variable states name value info
    add_variables states variables info'

  unfoldable pub get_host_info_dict_from_instance :
      Option Text → Option States → List (Text × Attribute) → Result HostInfo
  unfolding add_variables
  get_host_info_dict_from_instance aws_account_id states variables = do
    info ← add_variables states variables []
    ok (insert (safe s (codes "ec2_account_id")) (account_variable aws_account_id) info)
