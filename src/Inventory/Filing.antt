-- ===== src/Inventory/Filing.antt =====
-- The step that the handlers of ops/ansible/ec2.py repeat: push a host to a group, and, with nested
-- groups, push the group to its parent.
pub mod Copies
use reliable_broadcast.Prelude.{
  Bool, ◌&&◌, Option, none, some, List, [], ◌∷◌, ◌++◌, map, contains, nat_eq, list_eq,
  if◌then◌else◌, Text, codes,
}
use reliable_broadcast.Dict.{Dict, insert}
use reliable_broadcast.Inventory.Groups.{Groups, host_list, push, push_group}
use reliable_broadcast.Inventory.Names.{to_safe, split, strip}
use reliable_broadcast.Inventory.Settings.{Settings}

-- A value that is `None` or empty counts as false.
abbrev pub truthy : Option Text → Option Text
truthy none = none
truthy (some []) = none
truthy (some (c ∷ s)) = some (c ∷ s)

module _ (s : Settings) where
  abbrev pub safe : Text → Text
  safe = to_safe s.replace_dash_in_groups

  unfoldable pub nest : Text → Text → Groups → Groups
  nest parent key groups = if s.nested_groups then push_group groups parent key else groups

  unfoldable pub file_under : Text → Text → Text → Groups → Groups
  unfolding nest
  file_under parent key hostname groups = nest parent key (push groups key hostname)

  -- The values of a tag: with `expand_csv_tags` the parts between commas.
  unfoldable pub tag_values : Text → List Text
  tag_values v = if s.expand_csv_tags && contains v b',' then map strip (split b',' v) else v ∷ []

  unfoldable pub tag_key : Text → Text → Text
  tag_key k [] = safe (codes "tag_" ++ k)
  tag_key k (c ∷ v) = safe (codes "tag_" ++ (k ++ (codes "=" ++ c ∷ v)))

  -- The parents of a tag's group.
  unfoldable pub nest_tag : Text → Text → Groups → Groups
  unfolding nest tag_key
  nest_tag k [] groups = nest (codes "tags") (safe (codes "tag_" ++ k)) groups
  nest_tag k (c ∷ v) groups =
      nest (safe (codes "tag_" ++ k)) (tag_key k (c ∷ v))
        (nest (codes "tags") (safe (codes "tag_" ++ k)) groups)

  unfoldable pub file_tag_values : Text → List Text → Text → Groups → Groups
  unfolding nest_tag
  file_tag_values k [] hostname groups = groups
  file_tag_values k (v ∷ values) hostname groups =
      file_tag_values k values hostname (nest_tag k v (push groups (tag_key k v) hostname))

  unfoldable pub file_tags : Dict Text Text → Text → Groups → Groups
  unfolding file_tag_values tag_values
  file_tags [] hostname groups = groups
  file_tags ((k, v) ∷ tags) hostname groups =
      file_tags tags hostname (file_tag_values k (tag_values v) hostname groups)

  -- A host pushed to several groups under one parent.
  unfoldable pub file_all : Text → List Text → Text → Groups → Groups
  unfolding file_under
  file_all parent [] hostname groups = groups
  file_all parent (key ∷ keys) hostname groups =
      file_all parent keys hostname (file_under parent key hostname groups)

  unfoldable pub file_if : Bool → Text → List Text → Text → Groups → Groups
  unfolding file_all
  file_if asked parent keys hostname groups =
      if asked then file_all parent keys hostname groups else groups

  -- A host pushed to a group, and a name, which may be another, to the parent.
  unfoldable pub file_as : Bool → Text → Text → Text → Text → Groups → Groups
  unfolding nest
  file_as asked parent child key hostname groups =
      if asked then nest parent child (push groups key hostname) else groups

  -- The group of one host that is named by its id: `self.inventory[instance.id] = [hostname]`
  unfoldable pub own_group : Text → Text → Groups → Groups
  unfolding nest
  own_group id hostname groups =
      if s.group_by_instance_id
      then nest (codes "instances") id (insert id (host_list (hostname ∷ [])) groups)
      else groups

  -- A zone stands under its region too.
  unfoldable pub file_zone : Bool → Text → Text → Text → Groups → Groups
  unfolding nest
  file_zone asked region zone hostname groups =
      if asked
      then nest (codes "zones") zone (
          let pushed = push groups zone hostname in
          if s.group_by_region then nest region zone pushed else pushed)
      else groups
