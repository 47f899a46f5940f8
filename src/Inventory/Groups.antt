-- ===== src/Inventory/Groups.antt =====
-- The dictionary of groups of ops/ansible/ec2.py, `push` and `push_group`.
pub mod Members
use reliable_broadcast.Prelude.{
  Option, none, some, List, [], ◌∷◌, ◌++◌, contains, nat_eq, list_eq, if◌then◌else◌, Text,
}
use reliable_broadcast.Dict.{Dict, lookup, insert}

-- What a name stands for in the inventory: a list of hosts, or a dictionary that may have the keys
-- `hosts` and `children`. The entry `_meta` is kept apart.
pub data Entry : Type 0 where
  host_list : List Text → Entry
  group_info : Option (List Text) → Option (List Text) → Entry

abbrev pub Groups : Type 0
Groups = Dict Text Entry

abbrev pub or_empty : Option (List Text) → List Text
or_empty none = []
or_empty (some l) = l

unfoldable pub push_entry : Option Entry → Text → Entry
push_entry none element = host_list (element ∷ [])
push_entry (some (host_list hosts)) element = host_list (hosts ++ element ∷ [])
push_entry (some (group_info hosts children)) element =
    group_info (some (or_empty hosts ++ element ∷ [])) children

unfoldable pub push : Groups → Text → Text → Groups
unfolding push_entry
push my_dict key element = insert key (push_entry (lookup key my_dict) element) my_dict

-- `if element not in child_groups`
unfoldable pub add_child : Option (List Text) → Text → List Text
add_child children element =
    if contains (or_empty children) element
    then or_empty children
    else or_empty children ++ element ∷ []

unfoldable pub push_group_entry : Option Entry → Text → Entry
unfolding add_child
push_group_entry none element = group_info none (some (add_child none element))
push_group_entry (some (host_list hosts)) element =
    group_info (some hosts) (some (add_child none element))
push_group_entry (some (group_info hosts children)) element =
    group_info hosts (some (add_child children element))

unfoldable pub push_group : Groups → Text → Text → Groups
unfolding push_group_entry
push_group my_dict key element = insert key (push_group_entry (lookup key my_dict) element) my_dict
