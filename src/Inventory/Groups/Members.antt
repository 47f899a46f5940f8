-- ===== src/Inventory/Groups/Members.antt =====
-- The hosts and the children of a group, and what the operations do to them.
use reliable_broadcast.Prelude.{
  ◌≡◌, refl, Option, none, some, List, [], ◌∷◌, ◌++◌, contains, arith, ◌==◌, nat_eq, list_eq,
  if◌then◌else◌, Text, list_beq_iff,
}
use reliable_broadcast.Dict.{lookup, lookup-insert, insert}
use reliable_broadcast.Inventory.Groups.{
  Entry, host_list, group_info, Groups, or_empty, push_entry, push, add_child, push_group_entry,
  push_group,
}

abbrev pub entry_hosts : Option Entry → List Text
entry_hosts none = []
entry_hosts (some (host_list hosts)) = hosts
entry_hosts (some (group_info hosts children)) = or_empty hosts

abbrev pub entry_children : Option Entry → List Text
entry_children none = []
entry_children (some (host_list hosts)) = []
entry_children (some (group_info hosts children)) = or_empty children

-- The hosts that are listed under a name, and the groups that are its children.
unfoldable pub hosts_of : Text → Groups → List Text
hosts_of key d = entry_hosts (lookup key d)

unfoldable pub children_of : Text → Groups → List Text
children_of key d = entry_children (lookup key d)

module _ (element : Text) where
  hosts-push_entry :
      (o : Option Entry) → entry_hosts (some (push_entry o element)) ≡ entry_hosts o ++ element ∷ []
  unfolding push_entry
  hosts-push_entry none = refl
  hosts-push_entry (some (host_list hosts)) = refl
  hosts-push_entry (some (group_info hosts children)) = refl

  children-push_entry :
      (o : Option Entry) → entry_children (some (push_entry o element)) ≡ entry_children o
  unfolding push_entry
  children-push_entry none = refl
  children-push_entry (some (host_list hosts)) = refl
  children-push_entry (some (group_info hosts children)) = refl

  hosts-push_group_entry :
      (o : Option Entry) → entry_hosts (some (push_group_entry o element)) ≡ entry_hosts o
  unfolding push_group_entry
  hosts-push_group_entry none = refl
  hosts-push_group_entry (some (host_list hosts)) = refl
  hosts-push_group_entry (some (group_info hosts children)) = refl

  children-push_group_entry :
      (o : Option Entry)
      → entry_children (some (push_group_entry o element)) ≡ (
          if contains (entry_children o) element
          then entry_children o
          else entry_children o ++ element ∷ [])
  unfolding push_group_entry add_child
  children-push_group_entry none = refl
  children-push_group_entry (some (host_list hosts)) = refl
  children-push_group_entry (some (group_info hosts children)) = refl

pub hosts_of-insert :
    (key k : Text) (e : Entry) (d : Groups)
    → hosts_of k (insert key e d) ≡ (if key == k then entry_hosts (some e) else hosts_of k d)
unfolding hosts_of
hosts_of-insert key k e d = ground (arith, lookup-insert key k e d)

-- `push` appends a host to the group of its key, and changes nothing else.
pub push_lem :
    (d : Groups) (key element k : Text)
    → (hosts_of k (push d key element)
        ≡ (if key == k then hosts_of k d ++ element ∷ [] else hosts_of k d))
      × (children_of k (push d key element) ≡ children_of k d)
unfolding push hosts_of children_of
push_lem d key element k = ground (
  arith,
  lookup-insert key k (push_entry (lookup key d) element) d,
  list_beq_iff key k,
  hosts-push_entry element (lookup key d),
  children-push_entry element (lookup key d),
)

-- `push_group` appends a child to the children of its key, unless it is among them, and changes nothing else.
pub push_group_lem :
    (d : Groups) (key element k : Text)
    → (hosts_of k (push_group d key element) ≡ hosts_of k d)
      × (children_of k (push_group d key element) ≡ (
          if key == k
          then (if contains (children_of k d) element
              then children_of k d
              else children_of k d ++ element ∷ [])
          else children_of k d))
unfolding push_group hosts_of children_of
push_group_lem d key element k = ground (
  arith,
  lookup-insert key k (push_group_entry (lookup key d) element) d,
  list_beq_iff key k,
  hosts-push_group_entry element (lookup key d),
  children-push_group_entry element (lookup key d),
)
