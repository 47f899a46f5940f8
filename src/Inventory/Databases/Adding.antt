-- ===== src/Inventory/Databases/Adding.antt =====
-- The inventory after a database has been added.
use reliable_broadcast.Prelude.{
  ◌≡◌, if_false, ap, not, ◌∙◌, refl, true, ◌||◌, ◌&&◌, Option, none, some, List, [], ◌∷◌, ◌++◌,
  ◌==◌, nat_eq, list_eq, if◌then◌else◌, Text, codes,
}
use reliable_broadcast.Result.{ok, ◌>>=◌}
use reliable_broadcast.Dict.{lookup, insert, lookup-insert}
use reliable_broadcast.Inventory.Names.{lower, to_safe}
use reliable_broadcast.Inventory.Groups.Members.{hosts_of}
use reliable_broadcast.Inventory.Settings.{Settings, Inventory, HostInfo, words, enter_host}
use reliable_broadcast.Inventory.Filing.{truthy}
use reliable_broadcast.Inventory.Filing.Copies.{copies}
use reliable_broadcast.Inventory.Address.{configured_name}
use reliable_broadcast.Inventory.HostVars.{get_host_info_dict_from_instance}
use reliable_broadcast.Inventory.Databases.{
  Database, rds_name, enter_rds, add_addressed_rds, rds_destination, is_wanted, add_rds_instance,
}
use reliable_broadcast.Inventory.Databases.Membership.{rds_keys, group_rds-hosts_of}

module _ (s : Settings) (i : Database) (region : Text) (inv : Inventory) where
  -- `inv'` has the database under its name: in the index, with its variables and its address, and
  -- in its groups. Nothing is said of other hosts but that they are as they were.
  pub record Added (hostname dest : Text) (info : HostInfo) (keys : List Text) (inv' : Inventory)
      : Type 0 where
    pub index_at :
        (k : Text)
        → lookup k inv'.index ≡ (if hostname == k then some (region, i.id) else lookup k inv.index)
    pub hostvars_at :
        (k : Text)
        → lookup k inv'.hostvars ≡ (
            if hostname == k
            then some (insert (codes "ansible_host") (words dest) info)
            else lookup k inv.hostvars)
    pub hosts_at :
        (k : Text)
        → hosts_of k inv'.groups
          ≡ (if s.group_by_instance_id && i.id == k then hostname ∷ [] else hosts_of k inv.groups)
            ++ copies hostname k keys

  enter_rds-Added :
      (hostname dest : Text) (name : Option Text) (info : HostInfo)
      → i.security_group ≡ some name
      → get_host_info_dict_from_instance s inv.aws_account_id none i.variables ≡ ok info
      → (inv' : Inventory) × (enter_rds s i region dest hostname inv ≡ ok inv')
        × Added hostname dest info (rds_keys s i region hostname name) inv'
  unfolding enter_rds enter_host
  enter_rds-Added hostname dest name info known described =
      let (groups, grouped, at) = group_rds-hosts_of s i region hostname name inv.groups known in
      (
        enter_host hostname (region, i.id) (insert (codes "ansible_host") (words dest) info) groups
            inv,
        rw (grouped, described, enter_rds),
        record {
          index_at = λ k. lookup-insert hostname k (region, i.id) inv.index;
          hostvars_at = λ k.
              lookup-insert hostname k (insert (codes "ansible_host") (words dest) info)
                inv.hostvars;
          hosts_at = at;
        },
      )

  -- The name in the inventory, in lower case, without unsafe characters.
  abbrev pub host_name : Option Text → Text → Text
  host_name (some (c ∷ name)) address = lower (to_safe s.replace_dash_in_groups (c ∷ name))
  host_name _ address = lower (to_safe s.replace_dash_in_groups address)

  -- The end of a call for a database with this address and these configured name, security group
  -- and variables. One whose address is empty is passed over.
  abbrev pub AddedAt : (address : Text) → (configured name : Option Text) → HostInfo → Type 0
  AddedAt [] configured name info = add_rds_instance s i region inv ≡ ok inv
  AddedAt (c ∷ address) configured name info =
      (inv' : Inventory) × (add_rds_instance s i region inv ≡ ok inv')
      × Added (host_name configured (c ∷ address)) (c ∷ address) info
          (rds_keys s i region (host_name configured (c ∷ address)) name) inv'

  rds_name-host_name :
      (configured : Option Text) (dest : Text)
      → rds_name s (truthy configured) dest ≡ host_name configured dest
  unfolding rds_name
  rds_name-host_name none dest = refl
  rds_name-host_name (some []) dest = refl
  rds_name-host_name (some (c ∷ name)) dest = refl

  -- A database that is available or wanted anyway, whose endpoint is known, whose configured name
  -- can be read, whose security group boto knows and whose variables can be described, is passed
  -- over if its address is empty. Else it is added under its configured name or, where that is
  -- missing or empty, its address, made safe and in lower case: the index, the variables and the
  -- groups hold it, and no other host's entry changes.
  pub add_rds_instance-Added :
      (address : Text) (configured name : Option Text) (info : HostInfo)
      → (s.all_rds_instances || i.status == codes "available") ≡ true
      → i.endpoint ≡ some address
      → configured_name s i.tags i.attributes ≡ ok configured
      → i.security_group ≡ some name
      → get_host_info_dict_from_instance s inv.aws_account_id none i.variables ≡ ok info
      → AddedAt address configured name info
  unfolding add_rds_instance rds_destination is_wanted add_addressed_rds
  add_rds_instance-Added [] configured name info wanted known_address named known described =
      rw (wanted, known_address) refl
  add_rds_instance-Added (c ∷ address) configured name info wanted known_address named known
        described =
      let (inv', entered, added) =
        enter_rds-Added (host_name configured (c ∷ address)) (c ∷ address) name info known
          described in
      (
        inv',
        if_false _ _ (ap not wanted)
            ∙ (ap (λ e. rds_destination s e >>= (λ dest. add_addressed_rds s i region dest inv))
                  known_address
                ∙ (ap
                      (λ r. r >>= (λ chosen.
                        enter_rds s i region (c ∷ address)
                          (rds_name s (truthy chosen) (c ∷ address)) inv))
                      named
                    ∙ (ap (λ h. enter_rds s i region (c ∷ address) h inv)
                          (rds_name-host_name configured (c ∷ address))
                        ∙ entered))),
        added,
      )
