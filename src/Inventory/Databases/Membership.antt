-- ===== src/Inventory/Databases/Membership.antt =====
-- The groups that a database joins.
use reliable_broadcast.Prelude.{
  ◌≡◌, ap, ◌∙◌, ◌&&◌, Option, some, List, [], ◌∷◌, ◌++◌, ◌==◌, nat_eq, list_eq, if◌then◌else◌, Text,
  codes, Bool-cases, inl, inr,
}
use reliable_broadcast.Result.{ok}
use reliable_broadcast.Inventory.Groups.{Groups}
use reliable_broadcast.Inventory.Groups.Members.{hosts_of}
use reliable_broadcast.Inventory.Settings.{Settings}
use reliable_broadcast.Inventory.Filing.{safe, file_all, own_group}
use reliable_broadcast.Inventory.Filing.Copies.{
  copies, Files, Files-nothing, Files-then, Files-push, Files-if, Files-all, Files-zone, Files-tags,
  Files-file_if, hosts_of-own_group, tag_keys,
}
use reliable_broadcast.Inventory.Instances.{is_empty, optional_key}
use reliable_broadcast.Inventory.Databases.{
  Database, vpc_of, by_rds_security_group, group_place, group_kind, group_rds,
}

module _ (s : Settings) (i : Database) (region hostname : Text) where
  abbrev place_keys : List Text
  place_keys =
      (if s.group_by_region then region ∷ [] else [])
      ++ ((if s.group_by_availability_zone then i.availability_zone ∷ [] else [])
          ++ ((if s.group_by_instance_type
                then safe s (codes "type_" ++ i.instance_class) ∷ []
                else [])
              ++ (if s.group_by_vpc_id
                  then optional_key s (codes "vpc_id_") (vpc_of i.subnet_group)
                  else [])))

  abbrev kind_keys : List Text
  kind_keys =
      (if s.group_by_tag_keys then tag_keys s i.tags else [])
      ++ ((if s.group_by_rds_engine then safe s (codes "rds_" ++ i.engine) ∷ [] else [])
          ++ ((if s.group_by_rds_parameter_group
                then safe s (codes "rds_parameter_group_" ++ i.parameter_group) ∷ []
                else [])
              ++ ((if s.group_by_tag_none && is_empty i.tags then codes "tag_none" ∷ [] else [])
                  ++ codes "rds" ∷ [])))

  Files-place :
      (g : Groups)
      → Files hostname place_keys (own_group s i.id hostname g) (group_place s i region hostname g)
  unfolding group_place
  Files-place g = Files-then hostname (Files-file_if hostname s _ _ _ _) (
      Files-then hostname (Files-zone hostname s _ _ _ _)
        (Files-then hostname (Files-file_if hostname s _ _ _ _) (Files-file_if hostname s _ _ _ _)))

  Files-kind : (g : Groups) → Files hostname kind_keys g (group_kind s i region hostname g)
  unfolding group_kind
  Files-kind g =
      Files-then hostname (Files-if hostname s.group_by_tag_keys (Files-tags hostname s i.tags g)) (
        Files-then hostname (Files-file_if hostname s _ _ _ _) (
          Files-then hostname (Files-file_if hostname s _ _ _ _)
            (Files-then hostname (Files-file_if hostname s _ _ _ _) (Files-push hostname _ _))))

  -- The one security group, where the settings ask for it.
  abbrev security_keys : Option Text → List Text
  security_keys name =
      if s.group_by_security_group then optional_key s (codes "security_group_") name else []

  Files-security :
      (name : Option Text) (g : Groups)
      → i.security_group ≡ some name
      → (h : Groups) × (by_rds_security_group s i region hostname g ≡ ok h)
        × Files hostname (security_keys name) g h
  unfolding by_rds_security_group file_all
  Files-security name g e = elim (Bool-cases s.group_by_security_group) [
    | inl asked ↦ (
      file_all s (codes "security_groups") (optional_key s (codes "security_group_") name) hostname
          g,
      rw (asked, e, by_rds_security_group),
      rw asked (Files-all hostname s (codes "security_groups") _ g),
    )
    | inr not_asked ↦
        (g, rw (not_asked, by_rds_security_group), rw not_asked (Files-nothing hostname g))
  ]

  -- The groups of a database whose security group is known.
  pub rds_keys : Option Text → List Text
  rds_keys name = place_keys ++ (security_keys name ++ kind_keys)

  -- A database whose security group boto knows, `None` or a group, is grouped without failure. Its
  -- own group holds only its host name; in every other respect the host name is appended to the
  -- groups that the settings ask for, once for each time that they name the group, and no other
  -- list of hosts changes.
  pub group_rds-hosts_of :
      (name : Option Text) (g : Groups)
      → i.security_group ≡ some name
      → (h : Groups) × (group_rds s i region hostname g ≡ ok h)
        × ((k : Text)
            → hosts_of k h
              ≡ (if s.group_by_instance_id && i.id == k then hostname ∷ [] else hosts_of k g)
                ++ copies hostname k (rds_keys name))
  unfolding group_rds rds_keys
  group_rds-hosts_of name g e =
      let (grouped, succeeds, files) = Files-security name (group_place s i region hostname g) e in
      let all =
        Files-then hostname (Files-place g) (Files-then hostname files (Files-kind grouped)) in
      (
        group_kind s i region hostname grouped,
        rw (succeeds, group_rds),
        λ k.
            all.at k
            ∙ ap (λ l. l ++ copies hostname k (rds_keys name))
                (hosts_of-own_group hostname s i.id k g),
      )
