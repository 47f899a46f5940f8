-- ===== src/Inventory/Instances/Membership.antt =====
-- The groups that an instance joins.
use reliable_broadcast.Prelude.{
  ◌≡◌, ap, ◌∙◌, Bool, ◌&&◌, some, List, [], ◌∷◌, ◌++◌, ◌==◌, nat_eq, list_eq, if◌then◌else◌, Text,
  codes, Bool-cases, inl, inr,
}
use reliable_broadcast.Result.{ok}
use reliable_broadcast.Inventory.Groups.{Groups, push}
use reliable_broadcast.Inventory.Groups.Members.{hosts_of}
use reliable_broadcast.Inventory.Settings.{Settings, Instance}
use reliable_broadcast.Inventory.Filing.{truthy, safe, file_all, own_group, file_zone}
use reliable_broadcast.Inventory.Filing.Copies.{
  copies, Files, Files-nothing, Files-then, Files-push, Files-if, Files-under, Files-all,
  Files-zone, hosts_of-own_group, Files-tags, tag_keys,
}
use reliable_broadcast.Inventory.Instances.{
  by_region, by_ami_id, by_instance_type, by_instance_state, platform_key, by_platform,
  optional_key, by_key_pair, by_vpc_id, security_group_keys, by_security_group, by_aws_account,
  by_tag_keys, by_route53_names, is_empty, by_tag_none, group_instance,
}

module _ (s : Settings) (i : Instance) (region hostname : Text) where
  abbrev when : Bool → List Text → List Text
  when b keys = if b then keys else []

  -- The groups that the settings ask for before the security groups, and after them.
  abbrev plain_keys : List Text
  plain_keys =
      when s.group_by_region (region ∷ [])
      ++ (when s.group_by_availability_zone (i.placement ∷ [])
          ++ (when s.group_by_ami_id (safe s i.image_id ∷ [])
              ++ (when s.group_by_instance_type (safe s (codes "type_" ++ i.instance_type) ∷ [])
                  ++ (when s.group_by_instance_state
                        (safe s (codes "instance_state_" ++ i.state) ∷ [])
                      ++ (when s.group_by_platform (platform_key s (truthy i.platform) ∷ [])
                          ++ (when s.group_by_key_pair
                                (optional_key s (codes "key_") (truthy i.key_name))
                              ++ when s.group_by_vpc_id
                                  (optional_key s (codes "vpc_id_") (truthy i.vpc_id))))))))

  abbrev later_keys : Text → List Text → List Text
  later_keys aws_account_id names =
      when s.group_by_aws_account (aws_account_id ∷ [])
      ++ (when s.group_by_tag_keys (tag_keys s i.tags)
          ++ (when (s.route53_enabled && s.group_by_route53_names) names
              ++ (when (s.group_by_tag_none && is_empty i.tags) (codes "tag_none" ∷ [])
                  ++ codes "ec2" ∷ [])))

  Files-plain :
      (g : Groups)
      → Files hostname plain_keys g (
          by_vpc_id s i region hostname (
            by_key_pair s i region hostname (
              by_platform s i region hostname (
                by_instance_state s i region hostname (
                  by_instance_type s i region hostname (
                    by_ami_id s i region hostname (
                      file_zone s s.group_by_availability_zone region i.placement hostname
                        (by_region s i region hostname g))))))))
  unfolding by_vpc_id by_key_pair by_platform by_instance_state by_instance_type by_ami_id by_region
  Files-plain g =
      Files-then hostname (Files-if hostname s.group_by_region (Files-under hostname s _ _ g)) (
        Files-then hostname (Files-zone hostname s _ _ _ _) (
          Files-then hostname (Files-if hostname s.group_by_ami_id (Files-under hostname s _ _ _)) (
            Files-then hostname
              (Files-if hostname s.group_by_instance_type (Files-under hostname s _ _ _))
              (Files-then hostname
                (Files-if hostname s.group_by_instance_state (Files-under hostname s _ _ _))
                (Files-then hostname
                  (Files-if hostname s.group_by_platform (Files-under hostname s _ _ _))
                  (Files-then hostname
                    (Files-if hostname s.group_by_key_pair (Files-all hostname s _ _ _))
                    (Files-if hostname s.group_by_vpc_id (Files-all hostname s _ _ _))))))))

  Files-later :
      (account : Text) (names : List Text) (g : Groups)
      → Files hostname (later_keys account names) g (
          push
            (by_tag_none s i region hostname (
              by_route53_names s i region hostname names
                (by_tag_keys s i region hostname (by_aws_account s i region hostname account g))))
            (codes "ec2")
            hostname)
  unfolding by_tag_none by_route53_names by_tag_keys by_aws_account
  Files-later account names g =
      Files-then hostname (Files-if hostname s.group_by_aws_account (Files-under hostname s _ _ g))
        (Files-then hostname
          (Files-if hostname s.group_by_tag_keys (Files-tags hostname s i.tags _))
          (Files-then hostname
            (Files-if hostname (s.route53_enabled && s.group_by_route53_names)
              (Files-all hostname s _ names _))
            (Files-then hostname
              (Files-if hostname (s.group_by_tag_none && is_empty i.tags)
                (Files-under hostname s _ _ _))
              (Files-push hostname _ _))))

  -- The names of the security groups, where the settings ask for them.
  abbrev security_keys : List Text → List Text
  security_keys names = when s.group_by_security_group (security_group_keys s names)

  Files-security :
      (names : List Text) (g : Groups)
      → i.groups ≡ some names
      → (h : Groups) × (by_security_group s i region hostname g ≡ ok h)
        × Files hostname (security_keys names) g h
  unfolding by_security_group file_all
  Files-security names g e = elim (Bool-cases s.group_by_security_group) [
    | inl asked ↦ (
      file_all s (codes "security_groups") (security_group_keys s names) hostname g,
      rw (asked, e, by_security_group),
      rw asked (Files-all hostname s (codes "security_groups") _ g),
    )
    | inr not_asked ↦
        (g, rw (not_asked, by_security_group), rw not_asked (Files-nothing hostname g))
  ]

  -- The groups of an instance whose security groups are known.
  pub instance_keys : Text → List Text → List Text → List Text
  instance_keys account names groups =
      plain_keys ++ (security_keys groups ++ later_keys account names)

  -- An instance whose security groups boto knows is grouped without failure. Its own group holds
  -- only its host name; in every other respect the host name is appended to the groups that the
  -- settings ask for, once for each time that they name the group, and no other list of hosts
  -- changes.
  pub group_instance-hosts_of :
      (account : Text) (names groups : List Text) (g : Groups)
      → i.groups ≡ some groups
      → (h : Groups) × (group_instance s i region hostname account names g ≡ ok h)
        × ((k : Text)
            → hosts_of k h
              ≡ (if s.group_by_instance_id && i.id == k then hostname ∷ [] else hosts_of k g)
                ++ copies hostname k (instance_keys account names groups))
  unfolding group_instance instance_keys
  group_instance-hosts_of account names groups g e =
      let start = own_group s i.id hostname g in
      let (grouped, succeeds, files) =
        Files-security groups
          (by_vpc_id s i region hostname (
            by_key_pair s i region hostname (
              by_platform s i region hostname (
                by_instance_state s i region hostname (
                  by_instance_type s i region hostname (
                    by_ami_id s i region hostname (
                      file_zone s s.group_by_availability_zone region i.placement hostname
                        (by_region s i region hostname start))))))))
          e in
      let all =
        Files-then hostname (Files-plain start)
          (Files-then hostname files (Files-later account names grouped)) in
      (
        _,
        rw (succeeds, group_instance),
        λ k.
            all.at k
            ∙ ap (λ l. l ++ copies hostname k (instance_keys account names groups))
                (hosts_of-own_group hostname s i.id k g),
      )
