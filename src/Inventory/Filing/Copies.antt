-- ===== src/Inventory/Filing/Copies.antt =====
-- How often a host is listed under each name after it has been filed.
use mathlib.Core.List.{append-nil, append_assoc}
use reliable_broadcast.Prelude.{
  ◌≡◌, refl, sym, ◌∙◌, Bool, true, false, List, [], ◌∷◌, ◌++◌, ◌==◌, nat_eq, list_eq, if◌then◌else◌,
  ◌&&◌, codes, Text, Bool-cases, inl, inr, map,
}
use reliable_broadcast.Dict.{Dict}
use reliable_broadcast.Inventory.Groups.{Groups, host_list, push, push_group}
use reliable_broadcast.Inventory.Groups.Members.{
  hosts_of, hosts_of-insert, push_lem, push_group_lem,
}
use reliable_broadcast.Inventory.Settings.{Settings}
use reliable_broadcast.Inventory.Filing.{
  nest, file_under, tag_values, tag_key, nest_tag, file_tag_values, file_tags, file_all, file_if,
  file_as, own_group, file_zone,
}

-- A host once for each time that a name occurs among the keys.
unfoldable pub copies : Text → Text → List Text → List Text
copies hostname k [] = []
copies hostname k (key ∷ keys) = (if key == k then hostname ∷ [] else []) ++ copies hostname k keys

copies-append :
    (hostname k : Text) (xs ys : List Text)
    → copies hostname k (xs ++ ys) ≡ copies hostname k xs ++ copies hostname k ys
unfolding copies
copies-append hostname k [] ys = refl
copies-append hostname k (key ∷ keys) ys =
    rw (copies-append hostname k keys ys)
      (sym (append_assoc (if key == k then hostname ∷ [] else []) _ _))

-- From `before` to `after` the host was appended to the groups of the keys, in turn, and every
-- other list of hosts is as it was.
pub record Files (hostname : Text) (keys : List Text) (before after : Groups) : Type 0 where
  pub at : (k : Text) → hosts_of k after ≡ hosts_of k before ++ copies hostname k keys

module _ (hostname : Text) where
  pub Files-nothing : (g : Groups) → Files hostname [] g g
  unfolding copies
  Files-nothing g = record { at = λ k. sym (append-nil _) }

  pub Files-then :
      {a b c : Groups} {xs ys : List Text}
      → Files hostname xs a b
      → Files hostname ys b c
      → Files hostname (xs ++ ys) a c
  Files-then {a} {xs = xs} {ys = ys} f g = record {
    at = λ k. g.at k ∙ rw (f.at k, copies-append) (append_assoc (hosts_of k a) _ _);
  }

  pushed :
      (b : Bool) (l : List Text)
      → (if b then l ++ hostname ∷ [] else l) ≡ l ++ ((if b then hostname ∷ [] else []) ++ [])
  pushed true l = refl
  pushed false l = sym (append-nil l)

  pub Files-push : (g : Groups) (key : Text) → Files hostname (key ∷ []) g (push g key hostname)
  unfolding copies
  Files-push g key = record {
    at = λ k. (push_lem g key hostname k).0 ∙ pushed (key == k) (hosts_of k g);
  }

  Files-push_group :
      (g : Groups) (parent key : Text) → Files hostname [] g (push_group g parent key)
  unfolding copies
  Files-push_group g parent key = record {
    at = λ k. (push_group_lem g parent key k).0 ∙ sym (append-nil _);
  }

  pub Files-if :
      (b : Bool) {keys : List Text} {g h : Groups}
      → Files hostname keys g h
      → Files hostname (if b then keys else []) g (if b then h else g)
  Files-if true f = f
  Files-if false {g = g} f = Files-nothing g

  module _ (s : Settings) where
    Files-nest : (parent key : Text) (g : Groups) → Files hostname [] g (nest s parent key g)
    unfolding nest
    Files-nest parent key g = elim (Bool-cases s.nested_groups) [
      | inl yes' ↦ rw (yes', nest) (Files-push_group g parent key)
      | inr no' ↦ rw (no', nest) (Files-nothing g)
    ]

    pub Files-under :
        (parent key : Text) (g : Groups)
        → Files hostname (key ∷ []) g (file_under s parent key hostname g)
    unfolding file_under
    Files-under parent key g =
        Files-then (Files-push g key) (Files-nest parent key (push g key hostname))

    pub Files-all :
        (parent : Text) (keys : List Text) (g : Groups)
        → Files hostname keys g (file_all s parent keys hostname g)
    unfolding file_all
    Files-all parent [] g = Files-nothing g
    Files-all parent (key ∷ keys) g =
        Files-then (Files-under parent key g)
          (Files-all parent keys (file_under s parent key hostname g))

    Files-nest_tag : (k v : Text) (g : Groups) → Files hostname [] g (nest_tag s k v g)
    unfolding nest_tag
    Files-nest_tag k [] g = Files-nest _ _ g
    Files-nest_tag k (c ∷ v) g = Files-then (Files-nest _ _ g) (Files-nest _ _ _)

    Files-tag_values :
        (k : Text) (values : List Text) (g : Groups)
        → Files hostname (map (tag_key s k) values) g (file_tag_values s k values hostname g)
    unfolding file_tag_values
    Files-tag_values k [] g = Files-nothing g
    Files-tag_values k (v ∷ values) g =
        Files-then (Files-then (Files-push g (tag_key s k v)) (Files-nest_tag k v _))
          (Files-tag_values k values _)

    pub Files-file_if :
        (asked : Bool) (parent : Text) (keys : List Text) (g : Groups)
        → Files hostname (if asked then keys else []) g (file_if s asked parent keys hostname g)
    unfolding file_if
    Files-file_if asked parent keys g = Files-if asked (Files-all parent keys g)

    pub Files-as :
        (asked : Bool) (parent child key : Text) (g : Groups)
        → Files hostname
            (if asked then key ∷ [] else [])
            g
            (file_as s asked parent child key hostname g)
    unfolding file_as
    Files-as asked parent child key g =
        Files-if asked (Files-then (Files-push g key) (Files-nest parent child _))

    pub Files-zone :
        (asked : Bool) (region zone : Text) (g : Groups)
        → Files hostname
            (if asked then zone ∷ [] else [])
            g
            (file_zone s asked region zone hostname g)
    unfolding file_zone
    Files-zone asked region zone g =
        Files-if asked (Files-then (under_region s.group_by_region) (Files-nest _ _ _))
      where
        under_region :
            (b : Bool)
            → Files hostname
                (zone ∷ [])
                g
                (if b then nest s region zone (push g zone hostname) else push g zone hostname)
        under_region true = Files-then (Files-push g zone) (Files-nest _ _ _)
        under_region false = Files-push g zone

    -- The group of its own: its list is replaced by the host.
    pub hosts_of-own_group :
        (id k : Text) (g : Groups)
        → hosts_of k (own_group s id hostname g)
          ≡ (if s.group_by_instance_id && id == k then hostname ∷ [] else hosts_of k g)
    unfolding own_group copies nest
    hosts_of-own_group id k g = elim (Bool-cases s.group_by_instance_id) [
      | inr not_asked ↦ rw (not_asked, own_group)
      | inl asked ↦
          rw (asked, own_group)
            ((Files-nest (codes "instances") id _).at k
              ∙ append-nil _
              ∙ hosts_of-insert id k (host_list (hostname ∷ [])) g)
    ]

-- The groups of all tags.
unfoldable pub tag_keys : Settings → Dict Text Text → List Text
tag_keys s [] = []
tag_keys s ((k, v) ∷ tags) = map (tag_key s k) (tag_values s v) ++ tag_keys s tags

pub Files-tags :
    (hostname : Text) (s : Settings) (tags : Dict Text Text) (g : Groups)
    → Files hostname (tag_keys s tags) g (file_tags s tags hostname g)
unfolding file_tags tag_keys
Files-tags hostname s [] g = Files-nothing hostname g
Files-tags hostname s ((k, v) ∷ tags) g =
    Files-then hostname (Files-tag_values hostname s k (tag_values s v) g)
      (Files-tags hostname s tags _)
