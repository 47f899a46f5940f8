-- ===== src/Inventory/Filters/Matching.antt =====
-- What the loops over the filters compute.
use reliable_broadcast.Prelude.{
  every, any, ◌≡◌, refl, Bool, true, false, not, ◌&&◌, ◌||◌, Option, none, some, List, [], ◌∷◌,
  ◌++◌, contains, nat_eq, list_eq, if◌then◌else◌, Text, drop, ◌==◌, arith, Bool-cases, inl, inr,
}
use reliable_broadcast.Dict.{Dict, lookup}
use reliable_broadcast.Inventory.Filters.{
  FilterValue, several, single, is_tag_filter, check_value, check_tag, check_filter, or_else,
  check_filters, check_all, answer_or, tags_match_filters,
}

-- The tag that a filter names has a value that it accepts.
unfoldable pub accepts : FilterValue → Option Text → Bool
accepts value none = false
accepts (several values) (some tag) = contains values tag
accepts (single value) (some tag) = tag == value

abbrev pub is_nil {ℓ} : {A : Type ℓ} → List A → Bool
is_nil [] = true
is_nil (_ ∷ _) = false

-- The filters of all dictionaries.
unfoldable pub entries : List (Dict Text FilterValue) → List (Text × FilterValue)
entries [] = []
entries (filters ∷ more) = filters ++ entries more

module _ (tags : Dict Text Text) where
  abbrev pub satisfied : Text × FilterValue → Bool
  satisfied f = accepts f.1 (lookup (drop 4 f.0) tags)

  -- Filters of other kinds count for nothing.
  abbrev pub passes : Text × FilterValue → Bool
  passes f = not (is_tag_filter f.0) || satisfied f

  abbrev pub hits : Text × FilterValue → Bool
  hits f = is_tag_filter f.0 && satisfied f

  tag_stacked :
      (value : FilterValue) (tag : Option Text)
      → check_tag true tags tag value ≡ (if accepts value tag then none else some false)
  unfolding check_tag check_value accepts
  tag_stacked value none = refl
  tag_stacked (several values) (some tag) = ground arith
  tag_stacked (single value) (some tag) = ground arith

  tag_unstacked :
      (value : FilterValue) (tag : Option Text)
      → check_tag false tags tag value ≡ (if accepts value tag then some true else none)
  unfolding check_tag check_value accepts
  tag_unstacked value none = refl
  tag_unstacked (several values) (some tag) = ground arith
  tag_unstacked (single value) (some tag) = ground arith

  filter_stacked :
      (name : Text) (value : FilterValue)
      → check_filter true tags name value ≡ (if passes (name, value) then none else some false)
  unfolding check_filter
  filter_stacked name value = elim (Bool-cases (is_tag_filter name)) [
    | inl here ↦ rw here (tag_stacked value (lookup (drop 4 name) tags))
    | inr there ↦ rw there
  ]

  filter_unstacked :
      (name : Text) (value : FilterValue)
      → check_filter false tags name value ≡ (if hits (name, value) then some true else none)
  unfolding check_filter
  filter_unstacked name value = elim (Bool-cases (is_tag_filter name)) [
    | inl here ↦ rw here (tag_unstacked value (lookup (drop 4 name) tags))
    | inr there ↦ rw there
  ]

  -- The answer of a loop whose steps return one answer or go on.
  and_then :
      (b rest : Bool) (o : Option Bool)
      → answer_or true tags o ≡ rest
      → answer_or true tags (or_else true tags (if b then none else some false) o) ≡ (b && rest)
  unfolding answer_or or_else
  and_then true rest o h = h
  and_then false rest o h = refl

  or_then :
      (b rest : Bool) (o : Option Bool)
      → answer_or false tags o ≡ rest
      → answer_or false tags (or_else false tags (if b then some true else none) o) ≡ (b || rest)
  unfolding answer_or or_else
  or_then true rest o h = refl
  or_then false rest o h = h

  or_else_assoc :
      (stack : Bool) (a b c : Option Bool)
      → or_else stack tags (or_else stack tags a b) c
        ≡ or_else stack tags a (or_else stack tags b c)
  unfolding or_else
  or_else_assoc stack none b c = refl
  or_else_assoc stack (some _) b c = refl

  stacked_from :
      (filters : Dict Text FilterValue) (more : List (Text × FilterValue)) (rest : Option Bool)
      → answer_or true tags rest ≡ every passes more
      → answer_or true tags (or_else true tags (check_filters true tags filters) rest)
        ≡ every passes (filters ++ more)
  unfolding check_filters every
  stacked_from [] more rest h = unfold or_else in h
  stacked_from ((name, value) ∷ filters) more rest h =
      rw (or_else_assoc, filter_stacked)
        (and_then (passes (name, value)) _ _ (stacked_from filters more rest h))

  unstacked_from :
      (filters : Dict Text FilterValue) (more : List (Text × FilterValue)) (rest : Option Bool)
      → answer_or false tags rest ≡ any hits more
      → answer_or false tags (or_else false tags (check_filters false tags filters) rest)
        ≡ any hits (filters ++ more)
  unfolding check_filters any
  unstacked_from [] more rest h = unfold or_else in h
  unstacked_from ((name, value) ∷ filters) more rest h =
      rw (or_else_assoc, filter_unstacked)
        (or_then (hits (name, value)) _ _ (unstacked_from filters more rest h))

  stacked_all :
      (all : List (Dict Text FilterValue))
      → answer_or true tags (check_all true tags all) ≡ every passes (entries all)
  unfolding check_all entries
  stacked_all [] = unfold answer_or every in refl
  stacked_all (filters ∷ more) = stacked_from filters (entries more) _ (stacked_all more)

  unstacked_all :
      (all : List (Dict Text FilterValue))
      → answer_or false tags (check_all false tags all) ≡ any hits (entries all)
  unfolding check_all entries
  unstacked_all [] = unfold answer_or any in refl
  unstacked_all (filters ∷ more) = unstacked_from filters (entries more) _ (unstacked_all more)

  -- Without filters, all tags match. With stacked filters, tags match if every filter on a tag finds
  -- the tag with a value that it accepts; without stacking, if at least one does.
  pub tags_match_filters_lem :
      (stack_filters : Bool) (all : List (Dict Text FilterValue))
      → tags_match_filters stack_filters tags all ≡ (
          if is_nil all
          then true
          else if stack_filters
          then every passes (entries all)
          else any hits (entries all))
  unfolding tags_match_filters
  tags_match_filters_lem stack_filters [] = refl
  tags_match_filters_lem true (filters ∷ more) = stacked_all (filters ∷ more)
  tags_match_filters_lem false (filters ∷ more) = unstacked_all (filters ∷ more)
