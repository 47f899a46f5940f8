-- ===== src/Inventory/Filters.antt =====
-- `tags_match_filters` of ops/ansible/ec2.py: which databases and clusters the filters let through.
pub mod Matching
use reliable_broadcast.Prelude.{
  Bool, true, false, not, ◌&&◌, Option, none, some, List, [], ◌∷◌, contains, nat_eq, list_eq,
  if◌then◌else◌, Text, codes, take, drop, ◌==◌,
}
use reliable_broadcast.Dict.{Dict, lookup}

-- The value of a filter: a list of texts, or one text.
pub data FilterValue : Type 0 where
  several : List Text → FilterValue
  single : Text → FilterValue

-- `filter_name[:4] == 'tag:'`
unfoldable pub is_tag_filter : Text → Bool
is_tag_filter name = take 4 name == codes "tag:"

-- `stack_filters` is a setting. A step of the loop returns from the method, or goes on as `none`.
module _ (stack_filters : Bool) (tags : Dict Text Text) where
  unfoldable pub check_value : FilterValue → Text → Option Bool
  check_value (several values) tag =
      if stack_filters && not (contains values tag)
      then some false
      else if not stack_filters && contains values tag
      then some true
      else none
  check_value (single value) tag =
      if stack_filters && not (tag == value)
      then some false
      else if not stack_filters && tag == value
      then some true
      else none

  unfoldable pub check_tag : Option Text → FilterValue → Option Bool
  unfolding check_value
  check_tag none value = if stack_filters then some false else none
  check_tag (some tag) value = check_value value tag

  unfoldable pub check_filter : Text → FilterValue → Option Bool
  check_filter name value =
      if not (is_tag_filter name) then none else check_tag (lookup (drop 4 name) tags) value

  unfoldable pub or_else : Option Bool → Option Bool → Option Bool
  or_else (some answer) rest = some answer
  or_else none rest = rest

  -- `for filter_name, filter_value in filters.items()`
  unfoldable pub check_filters : Dict Text FilterValue → Option Bool
  unfolding check_filter or_else
  check_filters [] = none
  check_filters ((name, value) ∷ filters) =
      or_else (check_filter name value) (check_filters filters)

  unfoldable pub check_all : List (Dict Text FilterValue) → Option Bool
  unfolding check_filters or_else
  check_all [] = none
  check_all (filters ∷ more) = or_else (check_filters filters) (check_all more)

  unfoldable pub answer_or : Option Bool → Bool
  answer_or none = stack_filters
  answer_or (some answer) = answer

  unfoldable pub tags_match_filters : List (Dict Text FilterValue) → Bool
  unfolding check_all answer_or
  tags_match_filters [] = true
  tags_match_filters (filters ∷ more) = answer_or (check_all (filters ∷ more))
