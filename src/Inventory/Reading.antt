-- ===== src/Inventory/Reading.antt =====
-- ops/ansible/ec2.py: the parts of `read_settings` that decide, over the texts of the options.
-- `none` is an option, or a variable of the environment, that is not there.
pub mod States
use reliable_broadcast.Prelude.{
  ℕ, Bool, true, false, not, ◌&&◌, ◌||◌, Option, none, some, List, [], ◌∷◌, ◌++◌, map, contains,
  list_eq, nat_eq, ◌==◌, if◌then◌else◌, Text, codes,
}
use reliable_broadcast.Result.{Result, raise, ok, system_exit, type_error}
use reliable_broadcast.Dict.{Dict, insert}
use reliable_broadcast.Inventory.Names.{split, strip, starts_with}

abbrev pub ec2_valid_instance_states : List Text
ec2_valid_instance_states =
    codes "pending"
    ∷ codes "running"
    ∷ codes "shutting-down"
    ∷ codes "terminated"
    ∷ codes "stopping"
    ∷ codes "stopped"
    ∷ []

unfoldable pub valid_states : List Text → List Text
valid_states [] = []
valid_states (state ∷ states) =
    let rest = valid_states states in
    if not (contains ec2_valid_instance_states (strip state)) then rest else strip state ∷ rest

unfoldable pub instance_states : Bool → Option Text → List Text
unfolding valid_states
instance_states true option = ec2_valid_instance_states
instance_states false (some states) = valid_states (split b',' states)
instance_states false none = codes "running" ∷ []

-- `part in s`, of texts
unfoldable pub is_part : Text → Text → Bool
unfolding starts_with
is_part part [] = starts_with part []
is_part part (c ∷ s) = starts_with part (c ∷ s) || is_part part s

unfoldable pub without_excluded : Text → List Text → List Text
unfolding is_part
without_excluded regions_exclude [] = []
without_excluded regions_exclude (region ∷ regions) =
    let rest = without_excluded regions_exclude regions in
    if not (is_part region regions_exclude) then region ∷ rest else rest

-- `euca_region` is the name of the region of the connection to a host of Eucalyptus. The credentials
-- that `append` is given as keywords are still empty.
unfoldable pub configured_regions : (Text → Text) → Text → Text → Text → List Text → List Text
unfolding without_excluded
configured_regions euca_region regions regions_exclude eucalyptus_host known =
    if regions == codes "all"
    then if not (eucalyptus_host == [])
      then euca_region eucalyptus_host ∷ []
      else without_excluded regions_exclude known
    else split b',' regions

abbrev pub first_of : Option Text → Option Text → Option Text
first_of none second = second
first_of (some value) second = some value

unfoldable pub choose_regions : (Text → Option Text) → List Text → List (Option Text)
choose_regions env regions =
    if contains regions (codes "auto")
    then first_of (env (codes "AWS_REGION")) (env (codes "AWS_DEFAULT_REGION")) ∷ []
    else map (λ region. some region) regions

-- `instance_filter.split('=', 1)`, where there is a sign
unfoldable pub cut_at : ℕ → Text → Option (Text × Text)
cut_at sign [] = none
cut_at sign (c ∷ s) = elim (cut_at sign s) [
  | none ↦ if c == sign then some ([], s) else none
  | some (before, after) ↦ if c == sign then some ([], s) else some (c ∷ before, after)
]

abbrev pub add_cut : Option (Text × Text) → Dict Text Text → Dict Text Text
add_cut none filters = filters
add_cut (some (key, value)) filters =
    if strip key == [] then filters else insert (strip key) (strip value) filters

unfoldable pub add_filter : Text → Dict Text Text → Dict Text Text
unfolding cut_at
add_filter instance_filter filters = add_cut (cut_at b'=' (strip instance_filter)) filters

unfoldable pub read_filter_set : List Text → Dict Text Text → Dict Text Text
unfolding add_filter
read_filter_set [] filters = filters
read_filter_set (instance_filter ∷ rest) filters =
    read_filter_set rest (add_filter instance_filter filters)

unfoldable pub read_filter_sets : List Text → List (Dict Text Text)
unfolding read_filter_set
read_filter_sets [] = []
read_filter_sets (filter_set ∷ sets) =
    let rest = read_filter_sets sets in
    if filter_set == [] then rest else read_filter_set (split b'&' (strip filter_set)) [] ∷ rest

unfoldable pub read_filters : Bool → Option Text → Result (List (Dict Text Text))
unfolding read_filter_sets
read_filters stack_filters none = ok []
read_filters stack_filters (some filters) =
    if stack_filters && contains filters b'&'
    then raise system_exit
    else ok (read_filter_sets (split b',' filters))

-- `a or b`, of texts that may be missing
abbrev pub or_text : Option Text → Option Text → Option Text
or_text none second = second
or_text (some []) second = second
or_text (some (c ∷ s)) second = some (c ∷ s)

unfoldable pub boto_profile : (Text → Option Text) → Option Text → Option Text → Option Text
boto_profile env argument option = or_text (or_text argument (env (codes "AWS_PROFILE"))) option

abbrev pub truthy_text : Option Text → Bool
truthy_text none = false
truthy_text (some []) = false
truthy_text (some (c ∷ s)) = true

-- The credentials of the configuration are used when neither a profile nor the environment has any.
unfoldable pub credentials :
    (Text → Option Text) → Option Text → Text → Text → Text → Dict Text Text
credentials env profile aws_access_key_id aws_secret_access_key aws_security_token =
    if truthy_text profile
      || (truthy_text (env (codes "AWS_ACCESS_KEY_ID")) || truthy_text (env (codes "AWS_PROFILE")))
    then []
    else if aws_access_key_id == []
    then []
    else (codes "aws_access_key_id", aws_access_key_id)
      ∷ (codes "aws_secret_access_key", aws_secret_access_key)
      ∷ (if aws_security_token == [] then [] else (codes "security_token", aws_security_token) ∷ [])
