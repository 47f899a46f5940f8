-- ===== src/Inventory/Calls.antt =====
-- ops/ansible/ec2.py: `get_instances_by_region`, and what it reports when the cloud refuses. A
-- connection is what it answers: a value, or a `BotoServerError`.
pub mod Batches
pub mod Tagged
use reliable_broadcast.Prelude.{
  ℕ, zero, suc, ◌+◌, Bool, true, false, not, ◌&&◌, Option, none, some, List, [], ◌∷◌, ◌++◌, map,
  length, take, drop, contains, ltb, list_eq, nat_eq, ◌==◌, if◌then◌else◌, Text, codes,
}
use reliable_broadcast.Result.{Result, Error, raise, ok}
use reliable_broadcast.Dict.{Dict, lookup, insert}
use reliable_broadcast.Inventory.Settings.{Settings, Instance, Inventory, tag_set}
use reliable_broadcast.Inventory.Filing.{truthy}
use reliable_broadcast.Inventory.Instances.{add_instance}

pub data Answer {ℓ} (A : Type ℓ) : Type ℓ where
  server_error : Text → Text → Answer A
  answer : A → Answer A

infixl 5 ◌>>=◌
-- The next call, unless one before it was refused.
abbrev pub ◌>>=◌ {κ ℓ} :
    {Before : Type κ} {After : Type ℓ} → Answer Before → (Before → Answer After) → Answer After
server_error code message >>= next = server_error code message
answer value >>= next = next value

pub record Reservation : Type 0 where
  pub owner_id : Text
  pub instances : List Instance

pub record Tag : Type 0 where
  pub res_id : Text
  pub name : Text
  pub value : Text

abbrev pub FilterSet : Type 0
FilterSet = Dict Text Text

-- A connection to the cloud; without filters, all instances are listed.
pub record Connection : Type 0 where
  pub get_all_instances : Option FilterSet → Answer (List Reservation)
  pub get_all_tags : List Text → Answer (List Tag)

-- `filters_dict.update(filters)`
unfoldable pub update_dict : FilterSet → FilterSet → FilterSet
update_dict d [] = d
update_dict d ((k, v) ∷ e) = update_dict (insert k v d) e

unfoldable pub merged_filters : FilterSet → List FilterSet → FilterSet
unfolding update_dict
merged_filters d [] = d
merged_filters d (filters ∷ sets) = merged_filters (update_dict d filters) sets

unfoldable pub list_each : Connection → List FilterSet → Answer (List Reservation)
list_each conn [] = answer []
list_each conn (filters ∷ sets) = do
  found ← conn.get_all_instances (some filters)
  rest ← list_each conn sets
  answer (found ++ rest)

-- The instances of the filters of the settings, or all.
unfoldable pub list_reservations : Bool → List FilterSet → Connection → Answer (List Reservation)
unfolding list_each merged_filters
list_reservations stack_filters [] conn = conn.get_all_instances none
list_reservations stack_filters (filters ∷ sets) conn =
    if stack_filters
    then conn.get_all_instances (some (merged_filters [] (filters ∷ sets)))
    else list_each conn (filters ∷ sets)

unfoldable pub instances_of : List Reservation → List Instance
instances_of [] = []
instances_of (r ∷ reservations) = r.instances ++ instances_of reservations

-- `instance_ids[i:i + max_filter_value]` for the steps `i` of the range; the fuel is the number of
-- the ids, where a step takes at least one.
unfoldable pub slices : ℕ → ℕ → List Text → List (List Text)
slices zero i ids = []
slices (suc fuel) i ids =
    let rest = slices fuel (i + 199) ids in
    if ltb i (length ids) then take 199 (drop i ids) ∷ rest else []

unfoldable pub list_tags : Connection → List (List Text) → Answer (List Tag)
list_tags conn [] = answer []
list_tags conn (ids ∷ batches) = do
  found ← conn.get_all_tags ids
  rest ← list_tags conn batches
  answer (found ++ rest)

abbrev pub tags_or_empty : Option (Dict Text Text) → Dict Text Text
tags_or_empty none = []
tags_or_empty (some d) = d

-- `defaultdict(dict)`
unfoldable pub add_tag : Tag → Dict Text (Dict Text Text) → Dict Text (Dict Text Text)
add_tag tag d =
    insert tag.res_id (insert tag.name tag.value (tags_or_empty (lookup tag.res_id d))) d

unfoldable pub tags_by_instance_id :
    Dict Text (Dict Text Text) → List Tag → Dict Text (Dict Text Text)
unfolding add_tag
tags_by_instance_id d [] = d
tags_by_instance_id d (tag ∷ tags) = tags_by_instance_id (add_tag tag d) tags

-- `instance.tags = ...`, an attribute that `vars` lists too
unfoldable pub with_tags : Dict Text (Dict Text Text) → Instance → Instance
with_tags tags i =
    let own = tags_or_empty (lookup i.id tags) in
    record i { tags = own; variables = insert (codes "tags") (tag_set own) i.variables }

-- The account is that of the first reservation, once and for all.
unfoldable pub set_account : List Reservation → Inventory → Inventory
set_account [] inventory = inventory
set_account (r ∷ reservations) inventory = elim (truthy inventory.aws_account_id) [
  | none ↦ record inventory { aws_account_id = some r.owner_id }
  | some _ ↦ inventory
]

-- What the calls of the cloud found: the instances with their tags, and the reservations.
unfoldable pub fetch :
    Bool → List FilterSet → Connection → Answer (List Reservation × List Instance)
unfolding list_reservations slices list_tags tags_by_instance_id instances_of
fetch stack_filters filters conn = do
  reservations ← list_reservations stack_filters filters conn
  let ids = map (λ i. i.id) (instances_of reservations)
  tags ← list_tags conn (slices (length ids) 0 ids)
  answer (reservations, map (with_tags (tags_by_instance_id [] tags)) (instances_of reservations))

module _ (format : Text → List Text → Result Text) (s : Settings) where
  unfoldable pub add_instances : List Instance → Text → Inventory → Result Inventory
  add_instances [] region inventory = ok inventory
  add_instances (i ∷ instances) region inventory = elim (add_instance format s i region inventory) [
    | raise e ↦ raise e
    | ok next ↦ add_instances instances region next
  ]
