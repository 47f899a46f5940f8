-- ===== src/Inventory/Route53.antt =====
-- `get_route53_records` of ops/ansible/ec2.py: the names under which each resource is recorded.
pub mod Recorded
use reliable_broadcast.Prelude.{
  not, Option, none, some, List, [], ◌∷◌, ◌++◌, length, contains, take, nat_eq, list_eq,
  if◌then◌else◌, Text, codes, ◌-◌,
}
use reliable_broadcast.Dict.{Dict, lookup, insert}
use reliable_broadcast.Inventory.Address.{ends_with}

pub record Zone : Type 0 where
  pub id : Text
  pub name : Text

pub record RecordSet : Type 0 where
  pub name : Text
  pub resource_records : List Text

-- `s[:-1]`
unfoldable pub without_last : Text → Text
without_last s = take (length s - 1) s

abbrev pub Records : Type 0
Records = Dict Text (List Text)

abbrev pub names_of : Option (List Text) → List Text
names_of none = []
names_of (some names) = names

-- `set.add`
unfoldable pub add_name : Text → List Text → List Text
add_name name names = if contains names name then names else names ++ name ∷ []

-- `setdefault` and `add`, for one resource
unfoldable pub add_resource : Text → Text → Records → Records
unfolding add_name
add_resource name resource records =
    insert resource (add_name name (names_of (lookup resource records))) records

unfoldable pub add_resources : Text → List Text → Records → Records
unfolding add_resource
add_resources name [] records = records
add_resources name (resource ∷ resources) records =
    add_resources name resources (add_resource name resource records)

-- The name without the dot at its end.
unfoldable pub record_name : Text → Text
unfolding without_last
record_name name = if ends_with (codes ".") name then without_last name else name

unfoldable pub add_record_sets : List RecordSet → Records → Records
unfolding add_resources record_name
add_record_sets [] records = records
add_record_sets (set ∷ sets) records =
    add_record_sets sets (add_resources (record_name set.name) set.resource_records records)

-- The zones of the connection, and the record sets that it lists for the id of a zone.
module _ (all_rrsets : Text → List RecordSet) (excluded_zones : List Text) where
  unfoldable pub add_zones : List Zone → Records → Records
  unfolding add_record_sets without_last
  add_zones [] records = records
  add_zones (zone ∷ zones) records = add_zones zones (
      if contains excluded_zones (without_last zone.name)
      then records
      else add_record_sets (all_rrsets zone.id) records)

  unfoldable pub get_route53_records : List Zone → Records
  unfolding add_zones
  get_route53_records zones = add_zones zones []
