-- ===== src/Witness/Records.antt =====
-- Tag filters and Route53 records at concrete inputs.
use reliable_broadcast.Prelude.{
  every, any, ◌≡◌, refl, true, some, List, contains, [], ◌∷◌, nat_eq, list_eq, list_beq,
  if◌then◌else◌, Text, codes,
}
use reliable_broadcast.Dict.{Dict, lookup, insert}
use reliable_broadcast.Inventory.Address.{ends_with}
use reliable_broadcast.Inventory.Filters.{
  FilterValue, several, single, tags_match_filters, is_tag_filter, check_tag,
}
use reliable_broadcast.Inventory.Filters.Matching.{
  is_nil, passes, hits, entries, tags_match_filters_lem,
}
use reliable_broadcast.Inventory.Route53.{Zone, RecordSet, record_name, get_route53_records}
use reliable_broadcast.Inventory.Route53.Recorded.{is_recorded, zone_gives, get_route53_records_lem}

abbrev tag_filters : List (Dict Text FilterValue)
tag_filters =
    ((codes "tag:Env", several (codes "test" ∷ codes "live" ∷ [])) ∷ (codes "name", single []) ∷ [])
    ∷ []

tag_filters_match : tags_match_filters true ((codes "Env", codes "live") ∷ []) tag_filters ≡ true
unfolding tags_match_filters check_tag is_tag_filter lookup list_beq codes contains
tag_filters_match = refl

tags_match_filters_example :
    tags_match_filters true ((codes "Env", codes "live") ∷ []) tag_filters ≡ (
      if is_nil tag_filters
      then true
      else if true
      then every (passes ((codes "Env", codes "live") ∷ [])) (entries tag_filters)
      else any (hits ((codes "Env", codes "live") ∷ [])) (entries tag_filters))
tags_match_filters_example =
    tags_match_filters_lem ((codes "Env", codes "live") ∷ []) true tag_filters

abbrev dns_sets : Text → List RecordSet
dns_sets zone = record { name = codes "web.test."; resource_records = codes "10.0.0.1" ∷ [] } ∷ []

abbrev dns_zones : List Zone
dns_zones = record { id = codes "z"; name = codes "test." } ∷ []

dns_recorded :
    lookup (codes "10.0.0.1") (get_route53_records dns_sets [] dns_zones)
    ≡ some (codes "web.test" ∷ [])
unfolding get_route53_records record_name ends_with lookup insert contains list_beq codes
dns_recorded = refl

get_route53_records_example :
    is_recorded (codes "10.0.0.1") (codes "web.test") (get_route53_records dns_sets [] dns_zones)
    ≡ any (zone_gives dns_sets [] (codes "10.0.0.1") (codes "web.test")) dns_zones
get_route53_records_example =
    get_route53_records_lem dns_sets [] dns_zones (codes "10.0.0.1") (codes "web.test")
