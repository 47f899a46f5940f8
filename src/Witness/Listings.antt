-- ===== src/Witness/Listings.antt =====
-- The pages of databases at concrete inputs.
use reliable_broadcast.Prelude.{
  ◌≡◌, refl, true, none, some, [], ◌∷◌, list_eq, nat_eq, list_beq, ◌==◌, if◌then◌else◌, codes,
  arith,
}
use reliable_broadcast.Inventory.Report.{ending}
use reliable_broadcast.Inventory.Listings.{
  Page, RdsConnection, replied, get_rds_instances_by_region,
}
use reliable_broadcast.Inventory.Listings.Pages.{
  Leads, add_all, get_rds_instances_by_region-add_all,
}
use reliable_broadcast.Witness.Inventory.{settings, inventory}
use reliable_broadcast.Witness.Clouds.{database}

abbrev first_page : Page
first_page = record { databases = database ∷ []; marker = codes "next" }

abbrev last_page : Page
last_page = record { databases = database ∷ []; marker = [] }

abbrev connection : RdsConnection
connection = record {
  arns = codes "arn-1" ∷ codes "arn-2" ∷ [];
  list_tags_for_resource = λ arn. (codes "arn", arn) ∷ [];
  get_all_dbinstances = λ marker. replied (if marker == [] then first_page else last_page);
}

two_pages : Leads connection [] (first_page ∷ last_page ∷ [])
unfolding list_beq codes
two_pages = Leads.more first_page 110 (codes "ext") refl refl (Leads.last last_page refl refl)

get_rds_instances_by_region-add_all_example :
    get_rds_instances_by_region settings true [] connection
      (codes "eu-west-1")
      (λ name. none)
      (λ path. true)
      true
      2
      inventory
    ≡ some (
        ending (
          add_all settings true [] connection
            (codes "eu-west-1")
            (λ name. none)
            (λ path. true)
            (first_page ∷ last_page ∷ [])
            inventory))
get_rds_instances_by_region-add_all_example =
    get_rds_instances_by_region-add_all settings true [] connection (codes "eu-west-1")
      (λ name. none) (λ path. true) 2 (first_page ∷ last_page ∷ []) inventory two_pages
      (ground arith)
