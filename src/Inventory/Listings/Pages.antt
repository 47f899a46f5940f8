-- ===== src/Inventory/Listings/Pages.antt =====
-- The loop of `get_rds_instances_by_region` of ops/ansible/ec2.py over the pages.
use reliable_broadcast.Prelude.{
  ℕ, zero, suc, ◌≤◌, ◌≡◌, refl, sym, if_true, if_false, ◌∙◌, ap, Bool, true, Option, some, List, [],
  ◌∷◌, length, arith, Text, codes, ltb, list_eq, nat_eq, if◌then◌else◌,
}
use reliable_broadcast.Result.{Result, raise, ok, index_error, ◌>>=◌}
use reliable_broadcast.Dict.{Dict, insert}
use reliable_broadcast.Inventory.Databases.{Database, add_rds_instance}
use reliable_broadcast.Inventory.Settings.{Settings, Inventory, text, tag_set}
use reliable_broadcast.Inventory.Filters.{FilterValue, tags_match_filters}
use reliable_broadcast.Inventory.Report.{ending}
use reliable_broadcast.Inventory.Listings.{
  Page, RdsConnection, replied, tag_dict, add_database, add_page, add_pages, after_reply,
  after_page, get_rds_instances_by_region,
}

-- The pages that the connection gives from a marker, up to one without a marker.
pub data Leads (conn : RdsConnection) : Text → List Page → Type 0 where
  last :
      {marker : Text} (page : Page)
      → conn.get_all_dbinstances marker ≡ replied page
      → page.marker ≡ []
      → Leads conn marker (page ∷ [])
  more :
      {marker : Text} {pages : List Page} (page : Page) (c : ℕ) (next : Text)
      → conn.get_all_dbinstances marker ≡ replied page
      → page.marker ≡ c ∷ next
      → Leads conn (c ∷ next) pages
      → Leads conn marker (page ∷ pages)

-- Each arn with the database in its place.
unfoldable pub paired : List Text → List Database → List (Text × Database)
paired [] databases = []
paired (arn ∷ arns) [] = []
paired (arn ∷ arns) (database ∷ databases) = (arn, database) ∷ paired arns databases

module _ (s : Settings) (stack_filters : Bool) (filters : List (Dict Text FilterValue))
    (conn : RdsConnection) (region : Text) (env : Text → Option Text) (is_file : Text → Bool) where
  -- A database with its arn and its tags, which its variables have too.
  abbrev pub completed : Text → Database → Database
  completed arn database =
      let tags = tag_dict [] (conn.list_tags_for_resource arn) in
      record database {
        tags = tags;
        variables =
            insert (codes "tags") (tag_set tags)
              (insert (codes "arn") (text arn) database.variables);
      }

  -- The databases with their arns: those whose tags match the filters are added.
  unfoldable pub add_listed : List (Text × Database) → Inventory → Result Inventory
  add_listed [] inventory = ok inventory
  add_listed ((arn, database) ∷ listed) inventory = do
    next ←
        if tags_match_filters stack_filters (completed arn database).tags filters
        then add_rds_instance s (completed arn database) region inventory
        else ok inventory
    add_listed listed next

  -- A page has no more databases than there are arns, or an `IndexError` ends it.
  abbrev pub within : List Text → List Database → Inventory → Result Inventory
  within arns databases inventory =
      if ltb (length arns) (length databases) then raise index_error else ok inventory

  -- All pages, one after the other.
  unfoldable pub add_all : List Page → Inventory → Result Inventory
  add_all [] inventory = ok inventory
  add_all (page ∷ pages) inventory = do
    listed ← add_listed (paired conn.arns page.databases) inventory
    next ← within conn.arns page.databases listed
    add_all pages next

  room :
      (arn : Text) (database : Database) (arns : List Text) (databases : List Database)
      → ltb (length arns) (length databases)
        ≡ ltb (length (arn ∷ arns)) (length (database ∷ databases))
  room arn database arns databases = ground arith

  no_room : (n : ℕ) (r : Result Inventory) → (if ltb n 0 then raise index_error else r) ≡ r
  no_room n r = if_false (raise index_error) r (ground arith)

  short :
      (n : ℕ) (r : Result Inventory)
      → (if ltb 0 (suc n) then raise index_error else r) ≡ raise index_error
  short n r = if_true (raise index_error) r (ground arith)

  add_page-add_listed :
      (arns : List Text) (databases : List Database) (inventory : Inventory)
      → add_page s stack_filters filters conn region arns databases inventory
        ≡ (add_listed (paired arns databases) inventory >>= within arns databases)
  unfolding add_page add_listed paired add_database
  add_page-add_listed [] [] inventory = sym (no_room 0 (ok inventory))
  add_page-add_listed (arn ∷ arns) [] inventory = sym (no_room (length (arn ∷ arns)) (ok inventory))
  add_page-add_listed [] (database ∷ databases) inventory =
      sym (short (length databases) (ok inventory))
  add_page-add_listed (arn ∷ arns) (database ∷ databases) inventory =
      go (add_page-add_listed arns databases)
        (add_database s stack_filters filters conn region arn database inventory)
    where
      go :
          ((next : Inventory)
            → add_page s stack_filters filters conn region arns databases next
              ≡ (add_listed (paired arns databases) next >>= within arns databases))
          → (r : Result Inventory)
          → (r >>= add_page s stack_filters filters conn region arns databases) ≡ (
              (r >>= add_listed (paired arns databases))
              >>= within (arn ∷ arns) (database ∷ databases))
      go later (raise e) = refl
      go later (ok next) = later next ∙ (λ i.
          add_listed (paired arns databases) next
          >>= (λ x. if room arn database arns databases i then raise index_error else ok x))

  -- All pages, as the code goes through them.
  add_each : List Page → Inventory → Result Inventory
  add_each [] inventory = ok inventory
  add_each (page ∷ pages) inventory = do
    next ← add_page s stack_filters filters conn region conn.arns page.databases inventory
    add_each pages next

  add_each-add_all :
      (pages : List Page) (inventory : Inventory)
      → add_each pages inventory ≡ add_all pages inventory
  unfolding add_each add_all
  add_each-add_all [] inventory = refl
  add_each-add_all (page ∷ pages) inventory =
      ap (λ r. r >>= add_each pages) (add_page-add_listed conn.arns page.databases inventory)
      ∙ go (add_each-add_all pages) (add_listed (paired conn.arns page.databases) inventory)
    where
      then_rest :
          ((next : Inventory) → add_each pages next ≡ add_all pages next)
          → (r : Result Inventory) → (r >>= add_each pages) ≡ (r >>= add_all pages)
      then_rest later (raise e) = refl
      then_rest later (ok next) = later next

      go :
          ((next : Inventory) → add_each pages next ≡ add_all pages next)
          → (r : Result Inventory)
          → ((r >>= within conn.arns page.databases) >>= add_each pages)
            ≡ (r >>= (λ listed. within conn.arns page.databases listed >>= add_all pages))
      go later (raise e) = refl
      go later (ok listed) = then_rest later (within conn.arns page.databases listed)

  add_pages-add_each :
      (fuel : ℕ) {marker : Text} {pages : List Page} (inventory : Inventory)
      → Leads conn marker pages
      → length pages ≤ fuel
      → add_pages s stack_filters filters conn region env is_file fuel marker inventory
        ≡ some (ending (add_each pages inventory))
  unfolding add_pages after_reply add_each
  add_pages-add_each zero inventory (Leads.last page given ends) enough = absurd (omega arith)
  add_pages-add_each zero inventory (Leads.more page c next given marked leads) enough =
      absurd (omega arith)
  add_pages-add_each (suc fuel) inventory (Leads.last page given ends) enough =
      ap
        (λ r.
          after_reply s stack_filters filters conn region env is_file
            (add_pages s stack_filters filters conn region env is_file fuel) r inventory)
        given
      ∙ (ap
            (λ m.
              after_page s stack_filters filters conn region env is_file
                (add_pages s stack_filters filters conn region env is_file fuel) m first)
            ends
          ∙ ends_here first)
    where
      first : Result Inventory
      first = add_page s stack_filters filters conn region conn.arns page.databases inventory

      ends_here :
          (r : Result Inventory)
          → after_page s stack_filters filters conn region env is_file
              (add_pages s stack_filters filters conn region env is_file fuel)
              []
              r
            ≡ some (ending (r >>= (λ next. ok next)))
      ends_here (raise e) = refl
      ends_here (ok next) = refl
  add_pages-add_each (suc fuel) inventory
        (Leads.more {pages = pages} page c next given marked leads) enough =
      ap
        (λ r.
          after_reply s stack_filters filters conn region env is_file
            (add_pages s stack_filters filters conn region env is_file fuel) r inventory)
        given
      ∙ (ap
            (λ m.
              after_page s stack_filters filters conn region env is_file
                (add_pages s stack_filters filters conn region env is_file fuel) m first)
            marked
          ∙ goes_on (λ i. add_pages-add_each fuel i leads (omega arith)) first)
    where
      first : Result Inventory
      first = add_page s stack_filters filters conn region conn.arns page.databases inventory

      goes_on :
          ((i : Inventory)
            → add_pages s stack_filters filters conn region env is_file fuel (c ∷ next) i
              ≡ some (ending (add_each pages i)))
          → (r : Result Inventory)
          → after_page s stack_filters filters conn region env is_file
              (add_pages s stack_filters filters conn region env is_file fuel)
              (c ∷ next)
              r
            ≡ some (ending (r >>= add_each pages))
      goes_on later (raise e) = refl
      goes_on later (ok inventory') = later inventory'

  -- Where the markers of the connection lead to a last page, and there is fuel for each page, the
  -- databases of all pages are gone through once, page after page, up to the first that raises: each
  -- takes the arn of its place in the page and the tags of that arn, among its variables too, and is
  -- added if these match the filters. A page with more databases than there are arns ends the run.
  pub get_rds_instances_by_region-add_all :
      (fuel : ℕ) (pages : List Page) (inventory : Inventory)
      → Leads conn [] pages
      → length pages ≤ fuel
      → get_rds_instances_by_region s stack_filters filters conn region env is_file true fuel
          inventory
        ≡ some (ending (add_all pages inventory))
  unfolding get_rds_instances_by_region
  get_rds_instances_by_region-add_all fuel pages inventory leads enough =
      add_pages-add_each fuel inventory leads enough
      ∙ ap (λ r. some (ending r)) (add_each-add_all pages inventory)
