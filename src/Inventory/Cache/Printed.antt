-- ===== src/Inventory/Cache/Printed.antt =====
-- What ops/ansible/ec2.py prints, and what it leaves in its cache files.
use reliable_broadcast.Prelude.{
  ◌<◌, ℕ, ◌+◌, ◌≡◌, refl, sym, ◌∙◌, ap, subst, Bool, true, false, not, Option, none, some, arith,
  if_true, if_false, Bool-cases, inl, inr, ◌⊎◌,
}
use reliable_broadcast.Result.{ok, >>=-eq-ok, ok-injective}
use reliable_broadcast.Inventory.Cache.{
  Cloud, Program, CacheFiles, Listing, Output, listing, listing_of, is_empty_inventory,
  is_cache_valid, do_api_calls_update_cache, write_caches, list_inventory, refresh, print_data,
  main, read_file, call_regions, call_when,
}

-- After an update the files hold what the program holds.
IsWritten : ℕ → Program → Type 0
IsWritten now p =
    (p.files.cache ≡ some (now, listing_of p.inventory)) × (p.files.index ≡ some p.inventory.index)

module _ (cloud : Cloud) where
  update-IsWritten :
      (now : ℕ) (p p' : Program) → do_api_calls_update_cache cloud now p ≡ ok p' → IsWritten now p'
  unfolding do_api_calls_update_cache IsWritten write_caches
  update-IsWritten now p p' h =
      let records =
        >>=-eq-ok (call_when cloud.route53_enabled cloud.get_route53_records p.inventory) _ h in
      let called = >>=-eq-ok (call_regions cloud cloud.regions records.0) _ records.2 in
      subst (IsWritten now) (ok-injective called.2) (refl, refl)

  read_file-some {ℓ} :
      {A : Type ℓ} (file : Option A) (content : A)
      → read_file cloud file ≡ ok content
      → file ≡ some content
  read_file-some none content h = cc
  read_file-some (some c) content h = ap some (ok-injective h)

  -- What `--list` prints is in the cache file.
  list_inventory-cached :
      (p p' : Program) (out : Output) (now : ℕ)
      → IsWritten now p ⊎ (is_empty_inventory p.inventory ≡ true)
      → list_inventory cloud p ≡ ok (out, p')
      → (at : ℕ) × (stored : Listing) × (p'.files.cache ≡ some (at, stored))
        × (out ≡ listing stored)
  unfolding list_inventory IsWritten
  list_inventory-cached p p' out now fresh h = elim (Bool-cases (is_empty_inventory p.inventory)) [
    | inl e ↦
        let read = >>=-eq-ok (read_file cloud p.files.cache) _ (sym (if_true _ _ e) ∙ h) in
        let found : p.files.cache ≡ some read.0 = read_file-some p.files.cache read.0 read.1 in
        let same = ok-injective read.2 in
        (read.0.0, read.0.1, ap (λ r. r.1.files.cache) (sym same) ∙ found, ap (λ r. r.0) (sym same))
    | inr e ↦
        let same = ok-injective (sym (if_false _ _ e) ∙ h) in
        elim fresh [
          | inl w ↦ (
            now,
            listing_of p.inventory,
            ap (λ r. r.1.files.cache) (sym same) ∙ w.0,
            ap (λ r. r.0) (sym same),
          )
          | inr empty ↦ absurd (cc)
        ]
  ]

list_inventory-files :
    (cloud : Cloud) (p p' : Program) (out : Output)
    → list_inventory cloud p ≡ ok (out, p')
    → p'.files ≡ p.files
unfolding list_inventory
list_inventory-files cloud p p' out h = elim (Bool-cases (is_empty_inventory p.inventory)) [
  | inl e ↦
      let read = >>=-eq-ok (read_file cloud p.files.cache) _ (sym (if_true _ _ e) ∙ h) in
      ap (λ r. r.1.files) (sym (ok-injective read.2))
  | inr e ↦ ap (λ r. r.1.files) (sym (ok-injective (sym (if_false _ _ e) ∙ h)))
]

-- The program updates, or goes on with cache files that are valid.
IsReady : Bool → ℕ → ℕ → Program → Program → Type 0
IsReady refresh_cache cache_max_age now p ready =
    IsWritten now ready
    ⊎ ((ready ≡ p) × (refresh_cache ≡ false) × (is_cache_valid cache_max_age now p.files ≡ true))

refresh-IsReady :
    (cloud : Cloud) (refresh_cache : Bool) (cache_max_age now : ℕ) (p ready : Program)
    → refresh cloud refresh_cache cache_max_age now p ≡ ok ready
    → IsReady refresh_cache cache_max_age now p ready
unfolding refresh IsReady
refresh-IsReady cloud true cache_max_age now p ready h = inl (update-IsWritten cloud now p ready h)
refresh-IsReady cloud false cache_max_age now p ready h =
    elim (Bool-cases (is_cache_valid cache_max_age now p.files)) [
      | inl e ↦ inr (sym (ok-injective (sym (if_false _ _ (ap not e)) ∙ h)), refl, e)
      | inr e ↦ inl (update-IsWritten cloud now p ready (sym (if_true _ _ (ap not e)) ∙ h))
    ]

valid-young :
    (cache_max_age now at : ℕ) (stored : Listing) (files : CacheFiles)
    → files.cache ≡ some (at, stored)
    → is_cache_valid cache_max_age now files ≡ true
    → now < at + cache_max_age
unfolding is_cache_valid
valid-young cache_max_age now at stored files h valid = ground (arith, h, valid)

-- What `--list` prints, from the cloud or from the cache file, is what the cache file then holds;
-- it has been written in this run, or, where no refresh is asked for, is younger than the age that
-- the settings allow.
pub main-cached :
    (cloud : Cloud) (refresh_cache : Bool) (cache_max_age now : ℕ) (p p' : Program) (out : Output)
    → is_empty_inventory p.inventory ≡ true
    → main cloud refresh_cache none cache_max_age now p ≡ ok (out, p')
    → (at : ℕ) × (stored : Listing) × (p'.files.cache ≡ some (at, stored))
      × (out ≡ listing stored)
      × ((at ≡ now) ⊎ ((refresh_cache ≡ false) × (now < at + cache_max_age)))
unfolding main print_data IsReady IsWritten
main-cached cloud refresh_cache cache_max_age now p p' out new h =
    let ready = >>=-eq-ok (refresh cloud refresh_cache cache_max_age now p) _ h in
    elim (refresh-IsReady cloud refresh_cache cache_max_age now p ready.0 ready.1) [
      | inl w ↦
          let printed = list_inventory-cached cloud ready.0 p' out now (inl w) ready.2 in
          let kept = list_inventory-files cloud ready.0 p' out ready.2 in
          (
            printed.0,
            printed.1,
            printed.2,
            printed.3,
            inl (ground (arith, printed.2, kept, w.0, ap (λ f. f.cache) kept)),
          )
      | inr (same, quiet, valid) ↦
          let printed =
            list_inventory-cached cloud ready.0 p' out now
              (inr (ap (λ q. is_empty_inventory q.inventory) same ∙ new)) ready.2 in
          let kept = list_inventory-files cloud ready.0 p' out ready.2 in
          (
            printed.0,
            printed.1,
            printed.2,
            printed.3,
            inr (
              quiet,
              valid-young cache_max_age now printed.0 printed.1 p.files
                  (ap (λ f. f.cache) (ap (λ q. q.files) (sym same) ∙ sym kept) ∙ printed.2) valid,
            ),
          )
    ]
