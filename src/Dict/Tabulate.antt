-- ===== src/Dict/Tabulate.antt =====
-- The dictionary of a partial function over a list of keys: what a log of insertions, updates and
-- removals leaves, in the order of the keys.
use reliable_broadcast.Prelude.{
  ◌+◌, ◌≡◌, refl, Bool, true, false, Option, none, some, List, [], ◌∷◌, ◌++◌, map, arith, Eq, ◌==◌,
  if◌then◌else◌, length, count, contains, Distinct,
}
use reliable_broadcast.Dict.{Dict, lookup, insert, remove}

abbrev pub holds {κ} : {V : Type κ} → (V → Bool) → Option V → Bool
holds p none = false
holds p (some v) = p v

module _ {ℓ κ} {K : Type ℓ} {V : Type κ} where
  abbrev pub with_entry : K → Option V → Dict K V → Dict K V
  with_entry k none d = d
  with_entry k (some v) d = (k, v) ∷ d

  unfoldable pub tabulate : (K → Option V) → List K → Dict K V
  tabulate f [] = []
  tabulate f (k ∷ ks) = with_entry k (f k) (tabulate f ks)

  pub tabulate-append :
      (f : K → Option V) (xs ys : List K) → tabulate f (xs ++ ys) ≡ tabulate f xs ++ tabulate f ys
  unfolding tabulate
  tabulate-append f [] ys = refl
  tabulate-append f (k ∷ ks) ys = ground (arith, tabulate-append f ks ys)

  pub count-tabulate :
      (p : V → Bool) (f : K → Option V) (ks : List K)
      → count p (map (λ e. e.1) (tabulate f ks)) ≡ count (λ k. holds p (f k)) ks
  unfolding tabulate count
  count-tabulate p f [] = refl
  count-tabulate p f (k ∷ ks) = ground (arith, count-tabulate p f ks)

module _ {ℓ κ} {K : Type ℓ} {V : Type κ} ⦃e : Eq K⦄ where
  pub lookup-tabulate :
      (f : K → Option V) (ks : List K) (k : K)
      → lookup k (tabulate f ks) ≡ (if contains ks k then f k else none)
  unfolding tabulate lookup contains
  lookup-tabulate f [] k = refl
  lookup-tabulate f (j ∷ ks) k = ground (arith, lookup-tabulate f ks k, e.beq_iff j k)

  module _ (f g : K → Option V) (k : K) (same : (j : K) → (j == k) ≡ false → f j ≡ g j) where
    pub tabulate_same : (ks : List K) → contains ks k ≡ false → tabulate f ks ≡ tabulate g ks
    unfolding tabulate contains
    tabulate_same [] h = refl
    tabulate_same (j ∷ ks) h = ground (arith, tabulate_same ks, same j)

    pub tabulate_unchanged : f k ≡ g k → (ks : List K) → tabulate f ks ≡ tabulate g ks
    unfolding tabulate
    tabulate_unchanged h [] = refl
    tabulate_unchanged h (j ∷ ks) = ground (arith, tabulate_unchanged h ks, same j, e.beq_iff j k)

    pub tabulate-insert :
        (ks : List K) (v w : V)
        → Distinct ks
        → contains ks k ≡ true
        → f k ≡ some v
        → g k ≡ some w
        → insert k w (tabulate f ks) ≡ tabulate g ks
    unfolding tabulate contains insert
    tabulate-insert [] v w d h p q = cc
    tabulate-insert (j ∷ ks) v w d h p q =
        ground (arith, tabulate-insert ks v w, tabulate_same ks, same j, e.beq_iff j k)

    pub tabulate-remove :
        (ks : List K) (v : V)
        → Distinct ks
        → contains ks k ≡ true
        → f k ≡ some v
        → g k ≡ none
        → remove k (tabulate f ks) ≡ tabulate g ks
    unfolding tabulate contains remove
    tabulate-remove [] v d h p q = cc
    tabulate-remove (j ∷ ks) v d h p q =
        ground (arith, tabulate-remove ks v, tabulate_same ks, same j, e.beq_iff j k)

module _ {ℓ} {K : Type ℓ} ⦃e : Eq K⦄ where
  module _ (p q : K → Bool) (k : K) (same : (j : K) → (j == k) ≡ false → p j ≡ q j) where
    pub count_same : (ks : List K) → contains ks k ≡ false → count p ks ≡ count q ks
    unfolding count contains
    count_same [] h = refl
    count_same (j ∷ ks) h = ground (arith, count_same ks, same j)

    -- A test that changes at one key changes the count by that key.
    pub count_update :
        (ks : List K)
        → Distinct ks
        → contains ks k ≡ true
        → count p ks + (if q k then 1 else 0) ≡ count q ks + (if p k then 1 else 0)
    unfolding count contains
    count_update [] d h = cc
    count_update (j ∷ ks) d h =
        ground (arith, count_update ks, count_same ks, same j, e.beq_iff j k)

  -- Three tests of which exactly one holds at each element.
  pub count_partition :
      (p q r : K → Bool) (ks : List K)
      → ((k : K)
          → contains ks k ≡ true
          → (if p k then 1 else 0) + (if q k then 1 else 0) + (if r k then 1 else 0) ≡ 1)
      → count p ks + count q ks + count r ks ≡ length ks
  unfolding count contains
  count_partition p q r [] h = refl
  count_partition p q r (k ∷ ks) h =
      let rest = count_partition p q r ks (λ j m. h j (ground arith)) in
      ground (arith, h k, e.beq_iff k k, rest)
