-- ===== src/Dict.antt =====
-- Python's `dict`: a list of pairs in the order of insertion. A write to a key that is there keeps
-- its place, a new key goes to the end, and `pop` takes the key out.
pub mod Tabulate
use reliable_broadcast.Prelude.{
  ◌≡◌, ◌+◌, length, refl, false, Option, none, some, List, [], ◌∷◌, ◌++◌, map, arith, Eq, ◌==◌,
  if◌then◌else◌, contains, beq_refl,
}

abbrev pub Dict {ℓ κ} : Type ℓ → Type κ → Type (ℓ ⊔ κ)
Dict K V = List (K × V)

abbrev pub keys {ℓ κ} : {K : Type ℓ} {V : Type κ} → Dict K V → List K
keys = map (λ e. e.0)

module _ {ℓ κ} {K : Type ℓ} {V : Type κ} ⦃e : Eq K⦄ where
  -- `d.get(k)`
  unfoldable pub lookup : K → Dict K V → Option V
  lookup k [] = none
  lookup k ((j, v) ∷ d) = if j == k then some v else lookup k d

  -- `d[k] = v`
  unfoldable pub insert : K → V → Dict K V → Dict K V
  insert k v [] = (k, v) ∷ []
  insert k v ((j, w) ∷ d) = if j == k then (j, v) ∷ d else (j, w) ∷ insert k v d

  -- `d.pop(k)`, of a key that is there
  unfoldable pub remove : K → Dict K V → Dict K V
  remove k [] = []
  remove k ((j, w) ∷ d) = if j == k then d else (j, w) ∷ remove k d

  pub lookup-insert :
      (k j : K) (v : V) (d : Dict K V)
      → lookup j (insert k v d) ≡ (if k == j then some v else lookup j d)
  unfolding lookup insert
  lookup-insert k j v [] = refl
  lookup-insert k j v ((i, w) ∷ d) =
      ground (arith, e.beq_iff k j, e.beq_iff i k, e.beq_iff i j, lookup-insert k j v d)

  pub lookup-insert_self : (k : K) (v : V) (d : Dict K V) → lookup k (insert k v d) ≡ some v
  lookup-insert_self k v d = simp (lookup-insert, beq_refl)

  -- A key is looked up with success exactly when it is among the keys.
  lookup_absent : (k : K) (d : Dict K V) → contains (keys d) k ≡ false → lookup k d ≡ none
  unfolding lookup contains
  lookup_absent k [] h = refl
  lookup_absent k ((j, w) ∷ d) h = ground (arith, lookup_absent k d)

  contains_absent : (k : K) (d : Dict K V) → lookup k d ≡ none → contains (keys d) k ≡ false
  unfolding lookup contains
  contains_absent k [] h = refl
  contains_absent k ((j, w) ∷ d) h = ground (arith, contains_absent k d)

  pub insert_absent :
      (k : K) (v : V) (d : Dict K V) → lookup k d ≡ none → insert k v d ≡ d ++ (k, v) ∷ []
  unfolding lookup insert
  insert_absent k v [] h = refl
  insert_absent k v ((j, w) ∷ d) h = ground (arith, insert_absent k v d)

  pub length-insert_absent :
      (k : K) (v : V) (d : Dict K V) → lookup k d ≡ none → length (insert k v d) ≡ length d + 1
  unfolding lookup insert
  length-insert_absent k v [] h = omega arith
  length-insert_absent k v ((j, w) ∷ d) h = ground (arith, length-insert_absent k v d)

  pub length-insert_present :
      (k : K) (v w : V) (d : Dict K V) → lookup k d ≡ some w → length (insert k v d) ≡ length d
  unfolding lookup insert
  length-insert_present k v w [] h = cc
  length-insert_present k v w ((j, u) ∷ d) h = ground (arith, length-insert_present k v w d)

  pub length-remove :
      (k : K) (w : V) (d : Dict K V) → lookup k d ≡ some w → length (remove k d) + 1 ≡ length d
  unfolding lookup remove
  length-remove k w [] h = cc
  length-remove k w ((j, u) ∷ d) h = ground (arith, length-remove k w d)
