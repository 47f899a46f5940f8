-- ===== src/Inventory/Calls/Batches.antt =====
-- The batches in which `get_instances_by_region` asks for the tags.
use reliable_broadcast.Prelude.{
  ℕ, zero, suc, ◌+◌, ◌≤◌, ◌≡◌, refl, sym, ◌∙◌, ap, subst, List, [], ◌∷◌, ◌++◌, length, take, drop,
  ltb, All, arith, list_eq, nat_eq, Text, Bool-cases, inl, inr, if_true, if_false,
}
use reliable_broadcast.Inventory.Calls.{slices}

unfoldable pub joined {ℓ} : {A : Type ℓ} → List (List A) → List A
joined [] = []
joined (xs ∷ rest) = xs ++ joined rest

module _ {ℓ} {A : Type ℓ} where
  take-drop : (n : ℕ) (xs : List A) → take n xs ++ drop n xs ≡ xs
  take-drop zero xs = refl
  take-drop (suc n) [] = refl
  take-drop (suc n) (x ∷ xs) = ap (◌∷◌ x) (take-drop n xs)

  drop_nil : (n : ℕ) → drop {A = A} n [] ≡ []
  drop_nil zero = refl
  drop_nil (suc n) = refl

  drop-drop : (i n : ℕ) (xs : List A) → drop n (drop i xs) ≡ drop (i + n) xs
  drop-drop zero n xs = let e : n ≡ 0 + n = omega arith in ap (λ k. drop k xs) e
  drop-drop (suc i) n [] = drop_nil n ∙ sym (drop_nil (suc i + n))
  drop-drop (suc i) n (x ∷ xs) =
      let e : suc (i + n) ≡ suc i + n = omega arith in
      drop-drop i n xs ∙ ap (λ k. drop k (x ∷ xs)) e

  drop_all : (n : ℕ) (xs : List A) → length xs ≤ n → drop n xs ≡ []
  drop_all n [] h = drop_nil n
  drop_all zero (x ∷ xs) h = absurd (omega arith)
  drop_all (suc n) (x ∷ xs) h = drop_all n xs (omega arith)

  length-take : (n : ℕ) (xs : List A) → length (take n xs) ≤ n
  length-take zero xs = omega arith
  length-take (suc n) [] = omega arith
  length-take (suc n) (x ∷ xs) = omega (arith, length-take n xs)

slices-joined :
    (fuel i : ℕ) (ids : List Text) → length ids ≤ i + fuel → joined (slices fuel i ids) ≡ drop i ids
unfolding slices joined
slices-joined zero i ids h = sym (drop_all i ids (omega arith))
slices-joined (suc fuel) i ids h =
    let rest = slices-joined fuel (i + 199) ids (omega arith) in
    elim (Bool-cases (ltb i (length ids))) [
      | inl e ↦
          ap joined (if_true _ _ e)
          ∙ (ap (λ r. take 199 (drop i ids) ++ r) (rest ∙ sym (drop-drop i 199 ids))
              ∙ take-drop 199 (drop i ids))
      | inr e ↦
          ap joined (if_false (take 199 (drop i ids) ∷ slices fuel (i + 199) ids) [] e)
          ∙ sym (drop_all i ids (ground arith))
    ]

slices_small :
    (fuel i : ℕ) (ids : List Text) → All (λ batch. length batch ≤ 199) (slices fuel i ids)
unfolding slices
slices_small zero i ids = tt
slices_small (suc fuel) i ids = elim (Bool-cases (ltb i (length ids))) [
  | inl e ↦
      subst (All (λ batch. length batch ≤ 199)) (sym (if_true _ _ e))
        (length-take 199 (drop i ids), slices_small fuel (i + 199) ids)
  | inr e ↦
      subst (All (λ batch. length batch ≤ 199))
        (sym (if_false (take 199 (drop i ids) ∷ slices fuel (i + 199) ids) [] e)) tt
]

-- The batches hold each id once, in its place, and none is longer than the cloud allows.
pub slices_lem :
    (ids : List Text)
    → (joined (slices (length ids) 0 ids) ≡ ids)
      × All (λ batch. length batch ≤ 199) (slices (length ids) 0 ids)
slices_lem ids = (slices-joined (length ids) 0 ids (omega arith), slices_small (length ids) 0 ids)
