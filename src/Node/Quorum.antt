-- ===== src/Node/Quorum.antt =====
-- Sets of nodes that are large enough to meet.
use reliable_broadcast.Prelude.{
  ℕ, ◌+◌, ◌≤◌, ◌<◌, ◌≡◌, refl, Bool, true, not, ◌&&◌, List, [], ◌∷◌, length, count, contains,
  Distinct, arith, nat_eq, nat_beq_iff, Bool-cases, inl, inr,
}
use reliable_broadcast.Dict.Tabulate.{count_update, count_same}

pub count_both :
    (p q : ℕ → Bool) (xs : List ℕ)
    → count p xs + count q xs ≤ length xs + count (λ k. p k && q k) xs
unfolding count
count_both p q [] = omega arith
count_both p q (x ∷ xs) = ground (arith, count_both p q xs)

pub count_except :
    (p q : ℕ → Bool) (xs : List ℕ)
    → count p xs ≤ count (λ k. p k && q k) xs + count (λ k. not (q k)) xs
unfolding count
count_except p q [] = omega arith
count_except p q (x ∷ xs) = ground (arith, count_except p q xs)

pub count_some :
    (p : ℕ → Bool) (xs : List ℕ) → 0 < count p xs → (k : ℕ) × (contains xs k ≡ true) × (p k ≡ true)
unfolding count contains
count_some p [] h = absurd (ground arith)
count_some p (x ∷ xs) h = elim (Bool-cases (p x)) [
  | inl e ↦ (x, ground (arith, nat_beq_iff x x), e)
  | inr e ↦ let rest = count_some p xs (ground arith) in (rest.0, ground (arith, rest.1), rest.2)
]

count_none : (xs : List ℕ) → count (contains []) xs ≡ 0
unfolding count contains
count_none [] = refl
count_none (x ∷ xs) = ground (arith, count_none xs)

-- Different members are counted among the members.
pub length_at_most_count :
    (members : List ℕ)
    → Distinct members
    → (xs : List ℕ) → Distinct xs
    → ((k : ℕ) → contains xs k ≡ true → contains members k ≡ true)
    → length xs ≤ count (contains xs) members
unfolding contains
length_at_most_count members d [] e h = omega arith
length_at_most_count members d (x ∷ xs) e h =
    let rest = length_at_most_count members d xs e.1 (λ k c. h k (ground arith)) in
    let update =
      count_update (contains xs) (contains (x ∷ xs)) x (λ j c. ground arith) members d
        (h x (ground (arith, nat_beq_iff x x))) in
    ground (arith, rest, update, e.0, nat_beq_iff x x)

-- More different members than there are members that fail a test include one that passes it.
pub member_among :
    (members : List ℕ)
    → Distinct members
    → (good : ℕ → Bool) (xs : List ℕ) → Distinct xs
    → ((k : ℕ) → contains xs k ≡ true → contains members k ≡ true)
    → count (λ k. not (good k)) members < length xs
    → (k : ℕ) × (contains xs k ≡ true) × (good k ≡ true)
member_among members d good xs e h few =
    let found =
      count_some (λ k. contains xs k && good k) members
        (omega (
          arith,
          count_except (contains xs) good members,
          length_at_most_count members d xs e h,
        )) in
    (found.0, ground (arith, found.2), ground (arith, found.2))

-- Two sets of members that are large together share one that passes the test.
pub member_shared :
    (members : List ℕ)
    → Distinct members
    → (good : ℕ → Bool) (xs ys : List ℕ) → Distinct xs
    → Distinct ys
    → ((k : ℕ) → contains xs k ≡ true → contains members k ≡ true)
    → ((k : ℕ) → contains ys k ≡ true → contains members k ≡ true)
    → length members + count (λ k. not (good k)) members < length xs + length ys
    → (k : ℕ) × (contains xs k ≡ true) × (contains ys k ≡ true) × (good k ≡ true)
member_shared members d good xs ys e f h g large =
    let both = λ (k : ℕ). contains xs k && contains ys k in
    let found =
      count_some (λ k. both k && good k) members
        (omega (
          arith,
          count_except both good members,
          count_both (contains xs) (contains ys) members,
          length_at_most_count members d xs e h,
          length_at_most_count members d ys f g,
        )) in
    (found.0, ground (arith, found.2), ground (arith, found.2), ground (arith, found.2))

count_mono :
    (p q : ℕ → Bool) (xs : List ℕ)
    → ((k : ℕ) → contains xs k ≡ true → p k ≡ true → q k ≡ true)
    → count p xs ≤ count q xs
unfolding count contains
count_mono p q [] h = omega arith
count_mono p q (x ∷ xs) h =
    ground
      (arith, count_mono p q xs (λ k c. h k (ground arith)), h x (ground (arith, nat_beq_iff x x)))

-- No more members are counted than there are senders.
count_at_most_length :
    (xs members : List ℕ) → Distinct members → count (contains xs) members ≤ length xs
unfolding contains
count_at_most_length [] members d = omega (arith, count_none members)
count_at_most_length (x ∷ xs) members d =
    let before = count_at_most_length xs members d in
    elim (Bool-cases (contains members x)) [
      | inl h ↦
          let update =
            count_update (contains (x ∷ xs)) (contains xs) x (λ j c. ground arith) members d h in
          ground (arith, before, update, nat_beq_iff x x)
      | inr h ↦ omega (
        arith,
        before,
        count_same (contains (x ∷ xs)) (contains xs) x (λ j c. ground arith) members h,
      )
    ]

-- As many as pass a test are senders, if all that pass it are.
pub count_senders :
    (members : List ℕ)
    → Distinct members
    → (p : ℕ → Bool) (xs : List ℕ)
    → ((k : ℕ) → contains members k ≡ true → p k ≡ true → contains xs k ≡ true)
    → count p members ≤ length xs
count_senders members d p xs h =
    omega (arith, count_mono p (contains xs) members h, count_at_most_length xs members d)

pub count-not : (p : ℕ → Bool) (xs : List ℕ) → count p xs + count (λ k. not (p k)) xs ≡ length xs
unfolding count
count-not p [] = refl
count-not p (x ∷ xs) = ground (arith, count-not p xs)
