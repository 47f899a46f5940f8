-- ===== src/Inventory/Names/Safe.antt =====
-- What the names of groups and hosts look like.
use reliable_broadcast.Prelude.{
  ℕ, zero, suc, ◌≤◌, ◌⊎◌, some, false, get_elem?, if_false, ◌≡◌, refl, ap, sym, ◌∙◌, Bool-cases,
  inl, inr, nat_beq_iff, Bool, true, List, [], ◌∷◌, arith, ◌==◌, nat_eq, Text, All, length,
}
use reliable_broadcast.Inventory.Names.{
  is_safe, safe_char, to_safe, lower_char, lower, split, join, onto_first,
}

safe_char-IsSafe : (r : Bool) (c : ℕ) → is_safe r (safe_char r c) ≡ true
unfolding safe_char
safe_char-IsSafe r c = ground arith

safe_char_safe : (r : Bool) (c : ℕ) → is_safe r c ≡ true → safe_char r c ≡ c
unfolding safe_char
safe_char_safe r c h = rw (h, safe_char)

lower_char-IsSafe : (r : Bool) (c : ℕ) → is_safe r c ≡ true → is_safe r (lower_char c) ≡ true
unfolding is_safe lower_char
lower_char-IsSafe r c h = ground arith

abbrev pub IsSafe : Bool → Text → Type 0
IsSafe r = All (λ c. is_safe r c ≡ true)

to_safe-IsSafe : (r : Bool) (s : Text) → IsSafe r (to_safe r s)
unfolding to_safe
to_safe-IsSafe r [] = tt
to_safe-IsSafe r (c ∷ s) = (safe_char-IsSafe r c, to_safe-IsSafe r s)

lower-IsSafe : (r : Bool) (s : Text) → IsSafe r s → IsSafe r (lower s)
unfolding lower
lower-IsSafe r [] h = tt
lower-IsSafe r (c ∷ s) h = (lower_char-IsSafe r c h.0, lower-IsSafe r s h.1)

length-to_safe : (r : Bool) (s : Text) → length (to_safe r s) ≡ length s
unfolding to_safe
length-to_safe r [] = refl
length-to_safe r (c ∷ s) = ap suc (length-to_safe r s)

-- The characters by their codes: A to Z, a to z, 0 to 9, `_`, and the dash where dashes stay.
abbrev pub IsSafeChar : Bool → ℕ → Type 0
IsSafeChar r c =
    ((65 ≤ c) × (c ≤ 90))
    ⊎ (((97 ≤ c) × (c ≤ 122)) ⊎ (((48 ≤ c) × (c ≤ 57)) ⊎ ((c ≡ 95) ⊎ ((r ≡ false) × (c ≡ 45)))))

is_safe-IsSafeChar : (r : Bool) (c : ℕ) → is_safe r c ≡ true → IsSafeChar r c
unfolding is_safe
is_safe-IsSafeChar r c h = ground arith

IsSafeChar-is_safe : (r : Bool) (c : ℕ) → IsSafeChar r c → is_safe r c ≡ true
unfolding is_safe
IsSafeChar-is_safe r c h = ground arith

safe_char_lem :
    (r : Bool) (c : ℕ)
    → (IsSafeChar r c × (safe_char r c ≡ c)) ⊎ ((¬ IsSafeChar r c) × (safe_char r c ≡ 95))
unfolding safe_char
safe_char_lem r c = elim (Bool-cases (is_safe r c)) [
  | inl kept ↦ inl (is_safe-IsSafeChar r c kept, safe_char_safe r c kept)
  | inr other ↦
      inr (λ safe. absurd (ground (arith, IsSafeChar-is_safe r c safe)), if_false _ _ other)
]

safe_at :
    (r : Bool) (s : Text) (i c : ℕ)
    → get_elem? s i ≡ some c
    → (IsSafeChar r c × (get_elem? (to_safe r s) i ≡ some c))
      ⊎ ((¬ IsSafeChar r c) × (get_elem? (to_safe r s) i ≡ some 95))
unfolding to_safe get_elem?
safe_at r [] i c h = absurd (cc)
safe_at r (d ∷ s) zero c h =
    let same : d ≡ c = cc in
    let moved : get_elem? (to_safe r (d ∷ s)) 0 ≡ some (safe_char r c) =
      ap (λ x. some (safe_char r x)) same in
    elim (safe_char_lem r c) [
      | inl (safe, kept) ↦ inl (safe, moved ∙ ap some kept)
      | inr (unsafe, replaced) ↦ inr (unsafe, moved ∙ ap some replaced)
    ]
safe_at r (d ∷ s) (suc i) c h = safe_at r s i c h

All-IsSafeChar : (r : Bool) (s : Text) → IsSafe r s → All (IsSafeChar r) s
All-IsSafeChar r [] h = tt
All-IsSafeChar r (c ∷ s) h = (is_safe-IsSafeChar r c h.0, All-IsSafeChar r s h.1)

-- A name made safe has as many characters as before. A character that Ansible accepts stays in its
-- place, and any other gives its place to `_`. In lower case too, the name has only characters that
-- Ansible accepts.
pub to_safe_lem :
    (replace_dash : Bool) (s : Text) (i c : ℕ)
    → get_elem? s i ≡ some c
    → (length (to_safe replace_dash s) ≡ length s)
      × ((IsSafeChar replace_dash c × (get_elem? (to_safe replace_dash s) i ≡ some c))
          ⊎ ((¬ IsSafeChar replace_dash c) × (get_elem? (to_safe replace_dash s) i ≡ some b'_')))
      × All (IsSafeChar replace_dash) (lower (to_safe replace_dash s))
to_safe_lem r s i c h = (
  length-to_safe r s,
  safe_at r s i c h,
  All-IsSafeChar r (lower (to_safe r s)) (lower-IsSafe r (to_safe r s) (to_safe-IsSafe r s)),
)

join-onto_first :
    (separator c : ℕ) (parts : List Text)
    → join separator (onto_first c parts) ≡ c ∷ join separator parts
unfolding join
join-onto_first separator c [] = refl
join-onto_first separator c (part ∷ []) = refl
join-onto_first separator c (part ∷ part' ∷ parts) = refl

split-cons :
    (separator : ℕ) (s : Text)
    → (part : Text) × (parts : List Text) × (split separator s ≡ part ∷ parts)
unfolding split
split-cons separator [] = ([], [], refl)
split-cons separator (c ∷ s) =
    let (part, parts, e) = split-cons separator s in
    elim (Bool-cases (c == separator)) [
      | inl here ↦ ([], part ∷ parts, rw (here, e))
      | inr there ↦ (c ∷ part, parts, rw (there, e))
    ]

join_empty :
    (separator : ℕ) (part : Text) (parts : List Text)
    → join separator ([] ∷ part ∷ parts) ≡ separator ∷ join separator (part ∷ parts)
unfolding join
join_empty separator part parts = refl

-- The parts of a text, joined again, are the text.
join-split : (separator : ℕ) (s : Text) → join separator (split separator s) ≡ s
unfolding split
join-split separator [] = unfold join in refl
join-split separator (c ∷ s) =
    let (part, parts, e) = split-cons separator s in
    elim (Bool-cases (c == separator)) [
      | inl here ↦ rw here (
          ap (λ ps. join separator ([] ∷ ps)) e
          ∙ join_empty separator part parts
          ∙ ap (◌∷◌ separator) (ap (join separator) (sym e) ∙ join-split separator s)
          ∙ ap (λ x. x ∷ s) (sym ((nat_beq_iff c separator).0 here)))
      | inr there ↦
          rw there (rw (join-onto_first separator c (split separator s), join-split separator s))
    ]
