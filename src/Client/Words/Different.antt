-- ===== src/Client/Words/Different.antt =====
-- The words of client/tester.py differ.
use reliable_broadcast.Prelude.{
  ℕ, zero, suc, ◌≤◌, ◌≡◌, refl, ap, true, false, ◌&&◌, List, [], ◌∷◌, ◌++◌, map, length, contains,
  contains-append, Distinct, arith, list_eq, nat_eq, list_beq, list_beq_iff, nat_beq_iff, ◌==◌,
  Text, codes, Bool-cases, inl, inr,
}
use reliable_broadcast.Client.Words.{ascii_lowercase, prefixed, product, string_generator}

Distinct-append :
    (xs ys : List Text)
    → Distinct xs
    → Distinct ys
    → ((a : Text) → contains xs a ≡ true → contains ys a ≡ false)
    → Distinct (xs ++ ys)
unfolding contains
Distinct-append [] ys d e h = e
Distinct-append (x ∷ xs) ys d e h = (
  ground (arith, contains-append xs ys x, d.0, h x (ground (arith, list_beq_iff x x))),
  Distinct-append xs ys d.1 e (λ a c. h a (ground arith)),
)

contains-behind :
    (letter d : ℕ) (words : List Text) (v : Text)
    → contains (map (λ word. letter ∷ word) words) (d ∷ v) ≡ (letter == d && contains words v)
unfolding contains list_beq
contains-behind letter d [] v = ground arith
contains-behind letter d (w ∷ words) v = ground (arith, contains-behind letter d words v)

contains-behind_empty :
    (letter : ℕ) (words : List Text) → contains (map (λ word. letter ∷ word) words) [] ≡ false
unfolding contains list_beq
contains-behind_empty letter [] = refl
contains-behind_empty letter (w ∷ words) = contains-behind_empty letter words

Distinct-behind :
    (letter : ℕ) (words : List Text) → Distinct words → Distinct (map (λ word. letter ∷ word) words)
Distinct-behind letter [] d = tt
Distinct-behind letter (w ∷ words) d =
    (ground (arith, contains-behind letter letter words w, d.0), Distinct-behind letter words d.1)

contains-prefixed :
    (letters : Text) (d : ℕ) (words : List Text) (v : Text)
    → contains (prefixed letters words) (d ∷ v) ≡ (contains letters d && contains words v)
unfolding prefixed contains
contains-prefixed [] d words v = refl
contains-prefixed (letter ∷ letters) d words v = ground (
  arith,
  contains-append (map (λ word. letter ∷ word) words) (prefixed letters words) (d ∷ v),
  contains-behind letter d words v,
  contains-prefixed letters d words v,
)

contains-prefixed_empty :
    (letters : Text) (words : List Text) → contains (prefixed letters words) [] ≡ false
unfolding prefixed contains
contains-prefixed_empty [] words = refl
contains-prefixed_empty (letter ∷ letters) words = ground (
  arith,
  contains-append (map (λ word. letter ∷ word) words) (prefixed letters words) [],
  contains-behind_empty letter words,
  contains-prefixed_empty letters words,
)

Distinct-prefixed :
    (letters : Text) (words : List Text)
    → Distinct letters
    → Distinct words
    → Distinct (prefixed letters words)
unfolding prefixed
Distinct-prefixed [] words d e = tt
Distinct-prefixed (letter ∷ letters) words d e =
    Distinct-append (map (λ word. letter ∷ word) words) (prefixed letters words)
      (Distinct-behind letter words e) (Distinct-prefixed letters words d.1 e) apart
  where
    apart :
        (a : Text)
        → contains (map (λ word. letter ∷ word) words) a ≡ true
        → contains (prefixed letters words) a ≡ false
    apart [] h = contains-prefixed_empty letters words
    apart (c ∷ v) h = ground (
      arith,
      contains-behind letter c words v,
      contains-prefixed letters c words v,
      d.0,
      nat_beq_iff letter c,
      ap (contains letters),
    )

product-length :
    (letters : Text) (n : ℕ) (w : Text) → contains (product letters n) w ≡ true → length w ≡ n
unfolding product contains list_beq
product-length letters zero [] h = refl
product-length letters zero (c ∷ w) h = cc
product-length letters (suc n) [] h =
    absurd (ground (arith, contains-prefixed_empty letters (product letters n)))
product-length letters (suc n) (c ∷ w) h = omega (
  arith,
  product-length letters n w (ground (arith, contains-prefixed letters c (product letters n) w)),
)

Distinct-product : (letters : Text) (n : ℕ) → Distinct letters → Distinct (product letters n)
unfolding product contains
Distinct-product letters zero d = (refl, tt)
Distinct-product letters (suc n) d =
    Distinct-prefixed letters (product letters n) d (Distinct-product letters n d)

Distinct-ascii_lowercase : Distinct ascii_lowercase
unfolding contains codes
Distinct-ascii_lowercase = ground arith

string_generator-length : (n : ℕ) (w : Text) → contains (string_generator n) w ≡ true → length w ≤ n
unfolding string_generator contains
string_generator-length zero w h = absurd (cc)
string_generator-length (suc n) w h = elim (Bool-cases (contains (string_generator n) w)) [
  | inl e ↦ omega (arith, string_generator-length n w e)
  | inr e ↦ omega (
    arith,
    product-length ascii_lowercase (suc n) w
        (ground (arith, contains-append (string_generator n) (product ascii_lowercase (suc n)) w)),
  )
]

-- The generator never yields a word twice, however far it is run.
pub Distinct-string_generator : (n : ℕ) → Distinct (string_generator n)
unfolding string_generator
Distinct-string_generator zero = tt
Distinct-string_generator (suc n) =
    Distinct-append (string_generator n) (product ascii_lowercase (suc n))
      (Distinct-string_generator n)
      (Distinct-product ascii_lowercase (suc n) Distinct-ascii_lowercase) apart
  where
    apart :
        (a : Text)
        → contains (string_generator n) a ≡ true
        → contains (product ascii_lowercase (suc n)) a ≡ false
    apart a h = elim (Bool-cases (contains (product ascii_lowercase (suc n)) a)) [
      | inl e ↦
          absurd (
            omega
              (arith, string_generator-length n a h, product-length ascii_lowercase (suc n) a e))
      | inr e ↦ e
    ]
