-- ===== src/Decimal.antt =====
-- `str` of a number, as ops/ansible/ec2.py and ops/tests/generate_configs.py put it into names.
use reliable_broadcast.Prelude.{
  ℕ, ◌+◌, ◌-◌, ◌*◌, ◌/◌, ◌%◌, ◌<◌, ◌≡◌, zero, suc, refl, arith, [], ◌∷◌, ◌++◌, if◌then◌else◌, ltb,
  Text, false, Bool-cases, inl, inr,
}

-- The last digits of a number, as many as the fuel allows.
unfoldable pub digits : ℕ → ℕ → Text
digits zero n = []
digits (suc fuel) n =
    let front = digits fuel (n / 10) in
    if ltb n 10 then (48 + n) ∷ [] else front ++ (48 + n % 10) ∷ []

unfoldable pub decimal : ℕ → Text
unfolding digits
decimal n = digits (suc n) n

-- The number that a text of digits stands for.
unfoldable pub read : ℕ → Text → ℕ
read value [] = value
read value (c ∷ s) = read (value * 10 + (c - 48)) s

read-append :
    (value : ℕ) (xs : Text) (c : ℕ) → read value (xs ++ c ∷ []) ≡ read value xs * 10 + (c - 48)
unfolding read
read-append value [] c = refl
read-append value (x ∷ xs) c = read-append (value * 10 + (x - 48)) xs c

tenth_fits : (fuel n : ℕ) → n < suc fuel → ltb n 10 ≡ false → n / 10 < fuel
tenth_fits fuel n h large = ground (arith, h, large)

last_digit : (n : ℕ) → n / 10 * 10 + (48 + n % 10 - 48) ≡ n
last_digit n = omega arith

read-digits : (fuel n : ℕ) → n < fuel → read 0 (digits fuel n) ≡ n
unfolding digits
read-digits zero n h = omega (arith, h)
read-digits (suc fuel) n h = elim (Bool-cases (ltb n 10)) [
  | inl small ↦ rw small (unfold read in ground (arith, small))
  | inr large ↦
      rw (large, read-append, read-digits fuel (n / 10) (tenth_fits fuel n h large)) (last_digit n)
]

-- `str` of a number, read back, is the number.
pub read-decimal : (n : ℕ) → read 0 (decimal n) ≡ n
unfolding decimal
read-decimal n = read-digits (suc n) n (omega arith)
