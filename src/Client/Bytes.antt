-- ===== src/Client/Bytes.antt =====
-- `int.to_bytes(width, byteorder='little')` of Python, and the reading of such bytes.
use native.Mathlib.Nat.{pow-suc}
use reliable_broadcast.Prelude.{
  ℕ, zero, suc, ◌+◌, ◌*◌, ◌/◌, ◌%◌, ◌^◌, ◌<◌, ◌≡◌, refl, ap, List, [], ◌∷◌, arith, ltb,
  if◌then◌else◌, length, All,
}
use reliable_broadcast.Result.{Result, ok, raise, overflow_error}

-- The `k` low bytes of a number, the least one first.
unfoldable pub le_bytes : ℕ → ℕ → List ℕ
le_bytes zero n = []
le_bytes (suc k) n = (n % 256) ∷ le_bytes k (n / 256)

-- `n.to_bytes(k, byteorder='little')`
unfoldable pub to_bytes : ℕ → ℕ → Result (List ℕ)
to_bytes n k = if ltb n (256 ^ k) then ok (le_bytes k n) else raise overflow_error

-- The number that bytes stand for.
unfoldable pub le_value : List ℕ → ℕ
le_value [] = 0
le_value (b ∷ bs) = b + 256 * le_value bs

length-le_bytes : (k n : ℕ) → length (le_bytes k n) ≡ k
unfolding le_bytes
length-le_bytes zero n = refl
length-le_bytes (suc k) n = ap suc (length-le_bytes k (n / 256))

le_bytes_bounded : (k n : ℕ) → All (λ b. b < 256) (le_bytes k n)
unfolding le_bytes
le_bytes_bounded zero n = tt
le_bytes_bounded (suc k) n = (omega arith, le_bytes_bounded k (n / 256))

pub le_value-le_bytes : (k n : ℕ) → n < 256 ^ k → le_value (le_bytes k n) ≡ n
unfolding le_bytes le_value
le_value-le_bytes zero n h = omega arith
le_value-le_bytes (suc k) n h =
    let small : n / 256 < 256 ^ k = let h' : n < 256 ^ k * 256 = rw (← pow-suc) h in omega arith in
    omega (arith, le_value-le_bytes k (n / 256) small)
