-- ===== src/Client/Utf8.antt =====
-- `bytes.decode()` of Python: strict UTF-8, byte by byte.
use reliable_broadcast.Prelude.{
  ℕ, zero, suc, ◌+◌, ◌-◌, ◌*◌, ◌<◌, ◌≡◌, refl, ◌&&◌, Option, none, some, List, [], ◌∷◌, arith, ltb,
  leb, if◌then◌else◌, Text, All,
}

-- What is still to come of a character: how many bytes, the bits so far, and the range of the next
-- byte, which rules out overlong forms and surrogates.
pub record Pending : Type 0 where
  pub missing : ℕ
  pub bits : ℕ
  pub low : ℕ
  pub high : ℕ

abbrev pub start : Pending
start = record { missing = 0; bits = 0; low = 128; high = 191 }

abbrev opened : ℕ → ℕ → ℕ → ℕ → Option (Pending × Option ℕ)
opened missing bits low high =
    some (record { missing = missing; bits = bits; low = low; high = high }, none)

-- The first byte of a character.
unfoldable pub lead : ℕ → Option (Pending × Option ℕ)
lead b =
    if ltb b 128
    then some (start, some b)
    else if leb 194 b && leb b 223
    then opened 1 (b - 192) 128 191
    else if leb 224 b && leb b 239
    then opened 2 (b - 224) (if leb b 224 then 160 else 128)
        (if leb 237 b && leb b 237 then 159 else 191)
    else if leb 240 b && leb b 244
    then opened 3 (b - 240) (if leb b 240 then 144 else 128) (if leb 244 b then 143 else 191)
    else none

-- A byte after the first: its low six bits join the rest.
unfoldable pub follow : ℕ → Pending → ℕ → Option (Pending × Option ℕ)
follow left p b =
    if leb p.low b && leb b p.high
    then (elim left [
      | zero ↦ some (start, some (p.bits * 64 + (b - 128)))
      | suc n ↦ opened (suc n) (p.bits * 64 + (b - 128)) 128 191
    ])
    else none

unfoldable pub next_byte : Pending → ℕ → ℕ → Option (Pending × Option ℕ)
unfolding lead follow
next_byte p zero b = lead b
next_byte p (suc left) b = follow left p b

abbrev emit : Option ℕ → Option Text → Option Text
emit out none = none
emit none (some text) = some text
emit (some c) (some text) = some (c ∷ text)

abbrev at_end : ℕ → Option Text
at_end zero = some []
at_end (suc _) = none

unfoldable pub decode_from : Pending → List ℕ → Option Text
unfolding next_byte
decode_from p [] = at_end p.missing
decode_from p (b ∷ bytes) = elim (next_byte p p.missing b) [
  | none ↦ none
  | some (p', out) ↦ emit out (decode_from p' bytes)
]

unfoldable pub decode : List ℕ → Option Text
unfolding decode_from
decode bytes = decode_from start bytes

-- Bytes below 128 stand for themselves.
decode-ascii : (bytes : List ℕ) → All (λ b. b < 128) bytes → decode bytes ≡ some bytes
unfolding decode
decode-ascii [] h = refl
decode-ascii (b ∷ bytes) h = ground (arith, decode-ascii bytes h.1)
