-- ===== src/Client/Message/Layout.antt =====
-- When a message can be encoded, and the bytes that result.
use reliable_broadcast.Prelude.{ℕ, ◌^◌, ◌<◌, ◌≤◌, ◌≡◌, ◌++◌, arith}
use mathlib.Core.Logic.{◌⊎◌, inl, inr}
use native.Mathlib.Decide.{dec_lt}
use reliable_broadcast.Result.{ok, raise, overflow_error}
use reliable_broadcast.Client.Bytes.{to_bytes, le_bytes}
use reliable_broadcast.Client.Message.{Message, MessageType, send, echo, ready, value, encode}

-- The fields fit the 64 bits that the encodings give them.
pub record Fits (m : Message) : Type 0 where
  pub mchain_hash : m.mchain_hash < 256 ^ 8
  pub client_id : m.client_id < 256 ^ 8
  pub nonce : m.nonce < 256 ^ 8

to_bytes_fits : (n k : ℕ) → n < 256 ^ k → to_bytes n k ≡ ok (le_bytes k n)
unfolding to_bytes
to_bytes_fits n k h = ground arith

to_bytes_overflow : (n k : ℕ) → 256 ^ k ≤ n → to_bytes n k ≡ raise overflow_error
unfolding to_bytes
to_bytes_overflow n k h = ground arith

to_bytes-type : (t : MessageType) → to_bytes (value t) 1 ≡ ok (le_bytes 1 (value t))
to_bytes-type send = to_bytes_fits 0 1 (omega arith)
to_bytes-type echo = to_bytes_fits 1 1 (omega arith)
to_bytes-type ready = to_bytes_fits 2 1 (omega arith)

pub encode-layout :
    (m : Message)
    → Fits m
    → encode m
      ≡ ok (
          le_bytes 1 (value m.message_type)
          ++ (le_bytes 8 m.mchain_hash
              ++ (le_bytes 8 m.client_id ++ (le_bytes 8 m.nonce ++ (le_bytes 8 0 ++ m.payload)))))
unfolding encode
encode-layout m h = rw (
  to_bytes-type m.message_type,
  to_bytes_fits m.mchain_hash 8 h.mchain_hash,
  to_bytes_fits m.client_id 8 h.client_id,
  to_bytes_fits m.nonce 8 h.nonce,
  to_bytes_fits 0 8 (omega arith),
)

-- A field that does not fit makes `encode` raise, and nothing else does.
pub Fits-or-overflow : (m : Message) → Fits m ⊎ ((¬ Fits m) × (encode m ≡ raise overflow_error))
unfolding encode
Fits-or-overflow m = elim (dec_lt m.mchain_hash (256 ^ 8)) [
  | no a ↦ inr (
    λ f. a f.mchain_hash,
    rw (to_bytes-type m.message_type, to_bytes_overflow m.mchain_hash 8 (omega arith)),
  )
  | yes a ↦ elim (dec_lt m.client_id (256 ^ 8)) [
    | no b ↦ inr (
      λ f. b f.client_id,
      rw (
        to_bytes-type m.message_type,
        to_bytes_fits m.mchain_hash 8 a,
        to_bytes_overflow m.client_id 8 (omega arith),
      ),
    )
    | yes b ↦ elim (dec_lt m.nonce (256 ^ 8)) [
      | no c ↦ inr (
        λ f. c f.nonce,
        rw (
          to_bytes-type m.message_type,
          to_bytes_fits m.mchain_hash 8 a,
          to_bytes_fits m.client_id 8 b,
          to_bytes_overflow m.nonce 8 (omega arith),
        ),
      )
      | yes c ↦ inl (record { mchain_hash = a; client_id = b; nonce = c })
    ]
  ]
]
