-- ===== src/Client/Message/Decode.antt =====
-- A node reads back what a client has encoded.
use reliable_broadcast.Prelude.{
  ℕ, ◌+◌, ◌^◌, ◌<◌, ◌≡◌, refl, false, ◌⊎◌, inl, inr, ◌∙◌, some, List, ◌++◌, arith, length, take,
  drop, ltb,
}
use reliable_broadcast.Result.{ok, raise, overflow_error}
use reliable_broadcast.Client.Bytes.{le_bytes, le_value, le_value-le_bytes}
use reliable_broadcast.Client.Message.{Message, MessageType, send, echo, ready, value, encode}
use reliable_broadcast.Client.Message.Layout.{Fits, encode-layout, Fits-or-overflow}
use reliable_broadcast.Node.Parse.{NodeMessage, parse, read_fields}

module _ (t : MessageType) where
  read_fields_long :
      (bytes : List ℕ)
      → ltb (length bytes) 32 ≡ false
      → read_fields t bytes
        ≡ some (record {
          message_type = t;
          mchain_hash = le_value (take 8 bytes);
          client_id = le_value (take 8 (drop 8 bytes));
          nonce = le_value (take 8 (drop 16 bytes));
          node_id = le_value (take 8 (drop 24 bytes));
          payload = drop 32 bytes;
        })
  unfolding read_fields
  read_fields_long bytes h = rw h

  -- Four numbers of eight bytes each are read back.
  read_fields-le_bytes :
      (a b c d : ℕ) (p : List ℕ)
      → a < 256 ^ 8
      → b < 256 ^ 8
      → c < 256 ^ 8
      → d < 256 ^ 8
      → read_fields t (le_bytes 8 a ++ (le_bytes 8 b ++ (le_bytes 8 c ++ (le_bytes 8 d ++ p))))
        ≡ some (record {
          message_type = t;
          mchain_hash = a;
          client_id = b;
          nonce = c;
          node_id = d;
          payload = p;
        })
  unfolding le_bytes
  read_fields-le_bytes a b c d p ha hb hc hd =
      read_fields_long (le_bytes 8 a ++ (le_bytes 8 b ++ (le_bytes 8 c ++ (le_bytes 8 d ++ p))))
        (ground arith)
      ∙ λ i. some (record {
        message_type = t;
        mchain_hash = le_value-le_bytes 8 a ha i;
        client_id = le_value-le_bytes 8 b hb i;
        nonce = le_value-le_bytes 8 c hc i;
        node_id = le_value-le_bytes 8 d hd i;
        payload = p;
      })

-- What a node makes of a client's message: the same message, under node id 0.
abbrev pub received : Message → NodeMessage
received m = record {
  message_type = m.message_type;
  mchain_hash = m.mchain_hash;
  client_id = m.client_id;
  nonce = m.nonce;
  node_id = 0;
  payload = m.payload;
}

parse-type :
    (t : MessageType) (bytes : List ℕ) → parse (le_bytes 1 (value t) ++ bytes) ≡ read_fields t bytes
unfolding parse le_bytes
parse-type send bytes = refl
parse-type echo bytes = refl
parse-type ready bytes = refl

buffer_length :
    (m : Message)
    → length (
        le_bytes 1 (value m.message_type)
        ++ (le_bytes 8 m.mchain_hash
            ++ (le_bytes 8 m.client_id ++ (le_bytes 8 m.nonce ++ (le_bytes 8 0 ++ m.payload)))))
      ≡ 33 + length m.payload
unfolding le_bytes
buffer_length m = omega arith

parse-layout :
    (m : Message)
    → Fits m
    → parse (
        le_bytes 1 (value m.message_type)
        ++ (le_bytes 8 m.mchain_hash
            ++ (le_bytes 8 m.client_id ++ (le_bytes 8 m.nonce ++ (le_bytes 8 0 ++ m.payload)))))
      ≡ some (received m)
parse-layout m h =
    parse-type m.message_type _
    ∙ read_fields-le_bytes m.message_type m.mchain_hash m.client_id m.nonce 0 m.payload
        h.mchain_hash h.client_id h.nonce (omega arith)

-- A message whose fields fit is encoded, in 33 bytes and the payload, and a node that parses the
-- buffer gets the same type, session and payload back, with node id 0. A message with a field of
-- more than 64 bits raises `OverflowError`.
pub parse-encode :
    (m : Message)
    → (Fits m
        × (b : List ℕ) × (encode m ≡ ok b)
        × (length b ≡ 33 + length m.payload)
        × (parse b ≡ some (received m)))
      ⊎ ((¬ Fits m) × (encode m ≡ raise overflow_error))
parse-encode m = elim (Fits-or-overflow m) [
  | inr failed ↦ inr failed
  | inl fits ↦ inl (fits, _, encode-layout m fits, buffer_length m, parse-layout m fits)
]
