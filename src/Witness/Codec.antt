-- ===== src/Witness/Codec.antt =====
-- Messages at concrete inputs.
use reliable_broadcast.Prelude.{ℕ, ◌+◌, ◌≡◌, refl, some, List, [], ◌∷◌, length, ◌⊎◌}
use reliable_broadcast.Result.{ok, raise, overflow_error}
use reliable_broadcast.Client.Bytes.{to_bytes, le_bytes}
use reliable_broadcast.Client.Message.{Message, send, encode}
use reliable_broadcast.Client.Message.Layout.{Fits}
use reliable_broadcast.Client.Message.Decode.{received, parse-encode}
use reliable_broadcast.Node.Parse.{parse}

abbrev hello : Message
hello = record {
  mchain_hash = 1234;
  client_id = 131;
  nonce = 7;
  message_type = send;
  payload = 104 ∷ 105 ∷ [];
}

encode-hello :
    encode hello
    ≡ ok (
        0 ∷ 210 ∷ 4 ∷ 0 ∷ 0 ∷ 0 ∷ 0 ∷ 0 ∷ 0 ∷ 131 ∷ 0 ∷ 0 ∷ 0 ∷ 0 ∷ 0 ∷ 0 ∷ 0 ∷ 7 ∷ 0 ∷ 0 ∷ 0 ∷ 0
        ∷ 0 ∷ 0 ∷ 0 ∷ 0 ∷ 0 ∷ 0 ∷ 0 ∷ 0 ∷ 0 ∷ 0 ∷ 0 ∷ 104 ∷ 105 ∷ [])
unfolding encode to_bytes le_bytes
encode-hello = refl

parse-encode_example :
    (Fits hello
      × (b : List ℕ) × (encode hello ≡ ok b)
      × (length b ≡ 33 + length hello.payload)
      × (parse b ≡ some (received hello)))
    ⊎ ((¬ Fits hello) × (encode hello ≡ raise overflow_error))
parse-encode_example = parse-encode hello
