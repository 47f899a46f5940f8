-- ===== src/Client/UdpClient/Sessions.antt =====
-- The sessions that a client's messages open on the nodes.
use reliable_broadcast.Prelude.{
  ℕ, ◌+◌, ◌^◌, ◌<◌, ◌≤◌, ◌≡◌, refl, false, Option, some, List, [], ◌∷◌, map, arith, nat_eq, length,
  contains, Distinct, All, ◌⊎◌, inl, inr,
}
use reliable_broadcast.Result.{ok, raise, overflow_error}
use reliable_broadcast.Client.Message.Decode.{parse-encode}
use reliable_broadcast.Client.UdpClient.{UdpClient, next_message, send_message, send_all}
use reliable_broadcast.Node.Parse.{NodeMessage, parse, session_id}
use reliable_broadcast.Node.Pool.{same_id, session_id_eq}
use reliable_broadcast.Client.Message.{send}

-- A SEND of these numbers and data, as a node should read it.
abbrev pub as_send : ℕ → ℕ → ℕ → List ℕ → NodeMessage
as_send mchain_hash client_id nonce payload = record {
  message_type = send;
  mchain_hash = mchain_hash;
  client_id = client_id;
  nonce = nonce;
  node_id = 0;
  payload = payload;
}

-- The numbers fit 64 bits.
abbrev pub AreSmall : ℕ → ℕ → ℕ → Type 0
AreSmall mchain_hash client_id nonce =
    (mchain_hash < 256 ^ 8) × (client_id < 256 ^ 8) × (nonce < 256 ^ 8)

-- Messages of different nonces have different ids.
new_id :
    (messages : List NodeMessage) (m : NodeMessage)
    → contains (map (λ x. x.nonce) messages) m.nonce ≡ false
    → contains (map session_id messages) (session_id m) ≡ false
unfolding contains session_id same_id
new_id [] m h = refl
new_id (x ∷ messages) m h = ground (arith, new_id messages m)

ids-Distinct :
    (messages : List NodeMessage)
    → Distinct (map (λ m. m.nonce) messages)
    → Distinct (map session_id messages)
ids-Distinct [] d = tt
ids-Distinct (m ∷ messages) d = (new_id messages m d.0, ids-Distinct messages d.1)

module _ {Address : Type 0} where
  -- One message for every node.
  unfoldable pub to_all : List Address → NodeMessage → List (Address × Option NodeMessage)
  to_all nodes m = map (λ node. (node, some m)) nodes

  -- What arrives: the datagrams, parsed.
  unfoldable pub arriving : List (Address × List ℕ) → List (Address × Option NodeMessage)
  arriving = map (λ d. (d.0, parse d.1))

  arriving-buffer :
      (nodes : List Address) (b : List ℕ) (m : NodeMessage)
      → parse b ≡ some m
      → arriving (map (λ node. (node, b)) nodes) ≡ to_all nodes m
  unfolding arriving to_all
  arriving-buffer [] b m h = refl
  arriving-buffer (node ∷ nodes) b m h = rw (h, arriving-buffer nodes b m h)

  -- Where the hash and the client's id and nonce fit 64 bits, the message goes to every node of the
  -- client, is read there as a SEND of that hash, that client, that nonce and the payload, and the
  -- client's nonce grows by one. Else `OverflowError` is raised, with the client as it was.
  pub send_message_lem :
      (client : UdpClient Address) (mchain_hash : ℕ) (payload : List ℕ)
      → (AreSmall mchain_hash client.client_id client.nonce
          × (sent : List (Address × List ℕ)) × (send_message client mchain_hash payload
              ≡ (record client { nonce = client.nonce + 1 }, ok sent))
          × (arriving sent
              ≡ to_all client.nodes (as_send mchain_hash client.client_id client.nonce payload)))
        ⊎ ((¬ AreSmall mchain_hash client.client_id client.nonce)
            × (send_message client mchain_hash payload ≡ (client, raise overflow_error)))
  unfolding send_message next_message
  send_message_lem client mchain_hash payload =
      elim (parse-encode (next_message client mchain_hash payload)) [
        | inl (fits, b, encoded, _, parsed) ↦ inl (
          (fits.mchain_hash, fits.client_id, fits.nonce),
          map (λ node. (node, b)) client.nodes,
          rw (encoded, send_message),
          arriving-buffer client.nodes b _ parsed,
        )
        | inr (wide, failed) ↦ inr (
          λ small. wide (record { mchain_hash = small.0; client_id = small.1; nonce = small.2 }),
          rw (failed, send_message),
        )
      ]

  -- The messages of several requests, as the nodes should read them.
  unfoldable pub expected : UdpClient Address → List (ℕ × List ℕ) → List NodeMessage
  expected client [] = []
  expected client ((mchain_hash, payload) ∷ requests) =
      as_send mchain_hash client.client_id client.nonce payload
      ∷ expected (record client { nonce = client.nonce + 1 }) requests

  abbrev nonces : UdpClient Address → List (ℕ × List ℕ) → List ℕ
  nonces client requests = map (λ m. m.nonce) (expected client requests)

  later_nonce :
      (client : UdpClient Address) (requests : List (ℕ × List ℕ)) (n : ℕ)
      → n < client.nonce
      → contains (nonces client requests) n ≡ false
  unfolding contains expected
  later_nonce client [] n h = refl
  later_nonce client ((mchain_hash, payload) ∷ requests) n h =
      ground
        (arith, later_nonce (record client { nonce = client.nonce + 1 }) requests n (omega arith))

  nonces-Distinct :
      (client : UdpClient Address) (requests : List (ℕ × List ℕ))
      → Distinct (nonces client requests)
  unfolding expected
  nonces-Distinct client [] = tt
  nonces-Distinct client ((mchain_hash, payload) ∷ requests) = (
    later_nonce (record client { nonce = client.nonce + 1 }) requests client.nonce (omega arith),
    nonces-Distinct (record client { nonce = client.nonce + 1 }) requests,
  )

  send_all-sent :
      (client : UdpClient Address) {client' : UdpClient Address} (mchain_hash : ℕ)
      (payload : List ℕ) {sent : List (Address × List ℕ)} (requests : List (ℕ × List ℕ))
      → send_message client mchain_hash payload ≡ (client', ok sent)
      → send_all client ((mchain_hash, payload) ∷ requests)
        ≡ ((send_all client' requests).0, sent ∷ (send_all client' requests).1)
  unfolding send_all
  send_all-sent client mchain_hash payload requests h = cc

  send_all-arriving :
      (client : UdpClient Address) (requests : List (ℕ × List ℕ))
      → client.client_id < 256 ^ 8
      → All (λ r. r.0 < 256 ^ 8) requests
      → client.nonce + length requests ≤ 256 ^ 8
      → (map arriving (send_all client requests).1
          ≡ map (to_all client.nodes) (expected client requests))
        × ((send_all client requests).0.nonce ≡ client.nonce + length requests)
  unfolding expected
  send_all-arriving client [] id hashes room = unfold send_all in (refl, omega arith)
  send_all-arriving client ((mchain_hash, payload) ∷ requests) id hashes room =
      elim (send_message_lem client mchain_hash payload) [
        | inr (wide, _) ↦ absurd (wide (hashes.0, id, omega arith))
        | inl (_, sent, done, arrived) ↦
            let later =
              send_all-arriving (record client { nonce = client.nonce + 1 }) requests id hashes.1
                (omega arith) in
            rw (send_all-sent client mchain_hash payload requests done)
              (rw (arrived, later.0), omega (arith, later.1))
      ]

  -- The requests of a client whose numbers fit 64 bits, as long as its nonces do: every request
  -- reaches every node once, in order, and is read there as a SEND of its chain, the client, the next
  -- nonce and its payload. The ids of the sessions that they open are all different.
  pub send_all-sessions :
      (client : UdpClient Address) (requests : List (ℕ × List ℕ))
      → client.client_id < 256 ^ 8
      → All (λ r. r.0 < 256 ^ 8) requests
      → client.nonce + length requests ≤ 256 ^ 8
      → (map arriving (send_all client requests).1
          ≡ map (to_all client.nodes) (expected client requests))
        × ((send_all client requests).0.nonce ≡ client.nonce + length requests)
        × Distinct (map session_id (expected client requests))
  send_all-sessions client requests id hashes room =
      let (arrived, last) = send_all-arriving client requests id hashes room in
      (arrived, last, ids-Distinct (expected client requests) (nonces-Distinct client requests))
