-- ===== src/Client/UdpClient.antt =====
-- client/udp_client.py: the client that sends each message to every node of a chain.
pub mod Sessions
use reliable_broadcast.Prelude.{ℕ, ◌+◌, List, [], ◌∷◌, map}
use reliable_broadcast.Result.{Result, ok, raise}
use reliable_broadcast.Client.Message.{Message, send, encode}

-- `Address` is what the socket takes for a node.
pub record UdpClient (Address : Type 0) : Type 0 where
  pub nodes : List Address
  pub client_id : ℕ
  pub nonce : ℕ

module _ {Address : Type 0} where
  -- `UdpClient(nodes)`; the first nonce is drawn once, at random, when the class is loaded.
  unfoldable pub init : ℕ → List Address → UdpClient Address
  init first_nonce nodes = record { nodes = nodes; client_id = 131; nonce = first_nonce }

  unfoldable pub next_message : UdpClient Address → ℕ → List ℕ → Message
  next_message client mchain_hash payload = record {
    mchain_hash = mchain_hash;
    client_id = client.client_id;
    nonce = client.nonce;
    message_type = send;
    payload = payload;
  }

  -- The datagrams handed to the socket, each with its destination. Where `encode` raises, no nonce
  -- is used and nothing is sent.
  unfoldable pub send_message :
      UdpClient Address → ℕ → List ℕ → UdpClient Address × Result (List (Address × List ℕ))
  unfolding next_message
  send_message client mchain_hash payload =
      elim (encode (next_message client mchain_hash payload)) [
        | raise e ↦ (client, raise e)
        | ok buffer ↦ (
          record client { nonce = client.nonce + 1 },
          ok (map (λ node. (node, buffer)) client.nodes),
        )
      ]

  -- Several calls, and the datagrams of each that did not raise.
  unfoldable pub send_all :
      UdpClient Address → List (ℕ × List ℕ) → UdpClient Address × List (List (Address × List ℕ))
  send_all client [] = (client, [])
  send_all client ((mchain_hash, payload) ∷ requests) =
      let (client', sent) = send_message client mchain_hash payload in
      let (last, rest) = send_all client' requests in
      elim sent [ raise _ ↦ (last, rest) | ok datagrams ↦ (last, datagrams ∷ rest) ]
