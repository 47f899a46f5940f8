-- ===== src/Witness/Client.antt =====
-- The client at concrete inputs.
use reliable_broadcast.Prelude.{
  ℕ, ◌+◌, ◌≡◌, List, [], ◌∷◌, map, arith, length, nat_eq, Distinct, ◌⊎◌,
}
use reliable_broadcast.Result.{ok, raise, overflow_error}
use reliable_broadcast.Client.UdpClient.{UdpClient, send_message, send_all}
use reliable_broadcast.Client.UdpClient.Sessions.{
  as_send, AreSmall, to_all, arriving, expected, send_message_lem, send_all-sessions,
}
use reliable_broadcast.Node.Parse.{session_id}
use reliable_broadcast.Node.Pool.{session_id_eq}

abbrev client : UdpClient ℕ
client = record { nodes = 10 ∷ 11 ∷ []; client_id = 131; nonce = 41 }

abbrev requests : List (ℕ × List ℕ)
requests = (1234, 97 ∷ []) ∷ (5, 98 ∷ 99 ∷ []) ∷ []

send_message_example :
    (AreSmall 1234 client.client_id client.nonce
      × (sent : List (ℕ × List ℕ)) × (send_message client 1234 (97 ∷ [])
          ≡ (record client { nonce = client.nonce + 1 }, ok sent))
      × (arriving sent
          ≡ to_all client.nodes (as_send 1234 client.client_id client.nonce (97 ∷ []))))
    ⊎ ((¬ AreSmall 1234 client.client_id client.nonce)
        × (send_message client 1234 (97 ∷ []) ≡ (client, raise overflow_error)))
send_message_example = send_message_lem client 1234 (97 ∷ [])

send_all-sessions_example :
    (map arriving (send_all client requests).1
      ≡ map (to_all client.nodes) (expected client requests))
    × ((send_all client requests).0.nonce ≡ client.nonce + length requests)
    × Distinct (map session_id (expected client requests))
send_all-sessions_example =
    send_all-sessions client requests (omega arith) (omega arith) (omega arith)
