-- ===== src/Client/Message.antt =====
-- client/message.py: the message that a client sends, and its two encodings.
pub mod Layout
pub mod Decode
use reliable_broadcast.Prelude.{ℕ, List, ◌++◌, length}
use reliable_broadcast.Result.{Result, ok, ◌>>=◌}
use reliable_broadcast.Client.Bytes.{to_bytes}

pub data MessageType : Type 0 where
  send echo ready : MessageType

-- The value of the `IntEnum`.
abbrev pub value : MessageType → ℕ
value send = 0
value echo = 1
value ready = 2

pub record Message : Type 0 where
  pub mchain_hash : ℕ
  pub client_id : ℕ
  pub nonce : ℕ
  pub message_type : MessageType
  pub payload : List ℕ

unfoldable pub encode : Message → Result (List ℕ)
encode m = do
  message_type ← to_bytes (value m.message_type) 1
  mchain_hash ← to_bytes m.mchain_hash 8
  client_id ← to_bytes m.client_id 8
  nonce ← to_bytes m.nonce 8
  node_id ← to_bytes 0 8
  ok (message_type ++ (mchain_hash ++ (client_id ++ (nonce ++ (node_id ++ m.payload)))))

unfoldable pub packet_encode : Message → Result (List ℕ)
packet_encode m = do
  mchain_hash ← to_bytes m.mchain_hash 8
  client_id ← to_bytes m.client_id 8
  nonce ← to_bytes m.nonce 8
  node_id ← to_bytes 0 8
  message_type ← to_bytes (value m.message_type) 1
  let m_buffer = mchain_hash ++ (client_id ++ (nonce ++ (node_id ++ (message_type ++ m.payload))))
  messages_count ← to_bytes 1 4
  size ← to_bytes (length m_buffer) 4
  ok (messages_count ++ (size ++ m_buffer))
