-- ===== src/Node/Parse.antt =====
-- src/abstract_message.cpp and src/message.cpp: a datagram read as a message. The host is little
-- endian, and `char` is signed, as on the machines that the build files name.
use reliable_broadcast.Prelude.{
  ℕ, Option, none, some, List, [], ◌∷◌, ltb, ◌==◌, nat_eq, length, take, drop, if◌then◌else◌,
}
use reliable_broadcast.Client.Bytes.{le_value}
use reliable_broadcast.Client.Message.{MessageType, send, echo, ready}

pub record NodeMessage : Type 0 where
  pub message_type : MessageType
  pub mchain_hash : ℕ
  pub client_id : ℕ
  pub nonce : ℕ
  pub node_id : ℕ
  pub payload : List ℕ

-- What the first byte says: one of the three messages of the protocol, or a packet of messages.
pub data Kind : Type 0 where
  single : MessageType → Kind
  packet : Kind

-- The tests of `parse` on the first byte. A byte from 128 on is a negative `char`: it passes the
-- first test, and is no `MessageType` that the others know.
unfoldable pub kind_of : ℕ → Option Kind
kind_of byte =
    if byte == 0
    then some (single send)
    else if byte == 1
    then some (single echo)
    else if byte == 2
    then some (single ready)
    else if byte == 3
    then some packet
    else none

-- The four numbers and the data behind the first byte; `none` is the `logic_error` for a buffer
-- that is too small, which `parse` catches.
unfoldable pub read_fields : MessageType → List ℕ → Option NodeMessage
read_fields t bytes =
    if ltb (length bytes) 32
    then none
    else some (record {
      message_type = t;
      mchain_hash = le_value (take 8 bytes);
      client_id = le_value (take 8 (drop 8 bytes));
      nonce = le_value (take 8 (drop 16 bytes));
      node_id = le_value (take 8 (drop 24 bytes));
      payload = drop 32 bytes;
    })

-- `AbstractMessage::parse` where it makes a `Message`. It returns `nullptr`, here `none`, for what
-- it cannot read; the packets of `PacketMessage` are left out, and are `none` here too.
unfoldable pub parse : List ℕ → Option NodeMessage
unfolding kind_of read_fields
parse [] = none
parse (byte ∷ bytes) = elim (kind_of byte) [
  | none ↦ none
  | some packet ↦ none
  | some (single t) ↦ read_fields t bytes
]

-- `Session::Id`, and `Session::getId`
pub record SessionId : Type 0 where
  pub mchain_hash : ℕ
  pub client_id : ℕ
  pub nonce : ℕ

unfoldable pub session_id : NodeMessage → SessionId
session_id m = record { mchain_hash = m.mchain_hash; client_id = m.client_id; nonce = m.nonce }
