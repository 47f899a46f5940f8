-- ===== src/Node/Network.antt =====
-- The nodes of a chain that run src/session.cpp for one session, each with the log of what it has
-- posted and delivered and the messages that it has taken in. The network loses, doubles and
-- reorders messages, and is assumed to be authenticated, which the code does not see to: a faulty
-- node sends what it likes, but under no other node's id.
pub mod Backed
pub mod Faithful
pub mod Preserved
pub mod Safety
pub mod Invariant
pub mod Attended
pub mod Liveness
pub mod Quorums
pub mod Run
pub mod Quiet
use reliable_broadcast.Prelude.{
  ℕ, ◌≡◌, Bool, true, false, not, some, List, [], ◌∷◌, ◌++◌, length, count, contains, ◌==◌, nat_eq,
  if◌then◌else◌,
}
use reliable_broadcast.Client.Message.{MessageType, send, echo, ready}
use reliable_broadcast.Node.Parse.{NodeMessage, SessionId}
use reliable_broadcast.Node.Session.{create, process, Outcome}
use reliable_broadcast.Node.Session.Moves.{Local, posted}

-- The nodes of the configuration, which of them run the code, and the data of the messages that
-- the client sends in this session.
pub record Setting : Type 0 where
  pub id : SessionId
  pub members : List ℕ
  pub honest : ℕ → Bool
  pub submitted : List ℕ → Bool

abbrev pub faulty : Setting → ℕ
faulty z = count (λ k. not (z.honest k)) z.members

abbrev pub IsCorrect : Setting → ℕ → Type 0
IsCorrect z i = (contains z.members i ≡ true) × (z.honest i ≡ true)

pub record Node : Type 0 where
  pub local : Local
  pub inbox : List NodeMessage

abbrev pub Nodes : Type 0
Nodes = ℕ → Node

abbrev pub update {ℓ} : {A : Type ℓ} → (ℕ → A) → ℕ → A → ℕ → A
update f i x j = if i == j then x else f j

-- The node has posted such a message.
abbrev pub said : Nodes → MessageType → ℕ → List ℕ → Bool
said nodes t k p = posted t p ((nodes k).local.log)

-- The assumption on the network, which is no code of a node. A SEND is the client's. The other
-- messages name a member of the chain, and a correct one has posted what it is named for; the code
-- checks neither.
unfoldable pub IsAdmissible : Setting → Nodes → MessageType → NodeMessage → Type 0
IsAdmissible z nodes send m = z.submitted m.payload ≡ true
IsAdmissible z nodes t m =
    (contains z.members m.node_id ≡ true)
    × (z.honest m.node_id ≡ true → said nodes t m.node_id m.payload ≡ true)

-- A correct node handles a message to the end.
pub data Step (z : Setting) (nodes : Nodes) : Nodes → Type 0 where
  receive :
      (i : ℕ) (m : NodeMessage) (o : Outcome)
      → IsCorrect z i
      → IsAdmissible z nodes m.message_type m
      → process 3 i m ((nodes i).local.session) ≡ some o
      → Step z nodes (
          update nodes i (record {
            local = record { session = o.session; log = (nodes i).local.log ++ o.effects };
            inbox = m ∷ (nodes i).inbox;
          }))

abbrev pub start : Setting → Nodes
start z i = record {
  local = record { session = create (length z.members) z.id; log = [] };
  inbox = [];
}

pub data Reachable (z : Setting) : Nodes → Type 0 where
  initially : Reachable z (start z)
  later : {a b : Nodes} → Reachable z a → Step z a b → Reachable z b
