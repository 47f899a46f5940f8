-- ===== src/Node/Session.antt =====
-- src/session.cpp: one session at one node. Its handlers run one after the other; `Moves` says what
-- they do in single atomic steps.
pub mod Votes
pub mod Posting
pub mod Readies
pub mod Refining
pub mod Completes
pub mod Settled
pub mod Sound
pub mod Total
pub mod Refines
pub mod Moves
use reliable_broadcast.Prelude.{
  ℕ, ◌+◌, ◌*◌, ◌%◌, ◌^◌, zero, suc, Bool, true, false, not, ◌&&◌, ltb, leb, Option, none, some,
  List, [], ◌∷◌, ◌++◌, length, contains, nat_eq, list_eq, if◌then◌else◌,
}
use reliable_broadcast.Dict.{Dict, lookup, insert}
use reliable_broadcast.Client.Message.{MessageType, send, echo, ready}
use reliable_broadcast.Node.Parse.{NodeMessage, SessionId}
use reliable_broadcast.Node.Thresholds.{get_t, get_echo_target}

-- The senders of a message, by its data.
abbrev pub Votes : Type 0
Votes = Dict (List ℕ) (List ℕ)

pub record Session : Type 0 where
  pub id : SessionId
  pub n : ℕ
  pub t : ℕ
  pub echo_target : ℕ
  pub echoes : Votes
  pub readies : Votes
  pub ready_sent : Bool
  pub delivered : Bool

unfoldable pub create : ℕ → SessionId → Session
create n id = record {
  id = id;
  n = n;
  t = get_t n;
  echo_target = get_echo_target n (get_t n);
  echoes = [];
  readies = [];
  ready_sent = false;
  delivered = false;
}

-- What a session asks of its owner. A broadcast is recorded as the message stands when it is
-- posted; the owner encodes the shared message later, when its type may have changed, so that what
-- leaves the node is this message or one that is posted after it. A delivery is recorded when it is
-- asked for; the owner tries until Redis takes it, which need not end.
pub data Effect : Type 0 where
  broadcast : NodeMessage → Effect
  deliver : NodeMessage → Effect

-- The session, the message, which the broadcasts have changed, and the effects in their order.
pub record Outcome : Type 0 where
  pub session : Session
  pub message : NodeMessage
  pub effects : List Effect

abbrev pub senders_in : Option (List ℕ) → List ℕ
senders_in none = []
senders_in (some senders) = senders

unfoldable pub senders : List ℕ → Votes → List ℕ
senders payload votes = senders_in (lookup payload votes)

-- `senders.insert(...)` of a set
unfoldable pub add_sender : ℕ → List ℕ → List ℕ
add_sender node_id known = if contains known node_id then known else known ++ node_id ∷ []

unfoldable pub add_vote : List ℕ → ℕ → Votes → Votes
unfolding senders add_sender
add_vote payload node_id votes = insert payload (add_sender node_id (senders payload votes)) votes

abbrev pub quiet : Session → NodeMessage → Option Outcome
quiet s m = some (record { session = s; message = m; effects = [] })

abbrev pub prepend : Effect → Option Outcome → Option Outcome
prepend e none = none
prepend e (some o) = some (record o { effects = e ∷ o.effects })

-- `again` is `processMessage`, which a broadcast calls with the message it has changed.
module _ (own : ℕ) (again : NodeMessage → Session → Option Outcome) where
  abbrev pub changed : MessageType → NodeMessage → NodeMessage
  changed t m = record m { node_id = own; message_type = t }

  -- `mOwner.broadcast`: the changed message is posted, and handled as if it had been received.
  unfoldable pub broadcast_as : MessageType → NodeMessage → Session → Option Outcome
  broadcast_as t m s = prepend (broadcast (changed t m)) (again (changed t m) s)

  -- READY is sent once in a session.
  unfoldable pub send_ready : NodeMessage → Session → Option Outcome
  unfolding broadcast_as
  send_ready m s = broadcast_as ready m (record s { ready_sent = true })

  unfoldable pub on_echo : NodeMessage → Session → Option Outcome
  unfolding add_vote send_ready
  on_echo m s =
      if s.ready_sent
      then quiet s m
      else let counted = record s { echoes = add_vote m.payload m.node_id s.echoes } in
        if leb s.echo_target (length (senders m.payload counted.echoes))
        then send_ready m counted
        else quiet counted m

  -- The first half of a READY: the amplification.
  unfoldable pub amplify : ℕ → NodeMessage → Session → Option Outcome
  unfolding send_ready
  amplify count m s = if not s.ready_sent && ltb s.t count then send_ready m s else quiet s m

  -- The second half, with the count from before the first. What `mOwner.deliver` does with Redis is
  -- left out.
  unfoldable pub try_deliver : ℕ → Outcome → Outcome
  try_deliver count o =
      if not o.session.delivered && ltb ((2 * o.session.t) % 2 ^ 64) count
      then record o {
        session = record (o.session) { delivered = true };
        effects = o.effects ++ deliver o.message ∷ [];
      }
      else o

  abbrev pub deliver_after : ℕ → Option Outcome → Option Outcome
  deliver_after count none = none
  deliver_after count (some o) = some (try_deliver count o)

  unfoldable pub on_ready : NodeMessage → Session → Option Outcome
  unfolding add_vote amplify try_deliver
  on_ready m s =
      if s.delivered
      then quiet s m
      else let counted = record s { readies = add_vote m.payload m.node_id s.readies } in
        let count = length (senders m.payload counted.readies) in
        deliver_after count (amplify count m counted)

  unfoldable pub dispatch : MessageType → NodeMessage → Session → Option Outcome
  unfolding broadcast_as on_echo on_ready
  dispatch send m s = broadcast_as echo m s
  dispatch echo m s = on_echo m s
  dispatch ready m s = on_ready m s

-- `Session::processMessage`, with fuel for the calls that broadcasts make; `none` means that it ran
-- out.
unfoldable pub process : ℕ → ℕ → NodeMessage → Session → Option Outcome
process zero own m s = none
process (suc fuel) own m s = dispatch own (process fuel own) m.message_type m s
