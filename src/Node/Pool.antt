-- ===== src/Node/Pool.antt =====
-- src/reliablebroadcast.cpp: the sessions of a node, and src/node_config.cpp: the chains that it
-- knows. Nothing calls `removeSession`, so that no session goes.
pub mod Isolation
use reliable_broadcast.Prelude.{
  ℕ, ◌≡◌, ◌↔◌, refl, sym, ◌∙◌, subst, ap, Bool, true, false, ◌&&◌, Option, none, some, List, [],
  ◌∷◌, length, arith, Eq, ◌==◌, nat_eq, nat_beq_iff, if◌then◌else◌, if_true, if_false, Option-cases,
  inl, inr, Bool-cases, ◌⊎◌, beq_refl,
}
use reliable_broadcast.Dict.{Dict, lookup, insert, lookup-insert}
use reliable_broadcast.Node.Parse.{NodeMessage, SessionId, session_id}
use reliable_broadcast.Node.Session.{Session, Effect, Outcome, create, process}
use reliable_broadcast.Node.Session.Total.{process-Ends}

-- `Session::Id::operator ==`
unfoldable pub same_id : SessionId → SessionId → Bool
same_id i j =
    (i.mchain_hash == j.mchain_hash) && ((i.client_id == j.client_id) && (i.nonce == j.nonce))

pub same_id_iff : (i j : SessionId) → (same_id i j ≡ true) ↔ (i ≡ j)
unfolding same_id
same_id_iff i j = (
  λ h. ground (
    arith,
    nat_beq_iff i.mchain_hash j.mchain_hash,
    nat_beq_iff i.client_id j.client_id,
    nat_beq_iff i.nonce j.nonce,
  ),
  λ h. ground (
    arith,
    h,
    nat_beq_iff i.mchain_hash j.mchain_hash,
    nat_beq_iff i.client_id j.client_id,
    nat_beq_iff i.nonce j.nonce,
  ),
)

instance abbrev pub session_id_eq : Eq SessionId
session_id_eq = record { beq = same_id; beq_iff = same_id_iff }

-- The ids of the nodes of each chain.
abbrev pub Chains : Type 0
Chains = Dict ℕ (List ℕ)

abbrev pub Sessions : Type 0
Sessions = Dict SessionId Session

-- `getNodesCount`; `none` is the `logic_error` for a chain that is not configured.
abbrev pub count_of : Option (List ℕ) → Option ℕ
count_of none = none
count_of (some nodes) = some (length nodes)

unfoldable pub get_nodes_count : Chains → ℕ → Option ℕ
get_nodes_count chains hash = count_of (lookup hash chains)

-- `addSession`: the session is made before the pool is searched.
abbrev pub added_session :
    SessionId → Sessions → Option ℕ → Option Session → Option (Session × Sessions)
added_session id sessions none found = none
added_session id sessions (some n) none = some (create n id, insert id (create n id) sessions)
added_session id sessions (some n) (some session) = some (session, sessions)

unfoldable pub add_session : Chains → SessionId → Sessions → Option (Session × Sessions)
unfolding get_nodes_count
add_session chains id sessions =
    added_session id sessions (get_nodes_count chains id.mchain_hash) (lookup id sessions)

unfoldable pub get_or_create_session : Chains → SessionId → Sessions → Option (Session × Sessions)
unfolding add_session
get_or_create_session chains id sessions = elim (lookup id sessions) [
  | some session ↦ some (session, sessions)
  | none ↦ add_session chains id sessions
]

-- The session is an object of the pool, so that the pool holds what the call leaves.
abbrev pub stored : SessionId → Sessions → Option Outcome → Option (List Effect × Sessions)
stored id sessions none = none
stored id sessions (some o) = some (o.effects, insert id o.session sessions)

abbrev pub handled_in :
    ℕ → NodeMessage → Option (Session × Sessions) → Option (List Effect × Sessions)
handled_in own m none = none
handled_in own m (some (session, sessions)) =
    stored (session_id m) sessions (process 3 own m session)

-- `ReliableBroadcast::processMessage`
unfoldable pub process_message :
    ℕ → Chains → NodeMessage → Sessions → Option (List Effect × Sessions)
unfolding get_or_create_session
process_message own chains m sessions =
    handled_in own m (get_or_create_session chains (session_id m) sessions)

-- The session of an id: that in the pool, or a new one.
abbrev pub new_session : SessionId → Option ℕ → Option Session
new_session id none = none
new_session id (some n) = some (create n id)

unfoldable pub session_at : Chains → SessionId → Sessions → Option Session
session_at chains id sessions = elim (lookup id sessions) [
  | some session ↦ some session
  | none ↦ new_session id (get_nodes_count chains id.mchain_hash)
]
