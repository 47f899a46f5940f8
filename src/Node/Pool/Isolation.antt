-- ===== src/Node/Pool/Isolation.antt =====
-- The sessions of a node do not disturb one another.
use reliable_broadcast.Prelude.{
  ℕ, ◌≡◌, refl, ◌∙◌, ap, some, arith, ◌==◌, nat_eq, if◌then◌else◌, Option-cases, inl, inr,
}
use reliable_broadcast.Dict.{lookup, insert, lookup-insert}
use reliable_broadcast.Node.Parse.{NodeMessage, SessionId, session_id}
use reliable_broadcast.Node.Session.{Session, Outcome, create, process}
use reliable_broadcast.Node.Session.Total.{process-Ends}
use reliable_broadcast.Node.Pool.{
  Chains, Sessions, session_id_eq, same_id_iff, get_nodes_count, add_session, get_or_create_session,
  process_message, session_at, handled_in, stored,
}

session_at-insert :
    (chains : Chains) (id other : SessionId) (s : Session) (sessions : Sessions)
    → session_at chains other (insert id s sessions)
      ≡ (if id == other then some s else session_at chains other sessions)
unfolding session_at
session_at-insert chains id other s sessions = ground (arith, lookup-insert id other s sessions)

-- The pool after the session has been found or made.
abbrev IsPrepared : Chains → SessionId → Session → Sessions → Sessions → Type 0
IsPrepared chains id s before after =
    (get_or_create_session chains id before ≡ some (s, after))
    × ((other : SessionId) → session_at chains other after ≡ session_at chains other before)

prepare :
    (chains : Chains) (id : SessionId) (s : Session) (sessions : Sessions)
    → session_at chains id sessions ≡ some s
    → (after : Sessions) × IsPrepared chains id s sessions after
unfolding session_at get_or_create_session add_session
prepare chains id s sessions h = elim (Option-cases (lookup id sessions)) [
  | inr (s1, e) ↦ (sessions, (ground (arith, e, h), λ other. refl))
  | inl e ↦ elim (Option-cases (get_nodes_count chains id.mchain_hash)) [
    | inl g ↦ absurd (ground (arith, e, g, h))
    | inr (n, g) ↦
        let new : create n id ≡ s = ground (arith, e, g, h) in
        (
          insert id (create n id) sessions,
          (
            ground (arith, e, g, new),
            λ other.
                session_at-insert chains id other (create n id) sessions
                ∙ ground
                    (arith, same_id_iff id other, new, h, ap (λ j. session_at chains j sessions)),
          ),
        )
  ]
]

-- A message whose session is in the pool, or whose chain is configured, is handled to the end, in
-- its session alone: the others, and those that are still to be made, are what they were.
pub process_message-session_at :
    (own : ℕ) (chains : Chains) (m : NodeMessage) (sessions : Sessions) (s : Session)
    → session_at chains (session_id m) sessions ≡ some s
    → (o : Outcome) × (after : Sessions) × (process 3 own m s ≡ some o)
      × (process_message own chains m sessions ≡ some (o.effects, after))
      × ((id : SessionId)
          → session_at chains id after
            ≡ (if session_id m == id then some o.session else session_at chains id sessions))
unfolding process_message
process_message-session_at own chains m sessions s h =
    let ready = prepare chains (session_id m) s sessions h in
    let ended = process-Ends own m s in
    let o = ended.0 in
    let done = ended.1 3 (omega arith) in
    (
      o,
      insert (session_id m) o.session ready.0,
      done,
      ap (handled_in own m) ready.1.0 ∙ ap (stored (session_id m) ready.0) done,
      λ id.
          session_at-insert chains (session_id m) id o.session ready.0
          ∙ ap (λ r. if session_id m == id then some o.session else r) (ready.1.1 id),
    )
