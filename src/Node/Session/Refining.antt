-- ===== src/Node/Session/Refining.antt =====
-- A broadcast of src/session.cpp as a sequence of atomic steps, given that its call is one.
use reliable_broadcast.Prelude.{
  ℕ, ◌≤◌, ◌<◌, ◌≡◌, refl, true, false, Option, some, List, [], ◌∷◌, ◌++◌, length, any, nat_eq,
  nat_beq_iff, list_eq, list_beq_iff, arith, ◌⊎◌, inl, inr, Option-cases, append_assoc, append-nil,
  subst, sym, ◌∙◌,
}
use reliable_broadcast.Client.Message.{MessageType, send, echo, ready}
use reliable_broadcast.Node.Parse.{NodeMessage}
use reliable_broadcast.Node.Session.{
  Session, Effect, Outcome, senders, broadcast_as, send_ready, broadcast, changed,
}
use reliable_broadcast.Node.Session.Moves.{Local, Move, Moves, posted, backed, posted-append}
use reliable_broadcast.Node.Session.Votes.{length-add_vote}

-- The local state after a call.
abbrev pub after : Local → Outcome → Local
after l o = record { session = o.session; log = l.log ++ o.effects }

-- A step takes no vote back and leaves the thresholds.
Move-grows :
    {own : ℕ} {m : NodeMessage} {a b : Local}
    → Move own m a b
    → (length (senders m.payload a.session.readies) ≤ length (senders m.payload b.session.readies))
      × (b.session.t ≡ a.session.t)
Move-grows (Move.post_echo e h g i) = (omega arith, refl)
Move-grows (Move.count_echo k h) = (omega arith, refl)
Move-grows {m = m} {a = a} (Move.count_ready k h) =
    (length-add_vote m.payload m.payload k a.session.readies, refl)
Move-grows (Move.post_ready e h i j k) = (omega arith, refl)
Move-grows (Move.hand_over e h i j) = (omega arith, refl)

-- The call of a broadcast works on the same message, and its own vote has just been posted.
pub record IsCovered (own : ℕ) (m call : NodeMessage) (log : List Effect) : Type 0 where
  pub payload : call.payload ≡ m.payload
  pub as_send : call.message_type ≡ send → m.message_type ≡ send
  pub as_echo : call.message_type ≡ echo → backed own m echo call.node_id log ≡ true
  pub as_ready : call.message_type ≡ ready → backed own m ready call.node_id log ≡ true

-- A call from `l` that has this outcome continues the steps that led to `l`.
pub record IsRefined (own : ℕ) (m : NodeMessage) (first l : Local) (o : Outcome) : Type 0 where
  pub moves : Moves own m first (after l o)
  pub grows :
      length (senders m.payload l.session.readies) ≤ length (senders m.payload o.session.readies)
  pub t_same : o.session.t ≡ l.session.t
  pub payload : o.message.payload ≡ m.payload

module _ (own : ℕ) (m : NodeMessage) (first : Local) where
  pub quiet-IsRefined :
      (call : NodeMessage) (l : Local)
      → call.payload ≡ m.payload
      → Moves own m first l
      → IsRefined own m first l (record { session = l.session; message = call; effects = [] })
  quiet-IsRefined call l same moves = record {
    moves =
        subst (λ g. Moves own m first (record { session = l.session; log = g }))
          (sym (append-nil l.log)) moves;
    grows = omega arith;
    t_same = refl;
    payload = same;
  }

  -- An effect that a step makes, before the rest of the call.
  step-IsRefined :
      (l : Local) (s : Session) (e : Effect) (o : Outcome)
      → Move own m l (record { session = s; log = l.log ++ e ∷ [] })
      → IsRefined own m first (record { session = s; log = l.log ++ e ∷ [] }) o
      → IsRefined own m first l (record o { effects = e ∷ o.effects })
  step-IsRefined l s e o step refined = record {
    moves =
        subst (λ g. Moves own m first (record { session = o.session; log = g }))
          (append_assoc l.log (e ∷ []) o.effects) refined.moves;
    grows = omega (arith, refined.grows, (Move-grows step).0);
    t_same = refined.t_same ∙ (Move-grows step).1;
    payload = refined.payload;
  }

  -- A vote that is counted before the rest of the call.
  pub vote-IsRefined :
      (l : Local) (s : Session) (o : Outcome)
      → Move own m l (record { session = s; log = l.log })
      → IsRefined own m first (record { session = s; log = l.log }) o
      → IsRefined own m first l o
  vote-IsRefined l s o step refined = record {
    moves = refined.moves;
    grows = omega (arith, refined.grows, (Move-grows step).0);
    t_same = refined.t_same ∙ (Move-grows step).1;
    payload = refined.payload;
  }

pub outcome-inj : {o o' : Outcome} → some o ≡ some o' → o ≡ o'
outcome-inj h = cc

posts_own :
    (own : ℕ) (m : NodeMessage) (t : MessageType) (e : NodeMessage) (log : List Effect)
    → e.message_type ≡ t
    → e.payload ≡ m.payload
    → e.node_id ≡ own
    → backed own m t e.node_id (log ++ broadcast e ∷ []) ≡ true
unfolding backed posted any
posts_own own m t e log h g i = ground (
  arith,
  posted-append t m.payload log (broadcast e ∷ []),
  nat_beq_iff e.node_id own,
  list_beq_iff e.payload m.payload,
)

-- A broadcast that has been posted covers the call with its message.
pub posted-IsCovered :
    (own : ℕ) (m e : NodeMessage) (log : List Effect)
    → e.payload ≡ m.payload
    → e.node_id ≡ own
    → (e.message_type ≡ echo) ⊎ (e.message_type ≡ ready)
    → IsCovered own m e (log ++ broadcast e ∷ [])
posted-IsCovered own m e log same mine kind = record {
  payload = same;
  as_send = λ h. absurd (ground arith);
  as_echo = λ h. posts_own own m echo e log h same mine;
  as_ready = λ h. posts_own own m ready e log h same mine;
}

-- `again` is refined where it is called.
module _ (own : ℕ) (m : NodeMessage) (first : Local)
    (again : NodeMessage → Session → Option Outcome)
    (inner : (call : NodeMessage) (l : Local) (o : Outcome)
      → IsCovered own m call l.log
      → Moves own m first l
      → again call l.session ≡ some o
      → IsRefined own m first l o) where
  pub broadcast_as-IsRefined :
      (t : MessageType) (call : NodeMessage) (l : Local) (s : Session) (o : Outcome)
      → IsCovered own m
          (changed own again t call)
          (l.log ++ broadcast (changed own again t call) ∷ [])
      → Moves own m first l
      → Move own m l
          (record { session = s; log = l.log ++ broadcast (changed own again t call) ∷ [] })
      → broadcast_as own again t call s ≡ some o
      → IsRefined own m first l o
  unfolding broadcast_as
  broadcast_as-IsRefined t call l s o c moves step h =
      elim (Option-cases (again (changed own again t call) s)) [
        | inl g ↦ absurd (cc)
        | inr (o1, g) ↦
            subst (IsRefined own m first l) (outcome-inj (rw g at h))
              (step-IsRefined own m first l s _ o1 step (inner _ _ o1 c (Moves.then moves step) g))
      ]

  pub send_ready-IsRefined :
      (call : NodeMessage) (l : Local) (o : Outcome)
      → call.payload ≡ m.payload
      → Moves own m first l
      → l.session.ready_sent ≡ false
      → (l.session.echo_target ≤ length (senders m.payload l.session.echoes))
        ⊎ (l.session.t < length (senders m.payload l.session.readies))
      → send_ready own again call l.session ≡ some o
      → IsRefined own m first l o
  unfolding send_ready
  send_ready-IsRefined call l o same moves fresh enough h =
      broadcast_as-IsRefined ready call l (record (l.session) { ready_sent = true }) o
        (posted-IsCovered own m _ l.log same refl (inr refl)) moves
        (Move.post_ready _ refl same fresh enough) h
