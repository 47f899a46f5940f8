-- ===== src/Node/Session/Refines.antt =====
-- The handlers of src/session.cpp as sequences of atomic steps.
use reliable_broadcast.Prelude.{
  ℕ, ◌*◌, ◌%◌, ◌^◌, ◌≡◌, refl, zero, suc, true, not, ◌&&◌, ltb, leb, Option, some, [], ◌∷◌, ◌++◌,
  length, nat_eq, nat_beq_iff, list_eq, arith, inl, inr, Bool-cases, Option-cases, append_assoc,
  subst, sym, ap, if_true, if_false, ◌∙◌,
}
use reliable_broadcast.Client.Message.{MessageType, send, echo, ready}
use reliable_broadcast.Node.Parse.{NodeMessage}
use reliable_broadcast.Node.Session.{
  Session, Outcome, senders, add_vote, process, dispatch, on_echo, amplify, try_deliver,
  deliver_after, on_ready, deliver,
}
use reliable_broadcast.Node.Session.Moves.{Local, Move, Moves, backed}
use reliable_broadcast.Node.Session.Refining.{
  after, IsCovered, IsRefined, quiet-IsRefined, vote-IsRefined, broadcast_as-IsRefined,
  send_ready-IsRefined, posted-IsCovered, outcome-inj,
}

-- `again` is refined where it is called.
module _ (own : ℕ) (m : NodeMessage) (first : Local)
    (again : NodeMessage → Session → Option Outcome)
    (inner : (call : NodeMessage) (l : Local) (o : Outcome)
      → IsCovered own m call l.log
      → Moves own m first l
      → again call l.session ≡ some o
      → IsRefined own m first l o) where
  on_echo-IsRefined :
      (call : NodeMessage) (l : Local) (o : Outcome)
      → IsCovered own m call l.log
      → call.message_type ≡ echo
      → Moves own m first l
      → on_echo own again call l.session ≡ some o
      → IsRefined own m first l o
  unfolding on_echo
  on_echo-IsRefined call l o c kind moves h =
      let counted = record (l.session) {
        echoes = add_vote call.payload call.node_id l.session.echoes;
      } in
      let count = length (senders call.payload counted.echoes) in
      let step : Move own m l (record { session = counted; log = l.log }) =
        rw c.payload (Move.count_echo call.node_id (c.as_echo kind)) in
      elim (Bool-cases l.session.ready_sent) [
        | inl g ↦
            subst (IsRefined own m first l) (outcome-inj (sym (if_true _ _ g) ∙ h))
              (quiet-IsRefined own m first call l c.payload moves)
        | inr g ↦
            let voted = sym (if_false _ _ g) ∙ h in
            vote-IsRefined own m first l counted o step
              (elim (Bool-cases (leb l.session.echo_target count)) [
                | inl e ↦
                    send_ready-IsRefined own m first again inner call
                      (record { session = counted; log = l.log }) o c.payload
                      (Moves.then moves step) g (inl (rw⁻¹ c.payload (ground arith)))
                      (sym (if_true _ _ e) ∙ voted)
                | inr e ↦
                    subst (IsRefined own m first _) (outcome-inj (sym (if_false _ _ e) ∙ voted))
                      (quiet-IsRefined own m first call _ c.payload (Moves.then moves step))
              ])
      ]

  amplify-IsRefined :
      (call : NodeMessage) (l : Local) (o : Outcome)
      → call.payload ≡ m.payload
      → Moves own m first l
      → amplify own again (length (senders call.payload l.session.readies)) call l.session ≡ some o
      → IsRefined own m first l o
  unfolding amplify
  amplify-IsRefined call l o same moves h =
      let count = length (senders call.payload l.session.readies) in
      elim (Bool-cases (not l.session.ready_sent && ltb l.session.t count)) [
        | inl g ↦
            send_ready-IsRefined own m first again inner call l o same moves (ground arith)
              (inr (rw⁻¹ same (ground arith))) (sym (if_true _ _ g) ∙ h)
        | inr g ↦
            subst (IsRefined own m first l) (outcome-inj (sym (if_false _ _ g) ∙ h))
              (quiet-IsRefined own m first call l same moves)
      ]

  try_deliver-IsRefined :
      (call : NodeMessage) (l : Local) (o : Outcome)
      → call.payload ≡ m.payload
      → IsRefined own m first l o
      → IsRefined own m first l
          (try_deliver own again (length (senders call.payload l.session.readies)) o)
  unfolding try_deliver
  try_deliver-IsRefined call l o same r =
      let count = length (senders call.payload l.session.readies) in
      let won : Outcome = record {
        session = record (o.session) { delivered = true };
        message = o.message;
        effects = o.effects ++ deliver o.message ∷ [];
      } in
      elim (Bool-cases (not o.session.delivered && ltb ((2 * o.session.t) % 2 ^ 64) count)) [
        | inl g ↦ subst (IsRefined own m first l) (sym (if_true won o g)) (record {
          moves =
              subst
                (λ log.
                  Moves own m first
                    (record { session = record (o.session) { delivered = true }; log = log }))
                (append_assoc l.log o.effects (deliver o.message ∷ []))
                (Moves.then r.moves (
                  Move.hand_over o.message r.payload (ground arith) (
                    ground (
                      arith,
                      r.grows,
                      same,
                      ap (λ p. length (senders p l.session.readies)) same,
                    ))));
          grows = r.grows;
          t_same = r.t_same;
          payload = r.payload;
        })
        | inr g ↦ subst (IsRefined own m first l) (sym (if_false won o g)) r
      ]

  on_ready-IsRefined :
      (call : NodeMessage) (l : Local) (o : Outcome)
      → IsCovered own m call l.log
      → call.message_type ≡ ready
      → Moves own m first l
      → on_ready own again call l.session ≡ some o
      → IsRefined own m first l o
  unfolding on_ready
  on_ready-IsRefined call l o c kind moves h =
      let counted = record (l.session) {
        readies = add_vote call.payload call.node_id l.session.readies;
      } in
      let count = length (senders call.payload counted.readies) in
      let voted : Local = record { session = counted; log = l.log } in
      let step : Move own m l voted =
        rw c.payload (Move.count_ready call.node_id (c.as_ready kind)) in
      elim (Bool-cases l.session.delivered) [
        | inl g ↦
            subst (IsRefined own m first l) (outcome-inj (sym (if_true _ _ g) ∙ h))
              (quiet-IsRefined own m first call l c.payload moves)
        | inr g ↦ elim (Option-cases (amplify own again count call counted)) [
          | inl e ↦ absurd (ground arith)
          | inr (o1, e) ↦
              subst (IsRefined own m first l)
                (outcome-inj
                  (ap (deliver_after own again count) (sym e) ∙ (sym (if_false _ _ g) ∙ h)))
                (vote-IsRefined own m first l counted _ step (
                  try_deliver-IsRefined call voted o1 c.payload
                    (amplify-IsRefined call voted o1 c.payload (Moves.then moves step) e)))
        ]
      ]

  dispatch-IsRefined :
      (t : MessageType) (call : NodeMessage) (l : Local) (o : Outcome)
      → IsCovered own m call l.log
      → call.message_type ≡ t
      → Moves own m first l
      → dispatch own again t call l.session ≡ some o
      → IsRefined own m first l o
  unfolding dispatch
  dispatch-IsRefined send call l o c kind moves h =
      broadcast_as-IsRefined own m first again inner echo call l l.session o
        (posted-IsCovered own m _ l.log c.payload refl (inl refl)) moves
        (Move.post_echo _ (c.as_send kind) refl c.payload) h
  dispatch-IsRefined echo call l o c kind moves h = on_echo-IsRefined call l o c kind moves h
  dispatch-IsRefined ready call l o c kind moves h = on_ready-IsRefined call l o c kind moves h

process-IsRefined :
    (fuel own : ℕ) (m call : NodeMessage) (first l : Local) (o : Outcome)
    → IsCovered own m call l.log
    → Moves own m first l
    → process fuel own call l.session ≡ some o
    → IsRefined own m first l o
unfolding process
process-IsRefined zero own m call first l o c moves h = absurd (cc)
process-IsRefined (suc fuel) own m call first l o c moves h =
    dispatch-IsRefined own m first (process fuel own)
      (λ call' l' o' c' moves' h'. process-IsRefined fuel own m call' first l' o' c' moves' h')
      call.message_type call l o c refl moves h

-- A call of `processMessage` that returns has done a sequence of atomic steps on its message, and
-- its effects are those that they log.
pub process-Moves :
    (fuel own : ℕ) (m : NodeMessage) (l : Local) (o : Outcome)
    → process fuel own m l.session ≡ some o
    → Moves own m l (after l o)
unfolding backed
process-Moves fuel own m l o h =
    let covered : IsCovered own m m l.log = record {
      payload = refl;
      as_send = λ g. g;
      as_echo = λ g. ground (arith, nat_beq_iff m.node_id m.node_id);
      as_ready = λ g. ground (arith, nat_beq_iff m.node_id m.node_id);
    } in
    (process-IsRefined fuel own m m l l o covered Moves.stay h).moves
