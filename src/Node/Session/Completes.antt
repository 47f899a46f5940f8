-- ===== src/Node/Session/Completes.antt =====
-- The handlers of src/session.cpp leave the session settled.
use reliable_broadcast.Prelude.{
  ℕ, ◌≤◌, ◌<◌, ◌*◌, ◌%◌, ◌^◌, ◌++◌, ◌⊎◌, List, ◌≡◌, refl, zero, suc, sym, ◌∙◌, subst, ap, true, leb,
  Option, some, length, contains, nat_eq, nat_beq_iff, list_eq, list_beq_iff, arith, inl, inr,
  Bool-cases, if_true, if_false,
}
use reliable_broadcast.Client.Message.{MessageType, send, echo, ready}
use reliable_broadcast.Node.Parse.{NodeMessage}
use reliable_broadcast.Node.Session.{
  Session, Outcome, senders, add_vote, process, dispatch, on_echo,
}
use reliable_broadcast.Node.Session.Settled.{
  counted, IsSettled, IsDone, IsExtended-refl, IsExtended-trans, add_echo-IsExtended,
  ready_sent-IsExtended,
}
use reliable_broadcast.Node.Session.Votes.{contains-add_vote, senders-add_vote}
use reliable_broadcast.Node.Session.Posting.{
  outcome-inj, broadcast_as-IsPosted, send_ready-IsPosted, quiet-IsDone, sent-IsDone,
}
use reliable_broadcast.Node.Session.Moves.{Local, posted, delivers}
use reliable_broadcast.Node.Session.Sound.{IsSound, Moves-IsSound}
use reliable_broadcast.Node.Session.Refines.{process-Moves}
use reliable_broadcast.Node.Session.Readies.{on_ready-IsDone}

module _ (own : ℕ) (again : NodeMessage → Session → Option Outcome)
    (inner : (call : NodeMessage) (s : Session) (o : Outcome)
      → again call s ≡ some o
      → IsDone own call s o) where
  on_echo-IsDone :
      (m : NodeMessage) (s : Session) (o : Outcome)
      → m.message_type ≡ echo
      → on_echo own again m s ≡ some o
      → IsDone own m s o
  unfolding on_echo counted
  on_echo-IsDone m s o kind h =
      let voted = record s { echoes = add_vote m.payload m.node_id s.echoes } in
      let vote = add_echo-IsExtended s m.payload m.node_id in
      let here : contains (senders m.payload voted.echoes) m.node_id ≡ true = ground (
        arith,
        contains-add_vote m.payload m.payload m.node_id m.node_id s.echoes,
        list_beq_iff m.payload m.payload,
        nat_beq_iff m.node_id m.node_id,
      ) in
      elim (Bool-cases s.ready_sent) [
        | inl g ↦ subst (IsDone own m s) (outcome-inj (sym (if_true _ _ g) ∙ h)) (
            quiet-IsDone own again inner echo m s s kind (λ q. cc) (IsExtended-refl s)
              (ground arith)
              (λ due. record {
                echoes = due.echoes;
                readies = due.readies;
                deliver = λ d p. due.deliver d p (rw kind refl);
              }))
        | inr g ↦
            let more = sym (if_false _ _ g) ∙ h in
            elim (Bool-cases (leb s.echo_target (length (senders m.payload voted.echoes)))) [
              | inl e ↦
                  sent-IsDone own again inner echo m s (record voted { ready_sent = true }) o kind
                    (λ q. cc)
                    (IsExtended-trans s voted (record voted { ready_sent = true }) vote
                      (ready_sent-IsExtended voted))
                    (ground arith)
                    (λ due. record {
                      echoes = λ unsent. absurd (cc);
                      readies = λ unsent. absurd (cc);
                      deliver = λ d p other. due.deliver d p (rw kind refl);
                    })
                    (send_ready-IsPosted own again inner m voted o (sym (if_true _ _ e) ∙ more))
              | inr e ↦ subst (IsDone own m s) (outcome-inj (sym (if_false _ _ e) ∙ more)) (
                  quiet-IsDone own again inner echo m s voted kind (λ q. cc) vote (ground arith)
                    (λ due. record {
                      echoes = λ unsent p. ground (
                        arith,
                        senders-add_vote m.payload p m.node_id s.echoes,
                        due.echoes unsent p,
                        list_beq_iff m.payload p,
                        ap (λ q. length (senders q voted.echoes)),
                      );
                      readies = due.readies;
                      deliver = λ d p. due.deliver d p (rw kind refl);
                    }))
            ]
      ]

  dispatch-IsDone :
      (t : MessageType) (m : NodeMessage) (s : Session) (o : Outcome)
      → m.message_type ≡ t
      → dispatch own again t m s ≡ some o
      → IsDone own m s o
  unfolding dispatch counted
  dispatch-IsDone send m s o kind h =
      let d = broadcast_as-IsPosted own again inner echo m s o h in
      record {
        extends = d.extends;
        taken_in = ap (λ u. counted u m.payload m.node_id o.session) kind;
        effects = d.effects;
        echoed = λ k. d.done;
        settled = λ due. d.settled (record {
          echoes = due.echoes;
          readies = due.readies;
          deliver = λ undone p other. due.deliver undone p (rw kind refl);
        });
      }
  dispatch-IsDone echo m s o kind h = on_echo-IsDone m s o kind h
  dispatch-IsDone ready m s o kind h = on_ready-IsDone own again inner m s o kind h

pub process-IsDone :
    (fuel own : ℕ) (m : NodeMessage) (s : Session) (o : Outcome)
    → process fuel own m s ≡ some o
    → IsDone own m s o
unfolding process
process-IsDone zero own m s o h = absurd (cc)
process-IsDone (suc fuel) own m s o h =
    dispatch-IsDone own (process fuel own) (process-IsDone fuel own) m.message_type m s o refl h

pub process_settles :
    (fuel own : ℕ) (m : NodeMessage) (s : Session) (o : Outcome)
    → IsSettled s
    → process fuel own m s ≡ some o
    → IsSettled o.session
process_settles fuel own m s o settled h = (process-IsDone fuel own m s o h).settled (record {
  echoes = settled.echoes;
  readies = settled.readies;
  deliver = λ undone p other. settled.deliver undone p;
})

-- A call on a session that was settled, whose flags say what its node has logged, leaves it settled.
-- For any data, either the session is below the thresholds of echoes and readies for a READY, or a
-- READY is in the log; either it is below that for a delivery, or a delivery is in the log. And the
-- message is counted, or comes too late to matter.
pub process-IsSettled :
    (fuel own : ℕ) (m : NodeMessage) (l : Local) (o : Outcome) (p : List ℕ)
    → IsSettled l.session
    → IsSound l
    → process fuel own m l.session ≡ some o
    → IsSettled o.session
      × (((length (senders p o.session.echoes) < o.session.echo_target)
            × (length (senders p o.session.readies) ≤ o.session.t))
          ⊎ ((q : List ℕ) × (posted ready q (l.log ++ o.effects) ≡ true)))
      × ((length (senders p o.session.readies) ≤ (2 * o.session.t) % 2 ^ 64)
          ⊎ ((q : List ℕ) × (delivers q (l.log ++ o.effects) ≡ true)))
      × (counted m.message_type m.payload m.node_id o.session ≡ true)
process-IsSettled fuel own m l o p settled sound h =
    let now = process_settles fuel own m l.session o settled h in
    let logged = Moves-IsSound (process-Moves fuel own m l o h) sound in
    (
      now,
      elim (Bool-cases o.session.ready_sent) [
        | inl sent ↦ inr (logged.sent sent)
        | inr unsent ↦ inl (now.echoes unsent p, now.readies unsent p)
      ],
      elim (Bool-cases o.session.delivered) [
        | inl done ↦ inr (logged.handed done)
        | inr undone ↦ inl (now.deliver undone p)
      ],
      (process-IsDone fuel own m l.session o h).taken_in,
    )
