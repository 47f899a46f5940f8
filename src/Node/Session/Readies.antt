-- ===== src/Node/Session/Readies.antt =====
-- A READY in src/session.cpp leaves the session settled.
use reliable_broadcast.Prelude.{
  ℕ, ◌*◌, ◌%◌, ◌^◌, ◌≤◌, ◌≡◌, sym, ◌∙◌, subst, ap, true, false, not, ◌&&◌, ltb, Option, some, List,
  [], ◌∷◌, ◌++◌, length, any, contains, ◌==◌, nat_eq, nat_beq_iff, list_eq, list_beq_iff, arith,
  inl, inr, Bool-cases, Option-cases, if_true, if_false,
}
use reliable_broadcast.Client.Message.{MessageType, ready}
use reliable_broadcast.Node.Parse.{NodeMessage}
use reliable_broadcast.Node.Session.{
  Session, Effect, Outcome, senders, add_vote, amplify, try_deliver, deliver_after, on_ready,
  deliver,
}
use reliable_broadcast.Node.Session.Moves.{posted, posted-append}
use reliable_broadcast.Node.Session.Settled.{
  counted, IsSettled, IsDue, IsDone, IsAmplified, IsExtended-votes, IsExtended-refl,
  IsExtended-trans, nothing_posted, add_ready-IsExtended, ready_sent-IsExtended,
  delivered-IsExtended,
}
use reliable_broadcast.Node.Session.Votes.{contains-add_vote, senders-add_vote}
use reliable_broadcast.Node.Session.Posting.{outcome-inj, send_ready-IsPosted, quiet-IsDone}

module _ (own : ℕ) (again : NodeMessage → Session → Option Outcome)
    (inner : (call : NodeMessage) (s : Session) (o : Outcome)
      → again call s ≡ some o
      → IsDone own call s o) where
  -- The first half of a READY, after its vote has been counted in `voted`.
  amplify-IsAmplified :
      (m : NodeMessage) (s : Session) (o : Outcome)
      → m.message_type ≡ ready
      → let voted = record s { readies = add_vote m.payload m.node_id s.readies } in
        let count = length (senders m.payload voted.readies) in
        amplify own again count m voted ≡ some o → IsAmplified own count (IsDue m s) voted o
  unfolding amplify
  amplify-IsAmplified m s o kind h =
      let voted = record s { readies = add_vote m.payload m.node_id s.readies } in
      let count = length (senders m.payload voted.readies) in
      let other_votes : (p : List ℕ)
          → (m.payload == p) ≡ false
          → senders p voted.readies ≡ senders p s.readies =
        λ p other. senders-add_vote m.payload p m.node_id s.readies ∙ if_false _ _ other in
      let delivery : IsDue m s
          → s.delivered ≡ false
          → (p : List ℕ) → (m.payload == p) ≡ false
          → length (senders p voted.readies) ≤ (2 * s.t) % 2 ^ 64 =
        λ due undone p other. rw (other_votes p other) (due.deliver undone p (ground arith)) in
      elim (Bool-cases (not s.ready_sent && ltb s.t count)) [
        | inl e ↦
            let d = send_ready-IsPosted own again inner m voted o (sym (if_true _ _ e) ∙ h) in
            record {
              extends =
                  IsExtended-trans voted (record voted { ready_sent = true }) o.session
                    (ready_sent-IsExtended voted) d.extends;
              effects = d.effects;
              settled = λ due.
                  let settled = d.settled (record {
                    echoes = λ unsent. absurd (cc);
                    readies = λ unsent. absurd (cc);
                    deliver = λ undone p other. delivery due undone p other;
                  }) in
                  record {
                    echoes = settled.echoes;
                    readies = settled.readies;
                    deliver = λ undone p. inl (settled.deliver undone p);
                  };
            }
        | inr e ↦
            subst (IsAmplified own count (IsDue m s) voted) (outcome-inj (sym (if_false _ _ e) ∙ h))
              (record {
                extends = IsExtended-refl voted;
                effects = λ u p x. absurd (ground (arith, nothing_posted u p));
                settled = λ due. record {
                  echoes = due.echoes;
                  readies = λ unsent p. elim (Bool-cases (m.payload == p)) [
                    | inl same ↦ ground (
                      arith,
                      ap (λ q. length (senders q voted.readies)),
                      list_beq_iff m.payload p,
                    )
                    | inr other ↦ rw (other_votes p other) (due.readies unsent p)
                  ];
                  deliver = λ undone p. elim (Bool-cases (m.payload == p)) [
                    | inl same ↦ inr (
                        ap (λ q. length (senders q voted.readies))
                          (sym ((list_beq_iff m.payload p).0 same)))
                    | inr other ↦ inl (delivery due undone p other)
                  ];
                };
              })
      ]

  posted-deliver :
      (u : MessageType) (p : List ℕ) (effects : List Effect) (e : NodeMessage)
      → posted u p (effects ++ deliver e ∷ []) ≡ posted u p effects
  unfolding posted any
  posted-deliver u p effects e = ground (arith, posted-append u p effects (deliver e ∷ []))

  -- The second half.
  try_deliver-IsAmplified :
      (count : ℕ) (due : Type 0) (s : Session) (o : Outcome)
      → IsAmplified own count due s o
      → IsAmplified own count due s (try_deliver own again count o)
        × (due → IsSettled (try_deliver own again count o).session)
  unfolding try_deliver
  try_deliver-IsAmplified count due s o a =
      let won : Outcome = record {
        session = record (o.session) { delivered = true };
        message = o.message;
        effects = o.effects ++ deliver o.message ∷ [];
      } in
      let keeps = delivered-IsExtended o.session in
      elim (Bool-cases (not o.session.delivered && ltb ((2 * o.session.t) % 2 ^ 64) count)) [
        | inl g ↦
            subst (λ r. IsAmplified own count due s r × (due → IsSettled r.session))
              (sym (if_true won o g))
              (
                record {
                  extends = IsExtended-trans s o.session won.session a.extends keeps;
                  effects = λ u p x.
                      IsExtended-votes o.session won.session keeps u p own
                        (a.effects u p (sym (posted-deliver u p o.effects o.message) ∙ x));
                  settled = λ d. record {
                    echoes = (a.settled d).echoes;
                    readies = (a.settled d).readies;
                    deliver = λ undone. absurd (cc);
                  };
                },
                λ d. record {
                  echoes = (a.settled d).echoes;
                  readies = (a.settled d).readies;
                  deliver = λ undone. absurd (cc);
                },
              )
        | inr g ↦
            subst (λ r. IsAmplified own count due s r × (due → IsSettled r.session))
              (sym (if_false won o g))
              (
                a,
                λ d. record {
                  echoes = (a.settled d).echoes;
                  readies = (a.settled d).readies;
                  deliver = λ undone p. elim ((a.settled d).deliver undone p) [
                    | inl few ↦ few
                    | inr this ↦ ground arith
                  ];
                },
              )
      ]

  pub on_ready-IsDone :
      (m : NodeMessage) (s : Session) (o : Outcome)
      → m.message_type ≡ ready
      → on_ready own again m s ≡ some o
      → IsDone own m s o
  unfolding on_ready counted
  on_ready-IsDone m s o kind h =
      let voted = record s { readies = add_vote m.payload m.node_id s.readies } in
      let count = length (senders m.payload voted.readies) in
      let here : contains (senders m.payload voted.readies) m.node_id ≡ true = ground (
        arith,
        contains-add_vote m.payload m.payload m.node_id m.node_id s.readies,
        list_beq_iff m.payload m.payload,
        nat_beq_iff m.node_id m.node_id,
      ) in
      elim (Bool-cases s.delivered) [
        | inl g ↦ subst (IsDone own m s) (outcome-inj (sym (if_true _ _ g) ∙ h)) (
            quiet-IsDone own again inner ready m s s kind (λ q. cc) (IsExtended-refl s)
              (ground arith)
              (λ due. record {
                echoes = due.echoes;
                readies = due.readies;
                deliver = λ d. absurd (cc);
              }))
        | inr g ↦ elim (Option-cases (amplify own again count m voted)) [
          | inl e ↦ absurd (ground arith)
          | inr (o1, e) ↦
              let a =
                try_deliver-IsAmplified count (IsDue m s) voted o1
                  (amplify-IsAmplified m s o1 kind e) in
              let final = try_deliver own again count o1 in
              let all =
                IsExtended-trans s voted final.session (add_ready-IsExtended s m.payload m.node_id)
                  a.0.extends in
              subst (IsDone own m s)
                (outcome-inj
                  (ap (deliver_after own again count) (sym e) ∙ (sym (if_false _ _ g) ∙ h)))
                (record {
                  extends = all;
                  taken_in =
                      ap (λ u. counted u m.payload m.node_id final.session) kind
                      ∙ a.0.extends.ready_votes m.payload m.node_id (ground arith);
                  effects = a.0.effects;
                  echoed = λ k. absurd (ground arith);
                  settled = a.1;
                })
        ]
      ]
