-- ===== src/Node/Network/Attended.antt =====
-- What a correct node has done about the messages that it has taken in.
use reliable_broadcast.Prelude.{
  ℕ, ◌≡◌, refl, sym, subst, Bool, true, false, ◌&&◌, some, List, ◌∷◌, ◌++◌, length, any, ◌==◌,
  nat_eq, nat_beq_iff, list_eq, list_beq_iff, arith, inl, inr, Bool-cases, if_true, if_false,
}
use reliable_broadcast.Client.Message.{MessageType, send, echo}
use reliable_broadcast.Dict.{lookup}
use reliable_broadcast.Node.Parse.{NodeMessage}
use reliable_broadcast.Node.Thresholds.{thresholds}
use reliable_broadcast.Node.Session.{create, Outcome, process, senders}
use reliable_broadcast.Node.Session.Moves.{posted, posted-append, same_type, same_type_sound}
use reliable_broadcast.Node.Session.Settled.{counted, IsSettled, IsExtended-votes}
use reliable_broadcast.Node.Session.Completes.{process-IsDone, process_settles}
use reliable_broadcast.Node.Network.{Setting, Nodes, Node, Step, Reachable, start}
use reliable_broadcast.Node.Network.Faithful.{IsTolerable}

-- A message of this type, with these data, that names this node.
unfoldable pub received : MessageType → List ℕ → ℕ → List NodeMessage → Bool
received t p k inbox =
    any (λ m. same_type m.message_type t && (m.payload == p && m.node_id == k)) inbox

pub record IsAttended (i : ℕ) (node : Node) : Type 0 where
  pub settled : IsSettled node.local.session
  pub own :
      (t : MessageType) (p : List ℕ)
      → posted t p node.local.log ≡ true
      → counted t p i node.local.session ≡ true
  pub others :
      (t : MessageType) (p : List ℕ) (k : ℕ)
      → received t p k node.inbox ≡ true
      → counted t p k node.local.session ≡ true
  pub echoed :
      (p : List ℕ) (k : ℕ)
      → received send p k node.inbox ≡ true
      → posted echo p node.local.log ≡ true

-- What holds of the newest message holds of what has been received since.
received_now :
    (P : MessageType → List ℕ → ℕ → Type 0) (m : NodeMessage) (inbox : List NodeMessage)
    (t : MessageType) (p : List ℕ) (k : ℕ)
    → received t p k (m ∷ inbox) ≡ true
    → received t p k inbox ≡ false
    → P m.message_type m.payload m.node_id
    → P t p k
unfolding received any
received_now P m inbox t p k x old h =
    let kind = same_type_sound m.message_type t (ground arith) in
    let what : m.payload ≡ p = ground (arith, list_beq_iff m.payload p) in
    let who : m.node_id ≡ k = ground (arith, nat_beq_iff m.node_id k) in
    subst (P t p) who
      (subst (λ q. P t q m.node_id) what (subst (λ u. P u m.payload m.node_id) kind h))

handled-IsAttended :
    (i : ℕ) (node : Node) (m : NodeMessage) (o : Outcome)
    → IsAttended i node
    → process 3 i m node.local.session ≡ some o
    → IsAttended i (record {
      local = record { session = o.session; log = node.local.log ++ o.effects };
      inbox = m ∷ node.inbox;
    })
handled-IsAttended i node m o v h =
    let d = process-IsDone 3 i m node.local.session o h in
    let kept = IsExtended-votes node.local.session o.session d.extends in
    record {
      settled = process_settles 3 i m node.local.session o v.settled h;
      own = λ t p x. elim (Bool-cases (posted t p node.local.log)) [
        | inl old ↦ kept t p i (v.own t p old)
        | inr new ↦ d.effects t p (ground (arith, posted-append t p node.local.log o.effects))
      ];
      others = λ t p k x. elim (Bool-cases (received t p k node.inbox)) [
        | inl old ↦ kept t p k (v.others t p k old)
        | inr new ↦
            received_now (λ u q j. counted u q j o.session ≡ true) m node.inbox t p k x new
              d.taken_in
      ];
      echoed = λ p k x. elim (Bool-cases (received send p k node.inbox)) [
        | inl old ↦ ground (arith, posted-append echo p node.local.log o.effects, v.echoed p k old)
        | inr new ↦
            received_now (λ u q j. u ≡ send → posted echo q (node.local.log ++ o.effects) ≡ true) m
              node.inbox send p k x new
              (λ kind.
                ground
                  (arith, posted-append echo m.payload node.local.log o.effects, d.echoed kind))
              refl
      ];
    }

module _ (z : Setting) (tolerable : IsTolerable z) where
  start-IsAttended : (i : ℕ) → IsAttended i (start z i)
  unfolding create posted received any senders lookup
  start-IsAttended i = record {
    settled = record {
      echoes = λ unsent p.
          omega (arith, thresholds (length z.members) tolerable.positive tolerable.small);
      readies = λ unsent p. omega arith;
      deliver = λ undone p. omega arith;
    };
    own = λ t p x. absurd (cc);
    others = λ t p k x. absurd (cc);
    echoed = λ p k x. absurd (cc);
  }

  Step-IsAttended :
      {a b : Nodes} → ((i : ℕ) → IsAttended i (a i)) → Step z a b → (i : ℕ) → IsAttended i (b i)
  Step-IsAttended {a = a} v (Step.receive j m o c admissible h) i =
      let node : Node = record {
        local = record { session = o.session; log = (a j).local.log ++ o.effects };
        inbox = m ∷ (a j).inbox;
      } in
      elim (Bool-cases (j == i)) [
        | inl e ↦ subst (IsAttended i) (sym (if_true node (a i) e)) (
            subst (λ k. IsAttended k node) ((nat_beq_iff j i).0 e)
              (handled-IsAttended j (a j) m o (v j) h))
        | inr e ↦ subst (IsAttended i) (sym (if_false node (a i) e)) (v i)
      ]

  pub Reachable-IsAttended : {nodes : Nodes} → Reachable z nodes → (i : ℕ) → IsAttended i (nodes i)
  Reachable-IsAttended Reachable.initially i = start-IsAttended i
  Reachable-IsAttended (Reachable.later r step) i = Step-IsAttended (Reachable-IsAttended r) step i
