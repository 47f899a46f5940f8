-- ===== src/Node/Network/Invariant.antt =====
-- What holds at every correct node after every step.
use reliable_broadcast.Prelude.{
  ◌≢◌, ℕ, ◌≡◌, refl, sym, ◌∙◌, subst, ap, true, List, ◌∷◌, ◌++◌, length, contains, ◌==◌, nat_eq,
  nat_beq_iff, list_eq, any, if_true, if_false, arith, inl, inr, Bool-cases,
}
use reliable_broadcast.Client.Message.{MessageType, send, echo, ready}
use reliable_broadcast.Node.Parse.{NodeMessage}
use reliable_broadcast.Node.Session.{create, Effect}
use reliable_broadcast.Node.Session.Moves.{posted, posted-append, delivers, posted-append}
use reliable_broadcast.Node.Session.Sound.{create-IsSound}
use reliable_broadcast.Node.Session.Refines.{process-Moves}
use reliable_broadcast.Node.Session.Refining.{after}
use reliable_broadcast.Node.Network.Preserved.{Moves-IsFaithful}
use reliable_broadcast.Node.Network.{
  Nodes, Node, update, said, IsAdmissible, Step, Reachable, start, Setting, IsCorrect,
}
use reliable_broadcast.Node.Network.Faithful.{
  IsTolerable, IsFaithful, IsGenuine, overlay, IsFaithful-mono,
}
use reliable_broadcast.Node.Network.Backed.{nothing-IsBacked}

abbrev pub IsFaithfulAt : Setting → Nodes → ℕ → Type 0
IsFaithfulAt z nodes i = IsFaithful z (said nodes) (nodes i).local

module _ (z : Setting) (tolerable : IsTolerable z) where
  genuine :
      (nodes : Nodes) (m : NodeMessage)
      → IsAdmissible z nodes m.message_type m
      → IsGenuine z (said nodes) m
  unfolding IsAdmissible
  genuine nodes m h = record {
    of_client = λ kind. subst (λ t. IsAdmissible z nodes t m) kind h;
    of_member = λ t other kind. by_type t other (subst (λ t. IsAdmissible z nodes t m) kind h);
  }
    where
      by_type :
          (t : MessageType)
          → t ≢ send
          → IsAdmissible z nodes t m
          → (contains z.members m.node_id ≡ true)
            × (z.honest m.node_id ≡ true → said nodes t m.node_id m.payload ≡ true)
      by_type send other h = absurd (other refl)
      by_type echo other h = h
      by_type ready other h = h

  -- The log of a node that takes a step goes on, the others' stay.
  said-update :
      (nodes : Nodes) (i : ℕ) (node : Node) (effects : List Effect)
      → node.local.log ≡ (nodes i).local.log ++ effects
      → (t : MessageType) (k : ℕ) (p : List ℕ) → overlay (said nodes) i node.local.log t k p ≡ true
      → said (update nodes i node) t k p ≡ true
  said-update nodes i node effects goes_on t k p h = elim (Bool-cases (i == k)) [
    | inl e ↦
        let me : i ≡ k = ground (arith, nat_beq_iff i k) in
        ap (λ n. posted t p n.local.log) (if_true node (nodes k) e)
        ∙ ground (
          arith,
          ap (posted t p) goes_on,
          posted-append t p (nodes i).local.log effects,
          ap (λ j. posted t p (nodes j).local.log) me,
        )
    | inr e ↦
        ap (λ n. posted t p n.local.log) (if_false node (nodes k) e)
        ∙ ground (arith, nat_beq_iff i k)
  ]

  start-IsFaithful : (i : ℕ) → IsFaithfulAt z (start z) i
  unfolding create posted delivers any
  start-IsFaithful i = record {
    sound = create-IsSound (length z.members) z.id;
    echoes = nothing-IsBacked z _;
    readies = nothing-IsBacked z _;
    t = refl;
    echo_target = refl;
    posts = λ t p h. absurd (cc);
    delivered = λ p h. absurd (cc);
  }

  Step-IsFaithful :
      {a b : Nodes}
      → ((i : ℕ) → IsCorrect z i → IsFaithfulAt z a i)
      → Step z a b
      → (i : ℕ) → IsCorrect z i
      → IsFaithfulAt z b i
  Step-IsFaithful {a = a} v (Step.receive j m o c admissible h) i d =
      let local = after (a j).local o in
      let node : Node = record { local = local; inbox = m ∷ (a j).inbox } in
      let mono = said-update a j node o.effects refl in
      elim (Bool-cases (j == i)) [
        | inl e ↦
            subst (λ n. IsFaithful z (said (update a j node)) n.local) (sym (if_true node (a i) e))
              (IsFaithful-mono z (overlay (said a) j local.log) (said (update a j node)) local mono
                (Moves-IsFaithful z tolerable (said a) (λ k t p ck sk. (v k ck).posts t p sk) j c m
                  (genuine a m admissible) (process-Moves 3 j m (a j).local o h)
                  (IsFaithful-mono z (said a) (overlay (said a) j (a j).local.log) (a j).local
                    (λ t k p sk. ground arith) (v j c))))
        | inr e ↦
            subst (λ n. IsFaithful z (said (update a j node)) n.local) (sym (if_false node (a i) e))
              (IsFaithful-mono z (said a) (said (update a j node)) (a i).local
                (λ t k p sk. mono t k p (ground arith)) (v i d))
      ]

  pub Reachable-IsFaithful :
      {nodes : Nodes} → Reachable z nodes → (i : ℕ) → IsCorrect z i → IsFaithfulAt z nodes i
  Reachable-IsFaithful Reachable.initially i c = start-IsFaithful i
  Reachable-IsFaithful (Reachable.later r step) i c =
      Step-IsFaithful (Reachable-IsFaithful r) step i c
