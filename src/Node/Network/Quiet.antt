-- ===== src/Node/Network/Quiet.antt =====
-- Whether the network is quiet, by evaluation.
use reliable_broadcast.Prelude.{
  ℕ, ◌≡◌, subst, ap, Bool, true, not, ◌&&◌, ◌||◌, List, [], ◌∷◌, contains, every, any, arith,
  nat_eq, nat_beq_iff, list_eq, list_beq_iff, ◌==◌, Bool-cases, inl, inr,
}
use reliable_broadcast.Client.Message.{MessageType}
use reliable_broadcast.Node.Parse.{NodeMessage}
use reliable_broadcast.Node.Session.{Effect, broadcast, deliver}
use reliable_broadcast.Node.Session.Moves.{posted, same_type, same_type_sound}
use reliable_broadcast.Node.Network.{Setting, Nodes}
use reliable_broadcast.Node.Network.Attended.{received}
use reliable_broadcast.Node.Network.Quorums.{IsQuiet}

abbrev pub heard : ℕ → List NodeMessage → Effect → Bool
heard j inbox (broadcast m) = received m.message_type m.payload j inbox
heard j inbox (deliver m) = true

abbrev pub heard_by : Setting → Nodes → ℕ → ℕ → Bool
heard_by z nodes i j =
    ((i == j) || not (z.honest i && z.honest j))
    || every (heard j (nodes i).inbox) (nodes j).local.log

unfoldable pub quiet_test : Setting → Nodes → Bool
quiet_test z nodes = every (λ i. every (heard_by z nodes i) z.members) z.members

pub every-contains :
    (test : ℕ → Bool) (xs : List ℕ) (k : ℕ)
    → every test xs ≡ true
    → contains xs k ≡ true
    → test k ≡ true
unfolding every contains
every-contains test [] k h c = absurd (cc)
every-contains test (x ∷ xs) k h c =
    ground (arith, every-contains test xs k, nat_beq_iff x k, ap test)

heard_posts :
    (j : ℕ) (inbox : List NodeMessage) (log : List Effect) (t : MessageType) (p : List ℕ)
    → every (heard j inbox) log ≡ true
    → posted t p log ≡ true
    → received t p j inbox ≡ true
unfolding every posted any
heard_posts j inbox [] t p h g = absurd (cc)
heard_posts j inbox (deliver m ∷ log) t p h g =
    heard_posts j inbox log t p (ground arith) (ground arith)
heard_posts j inbox (broadcast m ∷ log) t p h g =
    elim (Bool-cases (same_type m.message_type t && m.payload == p)) [
      | inl this ↦
          subst (λ q. received t q j inbox ≡ true) (ground (arith, list_beq_iff m.payload p))
            (subst (λ u. received u m.payload j inbox ≡ true)
              (same_type_sound m.message_type t (ground arith)) (ground arith))
      | inr other ↦ heard_posts j inbox log t p (ground arith) (ground arith)
    ]

pub quiet_test-IsQuiet : (z : Setting) (nodes : Nodes) → quiet_test z nodes ≡ true → IsQuiet z nodes
unfolding quiet_test IsQuiet
quiet_test-IsQuiet z nodes h i j t p ci cj other said =
    let row = every-contains (λ k. every (heard_by z nodes k) z.members) z.members i h ci.0 in
    let cell = every-contains (heard_by z nodes i) z.members j row cj.0 in
    heard_posts j (nodes i).inbox (nodes j).local.log t p
      (ground (arith, cell, ci.1, cj.1, other, nat_beq_iff i j)) said
