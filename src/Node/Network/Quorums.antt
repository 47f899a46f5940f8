-- ===== src/Node/Network/Quorums.antt =====
-- How far each correct node is once the network is quiet.
use reliable_broadcast.Prelude.{
  ℕ, ◌≡◌, ◌≢◌, sym, subst, true, ◌&&◌, List, length, contains, ◌==◌, nat_eq, nat_beq_iff, arith,
  inl, inr, Bool-cases,
}
use reliable_broadcast.Client.Message.{MessageType, ready}
use reliable_broadcast.Node.Thresholds.{thresholds}
use reliable_broadcast.Node.Quorum.{count_senders, count-not, length_at_most_count, count_except}
use reliable_broadcast.Node.Session.{senders}
use reliable_broadcast.Node.Session.Settled.{counted}
use reliable_broadcast.Node.Network.{Setting, Nodes, IsCorrect, said, Reachable}
use reliable_broadcast.Node.Network.Faithful.{IsTolerable}
use reliable_broadcast.Node.Network.Invariant.{Reachable-IsFaithful}
use reliable_broadcast.Node.Network.Attended.{received, Reachable-IsAttended}
use reliable_broadcast.Node.Network.Safety.{HasDelivered, delivered_votes}

-- What a correct node has posted has reached all others.
unfoldable pub IsQuiet : Setting → Nodes → Type 0
IsQuiet z nodes =
    (i j : ℕ) (t : MessageType) (p : List ℕ)
    → IsCorrect z i
    → IsCorrect z j
    → i ≢ j
    → said nodes t j p ≡ true
    → received t p j (nodes i).inbox ≡ true

-- The client has sent no other data.
unfoldable pub IsOnly : Setting → List ℕ → Type 0
IsOnly z p = (q : List ℕ) → z.submitted q ≡ true → q ≡ p

module _ (z : Setting) (tolerable : IsTolerable z) {nodes : Nodes} (r : Reachable z nodes)
    (quiet : IsQuiet z nodes) (p : List ℕ) (only : IsOnly z p) where
  -- Every post of a correct node counts everywhere.
  said-counted :
      (i j : ℕ) (t : MessageType) (q : List ℕ)
      → IsCorrect z i
      → IsCorrect z j
      → said nodes t j q ≡ true
      → counted t q j (nodes i).local.session ≡ true
  unfolding IsQuiet
  said-counted i j t q ci cj h = elim (Bool-cases (i == j)) [
    | inl e ↦
        subst (λ k. counted t q k (nodes i).local.session ≡ true) ((nat_beq_iff i j).0 e)
          ((Reachable-IsAttended z tolerable r i).own t q
            (subst (λ k. said nodes t k q ≡ true) (sym ((nat_beq_iff i j).0 e)) h))
    | inr e ↦
        (Reachable-IsAttended z tolerable r i).others t q j
          (quiet i j t q ci cj (λ same. ground (arith, nat_beq_iff i j)) h)
  ]

  -- A READY of a correct node is for the client's data.
  pub ready_sent-said :
      (i : ℕ)
      → IsCorrect z i
      → (nodes i).local.session.ready_sent ≡ true
      → said nodes ready i p ≡ true
  unfolding IsOnly
  ready_sent-said i c h =
      let v = Reachable-IsFaithful z tolerable r i c in
      let found = v.sound.sent h in
      subst (λ q. said nodes ready i q ≡ true) (only found.0 (v.posts ready found.0 found.1))
        found.1

  -- When all correct nodes have sent a READY, all deliver.
  pub all_ready-HasDelivered :
      ((j : ℕ) → IsCorrect z j → said nodes ready j p ≡ true)
      → (i : ℕ) → IsCorrect z i
      → HasDelivered nodes i p
  unfolding IsOnly counted
  all_ready-HasDelivered all i c =
      let v = Reachable-IsFaithful z tolerable r i c in
      let a = Reachable-IsAttended z tolerable r i in
      let s = (nodes i).local.session in
      elim (Bool-cases s.delivered) [
        | inl done ↦
            let found = v.sound.handed done in
            subst (HasDelivered nodes i) (only found.0 (v.delivered found.0 found.1)) found.1
        | inr undone ↦
            let votes =
              count_senders z.members tolerable.distinct z.honest (senders p s.readies)
                (λ k member honest.
                  ground (
                    arith,
                    said-counted i k ready p c (member, honest) (all k (member, honest)),
                  )) in
            absurd (
              omega (
                arith,
                votes,
                count-not z.honest z.members,
                tolerable.few,
                a.settled.deliver undone p,
                v.t,
                thresholds (length z.members) tolerable.positive tolerable.small,
              ))
      ]

  -- The correct ones among the READY messages behind a delivery reach every node.
  pub delivered-ready_sent :
      (i j : ℕ)
      → IsCorrect z i
      → IsCorrect z j
      → HasDelivered nodes i p
      → (nodes j).local.session.ready_sent ≡ true
  unfolding counted
  delivered-ready_sent i j ci cj h =
      let vi = Reachable-IsFaithful z tolerable r i ci in
      let vj = Reachable-IsFaithful z tolerable r j cj in
      let a = Reachable-IsAttended z tolerable r j in
      let s = (nodes j).local.session in
      let behind = senders p (nodes i).local.session.readies in
      elim (Bool-cases s.ready_sent) [
        | inl done ↦ done
        | inr unsent ↦ elim (Bool-cases s.delivered) [
          | inl done ↦
              let found = vj.sound.handed done in
              absurd (
                omega (
                  arith,
                  a.settled.readies unsent found.0,
                  vj.t,
                  delivered_votes z tolerable r j found.0 cj found.1,
                ))
          | inr undone ↦
              let votes =
                count_senders z.members tolerable.distinct (λ k. contains behind k && z.honest k)
                  (senders p s.readies)
                  (λ k member both. ground (
                    arith,
                    said-counted j k ready p cj (member, ground arith)
                        (vi.readies.backing p k (ground arith) (ground arith)),
                  )) in
              absurd (
                omega (
                  arith,
                  votes,
                  count_except (contains behind) z.honest z.members,
                  length_at_most_count z.members tolerable.distinct behind (vi.readies.distinct p)
                      (vi.readies.members p),
                  delivered_votes z tolerable r i p ci h,
                  tolerable.few,
                  a.settled.readies unsent p,
                  vj.t,
                ))
        ]
      ]
