-- ===== src/Node/Network/Safety.antt =====
-- What correct nodes deliver.
use reliable_broadcast.Prelude.{
  ℕ, ◌+◌, ◌*◌, ◌≤◌, ◌<◌, ◌≡◌, true, List, length, count, nat_eq, arith,
}
use reliable_broadcast.Node.Quorum.{member_shared}
use reliable_broadcast.Node.Thresholds.{get_t, thresholds}
use reliable_broadcast.Node.Session.{senders}
use reliable_broadcast.Node.Session.Moves.{delivers}
use reliable_broadcast.Node.Session.Sound.{any_delivery}
use reliable_broadcast.Node.Network.{Setting, Nodes, IsCorrect, faulty, Reachable}
use reliable_broadcast.Node.Network.Faithful.{IsTolerable}
use reliable_broadcast.Node.Network.Invariant.{Reachable-IsFaithful}

-- `log` of a node
abbrev pub HasDelivered : Nodes → ℕ → List ℕ → Type 0
HasDelivered nodes i p = delivers p ((nodes i).local.log) ≡ true

-- Delivered data have more than two thirds of the nodes behind them.
module _ (z : Setting) (tolerable : IsTolerable z) {nodes : Nodes} (r : Reachable z nodes) where
  pub delivered_votes :
      (i : ℕ) (p : List ℕ)
      → IsCorrect z i
      → HasDelivered nodes i p
      → 2 * get_t (length z.members) < length (senders p (nodes i).local.session.readies)
  delivered_votes i p c h =
      let v = Reachable-IsFaithful z tolerable r i c in
      omega (
        arith,
        v.sound.quorum p h,
        v.t,
        thresholds (length z.members) tolerable.positive tolerable.small,
      )

-- In a tolerable setting, which has different members, fewer than 2 ^ 62 and at least one, of which
-- at most t are faulty, two correct nodes deliver the same data, if the members and the faulty ones
-- among them are together fewer than 4t + 2; of 3t + 1 members, t can be faulty. The network is
-- assumed to be authenticated: an ECHO or READY that a correct node takes in names a member, and
-- names a correct one only for what that one has posted. The code checks neither.
pub agreement :
    (z : Setting)
    → IsTolerable z
    → length z.members + faulty z < 4 * get_t (length z.members) + 2
    → {nodes : Nodes} → Reachable z nodes
    → (i j : ℕ) (p q : List ℕ) → IsCorrect z i
    → IsCorrect z j
    → HasDelivered nodes i p
    → HasDelivered nodes j q
    → p ≡ q
agreement z tolerable many {nodes = nodes} r i j p q ci cj hp hq =
    let vi = (Reachable-IsFaithful z tolerable r i ci).readies in
    let vj = (Reachable-IsFaithful z tolerable r j cj).readies in
    let shared =
      member_shared z.members tolerable.distinct z.honest
        (senders p (nodes i).local.session.readies) (senders q (nodes j).local.session.readies)
        (vi.distinct p) (vj.distinct q) (vi.members p) (vj.members q)
        (omega (
          arith,
          many,
          delivered_votes z tolerable r i p ci hp,
          delivered_votes z tolerable r j q cj hq,
        )) in
    (Reachable-IsFaithful z tolerable r shared.0
        (vi.members p shared.0 shared.1, shared.3)).sound.one_ready
      p q (vi.backing p shared.0 shared.1 shared.3) (vj.backing q shared.0 shared.2 shared.3)

-- In a tolerable setting and on the same authenticated network, what a correct node delivers is
-- data that the client has sent, and the node delivers no second message in the session.
pub integrity :
    (z : Setting)
    → IsTolerable z
    → {nodes : Nodes} → Reachable z nodes
    → (i : ℕ) (p : List ℕ) → IsCorrect z i
    → HasDelivered nodes i p
    → (z.submitted p ≡ true) × (count any_delivery (nodes i).local.log ≤ 1)
integrity z tolerable r i p c h =
    let v = Reachable-IsFaithful z tolerable r i c in
    (v.delivered p h, ground (arith, v.sound.deliveries))
