-- ===== src/Node/Network/Liveness.antt =====
-- What is delivered once the network is quiet.
use reliable_broadcast.Prelude.{ℕ, List, nat_eq}
use reliable_broadcast.Node.Network.{Setting, Nodes, IsCorrect, Reachable}
use reliable_broadcast.Node.Network.Faithful.{IsTolerable}
use reliable_broadcast.Node.Network.Safety.{HasDelivered}
use reliable_broadcast.Node.Network.Quorums.{
  IsQuiet, IsOnly, all_ready-HasDelivered, ready_sent-said, delivered-ready_sent,
}

-- In a tolerable setting and on an authenticated network, when the client has sent no other data,
-- one correct node has delivered these, and what correct nodes have posted has reached the others,
-- every correct node has delivered them, whether the client's SEND has reached it or not.
pub totality :
    (z : Setting)
    → IsTolerable z
    → {nodes : Nodes} → Reachable z nodes
    → IsQuiet z nodes
    → (p : List ℕ) → IsOnly z p
    → (i j : ℕ) → IsCorrect z i
    → IsCorrect z j
    → HasDelivered nodes i p
    → HasDelivered nodes j p
totality z tolerable r quiet p only i j ci cj h =
    all_ready-HasDelivered z tolerable r quiet p only
      (λ k ck.
        ready_sent-said z tolerable r quiet p only k ck
          (delivered-ready_sent z tolerable r quiet p only i k ci ck h))
      j cj
