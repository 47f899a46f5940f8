-- ===== src/Node/Network/Faithful.antt =====
-- What holds at a correct node between the steps.
use reliable_broadcast.Prelude.{
  ◌≢◌, ℕ, ◌^◌, ◌≤◌, ◌<◌, ◌≡◌, subst, Bool, true, ◌&&◌, ◌||◌, List, length, contains, Distinct, ◌==◌,
  nat_eq, nat_beq_iff, list_eq, arith, ◌⊎◌, inl, inr, Bool-cases,
}
use reliable_broadcast.Client.Message.{MessageType, send, echo, ready}
use reliable_broadcast.Node.Parse.{NodeMessage}
use reliable_broadcast.Node.Thresholds.{get_t, get_echo_target, thresholds}
use reliable_broadcast.Node.Session.{Votes, senders, Effect}
use reliable_broadcast.Node.Session.Moves.{Local, posted, delivers, backed, same_type_sound}
use reliable_broadcast.Node.Session.Sound.{IsSound}
use reliable_broadcast.Node.Network.{Setting, IsCorrect, faulty}
use reliable_broadcast.Node.Network.Backed.{IsBacked, IsBacked-mono, IsBacked-IsCorrect}

-- What nodes have posted: by type, node and data.
abbrev pub Said : Type 0
Said = MessageType → ℕ → List ℕ → Bool

-- The members are different, their number is one that a 64-bit count can bear, and as many are
-- faulty as the session reckons with.
pub record IsTolerable (z : Setting) : Type 0 where
  pub distinct : Distinct z.members
  pub positive : 0 < length z.members
  pub small : length z.members < 2 ^ 62
  pub few : faulty z ≤ get_t (length z.members)

pub record IsFaithful (z : Setting) (said : Said) (l : Local) : Type 0 where
  pub sound : IsSound l
  pub echoes : IsBacked z (said echo) l.session.echoes
  pub readies : IsBacked z (said ready) l.session.readies
  pub t : l.session.t ≡ get_t (length z.members)
  pub echo_target :
      l.session.echo_target ≡ get_echo_target (length z.members) (get_t (length z.members))
  pub posts : (t : MessageType) (p : List ℕ) → posted t p l.log ≡ true → z.submitted p ≡ true
  pub delivered : (p : List ℕ) → delivers p l.log ≡ true → z.submitted p ≡ true

-- The message in hand comes from the client or a member, and no correct member is named for what
-- it has not posted.
pub record IsGenuine (z : Setting) (said : Said) (m : NodeMessage) : Type 0 where
  pub of_client : m.message_type ≡ send → z.submitted m.payload ≡ true
  pub of_member :
      (t : MessageType)
      → t ≢ send
      → m.message_type ≡ t
      → (contains z.members m.node_id ≡ true)
        × (z.honest m.node_id ≡ true → said t m.node_id m.payload ≡ true)

-- Enough votes for some data show that the client has sent them.
module _ (z : Setting) (tolerable : IsTolerable z) (said : Said)
    (posts : (k : ℕ) (t : MessageType) (p : List ℕ)
      → IsCorrect z k
      → said t k p ≡ true
      → z.submitted p ≡ true) where
  pub votes-submitted :
      (t : MessageType) (votes : Votes) (p : List ℕ)
      → IsBacked z (said t) votes
      → get_t (length z.members) < length (senders p votes)
      → z.submitted p ≡ true
  votes-submitted t votes p v many =
      let found =
        IsBacked-IsCorrect z (said t) votes p tolerable.distinct v (omega (arith, tolerable.few)) in
      posts found.0 t p found.1 found.2

-- With what the node in hand posts meanwhile.
abbrev pub overlay : Said → ℕ → List Effect → Said
overlay said own log t k p = said t k p || ((k == own) && posted t p log)

pub IsFaithful-mono :
    (z : Setting) (said said' : Said) (l : Local)
    → ((t : MessageType) (k : ℕ) (p : List ℕ) → said t k p ≡ true → said' t k p ≡ true)
    → IsFaithful z said l
    → IsFaithful z said' l
IsFaithful-mono z said said' l more v = record {
  sound = v.sound;
  t = v.t;
  echo_target = v.echo_target;
  posts = v.posts;
  delivered = v.delivered;
  echoes = IsBacked-mono z (said echo) (said' echo) l.session.echoes (more echo) v.echoes;
  readies = IsBacked-mono z (said ready) (said' ready) l.session.readies (more ready) v.readies;
}

module _ (z : Setting) (tolerable : IsTolerable z) (said : Said)
    (posts : (k : ℕ) (t : MessageType) (p : List ℕ)
      → IsCorrect z k
      → said t k p ≡ true
      → z.submitted p ≡ true)
    (own : ℕ) (correct : IsCorrect z own) (m : NodeMessage) (genuine : IsGenuine z said m) where
  -- A vote that a step counts is a member's, and a correct member has cast it.
  pub backed-cast :
      (t : MessageType) (k : ℕ) (log : List Effect)
      → t ≢ send
      → backed own m t k log ≡ true
      → (contains z.members k ≡ true)
        × (z.honest k ≡ true → overlay said own log t k m.payload ≡ true)
  unfolding backed
  backed-cast t k log vote h = elim (Bool-cases ((k == own) && posted t m.payload log)) [
    | inl mine ↦
        let me : own ≡ k = ground (arith, nat_beq_iff k own) in
        (subst (λ i. contains z.members i ≡ true) me correct.0, λ honest. ground arith)
    | inr other ↦
        let who : m.node_id ≡ k = ground (arith, nat_beq_iff k m.node_id) in
        subst
          (λ i.
            (contains z.members i ≡ true)
            × (z.honest i ≡ true → overlay said own log t i m.payload ≡ true))
          who
          (let g = genuine.of_member t vote (same_type_sound m.message_type t (ground arith)) in
            (g.0, λ honest. ground (arith, g.1 honest)))
  ]

  pub overlay-submitted :
      (l : Local)
      → IsFaithful z (overlay said own l.log) l
      → (k : ℕ) (t : MessageType) (p : List ℕ) → IsCorrect z k
      → overlay said own l.log t k p ≡ true
      → z.submitted p ≡ true
  overlay-submitted l v k t p c h = elim (Bool-cases (said t k p)) [
    | inl e ↦ posts k t p c e
    | inr e ↦ v.posts t p (ground arith)
  ]

  -- Data with a quorum come from the client.
  pub quorum-submitted :
      (l : Local)
      → IsFaithful z (overlay said own l.log) l
      → (l.session.echo_target ≤ length (senders m.payload l.session.echoes))
        ⊎ (l.session.t < length (senders m.payload l.session.readies))
      → z.submitted m.payload ≡ true
  quorum-submitted l v (inl h) =
      votes-submitted z tolerable (overlay said own l.log) (overlay-submitted l v) echo
        l.session.echoes m.payload v.echoes
        (omega (
          arith,
          h,
          v.echo_target,
          thresholds (length z.members) tolerable.positive tolerable.small,
        ))
  quorum-submitted l v (inr h) =
      votes-submitted z tolerable (overlay said own l.log) (overlay-submitted l v) ready
        l.session.readies m.payload v.readies (omega (arith, h, v.t))
