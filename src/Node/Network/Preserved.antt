-- ===== src/Node/Network/Preserved.antt =====
-- Each atomic step keeps what holds at a correct node.
use reliable_broadcast.Prelude.{
  ℕ, ◌<◌, ◌≡◌, refl, sym, ◌∙◌, subst, ap, true, List, [], ◌∷◌, ◌++◌, length, nat_eq, list_eq,
  list_beq_iff, arith, inl, inr, Bool-cases,
}
use reliable_broadcast.Client.Message.{MessageType, echo, ready}
use reliable_broadcast.Node.Parse.{NodeMessage}
use reliable_broadcast.Node.Thresholds.{thresholds}
use reliable_broadcast.Node.Session.{Session, senders, Effect, broadcast, deliver}
use reliable_broadcast.Node.Session.Moves.{Local, Move, Moves, posted, delivers, posted-append}
use reliable_broadcast.Node.Session.Sound.{
  IsSound, Move-IsSound, posted-snoc, posted-deliver, delivers-snoc, delivers-broadcast,
}
use reliable_broadcast.Node.Network.{Setting, IsCorrect}
use reliable_broadcast.Node.Network.Faithful.{
  Said, IsTolerable, IsFaithful, IsGenuine, overlay, IsFaithful-mono, backed-cast, quorum-submitted,
}
use reliable_broadcast.Node.Network.Backed.{add_vote-IsBacked}

-- A log only grows.
overlay_mono :
    (said : Said) (own : ℕ) (xs ys : List Effect) (t : MessageType) (k : ℕ) (p : List ℕ)
    → overlay said own xs t k p ≡ true
    → overlay said own (xs ++ ys) t k p ≡ true
overlay_mono said own xs ys t k p h = ground (arith, posted-append t p xs ys)

posts-snoc :
    (z : Setting) (log : List Effect) (e : NodeMessage)
    → ((t : MessageType) (p : List ℕ) → posted t p log ≡ true → z.submitted p ≡ true)
    → z.submitted e.payload ≡ true
    → (t : MessageType) (p : List ℕ) → posted t p (log ++ broadcast e ∷ []) ≡ true
    → z.submitted p ≡ true
posts-snoc z log e old new t p h = elim (Bool-cases (posted t p log)) [
  | inl g ↦ old t p g
  | inr g ↦
      subst (λ q. z.submitted q ≡ true)
        (ground (arith, posted-snoc t e.message_type p log e refl, list_beq_iff e.payload p)) new
]

module _ (z : Setting) (tolerable : IsTolerable z) (said : Said)
    (posts : (k : ℕ) (t : MessageType) (p : List ℕ)
      → IsCorrect z k
      → said t k p ≡ true
      → z.submitted p ≡ true)
    (own : ℕ) (correct : IsCorrect z own) (m : NodeMessage) (genuine : IsGenuine z said m) where
  abbrev IsFaithfulNow : Local → Type 0
  IsFaithfulNow l = IsFaithful z (overlay said own l.log) l

  -- A broadcast, of data that the client has sent.
  post-IsFaithful :
      (a : Local) (s : Session) (e : NodeMessage)
      → z.submitted e.payload ≡ true
      → s.echoes ≡ a.session.echoes
      → s.readies ≡ a.session.readies
      → s.t ≡ a.session.t
      → s.echo_target ≡ a.session.echo_target
      → IsSound (record { session = s; log = a.log ++ broadcast e ∷ [] })
      → IsFaithfulNow a
      → IsFaithfulNow (record { session = s; log = a.log ++ broadcast e ∷ [] })
  post-IsFaithful a s e sub ee re te tt' sound v =
      IsFaithful-mono z (overlay said own a.log) _ _
        (overlay_mono said own a.log (broadcast e ∷ []))
        (record {
          sound = sound;
          echoes = rw ee v.echoes;
          readies = rw re v.readies;
          t = te ∙ v.t;
          echo_target = tt' ∙ v.echo_target;
          posts = posts-snoc z a.log e v.posts sub;
          delivered = λ p h. v.delivered p (sym (delivers-broadcast p a.log e) ∙ h);
        })

  Move-IsFaithful_from_sound :
      {a b : Local} → Move own m a b → IsSound b → IsFaithfulNow a → IsFaithfulNow b
  Move-IsFaithful_from_sound {a = a} (Move.post_echo e h g same) sound v =
      post-IsFaithful a a.session e (ap z.submitted same ∙ genuine.of_client h) refl refl refl refl
        sound v
  Move-IsFaithful_from_sound {a = a} (Move.post_ready e g same unsent enough) sound v =
      post-IsFaithful a _ e
        (ap z.submitted same
          ∙ quorum-submitted z tolerable said posts own correct m genuine a v enough)
        refl refl refl refl sound v
  Move-IsFaithful_from_sound {a = a} (Move.count_echo k h) sound v =
      let cast =
        backed-cast z tolerable said posts own correct m genuine echo k a.log (λ q. cc) h in
      record {
        sound = sound;
        readies = v.readies;
        t = v.t;
        echo_target = v.echo_target;
        posts = v.posts;
        delivered = v.delivered;
        echoes =
            add_vote-IsBacked z (overlay said own a.log echo) a.session.echoes m.payload k cast.0
              cast.1 v.echoes;
      }
  Move-IsFaithful_from_sound {a = a} (Move.count_ready k h) sound v =
      let cast =
        backed-cast z tolerable said posts own correct m genuine ready k a.log (λ q. cc) h in
      record {
        sound = sound;
        echoes = v.echoes;
        t = v.t;
        echo_target = v.echo_target;
        posts = v.posts;
        delivered = v.delivered;
        readies =
            add_vote-IsBacked z (overlay said own a.log ready) a.session.readies m.payload k cast.0
              cast.1 v.readies;
      }
  Move-IsFaithful_from_sound {a = a} (Move.hand_over e same undone many) sound v =
      let enough : a.session.t < length (senders m.payload a.session.readies) =
        omega
          (arith, many, v.t, thresholds (length z.members) tolerable.positive tolerable.small) in
      let sub =
        ap z.submitted same
        ∙ quorum-submitted z tolerable said posts own correct m genuine a v (inr enough) in
      IsFaithful-mono z (overlay said own a.log) _ _ (overlay_mono said own a.log (deliver e ∷ []))
        (record {
          sound = sound;
          echoes = v.echoes;
          readies = v.readies;
          t = v.t;
          echo_target = v.echo_target;
          posts = λ t p h. v.posts t p (sym (posted-deliver t p a.log e) ∙ h);
          delivered = λ p h. elim (Bool-cases (delivers p a.log)) [
            | inl g ↦ v.delivered p g
            | inr g ↦
                subst (λ q. z.submitted q ≡ true)
                  (ground (arith, delivers-snoc p a.log e, list_beq_iff e.payload p)) sub
          ];
        })

  pub Moves-IsFaithful : {a b : Local} → Moves own m a b → IsFaithfulNow a → IsFaithfulNow b
  Moves-IsFaithful Moves.stay v = v
  Moves-IsFaithful (Moves.then moves move) v =
      let before = Moves-IsFaithful moves v in
      Move-IsFaithful_from_sound move (Move-IsSound move before.sound) before
