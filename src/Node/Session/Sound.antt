-- ===== src/Node/Session/Sound.antt =====
-- What the flags of a session say about the log of its node.
use reliable_broadcast.Prelude.{
  sym, ◌∙◌, subst, Bool-cases, ℕ, ◌+◌, ◌*◌, ◌%◌, ◌^◌, ◌≤◌, ◌<◌, ◌≡◌, refl, Bool, true, false, ◌&&◌,
  ◌||◌, List, [], ◌∷◌, ◌++◌, length, any, count, count-append, ◌==◌, nat_eq, list_eq, list_beq_iff,
  if◌then◌else◌, arith, inl, inr,
}
use reliable_broadcast.Client.Message.{MessageType, echo, ready}
use reliable_broadcast.Node.Parse.{NodeMessage, SessionId}
use reliable_broadcast.Node.Session.{create, Session, Effect, senders, broadcast, deliver}
use reliable_broadcast.Node.Session.Moves.{
  Local, Move, Moves, posted, delivers, posted-append, delivers-append, same_type,
}
use reliable_broadcast.Node.Session.Votes.{length-add_vote}

abbrev pub any_delivery : Effect → Bool
any_delivery (broadcast m) = false
any_delivery (deliver m) = true

pub record IsSound (l : Local) : Type 0 where
  pub fresh : l.session.ready_sent ≡ false → (p : List ℕ) → posted ready p l.log ≡ false
  pub one_ready : (p q : List ℕ) → posted ready p l.log ≡ true → posted ready q l.log ≡ true → p ≡ q
  pub quorum :
      (p : List ℕ)
      → delivers p l.log ≡ true
      → (2 * l.session.t) % 2 ^ 64 < length (senders p l.session.readies)
  pub sent : l.session.ready_sent ≡ true → (p : List ℕ) × (posted ready p l.log ≡ true)
  pub handed : l.session.delivered ≡ true → (p : List ℕ) × (delivers p l.log ≡ true)
  pub deliveries : count any_delivery l.log ≡ (if l.session.delivered then 1 else 0)

-- What one effect at the end adds to the log.
pub posted-snoc :
    (t u : MessageType) (p : List ℕ) (log : List Effect) (e : NodeMessage)
    → e.message_type ≡ u
    → posted t p (log ++ broadcast e ∷ []) ≡ (posted t p log || (same_type u t && e.payload == p))
unfolding posted any
posted-snoc t u p log e h = ground (arith, posted-append t p log (broadcast e ∷ []))

pub posted-deliver :
    (t : MessageType) (p : List ℕ) (log : List Effect) (e : NodeMessage)
    → posted t p (log ++ deliver e ∷ []) ≡ posted t p log
unfolding posted any
posted-deliver t p log e = ground (arith, posted-append t p log (deliver e ∷ []))

pub delivers-snoc :
    (p : List ℕ) (log : List Effect) (e : NodeMessage)
    → delivers p (log ++ deliver e ∷ []) ≡ (delivers p log || (e.payload == p))
unfolding delivers any
delivers-snoc p log e = ground (arith, delivers-append p log (deliver e ∷ []))

pub delivers-broadcast :
    (p : List ℕ) (log : List Effect) (e : NodeMessage)
    → delivers p (log ++ broadcast e ∷ []) ≡ delivers p log
unfolding delivers any
delivers-broadcast p log e = ground (arith, delivers-append p log (broadcast e ∷ []))

deliveries-snoc :
    (log : List Effect) (e : Effect)
    → count any_delivery (log ++ e ∷ [])
      ≡ count any_delivery log + (if any_delivery e then 1 else 0)
unfolding count
deliveries-snoc log e = ground (arith, count-append any_delivery log (e ∷ []))

-- The votes may grow.
vote-IsSound :
    (l : Local) (s : Session)
    → s.ready_sent ≡ l.session.ready_sent
    → s.delivered ≡ l.session.delivered
    → s.t ≡ l.session.t
    → ((p : List ℕ) → length (senders p l.session.readies) ≤ length (senders p s.readies))
    → IsSound l
    → IsSound (record { session = s; log = l.log })
vote-IsSound l s r d t grows v = record {
  fresh = λ h p. v.fresh (sym r ∙ h) p;
  one_ready = v.one_ready;
  quorum = λ p h. ground (arith, v.quorum p h, grows p);
  sent = λ h. v.sent (sym r ∙ h);
  handed = λ h. v.handed (sym d ∙ h);
  deliveries = rw d v.deliveries;
}

pub Move-IsSound :
    {own : ℕ} {m : NodeMessage} {a b : Local} → Move own m a b → IsSound a → IsSound b
Move-IsSound {a = a} (Move.post_echo e h g i) v = record {
  fresh = λ s p. posted-snoc ready echo p a.log e g ∙ ground (arith, v.fresh s p);
  one_ready = λ p q x y.
      v.one_ready p q (ground (arith, posted-snoc ready echo p a.log e g))
        (ground (arith, posted-snoc ready echo q a.log e g));
  quorum = λ p x. v.quorum p (sym (delivers-broadcast p a.log e) ∙ x);
  sent = λ s.
      let found = v.sent s in
      (found.0, ground (arith, posted-snoc ready echo found.0 a.log e g, found.1));
  handed = λ s. let found = v.handed s in (found.0, delivers-broadcast found.0 a.log e ∙ found.1);
  deliveries = ground (arith, deliveries-snoc a.log (broadcast e), v.deliveries);
}
Move-IsSound {a = a} (Move.count_echo k h) v = vote-IsSound a _ refl refl refl (λ p. omega arith) v
Move-IsSound {m = m} {a = a} (Move.count_ready k h) v =
    vote-IsSound a _ refl refl refl (λ p. length-add_vote m.payload p k a.session.readies) v
Move-IsSound {m = m} {a = a} (Move.post_ready e h g unsent enough) v = record {
  fresh = λ s p. absurd (cc);
  one_ready = λ p q x y. ground (
    arith,
    posted-snoc ready ready p a.log e h,
    posted-snoc ready ready q a.log e h,
    v.fresh unsent p,
    v.fresh unsent q,
    list_beq_iff e.payload p,
    list_beq_iff e.payload q,
  );
  quorum = λ p x. v.quorum p (sym (delivers-broadcast p a.log e) ∙ x);
  sent = λ s. (
    m.payload,
    ground (arith, posted-snoc ready ready m.payload a.log e h, list_beq_iff e.payload m.payload),
  );
  handed = λ s. let found = v.handed s in (found.0, delivers-broadcast found.0 a.log e ∙ found.1);
  deliveries = ground (arith, deliveries-snoc a.log (broadcast e), v.deliveries);
}
Move-IsSound {m = m} {a = a} (Move.hand_over e same undone many) v = record {
  fresh = λ s p. posted-deliver ready p a.log e ∙ v.fresh s p;
  one_ready = λ p q x y.
      v.one_ready p q (sym (posted-deliver ready p a.log e) ∙ x)
        (sym (posted-deliver ready q a.log e) ∙ y);
  quorum = λ p x. elim (Bool-cases (delivers p a.log)) [
    | inl old ↦ v.quorum p old
    | inr new ↦
        subst (λ q. (2 * a.session.t) % 2 ^ 64 < length (senders q a.session.readies))
          (ground (arith, delivers-snoc p a.log e, list_beq_iff e.payload p)) many
  ];
  sent = λ s. let found = v.sent s in (found.0, posted-deliver ready found.0 a.log e ∙ found.1);
  handed = λ s. (
    m.payload,
    ground (arith, delivers-snoc m.payload a.log e, list_beq_iff e.payload m.payload),
  );
  deliveries = ground (arith, deliveries-snoc a.log (deliver e), v.deliveries, undone);
}

pub Moves-IsSound :
    {own : ℕ} {m : NodeMessage} {a b : Local} → Moves own m a b → IsSound a → IsSound b
Moves-IsSound Moves.stay v = v
Moves-IsSound (Moves.then moves move) v = Move-IsSound move (Moves-IsSound moves v)

pub create-IsSound : (n : ℕ) (id : SessionId) → IsSound (record { session = create n id; log = [] })
unfolding create posted delivers any count
create-IsSound n id = record {
  fresh = λ h p. refl;
  one_ready = λ p q x y. absurd (cc);
  quorum = λ p h. absurd (cc);
  sent = λ h. absurd (cc);
  handed = λ h. absurd (cc);
  deliveries = refl;
}
