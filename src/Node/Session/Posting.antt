-- ===== src/Node/Session/Posting.antt =====
-- What a broadcast of src/session.cpp leaves behind, given what the call that it makes does.
use reliable_broadcast.Prelude.{
  ℕ, ◌≡◌, ◌≢◌, refl, sym, ◌∙◌, subst, ap, true, ◌&&◌, ◌||◌, Option, some, List, [], ◌∷◌, any, ◌==◌,
  nat_eq, list_eq, list_beq_iff, arith, inl, inr, Bool-cases, Option-cases,
}
use reliable_broadcast.Client.Message.{MessageType, send, ready}
use reliable_broadcast.Node.Parse.{NodeMessage}
use reliable_broadcast.Node.Session.{
  Session, Effect, Outcome, broadcast_as, send_ready, broadcast, prepend, changed,
}
use reliable_broadcast.Node.Session.Moves.{posted, same_type, same_type_sound, same_type_refl}
use reliable_broadcast.Node.Session.Settled.{
  counted, IsExtended, IsSettled, IsDue, IsDone, IsPosted, IsExtended-votes, IsExtended-trans,
  nothing_posted,
}

pub outcome-inj : {o o' : Outcome} → some o ≡ some o' → o ≡ o'
outcome-inj h = cc

posted-cons :
    (t u : MessageType) (p : List ℕ) (e : NodeMessage) (effects : List Effect)
    → e.message_type ≡ t
    → posted u p (broadcast e ∷ effects) ≡ ((same_type t u && e.payload == p) || posted u p effects)
unfolding posted any
posted-cons t u p e effects h = ground arith

module _ (own : ℕ) (again : NodeMessage → Session → Option Outcome)
    (inner : (call : NodeMessage) (s : Session) (o : Outcome)
      → again call s ≡ some o
      → IsDone own call s o) where
  pub broadcast_as-IsPosted :
      (t : MessageType) (m : NodeMessage) (s : Session) (o : Outcome)
      → broadcast_as own again t m s ≡ some o
      → IsPosted own t m s o
  unfolding broadcast_as
  broadcast_as-IsPosted t m s o h =
      let e = changed own again t m in
      elim (Option-cases (again e s)) [
        | inl g ↦ absurd (cc)
        | inr (o1, g) ↦
            let d = inner e s o1 g in
            subst (IsPosted own t m s) (outcome-inj (sym (ap (prepend (broadcast e)) g) ∙ h))
              (record {
                extends = d.extends;
                effects = λ u p x. elim (Bool-cases (posted u p o1.effects)) [
                  | inl old ↦ d.effects u p old
                  | inr new ↦
                      let kind : t ≡ u =
                        same_type_sound t u (ground (arith, posted-cons t u p e o1.effects refl)) in
                      let what : m.payload ≡ p =
                        ground
                          (arith, posted-cons t u p e o1.effects refl, list_beq_iff m.payload p) in
                      subst (λ q. counted u q own o1.session ≡ true) what
                        (subst (λ v. counted v m.payload own o1.session ≡ true) kind d.taken_in)
                ];
                done = ground (
                  arith,
                  posted-cons t t m.payload e o1.effects refl,
                  same_type_refl t,
                  list_beq_iff m.payload m.payload,
                );
                settled = d.settled;
              })
      ]

  -- A READY posted from a state in which only its own data may be due.
  pub send_ready-IsPosted :
      (m : NodeMessage) (s : Session) (o : Outcome)
      → send_ready own again m s ≡ some o
      → IsPosted own ready m (record s { ready_sent = true }) o
  unfolding send_ready
  send_ready-IsPosted m s o h = broadcast_as-IsPosted ready m (record s { ready_sent = true }) o h

  pub quiet-IsDone :
      (t : MessageType) (m : NodeMessage) (s s' : Session)
      → m.message_type ≡ t
      → t ≢ send
      → IsExtended s s'
      → counted t m.payload m.node_id s' ≡ true
      → (IsDue m s → IsSettled s')
      → IsDone own m s (record { session = s'; message = m; effects = [] })
  quiet-IsDone t m s s' kind other extends taken_in settled = record {
    extends = extends;
    taken_in = ap (λ u. counted u m.payload m.node_id s') kind ∙ taken_in;
    effects = λ u p x. absurd (ground (arith, nothing_posted u p));
    echoed = λ k. absurd (other (sym kind ∙ k));
    settled = settled;
  }

  pub sent-IsDone :
      (t : MessageType) (m : NodeMessage) (s s' : Session) (o : Outcome)
      → m.message_type ≡ t
      → t ≢ send
      → IsExtended s s'
      → counted t m.payload m.node_id s' ≡ true
      → (IsDue m s → IsDue (record m { node_id = own; message_type = ready }) s')
      → IsPosted own ready m s' o
      → IsDone own m s o
  sent-IsDone t m s s' o kind other extends taken_in due d = record {
    extends = IsExtended-trans s s' o.session extends d.extends;
    taken_in =
        ap (λ u. counted u m.payload m.node_id o.session) kind
        ∙ IsExtended-votes s' o.session d.extends t m.payload m.node_id taken_in;
    effects = d.effects;
    echoed = λ k. absurd (other (sym kind ∙ k));
    settled = λ h. d.settled (due h);
  }
