-- ===== src/Node/Session/Settled.antt =====
-- How a call of src/session.cpp leaves the session: nothing that is due is left to do.
use reliable_broadcast.Prelude.{
  ℕ, ◌*◌, ◌%◌, ◌^◌, ◌≤◌, ◌<◌, ◌≡◌, refl, ◌∙◌, Bool, true, false, ◌&&◌, ◌||◌, List, [], length, any,
  contains, ◌==◌, nat_eq, list_eq, arith, ◌⊎◌,
}
use reliable_broadcast.Client.Message.{MessageType, send, echo, ready}
use reliable_broadcast.Node.Parse.{NodeMessage}
use reliable_broadcast.Node.Session.{Session, Outcome, senders, add_vote}
use reliable_broadcast.Node.Session.Moves.{posted, same_type}
use reliable_broadcast.Node.Session.Votes.{contains-add_vote}

-- The vote is counted, or comes too late to matter.
unfoldable pub counted : MessageType → List ℕ → ℕ → Session → Bool
counted send p k s = true
counted echo p k s = contains (senders p s.echoes) k || s.ready_sent
counted ready p k s = contains (senders p s.readies) k || s.delivered

pub record IsExtended (s s' : Session) : Type 0 where
  pub echo_votes : (p : List ℕ) (k : ℕ) → counted echo p k s ≡ true → counted echo p k s' ≡ true
  pub ready_votes : (p : List ℕ) (k : ℕ) → counted ready p k s ≡ true → counted ready p k s' ≡ true
  pub t : s'.t ≡ s.t
  pub echo_target : s'.echo_target ≡ s.echo_target

-- No threshold is reached whose message has not been sent.
pub record IsSettled (s : Session) : Type 0 where
  pub echoes : s.ready_sent ≡ false → (p : List ℕ) → length (senders p s.echoes) < s.echo_target
  pub readies : s.ready_sent ≡ false → (p : List ℕ) → length (senders p s.readies) ≤ s.t
  pub deliver :
      s.delivered ≡ false → (p : List ℕ) → length (senders p s.readies) ≤ (2 * s.t) % 2 ^ 64

-- What a call can rely on: while a READY is handled, the readies for its data may be due.
pub record IsDue (m : NodeMessage) (s : Session) : Type 0 where
  pub echoes : s.ready_sent ≡ false → (p : List ℕ) → length (senders p s.echoes) < s.echo_target
  pub readies : s.ready_sent ≡ false → (p : List ℕ) → length (senders p s.readies) ≤ s.t
  pub deliver :
      s.delivered ≡ false
      → (p : List ℕ) → (same_type m.message_type ready && m.payload == p) ≡ false
      → length (senders p s.readies) ≤ (2 * s.t) % 2 ^ 64

pub record IsDone (own : ℕ) (m : NodeMessage) (s : Session) (o : Outcome) : Type 0 where
  pub extends : IsExtended s o.session
  pub taken_in : counted m.message_type m.payload m.node_id o.session ≡ true
  pub effects :
      (t : MessageType) (p : List ℕ)
      → posted t p o.effects ≡ true
      → counted t p own o.session ≡ true
  pub echoed : m.message_type ≡ send → posted echo m.payload o.effects ≡ true
  pub settled : IsDue m s → IsSettled o.session

-- What a broadcast leaves behind.
pub record IsPosted (own : ℕ) (t : MessageType) (m : NodeMessage) (s : Session) (o : Outcome)
    : Type 0 where
  pub extends : IsExtended s o.session
  pub effects :
      (u : MessageType) (p : List ℕ)
      → posted u p o.effects ≡ true
      → counted u p own o.session ≡ true
  pub done : posted t m.payload o.effects ≡ true
  pub settled : IsDue (record m { node_id = own; message_type = t }) s → IsSettled o.session

-- The state between the two halves of a READY, of whose data there are `count` readies.
pub record IsHalfSettled (count : ℕ) (s : Session) : Type 0 where
  pub echoes : s.ready_sent ≡ false → (p : List ℕ) → length (senders p s.echoes) < s.echo_target
  pub readies : s.ready_sent ≡ false → (p : List ℕ) → length (senders p s.readies) ≤ s.t
  pub deliver :
      s.delivered ≡ false
      → (p : List ℕ)
      → (length (senders p s.readies) ≤ (2 * s.t) % 2 ^ 64) ⊎ (length (senders p s.readies) ≡ count)

pub record IsAmplified (own count : ℕ) (due : Type 0) (s : Session) (o : Outcome) : Type 0 where
  pub extends : IsExtended s o.session
  pub effects :
      (u : MessageType) (p : List ℕ)
      → posted u p o.effects ≡ true
      → counted u p own o.session ≡ true
  pub settled : due → IsHalfSettled count o.session

pub IsExtended-votes :
    (s s' : Session)
    → IsExtended s s'
    → (t : MessageType) (p : List ℕ) (k : ℕ) → counted t p k s ≡ true
    → counted t p k s' ≡ true
unfolding counted
IsExtended-votes s s' h send p k x = refl
IsExtended-votes s s' h echo p k x = h.echo_votes p k x
IsExtended-votes s s' h ready p k x = h.ready_votes p k x

pub IsExtended-refl : (s : Session) → IsExtended s s
IsExtended-refl s = record {
  echo_votes = λ p k h. h;
  ready_votes = λ p k h. h;
  t = refl;
  echo_target = refl;
}

pub IsExtended-trans : (a b c : Session) → IsExtended a b → IsExtended b c → IsExtended a c
IsExtended-trans a b c h g = record {
  echo_votes = λ p k x. g.echo_votes p k (h.echo_votes p k x);
  ready_votes = λ p k x. g.ready_votes p k (h.ready_votes p k x);
  t = g.t ∙ h.t;
  echo_target = g.echo_target ∙ h.echo_target;
}

pub nothing_posted : (t : MessageType) (p : List ℕ) → posted t p [] ≡ false
unfolding posted any
nothing_posted t p = refl

pub add_echo-IsExtended :
    (s : Session) (p : List ℕ) (k : ℕ) → IsExtended s (record s { echoes = add_vote p k s.echoes })
unfolding counted
add_echo-IsExtended s p k = record {
  echo_votes = λ q j h. ground (arith, contains-add_vote p q k j s.echoes);
  ready_votes = λ q j h. h;
  t = refl;
  echo_target = refl;
}

pub add_ready-IsExtended :
    (s : Session) (p : List ℕ) (k : ℕ)
    → IsExtended s (record s { readies = add_vote p k s.readies })
unfolding counted
add_ready-IsExtended s p k = record {
  echo_votes = λ q j h. h;
  ready_votes = λ q j h. ground (arith, contains-add_vote p q k j s.readies);
  t = refl;
  echo_target = refl;
}

pub ready_sent-IsExtended : (s : Session) → IsExtended s (record s { ready_sent = true })
unfolding counted
ready_sent-IsExtended s = record {
  echo_votes = λ q j h. ground arith;
  ready_votes = λ q j h. h;
  t = refl;
  echo_target = refl;
}

pub delivered-IsExtended : (s : Session) → IsExtended s (record s { delivered = true })
unfolding counted
delivered-IsExtended s = record {
  echo_votes = λ q j h. h;
  ready_votes = λ q j h. ground arith;
  t = refl;
  echo_target = refl;
}
