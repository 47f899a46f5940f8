-- ===== src/Node/Session/Moves.antt =====
-- What a session does in single atomic steps, between which another thread may run, with the log of
-- the effects of its node.
use reliable_broadcast.Prelude.{
  ℕ, ◌*◌, ◌%◌, ◌^◌, ◌≤◌, ◌<◌, ◌≡◌, refl, Bool, true, false, ◌&&◌, ◌||◌, List, [], ◌∷◌, ◌++◌, length,
  any, ◌==◌, nat_eq, list_eq, arith, ◌⊎◌,
}
use reliable_broadcast.Client.Message.{MessageType, send, echo, ready}
use reliable_broadcast.Node.Parse.{NodeMessage}
use reliable_broadcast.Node.Session.{Session, Effect, senders, add_vote, broadcast, deliver}

pub record Local : Type 0 where
  pub session : Session
  pub log : List Effect

abbrev pub same_type : MessageType → MessageType → Bool
same_type send send = true
same_type echo echo = true
same_type ready ready = true
same_type _ _ = false

pub same_type_sound : (t u : MessageType) → same_type t u ≡ true → t ≡ u
same_type_sound send send h = refl
same_type_sound echo echo h = refl
same_type_sound ready ready h = refl
same_type_sound send echo h = absurd (cc)
same_type_sound send ready h = absurd (cc)
same_type_sound echo send h = absurd (cc)
same_type_sound echo ready h = absurd (cc)
same_type_sound ready send h = absurd (cc)
same_type_sound ready echo h = absurd (cc)

pub same_type_refl : (t : MessageType) → same_type t t ≡ true
same_type_refl send = refl
same_type_refl echo = refl
same_type_refl ready = refl

-- The effect posts a message of this type with these data.
abbrev pub is_post : MessageType → List ℕ → Effect → Bool
is_post t p (broadcast m) = same_type m.message_type t && m.payload == p
is_post t p (deliver m) = false

abbrev pub is_delivery : List ℕ → Effect → Bool
is_delivery p (broadcast m) = false
is_delivery p (deliver m) = m.payload == p

unfoldable pub posted : MessageType → List ℕ → List Effect → Bool
posted t p log = any (is_post t p) log

unfoldable pub delivers : List ℕ → List Effect → Bool
delivers p log = any (is_delivery p) log

-- The vote is that of the message taken in, or this node has posted it.
unfoldable pub backed : ℕ → NodeMessage → MessageType → ℕ → List Effect → Bool
unfolding posted
backed own m t k log =
    (same_type m.message_type t && k == m.node_id) || (k == own && posted t m.payload log)

-- One step of the node `own` that works on the message `m`.
pub data Move (own : ℕ) (m : NodeMessage) (l : Local) : Local → Type 0 where
  post_echo :
      (e : NodeMessage)
      → m.message_type ≡ send
      → e.message_type ≡ echo
      → e.payload ≡ m.payload
      → Move own m l (record l { log = l.log ++ broadcast e ∷ [] })
  count_echo :
      (k : ℕ)
      → backed own m echo k l.log ≡ true
      → Move own m l (record l {
        session = record (l.session) { echoes = add_vote m.payload k l.session.echoes };
      })
  count_ready :
      (k : ℕ)
      → backed own m ready k l.log ≡ true
      → Move own m l (record l {
        session = record (l.session) { readies = add_vote m.payload k l.session.readies };
      })
  post_ready :
      (e : NodeMessage)
      → e.message_type ≡ ready
      → e.payload ≡ m.payload
      → l.session.ready_sent ≡ false
      → (l.session.echo_target ≤ length (senders m.payload l.session.echoes))
        ⊎ (l.session.t < length (senders m.payload l.session.readies))
      → Move own m l (record {
        session = record (l.session) { ready_sent = true };
        log = l.log ++ broadcast e ∷ [];
      })
  hand_over :
      (e : NodeMessage)
      → e.payload ≡ m.payload
      → l.session.delivered ≡ false
      → (2 * l.session.t) % 2 ^ 64 < length (senders m.payload l.session.readies)
      → Move own m l (record {
        session = record (l.session) { delivered = true };
        log = l.log ++ deliver e ∷ [];
      })

-- Any number of steps.
pub data Moves (own : ℕ) (m : NodeMessage) (l : Local) : Local → Type 0 where
  stay : Moves own m l l
  then : {a b : Local} → Moves own m l a → Move own m a b → Moves own m l b

pub posted-append :
    (t : MessageType) (p : List ℕ) (xs ys : List Effect)
    → posted t p (xs ++ ys) ≡ (posted t p xs || posted t p ys)
unfolding posted any
posted-append t p [] ys = refl
posted-append t p (x ∷ xs) ys = ground (arith, posted-append t p xs ys)

pub delivers-append :
    (p : List ℕ) (xs ys : List Effect) → delivers p (xs ++ ys) ≡ (delivers p xs || delivers p ys)
unfolding delivers any
delivers-append p [] ys = refl
delivers-append p (x ∷ xs) ys = ground (arith, delivers-append p xs ys)
