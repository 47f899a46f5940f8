-- ===== src/Node/Session/Total.antt =====
-- The nested calls of src/session.cpp end: a SEND leads to an ECHO, this to a READY, and this to no more.
use reliable_broadcast.Prelude.{
  ℕ, ◌≤◌, ◌≡◌, refl, zero, suc, Bool, true, false, not, ◌&&◌, ltb, leb, Option, some, [], length,
  if◌then◌else◌, arith, ap, ◌∙◌,
}
use reliable_broadcast.Client.Message.{MessageType, send, echo, ready}
use reliable_broadcast.Node.Parse.{NodeMessage}
use reliable_broadcast.Node.Session.{
  Session, Outcome, senders, add_vote, process, dispatch, broadcast_as, send_ready, on_echo,
  amplify, deliver_after, on_ready, Votes, prepend, quiet,
}

-- From this fuel on, there is an outcome, and it is the same.
abbrev pub Ends : (enough own : ℕ) → NodeMessage → Session → Type 0
Ends enough own m s = (o : Outcome) × ((fuel : ℕ) → enough ≤ fuel → process fuel own m s ≡ some o)

-- The same of a part of a handler, with what its calls are given.
abbrev PartEnds :
    (enough own : ℕ) → ((NodeMessage → Session → Option Outcome) → Option Outcome) → Type 0
PartEnds enough own part =
    (o : Outcome) × ((fuel : ℕ) → enough ≤ fuel → part (process fuel own) ≡ some o)

module _ (enough own : ℕ) where
  quiet-PartEnds : (m : NodeMessage) (s : Session) → PartEnds enough own (λ again. quiet s m)
  quiet-PartEnds m s = (record { session = s; message = m; effects = [] }, λ fuel le. refl)

  if-PartEnds :
      (b : Bool) (x y : (NodeMessage → Session → Option Outcome) → Option Outcome)
      → (b ≡ true → PartEnds enough own x)
      → (b ≡ false → PartEnds enough own y)
      → PartEnds enough own (λ again. if b then x again else y again)
  if-PartEnds true x y h g = h refl
  if-PartEnds false x y h g = g refl

  Ends-dispatch :
      (t : MessageType) (m : NodeMessage) (s : Session)
      → m.message_type ≡ t
      → PartEnds enough own (λ again. dispatch own again t m s)
      → Ends (suc enough) own m s
  unfolding process
  Ends-dispatch t m s kind h = (
    h.0,
    λ fuel le.
        elim fuel as (λ k. suc enough ≤ k → process k own m s ≡ some h.0) [
          | zero ↦ λ none. absurd (omega arith)
          | suc fuel ↦ λ more.
              ap (λ t'. dispatch own (process fuel own) t' m s) kind ∙ h.1 fuel (omega arith)
        ]
          le,
  )

module _ (enough own : ℕ) (m : NodeMessage) where
  broadcast_as-Ends :
      (t : MessageType) (s : Session)
      → Ends enough own (record m { node_id = own; message_type = t }) s
      → PartEnds enough own (λ again. broadcast_as own again t m s)
  unfolding broadcast_as
  broadcast_as-Ends t s h = (_, λ fuel le. ap (prepend _) (h.1 fuel le))

  send_ready-Ends :
      (s : Session)
      → Ends enough own
          (record m { node_id = own; message_type = ready })
          (record s { ready_sent = true })
      → PartEnds enough own (λ again. send_ready own again m s)
  unfolding send_ready
  send_ready-Ends s h = broadcast_as-Ends ready (record s { ready_sent = true }) h

  amplify-Ends :
      (count : ℕ) (s : Session)
      → (s.ready_sent ≡ false
          → Ends enough own
              (record m { node_id = own; message_type = ready })
              (record s { ready_sent = true }))
      → PartEnds enough own (λ again. amplify own again count m s)
  unfolding amplify
  amplify-Ends count s h =
      if-PartEnds enough own (not s.ready_sent && ltb s.t count) (λ again. send_ready own again m s)
        (λ again. quiet s m) (λ e. send_ready-Ends s (h (ground arith)))
        (λ e. quiet-PartEnds enough own m s)

  on_ready-Ends :
      (s : Session)
      → (s.ready_sent ≡ false
          → (readies : Votes)
          → Ends enough own
              (record m { node_id = own; message_type = ready })
              (record s { readies = readies; ready_sent = true }))
      → PartEnds enough own (λ again. on_ready own again m s)
  unfolding on_ready
  on_ready-Ends s h =
      let counted = record s { readies = add_vote m.payload m.node_id s.readies } in
      let count = length (senders m.payload counted.readies) in
      let amplified = amplify-Ends count counted (λ e. h e counted.readies) in
      if-PartEnds enough own s.delivered (λ again. quiet s m)
        (λ again. deliver_after own again count (amplify own again count m counted))
        (λ e. quiet-PartEnds enough own m s)
        (λ e. (_, λ fuel le. ap (deliver_after own (process fuel own) count) (amplified.1 fuel le)))

  on_echo-Ends :
      (s : Session)
      → ((echoes : Votes)
          → Ends enough own
              (record m { node_id = own; message_type = ready })
              (record s { echoes = echoes; ready_sent = true }))
      → PartEnds enough own (λ again. on_echo own again m s)
  unfolding on_echo
  on_echo-Ends s h =
      let counted = record s { echoes = add_vote m.payload m.node_id s.echoes } in
      let full = leb s.echo_target (length (senders m.payload counted.echoes)) in
      if-PartEnds enough own s.ready_sent (λ again. quiet s m)
        (λ again. if full then send_ready own again m counted else quiet counted m)
        (λ e. quiet-PartEnds enough own m s)
        (λ e.
          if-PartEnds enough own full (λ again. send_ready own again m counted)
            (λ again. quiet counted m) (λ g. send_ready-Ends counted (h counted.echoes))
            (λ g. quiet-PartEnds enough own m counted))

-- A READY of a session that has sent its own makes no call.
last_ready-Ends :
    (own : ℕ) (m : NodeMessage) (s : Session)
    → m.message_type ≡ ready
    → s.ready_sent ≡ true
    → Ends 1 own m s
unfolding dispatch
last_ready-Ends own m s kind h =
    Ends-dispatch 0 own ready m s kind (on_ready-Ends 0 own m s (λ e. absurd (cc)))

ready-Ends : (own : ℕ) (m : NodeMessage) (s : Session) → m.message_type ≡ ready → Ends 2 own m s
unfolding dispatch
ready-Ends own m s kind =
    Ends-dispatch 1 own ready m s kind
      (on_ready-Ends 1 own m s (λ e readies. last_ready-Ends own _ _ refl refl))

echo-Ends : (own : ℕ) (m : NodeMessage) (s : Session) → m.message_type ≡ echo → Ends 2 own m s
unfolding dispatch
echo-Ends own m s kind =
    Ends-dispatch 1 own echo m s kind
      (on_echo-Ends 1 own m s (λ echoes. last_ready-Ends own _ _ refl refl))

send-Ends : (own : ℕ) (m : NodeMessage) (s : Session) → m.message_type ≡ send → Ends 3 own m s
unfolding dispatch
send-Ends own m s kind =
    Ends-dispatch 2 own send m s kind (broadcast_as-Ends 2 own m echo s (echo-Ends own _ s refl))

pub process-Ends : (own : ℕ) (m : NodeMessage) (s : Session) → Ends 3 own m s
process-Ends own m s = go m.message_type refl
  where
    weaken : {k : ℕ} → k ≤ 3 → Ends k own m s → Ends 3 own m s
    weaken le h = (h.0, λ fuel more. h.1 fuel (omega arith))

    go : (t : MessageType) → m.message_type ≡ t → Ends 3 own m s
    go send kind = send-Ends own m s kind
    go echo kind = weaken (omega arith) (echo-Ends own m s kind)
    go ready kind = weaken (omega arith) (ready-Ends own m s kind)

-- The calls of `processMessage` that broadcasts nest end for every message and in every state, when
-- what it asks for outside, the posting of a message and its delivery to Redis, returns: three
-- nested calls are enough, and more fuel does not change the outcome.
pub process_ends :
    (own : ℕ) (m : NodeMessage) (s : Session) (fuel : ℕ)
    → 3 ≤ fuel
    → (o : Outcome) × (process fuel own m s ≡ some o) × (process 3 own m s ≡ some o)
process_ends own m s fuel le =
    let ended = process-Ends own m s in (ended.0, ended.1 fuel le, ended.1 3 (omega arith))
