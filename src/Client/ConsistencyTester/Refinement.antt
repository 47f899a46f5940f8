-- ===== src/Client/ConsistencyTester/Refinement.antt =====
-- The tester keeps, for each of its chains, the table and the counters of that chain's history.
use reliable_broadcast.Prelude.{
  ℕ, ◌+◌, ◌≡◌, refl, ap, ◌∙◌, false, Option, none, some, List, [], ◌∷◌, arith, ◌==◌, nat_eq,
  nat_beq_iff, list_eq, if◌then◌else◌, length, length-append, Text, Bool-cases, inl, inr,
}
use reliable_broadcast.Result.{ok, raise, unicode_decode_error}
use reliable_broadcast.Dict.{Dict, lookup, insert, lookup-insert, lookup-insert_self}
use reliable_broadcast.Client.Utf8.{decode}
use reliable_broadcast.Client.Delivery.{deliver, Report, completed}
use reliable_broadcast.Client.Delivery.History.{sent, delivered, History, sends}
use reliable_broadcast.Client.Delivery.Accounts.{completes, messages_after, completions}
use reliable_broadcast.Client.ConsistencyTester.{
  ConsistencyTester, on_send, on_delivery, add_good, record_delivery, add_message,
}

-- What the load generator and the listener call.
pub data Call : Type 0 where
  send : ℕ → List ℕ → Call
  delivery : ℕ → ℕ → List ℕ → Call

unfoldable pub apply : ConsistencyTester → Call → ConsistencyTester
apply t (send mchain bytes) = (on_send t mchain bytes).0
apply t (delivery mchain node_index bytes) = (on_delivery t mchain node_index bytes).0

-- The tester after some calls, the latest first; an exception leaves the state that it met.
unfoldable pub after : ConsistencyTester → List Call → ConsistencyTester
after t [] = t
after t (call ∷ calls) = apply (after t calls) call

abbrev sent_bytes : Option Text → History → History
sent_bytes none h = h
sent_bytes (some m) h = sent m ∷ h

abbrev delivered_bytes : ℕ → Option Text → History → History
delivered_bytes node none h = h
delivered_bytes node (some m) h = delivered node m ∷ h

-- The history of one chain: the calls for it whose data is text.
unfoldable pub history : ℕ → List Call → History
history k [] = []
history k (send mchain bytes ∷ calls) =
    let h = history k calls in if mchain == k then sent_bytes (decode bytes) h else h
history k (delivery mchain node_index bytes ∷ calls) =
    let h = history k calls in
    if mchain == k then delivered_bytes node_index (decode bytes) h else h

-- The data of every call of `on_send` is text, as the load generator's is.
abbrev pub SendsText : List Call → Type 0
SendsText [] = Unit
SendsText (send mchain bytes ∷ calls) = ((m : Text) × (decode bytes ≡ some m)) × SendsText calls
SendsText (delivery mchain node_index bytes ∷ calls) = SendsText calls

-- The tester's entries for one chain stand for a history.
pub record Tracks (t : ConsistencyTester) (k : ℕ) (h : History) : Type 0 where
  pub messages : lookup k t.messages ≡ some (messages_after t.node_count h)
  pub total : lookup k t.total_messages_count ≡ some (length (sends h))
  pub good : lookup k t.good ≡ some (completions t.node_count h)

abbrev good_after : Report → ℕ → ℕ → Dict ℕ ℕ → Dict ℕ ℕ
good_after completed k good d = insert k (good + 1) d
good_after _ k good d = d

add_good_known :
    (t : ConsistencyTester) (k : ℕ) (report : Report) (good : ℕ)
    → lookup k t.good ≡ some good
    → (add_good t k report).0 ≡ record t { good = good_after report k good t.good }
unfolding add_good
add_good_known t k completed good e = rw (e, add_good)
add_good_known t k _ good e = refl

lookup-good_after :
    (report : Report) (k good : ℕ) (d : Dict ℕ ℕ)
    → lookup k d ≡ some good
    → lookup k (good_after report k good d) ≡ some (good + completes report)
lookup-good_after completed k good d e = lookup-insert_self k (good + 1) d
lookup-good_after _ k good d e = e ∙ ap some (omega arith)

module _ (t : ConsistencyTester) (k : ℕ) (h : History) (tracks : Tracks t k h) where
  on_send_known :
      (m : Text) (bytes : List ℕ)
      → decode bytes ≡ some m
      → on_send t k bytes ≡ (
        record t {
          messages = insert k (insert m [] (messages_after t.node_count h)) t.messages;
          total_messages_count = insert k (length (sends h) + 1) t.total_messages_count;
        },
        ok tt,
      )
  unfolding on_send
  on_send_known m bytes e = rw (tracks.total, e, tracks.messages, on_send, add_message)

  on_send_here :
      (m : Text) (bytes : List ℕ)
      → decode bytes ≡ some m
      → Tracks (on_send t k bytes).0 k (sent m ∷ h)
  unfolding messages_after sends completions
  on_send_here m bytes e = rw (on_send_known m bytes e) (record {
    messages = lookup-insert_self k _ t.messages;
    total =
        lookup-insert_self k _ t.total_messages_count
        ∙ ap some (omega (arith, length-append (sends h) (m ∷ [])));
    good = tracks.good;
  })

  on_send_there :
      (mchain : ℕ) (bytes : List ℕ) → (mchain == k) ≡ false → Tracks (on_send t mchain bytes).0 k h
  unfolding on_send
  on_send_there mchain bytes other = record {
    messages = grind (arith, lookup-insert);
    total = grind (arith, lookup-insert);
    good = grind (arith, lookup-insert);
  }

  on_delivery_known :
      (m : Text) (node : ℕ) (bytes : List ℕ)
      → decode bytes ≡ some m
      → (on_delivery t k node bytes).0 ≡ (
          let (ms, report) = deliver t.node_count (messages_after t.node_count h) m node in
          record t {
            messages = insert k ms t.messages;
            good = good_after report k (completions t.node_count h) t.good;
          })
  unfolding on_delivery
  on_delivery_known m node bytes e =
      rw (e, tracks.messages, on_delivery, record_delivery) (add_good_known _ k _ _ tracks.good)

  on_delivery_here :
      (m : Text) (node : ℕ) (bytes : List ℕ)
      → decode bytes ≡ some m
      → Tracks (on_delivery t k node bytes).0 k (delivered node m ∷ h)
  unfolding messages_after sends completions
  on_delivery_here m node bytes e = rw (on_delivery_known m node bytes e) (record {
    messages = lookup-insert_self k _ t.messages;
    total = tracks.total;
    good = lookup-good_after _ k _ t.good tracks.good;
  })

  on_delivery_there :
      (mchain node : ℕ) (bytes : List ℕ)
      → (mchain == k) ≡ false
      → Tracks (on_delivery t mchain node bytes).0 k h
  unfolding on_delivery
  on_delivery_there mchain node bytes other = record {
    messages = grind (arith, lookup-insert);
    total = grind (arith, lookup-insert);
    good = grind (arith, lookup-insert);
  }

module _ (t : ConsistencyTester) where
  unchanged_node_count : (call : Call) → (apply t call).node_count ≡ t.node_count
  unfolding apply on_send on_delivery
  unchanged_node_count (send mchain bytes) = grind arith
  unchanged_node_count (delivery mchain node bytes) = grind arith

  unchanged_mchains : (call : Call) → (apply t call).mchains ≡ t.mchains
  unfolding apply on_send on_delivery
  unchanged_mchains (send mchain bytes) = grind arith
  unchanged_mchains (delivery mchain node bytes) = grind arith

  on_delivery_garbage :
      (mchain node : ℕ) (bytes : List ℕ)
      → decode bytes ≡ none
      → on_delivery t mchain node bytes ≡ (t, raise unicode_decode_error)
  unfolding on_delivery
  on_delivery_garbage mchain node bytes e = rw (e, on_delivery)

module _ (t : ConsistencyTester) where
  pub after-node_count : (calls : List Call) → (after t calls).node_count ≡ t.node_count
  unfolding after
  after-node_count [] = refl
  after-node_count (call ∷ calls) =
      unchanged_node_count (after t calls) call ∙ after-node_count calls

  pub after-mchains : (calls : List Call) → (after t calls).mchains ≡ t.mchains
  unfolding after
  after-mchains [] = refl
  after-mchains (call ∷ calls) = unchanged_mchains (after t calls) call ∙ after-mchains calls

delivery_here :
    (t : ConsistencyTester) (k : ℕ) (h : History)
    → Tracks t k h
    → (node : ℕ) (bytes : List ℕ) (text : Option Text) → decode bytes ≡ text
    → Tracks (on_delivery t k node bytes).0 k (delivered_bytes node text h)
delivery_here t k h tracks node bytes none e = rw (on_delivery_garbage t k node bytes e) tracks
delivery_here t k h tracks node bytes (some m) e = on_delivery_here t k h tracks m node bytes e

module _ (t : ConsistencyTester) (k : ℕ) (empty : Tracks t k []) where
  -- Calls for other chains leave a chain's entries alone, and calls for it extend its history.
  pub after-Tracks :
      (calls : List Call) → SendsText calls → Tracks (after t calls) k (history k calls)
  unfolding after history apply
  after-Tracks [] text = empty
  after-Tracks (send mchain bytes ∷ calls) text = elim (Bool-cases (mchain == k)) [
    | inl here ↦
        rw (here, (nat_beq_iff mchain k).0 here, text.0.1)
          (on_send_here (after t calls) k (history k calls) (after-Tracks calls text.1) text.0.0
            bytes text.0.1)
    | inr there ↦ rw there (
        on_send_there (after t calls) k (history k calls) (after-Tracks calls text.1) mchain bytes
          there)
  ]
  after-Tracks (delivery mchain node bytes ∷ calls) text = elim (Bool-cases (mchain == k)) [
    | inl here ↦
        rw (here, (nat_beq_iff mchain k).0 here)
          (delivery_here (after t calls) k (history k calls) (after-Tracks calls text) node bytes
            (decode bytes) refl)
    | inr there ↦ rw there (
        on_delivery_there (after t calls) k (history k calls) (after-Tracks calls text) mchain node
          bytes there)
  ]
