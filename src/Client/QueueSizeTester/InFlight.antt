-- ===== src/Client/QueueSizeTester/InFlight.antt =====
-- The queue sizes that the tester reports are the numbers of messages in flight.
use mathlib.Core.List.{append-nil}
use reliable_broadcast.Prelude.{
  ℕ, ◌+◌, ◌≤◌, ◌≡◌, refl, ap, sym, ◌∙◌, none, some, List, [], ◌∷◌, ◌++◌, arith, nat_eq, list_eq,
  length, Text, Option-cases, inl, inr,
}
use reliable_broadcast.Prelude.Int.{ℤ, pos, negsuc, ◌+ℤ◌}
use reliable_broadcast.Result.{Result, ok, raise}
use reliable_broadcast.Dict.{
  Dict, lookup, insert, length-insert_absent, length-insert_present, length-remove,
}
use reliable_broadcast.Client.Utf8.{decode}
use reliable_broadcast.Client.Delivery.{Messages, Report, completed, deliver}
use reliable_broadcast.Client.Delivery.Accounts.{completes}
use reliable_broadcast.Client.QueueSizeTester.{
  deliver_message, send_message, event_value, QueueEvent, QueueSizeTester, append_event, on_send,
  on_delivery, on_stop_sending, add_message, queue_sizes, record_delivery, record_completion,
}

-- The messages that are waited for, on all chains.
unfoldable pub in_flight : Dict ℕ Messages → ℕ
in_flight [] = 0
in_flight ((mchain, messages) ∷ d) = length messages + in_flight d

in_flight-insert :
    (k : ℕ) (before messages : Messages) (d : Dict ℕ Messages)
    → lookup k d ≡ some before
    → in_flight (insert k messages d) + length before ≡ in_flight d + length messages
unfolding in_flight lookup insert
in_flight-insert k before messages [] h = cc
in_flight-insert k before messages ((j, ms) ∷ d) h =
    ground (arith, in_flight-insert k before messages d)

pub in_flight-insert_nil : (k : ℕ) (d : Dict ℕ Messages) → in_flight (insert k [] d) ≤ in_flight d
unfolding in_flight insert
in_flight-insert_nil k [] = omega arith
in_flight-insert_nil k ((j, ms) ∷ d) = ground (arith, in_flight-insert_nil k d)

-- A delivery takes a message out exactly when it reports it as complete.
length-deliver :
    (n : ℕ) (ms : Messages) (m : Text) (node : ℕ)
    → length (deliver n ms m node).0 + completes (deliver n ms m node).1 ≡ length ms
unfolding deliver
length-deliver n ms m node = elim (Option-cases (lookup m ms)) [
  | inl absent ↦ rw (absent, deliver) (omega arith)
  | inr (nodes, e) ↦
      ground
        (arith, length-remove m nodes ms e, length-insert_present m (nodes ++ node ∷ []) nodes ms e)
]

pub +ℤ_zero : (a : ℤ) → a +ℤ pos 0 ≡ a
unfolding ◌+ℤ◌
+ℤ_zero a = ground arith

count_up : (n : ℕ) → pos n +ℤ pos 1 ≡ pos (n + 1)
unfolding ◌+ℤ◌
count_up n = ground arith

count_down : (n : ℕ) → pos (n + 1) +ℤ negsuc 0 ≡ pos n
unfolding ◌+ℤ◌
count_down n = ground arith

module _ {Time : Type 0} where
  -- The queue size after some events.
  unfoldable pub queue_end : ℤ → List (QueueEvent Time) → ℤ
  queue_end size [] = size
  queue_end size (event ∷ events) = queue_end (size +ℤ event_value event.event_type) events

  queue_sizes-append :
      (size : ℤ) (events : List (QueueEvent Time)) (event : QueueEvent Time)
      → queue_sizes size (events ++ event ∷ [])
        ≡ queue_sizes size events ++ queue_sizes (queue_end size events) (event ∷ [])
  unfolding queue_sizes queue_end
  queue_sizes-append size [] event = refl
  queue_sizes-append size (e ∷ events) event =
      ground
        (arith, queue_sizes-append (size +ℤ event_value e.event_type) events event, +ℤ_zero size)

  queue_end-append :
      (size : ℤ) (events : List (QueueEvent Time)) (event : QueueEvent Time)
      → queue_end size (events ++ event ∷ [])
        ≡ queue_end size events +ℤ event_value event.event_type
  unfolding queue_end
  queue_end-append size [] event = refl
  queue_end-append size (e ∷ events) event =
      queue_end-append (size +ℤ event_value e.event_type) events event

  -- The size at the end of the events is the number of messages in flight.
  abbrev pub IsBalanced : QueueSizeTester Time → Type 0
  IsBalanced t = queue_end (pos 0) t.events ≡ pos (in_flight t.messages)

  -- From one state to the next the sizes get one entry more, or none.
  pub record Extends (t t' : QueueSizeTester Time) (entries : List ℤ) : Type 0 where
    pub balanced : IsBalanced t'
    pub sizes : queue_sizes (pos 0) t'.events ≡ queue_sizes (pos 0) t.events ++ entries

  module _ (t : QueueSizeTester Time) (balanced : IsBalanced t) (messages : Dict ℕ Messages)
      (now : Time) where
    grow :
        in_flight messages ≡ in_flight t.messages + 1
        → Extends t
            (append_event (record t { messages = messages }) send_message now)
            (pos (in_flight messages) ∷ [])
    unfolding append_event
    grow h =
        let up : queue_end (pos 0) t.events +ℤ pos 1 ≡ pos (in_flight messages) =
          rw (balanced, h) (count_up (in_flight t.messages)) in
        record {
          balanced = queue_end-append (pos 0) t.events _ ∙ up;
          sizes = queue_sizes-append (pos 0) t.events _ ∙ (unfold queue_sizes in rw up);
        }

    shrink :
        in_flight messages + 1 ≡ in_flight t.messages
        → Extends t
            (append_event (record t { messages = messages }) deliver_message now)
            (pos (in_flight messages) ∷ [])
    unfolding append_event
    shrink h =
        let down : queue_end (pos 0) t.events +ℤ negsuc 0 ≡ pos (in_flight messages) =
          rw (balanced, ← h) (count_down (in_flight messages)) in
        record {
          balanced = queue_end-append (pos 0) t.events _ ∙ down;
          sizes = queue_sizes-append (pos 0) t.events _ ∙ (unfold queue_sizes in rw down);
        }

    keep :
        in_flight messages ≡ in_flight t.messages → Extends t (record t { messages = messages }) []
    keep h = record { balanced = balanced ∙ ap pos (sym h); sizes = sym (append-nil _) }

  module _ (t : QueueSizeTester Time) (balanced : IsBalanced t) (now : Time) where
    nothing : Extends t t []
    nothing = record { balanced = balanced; sizes = sym (append-nil _) }

    pub stop_Extends : Extends t (on_stop_sending t now) []
    unfolding on_stop_sending queue_sizes
    stop_Extends = record {
      balanced = queue_end-append (pos 0) t.events _ ∙ +ℤ_zero _ ∙ balanced;
      sizes = queue_sizes-append (pos 0) t.events _;
    }

  -- The entries that one call should add: the messages in flight after it, if it sent or completed.
  unfoldable pub entries_of : QueueSizeTester Time → Result (Unit {0}) → List ℤ
  entries_of t (ok _) = pos (in_flight t.messages) ∷ []
  entries_of t (raise _) = []

  unfoldable pub entries_done : QueueSizeTester Time → Result Report → List ℤ
  entries_done t (ok completed) = pos (in_flight t.messages) ∷ []
  entries_done t _ = []

  -- The message of a call of `on_send` is not waited for already.
  abbrev pub IsNew : QueueSizeTester Time → ℕ → List ℕ → Type 0
  IsNew t mchain bytes =
      (m : Text)
      → decode bytes ≡ some m
      → (ms : Messages) → lookup mchain t.messages ≡ some ms
      → lookup m ms ≡ none

  module _ (t : QueueSizeTester Time) (balanced : IsBalanced t) (mchain : ℕ) (bytes : List ℕ)
      (now : Time) where
    pub on_send-Extends :
        IsNew t mchain bytes
        → (let (t', r) = on_send t mchain bytes now in Extends t t' (entries_of t' r))
    unfolding on_send entries_of
    on_send-Extends new = elim (Option-cases (decode bytes)) [
      | inl garbage ↦ rw (garbage, on_send) (nothing t balanced now)
      | inr (m, e) ↦ elim (Option-cases (lookup mchain t.messages)) [
        | inl unknown ↦ rw (e, unknown, on_send, add_message) (nothing t balanced now)
        | inr (ms, known) ↦
            rw (e, known, on_send, add_message)
              (grow t balanced (insert mchain (insert m [] ms) t.messages) now (
                omega (
                  arith,
                  in_flight-insert mchain ms (insert m [] ms) t.messages known,
                  length-insert_absent m [] ms (new m e ms known),
                )))
      ]
    ]

    record_completion-Extends :
        (d : Dict ℕ Messages) (report : Report)
        → in_flight d + completes report ≡ in_flight t.messages
        → (let (t', r) = record_completion (record t { messages = d }) report now in
            Extends t t' (entries_done t' r))
    unfolding record_completion entries_done
    record_completion-Extends d completed h = shrink t balanced d now h
    record_completion-Extends d _ h = keep t balanced d now (omega arith)

    pub on_delivery-Extends :
        (node : ℕ)
        → (let (t', r) = on_delivery t mchain node bytes now in Extends t t' (entries_done t' r))
    unfolding on_delivery entries_done
    on_delivery-Extends node = elim (Option-cases (decode bytes)) [
      | inl garbage ↦ rw (garbage, on_delivery) (nothing t balanced now)
      | inr (m, e) ↦ elim (Option-cases (lookup mchain t.messages)) [
        | inl unknown ↦ rw (e, unknown, on_delivery, record_delivery) (nothing t balanced now)
        | inr (ms, known) ↦
            rw (e, known, on_delivery, record_delivery)
              (record_completion-Extends
                (insert mchain (deliver t.node_count ms m node).0 t.messages)
                (deliver t.node_count ms m node).1
                (omega (
                  arith,
                  in_flight-insert mchain ms (deliver t.node_count ms m node).0 t.messages known,
                  length-deliver t.node_count ms m node,
                )))
      ]
    ]
