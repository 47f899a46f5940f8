-- ===== src/Client/QueueSizeTester.antt =====
-- client/queue_size_tester.py: a tester that records how many messages are in flight over time.
-- `Time` is what `perf_counter` returns and `minus` its subtraction; each reading is an argument of
-- the operation that takes it.
pub mod InFlight
pub mod Runs
use reliable_broadcast.Prelude.{ℕ, Option, none, some, List, [], ◌∷◌, ◌++◌, nat_eq, list_eq, Text}
use reliable_broadcast.Prelude.Int.{ℤ, pos, negsuc, ◌+ℤ◌}
use reliable_broadcast.Result.{Result, ok, raise, key_error, unicode_decode_error}
use reliable_broadcast.Dict.{Dict, lookup, insert}
use reliable_broadcast.Client.Utf8.{decode}
use reliable_broadcast.Client.Delivery.{
  Messages, Report, not_sent, repeated, recorded, completed, deliver,
}

pub data EventType : Type 0 where
  deliver_message stop_sending send_message : EventType

-- The value of the `IntEnum`.
abbrev pub event_value : EventType → ℤ
event_value deliver_message = negsuc 0
event_value stop_sending = pos 0
event_value send_message = pos 1

pub record QueueEvent (Time : Type 0) : Type 0 where
  pub time : Time
  pub event_type : EventType

pub record QueueSizeTester (Time : Type 0) : Type 0 where
  pub mchains : List ℕ
  pub node_count : ℕ
  pub messages : Dict ℕ Messages
  pub events : List (QueueEvent Time)
  pub start_time : Time

-- `{mchain: dict() for mchain in self.mchains}`
unfoldable pub empty_messages : List ℕ → Dict ℕ Messages → Dict ℕ Messages
empty_messages [] d = d
empty_messages (mchain ∷ mchains) d = empty_messages mchains (insert mchain [] d)

module _ {Time : Type 0} where
  unfoldable pub on_test_start : QueueSizeTester Time → Time → QueueSizeTester Time
  unfolding empty_messages
  on_test_start t now = record t {
    messages = empty_messages t.mchains [];
    events = [];
    start_time = now;
  }

  -- `self.events.append(Event(event_type))`
  unfoldable pub append_event : QueueSizeTester Time → EventType → Time → QueueSizeTester Time
  append_event t event_type now = record t {
    events = t.events ++ record { time = now; event_type = event_type } ∷ [];
  }

  unfoldable pub add_message :
      QueueSizeTester Time → ℕ → Option Text → Time → QueueSizeTester Time × Result (Unit {0})
  unfolding append_event
  add_message t mchain none now = (t, raise unicode_decode_error)
  add_message t mchain (some message) now = elim (lookup mchain t.messages) [
    | none ↦ (t, raise key_error)
    | some messages ↦ (
      append_event (record t { messages = insert mchain (insert message [] messages) t.messages })
          send_message now,
      ok tt,
    )
  ]

  unfoldable pub on_send :
      QueueSizeTester Time → ℕ → List ℕ → Time → QueueSizeTester Time × Result (Unit {0})
  unfolding add_message
  on_send t mchain bytes now = add_message t mchain (decode bytes) now

  unfoldable pub record_completion :
      QueueSizeTester Time → Report → Time → QueueSizeTester Time × Result Report
  unfolding append_event
  record_completion t completed now = (append_event t deliver_message now, ok completed)
  record_completion t report now = (t, ok report)

  unfoldable pub record_delivery :
      QueueSizeTester Time → ℕ → ℕ → Option Text → Time → QueueSizeTester Time × Result Report
  unfolding record_completion
  record_delivery t mchain node_index none now = (t, raise unicode_decode_error)
  record_delivery t mchain node_index (some message) now = elim (lookup mchain t.messages) [
    | none ↦ (t, raise key_error)
    | some messages ↦
        let (messages', report) = deliver t.node_count messages message node_index in
        record_completion (record t { messages = insert mchain messages' t.messages }) report now
  ]

  unfoldable pub on_delivery :
      QueueSizeTester Time → ℕ → ℕ → List ℕ → Time → QueueSizeTester Time × Result Report
  unfolding record_delivery
  on_delivery t mchain node_index bytes now = record_delivery t mchain node_index (decode bytes) now

  unfoldable pub on_stop_sending : QueueSizeTester Time → Time → QueueSizeTester Time
  unfolding append_event
  on_stop_sending t now = append_event t stop_sending now

  -- The loop of `get_result` over the events, from a queue of the given size.
  unfoldable pub queue_sizes : ℤ → List (QueueEvent Time) → List ℤ
  queue_sizes size [] = []
  queue_sizes size (event ∷ events) = elim event.event_type [
    | stop_sending ↦ queue_sizes size events
    | send_message ↦
        let size' = size +ℤ event_value send_message in size' ∷ queue_sizes size' events
    | deliver_message ↦
        let size' = size +ℤ event_value deliver_message in size' ∷ queue_sizes size' events
  ]

  module _ {Duration : Type 0} (minus : Time → Time → Duration) where
    -- `times`: the events but those of `STOP_SENDING`
    unfoldable pub times : Time → List (QueueEvent Time) → List Duration
    times start [] = []
    times start (event ∷ events) =
        let rest = times start events in
        elim event.event_type [ stop_sending ↦ rest | _ ↦ minus event.time start ∷ rest ]

    -- `stop_time`: of the last `STOP_SENDING`
    unfoldable pub stop_time : Time → Option Duration → List (QueueEvent Time) → Option Duration
    stop_time start last [] = last
    stop_time start last (event ∷ events) =
        stop_time start
          (elim event.event_type [ stop_sending ↦ some (minus event.time start) | _ ↦ last ]) events

    unfoldable pub get_result : QueueSizeTester Time → List Duration × List ℤ × Option Duration
    unfolding times queue_sizes stop_time
    get_result t = (
      times t.start_time t.events,
      queue_sizes (pos 0) t.events,
      stop_time t.start_time none t.events,
    )
