-- ===== src/Client/QueueSizeTester/Runs.antt =====
-- A whole test, from `on_test_start` to `get_result`.
use reliable_broadcast.Prelude.{
  ℕ, ◌≡◌, refl, ap, sym, ◌∙◌, List, [], ◌∷◌, ◌++◌, arith, nat_eq, list_eq, length,
}
use reliable_broadcast.Prelude.Int.{ℤ, pos, ◌+ℤ◌}
use reliable_broadcast.Dict.{Dict, insert}
use reliable_broadcast.Client.Delivery.{Messages}
use reliable_broadcast.Client.QueueSizeTester.{
  event_value, QueueEvent, QueueSizeTester, empty_messages, on_test_start, on_send, on_delivery,
  on_stop_sending, queue_sizes, times, get_result,
}
use reliable_broadcast.Client.QueueSizeTester.InFlight.{
  in_flight, in_flight-insert_nil, +ℤ_zero, queue_end, IsBalanced, entries_of, entries_done, IsNew,
  on_send-Extends, on_delivery-Extends, stop_Extends,
}

-- What the test's loop and the listener call, each with the reading of the clock.
pub data Call (Time : Type 0) : Type 0 where
  send : ℕ → List ℕ → Time → Call Time
  delivery : ℕ → ℕ → List ℕ → Time → Call Time
  stop : Time → Call Time

module _ {Time : Type 0} where
  unfoldable pub apply : QueueSizeTester Time → Call Time → QueueSizeTester Time
  apply t (send mchain bytes now) = (on_send t mchain bytes now).0
  apply t (delivery mchain node_index bytes now) = (on_delivery t mchain node_index bytes now).0
  apply t (stop now) = on_stop_sending t now

  -- The tester after some calls, the latest first.
  unfoldable pub after : QueueSizeTester Time → List (Call Time) → QueueSizeTester Time
  after t [] = t
  after t (call ∷ calls) = apply (after t calls) call

  entries : QueueSizeTester Time → Call Time → List ℤ
  entries t (send mchain bytes now) = let (t', r) = on_send t mchain bytes now in entries_of t' r
  entries t (delivery mchain node_index bytes now) =
      let (t', r) = on_delivery t mchain node_index bytes now in entries_done t' r
  entries t (stop now) = []

  -- The number of messages in flight after each send and after each completion, in order.
  unfoldable pub in_flight_log : QueueSizeTester Time → List (Call Time) → List ℤ
  unfolding entries
  in_flight_log t [] = []
  in_flight_log t (call ∷ calls) = in_flight_log t calls ++ entries (after t calls) call

  -- No message is sent on a chain while it is waited for there.
  abbrev pub SendsNew : QueueSizeTester Time → List (Call Time) → Type 0
  SendsNew t [] = Unit
  SendsNew t (send mchain bytes now ∷ calls) = IsNew (after t calls) mchain bytes × SendsNew t calls
  SendsNew t (delivery mchain node_index bytes now ∷ calls) = SendsNew t calls
  SendsNew t (stop now ∷ calls) = SendsNew t calls

  module _ (t : QueueSizeTester Time) (balanced : IsBalanced t) (started : t.events ≡ []) where
    after_Logged :
        (calls : List (Call Time))
        → SendsNew t calls
        → IsBalanced (after t calls)
          × (queue_sizes (pos 0) (after t calls).events ≡ in_flight_log t calls)
    unfolding after in_flight_log apply
    after_Logged [] new = (balanced, rw started (unfold queue_sizes in refl))
    after_Logged (send mchain bytes now ∷ calls) new =
        let (b, logged) = after_Logged calls new.1 in
        let step = on_send-Extends (after t calls) b mchain bytes now new.0 in
        (
          step.balanced,
          step.sizes ∙ ap (λ l. l ++ entries (after t calls) (send mchain bytes now)) logged,
        )
    after_Logged (delivery mchain node bytes now ∷ calls) new =
        let (b, logged) = after_Logged calls new in
        let step = on_delivery-Extends (after t calls) b mchain bytes now node in
        (
          step.balanced,
          step.sizes
              ∙ ap (λ l. l ++ entries (after t calls) (delivery mchain node bytes now)) logged,
        )
    after_Logged (stop now ∷ calls) new =
        let (b, logged) = after_Logged calls new in
        let step = stop_Extends (after t calls) b now in
        (step.balanced, step.sizes ∙ ap (λ l. l ++ []) logged)

in_flight-empty :
    (ks : List ℕ) (d : Dict ℕ Messages) → in_flight d ≡ 0 → in_flight (empty_messages ks d) ≡ 0
unfolding empty_messages
in_flight-empty [] d h = h
in_flight-empty (k ∷ ks) d h =
    in_flight-empty ks (insert k [] d) (omega (arith, in_flight-insert_nil k d))

start_events :
    {Time : Type 0} (t : QueueSizeTester Time) (now : Time) → (on_test_start t now).events ≡ []
unfolding on_test_start
start_events t now = refl

start_IsBalanced :
    {Time : Type 0} (t : QueueSizeTester Time) (now : Time) → IsBalanced (on_test_start t now)
unfolding on_test_start queue_end
start_IsBalanced t now = ap pos (sym (in_flight-empty t.mchains [] (unfold in_flight in refl)))

length-times :
    {Time Duration : Type 0} (minus : Time → Time → Duration) (start : Time) (size : ℤ)
    (events : List (QueueEvent Time))
    → length (times minus start events) ≡ length (queue_sizes size events)
unfolding times queue_sizes
length-times minus start size [] = refl
length-times minus start size (e ∷ events) =
    ground (arith, length-times minus start (size +ℤ event_value e.event_type) events, +ℤ_zero size)

module _ {Time Duration : Type 0} (minus : Time → Time → Duration) where
  -- A test in which no message is sent while it is waited for: the queue sizes that `get_result`
  -- returns are the numbers of messages in flight after each send and each completion, one for each
  -- of the times that it returns, whatever else was delivered in between.
  pub get_result-in_flight_log :
      (t : QueueSizeTester Time) (now : Time) (calls : List (Call Time))
      → SendsNew (on_test_start t now) calls
      → ((get_result minus (after (on_test_start t now) calls)).1
          ≡ in_flight_log (on_test_start t now) calls)
        × (length (get_result minus (after (on_test_start t now) calls)).0
            ≡ length (in_flight_log (on_test_start t now) calls))
  unfolding get_result
  get_result-in_flight_log t now calls new =
      let end = after (on_test_start t now) calls in
      let sizes =
        (after_Logged (on_test_start t now) (start_IsBalanced t now) (start_events t now) calls
          new).1 in
      (sizes, length-times minus end.start_time (pos 0) end.events ∙ ap length sizes)
