-- ===== src/Witness/Testers.antt =====
-- The testers at concrete runs.
use mathlib.Core.Path.{subst}
use reliable_broadcast.Prelude.{
  ℕ, ◌-◌, ◌≡◌, refl, true, none, some, List, [], ◌∷◌, arith, length, nat_eq, list_eq, list_beq,
  contains, count, Text,
}
use reliable_broadcast.Prelude.Int.{pos}
use reliable_broadcast.Result.{ok}
use reliable_broadcast.Dict.{Dict, lookup, insert, remove}
use reliable_broadcast.Client.Utf8.{decode}
use reliable_broadcast.Client.Delivery.{deliver, Messages}
use reliable_broadcast.Client.Delivery.History.{receivers, sends, IsFresh}
use reliable_broadcast.Client.ConsistencyTester
use reliable_broadcast.Client.ConsistencyTester.{ConsistencyTester, Counters}
use reliable_broadcast.Client.ConsistencyTester.Refinement
use reliable_broadcast.Client.ConsistencyTester.Results.{outcome, get_result-outcome}
use reliable_broadcast.Client.QueueSizeTester
use reliable_broadcast.Client.QueueSizeTester.{QueueSizeTester}
use reliable_broadcast.Client.QueueSizeTester.InFlight.{in_flight, entries_of, entries_done}
use reliable_broadcast.Client.QueueSizeTester.Runs

some-eq-some : {A : Type 0} {a b : A} → some a ≡ some b → a ≡ b
some-eq-some h = cc

-- Of the messages a, b and c, every node delivers a, one node delivers b, and none delivers c.
abbrev tester : ConsistencyTester
tester = record {
  mchains = 5 ∷ [];
  node_count = 2;
  messages = [];
  total_messages_count = [];
  good = [];
}

abbrev calls : List Refinement.Call
calls =
    Refinement.delivery 5 1 (97 ∷ [])
    ∷ Refinement.delivery 5 0 (98 ∷ [])
    ∷ Refinement.delivery 5 0 (97 ∷ [])
    ∷ Refinement.delivery 5 0 (97 ∷ [])
    ∷ Refinement.send 5 (99 ∷ [])
    ∷ Refinement.send 5 (98 ∷ [])
    ∷ Refinement.send 5 (97 ∷ [])
    ∷ []

counted : lookup 5 (Refinement.after (ConsistencyTester.on_test_start tester) calls).good ≡ some 1
unfolding Refinement.after Refinement.apply ConsistencyTester.on_test_start
    ConsistencyTester.on_send ConsistencyTester.on_delivery deliver decode lookup insert remove
    contains list_beq
counted = refl

outcome_of_calls : outcome 2 (Refinement.history 5 calls) ≡ (1, 1, pos 1)
unfolding outcome Refinement.history decode receivers sends count contains list_beq
outcome_of_calls = refl

only_chain : (k : ℕ) → contains tester.mchains k ≡ true → 5 ≡ k
unfolding contains
only_chain k h = ground arith

calls-IsFresh : IsFresh (Refinement.history 5 calls)
unfolding Refinement.history decode sends contains list_beq
calls-IsFresh = (refl, (refl, (refl, tt)))

text_calls : Refinement.SendsText calls
unfolding decode
text_calls = ((99 ∷ [], refl), ((98 ∷ [], refl), ((97 ∷ [], refl), tt)))

chains-IsFresh : (k : ℕ) → contains tester.mchains k ≡ true → IsFresh (Refinement.history k calls)
chains-IsFresh k h =
    subst (λ j. IsFresh (Refinement.history j calls)) (only_chain k h) calls-IsFresh

get_result-outcome_example :
    (d : Dict ℕ Counters) × (ConsistencyTester.get_result
        (Refinement.after (ConsistencyTester.on_test_start tester) calls)
      ≡ ok d)
    × (lookup 5 d ≡ some (outcome 2 (Refinement.history 5 calls)))
get_result-outcome_example =
    get_result-outcome tester calls (omega arith) text_calls chains-IsFresh 5
      (unfold contains in refl)

abbrev queue_tester : QueueSizeTester ℕ
queue_tester = record {
  mchains = 5 ∷ [];
  node_count = 1;
  messages = [];
  events = [];
  start_time = 0;
}

abbrev queue_calls : List (Runs.Call ℕ)
queue_calls =
    Runs.stop 13
    ∷ Runs.delivery 5 0 (97 ∷ []) 12
    ∷ Runs.send 5 (98 ∷ []) 11
    ∷ Runs.send 5 (97 ∷ []) 10
    ∷ []

sizes_of_calls :
    Runs.in_flight_log (QueueSizeTester.on_test_start queue_tester 9) queue_calls
    ≡ pos 1 ∷ pos 2 ∷ pos 1 ∷ []
unfolding Runs.in_flight_log Runs.after Runs.apply QueueSizeTester.on_test_start
    QueueSizeTester.on_send QueueSizeTester.on_delivery deliver decode lookup insert remove contains
    list_beq in_flight entries_of entries_done
sizes_of_calls = refl

-- The second message is new while the first is waited for.
new_second :
    (m : Text)
    → decode (98 ∷ []) ≡ some m
    → (ms : Messages)
    → lookup 5
        (Runs.after
          (QueueSizeTester.on_test_start queue_tester 9)
          (Runs.send 5 (97 ∷ []) 10 ∷ [])).messages
      ≡ some ms
    → lookup m ms ≡ none
unfolding Runs.after Runs.apply QueueSizeTester.on_test_start QueueSizeTester.on_send decode lookup
    insert list_beq
new_second m e ms f =
    subst (λ d. lookup m d ≡ none) (some-eq-some f)
      (subst (λ j. lookup {V = List ℕ} j ((97 ∷ [], []) ∷ []) ≡ none) (some-eq-some e) refl)

new_first :
    (m : Text)
    → decode (97 ∷ []) ≡ some m
    → (ms : Messages) → lookup 5 (QueueSizeTester.on_test_start queue_tester 9).messages ≡ some ms
    → lookup m ms ≡ none
unfolding QueueSizeTester.on_test_start lookup insert list_beq decode
new_first m e ms f = subst (λ d. lookup m d ≡ none) (some-eq-some f) refl

new_calls : Runs.SendsNew (QueueSizeTester.on_test_start queue_tester 9) queue_calls
unfolding Runs.after
new_calls = (new_second, (new_first, tt))

get_result-in_flight_log_example :
    ((QueueSizeTester.get_result ◌-◌
        (Runs.after (QueueSizeTester.on_test_start queue_tester 9) queue_calls)).1
      ≡ Runs.in_flight_log (QueueSizeTester.on_test_start queue_tester 9) queue_calls)
    × (length
          (QueueSizeTester.get_result ◌-◌
            (Runs.after (QueueSizeTester.on_test_start queue_tester 9) queue_calls)).0
        ≡ length (Runs.in_flight_log (QueueSizeTester.on_test_start queue_tester 9) queue_calls))
get_result-in_flight_log_example =
    Runs.get_result-in_flight_log ◌-◌ queue_tester 9 queue_calls new_calls
