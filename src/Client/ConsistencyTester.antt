-- ===== src/Client/ConsistencyTester.antt =====
-- client/consistency_tester.py: a tester that counts the messages which every node delivered.
pub mod Refinement
pub mod Results
use reliable_broadcast.Prelude.{
  ℕ, ◌+◌, ltb, Option, none, some, List, [], ◌∷◌, map, length, count, nat_eq, list_eq, Text,
}
use reliable_broadcast.Prelude.Int.{ℤ, sub_ℕ}
use reliable_broadcast.Result.{Result, ok, raise, ◌>>=◌, key_error, unicode_decode_error}
use reliable_broadcast.Dict.{Dict, lookup, insert}
use reliable_broadcast.Client.Utf8.{decode}
use reliable_broadcast.Client.Delivery.{Messages, Report, completed, deliver}

pub record ConsistencyTester : Type 0 where
  pub mchains : List ℕ
  pub node_count : ℕ
  pub messages : Dict ℕ Messages
  pub total_messages_count : Dict ℕ ℕ
  pub good : Dict ℕ ℕ

-- `{mchain: value for mchain in mchains}`
unfoldable pub for_each {ℓ} : {V : Type ℓ} → V → List ℕ → Dict ℕ V → Dict ℕ V
for_each value [] d = d
for_each value (mchain ∷ mchains) d = for_each value mchains (insert mchain value d)

unfoldable pub init : List ℕ → ℕ → ConsistencyTester
unfolding for_each
init mchains node_count = record {
  mchains = mchains;
  node_count = node_count;
  messages = for_each [] mchains [];
  total_messages_count = for_each 0 mchains [];
  good = for_each 0 mchains [];
}

unfoldable pub on_test_start : ConsistencyTester → ConsistencyTester
unfolding for_each
on_test_start t = record t {
  messages = for_each [] t.mchains [];
  total_messages_count = for_each 0 t.mchains [];
  good = for_each 0 t.mchains [];
}

-- `self.messages[mchain][message] = set()`, after the count has gone up
unfoldable pub add_message :
    ConsistencyTester → ℕ → Option Text → ConsistencyTester × Result (Unit {0})
add_message t mchain none = (t, raise unicode_decode_error)
add_message t mchain (some message) = elim (lookup mchain t.messages) [
  | none ↦ (t, raise key_error)
  | some messages ↦
      (record t { messages = insert mchain (insert message [] messages) t.messages }, ok tt)
]

unfoldable pub on_send : ConsistencyTester → ℕ → List ℕ → ConsistencyTester × Result (Unit {0})
unfolding add_message
on_send t mchain bytes = elim (lookup mchain t.total_messages_count) [
  | none ↦ (t, raise key_error)
  | some total ↦
      add_message
        (record t { total_messages_count = insert mchain (total + 1) t.total_messages_count })
        mchain (decode bytes)
]

-- `self.good[mchain] += 1` where the message is complete
unfoldable pub add_good : ConsistencyTester → ℕ → Report → ConsistencyTester × Result Report
add_good t mchain completed = elim (lookup mchain t.good) [
  | none ↦ (t, raise key_error)
  | some good ↦ (record t { good = insert mchain (good + 1) t.good }, ok completed)
]
add_good t mchain report = (t, ok report)

unfoldable pub record_delivery :
    ConsistencyTester → ℕ → ℕ → Option Text → ConsistencyTester × Result Report
unfolding add_good
record_delivery t mchain node_index none = (t, raise unicode_decode_error)
record_delivery t mchain node_index (some message) = elim (lookup mchain t.messages) [
  | none ↦ (t, raise key_error)
  | some messages ↦
      let (messages', report) = deliver t.node_count messages message node_index in
      add_good (record t { messages = insert mchain messages' t.messages }) mchain report
]

unfoldable pub on_delivery : ConsistencyTester → ℕ → ℕ → List ℕ → ConsistencyTester × Result Report
unfolding record_delivery
on_delivery t mchain node_index bytes = record_delivery t mchain node_index (decode bytes)

-- The entry of one chain in `get_result`: good, partial and lost.
abbrev pub Counters : Type 0
Counters = ℕ × ℕ × ℤ

unfoldable pub partial : Messages → ℕ
partial messages = count (λ nodes. ltb 0 (length nodes)) (map (λ e. e.1) messages)

abbrev counters : Option Messages → Option ℕ → Option ℕ → Result Counters
counters (some messages) (some good) (some total) =
    ok (good, partial messages, sub_ℕ total (good + partial messages))
counters _ _ _ = raise key_error

unfoldable pub chain_result : ConsistencyTester → ℕ → Result Counters
unfolding partial
chain_result t mchain =
    counters (lookup mchain t.messages) (lookup mchain t.good)
      (lookup mchain t.total_messages_count)

unfoldable pub results : ConsistencyTester → List ℕ → Dict ℕ Counters → Result (Dict ℕ Counters)
unfolding chain_result
results t [] result = ok result
results t (mchain ∷ mchains) result = do
  c ← chain_result t mchain
  results t mchains (insert mchain c result)

unfoldable pub get_result : ConsistencyTester → Result (Dict ℕ Counters)
unfolding results
get_result t = results t t.mchains []
