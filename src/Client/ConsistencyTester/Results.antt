-- ===== src/Client/ConsistencyTester/Results.antt =====
-- What `get_result` reports, in terms of the history of each chain.
use reliable_broadcast.Prelude.{
  ℕ, ◌+◌, ◌<◌, ◌≡◌, refl, ap, ◌∙◌, true, some, List, [], ◌∷◌, arith, nat_eq, nat_beq_iff,
  if◌then◌else◌, contains, count,
}
use reliable_broadcast.Prelude.Int.{pos, sub_ℕ}
use reliable_broadcast.Result.{ok}
use reliable_broadcast.Dict.{Dict, lookup, insert, lookup-insert}
use reliable_broadcast.Client.Delivery.History.{History, receivers, sends, IsFresh}
use reliable_broadcast.Client.Delivery.Accounts.{messages_after, completions, is_finished}
use reliable_broadcast.Client.Delivery.Balance.{
  in_part, undelivered, completions-count, count-in_part, count-sends,
}
use reliable_broadcast.Client.ConsistencyTester.{
  ConsistencyTester, Counters, for_each, on_test_start, partial, chain_result, results, get_result,
}
use reliable_broadcast.Client.ConsistencyTester.Refinement.{
  Call, after, history, SendsText, Tracks, after-Tracks, after-node_count, after-mchains,
}

lookup-for_each {ℓ} :
    {V : Type ℓ} (v : V) (ks : List ℕ) (d : Dict ℕ V) (k : ℕ)
    → lookup k (for_each v ks d) ≡ (if contains ks k then some v else lookup k d)
unfolding for_each contains
lookup-for_each v [] d k = refl
lookup-for_each v (j ∷ ks) d k =
    ground (arith, lookup-for_each v ks (insert j v d) k, lookup-insert j k v d)

on_test_start-Tracks :
    (t : ConsistencyTester) (k : ℕ) → contains t.mchains k ≡ true → Tracks (on_test_start t) k []
unfolding on_test_start messages_after sends completions
on_test_start-Tracks t k known = record {
  messages = lookup-for_each _ t.mchains [] k ∙ rw known;
  total = lookup-for_each _ t.mchains [] k ∙ rw known;
  good = lookup-for_each _ t.mchains [] k ∙ rw known;
}

-- The messages of a chain that every node, some nodes or no node has delivered.
unfoldable pub outcome : ℕ → History → Counters
outcome n h = (
  count (is_finished n h) (sends h),
  count (λ m. in_part n (receivers m h)) (sends h),
  pos (count (λ m. undelivered (receivers m h)) (sends h)),
)

sub_rest : (total a b c : ℕ) → a + b + c ≡ total → sub_ℕ total (a + b) ≡ pos c
sub_rest total a b c h = ground arith

chain_result-outcome :
    (t : ConsistencyTester) (k : ℕ) (h : History)
    → 0 < t.node_count
    → IsFresh h
    → Tracks t k h
    → chain_result t k ≡ ok (outcome t.node_count h)
unfolding chain_result outcome
chain_result-outcome t k h positive fresh tracks =
    let n = t.node_count in
    let in_parts : partial (messages_after n h) ≡ count (λ m. in_part n (receivers m h)) (sends h) =
      unfold partial in count-in_part n positive h fresh in
    rw (
      tracks.messages,
      tracks.good,
      tracks.total,
      chain_result,
      completions-count n positive h fresh,
      in_parts,
      sub_rest _ _ _ _ (count-sends n positive h fresh),
    )

-- `get_result` of a tester whose chains have the counters `c`.
fill : (ℕ → Counters) → List ℕ → Dict ℕ Counters → Dict ℕ Counters
fill c [] d = d
fill c (k ∷ ks) d = fill c ks (insert k (c k) d)

lookup-fill :
    (c : ℕ → Counters) (ks : List ℕ) (d : Dict ℕ Counters) (k : ℕ)
    → lookup k (fill c ks d) ≡ (if contains ks k then some (c k) else lookup k d)
unfolding fill contains
lookup-fill c [] d k = refl
lookup-fill c (j ∷ ks) d k =
    ground (arith, lookup-fill c ks (insert j (c j) d) k, lookup-insert j k (c j) d)

results-fill :
    (t : ConsistencyTester) (c : ℕ → Counters) (ks : List ℕ) (d : Dict ℕ Counters)
    → ((k : ℕ) → contains ks k ≡ true → chain_result t k ≡ ok (c k))
    → results t ks d ≡ ok (fill c ks d)
unfolding fill contains results
results-fill t c [] d each = refl
results-fill t c (k ∷ ks) d each =
    rw (each k (ground (arith, nat_beq_iff k k)), results)
      (results-fill t c ks (insert k (c k) d) (λ j m. each j (ground arith)))

module _ (t : ConsistencyTester) (calls : List Call) where
  abbrev end : ConsistencyTester
  end = after (on_test_start t) calls

  end-node_count : end.node_count ≡ t.node_count
  end-node_count = after-node_count (on_test_start t) calls ∙ unfold on_test_start in refl

  end-mchains : end.mchains ≡ t.mchains
  end-mchains = after-mchains (on_test_start t) calls ∙ unfold on_test_start in refl

  chain_result-end :
      0 < t.node_count
      → SendsText calls
      → (k : ℕ) → contains t.mchains k ≡ true
      → IsFresh (history k calls)
      → chain_result end k ≡ ok (outcome t.node_count (history k calls))
  chain_result-end positive text k known fresh =
      chain_result-outcome end k (history k calls) (rw end-node_count positive) fresh
        (after-Tracks (on_test_start t) k (on_test_start-Tracks t k known) calls text)
      ∙ ap (λ n. ok (outcome n (history k calls))) end-node_count

-- A tester of at least one node, started anew and then called in any order, by sends of text and by
-- deliveries of any data, with no message sent twice on one of its chains: `get_result` returns, and
-- for each chain it counts the messages sent on that chain that all nodes, some but not all nodes,
-- and no node have delivered.
pub get_result-outcome :
    (t : ConsistencyTester) (calls : List Call)
    → 0 < t.node_count
    → SendsText calls
    → ((k : ℕ) → contains t.mchains k ≡ true → IsFresh (history k calls))
    → (k : ℕ) → contains t.mchains k ≡ true
    → (d : Dict ℕ Counters) × (get_result (after (on_test_start t) calls) ≡ ok d)
      × (lookup k d ≡ some (outcome t.node_count (history k calls)))
get_result-outcome t calls positive text fresh k known = (
  fill (λ j. outcome t.node_count (history j calls)) t.mchains [],
  (unfold get_result in
      ap (λ ks. results (end t calls) ks []) (end-mchains t calls)
      ∙ results-fill (end t calls) _ t.mchains []
          (λ j m. chain_result-end t calls positive text j m (fresh j m))),
  lookup-fill _ t.mchains [] k ∙ rw known,
)
