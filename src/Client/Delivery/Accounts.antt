-- ===== src/Client/Delivery/Accounts.antt =====
-- The messages that a tester waits for are those of the history that some node has not delivered.
use native.Mathlib.Decide.{dec_lt}
use reliable_broadcast.Prelude.{
  ℕ, ◌+◌, ◌<◌, ◌≡◌, refl, ◌∙◌, true, false, Option, none, some, List, [], ◌∷◌, ◌++◌, arith, leb,
  ltb, ◌==◌, nat_eq, list_eq, if◌then◌else◌, length, length-append, contains, Text, Bool,
  Bool-cases, inl, inr, count, list_beq_iff, beq_refl,
}
use reliable_broadcast.Dict.{lookup, insert, remove}
use reliable_broadcast.Dict.Tabulate.{
  tabulate, lookup-tabulate, tabulate_same, tabulate_unchanged, tabulate-insert, tabulate-remove,
  count_same, count_update,
}
use reliable_broadcast.Client.Delivery.{
  Messages, Report, not_sent, repeated, recorded, completed, deliver,
}
use reliable_broadcast.Client.Delivery.History.{
  sent, delivered, History, join, receivers, sends, IsFresh, sends-Distinct, receivers_sent,
}

-- The receivers of a message that is still waited for.
abbrev pub waiting : ℕ → Option (List ℕ) → Option (List ℕ)
waiting n none = none
waiting n (some nodes) = if ltb (length nodes) n then some nodes else none

-- Every node has delivered.
abbrev pub finished : ℕ → Option (List ℕ) → Bool
finished n none = false
finished n (some nodes) = leb n (length nodes)

abbrev pub completes : Report → ℕ
completes completed = 1
completes _ = 0

module _ (n : ℕ) where
  -- The messages of a tester of `n` nodes after a history: `on_send` and `on_delivery`.
  unfoldable pub messages_after : History → Messages
  messages_after [] = []
  messages_after (sent m ∷ h) = insert m [] (messages_after h)
  messages_after (delivered node m ∷ h) = (deliver n (messages_after h) m node).0

  -- How many deliveries completed a message.
  unfoldable pub completions : History → ℕ
  completions [] = 0
  completions (sent m ∷ h) = completions h
  completions (delivered node m ∷ h) =
      completions h + completes (deliver n (messages_after h) m node).1

  abbrev pub waits : History → Text → Option (List ℕ)
  waits h m = waiting n (receivers m h)

  abbrev pub is_finished : History → Text → Bool
  is_finished h m = finished n (receivers m h)

  module _ (h : History) (k : Text) (node : ℕ) where
    same_waits : (j : Text) → (j == k) ≡ false → waits h j ≡ waits (delivered node k ∷ h) j
    unfolding receivers
    same_waits j other = ground (arith, list_beq_iff j k, list_beq_iff k j)

    same_finished :
        (j : Text) → (j == k) ≡ false → is_finished h j ≡ is_finished (delivered node k ∷ h) j
    unfolding receivers
    same_finished j other = ground (arith, list_beq_iff j k, list_beq_iff k j)

    receivers_here : receivers k (delivered node k ∷ h) ≡ join node (receivers k h)
    unfolding receivers
    receivers_here = rw (beq_refl k)

  module _ (ms : Messages) (k : Text) (node : ℕ) where
    deliver_unknown : lookup k ms ≡ none → deliver n ms k node ≡ (ms, not_sent)
    unfolding deliver
    deliver_unknown e = ground arith

    module _ (nodes : List ℕ) (e : lookup k ms ≡ some nodes) where
      deliver_again : contains nodes node ≡ true → deliver n ms k node ≡ (ms, repeated)
      unfolding deliver
      deliver_again c = ground arith

      deliver_last :
          contains nodes node ≡ false
          → length nodes + 1 ≡ n
          → deliver n ms k node ≡ (remove k ms, completed)
      unfolding deliver
      deliver_last c l = ground (arith, length-append nodes (node ∷ []))

      deliver_more :
          contains nodes node ≡ false
          → length nodes + 1 < n
          → deliver n ms k node ≡ (insert k (nodes ++ node ∷ []) ms, recorded)
      unfolding deliver
      deliver_more c l = ground (arith, length-append nodes (node ∷ []))

  -- The outcome of one delivery: the table of the longer history, and its finished messages.
  pub record Keeps (h : History) (k : Text) (node : ℕ) (r : Messages × Report) : Type 0 where
    pub table : r.0 ≡ tabulate (waits (delivered node k ∷ h)) (sends h)
    pub finishes :
        count (is_finished h) (sends h) + completes r.1
        ≡ count (is_finished (delivered node k ∷ h)) (sends h)

  module _ (h : History) (fresh : IsFresh h) (k : Text) (node : ℕ) where
    abbrev ms : Messages
    ms = tabulate (waits h) (sends h)

    unsent_Keeps : contains (sends h) k ≡ false → Keeps h k node (deliver n ms k node)
    unsent_Keeps c =
        let e : deliver n ms k node ≡ (ms, not_sent) =
          deliver_unknown ms k node (ground (arith, lookup-tabulate (waits h) (sends h) k)) in
        rw e (record {
          table = tabulate_same _ _ k (same_waits h k node) (sends h) c;
          finishes = omega (arith, count_same _ _ k (same_finished h k node) (sends h) c);
        })

    module _ (c : contains (sends h) k ≡ true) (nodes : List ℕ)
        (e : receivers k h ≡ some nodes) where
      looked_up : lookup k ms ≡ waiting n (some nodes)
      looked_up = lookup-tabulate (waits h) (sends h) k ∙ rw (c, e)

      receivers_old : contains nodes node ≡ true → receivers k (delivered node k ∷ h) ≡ some nodes
      receivers_old old = receivers_here h k node ∙ rw (e, old)

      receivers_new :
          contains nodes node ≡ false
          → receivers k (delivered node k ∷ h) ≡ some (nodes ++ node ∷ [])
      receivers_new new = receivers_here h k node ∙ rw (e, new)

      finishes_by :
          count (is_finished h) (sends h) + (if is_finished (delivered node k ∷ h) k then 1 else 0)
          ≡ count (is_finished (delivered node k ∷ h)) (sends h)
            + (if is_finished h k then 1 else 0)
      finishes_by = count_update _ _ k (same_finished h k node) (sends h) (sends-Distinct h fresh) c

      unchanged :
          (report : Report)
          → completes report ≡ 0
          → waits h k ≡ waits (delivered node k ∷ h) k
          → is_finished h k ≡ is_finished (delivered node k ∷ h) k
          → Keeps h k node (ms, report)
      unchanged report zero w f = record {
        table = tabulate_unchanged _ _ k (same_waits h k node) w (sends h);
        finishes = ground (arith, finishes_by);
      }

      after_finish : n < length nodes + 1 → Keeps h k node (deliver n ms k node)
      after_finish full = rw (deliver_unknown ms k node (looked_up ∙ ground arith)) (
          unchanged not_sent refl
            (rw (receivers_here h k node, e) (ground (arith, length-append nodes (node ∷ []))))
            (rw (receivers_here h k node, e) (ground (arith, length-append nodes (node ∷ [])))))

      again : contains nodes node ≡ true → length nodes < n → Keeps h k node (deliver n ms k node)
      again old room =
          rw (deliver_again ms k node nodes (looked_up ∙ ground arith) old)
            (unchanged repeated refl (rw (receivers_old old, e)) (rw (receivers_old old, e)))

      last :
          contains nodes node ≡ false → length nodes + 1 ≡ n → Keeps h k node (deliver n ms k node)
      last new l =
          let d : deliver n ms k node ≡ (remove k ms, completed) =
            deliver_last ms k node nodes (looked_up ∙ ground arith) new l in
          let later = receivers_new new in
          rw d (record {
            table =
                tabulate-remove _ _ k (same_waits h k node) (sends h) nodes (sends-Distinct h fresh)
                  c (rw e (ground arith))
                  (rw later (ground (arith, length-append nodes (node ∷ []))));
            finishes = ground (arith, finishes_by, later, e, length-append nodes (node ∷ []));
          })

      more :
          contains nodes node ≡ false → length nodes + 1 < n → Keeps h k node (deliver n ms k node)
      more new l =
          let d : deliver n ms k node ≡ (insert k (nodes ++ node ∷ []) ms, recorded) =
            deliver_more ms k node nodes (looked_up ∙ ground arith) new l in
          let later = receivers_new new in
          rw d (record {
            table =
                tabulate-insert _ _ k (same_waits h k node) (sends h) nodes (nodes ++ node ∷ [])
                  (sends-Distinct h fresh) c (rw e (ground arith))
                  (rw later (ground (arith, length-append nodes (node ∷ []))));
            finishes = ground (arith, finishes_by, later, e, length-append nodes (node ∷ []));
          })

    pub delivered_Keeps : Keeps h k node (deliver n ms k node)
    delivered_Keeps = elim (Bool-cases (contains (sends h) k)) [
      | inr unsent ↦ unsent_Keeps unsent
      | inl c ↦
          let (nodes, e) = receivers_sent h k c in
          elim (dec_lt (length nodes) n) [
            | no full ↦ after_finish c nodes e (omega arith)
            | yes room ↦ elim (Bool-cases (contains nodes node)) [
              | inl old ↦ again c nodes e old room
              | inr new ↦ elim (dec_lt (length nodes + 1) n) [
                | yes more_room ↦ more c nodes e new more_room
                | no filled ↦ last c nodes e new (omega arith)
              ]
            ]
          ]
    ]
