-- ===== src/Client/Delivery/Balance.antt =====
-- After any history without a message sent twice, the table of a tester holds exactly the messages
-- that are still waited for, and its counters add up.
use mathlib.Core.Path.{ap₂, fun_ext}
use reliable_broadcast.Prelude.{
  ℕ, ◌+◌, ◌<◌, ◌≡◌, refl, ap, sym, ◌∙◌, false, Option, none, some, List, [], ◌∷◌, ◌++◌, map, arith,
  leb, ltb, ◌==◌, nat_eq, list_eq, if◌then◌else◌, length, contains, Text, Bool, count, count-append,
  list_beq_iff, ◌&&◌, beq_refl,
}
use reliable_broadcast.Dict.{insert, insert_absent}
use reliable_broadcast.Dict.Tabulate.{
  holds, tabulate, tabulate-append, lookup-tabulate, tabulate_same, count-tabulate, count_same,
  count_partition,
}
use reliable_broadcast.Client.Delivery.{deliver}
use reliable_broadcast.Client.Delivery.History.{
  sent, delivered, History, receivers, sends, IsFresh, receivers_sent,
}
use reliable_broadcast.Client.Delivery.Accounts.{
  waiting, finished, completes, messages_after, completions, waits, is_finished, delivered_Keeps,
}

module _ (n : ℕ) (positive : 0 < n) where
  module _ (h : History) (m : Text) where
    receivers_just_sent : receivers m (sent m ∷ h) ≡ some []
    unfolding receivers
    receivers_just_sent = rw (beq_refl m)

    sent_waits : (j : Text) → (j == m) ≡ false → waits n h j ≡ waits n (sent m ∷ h) j
    unfolding receivers
    sent_waits j other = ground (arith, list_beq_iff j m, list_beq_iff m j)

    sent_finished : (j : Text) → (j == m) ≡ false → is_finished n h j ≡ is_finished n (sent m ∷ h) j
    unfolding receivers
    sent_finished j other = ground (arith, list_beq_iff j m, list_beq_iff m j)

    just_sent : tabulate (waits n (sent m ∷ h)) (m ∷ []) ≡ (m, []) ∷ []
    unfolding tabulate
    just_sent = rw receivers_just_sent (ground arith)

    sent_table :
        contains (sends h) m ≡ false
        → insert m [] (tabulate (waits n h) (sends h))
          ≡ tabulate (waits n (sent m ∷ h)) (sends h ++ m ∷ [])
    sent_table new =
        insert_absent m [] (tabulate (waits n h) (sends h))
          (lookup-tabulate (waits n h) (sends h) m ∙ rw new)
        ∙ ap (λ t. t ++ (m, []) ∷ []) (tabulate_same _ _ m sent_waits (sends h) new)
        ∙ sym (
            tabulate-append _ (sends h) (m ∷ [])
            ∙ ap (λ t. tabulate (waits n (sent m ∷ h)) (sends h) ++ t) just_sent)

    sent_count :
        contains (sends h) m ≡ false
        → count (is_finished n (sent m ∷ h)) (sends h ++ m ∷ []) ≡ count (is_finished n h) (sends h)
    sent_count new =
        let one : count (is_finished n (sent m ∷ h)) (m ∷ []) ≡ 0 =
          unfold count in rw receivers_just_sent (ground arith) in
        omega (
          arith,
          count-append (is_finished n (sent m ∷ h)) (sends h) (m ∷ []),
          count_same _ _ m sent_finished (sends h) new,
        )

  -- The messages in a tester's table.
  messages_after-tabulate :
      (h : History) → IsFresh h → messages_after n h ≡ tabulate (waits n h) (sends h)
  unfolding messages_after sends tabulate
  messages_after-tabulate [] f = refl
  messages_after-tabulate (sent m ∷ h) f = rw (messages_after-tabulate h f.1) (sent_table h m f.0)
  messages_after-tabulate (delivered node m ∷ h) f =
      ap (λ ms. (deliver n ms m node).0) (messages_after-tabulate h f)
      ∙ (delivered_Keeps n h f m node).table

  -- Every completion finished one message, and each finished message was completed once.
  pub completions-count :
      (h : History) → IsFresh h → completions n h ≡ count (is_finished n h) (sends h)
  unfolding completions sends
  completions-count [] f = unfold count in refl
  completions-count (sent m ∷ h) f = completions-count h f.1 ∙ sym (sent_count h m f.0)
  completions-count (delivered node m ∷ h) f =
      ap₂ (λ c ms. c + completes (deliver n ms m node).1) (completions-count h f)
        (messages_after-tabulate h f)
      ∙ (delivered_Keeps n h f m node).finishes

-- Some node has delivered, and some node has not.
abbrev pub in_part : ℕ → Option (List ℕ) → Bool
in_part n none = false
in_part n (some nodes) = ltb 0 (length nodes) && ltb (length nodes) n

-- No node has delivered.
abbrev pub undelivered : Option (List ℕ) → Bool
undelivered none = false
undelivered (some nodes) = leb (length nodes) 0

count_cong {ℓ} :
    {A : Type ℓ} (p q : A → Bool) (xs : List A) → ((a : A) → p a ≡ q a) → count p xs ≡ count q xs
count_cong p q xs h = ap (λ f. count f xs) (fun_ext h)

waiting-in_part :
    (n : ℕ) (o : Option (List ℕ))
    → holds (λ nodes. ltb 0 (length nodes)) (waiting n o) ≡ in_part n o
waiting-in_part n none = refl
waiting-in_part n (some nodes) = ground arith

one_of_three :
    (n : ℕ) (nodes : List ℕ)
    → 0 < n
    → (if finished n (some nodes) then 1 else 0)
        + (if in_part n (some nodes) then 1 else 0)
        + (if undelivered (some nodes) then 1 else 0)
      ≡ 1
one_of_three n nodes positive = ground arith

module _ (n : ℕ) (positive : 0 < n) (h : History) (fresh : IsFresh h) where
  -- The entries of the table with at least one node are the messages delivered in part.
  pub count-in_part :
      count (λ nodes. ltb 0 (length nodes)) (map (λ e. e.1) (messages_after n h))
      ≡ count (λ m. in_part n (receivers m h)) (sends h)
  count-in_part = rw (messages_after-tabulate n positive h fresh) (
      count-tabulate _ (waits n h) (sends h)
      ∙ count_cong _ _ (sends h) (λ m. waiting-in_part n (receivers m h)))

  -- Each message sent is delivered by every node, by some or by none.
  pub count-sends :
      count (is_finished n h) (sends h)
        + count (λ m. in_part n (receivers m h)) (sends h)
        + count (λ m. undelivered (receivers m h)) (sends h)
      ≡ length (sends h)
  count-sends =
      count_partition _ _ _ (sends h)
        (λ m c. let (nodes, e) = receivers_sent h m c in rw e (one_of_three n nodes positive))
