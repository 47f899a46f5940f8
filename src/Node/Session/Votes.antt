-- ===== src/Node/Session/Votes.antt =====
-- src/session.cpp: the sets of senders behind the counts.
use reliable_broadcast.Prelude.{
  ℕ, ◌≤◌, ◌≡◌, ◌||◌, List, [], ◌∷◌, length, contains, contains-append, Distinct, Distinct-snoc,
  length-append, arith, ◌==◌, nat_eq, nat_beq_iff, list_eq, list_beq_iff, if◌then◌else◌, Bool-cases,
  inl, inr, ◌&&◌,
}
use reliable_broadcast.Dict.{lookup-insert}
use reliable_broadcast.Node.Session.{Votes, senders, add_sender, add_vote}

pub senders-add_vote :
    (p q : List ℕ) (k : ℕ) (v : Votes)
    → senders q (add_vote p k v) ≡ (if p == q then add_sender k (senders q v) else senders q v)
unfolding senders add_vote
senders-add_vote p q k v =
    ground (arith, lookup-insert p q (add_sender k (senders p v)) v, list_beq_iff p q)

pub contains-add_sender :
    (k j : ℕ) (xs : List ℕ) → contains (add_sender k xs) j ≡ (contains xs j || (k == j))
unfolding add_sender contains
contains-add_sender k j xs = ground (arith, contains-append xs (k ∷ []) j, nat_beq_iff k j)

pub Distinct-add_sender : (k : ℕ) (xs : List ℕ) → Distinct xs → Distinct (add_sender k xs)
unfolding add_sender
Distinct-add_sender k xs d = elim (Bool-cases (contains xs k)) [
  | inl h ↦ grind arith
  | inr h ↦ grind (arith, Distinct-snoc xs k d h)
]

pub length-add_sender : (k : ℕ) (xs : List ℕ) → length xs ≤ length (add_sender k xs)
unfolding add_sender
length-add_sender k xs = ground (arith, length-append xs (k ∷ []))

-- A vote is counted, and no vote is lost.
pub contains-add_vote :
    (p q : List ℕ) (k j : ℕ) (v : Votes)
    → contains (senders q (add_vote p k v)) j ≡ (contains (senders q v) j || ((p == q) && (k == j)))
contains-add_vote p q k j v =
    ground (arith, senders-add_vote p q k v, contains-add_sender k j (senders q v))

pub Distinct-add_vote :
    (p q : List ℕ) (k : ℕ) (v : Votes)
    → Distinct (senders q v)
    → Distinct (senders q (add_vote p k v))
Distinct-add_vote p q k v d =
    grind (arith, senders-add_vote p q k v, Distinct-add_sender k (senders q v) d)

pub length-add_vote :
    (p q : List ℕ) (k : ℕ) (v : Votes) → length (senders q v) ≤ length (senders q (add_vote p k v))
length-add_vote p q k v =
    ground (arith, senders-add_vote p q k v, length-add_sender k (senders q v))
