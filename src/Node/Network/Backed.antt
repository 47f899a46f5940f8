-- ===== src/Node/Network/Backed.antt =====
-- The votes that a correct node has counted, and who cast them.
use reliable_broadcast.Prelude.{
  ℕ, ◌<◌, ◌≡◌, sym, subst, Bool, true, List, [], length, contains, Distinct, nat_eq, nat_beq_iff,
  list_eq, list_beq_iff, arith, inl, inr, Bool-cases,
}
use reliable_broadcast.Dict.{lookup}
use reliable_broadcast.Node.Quorum.{member_among}
use reliable_broadcast.Node.Session.{Votes, senders, add_vote}
use reliable_broadcast.Node.Session.Votes.{contains-add_vote, Distinct-add_vote}
use reliable_broadcast.Node.Network.{Setting, IsCorrect, faulty}

-- The senders are different members, and the correct ones have posted what they are counted for.
pub record IsBacked (z : Setting) (said_by : ℕ → List ℕ → Bool) (votes : Votes) : Type 0 where
  pub distinct : (p : List ℕ) → Distinct (senders p votes)
  pub members :
      (p : List ℕ) (k : ℕ) → contains (senders p votes) k ≡ true → contains z.members k ≡ true
  pub backing :
      (p : List ℕ) (k : ℕ)
      → contains (senders p votes) k ≡ true
      → z.honest k ≡ true
      → said_by k p ≡ true

pub nothing-IsBacked : (z : Setting) (said_by : ℕ → List ℕ → Bool) → IsBacked z said_by []
unfolding senders contains lookup
nothing-IsBacked z said_by = record {
  distinct = λ p. tt;
  members = λ p k h. absurd (cc);
  backing = λ p k h. absurd (cc);
}

pub add_vote-IsBacked :
    (z : Setting) (said_by : ℕ → List ℕ → Bool) (votes : Votes) (p : List ℕ) (k : ℕ)
    → contains z.members k ≡ true
    → (z.honest k ≡ true → said_by k p ≡ true)
    → IsBacked z said_by votes
    → IsBacked z said_by (add_vote p k votes)
add_vote-IsBacked z said_by votes p k member cast v = record {
  distinct = λ q. Distinct-add_vote p q k votes (v.distinct q);
  members = λ q j h. elim (Bool-cases (contains (senders q votes) j)) [
    | inl old ↦ v.members q j old
    | inr new ↦
        subst (λ i. contains z.members i ≡ true)
          (ground (arith, contains-add_vote p q k j votes, nat_beq_iff k j)) member
  ];
  backing = λ q j h honest. elim (Bool-cases (contains (senders q votes) j)) [
    | inl old ↦ v.backing q j old honest
    | inr new ↦
        let who : k ≡ j = ground (arith, contains-add_vote p q k j votes, nat_beq_iff k j) in
        let what : p ≡ q = ground (arith, contains-add_vote p q k j votes, list_beq_iff p q) in
        subst (λ r. said_by j r ≡ true) what
          (subst (λ i. said_by i p ≡ true) who
            (cast (subst (λ i. z.honest i ≡ true) (sym who) honest)))
  ];
}

-- What more is posted keeps the backing.
pub IsBacked-mono :
    (z : Setting) (before now : ℕ → List ℕ → Bool) (votes : Votes)
    → ((k : ℕ) (p : List ℕ) → before k p ≡ true → now k p ≡ true)
    → IsBacked z before votes
    → IsBacked z now votes
IsBacked-mono z before now votes more v = record {
  distinct = v.distinct;
  members = v.members;
  backing = λ p k h honest. more k p (v.backing p k h honest);
}

-- More senders than there are faulty nodes include a correct one.
pub IsBacked-IsCorrect :
    (z : Setting) (said_by : ℕ → List ℕ → Bool) (votes : Votes) (p : List ℕ)
    → Distinct z.members
    → IsBacked z said_by votes
    → faulty z < length (senders p votes)
    → (k : ℕ) × IsCorrect z k × (said_by k p ≡ true)
IsBacked-IsCorrect z said_by votes p d v many =
    let found =
      member_among z.members d z.honest (senders p votes) (v.distinct p) (v.members p) many in
    (found.0, (v.members p found.0 found.1, found.2), v.backing p found.0 found.1 found.2)
