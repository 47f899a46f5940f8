-- ===== src/Client/Delivery/History.antt =====
-- What happened on one chain, as an observer would tell it: which messages were sent, and which
-- nodes have delivered each since. The latest event of a history comes first.
use reliable_broadcast.Prelude.{
  is_some, ℕ, ◌≡◌, refl, true, false, Option, none, some, List, [], ◌∷◌, ◌++◌, arith, ◌==◌, nat_eq,
  list_eq, if◌then◌else◌, contains, contains-append, Distinct, Distinct-snoc, Text, Bool-cases, inl,
  inr,
}

pub data Event : Type 0 where
  sent : Text → Event
  delivered : ℕ → Text → Event

abbrev pub History : Type 0
History = List Event

-- A node joins the nodes that have delivered.
abbrev pub join : ℕ → Option (List ℕ) → Option (List ℕ)
join node none = none
join node (some nodes) = if contains nodes node then some nodes else some (nodes ++ node ∷ [])

-- The nodes that have delivered a message since it was sent; `none` if it never was.
unfoldable pub receivers : Text → History → Option (List ℕ)
receivers message [] = none
receivers message (sent m ∷ h) = if m == message then some [] else receivers message h
receivers message (delivered node m ∷ h) =
    let before = receivers message h in if m == message then join node before else before

-- The messages sent, in order.
unfoldable pub sends : History → List Text
sends [] = []
sends (sent m ∷ h) = sends h ++ m ∷ []
sends (delivered node m ∷ h) = sends h

-- No message is sent twice.
abbrev pub IsFresh : History → Type 0
IsFresh [] = Unit
IsFresh (sent m ∷ h) = (contains (sends h) m ≡ false) × IsFresh h
IsFresh (delivered node m ∷ h) = IsFresh h

pub sends-Distinct : (h : History) → IsFresh h → Distinct (sends h)
unfolding sends
sends-Distinct [] f = tt
sends-Distinct (sent m ∷ h) f = Distinct-snoc (sends h) m (sends-Distinct h f.1) f.0
sends-Distinct (delivered node m ∷ h) f = sends-Distinct h f

contains-sends : (h : History) (m : Text) → contains (sends h) m ≡ is_some (receivers m h)
unfolding sends receivers contains
contains-sends [] m = refl
contains-sends (sent k ∷ h) m =
    ground (arith, contains-append (sends h) (k ∷ []) m, contains-sends h m)
contains-sends (delivered node k ∷ h) m = ground (arith, contains-sends h m)

receivers_unsent : (h : History) (m : Text) → contains (sends h) m ≡ false → receivers m h ≡ none
receivers_unsent h m c = ground (arith, contains-sends h m)

pub receivers_sent :
    (h : History) (m : Text)
    → contains (sends h) m ≡ true
    → (nodes : List ℕ) × (receivers m h ≡ some nodes)
receivers_sent h m c = ground (arith, contains-sends h m)

-- No node is counted twice for a message.
abbrev pub EachOnce : Option (List ℕ) → Type 0
EachOnce none = Unit
EachOnce (some nodes) = Distinct nodes

join-EachOnce : (node : ℕ) (o : Option (List ℕ)) → EachOnce o → EachOnce (join node o)
join-EachOnce node none h = h
join-EachOnce node (some nodes) h = elim (Bool-cases (contains nodes node)) [
  | inl old ↦ rw old h
  | inr new ↦ rw new (Distinct-snoc nodes node h new)
]

receivers-EachOnce : (h : History) (m : Text) → EachOnce (receivers m h)
unfolding receivers
receivers-EachOnce [] m = tt
receivers-EachOnce (sent k ∷ h) m = elim (Bool-cases (k == m)) [
  | inl same ↦ rw same tt
  | inr other ↦ rw other (receivers-EachOnce h m)
]
receivers-EachOnce (delivered node k ∷ h) m = elim (Bool-cases (k == m)) [
  | inl same ↦ rw same (join-EachOnce node (receivers m h) (receivers-EachOnce h m))
  | inr other ↦ rw other (receivers-EachOnce h m)
]
