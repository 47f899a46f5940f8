-- ===== src/Client/Delivery.antt =====
-- The messages that a tester waits for, with the nodes that have delivered each: the part of
-- `on_delivery` that client/consistency_tester.py and client/queue_size_tester.py share.
pub mod History
pub mod Accounts
pub mod Balance
use reliable_broadcast.Prelude.{
  ℕ, none, some, List, [], ◌∷◌, ◌++◌, length, contains, nat_eq, list_eq, ◌==◌, if◌then◌else◌, Text,
}
use reliable_broadcast.Dict.{Dict, lookup, insert, remove}

-- A message and the set of the nodes that delivered it.
abbrev pub Messages : Type 0
Messages = Dict Text (List ℕ)

-- `not_sent` and `repeated` are the two lines that the testers print.
pub data Report : Type 0 where
  not_sent repeated recorded completed : Report

-- The inner `else`: a node that is new to the message.
unfoldable pub record_node : ℕ → Messages → Text → ℕ → List ℕ → Messages × Report
record_node node_count messages message node_index nodes =
    let nodes' = nodes ++ node_index ∷ [] in
    if length nodes' == node_count
    then (remove message messages, completed)
    else (insert message nodes' messages, recorded)

unfoldable pub deliver : ℕ → Messages → Text → ℕ → Messages × Report
unfolding record_node
deliver node_count messages message node_index = elim (lookup message messages) [
  | none ↦ (messages, not_sent)
  | some nodes ↦
      if contains nodes node_index
      then (messages, repeated)
      else record_node node_count messages message node_index nodes
]
