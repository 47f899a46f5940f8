-- ===== src/Witness/Sessions.antt =====
-- Sessions and their pool at concrete inputs.
use reliable_broadcast.Prelude.{
  ℕ, List, length, ◌++◌, ◌⊎◌, ◌%◌, ◌^◌, contains, ◌+◌, ◌*◌, ◌≤◌, ◌<◌, ◌≡◌, refl, some, take, true,
  [], ◌∷◌, nat_eq, list_eq, ◌==◌, arith, if◌then◌else◌,
}
use reliable_broadcast.Dict.{lookup}
use reliable_broadcast.Client.Message.{send, ready}
use reliable_broadcast.Node.Parse.{SessionId}
use reliable_broadcast.Node.Thresholds.{get_t, get_echo_target}
use reliable_broadcast.Node.Session.{create, process, senders}
use reliable_broadcast.Node.Session.{Session, Outcome}
use reliable_broadcast.Node.Session.Moves.{Local, Moves, posted, delivers}
use reliable_broadcast.Node.Network.Invariant.{Reachable-IsFaithful}
use reliable_broadcast.Node.Session.Refining.{after}
use reliable_broadcast.Node.Session.Refines.{process-Moves}
use reliable_broadcast.Node.Session.Total.{process-Ends, process_ends}
use reliable_broadcast.Node.Session.Settled.{IsSettled, counted}
use reliable_broadcast.Node.Session.Completes.{process-IsSettled}
use reliable_broadcast.Node.Network.Attended.{Reachable-IsAttended}
use reliable_broadcast.Node.Pool.{
  Chains, Sessions, session_id_eq, process_message, session_at, get_nodes_count,
}
use reliable_broadcast.Node.Pool.Isolation.{process_message-session_at}
use reliable_broadcast.Node.Parse.{session_id}
use reliable_broadcast.Node.Thresholds.{thresholds}
use reliable_broadcast.Node.Network.{start, Reachable}
use reliable_broadcast.Node.Network.Run.{run, run-Reachable}
use reliable_broadcast.Witness.Nodes.{message, hello, four, events, four-IsTolerable}

thresholds_example :
    (3 * get_t 4 < 4)
    × (4 ≤ 3 * get_t 4 + 3)
    × (get_echo_target 4 (get_t 4) + get_t 4 ≤ 4)
    × (4 + get_t 4 < 2 * get_echo_target 4 (get_t 4))
thresholds_example = thresholds 4 (omega arith) (omega arith)

-- The second node's session of the run that loses messages, before the READY of the fourth.
abbrev waiting_local : Local
waiting_local = (run four (take 6 events) (start four) 2).local

abbrev waiting : Session
waiting = waiting_local.session

waiting-Reachable : Reachable four (run four (take 6 events) (start four))
waiting-Reachable = run-Reachable four (take 6 events) (start four) Reachable.initially

abbrev outcome : Outcome
outcome = (process-Ends 2 (message ready 4) waiting).0

process_ends_example :
    (o : Outcome) × (process 5 2 (message ready 4) waiting ≡ some o)
    × (process 3 2 (message ready 4) waiting ≡ some o)
process_ends_example = process_ends 2 (message ready 4) waiting 5 (omega arith)

process-Moves_example :
    Moves 2
      (message ready 4)
      (record { session = waiting; log = [] })
      (after (record { session = waiting; log = [] }) outcome)
process-Moves_example =
    process-Moves 3 2 (message ready 4) (record { session = waiting; log = [] }) outcome
      ((process-Ends 2 (message ready 4) waiting).1 3 (omega arith))

process-IsSettled_example :
    IsSettled outcome.session
    × (((length (senders hello outcome.session.echoes) < outcome.session.echo_target)
          × (length (senders hello outcome.session.readies) ≤ outcome.session.t))
        ⊎ ((q : List ℕ) × (posted ready q (waiting_local.log ++ outcome.effects) ≡ true)))
    × ((length (senders hello outcome.session.readies) ≤ (2 * outcome.session.t) % 2 ^ 64)
        ⊎ ((q : List ℕ) × (delivers q (waiting_local.log ++ outcome.effects) ≡ true)))
    × (counted ready hello 4 outcome.session ≡ true)
unfolding contains
process-IsSettled_example =
    process-IsSettled 3 2 (message ready 4) waiting_local outcome hello
      (Reachable-IsAttended four four-IsTolerable waiting-Reachable 2).settled
      (Reachable-IsFaithful four four-IsTolerable waiting-Reachable 2 (refl, refl)).sound
      ((process-Ends 2 (message ready 4) waiting).1 3 (omega arith))

abbrev chains : Chains
chains = (1234, 1 ∷ 2 ∷ 3 ∷ 4 ∷ []) ∷ []

process_message-session_at_example :
    (o : Outcome) × (later : Sessions) × (process 3 2
        (message send 0)
        (create 4 (session_id (message send 0)))
      ≡ some o)
    × (process_message 2 chains (message send 0) [] ≡ some (o.effects, later))
    × ((id : SessionId)
        → session_at chains id later
          ≡ (if session_id (message send 0) == id then some o.session else session_at chains id []))
unfolding session_at get_nodes_count lookup session_id
process_message-session_at_example =
    process_message-session_at 2 chains (message send 0) [] (create 4 (session_id (message send 0)))
      refl
