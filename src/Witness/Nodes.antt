-- ===== src/Witness/Nodes.antt =====
-- Runs of the nodes at concrete inputs.
use reliable_broadcast.Prelude.{
  ℕ, ◌≤◌, ◌≡◌, refl, true, not, ◌||◌, List, [], ◌∷◌, count, contains, nat_eq, list_eq, ◌==◌, arith,
  list_beq, list_beq_iff, any, every,
}
use reliable_broadcast.Dict.{lookup, insert}
use reliable_broadcast.Client.Message.{MessageType, send, echo, ready}
use reliable_broadcast.Node.Parse.{NodeMessage}
use reliable_broadcast.Node.Thresholds.{get_t, get_echo_target}
use reliable_broadcast.Node.Session.{
  create, senders, add_sender, add_vote, broadcast_as, send_ready, on_echo, amplify, try_deliver,
  on_ready, dispatch, process,
}
use reliable_broadcast.Node.Session.Moves.{posted, delivers}
use reliable_broadcast.Node.Session.Sound.{any_delivery}
use reliable_broadcast.Node.Pool.{session_id_eq}
use reliable_broadcast.Node.Network.{Setting, Nodes, start, Reachable}
use reliable_broadcast.Node.Network.Faithful.{IsTolerable}
use reliable_broadcast.Node.Network.Safety.{HasDelivered, agreement, integrity}
use reliable_broadcast.Node.Network.Attended.{received}
use reliable_broadcast.Node.Network.Liveness.{totality}
use reliable_broadcast.Node.Network.Quorums.{IsQuiet, IsOnly}
use reliable_broadcast.Node.Network.Quiet.{quiet_test, quiet_test-IsQuiet}
use reliable_broadcast.Node.Network.Run.{admissible, take_step, run, run-Reachable}

abbrev pub hello : List ℕ
hello = 104 ∷ 105 ∷ []

abbrev pub message : MessageType → ℕ → NodeMessage
message t k = record {
  message_type = t;
  mchain_hash = 1234;
  client_id = 131;
  nonce = 7;
  node_id = k;
  payload = hello;
}

-- Four nodes, of which the fourth is faulty.
abbrev pub four : Setting
four = record {
  id = record { mchain_hash = 1234; client_id = 131; nonce = 7 };
  members = 1 ∷ 2 ∷ 3 ∷ 4 ∷ [];
  honest = λ k. not (k == 4);
  submitted = λ p. p == hello;
}

pub four-IsTolerable : IsTolerable four
unfolding count get_t contains
four-IsTolerable = record {
  distinct = (refl, (refl, (refl, (refl, tt))));
  positive = ground arith;
  small = ground arith;
  few = ground arith;
}

-- The third node takes nothing in.
abbrev pub events : List (ℕ × NodeMessage)
events =
    (1, message send 0)
    ∷ (2, message send 0)
    ∷ (1, message echo 2)
    ∷ (1, message echo 4)
    ∷ (1, message ready 4)
    ∷ (2, message ready 1)
    ∷ (2, message ready 4)
    ∷ (1, message ready 2)
    ∷ []

abbrev final : Nodes
final = run four events (start four)

final-Reachable : Reachable four final
final-Reachable = run-Reachable four events (start four) Reachable.initially

delivered_first : HasDelivered final 1 hello
unfolding run take_step admissible create get_t get_echo_target senders add_sender add_vote
    broadcast_as send_ready on_echo amplify try_deliver on_ready dispatch process posted delivers
    any contains lookup insert list_beq every received quiet_test count
delivered_first = refl

delivered_second : HasDelivered final 2 hello
unfolding run take_step admissible create get_t get_echo_target senders add_sender add_vote
    broadcast_as send_ready on_echo amplify try_deliver on_ready dispatch process posted delivers
    any contains lookup insert list_beq every received quiet_test count
delivered_second = refl

agreement_example : hello ≡ hello
unfolding contains count get_t
agreement_example =
    agreement four four-IsTolerable (ground arith) final-Reachable 1 2 hello hello (refl, refl)
      (refl, refl) delivered_first delivered_second

integrity_example : (four.submitted hello ≡ true) × (count any_delivery (final 1).local.log ≤ 1)
unfolding contains
integrity_example =
    integrity four four-IsTolerable final-Reachable 1 hello (refl, refl) delivered_first

-- The three correct nodes take in the SEND, and all that the others post.
abbrev all_events : List (ℕ × NodeMessage)
all_events =
    (1, message send 0)
    ∷ (2, message send 0)
    ∷ (3, message send 0)
    ∷ (1, message echo 2)
    ∷ (1, message echo 3)
    ∷ (2, message echo 1)
    ∷ (2, message echo 3)
    ∷ (3, message echo 1)
    ∷ (3, message echo 2)
    ∷ (1, message ready 2)
    ∷ (1, message ready 3)
    ∷ (2, message ready 1)
    ∷ (2, message ready 3)
    ∷ (3, message ready 1)
    ∷ (3, message ready 2)
    ∷ []

abbrev last : Nodes
last = run four all_events (start four)

last-Reachable : Reachable four last
last-Reachable = run-Reachable four all_events (start four) Reachable.initially

last-IsQuiet : IsQuiet four last
unfolding run take_step admissible create get_t get_echo_target senders add_sender add_vote
    broadcast_as send_ready on_echo amplify try_deliver on_ready dispatch process posted delivers
    any contains lookup insert list_beq every received quiet_test count
last-IsQuiet = quiet_test-IsQuiet four last refl

IsOnly-hello : IsOnly four hello
unfolding IsOnly
IsOnly-hello q h = (list_beq_iff q hello).0 h

delivered_last : HasDelivered last 1 hello
unfolding run take_step admissible create get_t get_echo_target senders add_sender add_vote
    broadcast_as send_ready on_echo amplify try_deliver on_ready dispatch process posted delivers
    any contains lookup insert list_beq every received quiet_test count
delivered_last = refl

totality_example : HasDelivered last 2 hello
unfolding contains
totality_example =
    totality four four-IsTolerable last-Reachable last-IsQuiet hello IsOnly-hello 1 2 (refl, refl)
      (refl, refl) delivered_last

-- A client that sends two different messages of the same number makes six correct nodes disagree:
-- a node posts an ECHO for each SEND.
abbrev other : List ℕ
other = 98 ∷ 121 ∷ []

abbrev six : Setting
six = record {
  id = record { mchain_hash = 1234; client_id = 131; nonce = 7 };
  members = 1 ∷ 2 ∷ 3 ∷ 4 ∷ 5 ∷ 6 ∷ [];
  honest = λ k. true;
  submitted = λ p. (p == hello) || (p == other);
}

abbrev second : MessageType → ℕ → NodeMessage
second t k = record (message t k) { payload = other }

abbrev split_events : List (ℕ × NodeMessage)
split_events =
    (1, message send 0)
    ∷ (2, message send 0)
    ∷ (3, message send 0)
    ∷ (4, message send 0)
    ∷ (3, second send 0)
    ∷ (4, second send 0)
    ∷ (5, second send 0)
    ∷ (6, second send 0)
    ∷ (1, message echo 2)
    ∷ (1, message echo 3)
    ∷ (1, message echo 4)
    ∷ (2, message echo 1)
    ∷ (2, message echo 3)
    ∷ (2, message echo 4)
    ∷ (5, second echo 3)
    ∷ (5, second echo 4)
    ∷ (5, second echo 6)
    ∷ (6, second echo 3)
    ∷ (6, second echo 4)
    ∷ (6, second echo 5)
    ∷ (3, message ready 1)
    ∷ (3, message ready 2)
    ∷ (4, second ready 5)
    ∷ (4, second ready 6)
    ∷ []

split_deliveries :
    HasDelivered (run six split_events (start six)) 3 hello
    × HasDelivered (run six split_events (start six)) 4 other
unfolding run take_step admissible create get_t get_echo_target senders add_sender add_vote
    broadcast_as send_ready on_echo amplify try_deliver on_ready dispatch process posted delivers
    any contains lookup insert list_beq every received quiet_test count
split_deliveries = (refl, refl)
