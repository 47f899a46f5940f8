-- ===== src/Node/Network/Run.antt =====
-- A run of the network from a list of events, by evaluation.
use reliable_broadcast.Prelude.{
  ℕ, ◌≡◌, subst, sym, ap, Bool, true, not, ◌&&◌, ◌||◌, Option, none, some, List, [], ◌∷◌, ◌++◌,
  contains, arith, nat_eq, if◌then◌else◌, if_true, if_false, Option-cases, Bool-cases, inl, inr,
}
use reliable_broadcast.Client.Message.{MessageType, send, echo, ready}
use reliable_broadcast.Node.Parse.{NodeMessage}
use reliable_broadcast.Node.Session.{Outcome, process}
use reliable_broadcast.Node.Network.{Setting, Nodes, IsAdmissible, update, said, Step, Reachable}

-- The conditions of a step.
unfoldable pub admissible : Setting → Nodes → MessageType → NodeMessage → Bool
admissible z nodes send m = z.submitted m.payload
admissible z nodes t m =
    contains z.members m.node_id && (not (z.honest m.node_id) || said nodes t m.node_id m.payload)

abbrev pub taken : Nodes → ℕ → NodeMessage → Option Outcome → Nodes
taken nodes i m none = nodes
taken nodes i m (some o) = update nodes i (record {
  local = record { session = o.session; log = (nodes i).local.log ++ o.effects };
  inbox = m ∷ (nodes i).inbox;
})

-- What cannot happen is passed over.
unfoldable pub take_step : Setting → ℕ → NodeMessage → Nodes → Nodes
unfolding admissible
take_step z i m nodes =
    if (contains z.members i && z.honest i) && admissible z nodes m.message_type m
    then taken nodes i m (process 3 i m (nodes i).local.session)
    else nodes

unfoldable pub run : Setting → List (ℕ × NodeMessage) → Nodes → Nodes
unfolding take_step
run z [] nodes = nodes
run z (e ∷ events) nodes = run z events (take_step z e.0 e.1 nodes)

admissible_sound :
    (z : Setting) (nodes : Nodes) (t : MessageType) (m : NodeMessage)
    → admissible z nodes t m ≡ true
    → IsAdmissible z nodes t m
unfolding admissible IsAdmissible
admissible_sound z nodes send m h = h
admissible_sound z nodes echo m h = (ground arith, λ honest. ground arith)
admissible_sound z nodes ready m h = (ground arith, λ honest. ground arith)

take_step-Reachable :
    (z : Setting) (i : ℕ) (m : NodeMessage) (nodes : Nodes)
    → Reachable z nodes
    → Reachable z (take_step z i m nodes)
unfolding take_step
take_step-Reachable z i m nodes r =
    let next = taken nodes i m (process 3 i m (nodes i).local.session) in
    elim (Bool-cases
      ((contains z.members i && z.honest i) && admissible z nodes m.message_type m)) [
        | inr g ↦ subst (Reachable z) (sym (if_false next nodes g)) r
        | inl g ↦
            subst (Reachable z) (sym (if_true next nodes g))
              (elim (Option-cases (process 3 i m (nodes i).local.session)) [
                | inl e ↦ subst (Reachable z) (sym (ap (taken nodes i m) e)) r
                | inr (o, e) ↦ subst (Reachable z) (sym (ap (taken nodes i m) e)) (
                    Reachable.later r (
                      Step.receive i m o (ground arith, ground arith)
                        (admissible_sound z nodes m.message_type m (ground arith)) e))
              ])
      ]

-- Every run is reached.
pub run-Reachable :
    (z : Setting) (events : List (ℕ × NodeMessage)) (nodes : Nodes)
    → Reachable z nodes
    → Reachable z (run z events nodes)
unfolding run
run-Reachable z [] nodes r = r
run-Reachable z (e ∷ events) nodes r =
    run-Reachable z events (take_step z e.0 e.1 nodes) (take_step-Reachable z e.0 e.1 nodes r)
