-- ===== src/Inventory/Reading/States.antt =====
-- The states of instances that `read_settings` of ops/ansible/ec2.py selects.
use reliable_broadcast.Prelude.{
  ◌≡◌, refl, ap, Bool, true, false, not, ◌&&◌, ◌||◌, Option, none, some, List, [], ◌∷◌, map,
  contains, arith, list_eq, nat_eq, list_beq_iff, ◌==◌, if◌then◌else◌, Text, codes, list_beq,
}
use reliable_broadcast.Inventory.Names.{split, strip}
use reliable_broadcast.Inventory.Reading.{ec2_valid_instance_states, valid_states, instance_states}

contains-kept :
    (valid : Text → Bool) (x state : Text) (xs : List Text) (rest : Bool)
    → contains xs state ≡ (valid state && rest)
    → contains (if not (valid x) then xs else x ∷ xs) state
      ≡ (valid state && ((x == state) || rest))
unfolding contains
contains-kept valid x state xs rest h = ground (arith, h, list_beq_iff x state, ap valid)

contains-valid_states :
    (states : List Text) (state : Text)
    → contains (valid_states states) state
      ≡ (contains ec2_valid_instance_states state && contains (map strip states) state)
unfolding valid_states contains
contains-valid_states [] state = ground arith
contains-valid_states (s ∷ states) state =
    contains-kept (contains ec2_valid_instance_states) (strip s) state (valid_states states)
      (contains (map strip states) state) (contains-valid_states states state)

and_true : (b : Bool) → b ≡ (b && true)
and_true true = refl
and_true false = refl

alone :
    (valid : Text → Bool) (x state : Text)
    → valid x ≡ true
    → contains (x ∷ []) state ≡ (valid state && x == state)
unfolding contains
alone valid x state h = ground (arith, h, list_beq_iff x state, ap valid)

running_valid : contains ec2_valid_instance_states (codes "running") ≡ true
unfolding contains list_beq codes
running_valid = refl

-- A state is selected exactly when it is one of the six that the cloud knows and, unless all
-- instances are asked for, one of the parts of the option, or is the running state where there is
-- no option.
pub contains-instance_states :
    (all_instances : Bool) (option : Option Text) (state : Text)
    → contains (instance_states all_instances option) state ≡ (
        contains ec2_valid_instance_states state
        && (all_instances || (elim option [
          | some states ↦ contains (map strip (split b',' states)) state
          | none ↦ codes "running" == state
        ])))
unfolding instance_states
contains-instance_states true option state = and_true (contains ec2_valid_instance_states state)
contains-instance_states false (some states) state = contains-valid_states (split b',' states) state
contains-instance_states false none state =
    alone (contains ec2_valid_instance_states) (codes "running") state running_valid
