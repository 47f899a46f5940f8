-- ===== src/Node/Thresholds.antt =====
-- The thresholds of src/session.cpp, in `size_t` of 64 bits.
use reliable_broadcast.Prelude.{
  ℕ, ◌+◌, ◌-◌, ◌*◌, ◌/◌, ◌%◌, ◌^◌, ◌≤◌, ◌<◌, ◌==◌, nat_eq, if◌then◌else◌, arith,
}

-- How many faulty nodes are borne; for no nodes at all, `--t` wraps round.
unfoldable pub get_t : ℕ → ℕ
get_t n = let t = n / 3 in if t * 3 == n then (t + 2 ^ 64 - 1) % 2 ^ 64 else t

-- Half of the sum, rounded up.
unfoldable pub get_echo_target : ℕ → ℕ → ℕ
get_echo_target n t = let sum = (n + t + 1) % 2 ^ 64 in sum / 2 + sum % 2

-- The threshold on faulty nodes is the largest below a third of the nodes. The target for ECHO
-- messages can be met by the other nodes alone, and two sets of nodes that meet it share more nodes
-- than are faulty. None of the sums wraps.
pub thresholds :
    (n : ℕ)
    → 0 < n
    → n < 2 ^ 62
    → (3 * get_t n < n)
      × (n ≤ 3 * get_t n + 3)
      × (get_echo_target n (get_t n) + get_t n ≤ n)
      × (n + get_t n < 2 * get_echo_target n (get_t n))
unfolding get_t get_echo_target
thresholds n positive small = ground arith
