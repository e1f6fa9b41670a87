-- ===== src/Outside/Durations.antt =====
-- The arithmetic of durations: where it is exact.
use k8s_docker_operator.Prelude.{ℕ, ◌≡◌, arith, ◌≤◌, ◌*◌, ◌<◌}
use k8s_docker_operator.Prelude.Int.{
  ℤ, pos, negsuc, pos_part, neg_part, ◌-ℤ◌, ◌*ℤ◌, int64, int64_id, InInt32, InInt64,
}
use k8s_docker_operator.Outside.Time.{second, seconds, sub_time}

pub second_parts :
    (n : ℤ)
    → (pos_part (n *ℤ second) ≡ pos_part n * 1000000000)
      × (neg_part (n *ℤ second) ≡ neg_part n * 1000000000)
unfolding ◌*ℤ◌
second_parts (pos n) = ground arith
second_parts (negsuc n) = ground arith

pub seconds_exact : (n : ℤ) → InInt32 n → seconds n ≡ n *ℤ second
unfolding seconds
seconds_exact n h = int64_id _ (omega (arith, second_parts n))

pub sub_time_exact : (t u : ℤ) → InInt64 (t -ℤ u) → sub_time t u ≡ t -ℤ u
unfolding sub_time
sub_time_exact t u h = ground arith

-- From 9223372037 seconds on the product wraps to a negative duration.
pub seconds_wraps :
    (n : ℕ)
    → 9223372037 ≤ n
    → n ≤ 18446744073
    → (pos_part (seconds (pos n)) ≡ 0) × (0 < neg_part (seconds (pos n)))
unfolding seconds int64 ◌*ℤ◌
seconds_wraps n lo hi = ground arith

-- The seconds that an int64 of nanoseconds can hold.
abbrev pub InSeconds : ℤ → Type 0
InSeconds n = (pos_part n ≤ 9223372036) × (neg_part n ≤ 9223372036)

pub seconds_exact_long : (n : ℤ) → InSeconds n → seconds n ≡ n *ℤ second
unfolding seconds
seconds_exact_long n h = int64_id _ (omega (arith, second_parts n))
