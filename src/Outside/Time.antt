-- ===== src/Outside/Time.antt =====
-- The clock: instants and durations in nanoseconds, a duration in the 64 bits of `time.Duration`.
use k8s_docker_operator.Prelude.{if◌then◌else◌}
use k8s_docker_operator.Prelude.Int.{ℤ, pos, negsuc, ◌-ℤ◌, ◌*ℤ◌, ltb_ℤ, int64}
use k8s_docker_operator.Exec.{Exec, ok}
use k8s_docker_operator.Outside.Calls.{Env, World}

abbrev pub second : ℤ
second = pos 1000000000

-- `time.Duration(n) * time.Second`, which wraps.
unfoldable pub seconds : ℤ → ℤ
seconds n = int64 (n *ℤ second)

-- `t.Sub(u)` saturates at the ends of int64.
unfoldable pub sub_time : ℤ → ℤ → ℤ
sub_time t u =
    let d = t -ℤ u in
    if ltb_ℤ (pos 9223372036854775807) d
    then pos 9223372036854775807
    else if ltb_ℤ d (negsuc 9223372036854775807)
    then negsuc 9223372036854775807
    else d

module _ {W F : Type 0} (env : Env W F) where
  unfoldable pub clock : Exec (World W) ℤ
  clock w = (ok (env.now w.outside).0, record w { outside = (env.now w.outside).1 })
