-- ===== src/Tasks/Backoff.antt =====
-- `restartDelay` of plugins/tasks/backend/model.go.
pub mod Laws
use run_pilot.Prelude.{if◌then◌else◌, ltb, suc, zero, ℕ, ◌%◌, ◌*◌, ◌-◌, ◌^◌}
use run_pilot.Prelude.Int.{leb_ℤ, negsuc, pos, ℤ}
use run_pilot.Tasks.{Restart}

-- A 32-bit integer, from the integer that the operation would give.
wrap32 : ℕ → ℤ
wrap32 n = let m = n % 2 ^ 32 in if ltb m (2 ^ 31) then pos m else negsuc (2 ^ 32 - m - 1)

-- `seconds *= 2`.
double32 : ℤ → ℤ
unfolding wrap32
double32 (pos n) = wrap32 (2 * n)
double32 (negsuc n) = wrap32 (2 ^ 32 - (2 * suc n) % 2 ^ 32)

double_until : ℕ → ℤ → ℤ → ℤ
double_until zero seconds max = seconds
double_until (suc k) seconds max =
    let rest = double_until k (double32 seconds) max in
    if leb_ℤ max (double32 seconds) then max else rest

or_default : ℤ → ℤ → ℤ
or_default d n = if leb_ℤ n (pos 0) then d else n

unfoldable pub restart_delay : Restart → ℕ → ℤ
unfolding double_until or_default double32
restart_delay r retry =
    double_until retry (or_default (pos 2) r.initial_delay_seconds)
      (or_default (pos 60) r.max_delay_seconds)
