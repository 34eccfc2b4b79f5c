-- ===== src/Schedule/Daily.antt =====
-- `parseTimeOfDay` of internal/scheduler/scheduler.go and the daily schedule.
use run_pilot.Prelude.{
  List, Option, [], arith, if◌then◌else◌, leb, ltb, none, some, ℕ, ◌&&◌, ◌*◌, ◌/◌, ◌<◌, ◌∷◌, ◌≡◌,
}
use run_pilot.Prelude.Int.{negsuc, pos, ℤ}
use run_pilot.Prelude.Bytes.{Bytes}
use run_pilot.Text.{split, trim_space}
use run_pilot.Text.Decimal.{atoi}
use run_pilot.Prelude.Maybe.{>>=-eq-some, ◌>>=◌}
use run_pilot.Schedule.Calendar.{Calendar, nanos}

clock_time : ℤ → ℤ → Option (ℕ × ℕ)
clock_time (pos h) (pos m) = if leb h 23 && leb m 59 then some (h, m) else none
clock_time (pos h) (negsuc m) = none
clock_time (negsuc h) m = none

hour_minute : List Bytes → Option (ℕ × ℕ)
hour_minute [] = none
hour_minute (h ∷ []) = none
hour_minute (h ∷ m ∷ []) = do a ← atoi 64 h; b ← atoi 64 m; clock_time a b
hour_minute (h ∷ m ∷ p ∷ ps) = none

unfoldable pub parse_time_of_day : Bytes → Option (ℕ × ℕ)
unfolding hour_minute clock_time
parse_time_of_day v = hour_minute (split (trim_space v) b':')

clock_time_bounds : (a b : ℤ) (h m : ℕ) → clock_time a b ≡ some (h, m) → (h < 24) × (m < 60)
unfolding clock_time
clock_time_bounds (pos a) (pos b) h m e = ground arith
clock_time_bounds (pos a) (negsuc b) h m e = cc
clock_time_bounds (negsuc a) b h m e = cc

hour_minute_bounds :
    (parts : List Bytes) (h m : ℕ) → hour_minute parts ≡ some (h, m) → (h < 24) × (m < 60)
unfolding hour_minute
hour_minute_bounds [] h m e = cc
hour_minute_bounds (a ∷ []) h m e = cc
hour_minute_bounds (a ∷ b ∷ []) h m e =
    let (x, _, e') = >>=-eq-some (atoi 64 a) (λ x. atoi 64 b >>= λ y. clock_time x y) e in
    let (y, _, e'') = >>=-eq-some (atoi 64 b) (clock_time x) e' in clock_time_bounds x y h m e''
hour_minute_bounds (a ∷ b ∷ c ∷ parts) h m e = cc

-- A time of day that is read lies within the day.
pub parse_time_of_day_bounds :
    (v : Bytes) (h m : ℕ) → parse_time_of_day v ≡ some (h, m) → (h < 24) × (m < 60)
unfolding parse_time_of_day
parse_time_of_day_bounds v h m e = hour_minute_bounds (split (trim_space v) b':') h m e

-- The function that a daily schedule compiles to, at the second `now`.
unfoldable pub next_daily : Calendar → ℕ → ℕ → ℕ → ℕ
next_daily c h m now =
    let today = c.at_clock (now / nanos) h m in
    if ltb now (today * nanos) then today * nanos else c.add_day today * nanos
