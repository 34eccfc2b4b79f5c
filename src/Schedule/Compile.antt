-- ===== src/Schedule/Compile.antt =====
-- `Expression`, `compile` and the delay of the timing loops, of internal/scheduler/scheduler.go.
use run_pilot.Schedule.{ScheduleSpec, ScheduleType, interval, daily, cron, other_type}
use run_pilot.Schedule.Daily.{parse_time_of_day, next_daily}
use run_pilot.Prelude.{
  Option, [], if◌then◌else◌, leb, ltb, none, some, suc, ℕ, ◌%◌, ◌*◌, ◌++◌, ◌+◌, ◌-◌, ◌^◌, ◌∷◌,
}
use run_pilot.Prelude.Int.{leb_ℤ, negsuc, pos, ℤ}
use run_pilot.Prelude.Bytes.{Bytes, codes}
use run_pilot.Text.{trim_space}
use run_pilot.Text.Decimal.{itoa}
use run_pilot.Schedule.Calendar.{Calendar, nanos}
use run_pilot.Schedule.Cron.{CronExpr, next, parse_cron}

-- The causes of `fmt.Errorf` in this package; the text of a message is left out.
pub data ScheduleError : Type 0 where
  interval_not_positive bad_time_of_day bad_time_zone bad_cron unsupported_type : ScheduleError

pub data Result {ℓ} (A : Type ℓ) : Type ℓ where
  ok : A → Result A
  err : ScheduleError → Result A

infixl 5 ◌then◌
abbrev pub ◌then◌ {ℓ κ} : {A : Type ℓ} {B : Type κ} → Result A → (A → Result B) → Result B
ok a then f = f a
err e then f = err e

abbrev or_err {ℓ} : {A : Type ℓ} → ScheduleError → Option A → Result A
or_err e none = err e
or_err e (some a) = ok a

-- The closure that `compile` returns, as data: an interval in nanoseconds, a time of day in a
-- location, or a cron expression in a location.
pub data Compiled : Type 0 where
  every : ℤ → Compiled
  daily_at : Calendar → ℕ → ℕ → Compiled
  on_cron : Calendar → CronExpr → Compiled

-- `time.Duration(n) * time.Second`, on 64 bits.
wrap64 : ℕ → ℤ
wrap64 n = let m = n % 2 ^ 64 in if ltb m (2 ^ 63) then pos m else negsuc (2 ^ 64 - m - 1)

seconds : ℤ → ℤ
seconds (pos n) = wrap64 (n * nanos)
seconds (negsuc n) = wrap64 (2 ^ 64 - (suc n * nanos) % 2 ^ 64)

-- `time.LoadLocation` and `time.Local` are the host's.
module _ (load_location : Bytes → Option Calendar) (local : Calendar) where
  zone_prefix : Bytes → Result Bytes
  zone_prefix [] = ok []
  zone_prefix (c ∷ s) = or_err bad_time_zone (load_location (c ∷ s)) then λ _.
      ok (codes "TZ=" ++ (c ∷ s) ++ codes " ")

  unfoldable pub expression_of : ScheduleType → ScheduleSpec → Result Bytes
  unfolding zone_prefix
  expression_of interval spec =
      if leb_ℤ spec.interval_seconds (pos 0)
      then err interval_not_positive
      else ok (codes "@every " ++ itoa spec.interval_seconds ++ codes "s")
  expression_of daily spec = or_err bad_time_of_day (parse_time_of_day spec.time_of_day) then λ _.
      zone_prefix spec.time_zone then λ prefix. ok (prefix ++ codes "daily " ++ spec.time_of_day)
  expression_of cron spec = or_err bad_cron (parse_cron spec.expression) then λ _.
      zone_prefix spec.time_zone then λ prefix. ok (prefix ++ trim_space spec.expression)
  expression_of (other_type t) spec = err unsupported_type

  unfoldable pub expression : ScheduleSpec → Result Bytes
  unfolding expression_of
  expression spec = expression_of spec.type spec

  location : Bytes → Result Calendar
  location [] = ok local
  location (c ∷ s) = or_err bad_time_zone (load_location (c ∷ s))

  compile_type : Calendar → ScheduleType → ScheduleSpec → Result Compiled
  unfolding seconds wrap64
  compile_type loc interval spec = ok (every (seconds spec.interval_seconds))
  compile_type loc daily spec =
      or_err bad_time_of_day (parse_time_of_day spec.time_of_day) then λ hm.
      ok (daily_at loc hm.0 hm.1)
  compile_type loc cron spec =
      or_err bad_cron (parse_cron spec.expression) then λ e. ok (on_cron loc e)
  compile_type loc (other_type t) spec = err unsupported_type

  unfoldable pub compile : ScheduleSpec → Result Compiled
  unfolding expression location compile_type
  compile spec =
      expression spec then λ _. location spec.time_zone then λ loc. compile_type loc spec.type spec

-- The instant of the next run, in nanoseconds.
unfoldable pub next_run : Compiled → ℕ → ℤ
next_run (every (pos d)) now = pos (now + d)
next_run (every (negsuc d)) now =
    if leb (suc d) now then pos (now - suc d) else negsuc (suc d - now - 1)
next_run (daily_at loc h m) now = pos (next_daily loc h m now)
next_run (on_cron loc e) now = pos (next loc e now)

-- How long a timing loop sleeps: `now` is read for the next run, `later` for the delay.
unfoldable pub delay : Compiled → ℕ → ℕ → ℕ
unfolding next_run
delay c now later = elim (next_run c now) [
  | negsuc t ↦ nanos
  | pos t ↦ if ltb t later then nanos else t - later
]
