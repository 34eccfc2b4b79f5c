-- ===== src/Schedule/Calendar.antt =====
-- What the scheduler reads of Go's `time` in one location. The time zones are data of the host, so
-- the calendar is a parameter: a record of functions from seconds since the epoch.
use run_pilot.Prelude.{ℕ}

pub record Calendar : Type 0 where
  pub second : ℕ → ℕ
  pub minute : ℕ → ℕ
  pub hour : ℕ → ℕ
  pub day : ℕ → ℕ
  pub month : ℕ → ℕ
  pub weekday : ℕ → ℕ
  -- `t.AddDate(1, 0, 0)` and `t.AddDate(0, 0, 1)`.
  pub add_year : ℕ → ℕ
  pub add_day : ℕ → ℕ
  -- `time.Date` of the day of `t`, at an hour and a minute.
  pub at_clock : ℕ → ℕ → ℕ → ℕ

-- An instant is a number of nanoseconds.
abbrev pub nanos : ℕ
nanos = 1000000000
