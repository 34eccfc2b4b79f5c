-- ===== src/Schedule.antt =====
-- internal/scheduler/scheduler.go and the `ScheduleSpec` of internal/model/model.go: what a schedule
-- means. The children hold the calendar, the cron expressions and the plugins' registrations.
pub mod Calendar
pub mod Daily
pub mod Cron
pub mod Compile
pub mod Registry
mod Tests
use run_pilot.Prelude.Int.{ℤ}
use run_pilot.Prelude.Bytes.{Bytes}

pub data ScheduleType : Type 0 where
  interval daily cron : ScheduleType
  other_type : Bytes → ScheduleType

-- `model.ScheduleSpec`. `int` has 64 bits.
pub record ScheduleSpec : Type 0 where
  pub type : ScheduleType
  pub interval_seconds : ℤ
  pub time_of_day : Bytes
  pub expression : Bytes
  pub time_zone : Bytes
