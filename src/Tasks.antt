-- ===== src/Tasks.antt =====
-- plugins/tasks/backend/model.go: the definitions of tasks. A Go string with a few known values is a
-- data type with a constructor for the others; a pointer is an `Option`. The plugin is WebAssembly, so
-- an `int` has 32 bits.
pub mod Normalize
pub mod Validate
pub mod Backoff
pub mod Host
pub mod Plugin
pub mod Launch
pub mod Exit
pub mod Control
pub mod Rpc
pub mod Frame
pub mod Dispatch
pub mod Lifecycle
pub mod Events
pub mod Ids
pub mod ReadOnly
mod Tests
use run_pilot.Prelude.{Bool, List, Option, ℕ}
use run_pilot.Prelude.Int.{ℤ}
use run_pilot.Prelude.Bytes.{Bytes}
use run_pilot.Prelude.Dict.{Dict}

pub data TaskType : Type 0 where
  continuous scheduled : TaskType
  other_type : Bytes → TaskType

pub data RestartMode : Type 0 where
  unset_mode never on_failure always : RestartMode
  other_mode : Bytes → RestartMode

pub data OverlapPolicy : Type 0 where
  unset_policy skip allow : OverlapPolicy
  other_policy : Bytes → OverlapPolicy

pub record Command : Type 0 where
  pub path : Bytes
  pub args : List Bytes
  pub working_directory : Bytes
  pub environment : Dict Bytes
  pub interpreter : Bytes

pub record Restart : Type 0 where
  pub mode : RestartMode
  pub initial_delay_seconds : ℤ
  pub max_delay_seconds : ℤ
  pub max_retries : ℤ

pub record Schedule : Type 0 where
  pub type : Bytes
  pub interval_seconds : ℤ
  pub time_of_day : Bytes
  pub cron : Bytes
  pub time_zone : Bytes

pub record Task : Type 0 where
  pub id : Bytes
  pub name : Bytes
  pub description : Bytes
  pub type : TaskType
  pub command : Command
  pub autostart : Bool
  pub restart : Option Restart
  pub enabled : Bool
  pub schedule : Option Schedule
  pub overlap_policy : OverlapPolicy
  pub timeout_seconds : ℤ

abbrev pub max_tasks : ℕ
max_tasks = 500

abbrev pub max_delay : ℕ
max_delay = 86400

abbrev pub max_retry : ℕ
max_retry = 1000

abbrev pub max_timeout : ℕ
max_timeout = 604800
