-- ===== src/Tasks/Host.antt =====
-- The host's side of the plugin's capability calls, `callHost` of plugins/tasks/backend/plugin.go.
-- The host is a parameter: it answers each call by the list of all calls so far, newest first, so it
-- may answer in any way, and differently each time. Calls whose answer is ignored are only listed.
use run_pilot.Prelude.{Bool, List, Option, false, inl, inr, refl, ℕ, ◌≡◌, ◌⊎◌}
use run_pilot.Prelude.Int.{ℤ}
use run_pilot.Prelude.Bytes.{Bytes, codes, str_eq}
use run_pilot.Prelude.Dict.{Dict}
use run_pilot.Tasks.{Schedule, Task}

pub data Callback : Type 0 where
  on_task on_restart on_reconcile : Callback

-- An error of `callHost`: a capability error with its code, or any other.
pub data HostError : Type 0 where
  capability : Bytes → Bytes → HostError
  failure : Bytes → HostError

pub data HostResult {ℓ} (A : Type ℓ) : Type ℓ where
  ok : A → HostResult A
  fail : HostError → HostResult A

pub record ProcessStart : Type 0 where
  pub command : Bytes
  pub args : List Bytes
  pub working_directory : Bytes
  pub environment : Dict Bytes
  pub interpreter : Bytes
  pub timeout_seconds : ℤ
  pub history_id : Bytes

pub record Begun : Type 0 where
  pub id : Bytes
  pub started_at : Bytes

pub record Started : Type 0 where
  pub id : Bytes
  pub pid : ℤ

pub record ProcessStatus : Type 0 where
  pub running : Bool
  pub exit_code : Option ℤ
  pub terminated : Bool
  pub timed_out : Bool

pub record Execution : Type 0 where
  pub id : Bytes
  pub started_at : Bytes
  pub exit_code : Option ℤ
  pub success : Option Bool
  pub message : Bytes

-- What `storage.get` holds under the key: nothing, JSON that does not decode, or a state file.
pub data Stored : Type 0 where
  absent : Stored
  unreadable : Bytes → Stored
  state_file : ℤ → ℤ → List Task → Stored

-- `callBack` data of a published status: the fields that the browser sees.
pub data ViewState : Type 0 where
  view_stopped view_running view_stopping view_restarting view_failure view_idle : ViewState

pub record Status : Type 0 where
  pub state : ViewState
  pub pid : ℤ
  pub started_at : Bytes
  pub restart_count : ℕ
  pub current_run_id : Bytes
  pub running_count : ℕ
  pub last_run_id : Bytes
  pub last_run_at : Bytes
  pub last_exit : Option ℤ
  pub last_success : Option Bool
  pub message : Bytes
  pub error : Bytes

pub record View : Type 0 where
  pub task : Task
  pub status : Status

pub data Reason : Type 0 where
  created updated deleted : Reason

pub data Call : Type 0 where
  storage_get : Call
  storage_set : List Task → ℤ → Call
  history_list : Bytes → ℤ → Call
  history_get : Bytes → Call
  history_output : Bytes → ℤ → Call
  history_begin : Bytes → Bytes → Bytes → Call
  history_append : Bytes → Bytes → Call
  history_finish : Bytes → Option ℤ → Bool → Bytes → Call
  process_start : ProcessStart → Call
  process_status process_terminate : Bytes → Call
  scheduler_register : Bytes → Callback → Option Schedule → Call
  scheduler_remove : Bytes → Call
  scheduler_validate : Option Schedule → Call
  publish_status : View → Call
  publish_completed : Bytes → Bytes → Bytes → ℤ → Bool → Bytes → Call
  publish_changed : Reason → Bytes → Call

pub record Host : Type 0 where
  pub get_storage : List Call → HostResult Stored
  pub set_storage : List Call → HostResult (Unit {0})
  pub begin_history : List Call → HostResult Begun
  pub last_execution : List Call → HostResult (Option Execution)
  pub start_process : List Call → HostResult Started
  pub process_state : List Call → HostResult ProcessStatus
  pub register_schedule : List Call → HostResult (Unit {0})
  pub validate_schedule : List Call → HostResult (Unit {0})
  -- Answers that are passed on to the browser as they come.
  pub read_history : List Call → HostResult Bytes

-- `errText`.
unfoldable pub err_text : HostError → Bytes
err_text (capability code message) = message
err_text (failure message) = message

unfoldable pub is_not_found : HostError → Bool
is_not_found (capability code message) = str_eq code (codes "not_found")
is_not_found (failure message) = false

pub HostResult-cases {ℓ} :
    {A : Type ℓ} (r : HostResult A) → ((e : HostError) × (r ≡ fail e)) ⊎ ((a : A) × (r ≡ ok a))
HostResult-cases (fail e) = inl (e, refl)
HostResult-cases (ok a) = inr (a, refl)
