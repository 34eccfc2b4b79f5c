-- ===== src/Terminal/Tests.antt =====
-- The terminal plugin on concrete hosts.
use run_pilot.Tasks.Host.{capability, fail, ok}
use run_pilot.Terminal.Sessions.Limit.{IsLimited}
use run_pilot.Terminal.Sessions.Unknown.{refusal}
use run_pilot.Terminal.Open.Progress.{asked, program_of, open_session-progress}
use run_pilot.Terminal.Dispatch.Limit.{Step, events, requests, shuts_down, steps, steps-IsLimited}
use run_pilot.Terminal.Dispatch.Unknown.{IsEnded, handle-unknown, shutdown-IsEnded, target}
use run_pilot.Prelude.{All, List, [], arith, false, none, refl, some, ◌∷◌, ◌≡◌}
use run_pilot.Prelude.Int.{pos}
use run_pilot.Prelude.Bytes.{codes, str_eq}
use run_pilot.Prelude.Dict.{find, put}
use run_pilot.Terminal.{Host, Plugin, Session, absent, answered, called, new_plugin, session_exit}
use run_pilot.Terminal.Settings.{default_settings, read_settings}
use run_pilot.Terminal.Open.{OpenRequest, open_session, running_only}
use run_pilot.Terminal.Dispatch.{
  EventData, close_terminal, error, event, event_data, handle, open_terminal, shutdown,
  write_terminal,
}

abbrev shell : Session
shell = record {
  id = codes "s1";
  state = codes "running";
  command = [];
  exit_code = none;
  reason = [];
}

-- It starts the session `s1`, and does not know any session.
abbrev linux_host : Host
linux_host = record {
  get_storage = λ calls. ok absent;
  set_storage = λ calls. ok tt;
  os = λ calls. ok (codes "linux");
  create_session = λ calls. ok shell;
  write_session = λ calls. fail (capability (codes "not_found") (codes "gone"));
  resize_session = λ calls. ok tt;
  session_state = λ calls. fail (capability (codes "not_found") (codes "gone"));
  terminate_session = λ calls. ok tt;
  publish_event = λ calls. ok tt;
}

abbrev sized : OpenRequest
sized = record { working_directory = []; rows = pos 0; columns = pos 120 }

abbrev exits : EventData
exits =
    event_data (codes "s1")
      (some (record { end_state = codes "exited"; end_code = some (pos 0); end_reason = [] }))

abbrev one_open : Plugin
one_open = record {
  sessions = (codes "s1", record shell { command = codes "/bin/sh" }) ∷ [];
  calls = [];
}

abbrev day : List Step
day =
    requests linux_host (open_terminal sized)
    ∷ events linux_host session_exit exits
    ∷ requests linux_host (close_terminal (codes "s1") false)
    ∷ shuts_down
    ∷ []

after_exit :
    find (codes "s1") (event linux_host session_exit exits one_open).1.sessions
    ≡ some (record shell {
      state = codes "exited";
      command = codes "/bin/sh";
      exit_code = some (pos 0);
    })
unfolding event called find put str_eq
after_exit = refl

steps-IsLimited_example : IsLimited (steps day new_plugin)
steps-IsLimited_example = steps-IsLimited day

handle-unknown_example :
    handle linux_host (write_terminal (codes "s2") (codes "ls")) one_open
    ≡ (error (refusal (codes "s2")), one_open)
unfolding find str_eq target
handle-unknown_example =
    handle-unknown linux_host (write_terminal (codes "s2") (codes "ls")) (codes "s2") one_open refl
      refl

shutdown-IsEnded_example :
    ((shutdown one_open).sessions ≡ []) × All (IsEnded (shutdown one_open).calls) one_open.sessions
shutdown-IsEnded_example = shutdown-IsEnded one_open

no_settings : (read_settings linux_host (asked one_open)).0 ≡ answered default_settings
unfolding read_settings
no_settings = refl

open_session-progress_example :
    ((open_session linux_host sized one_open).0
      ≡ answered (record shell { command = program_of default_settings (codes "linux") }))
    × ((open_session linux_host sized one_open).1.sessions
        ≡ put shell.id
            (record shell { command = program_of default_settings (codes "linux") })
            (running_only one_open.sessions))
unfolding running_only str_eq
open_session-progress_example =
    open_session-progress linux_host sized one_open (codes "linux") default_settings shell
      (omega arith) refl no_settings (λ c. refl)
