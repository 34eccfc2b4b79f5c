-- ===== src/Terminal/Open/Progress.antt =====
-- A session is opened where there is room, whatever became of the ones before.
use run_pilot.Tasks.Host.{ok}
use run_pilot.Prelude.{[], ap, arith, false, if◌then◌else◌, leb, length, refl, ◌<◌, ◌∷◌, ◌≡◌}
use run_pilot.Prelude.Bytes.{Bytes, str_eq}
use run_pilot.Prelude.Dict.{Dict, put}
use run_pilot.Terminal.{
  Host, Plugin, Session, SessionCreate, TerminalSettings, answered, called, session_create,
  system_status,
}
use run_pilot.Terminal.Settings.{default_shell, read_settings}
use run_pilot.Terminal.Open.{
  OpenRequest, create_for, create_session, max_sessions, open_fallback, open_on, open_session,
  open_with, opened, running_only,
}

-- The state that a request to open leaves when it asks for the settings.
abbrev pub asked : Plugin → Plugin
asked pl = called system_status (record pl { sessions = running_only pl.sessions })

-- The program of the settings, or else the default shell of the system.
abbrev pub program_of : TerminalSettings → Bytes → Bytes
program_of s os = if str_eq s.program [] then default_shell os else s.program

-- Reading the settings leaves the sessions as they are.
read_settings-sessions : (h : Host) (pl : Plugin) → (read_settings h pl).1.sessions ≡ pl.sessions
unfolding read_settings called
read_settings-sessions h pl = refl

opened-Keeps :
    (program : Bytes) (s : Session) (pl : Plugin) {m : Dict Session}
    → pl.sessions ≡ m
    → ((opened program (ok s, pl)).0 ≡ answered (record s { command = program }))
      × ((opened program (ok s, pl)).1.sessions ≡ put s.id (record s { command = program }) m)
unfolding opened
opened-Keeps program s pl e = (refl, ap (λ m. put s.id (record s { command = program }) m) e)

-- With fewer than eight sessions that run, settings that can be read, and a host that says which system
-- it is and starts the session, `open` answers the session that the host made, with the program that was
-- asked for as its command, and its sessions are those that run, with this one put under its id. Sessions
-- that have ended do not count, and are dropped.
pub open_session-progress :
    (h : Host) (r : OpenRequest) (pl : Plugin) (os : Bytes) (s : TerminalSettings) (made : Session)
    → length (running_only pl.sessions) < max_sessions
    → h.os (asked pl).calls ≡ ok os
    → (read_settings h (asked pl)).0 ≡ answered s
    → ((c : SessionCreate)
        → h.create_session (session_create c ∷ (read_settings h (asked pl)).1.calls) ≡ ok made)
    → ((open_session h r pl).0 ≡ answered (record made { command = program_of s os }))
      × ((open_session h r pl).1.sessions
          ≡ put made.id (record made { command = program_of s os }) (running_only pl.sessions))
unfolding open_session open_on open_with open_fallback create_session called create_for
    default_shell
open_session-progress h r pl os s made room answers readable starts =
    let fits : leb max_sessions (length (running_only pl.sessions)) ≡ false =
      ground (arith, room) in
    rw
      (
        open_session,
        fits,
        open_on,
        answers,
        readable,
        open_with,
        starts (create_for s os r),
        open_fallback,
      )
      (opened-Keeps (program_of s os) made
        (called (session_create (create_for s os r)) (read_settings h (asked pl)).1)
        (read_settings-sessions h (asked pl)))
