-- ===== src/Terminal/Open/Limit.antt =====
-- A new session is made below the limit only.
use run_pilot.Tasks.Host.{HostResult, fail, ok}
use run_pilot.Terminal.Sessions.Limit.{IsLimited, close-IsLimited}
use run_pilot.Prelude.{
  Bool, Bool-cases, List, Option, [], arith, false, inl, inr, leb, length, none, some, true, ◌&&◌,
  ◌<◌, ◌∷◌, ◌≤◌,
}
use run_pilot.Prelude.Bytes.{Bytes, codes, str_eq}
use run_pilot.Prelude.Dict.{Dict, length-put, put}
use run_pilot.Terminal.{
  Host, Plugin, Reply, RpcError, Session, SessionCreate, TerminalSettings, answered, called,
  refused, system_status,
}
use run_pilot.Terminal.Settings.{read_settings, validate_settings, wanted_settings}
use run_pilot.Terminal.Open.{
  OpenRequest, create_for, create_or_fallback, create_session, is_windows, max_sessions,
  open_fallback, open_on, open_session, open_with, opened, running_only, test_on, test_settings,
  test_valid, tested, with_shell,
}

-- There is room for one more.
abbrev HasRoom : Plugin → Type 0
HasRoom pl = length pl.sessions < 8

put-IsLimited :
    (id : Bytes) (s : Session) (pl : Plugin)
    → HasRoom pl
    → IsLimited (record pl { sessions = put id s pl.sessions })
put-IsLimited id s pl l = omega (arith, length-put id s pl.sessions)

-- The same beside what the host answered.
BesideRoom : HostResult Session × Plugin → Type 0
BesideRoom p = HasRoom p.1

module _ (h : Host) where
  create_session-BesideRoom :
      (c : SessionCreate) (pl : Plugin) → HasRoom pl → BesideRoom (create_session h c pl)
  unfolding BesideRoom create_session called
  create_session-BesideRoom c pl l = l

  tested-IsLimited : (p : HostResult Session × Plugin) → BesideRoom p → IsLimited (tested h p).1
  unfolding BesideRoom tested
  tested-IsLimited (fail e, pl) l = omega (arith, l)
  tested-IsLimited (ok s, pl) l = close-IsLimited h s.id true _ (put-IsLimited s.id s pl l)

  create_or_fallback-BesideRoom :
      (falls : Bool) (c : SessionCreate) (p : HostResult Session × Plugin)
      → BesideRoom p
      → BesideRoom (create_or_fallback h falls c p)
  unfolding BesideRoom create_or_fallback
  create_or_fallback-BesideRoom falls c (ok s, pl) l = l
  create_or_fallback-BesideRoom true c (fail e, pl) l = create_session-BesideRoom c pl l
  create_or_fallback-BesideRoom false c (fail e, pl) l = l

  opened-IsLimited :
      (program : Bytes) (p : HostResult Session × Plugin)
      → BesideRoom p
      → IsLimited (opened program p).1
  unfolding BesideRoom opened
  opened-IsLimited program (fail e, pl) l = omega (arith, l)
  opened-IsLimited program (ok s, pl) l = put-IsLimited s.id (record s { command = program }) pl l

  test_on-IsLimited :
      (s : TerminalSettings) (os : HostResult Bytes) (pl : Plugin)
      → HasRoom pl
      → IsLimited (test_on h s os pl).1
  unfolding test_on
  test_on-IsLimited s (fail e) pl l = omega (arith, l)
  test_on-IsLimited s (ok os) pl l = tested-IsLimited _ (
      create_or_fallback-BesideRoom (is_windows os && str_eq s.program []) _ _
        (create_session-BesideRoom _ pl l))

  test_valid-IsLimited :
      (s : TerminalSettings) (o : Option RpcError) (pl : Plugin)
      → IsLimited pl
      → IsLimited (test_valid h s o pl).1
  unfolding test_valid called
  test_valid-IsLimited s (some e) pl l = l
  test_valid-IsLimited s none pl l = elim (Bool-cases (leb max_sessions (length pl.sessions))) [
    | inl full ↦ rw (test_valid, full) l
    | inr room ↦
        let pl1 = called system_status pl in
        rw (test_valid, room) (test_on-IsLimited s (h.os pl1.calls) pl1 (ground (arith, room)))
  ]

  pub test_settings-IsLimited :
      (program : Bytes) (args : List Bytes) (pl : Plugin)
      → IsLimited pl
      → IsLimited (test_settings h program args pl).1
  unfolding test_settings
  test_settings-IsLimited program args pl l =
      let s = wanted_settings program args in test_valid-IsLimited s (validate_settings s) pl l

  open_fallback-IsLimited :
      (falls : Bool) (c : SessionCreate) (p : HostResult Session × Plugin)
      → BesideRoom p
      → IsLimited (open_fallback h falls c p).1
  unfolding open_fallback BesideRoom
  open_fallback-IsLimited falls c (ok s, pl) l = opened-IsLimited c.program (ok s, pl) l
  open_fallback-IsLimited true c (fail e, pl) l =
      opened-IsLimited _ _
        (create_session-BesideRoom (with_shell c (codes "powershell.exe") []) pl l)
  open_fallback-IsLimited false c (fail e, pl) l = opened-IsLimited c.program (fail e, pl) l

  open_with-IsLimited :
      (r : OpenRequest) (os : Bytes) (s : Reply TerminalSettings) (pl : Plugin)
      → HasRoom pl
      → IsLimited (open_with h r os s pl).1
  unfolding open_with
  open_with-IsLimited r os (refused e) pl l = omega (arith, l)
  open_with-IsLimited r os (answered s) pl l =
      open_fallback-IsLimited _ (create_for s os r) _
        (create_session-BesideRoom (create_for s os r) pl l)

  open_on-IsLimited :
      (r : OpenRequest) (os : HostResult Bytes) (pl : Plugin)
      → HasRoom pl
      → IsLimited (open_on h r os pl).1
  unfolding open_on read_settings called
  open_on-IsLimited r (fail e) pl l = omega (arith, l)
  open_on-IsLimited r (ok os) pl l =
      let (s, pl1) = read_settings h pl in open_with-IsLimited r os s pl1 l

  length-running_only : (m : Dict Session) → length (running_only m) ≤ length m
  unfolding running_only
  length-running_only [] = omega arith
  length-running_only ((id, s) ∷ m) = ground (arith, length-running_only m)

  pub open_session-IsLimited :
      (r : OpenRequest) (pl : Plugin) → IsLimited pl → IsLimited (open_session h r pl).1
  unfolding open_session called
  open_session-IsLimited r pl l =
      let pl1 = record pl { sessions = running_only pl.sessions } in
      elim (Bool-cases (leb max_sessions (length pl1.sessions))) [
        | inl full ↦ rw (open_session, full) (omega (arith, l, length-running_only pl.sessions))
        | inr room ↦
            let pl2 = called system_status pl1 in
            rw (open_session, room)
              (open_on-IsLimited r (h.os pl2.calls) pl2 (ground (arith, room)))
      ]
