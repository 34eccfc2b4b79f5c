-- ===== src/Terminal/Sessions/Limit.antt =====
-- Requests about sessions make none.
use run_pilot.Tasks.Host.{HostResult, fail, ok}
use run_pilot.Prelude.{Bool, Option, Option-cases, arith, inl, inr, length, none, some, ◌≤◌}
use run_pilot.Prelude.Int.{ℤ}
use run_pilot.Prelude.Bytes.{Bytes}
use run_pilot.Prelude.Dict.{find, length-delete, length-put_found}
use run_pilot.Terminal.{Host, Plugin, RpcError, StatusView, called, session_status}
use run_pilot.Terminal.Sessions.{
  close, close_from, close_owned, close_session, forget, owned, remember, resize, resize_owned,
  status, status_from, status_owned, updated, write, write_owned,
}

-- At most eight sessions.
abbrev pub IsLimited : Plugin → Type 0
IsLimited pl = length pl.sessions ≤ 8

pub write-IsLimited :
    (h : Host) (id text : Bytes) (pl : Plugin) → IsLimited pl → IsLimited (write h id text pl).1
unfolding write write_owned called
write-IsLimited h id text pl l = ground arith

pub resize-IsLimited :
    (h : Host) (id : Bytes) (rows columns : ℤ) (pl : Plugin)
    → IsLimited pl
    → IsLimited (resize h id rows columns pl).1
unfolding resize resize_owned called
resize-IsLimited h id rows columns pl l = ground arith

remember-IsLimited :
    (id : Bytes) (v : StatusView) (pl : Plugin)
    → IsLimited pl
    → IsLimited (remember id v (find id pl.sessions) pl)
unfolding remember
remember-IsLimited id v pl l = elim (Option-cases (find id pl.sessions)) [
  | inl h ↦ rw h l
  | inr (s, h) ↦ rw h (omega (arith, l, length-put_found id (updated v s) s pl.sessions h))
]

status_from-IsLimited :
    (id : Bytes) (r : HostResult StatusView) (pl : Plugin)
    → IsLimited pl
    → IsLimited (status_from id r pl).1
unfolding status_from
status_from-IsLimited id (fail e) pl l = l
status_from-IsLimited id (ok v) pl l = remember-IsLimited id v pl l

status_owned-IsLimited :
    (h : Host) (id : Bytes) (o : Option RpcError) (pl : Plugin)
    → IsLimited pl
    → IsLimited (status_owned h id o pl).1
unfolding status_owned called
status_owned-IsLimited h id (some e) pl l = l
status_owned-IsLimited h id none pl l =
    let pl1 = called (session_status id) pl in
    status_from-IsLimited id (h.session_state pl1.calls) pl1 l

pub status-IsLimited :
    (h : Host) (id : Bytes) (pl : Plugin) → IsLimited pl → IsLimited (status h id pl).1
unfolding status
status-IsLimited h id pl l = status_owned-IsLimited h id (owned id pl) pl l

pub close-IsLimited :
    (h : Host) (id : Bytes) (force : Bool) (pl : Plugin)
    → IsLimited pl
    → IsLimited (close h id force pl).1
unfolding close close_owned close_session close_from forget called
close-IsLimited h id force pl l = ground (arith, length-delete id pl.sessions)
