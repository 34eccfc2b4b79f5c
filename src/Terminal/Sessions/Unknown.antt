-- ===== src/Terminal/Sessions/Unknown.antt =====
-- Requests about a session that the plugin does not have are refused before the host is asked.
use run_pilot.Prelude.{Bool, [], arith, if◌then◌else◌, none, refl, some, ◌≡◌}
use run_pilot.Prelude.Int.{ℤ}
use run_pilot.Prelude.Bytes.{Bytes, codes, str_eq}
use run_pilot.Prelude.Dict.{find}
use run_pilot.Terminal.{Host, Plugin, RpcError, refuse, refused}
use run_pilot.Terminal.Sessions.{
  close, close_owned, owned, resize, resize_owned, status, status_owned, unknown_session, write,
  write_owned,
}

-- The refusal of `owned`.
abbrev pub refusal : Bytes → RpcError
refusal id =
    if str_eq id []
    then refuse (codes "invalid_argument") (codes "session id is required")
    else refuse (codes "not_found") (codes "unknown terminal session")

owned-refusal :
    (id : Bytes) (pl : Plugin) → find id pl.sessions ≡ none → owned id pl ≡ some (refusal id)
unfolding owned unknown_session
owned-refusal id pl n = ground arith

module _ (h : Host) (id : Bytes) (pl : Plugin) (n : find id pl.sessions ≡ none) where
  pub write-refusal : (text : Bytes) → write h id text pl ≡ (refused (refusal id), pl)
  unfolding write write_owned
  write-refusal text = rw (owned-refusal id pl n) refl

  pub resize-refusal : (rows columns : ℤ) → resize h id rows columns pl ≡ (refused (refusal id), pl)
  unfolding resize resize_owned
  resize-refusal rows columns = rw (owned-refusal id pl n) refl

  pub status-refusal : status h id pl ≡ (refused (refusal id), pl)
  unfolding status status_owned
  status-refusal = rw (owned-refusal id pl n) refl

  pub close-refusal : (force : Bool) → close h id force pl ≡ (refused (refusal id), pl)
  unfolding close close_owned
  close-refusal force = rw (owned-refusal id pl n) refl
