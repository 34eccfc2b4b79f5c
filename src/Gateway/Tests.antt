-- ===== src/Gateway/Tests.antt =====
-- Frames and cookies on concrete inputs.
use run_pilot.Gateway.RoundTrip.{IsSendable, IsWriter, write_frame-read_frame}
use run_pilot.Gateway.Cookies.Bounds.{IsBounded, Response, responses, responses-IsBounded, total}
use run_pilot.Prelude.{List, [], arith, drop, none, refl, take, ◌++◌, ◌∷◌, ◌≡◌}
use run_pilot.Prelude.Int.{pos}
use run_pilot.Prelude.Bytes.{Bytes, codes, str_eq}
use run_pilot.Prelude.Dict.{delete, find, put}
use run_pilot.Text.{has_prefix, to_lower, trim_prefix}
use run_pilot.Prelude.Result.{ok}
use run_pilot.Gateway.{
  Frame, Writer, big_endian, got, header, read_frame, takes, write_all, write_frame,
}
use run_pilot.Gateway.Cookies.{
  Cookie, Url, cookie_key, has_expired, new_jar, purge, set_cookie, set_cookies, set_each, sub_nat,
}

abbrev hello : Frame
hello = record { kind = 2; id = 7; payload = codes "hello" }

-- A writer that takes one byte at a time.
abbrev slow : Writer
slow written s = takes 1

slow-IsWriter : IsWriter slow
slow-IsWriter written b s = (0, refl)

hello-IsSendable : IsSendable hello
hello-IsSendable = record {
  has_id = omega arith;
  id_fits = omega arith;
  payload_fits = omega arith;
}

hello_written : write_frame slow hello [] ≡ ok (header hello ++ hello.payload)
unfolding write_frame write_all header big_endian take drop
hello_written = refl

write_frame-read_frame_example :
    (sent : Bytes) × (write_frame slow hello (codes "x") ≡ ok (codes "x" ++ sent))
    × (read_frame (sent ++ codes "rest") ≡ got hello (codes "rest"))
write_frame-read_frame_example =
    write_frame-read_frame slow hello (codes "x") (codes "rest") slow-IsWriter hello-IsSendable

abbrev site : Url
site = record { hostname = codes "localhost"; url_path = codes "/app/index" }

abbrev session_cookie : Cookie
session_cookie = record {
  name = codes "sid";
  domain = [];
  path = [];
  max_age = pos 0;
  expires = none;
  text_length = 11;
}

abbrev twice : List Response
twice =
    record { now = pos 1; address = site; cookies = session_cookie ∷ [] }
    ∷ record { now = pos 2; address = site; cookies = session_cookie ∷ [] }
    ∷ []

responses-IsBounded_example : IsBounded (responses twice new_jar)
responses-IsBounded_example = responses-IsBounded twice

-- A cookie that is set again is counted again, though its record is replaced.
counted_twice : (responses twice new_jar).total_bytes ≡ pos 58
unfolding responses new_jar set_cookies set_each set_cookie purge has_expired cookie_key sub_nat
    has_prefix to_lower trim_prefix find put delete str_eq
counted_twice = refl

replaced_once : total (responses twice new_jar).records ≡ 29
unfolding responses new_jar set_cookies set_each set_cookie purge has_expired cookie_key sub_nat
    has_prefix to_lower trim_prefix find put delete str_eq total
replaced_once = refl
