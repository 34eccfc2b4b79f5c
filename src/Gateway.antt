-- ===== src/Gateway.antt =====
-- The tunnel of the HTTP gateway, internal/httpgateway: its frames (protocol.go) here, and the bound on
-- its cookies (cookies.go) in Cookies. A reader is the bytes that it has left; numbers on the wire have
-- 32 bits, big-endian.
pub mod RoundTrip
pub mod Cookies
mod Tests
use run_pilot.Prelude.{
  [], drop, if◌then◌else◌, length, ltb, not, suc, take, zero, ℕ, ◌%◌, ◌*◌, ◌++◌, ◌+◌, ◌/◌, ◌==◌,
  ◌^◌, ◌||◌, ◌∷◌,
}
use run_pilot.Prelude.Bytes.{Bytes, codes}
use run_pilot.Prelude.Result.{Result, and_then, err, ok}

abbrev pub protocol_version : ℕ
protocol_version = 2

abbrev pub chunk : ℕ
chunk = 16384

pub record Frame : Type 0 where
  pub kind : ℕ
  pub id : ℕ
  pub payload : Bytes

pub data FrameError : Type 0 where
  end_of_input invalid_frame short_write : FrameError
  write_error : Bytes → FrameError

pub data Read {ℓ} (A : Type ℓ) : Type ℓ where
  got : A → Bytes → Read A
  not_read : FrameError → Read A

-- `binary.BigEndian.PutUint32` of `uint32(n)`.
unfoldable pub big_endian : ℕ → Bytes
big_endian n = n / 2 ^ 24 % 256 ∷ n / 2 ^ 16 % 256 ∷ n / 2 ^ 8 % 256 ∷ n % 256 ∷ []

unfoldable pub uint32 : ℕ → ℕ → ℕ → ℕ → ℕ
uint32 a b c d = a * 2 ^ 24 + b * 2 ^ 16 + c * 2 ^ 8 + d

-- `io.ReadFull` of `n` bytes.
unfoldable pub read_full : ℕ → Bytes → Read Bytes
read_full zero s = got [] s
read_full (suc n) [] = not_read end_of_input
read_full (suc n) (b ∷ s) = elim (read_full n s) [
  | got bs rest ↦ got (b ∷ bs) rest
  | not_read e ↦ not_read e
]

with_payload : ℕ → ℕ → Read Bytes → Read Frame
with_payload kind id (not_read e) = not_read e
with_payload kind id (got payload rest) =
    got (record { kind = kind; id = id; payload = payload }) rest

-- `ReadFrame`; the header has ten bytes.
unfoldable pub read_frame : Bytes → Read Frame
unfolding with_payload
read_frame (v ∷ kind ∷ i0 ∷ i1 ∷ i2 ∷ i3 ∷ n0 ∷ n1 ∷ n2 ∷ n3 ∷ s) =
    let n = uint32 n0 n1 n2 n3 in
    let id = uint32 i0 i1 i2 i3 in
    if not (v == protocol_version) || ltb chunk n || id == 0
    then not_read invalid_frame
    else with_payload kind id (read_full n s)
read_frame s = not_read end_of_input

unfoldable pub header : Frame → Bytes
header f = protocol_version ∷ f.kind ∷ big_endian f.id ++ big_endian (length f.payload)

-- A writer takes some of the bytes it is given, by the bytes that it has, or fails.
pub data Accepts : Type 0 where
  takes : ℕ → Accepts
  fails : Bytes → Accepts

abbrev pub Writer : Type 0
Writer = Bytes → Bytes → Accepts

-- The inner loop of `WriteFrame`: an error, or the bytes that the writer has then. It has a round for each
-- byte to write, since every round but the last of an error takes one at least.
unfoldable pub write_all : Writer → ℕ → Bytes → Bytes → Result Bytes
write_all w fuel written [] = ok written
write_all w zero written (b ∷ s) = err (codes "out of fuel")
write_all w (suc fuel) written (b ∷ s) = elim (w written (b ∷ s)) [
  | fails e ↦ err e
  | takes zero ↦ err (codes "short write")
  | takes (suc n) ↦ write_all w fuel (written ++ take (suc n) (b ∷ s)) (drop n s)
]

unfoldable pub write_frame : Writer → Frame → Bytes → Result Bytes
write_frame w f written =
    if ltb chunk (length f.payload) || f.id == 0
    then err (codes "invalid HTTP tunnel frame")
    else and_then (write_all w (length (header f)) written (header f))
        (λ after. write_all w (length f.payload) after f.payload)

-- `Credit`.
unfoldable pub credit : ℕ → Bytes
credit n = big_endian n
