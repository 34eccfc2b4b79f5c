-- ===== src/Gateway/RoundTrip.antt =====
-- Frames that are written are read back.
use mathlib.Core.List.{append-nil, append_assoc}
use run_pilot.Prelude.{
  [], ap, arith, drop, false, length, length-drop, ltb, refl, suc, sym, take, take-drop, zero, ℕ,
  ◌%◌, ◌++◌, ◌/◌, ◌<◌, ◌==◌, ◌^◌, ◌||◌, ◌∙◌, ◌∷◌, ◌≡◌, ◌≤◌,
}
use run_pilot.Prelude.Bytes.{Bytes}
use run_pilot.Prelude.Result.{ok}
use run_pilot.Gateway.{
  Frame, Writer, big_endian, chunk, got, header, read_frame, read_full, takes, uint32, with_payload,
  write_all, write_frame,
}

-- A writer that does not fail, and takes at least a byte where there are any.
abbrev pub IsWriter : Writer → Type 0
IsWriter w = (written : Bytes) (b : ℕ) (s : Bytes) → (n : ℕ) × (w written (b ∷ s) ≡ takes (suc n))

-- It is given everything, and a round for each byte is enough.
write_all-append :
    (w : Writer) (fuel : ℕ) (written s : Bytes)
    → IsWriter w
    → length s ≤ fuel
    → write_all w fuel written s ≡ ok (written ++ s)
unfolding write_all drop
write_all-append w fuel written [] good f = ap ok (sym (append-nil written))
write_all-append w zero written (b ∷ s) good f = absurd (omega arith)
write_all-append w (suc fuel) written (b ∷ s) good f =
    let (n, e) = good written b s in
    let rest =
      write_all-append w fuel (written ++ take (suc n) (b ∷ s)) (drop n s) good
        (omega (arith, length-drop n s)) in
    rw (e, write_all)
      (rest
        ∙ ap ok (
            append_assoc written (take (suc n) (b ∷ s)) (drop n s)
            ∙ ap (λ r. written ++ r) (take-drop (suc n) (b ∷ s))))

read_full-append : (s rest : Bytes) → read_full (length s) (s ++ rest) ≡ got s rest
unfolding read_full
read_full-append [] rest = refl
read_full-append (b ∷ s) rest = rw (read_full-append s rest) refl

uint32-big_endian :
    (n : ℕ)
    → n < 2 ^ 32
    → uint32 (n / 2 ^ 24 % 256) (n / 2 ^ 16 % 256) (n / 2 ^ 8 % 256) (n % 256) ≡ n
unfolding uint32
uint32-big_endian n h = omega arith

-- A frame that the gateway makes: an identifier of 32 bits that is not 0, and a payload of one chunk at
-- most.
pub record IsSendable (f : Frame) : Type 0 where
  pub has_id : 0 < f.id
  pub id_fits : f.id < 2 ^ 32
  pub payload_fits : length f.payload ≤ chunk

read_frame-header :
    (f : Frame) (rest : Bytes)
    → IsSendable f
    → read_frame (header f ++ (f.payload ++ rest)) ≡ got f rest
unfolding read_frame header big_endian with_payload
read_frame-header f rest s =
    let n = uint32-big_endian (length f.payload) (omega (arith, s.payload_fits)) in
    let accepted : (ltb chunk (length f.payload) || f.id == 0) ≡ false =
      ground (arith, s.has_id, s.payload_fits) in
    rw (uint32-big_endian f.id s.id_fits, n, accepted, read_full-append f.payload rest) refl

-- A frame that is written to a writer that does not fail, and that takes at least a byte at a time, is
-- written whole, and reads back as the same frame with what follows it left over.
pub write_frame-read_frame :
    (w : Writer) (f : Frame) (written rest : Bytes)
    → IsWriter w
    → IsSendable f
    → (sent : Bytes) × (write_frame w f written ≡ ok (written ++ sent))
      × (read_frame (sent ++ rest) ≡ got f rest)
unfolding write_frame
write_frame-read_frame w f written rest good s =
    let refused : (ltb chunk (length f.payload) || f.id == 0) ≡ false =
      ground (arith, s.has_id, s.payload_fits) in
    let e = write_all-append w (length (header f)) written (header f) good (omega arith) in
    let e' =
      write_all-append w (length f.payload) (written ++ header f) f.payload good (omega arith) in
    (
      header f ++ f.payload,
      rw (refused, e, e') (ap ok (append_assoc written (header f) f.payload)),
      ap read_frame (append_assoc (header f) f.payload rest) ∙ read_frame-header f rest s,
    )
