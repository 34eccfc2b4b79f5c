-- ===== src/Processes/Run/Capture.antt =====
-- What a capture of internal/core/plugin_process_run.go keeps of the output that is written to it.
use mathlib.Core.List.{append-nil, append_assoc}
use mathlib.Core.Path.{subst}
use run_pilot.Prelude.{
  Bool, List, [], ap, arith, drop, drop-append, drop-drop, drop-nil, false, if-cases, if◌then◌else◌,
  length, length-append, length-drop, length-take, ltb, refl, sym, take, take-append, take_all,
  true, ℕ, ◌++◌, ◌+◌, ◌-◌, ◌∙◌, ◌∷◌, ◌≡◌,
}
use run_pilot.Prelude.Bytes.{Bytes}
use run_pilot.Processes.Run.{RunCapture, new_capture, write, write_head, write_tail, writes}

-- What is written, from the first piece to the last.
abbrev pub written : List Bytes → Bytes
written [] = []
written (p ∷ ps) = p ++ written ps

-- The end of the output with `tailOutput`, and else its beginning.
abbrev pub kept : Bool → ℕ → Bytes → Bytes
kept true max out = drop (length out - max) out
kept false max out = take max out

pub record Keeps (max : ℕ) (tail : Bool) (out : Bytes) (c : RunCapture) : Type 0 where
  pub same_max : c.max ≡ max
  pub same_tail : c.tail ≡ tail
  pub bytes_kept : c.bytes ≡ kept tail max out
  pub marked : c.truncated ≡ ltb max (length out)

new_capture-Keeps : (max : ℕ) (tail : Bool) → Keeps max tail [] (new_capture max tail)
unfolding new_capture
new_capture-Keeps max true = record {
  same_max = refl;
  same_tail = refl;
  bytes_kept = sym (drop-nil (0 - max));
  marked = ground arith;
}
new_capture-Keeps max false = record {
  same_max = refl;
  same_tail = refl;
  bytes_kept = sym (take_all max [] (omega arith));
  marked = ground arith;
}

-- The end of an output is the end of its own end with what follows.
last-append :
    (m : ℕ) (x y : Bytes)
    → drop (length (kept true m x ++ y) - m) (kept true m x ++ y) ≡ kept true m (x ++ y)
last-append m x y =
    let k = length x - m in
    let e : drop k (x ++ y) ≡ drop k x ++ y = drop-append k x y (omega arith) in
    ap (λ s. drop (length s - m) s) (sym e)
    ∙ drop-drop (length (drop k (x ++ y)) - m) k (x ++ y)
    ∙ ap (λ n. drop n (x ++ y)) (omega (arith, length-drop k (x ++ y), length-append x y))

-- The beginning of an output, when another piece comes.
first-append : (m : ℕ) (x y : Bytes) → take m x ++ take (m - length (take m x)) y ≡ take m (x ++ y)
first-append m x y =
    let e : m - length (take m x) ≡ m - length x = omega (arith, length-take m x) in
    ap (λ n. take m x ++ take n y) e ∙ sym (take-append m x y)

take_least : (n : ℕ) (s : Bytes) → take (if ltb (length s) n then length s else n) s ≡ take n s
take_least n s =
    if-cases (λ (k : ℕ). take k s ≡ take n s) (ltb (length s) n)
      (λ l. take_all (length s) s (omega arith) ∙ sym (take_all n s (ground arith))) (λ g. refl)

module _ {max : ℕ} {out : Bytes} (p : Bytes) (c : RunCapture) where
  kept-length : Keeps max true out c → length c.bytes ≡ length out - (length out - max)
  kept-length h = ap (λ s. length s) h.bytes_kept ∙ length-drop (length out - max) out

  write_tail-Keeps : Keeps max true out c → Keeps max true (out ++ p) (write_tail p c)
  unfolding write_tail drop
  write_tail-Keeps h =
      let b = c.bytes ++ p in
      let e : kept true max b ≡ kept true max (out ++ p) =
        ap (λ s. kept true max (s ++ p)) h.bytes_kept ∙ last-append max out p in
      let l : length b ≡ length c.bytes + length p = length-append c.bytes p in
      let k : length (out ++ p) ≡ length out + length p = length-append out p in
      let n = kept-length h in
      let m = h.same_max in
      if-cases (Keeps max true (out ++ p)) (ltb c.max (length b))
        (λ over. record {
          same_max = m;
          same_tail = h.same_tail;
          bytes_kept = ap (λ k. drop (length b - k) b) m ∙ e;
          marked = ground arith;
        })
        (λ under. record {
          same_max = m;
          same_tail = h.same_tail;
          bytes_kept = (let z : 0 ≡ length b - max = ground arith in ap (λ k. drop k b) z ∙ e);
          marked = h.marked ∙ ground arith;
        })

  write_head-Keeps : Keeps max false out c → Keeps max false (out ++ p) (write_head p c)
  unfolding write_head
  write_head-Keeps h = record {
    same_max = h.same_max;
    same_tail = h.same_tail;
    bytes_kept =
        ap (λ r. c.bytes ++ r) (take_least (c.max - length c.bytes) p)
        ∙ (ap (λ m. c.bytes ++ take (m - length c.bytes) p) h.same_max
            ∙ (ap (λ s. s ++ take (max - length s) p) h.bytes_kept ∙ first-append max out p));
    marked =
        let n : length c.bytes + (length out - max) ≡ length out =
          ap (λ s. length s + (length out - max)) h.bytes_kept ∙ length-take max out in
        let k : length (out ++ p) ≡ length out + length p = length-append out p in
        let m = h.same_max in let t = h.marked in ground arith;
  }

write-Keeps :
    {max : ℕ} (tail : Bool) {out : Bytes} (p : Bytes) (c : RunCapture)
    → Keeps max tail out c
    → Keeps max tail (out ++ p) (write p c)
unfolding write
write-Keeps {max} true {out} p c h =
    subst (λ b. Keeps max true (out ++ p) (if b then write_tail p c else write_head p c))
      (sym h.same_tail) (write_tail-Keeps p c h)
write-Keeps {max} false {out} p c h =
    subst (λ b. Keeps max false (out ++ p) (if b then write_tail p c else write_head p c))
      (sym h.same_tail) (write_head-Keeps p c h)

writes-Keeps :
    {max : ℕ} (tail : Bool) (ps : List Bytes) {out : Bytes} (c : RunCapture)
    → Keeps max tail out c
    → Keeps max tail (out ++ written ps) (writes ps c)
unfolding writes
writes-Keeps {max} tail [] {out} c h = subst (λ s. Keeps max tail s c) (sym (append-nil out)) h
writes-Keeps {max} tail (p ∷ ps) {out} c h =
    subst (λ s. Keeps max tail s (writes ps (write p c))) (append_assoc out p (written ps))
      (writes-Keeps tail ps (write p c) (write-Keeps tail p c h))

-- However the output of a process comes in pieces, a new capture of `max` bytes that they are written to
-- ends with the last `max` bytes of the whole output, when the request asks for the tail, and with its
-- first `max` bytes otherwise; and it is marked as truncated exactly when the output is longer than `max`.
pub writes-kept :
    (max : ℕ) (tail : Bool) (ps : List Bytes)
    → ((writes ps (new_capture max tail)).bytes ≡ kept tail max (written ps))
      × ((writes ps (new_capture max tail)).truncated ≡ ltb max (length (written ps)))
writes-kept max tail ps =
    let k = writes-Keeps tail ps (new_capture max tail) (new_capture-Keeps max tail) in
    (k.bytes_kept, k.marked)
