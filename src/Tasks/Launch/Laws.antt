-- ===== src/Tasks/Launch/Laws.antt =====
-- Starting a process enters only its own identifier into `procs`.
use mathlib.Core.List.{append_assoc}
use run_pilot.Prelude.{List, [], ap, arith, false, inl, inr, ◌++◌, ◌∙◌, ◌∷◌, ◌≡◌}
use run_pilot.Prelude.Bytes.{Bytes, str_eq}
use run_pilot.Prelude.Dict.{find, find-put}
use run_pilot.Tasks.{Task}
use run_pilot.Tasks.Host.{Call, Host, HostResult-cases, Started, history_begin, ok, process_start}
use run_pilot.Tasks.Plugin.{Plugin, call, ensure, publish_task, update}
use run_pilot.Tasks.Launch.{
  kind, launch, launch_failed, launched, ref_of, spawn, start_begun, start_params,
}
use run_pilot.Prelude.Result.{ok}

-- After these calls, the host does not give the identifier to a process that it starts.
abbrev pub NotAgain : Host → Bytes → List Call → Type 0
NotAgain h id calls =
    (more : List Call) (s : Started)
    → h.start_process (more ++ calls) ≡ ok s
    → str_eq s.id id ≡ false

pub NotAgain-later :
    (h : Host) (id : Bytes) (calls : List Call) (c : Call)
    → NotAgain h id calls
    → NotAgain h id (c ∷ calls)
NotAgain-later h id calls c unused more s e =
    unused (more ++ (c ∷ [])) s (ap (λ l. h.start_process l) (append_assoc more (c ∷ []) calls) ∙ e)

module _ (h : Host) (id : Bytes) where
  launch-find :
      (t : Task) (pl : Plugin)
      → NotAgain h id pl.calls
      → find id (launch h t pl).1.procs ≡ find id pl.procs
  unfolding launch start_begun launch_failed launched update
  launch-find t pl unused =
      let pl1 = call (history_begin (kind t.type) t.id t.name) pl in
      elim (HostResult-cases (h.begin_history pl1.calls)) [
        | inl (e, q) ↦ ground arith
        | inr (b, q) ↦
            (let pl2 = call (process_start (start_params t b)) pl1 in
              elim (HostResult-cases (h.start_process pl2.calls)) [
                | inl (e, q2) ↦ ground arith
                | inr (s, q2) ↦ ground (
                  arith,
                  find-put s.id id (ref_of t b) pl.procs,
                  unused
                      (process_start (start_params t b)
                        ∷ history_begin (kind t.type) t.id t.name
                        ∷ [])
                      s q2,
                )
              ])
      ]

  pub spawn-find :
      (t : Task) (pl : Plugin)
      → NotAgain h id pl.calls
      → find id (spawn h t pl).1.procs ≡ find id pl.procs
  unfolding spawn update publish_task ensure
  spawn-find t pl unused = ground (arith, launch-find t pl unused)
