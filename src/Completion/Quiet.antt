-- ===== src/Completion/Quiet.antt =====
-- src/collector.rs: when `try_confirm_completion` answers that tracing is complete.
use mathlib.Core.Path.{subst}
use cdpt.Base.{
  ℕ, zero, suc, ◌-◌, ◌*◌, ◌<◌, ◌≤◌, ◌≡◌, ◌≢◌, sym, ap, arith, true, Option, List, [], ◌∷◌,
}
use cdpt.Completion.{
  idle, Mutator, answered, System, Event, schedule_mark, try_pop_mark_task, move, read_next,
  is_empty, step, run, begin,
}
use cdpt.Completion.Kept.{Calm, at_idle, Kept, recorded, untouched}
use cdpt.Completion.Start.{step-Kept, step-modified}
use cdpt.Completion.Passes.{Ends, at_first-Ends, read-Ends, Ends-given}

unfoldable pub reads : List Event → ℕ
reads [] = 0
reads (read_next ∷ events) = suc (reads events)
reads (e ∷ events) = reads events

module _ (push : ℕ → List ℕ → List ℕ) (pop : List ℕ → Option (ℕ × List ℕ)) (ts locals : ℕ) where
  run-modified :
      (events : List Event) (s : System) (t : ℕ)
      → (s.mutators t).modified ≡ ts
      → ((run push pop ts locals events s).mutators t).modified ≡ ts
  unfolding run
  run-modified [] s t e = e
  run-modified (e ∷ events) s t q =
      run-modified events (step push pop ts locals e s) t (step-modified push pop ts locals e s t q)

  -- A mutator that has no task and does not record the epoch until the end
  no_task : (m : Mutator) → Kept ts [] m → m.modified ≢ ts → is_empty m.tasks ≡ true
  unfolding is_empty
  no_task m (recorded e) d = absurd (d e)
  no_task m (untouched e c) d = ap is_empty e

  run-answered :
      (events : List Event) (s : System) (left : ℕ)
      → ((t : ℕ) → t < locals → Kept ts [] (s.mutators t))
      → ((t : ℕ) → t < locals → ((run push pop ts locals events s).mutators t).modified ≢ ts)
      → Ends push pop ts locals left s.confirm
      → left ≤ reads events
      → (run push pop ts locals events s).confirm ≡ answered true
  unfolding run reads step
  run-answered [] s zero k d w l = Ends-given push pop ts locals s.confirm w
  run-answered [] s (suc left) k d w l = absurd (omega (arith, l))
  run-answered (schedule_mark u task ∷ events) s left k d w l =
      run-answered events _ left
        (λ t g. step-Kept push pop ts locals [] (schedule_mark u task) s t (k t g)) d w l
  run-answered (try_pop_mark_task u ∷ events) s left k d w l =
      run-answered events _ left
        (λ t g. step-Kept push pop ts locals [] (try_pop_mark_task u) s t (k t g)) d w l
  run-answered (move u ∷ events) s left k d w l =
      run-answered events _ left (λ t g. step-Kept push pop ts locals [] (move u) s t (k t g)) d w l
  run-answered (read_next ∷ events) s left k d w l =
      run-answered events _ (left - 1) k d
        (read-Ends push pop ts locals left s.mutators s.confirm now
          (λ t g. no_task (s.mutators t) (k t g) (now t g)) w)
        (omega (arith, l))
    where
      now : (t : ℕ) → t < locals → (s.mutators t).modified ≢ ts
      now t g e = d t g (run-modified events (step push pop ts locals read_next s) t e)

  -- If no mutator has a mark task at the start and none has recorded the epoch by the end, then
  -- `try_confirm_completion` has answered that tracing is complete after three reads for each mutator,
  -- whatever mutators do meanwhile.
  pub quiet_complete :
      (mutators : ℕ → Mutator) (events : List Event)
      → ((t : ℕ) → ((mutators t).thread ≡ idle) × ((mutators t).tasks ≡ []))
      → ((t : ℕ)
          → t < locals
          → ((run push pop ts locals events (begin push pop ts locals mutators)).mutators
              t).modified
            ≢ ts)
      → 3 * locals ≤ reads events
      → (run push pop ts locals events (begin push pop ts locals mutators)).confirm ≡ answered true
  unfolding begin
  quiet_complete mutators events calm d l =
      run-answered events _ (3 * locals)
        (λ t g. untouched (calm t).1 (subst Calm (sym (calm t).0) at_idle)) d
        (at_first-Ends push pop ts locals (3 * locals) 0 (omega arith) (omega arith)) l
