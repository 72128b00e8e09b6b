-- ===== src/Completion/Answer.antt =====
-- src/collector.rs: what the answer of `try_confirm_completion` means, and when it is given.
use mathlib.Core.Path.{subst}
use cdpt.Base.{ℕ, ◌<◌, ◌≡◌, refl, sym, true, Option, List, [], ◌∷◌}
use cdpt.Completion.{idle, Mutator, Confirm, answered, System, Event, step, run, begin}
use cdpt.Completion.Kept.{Calm, at_idle, Kept, untouched}
use cdpt.Completion.Start.{
  step-Kept, Progress, at_first_pass, at_emptiness_pass, at_second_pass, refused, complete,
  at_first-Progress, step-Progress,
}

module _ (push : ℕ → List ℕ → List ℕ) (pop : List ℕ → Option (ℕ × List ℕ)) (ts locals : ℕ) where
  run-Progress :
      (start : ℕ → List ℕ) (events : List Event) (s : System)
      → ((t : ℕ) → Kept ts (start t) (s.mutators t))
      → Progress push pop ts locals start s.mutators s.confirm
      → Progress push pop ts locals start
          (run push pop ts locals events s).mutators
          (run push pop ts locals events s).confirm
  unfolding run
  run-Progress start [] s k p = p
  run-Progress start (e ∷ events) s k p =
      run-Progress start events (step push pop ts locals e s)
        (λ t. step-Kept push pop ts locals (start t) e s t (k t))
        (step-Progress push pop ts locals start e s k p)

  completed :
      (start : ℕ → List ℕ) (mutators : ℕ → Mutator) (c : Confirm)
      → c ≡ answered true
      → Progress push pop ts locals start mutators c
      → (u : ℕ) → u < locals
      → start u ≡ []
  completed start mutators _ e (complete a) = a
  completed start mutators _ e (at_first_pass i) = λ u l. cc
  completed start mutators _ e (at_emptiness_pass i a) = λ u l. cc
  completed start mutators _ e (at_second_pass i l a b) = λ u l. cc
  completed start mutators _ e refused = λ u l. cc

  -- When `try_confirm_completion` answers that tracing is complete, no mutator had a mark task at its
  -- start, whatever mutators have pushed and taken since then, and however the deques order their tasks.
  pub complete_start :
      (mutators : ℕ → Mutator) (events : List Event)
      → ((t : ℕ) → (mutators t).thread ≡ idle)
      → (run push pop ts locals events (begin push pop ts locals mutators)).confirm ≡ answered true
      → (t : ℕ) → t < locals
      → (mutators t).tasks ≡ []
  unfolding begin
  complete_start mutators events calm e =
      let start : (ℕ → List ℕ) = λ t. (mutators t).tasks in
      completed start _ _ e (
        run-Progress start events _ (λ t. untouched refl (subst Calm (sym (calm t)) at_idle))
          (at_first-Progress push pop ts locals start mutators 0))
