-- ===== src/Completion/Tests.antt =====
-- Two mutators whose last recorded epochs were 3 and 4, in epoch 5, with deques that are stacks.
use cdpt.Base.{
  ℕ, zero, suc, ◌+◌, ◌<◌, ◌≡◌, ◌≢◌, refl, arith, true, false, if◌then◌else◌, ◌==◌, Option, none,
  some, List, [], ◌∷◌, ℕ_discrete,
}
use cdpt.Completion.{
  idle, Mutator, answered, Event, schedule_mark, try_pop_mark_task, move, read_next, is_empty,
  record_mt_modification, call, call_in, take_popped, advance, at_second, at_emptiness, at_first,
  confirm_next, step, run, begin,
}
use cdpt.Completion.Answer.{complete_start}
use cdpt.Completion.Quiet.{reads, quiet_complete}

abbrev on_top : ℕ → List ℕ → List ℕ
on_top task tasks = task ∷ tasks

abbrev from_top : List ℕ → Option (ℕ × List ℕ)
from_top [] = none
from_top (task ∷ tasks) = some (task, tasks)

abbrev empty_ones : ℕ → Mutator
empty_ones t = record { modified = t + 3; tasks = []; thread = idle }

-- Mutator 1 has looked at its deque, and mutator 0 schedules a task when its second read is over.
abbrev late_task : List Event
late_task =
    try_pop_mark_task 1
    ∷ read_next
    ∷ read_next
    ∷ move 1
    ∷ read_next
    ∷ read_next
    ∷ read_next
    ∷ schedule_mark 0 9
    ∷ move 0
    ∷ move 0
    ∷ read_next
    ∷ []

complete_start_example : (empty_ones 1).tasks ≡ []
unfolding run step confirm_next at_first at_emptiness at_second advance call call_in is_empty begin
    record_mt_modification ℕ_discrete
complete_start_example =
    complete_start on_top from_top 5 2 empty_ones late_task (λ t. refl) refl 1 (omega arith)

-- A task that a mutator has taken before its deque is read is noticed.
taken_task : List Event
taken_task =
    try_pop_mark_task 0
    ∷ read_next
    ∷ read_next
    ∷ move 0
    ∷ move 0
    ∷ move 0
    ∷ read_next
    ∷ read_next
    ∷ read_next
    ∷ []

taken_task-answer :
    (run on_top from_top 5 2 taken_task (
      begin on_top from_top 5 2 (λ t. record {
        modified = 3;
        tasks = if t == 0 then 8 ∷ [] else [];
        thread = idle;
      }))).confirm
    ≡ answered false
unfolding run step confirm_next at_first at_emptiness at_second advance call call_in is_empty begin
    record_mt_modification take_popped taken_task ℕ_discrete
taken_task-answer = refl

abbrev quiet : List Event
quiet =
    read_next
    ∷ read_next
    ∷ try_pop_mark_task 1
    ∷ read_next
    ∷ move 1
    ∷ read_next
    ∷ read_next
    ∷ read_next
    ∷ []

below_two : (P : ℕ → Type 0) → P 0 → P 1 → (t : ℕ) → t < 2 → P t
below_two P a b zero l = a
below_two P a b (suc zero) l = b
below_two P a b (suc (suc t)) l = absurd (omega (arith, l))

quiet_complete_example :
    (run on_top from_top 5 2 quiet (begin on_top from_top 5 2 empty_ones)).confirm ≡ answered true
unfolding run step confirm_next at_first at_emptiness at_second advance call call_in is_empty begin
    reads ℕ_discrete
quiet_complete_example =
    quiet_complete on_top from_top 5 2 empty_ones quiet (λ t. (refl, refl))
      (below_two
        (λ t.
          ((run on_top from_top 5 2 quiet (begin on_top from_top 5 2 empty_ones)).mutators
            t).modified
          ≢ 5)
        (λ e. omega (arith, e)) (λ e. omega (arith, e)))
      (omega arith)
