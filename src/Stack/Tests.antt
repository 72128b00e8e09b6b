-- ===== src/Stack/Tests.antt =====
-- Two threads push, and a third one pops while the second push is under way.

use cdpt.Base.{◌≡◌, refl, none, some, List, [], ◌∷◌, ℕ_discrete}
use cdpt.Stack.{
  Event, push, pop, move, initial, run, trace, step, label, move_label, top_label, advance, write,
  allocate, same_top, see_top, cas_top, push_call, pop_call, is_idle, answer_label, return_label,
  result, lifo_run,
}
use cdpt.Calls.{
  internal, called_push, called_pop, put, took, returned, outside, pending_run, Served,
}
use cdpt.Stack.Moves.{Refines}
use cdpt.Stack.Linear.{stack-Refines}
use cdpt.Stack.Answers.{pending}

-- Thread 1 has loaded the old top when thread 0 pushes, and tries again.
abbrev contended : List Event
contended =
    push 0 7
    ∷ push 1 8
    ∷ move 1
    ∷ move 1
    ∷ move 0
    ∷ move 0
    ∷ move 0
    ∷ move 1
    ∷ move 1
    ∷ move 1
    ∷ move 1
    ∷ pop 2
    ∷ move 2
    ∷ move 2
    ∷ move 2
    ∷ []

contended-trace :
    trace contended initial
    ≡ called_push 0 7
      ∷ internal
      ∷ called_push 1 8
      ∷ internal
      ∷ internal
      ∷ internal
      ∷ internal
      ∷ internal
      ∷ internal
      ∷ internal
      ∷ internal
      ∷ internal
      ∷ put 0 7
      ∷ returned 0 none
      ∷ internal
      ∷ internal
      ∷ internal
      ∷ internal
      ∷ internal
      ∷ internal
      ∷ put 1 8
      ∷ returned 1 none
      ∷ called_pop 2
      ∷ internal
      ∷ internal
      ∷ internal
      ∷ internal
      ∷ internal
      ∷ took 2 8
      ∷ returned 2 (some 8)
      ∷ []
unfolding trace step answer_label return_label result label move_label top_label advance write
    allocate same_top see_top cas_top push_call pop_call is_idle ℕ_discrete
contended-trace = refl

stack-Refines_example :
    Refines (run contended initial) (lifo_run (trace contended initial) [])
    × Served
        (pending (run contended initial).stack.item_of)
        (run contended initial).threads
        (pending_run (trace contended initial) (λ t. outside))
stack-Refines_example = stack-Refines contended
