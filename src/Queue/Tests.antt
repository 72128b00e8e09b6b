-- ===== src/Queue/Tests.antt =====
-- The queue on concrete interleavings.
use cdpt.Base.{◌≡◌, refl, none, some, List, [], ◌∷◌, ◌++◌, ℕ_discrete}
use cdpt.Queue.{
  Event, push, try_pop, move, initial, run, trace, fifo_run, step, answer_label, return_label,
  result, label, push_call, pop_call, is_idle, allocate, advance, write, move_label, link_label,
  successor_label, see_next, see_link, see_successor, cas_tail, cas_head, cas_next, retiring,
}
use cdpt.Calls.{
  internal, called_push, called_pop, put, took, met_none, returned, outside, pending_run, Served,
}
use cdpt.Queue.Answers.{pending}
use cdpt.Queue.Linear.{Refines, initial-Refines}
use cdpt.Queue.Retire.{Reaches, retired_unreachable}

-- Thread 0 pushes 7 and stops before it moves the tail, and thread 1 pops it: thread 1 has to move
-- the tail.
abbrev overtaken : List Event
overtaken =
    push 0 7
    ∷ move 0
    ∷ move 0
    ∷ move 0
    ∷ try_pop 1
    ∷ move 1
    ∷ move 1
    ∷ move 1
    ∷ move 1
    ∷ move 1
    ∷ []

overtaken-trace :
    trace (overtaken ++ move 1 ∷ try_pop 2 ∷ move 2 ∷ move 2 ∷ []) initial
    ≡ called_push 0 7
      ∷ internal
      ∷ internal
      ∷ internal
      ∷ internal
      ∷ internal
      ∷ put 0 7
      ∷ internal
      ∷ called_pop 1
      ∷ internal
      ∷ internal
      ∷ internal
      ∷ internal
      ∷ internal
      ∷ took 1 7
      ∷ internal
      ∷ internal
      ∷ internal
      ∷ internal
      ∷ internal
      ∷ internal
      ∷ returned 1 (some 7)
      ∷ called_pop 2
      ∷ internal
      ∷ internal
      ∷ internal
      ∷ met_none 2
      ∷ returned 2 none
      ∷ []
unfolding trace run step label answer_label return_label result push_call pop_call is_idle allocate
    advance write move_label link_label successor_label see_next see_link see_successor cas_tail
    cas_head cas_next ℕ_discrete
overtaken-trace = refl

overtaken-retiring : (run overtaken initial).threads 1 ≡ retiring 0 1
unfolding trace run step label answer_label return_label result push_call pop_call is_idle allocate
    advance write move_label link_label successor_label see_next see_link see_successor cas_tail
    cas_head cas_next ℕ_discrete
overtaken-retiring = refl

initial-Refines_example :
    Refines (run overtaken initial) (fifo_run (trace overtaken initial) [])
    × Served
        (pending (run overtaken initial).queue.data_of)
        (run overtaken initial).threads
        (pending_run (trace overtaken initial) (λ t. outside))
initial-Refines_example = initial-Refines overtaken

retired_unreachable_example :
    (¬ Reaches (run overtaken initial).queue (run overtaken initial).queue.head 0)
    × (¬ Reaches (run overtaken initial).queue (run overtaken initial).queue.tail 0)
retired_unreachable_example = retired_unreachable overtaken 1 0 1 overtaken-retiring
