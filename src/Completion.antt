-- ===== src/Completion.antt =====
-- src/collector.rs and src/internal.rs: the test for the end of tracing, `try_confirm_completion`, while
-- mutators push tasks with `schedule_mark` and take them with `try_pop_mark_task`. An event is one
-- atomic access of the collector or of a mutator. All mutators that are pinned are pinned in the
-- current epoch, for which see Pin: `phase_trans` has waited for the others. A mark task is a number;
-- how the deque of a mutator orders its tasks is a parameter.
mod Tests
pub mod Kept
pub mod Start
pub mod Answer
pub mod Passes
mod Quiet
use cdpt.Base.{
  ℕ, ◌+◌, Bool, true, false, ltb, ◌==◌, if◌then◌else◌, Option, none, some, List, [], ◌∷◌, update,
}

-- Where a mutator stands: in `schedule_mark` before `record_mt_modification` and before the push, in
-- `try_pop_mark_task` before the look at the deque, before `record_mt_modification` and before the
-- pop, or with what that has returned.
pub data Thread : Type 0 where
  idle checking recording_pop popping : Thread
  recording_push pushing : (task : ℕ) → Thread
  returned : (task : Option ℕ) → Thread

-- `mt_modified_ts` and `mark_tasks` of a `Local`, with its thread
pub record Mutator : Type 0 where
  pub modified : ℕ
  pub tasks : List ℕ
  pub thread : Thread

-- Where the collector stands: before the read of the `mt_modified_ts` of a mutator, first or second, or
-- of its deque, or with its answer.
pub data Confirm : Type 0 where
  first emptiness second : (local : ℕ) → Confirm
  answered : (complete : Bool) → Confirm

pub record System : Type 0 where
  pub mutators : ℕ → Mutator
  pub confirm : Confirm

pub data Event : Type 0 where
  schedule_mark : (t task : ℕ) → Event
  try_pop_mark_task : (t : ℕ) → Event
  move : (t : ℕ) → Event
  read_next : Event

unfoldable pub is_empty : List ℕ → Bool
is_empty [] = true
is_empty (task ∷ tasks) = false

-- `record_mt_modification`
unfoldable pub record_mt_modification : ℕ → Mutator → Mutator
record_mt_modification ts m = if m.modified == ts then m else record m { modified = ts }

-- A call by a mutator that is not in another one.
unfoldable pub call : Thread → Thread → Thread
call start idle = start
call start thread = thread

unfoldable pub call_in : Thread → Mutator → Mutator
call_in start m = record m { thread = call start m.thread }

module _ (push : ℕ → List ℕ → List ℕ) (pop : List ℕ → Option (ℕ × List ℕ)) where
  unfoldable pub take_popped : Option (ℕ × List ℕ) → Mutator → Mutator
  take_popped none m = record m { thread = returned none }
  take_popped (some (task, left)) m = record m { tasks = left; thread = returned (some task) }

  -- The access of a mutator that stands at `thread`.
  unfoldable pub advance : ℕ → Mutator → Thread → Mutator
  advance ts m idle = m
  advance ts m (recording_push task) = record (record_mt_modification ts m) {
    thread = pushing task;
  }
  advance ts m (pushing task) = record m { tasks = push task m.tasks; thread = idle }
  advance ts m checking = record m {
    thread = if is_empty m.tasks then returned none else recording_pop;
  }
  advance ts m recording_pop = record (record_mt_modification ts m) { thread = popping }
  advance ts m popping = take_popped (pop m.tasks) m
  advance ts m (returned task) = record m { thread = idle }

  module _ (ts locals : ℕ) where
    -- The passes over the `locals`, each with the next one behind its end.
    unfoldable pub at_second : ℕ → Confirm
    at_second i = if ltb i locals then second i else answered true

    unfoldable pub at_emptiness : ℕ → Confirm
    at_emptiness i = if ltb i locals then emptiness i else at_second 0

    unfoldable pub at_first : ℕ → Confirm
    at_first i = if ltb i locals then first i else at_emptiness 0

    -- One read of `try_confirm_completion`.
    unfoldable pub confirm_next : (ℕ → Mutator) → Confirm → Confirm
    confirm_next mutators (first i) =
        if (mutators i).modified == ts then answered false else at_first (i + 1)
    confirm_next mutators (emptiness i) =
        if is_empty (mutators i).tasks then at_emptiness (i + 1) else answered false
    confirm_next mutators (second i) =
        if (mutators i).modified == ts then answered false else at_second (i + 1)
    confirm_next mutators (answered complete) = answered complete

    unfoldable pub step : Event → System → System
    step (schedule_mark t task) s = record s {
      mutators = update s.mutators t (call_in (recording_push task) (s.mutators t));
    }
    step (try_pop_mark_task t) s = record s {
      mutators = update s.mutators t (call_in checking (s.mutators t));
    }
    step (move t) s = record s {
      mutators = update s.mutators t (advance ts (s.mutators t) (s.mutators t).thread);
    }
    step read_next s = record s { confirm = confirm_next s.mutators s.confirm }

    unfoldable pub run : List Event → System → System
    run [] s = s
    run (e ∷ events) s = run events (step e s)

    -- `try_confirm_completion` begins.
    unfoldable pub begin : (ℕ → Mutator) → System
    begin mutators = record { mutators = mutators; confirm = at_first 0 }
