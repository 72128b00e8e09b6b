-- ===== src/Completion/Kept.antt =====
-- src/internal.rs: a deque that is changed in the current epoch is recorded first.
use cdpt.Base.{
  ℕ, ◌≡◌, refl, ◌∙◌, arith, inl, inr, Bool, true, false, ◌==◌, if◌then◌else◌, Option, none, some,
  List, Bool-cases,
}
use cdpt.Completion.{
  Thread, idle, checking, recording_pop, popping, recording_push, pushing, returned, Mutator,
  is_empty, record_mt_modification, call, call_in, take_popped, advance,
}

-- The mutator is past `record_mt_modification`, and not past its change of the deque.
pub data Calm : Thread → Type 0 where
  at_idle : Calm idle
  at_checking : Calm checking
  at_recording_pop : Calm recording_pop
  at_recording_push : (task : ℕ) → Calm (recording_push task)
  at_returned : (task : Option ℕ) → Calm (returned task)

-- The mutator has recorded the epoch `ts`, or has the same tasks as at the start.
pub data Kept (ts : ℕ) (start : List ℕ) (m : Mutator) : Type 0 where
  recorded : m.modified ≡ ts → Kept ts start m
  untouched : m.tasks ≡ start → Calm m.thread → Kept ts start m

record_lem : (ts : ℕ) (m : Mutator) → (record_mt_modification ts m).modified ≡ ts
unfolding record_mt_modification
record_lem ts m = elim (Bool-cases (m.modified == ts)) [
  | inl q ↦ rw q (number m.modified ts q)
  | inr q ↦ rw q refl
]
  where
    number : (x y : ℕ) → (x == y) ≡ true → x ≡ y
    number x y e = ground (arith, e)

call-Calm : (start th : Thread) → Calm start → Calm th → Calm (call start th)
unfolding call
call-Calm start _ c at_idle = c
call-Calm start _ c at_checking = at_checking
call-Calm start _ c at_recording_pop = at_recording_pop
call-Calm start _ c (at_recording_push task) = at_recording_push task
call-Calm start _ c (at_returned task) = at_returned task

pub call_in-Kept :
    (ts : ℕ) (tasks : List ℕ) (m : Mutator) (start : Thread)
    → Calm start
    → Kept ts tasks m
    → Kept ts tasks (call_in start m)
unfolding call_in
call_in-Kept ts tasks m start c (recorded e) = recorded e
call_in-Kept ts tasks m start c (untouched e d) = untouched e (call-Calm start m.thread c d)

module _ (push : ℕ → List ℕ → List ℕ) (pop : List ℕ → Option (ℕ × List ℕ)) (ts : ℕ) where
  take_popped-modified :
      (taken : Option (ℕ × List ℕ)) (m : Mutator)
      → (take_popped push pop taken m).modified ≡ m.modified
  unfolding take_popped
  take_popped-modified none m = refl
  take_popped-modified (some (task, left)) m = refl

  -- A mutator that has recorded the epoch keeps it.
  pub advance-modified :
      (m : Mutator) (th : Thread) → m.modified ≡ ts → (advance push pop ts m th).modified ≡ ts
  unfolding advance
  advance-modified m idle e = e
  advance-modified m checking e = e
  advance-modified m recording_pop e = record_lem ts m
  advance-modified m popping e = take_popped-modified (pop m.tasks) m ∙ e
  advance-modified m (recording_push task) e = record_lem ts m
  advance-modified m (pushing task) e = e
  advance-modified m (returned task) e = e

  advance-Calm :
      (tasks : List ℕ) (m : Mutator) (th : Thread)
      → m.tasks ≡ tasks
      → Calm th
      → Kept ts tasks m
      → Kept ts tasks (advance push pop ts m th)
  unfolding advance
  advance-Calm tasks m _ e at_idle k = k
  advance-Calm tasks m _ e at_checking k = untouched e (looked (is_empty m.tasks))
    where
      looked : (b : Bool) → Calm (if b then returned none else recording_pop)
      looked true = at_returned none
      looked false = at_recording_pop
  advance-Calm tasks m _ e at_recording_pop k = recorded (record_lem ts m)
  advance-Calm tasks m _ e (at_recording_push task) k = recorded (record_lem ts m)
  advance-Calm tasks m _ e (at_returned task) k = untouched e at_idle

  pub advance-Kept :
      (tasks : List ℕ) (m : Mutator)
      → Kept ts tasks m
      → Kept ts tasks (advance push pop ts m m.thread)
  advance-Kept tasks m (recorded e) = recorded (advance-modified m m.thread e)
  advance-Kept tasks m (untouched e c) = advance-Calm tasks m m.thread e c (untouched e c)
