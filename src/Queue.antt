-- ===== src/Queue.antt =====
-- src/sync/queue.rs: `push` and `try_pop` of the Michael-Scott queue by any number of threads. An event
-- is one atomic access of one thread. Nodes are named by numbers in the order of their allocation,
-- and a node is not allocated again: the guards of the epochs keep it as long as a thread can see it.
mod Tests
pub mod Views
pub mod Changes
pub mod Moves
pub mod Link
pub mod Pop
pub mod Refine
pub mod Answers
pub mod Linear
pub mod Retire
use cdpt.Base.{
  ℕ, zero, suc, ◌+◌, Bool, true, false, ◌==◌, if◌then◌else◌, Option, none, some, List, [], ◌∷◌,
  ◌++◌, update,
}
use mathlib.Core.Option
use cdpt.Calls.{Label, internal, called_push, put, took, called_pop, met_none, returned}

-- Where a thread stands in `push` of the node `new`, or in `try_pop`. `push_next`, `push_help`,
-- `push_link` and `push_swing` come in `push_internal` onto the node `onto`, and `pop_next` to
-- `retiring` in `pop_internal` at the node `head` with its successor `next`. At `retiring` it has the
-- old sentinel destroyed later, and reads the data of the new one.
pub data Thread : Type 0 where
  idle pop_load : Thread
  push_load : (new : ℕ) → Thread
  push_next push_link push_swing : (new onto : ℕ) → Thread
  push_help : (new onto next : ℕ) → Thread
  pop_next : (head : ℕ) → Thread
  pop_head pop_tail pop_swing retiring : (head next : ℕ) → Thread

-- The queue and the nodes.
pub record Queue : Type 0 where
  pub allocated : ℕ
  pub data_of : ℕ → ℕ
  pub next : ℕ → Option ℕ
  pub head : ℕ
  pub tail : ℕ

-- `Queue::new`: node 0 is the sentinel.
abbrev pub new_queue : Queue
new_queue = record { allocated = 1; data_of = λ _. 0; next = λ _. none; head = 0; tail = 0 }

-- The node that `push` allocates.
unfoldable pub allocate : ℕ → Queue → Queue
allocate item q = record q {
  allocated = q.allocated + 1;
  data_of = update q.data_of q.allocated item;
  next = update q.next q.allocated none;
}

unfoldable pub cas_tail : ℕ → ℕ → Queue → Queue
cas_tail old new q = if q.tail == old then record q { tail = new } else q

unfoldable pub cas_head : ℕ → ℕ → Queue → Queue
cas_head old new q = if q.head == old then record q { head = new } else q

-- The compare-exchange of the `next` field of `onto` from null, with what it finds.
unfoldable pub cas_next : Option ℕ → ℕ → ℕ → Queue → Queue
cas_next none onto new q = record q { next = update q.next onto (some new) }
cas_next (some n) onto new q = q

-- After the load of `onto.next`: help, or link.
unfoldable pub see_next : Option ℕ → ℕ → ℕ → Thread
see_next none new onto = push_link new onto
see_next (some n) new onto = push_help new onto n

-- After the compare-exchange of `onto.next`.
unfoldable pub see_link : Option ℕ → ℕ → ℕ → Thread
see_link none new onto = push_swing new onto
see_link (some n) new onto = push_load new

-- After the load of `head.next`.
unfoldable pub see_successor : Option ℕ → ℕ → Thread
see_successor none head = idle
see_successor (some n) head = pop_head head n

-- Where the thread stands after its next access.
unfoldable pub advance : Queue → Thread → Thread
advance q (push_load new) = push_next new q.tail
advance q (push_next new onto) = see_next (q.next onto) new onto
advance q (push_help new onto n) = push_load new
advance q (push_link new onto) = see_link (q.next onto) new onto
advance q (push_swing new onto) = idle
advance q pop_load = pop_next q.head
advance q (pop_next head) = see_successor (q.next head) head
advance q (pop_head head n) = if q.head == head then pop_tail head n else pop_load
advance q (pop_tail head n) = if q.tail == head then pop_swing head n else retiring head n
advance q (pop_swing head n) = retiring head n
advance q (retiring head n) = idle
advance q idle = idle

-- What the access writes.
unfoldable pub write : Queue → Thread → Queue
write q (push_help new onto n) = cas_tail onto n q
write q (push_link new onto) = cas_next (q.next onto) onto new q
write q (push_swing new onto) = cas_tail onto new q
write q (pop_head head n) = cas_head head n q
write q (pop_swing head n) = cas_tail head n q
write q thread = q

pub record System : Type 0 where
  pub queue : Queue
  pub threads : ℕ → Thread

abbrev pub initial : System
initial = record { queue = new_queue; threads = λ _. idle }

-- A call of `push` or `try_pop` by an idle thread, or the next access of a thread.
pub data Event : Type 0 where
  push : (t item : ℕ) → Event
  try_pop move : (t : ℕ) → Event

unfoldable pub is_idle : Thread → Bool
is_idle idle = true
is_idle thread = false

unfoldable pub push_call : ℕ → ℕ → System → System
push_call t item s =
    if is_idle (s.threads t)
    then record {
      queue = allocate item s.queue;
      threads = update s.threads t (push_load s.queue.allocated);
    }
    else s

unfoldable pub pop_call : ℕ → System → System
pop_call t s =
    if is_idle (s.threads t) then record s { threads = update s.threads t pop_load } else s

unfoldable pub step : Event → System → System
step (push t item) s = push_call t item s
step (try_pop t) s = pop_call t s
step (move t) s = record {
  queue = write s.queue (s.threads t);
  threads = update s.threads t (advance s.queue (s.threads t));
}

unfoldable pub run : List Event → System → System
run [] s = s
run (e ∷ events) s = run events (step e s)

-- What a call returns with its last access: the data that `pop_internal` reads.
unfoldable pub result : Queue → Thread → Option ℕ
result q (retiring head n) = some (q.data_of n)
result q thread = none

-- What the access of a thread means, and whether its call returns with it.
unfoldable pub link_label : ℕ → Option ℕ → ℕ → Label
link_label t none item = put t item
link_label t (some n) item = internal

unfoldable pub successor_label : ℕ → Option ℕ → Label
successor_label t none = met_none t
successor_label t (some n) = internal

unfoldable pub move_label : ℕ → Queue → Thread → Label
move_label t q (push_link new onto) = link_label t (q.next onto) (q.data_of new)
move_label t q (pop_next head) = successor_label t (q.next head)
move_label t q (pop_head head n) = if q.head == head then took t (q.data_of n) else internal
move_label t q thread = internal

unfoldable pub return_label : ℕ → Queue → Thread → Label
return_label t q thread =
    if is_idle thread
    then internal
    else if is_idle (advance q thread)
    then returned t (result q thread)
    else internal

unfoldable pub label : Event → System → Label
label (push t item) s = if is_idle (s.threads t) then called_push t item else internal
label (try_pop t) s = if is_idle (s.threads t) then called_pop t else internal
label (move t) s = move_label t s.queue (s.threads t)

unfoldable pub answer_label : Event → System → Label
answer_label (push t item) s = internal
answer_label (try_pop t) s = internal
answer_label (move t) s = return_label t s.queue (s.threads t)

-- The labels of a run.
unfoldable pub trace : List Event → System → List Label
trace [] s = []
trace (e ∷ events) s = label e s ∷ answer_label e s ∷ trace events (step e s)

-- The specification on a list of items, the first one first; `none` where it does not allow the label.
unfoldable pub take_first : List ℕ → ℕ → Option (List ℕ)
take_first [] item = none
take_first (x ∷ rest) item = if x == item then some rest else none

unfoldable pub if_empty : List ℕ → Option (List ℕ)
if_empty [] = some []
if_empty (x ∷ rest) = none

unfoldable pub fifo_step : Label → List ℕ → Option (List ℕ)
fifo_step internal items = some items
fifo_step (called_push t item) items = some items
fifo_step (called_pop t) items = some items
fifo_step (returned t answer) items = some items
fifo_step (met_none t) items = if_empty items
fifo_step (put t item) items = some (items ++ item ∷ [])
fifo_step (took t item) items = take_first items item

unfoldable pub fifo_run : List Label → List ℕ → Option (List ℕ)
fifo_run [] items = some items
fifo_run (l ∷ labels) items = Option.bind (fifo_step l items) (fifo_run labels)
