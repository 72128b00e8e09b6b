-- ===== src/Stack.antt =====
-- examples/stack.rs: `push` and `pop` of the stack by any number of threads. An event is one atomic
-- access of one thread; a compare-exchange of `top` is one event, for whose steps see Heap. Nodes are
-- named by numbers in the order of their allocation, and a node is not allocated again while the stack
-- is in use, which the collector is there for.
mod Tests
pub mod Views
pub mod Moves
pub mod Answers
pub mod Linear
use mathlib.Core.Option
use cdpt.Base.{
  ℕ, zero, suc, ◌+◌, Bool, true, false, ◌==◌, if◌then◌else◌, Option, none, some, List, [], ◌∷◌,
  update,
}
use cdpt.Calls.{Label, internal, called_push, put, took, called_pop, met_none, returned}

-- Where a thread stands in `push` of the node `new`, or in `pop`; `old` is the top that it has loaded.
pub data Thread : Type 0 where
  idle pop_load : Thread
  push_load : (new : ℕ) → Thread
  push_store push_cas : (new : ℕ) (old : Option ℕ) → Thread
  pop_next : (old : ℕ) → Thread
  pop_cas : (old : ℕ) (next : Option ℕ) → Thread

-- The stack and the nodes.
pub record Stack : Type 0 where
  pub allocated : ℕ
  pub item_of : ℕ → ℕ
  pub next : ℕ → Option ℕ
  pub top : Option ℕ

-- `Stack::new`
abbrev pub new_stack : Stack
new_stack = record { allocated = 0; item_of = λ _. 0; next = λ _. none; top = none }

-- The node that `push` allocates.
unfoldable pub allocate : ℕ → Stack → Stack
allocate item q = record q {
  allocated = q.allocated + 1;
  item_of = update q.item_of q.allocated item;
  next = update q.next q.allocated none;
}

unfoldable pub same_top : Option ℕ → Option ℕ → Bool
same_top none none = true
same_top none (some b) = false
same_top (some a) none = false
same_top (some a) (some b) = a == b

-- After the load of `top` by `pop`.
unfoldable pub see_top : Option ℕ → Thread
see_top none = idle
see_top (some old) = pop_next old

-- Where the thread stands after its next access.
unfoldable pub advance : Stack → Thread → Thread
advance q idle = idle
advance q (push_load new) = push_store new q.top
advance q (push_store new old) = push_cas new old
advance q (push_cas new old) = if same_top q.top old then idle else push_load new
advance q pop_load = see_top q.top
advance q (pop_next old) = pop_cas old (q.next old)
advance q (pop_cas old next) = if same_top q.top (some old) then idle else pop_load

unfoldable pub cas_top : Option ℕ → Option ℕ → Stack → Stack
cas_top old new q = if same_top q.top old then record q { top = new } else q

-- What the access writes.
unfoldable pub write : Stack → Thread → Stack
write q (push_store new old) = record q { next = update q.next new old }
write q (push_cas new old) = cas_top old (some new) q
write q (pop_cas old next) = cas_top (some old) next q
write q thread = q

pub record System : Type 0 where
  pub stack : Stack
  pub threads : ℕ → Thread

abbrev pub initial : System
initial = record { stack = new_stack; threads = λ _. idle }

unfoldable pub is_idle : Thread → Bool
is_idle idle = true
is_idle thread = false

-- A call of `push` or `pop` by an idle thread, or the next access of a thread.
pub data Event : Type 0 where
  push : (t item : ℕ) → Event
  pop move : (t : ℕ) → Event

unfoldable pub push_call : ℕ → ℕ → System → System
push_call t item s =
    if is_idle (s.threads t)
    then record {
      stack = allocate item s.stack;
      threads = update s.threads t (push_load s.stack.allocated);
    }
    else s

unfoldable pub pop_call : ℕ → System → System
pop_call t s =
    if is_idle (s.threads t) then record s { threads = update s.threads t pop_load } else s

unfoldable pub step : Event → System → System
step (push t item) s = push_call t item s
step (pop t) s = pop_call t s
step (move t) s = record {
  stack = write s.stack (s.threads t);
  threads = update s.threads t (advance s.stack (s.threads t));
}

unfoldable pub run : List Event → System → System
run [] s = s
run (e ∷ events) s = run events (step e s)

-- What a call returns with its last access: the item of the node that a `pop` has taken off.
unfoldable pub result : Stack → Thread → Option ℕ
result q (pop_cas old next) = some (q.item_of old)
result q thread = none

-- What the access of a thread means, and whether its call returns with it.
unfoldable pub top_label : ℕ → Option ℕ → Label
top_label t none = met_none t
top_label t (some old) = internal

unfoldable pub move_label : ℕ → Stack → Thread → Label
move_label t q (push_cas new old) = if same_top q.top old then put t (q.item_of new) else internal
move_label t q pop_load = top_label t q.top
move_label t q (pop_cas old next) =
    if same_top q.top (some old) then took t (q.item_of old) else internal
move_label t q thread = internal

unfoldable pub return_label : ℕ → Stack → Thread → Label
return_label t q thread =
    if is_idle thread
    then internal
    else if is_idle (advance q thread)
    then returned t (result q thread)
    else internal

unfoldable pub label : Event → System → Label
label (push t item) s = if is_idle (s.threads t) then called_push t item else internal
label (pop t) s = if is_idle (s.threads t) then called_pop t else internal
label (move t) s = move_label t s.stack (s.threads t)

unfoldable pub answer_label : Event → System → Label
answer_label (push t item) s = internal
answer_label (pop t) s = internal
answer_label (move t) s = return_label t s.stack (s.threads t)

unfoldable pub trace : List Event → System → List Label
trace [] s = []
trace (e ∷ events) s = label e s ∷ answer_label e s ∷ trace events (step e s)

-- The specification on a list of items, the top first; `none` where it does not allow the label.
unfoldable pub take_top : List ℕ → ℕ → Option (List ℕ)
take_top [] item = none
take_top (x ∷ items) item = if x == item then some items else none

unfoldable pub if_empty : List ℕ → Option (List ℕ)
if_empty [] = some []
if_empty (x ∷ items) = none

unfoldable pub lifo_step : Label → List ℕ → Option (List ℕ)
lifo_step internal items = some items
lifo_step (called_push t item) items = some items
lifo_step (called_pop t) items = some items
lifo_step (returned t answer) items = some items
lifo_step (met_none t) items = if_empty items
lifo_step (put t item) items = some (item ∷ items)
lifo_step (took t item) items = take_top items item

unfoldable pub lifo_run : List Label → List ℕ → Option (List ℕ)
lifo_run [] items = some items
lifo_run (l ∷ labels) items = Option.bind (lifo_step l items) (lifo_run labels)
