-- ===== src/Lists.antt =====
-- examples/ds/lists.rs: `get`, `insert` and `remove` of the linked lists with each of their `find`
-- methods, by any number of threads. An event is one atomic access of one thread, and the thread's own
-- work up to the next; a compare-exchange or `fetch_tag_or` of a link is one event, for whose steps see
-- Heap. Nodes are named by numbers in the order of their allocation, 0 for the dummy head, and a node
-- is not allocated again, which the collector is there for.
mod Tests
pub mod Spec
pub mod Paths
pub mod Views
pub mod Frames
pub mod Links
pub mod Changes
pub mod Updates
pub mod Owning
pub mod Finding
pub mod Tracking
pub mod Searching
pub mod Invariant
pub mod Moves
pub mod Visiting
pub mod Writes
pub mod Inserting
pub mod Removing
pub mod Calls
pub mod Due
pub mod Answering
pub mod Linear
pub mod Ending
mod WaitFree
use mathlib.Core.Option
use cdpt.Base.{
  ℕ, zero, suc, ◌+◌, Bool, true, false, not, ◌&&◌, ltb, ◌==◌, if◌then◌else◌, Option, none, some,
  List, [], ◌∷◌, update,
}

-- The `find` method that an operation is called with.
pub data Find : Type 0 where
  harris harris_michael harris_herlihy_shavit : Find

-- The lists of the file, with the `find` methods of their gets and of their inserts and removes.
pub data Kind : Type 0 where
  h_list hm_list hhs_list : Kind

abbrev pub get_find : Kind → Find
get_find h_list = harris
get_find hm_list = harris_michael
get_find hhs_list = harris_herlihy_shavit

abbrev pub update_find : Kind → Find
update_find h_list = harris
update_find hm_list = harris_michael
update_find hhs_list = harris

-- An operation; `insert` with the node that it has allocated.
pub data Op : Type 0 where
  get remove : (find : Find) (key : ℕ) → Op
  insert : (find : Find) (key new : ℕ) → Op

abbrev pub op_find : Op → Find
op_find (get find key) = find
op_find (remove find key) = find
op_find (insert find key new) = find

abbrev pub op_key : Op → ℕ
op_key (get find key) = key
op_key (remove find key) = key
op_key (insert find key new) = key

-- Where a thread stands. `begun` comes before the load of the head, `visiting` before the load of
-- `curr.next`, `cleaning` and `unlinking` before the compare-exchange of `find_harris` and
-- `find_harris_michael`. `storing` and `linking` come in `insert`, `marking` and `cutting` in
-- `remove`, and a thread at `returning` has the node that it returns.
pub data Thread : Type 0 where
  idle panicked : Thread
  begun : (op : Op) → Thread
  visiting : (op : Op) (prev : ℕ) (prev_next : Option ℕ) (curr : ℕ) → Thread
  cleaning : (op : Op) (found : Bool) (prev : ℕ) (prev_next curr : Option ℕ) → Thread
  unlinking : (op : Op) (prev curr : ℕ) (next : Option ℕ) → Thread
  storing linking : (find : Find) (key new prev : ℕ) (curr : Option ℕ) → Thread
  marking : (find : Find) (key prev curr : ℕ) → Thread
  cutting : (prev curr : ℕ) (next : Option ℕ) → Thread
  returning : (curr : ℕ) → Thread

-- The nodes; `tagged` is the tag of a node's link.
pub record Nodes : Type 0 where
  pub allocated : ℕ
  pub key : ℕ → ℕ
  pub value : ℕ → ℕ
  pub next : ℕ → Option ℕ
  pub tagged : ℕ → Bool

-- `List::new`, with the dummy head
abbrev pub new_list : Nodes
new_list = record {
  allocated = 1;
  key = λ _. 0;
  value = λ _. 0;
  next = λ _. none;
  tagged = λ _. false;
}

-- `Node::new`
unfoldable pub new_node : ℕ → ℕ → Nodes → Nodes
new_node k v h = record {
  allocated = h.allocated + 1;
  key = update h.key h.allocated k;
  value = update h.value h.allocated v;
  next = update h.next h.allocated none;
  tagged = update h.tagged h.allocated false;
}

-- `Local::opt_ptr_eq`
unfoldable pub opt_ptr_eq : Option ℕ → Option ℕ → Bool
opt_ptr_eq none none = true
opt_ptr_eq none (some b) = false
opt_ptr_eq (some a) none = false
opt_ptr_eq (some a) (some b) = a == b

-- `cursor.curr.unwrap()` of a get, and `cursor.curr.as_ref().unwrap()` of a remove
unfoldable pub return_node : Option ℕ → Thread
return_node none = panicked
return_node (some curr) = returning curr

unfoldable pub mark_node : Find → ℕ → ℕ → Option ℕ → Thread
mark_node find key prev none = panicked
mark_node find key prev (some curr) = marking find key prev curr

-- What the operation does with the answer of `find`.
unfoldable pub after_find : Op → Bool → ℕ → Option ℕ → Thread
after_find (get find key) found prev curr = if found then return_node curr else idle
after_find (remove find key) found prev curr = if found then mark_node find key prev curr else idle
after_find (insert find key new) found prev curr =
    if found then idle else storing find key new prev curr

-- The end of the loop of `find`.
unfoldable pub end_find : Find → Op → Bool → ℕ → Option ℕ → Option ℕ → Thread
end_find harris op found prev prev_next curr =
    if opt_ptr_eq prev_next curr
    then after_find op found prev curr
    else cleaning op found prev prev_next curr
end_find harris_michael op found prev prev_next curr = after_find op found prev curr
end_find harris_herlihy_shavit op found prev prev_next curr = after_find op found prev curr

-- The head of the loop.
unfoldable pub see_curr : Op → ℕ → Option ℕ → Option ℕ → Thread
see_curr op prev prev_next none = end_find (op_find op) op false prev prev_next none
see_curr op prev prev_next (some curr) = visiting op prev prev_next curr

-- The comparison of the key of `curr`, with what `find` answers if it is the key.
unfoldable pub see_key : Op → ℕ → Bool → ℕ → Option ℕ → ℕ → Option ℕ → Thread
see_key op key answer prev prev_next curr next =
    if ltb key (op_key op)
    then see_curr op curr next next
    else end_find (op_find op) op ((key == op_key op) && answer) prev prev_next (some curr)

-- The rest of a round of the loop, after the load of `curr.next`.
unfoldable pub see_next : Find → Op → ℕ → Bool → ℕ → Option ℕ → ℕ → Option ℕ → Thread
see_next harris op key tag prev prev_next curr next =
    if tag then see_curr op prev prev_next next else see_key op key true prev prev_next curr next
see_next harris_michael op key tag prev prev_next curr next =
    if tag then unlinking op prev curr next else see_key op key true prev prev_next curr next
see_next harris_herlihy_shavit op key tag prev prev_next curr next =
    see_key op key (not tag) prev prev_next curr next

-- A compare-exchange of the link of `prev` from `expected` without tag wins.
unfoldable pub cas_wins : Nodes → ℕ → Option ℕ → Bool
cas_wins h prev expected = not (h.tagged prev) && opt_ptr_eq (h.next prev) expected

unfoldable pub cas_next : ℕ → Option ℕ → Option ℕ → Nodes → Nodes
cas_next prev expected new h =
    if cas_wins h prev expected then record h { next = update h.next prev new } else h

-- Where the thread stands after its next access.
unfoldable pub advance : Nodes → Thread → Thread
advance h idle = idle
advance h panicked = panicked
advance h (begun op) = see_curr op 0 (h.next 0) (h.next 0)
advance h (visiting op prev prev_next curr) =
    see_next (op_find op) op (h.key curr) (h.tagged curr) prev prev_next curr (h.next curr)
advance h (cleaning op found prev prev_next curr) =
    if cas_wins h prev prev_next then after_find op found prev curr else begun op
advance h (unlinking op prev curr next) =
    if cas_wins h prev (some curr) then see_curr op prev next next else begun op
advance h (storing find key new prev curr) = linking find key new prev curr
advance h (linking find key new prev curr) =
    if cas_wins h prev curr then idle else begun (insert find key new)
advance h (marking find key prev curr) =
    if h.tagged curr then begun (remove find key) else cutting prev curr (h.next curr)
advance h (cutting prev curr next) = returning curr
advance h (returning curr) = idle

-- What the access writes.
unfoldable pub write : Nodes → Thread → Nodes
write h (cleaning op found prev prev_next curr) = cas_next prev prev_next curr h
write h (unlinking op prev curr next) = cas_next prev (some curr) next h
write h (storing find key new prev curr) = record h {
  next = update h.next new curr;
  tagged = update h.tagged new false;
}
write h (linking find key new prev curr) = cas_next prev curr (some new) h
write h (marking find key prev curr) = record h { tagged = update h.tagged curr true }
write h (cutting prev curr next) = cas_next prev (some curr) next h
write h thread = h

pub record System : Type 0 where
  pub nodes : Nodes
  pub threads : ℕ → Thread

abbrev pub initial : System
initial = record { nodes = new_list; threads = λ _. idle }

unfoldable pub is_idle : Thread → Bool
is_idle idle = true
is_idle thread = false

-- A call by an idle thread, or the next access of a thread.
pub data Event : Type 0 where
  call_get call_remove : (t : ℕ) (kind : Kind) (key : ℕ) → Event
  call_insert : (t : ℕ) (kind : Kind) (key value : ℕ) → Event
  move : (t : ℕ) → Event

abbrev pub begin : ℕ → Op → System → System
begin t op s = record s { threads = update s.threads t (begun op) }

unfoldable pub call : Event → System → System
call (call_get t kind key) s = begin t (get (get_find kind) key) s
call (call_remove t kind key) s = begin t (remove (update_find kind) key) s
call (call_insert t kind key v) s = record {
  nodes = new_node key v s.nodes;
  threads = update s.threads t (begun (insert (update_find kind) key s.nodes.allocated));
}
call (move t) s = s

unfoldable pub thread_of : Event → ℕ
thread_of (call_get t kind key) = t
thread_of (call_remove t kind key) = t
thread_of (call_insert t kind key v) = t
thread_of (move t) = t

unfoldable pub next_access : Event → System → System
next_access (move t) s = record {
  nodes = write s.nodes (s.threads t);
  threads = update s.threads t (advance s.nodes (s.threads t));
}
next_access e s = s

unfoldable pub step : Event → System → System
step e s = if is_idle (s.threads (thread_of e)) then call e s else next_access e s

unfoldable pub run : List Event → System → System
run [] s = s
run (e ∷ events) s = run events (step e s)
