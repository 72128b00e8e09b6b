-- ===== src/Lists/Spec.antt =====
-- examples/ds/lists.rs: what a run of the lists means for a map.
use mathlib.Core.Option
use cdpt.Base.{
  ℕ, Bool, true, not, ◌&&◌, ◌||◌, ◌==◌, if◌then◌else◌, Option, none, some, List, [], ◌∷◌, update,
}
use cdpt.Lists.{
  Op, get, remove, insert, op_key, Thread, begun, visiting, cleaning, unlinking, linking, marking,
  returning, Nodes, System, Event, call_get, call_remove, call_insert, move, is_idle, cas_wins,
  opt_ptr_eq, advance, thread_of, step,
}

pub data Wish : Type 0 where
  getting removing inserting : Wish

abbrev pub wish : Op → Wish
wish (get find key) = getting
wish (remove find key) = removing
wish (insert find key new) = inserting

-- What a step means: thread `t` is called with a key, sees its key with the value, takes it out, puts
-- it in, returns a value, answers that there is no such key, that an insert has failed, or that it
-- has been done.
pub data Label : Type 0 where
  internal : Label
  called : (t : ℕ) (w : Wish) (key : ℕ) → Label
  saw removed inserted returned : (t value : ℕ) → Label
  missing refused added : (t : ℕ) → Label

unfoldable pub call_label : Event → Label
call_label (call_get t kind key) = called t getting key
call_label (call_remove t kind key) = called t removing key
call_label (call_insert t kind key v) = called t inserting key
call_label (move t) = internal

unfoldable pub move_label : ℕ → Nodes → Thread → Label
move_label t h (visiting op prev prev_next curr) =
    if (h.key curr == op_key op) && not (h.tagged curr) then saw t (h.value curr) else internal
move_label t h (linking find key new prev curr) =
    if cas_wins h prev curr then inserted t (h.value new) else internal
move_label t h (marking find key prev curr) =
    if h.tagged curr then internal else removed t (h.value curr)
move_label t h (returning curr) = returned t (h.value curr)
move_label t h thread = internal

unfoldable pub event_label : Event → System → Label
event_label (move t) s = move_label t s.nodes (s.threads t)
event_label e s = internal

unfoldable pub label : Event → System → Label
label e s = if is_idle (s.threads (thread_of e)) then call_label e else event_label e s

-- The operation of a thread that is in `find`.
abbrev pub finding : Thread → Option Op
finding (begun op) = some op
finding (visiting op prev prev_next curr) = some op
finding (cleaning op found prev prev_next curr) = some op
finding (unlinking op prev curr next) = some op
finding _ = none

-- What it answers when `find` ends the operation.
unfoldable pub reply : ℕ → Op → Label
reply t (get find key) = missing t
reply t (remove find key) = missing t
reply t (insert find key new) = refused t

unfoldable pub answer : ℕ → Option Op → Thread → Label
answer t none thread = internal
answer t (some op) thread = if is_idle thread then reply t op else internal

-- What a thread answers when it goes on as `next`.
unfoldable pub end_label : ℕ → Thread → Thread → Label
end_label t (linking find key new prev curr) next = if is_idle next then added t else internal
end_label t thread next = answer t (finding thread) next

unfoldable pub event_answer : Event → System → Label
event_answer (move t) s = end_label t (s.threads t) (advance s.nodes (s.threads t))
event_answer e s = internal

unfoldable pub answer_label : Event → System → Label
answer_label e s = if is_idle (s.threads (thread_of e)) then internal else event_answer e s

unfoldable pub trace : List Event → System → List Label
trace [] s = []
trace (e ∷ events) s = label e s ∷ answer_label e s ∷ trace events (step e s)

-- The specification: a map, and for each thread the key that it has been called with, the value that it
-- has seen or taken out since then, and whether the key has been out of the map at some time since
-- then.
pub record Map : Type 0 where
  pub items : ℕ → Option ℕ
  pub wanted : ℕ → ℕ
  pub seen : ℕ → Option ℕ
  pub missed : ℕ → Bool

abbrev pub empty_map : Map
empty_map = record { items = λ _. none; wanted = λ _. 0; seen = λ _. none; missed = λ _. true }

-- `none` where the specification does not allow the label.
unfoldable pub map_step : Label → Map → Option Map
map_step internal m = some m
map_step (called t w key) m = some (record m {
  wanted = update m.wanted t key;
  seen = update m.seen t none;
  missed = update m.missed t (opt_ptr_eq (m.items key) none);
})
map_step (saw t value) m =
    if opt_ptr_eq (m.items (m.wanted t)) (some value)
    then some (record m { seen = update m.seen t (some value) })
    else none
map_step (removed t value) m =
    if opt_ptr_eq (m.items (m.wanted t)) (some value)
    then some (record m {
      items = update m.items (m.wanted t) none;
      seen = update m.seen t (some value);
      missed = λ u. (m.wanted u == m.wanted t) || m.missed u;
    })
    else none
map_step (inserted t value) m =
    if opt_ptr_eq (m.items (m.wanted t)) none
    then some (record m { items = update m.items (m.wanted t) (some value) })
    else none
map_step (returned t value) m = if opt_ptr_eq (m.seen t) (some value) then some m else none
map_step (missing t) m = if m.missed t then some m else none
map_step (refused t) m = if opt_ptr_eq (m.seen t) none then none else some m
map_step (added t) m = some m

unfoldable pub map_run : List Label → Map → Option Map
map_run [] m = some m
map_run (l ∷ labels) m = Option.bind (map_step l m) (map_run labels)

-- What a call still has to do before it returns: a remove takes a value out, and returns that one, and
-- an insert puts its key in.
pub data Pending : Type 0 where
  outside joined : Pending
  looking : (w : Wish) → Pending
  taken : (value : ℕ) → Pending

unfoldable pub on_call : Wish → Pending → Option Pending
on_call w outside = some (looking w)
on_call w p = none

unfoldable pub on_removed : ℕ → Pending → Option Pending
on_removed v (looking removing) = some (taken v)
on_removed v p = none

unfoldable pub on_inserted : Pending → Option Pending
on_inserted (looking inserting) = some joined
on_inserted p = none

unfoldable pub on_returned : ℕ → Pending → Option Pending
on_returned v (looking getting) = some outside
on_returned v (taken x) = if v == x then some outside else none
on_returned v p = none

unfoldable pub on_missing : Pending → Option Pending
on_missing (looking getting) = some outside
on_missing (looking removing) = some outside
on_missing p = none

unfoldable pub on_refused : Pending → Option Pending
on_refused (looking inserting) = some outside
on_refused p = none

unfoldable pub on_added : Pending → Option Pending
on_added joined = some outside
on_added p = none

unfoldable pub set_pending : ℕ → (ℕ → Pending) → Option Pending → Option (ℕ → Pending)
set_pending t ps none = none
set_pending t ps (some p) = some (update ps t p)

-- `none` where a call does not allow the label.
unfoldable pub due_step : Label → (ℕ → Pending) → Option (ℕ → Pending)
due_step internal ps = some ps
due_step (called t w key) ps = set_pending t ps (on_call w (ps t))
due_step (saw t value) ps = some ps
due_step (removed t value) ps = set_pending t ps (on_removed value (ps t))
due_step (inserted t value) ps = set_pending t ps (on_inserted (ps t))
due_step (returned t value) ps = set_pending t ps (on_returned value (ps t))
due_step (missing t) ps = set_pending t ps (on_missing (ps t))
due_step (refused t) ps = set_pending t ps (on_refused (ps t))
due_step (added t) ps = set_pending t ps (on_added (ps t))

unfoldable pub due_run : List Label → (ℕ → Pending) → Option (ℕ → Pending)
due_run [] ps = some ps
due_run (l ∷ labels) ps = Option.bind (due_step l ps) (due_run labels)
