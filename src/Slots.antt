-- ===== src/Slots.antt =====
-- src/sync/reusable_slots.rs: the slots that threads acquire and give back. An event is one atomic
-- access of one thread.
mod Tests
pub mod Owners
pub mod Exclusive
use cdpt.Base.{
  ℕ, ◌+◌, ◌-◌, Bool, true, false, ◌==◌, ltb, if◌then◌else◌, Option, none, some, List, [], ◌∷◌,
  update,
}

-- Where a thread stands in `acquire_or_default` and `Entry::drop`. Node `i` is the one that link `i`
-- leads to; link 0 is `head`. A thread loads link `i`, inserts a node there, loads the flag of node
-- `i`, or takes node `i` by a compare-exchange; `counting` comes before `fetch_add` and `leaving`
-- after `fetch_sub`.
pub data Thread : Type 0 where
  outside : Thread
  loading inserting checking taking counting holding leaving : (i : ℕ) → Thread

-- Links lead to the first `nodes` nodes; the link after them is null.
pub record Slots : Type 0 where
  pub nodes : ℕ
  pub using : ℕ → Bool
  pub active_count : ℕ

pub record System : Type 0 where
  pub slots : Slots
  pub threads : ℕ → Thread

abbrev pub empty : System
empty = record {
  slots = record { nodes = 0; using = λ _. false; active_count = 0 };
  threads = λ _. outside;
}

-- The next access of a thread in `acquire_or_default`.
unfoldable pub acquire_or_default : Slots → Thread → Thread
acquire_or_default s (loading i) = if ltb i s.nodes then checking i else inserting i
acquire_or_default s (inserting i) = if i == s.nodes then counting i else loading i
acquire_or_default s (checking i) = if s.using i then loading (i + 1) else taking i
acquire_or_default s (taking i) = if s.using i then loading (i + 1) else counting i
acquire_or_default s (counting i) = holding i
acquire_or_default s (leaving i) = outside
acquire_or_default s thread = thread

-- What the access writes.
unfoldable pub write : Slots → Thread → Slots
write s (inserting i) =
    if i == s.nodes then record s { nodes = i + 1; using = update s.using i true } else s
write s (taking i) = if s.using i then s else record s { using = update s.using i true }
write s (counting i) = record s { active_count = s.active_count + 1 }
write s (leaving i) = record s { using = update s.using i false }
write s thread = s

-- `Entry::drop` begins with `fetch_sub`; then the thread is `leaving`.
unfoldable pub give_back : Thread → Thread
give_back (holding i) = leaving i
give_back thread = thread

unfoldable pub uncount : Slots → Thread → Slots
uncount s (holding i) = record s { active_count = s.active_count - 1 }
uncount s thread = s

-- A call of `acquire_or_default`.
unfoldable pub begin : Thread → Thread
begin outside = loading 0
begin thread = thread

pub data Event : Type 0 where
  call drop_entry move : (t : ℕ) → Event

unfoldable pub step : Event → System → System
step (call t) s = record s { threads = update s.threads t (begin (s.threads t)) }
step (drop_entry t) s = record {
  slots = uncount s.slots (s.threads t);
  threads = update s.threads t (give_back (s.threads t));
}
step (move t) s = record {
  slots = write s.slots (s.threads t);
  threads = update s.threads t (acquire_or_default s.slots (s.threads t));
}

unfoldable pub run : List Event → System → System
run [] s = s
run (e ∷ events) s = run events (step e s)
