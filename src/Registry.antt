-- ===== src/Registry.antt =====
-- src/pointers.rs: `register_type` by any number of threads. An event is one atomic access of a
-- thread; `TYPE_SET.get_or_insert` is one event, for which see HashSet. A type is a number, and so
-- is the shade function of a type.
mod Tests
pub mod Invariant
pub mod Writes
pub mod Moves
pub mod Ids
use cdpt.Base.{
  ℕ, zero, suc, ◌+◌, ◌^◌, Bool, true, false, ltb, if◌then◌else◌, Option, none, some, List, [], ◌∷◌,
  update,
}

abbrev pub max_type_id : ℕ
max_type_id = 256

-- What is in the set for a type: nothing, or its `TypeReg` with an id.
pub data Entry : Type 0 where
  absent unset : Entry
  set : (id : ℕ) → Entry

-- The set of types, the counter, and the table of shade functions.
pub record Registry : Type 0 where
  pub type_set : ℕ → Entry
  pub next_type_id : ℕ
  pub shade_fn_table : ℕ → Option ℕ

abbrev pub new_registry : Registry
new_registry = record { type_set = λ _. absent; next_type_id = 0; shade_fn_table = λ _. none }

-- Where a thread stands in `register_type`. `assigning` comes before the `fetch_add`, `loading` before
-- a load of the id of an entry.
pub data Thread : Type 0 where
  idle panicked : Thread
  inserting assigning loading : (ty : ℕ) → Thread
  storing_fn storing_id registered : (ty id : ℕ) → Thread

-- After `get_or_insert`.
unfoldable pub see_entry : Entry → ℕ → Thread
see_entry absent ty = assigning ty
see_entry unset ty = loading ty
see_entry (set id) ty = loading ty

unfoldable pub insert_entry : Entry → ℕ → Registry → Registry
insert_entry absent ty r = record r { type_set = update r.type_set ty unset }
insert_entry unset ty r = r
insert_entry (set id) ty r = r

-- After the load of an id: the loop goes on while it is not set.
unfoldable pub see_id : Entry → ℕ → Thread
see_id absent ty = loading ty
see_id unset ty = loading ty
see_id (set id) ty = registered ty id

-- Where the thread stands after its next access.
unfoldable pub advance : Registry → Thread → Thread
advance r (inserting ty) = see_entry (r.type_set ty) ty
advance r (assigning ty) =
    if ltb r.next_type_id max_type_id then storing_fn ty r.next_type_id else panicked
advance r (loading ty) = see_id (r.type_set ty) ty
advance r (storing_fn ty id) = storing_id ty id
advance r (storing_id ty id) = registered ty id
advance r (registered ty id) = idle
advance r idle = idle
advance r panicked = panicked

-- What the access writes.
unfoldable pub write : Registry → Thread → Registry
write r (inserting ty) = insert_entry (r.type_set ty) ty r
write r (assigning ty) = record r { next_type_id = r.next_type_id + 1 }
write r (storing_fn ty id) = record r { shade_fn_table = update r.shade_fn_table id (some ty) }
write r (storing_id ty id) = record r { type_set = update r.type_set ty (set id) }
write r thread = r

-- `get_shade_fn`
unfoldable pub get_shade_fn : ℕ → Registry → Option ℕ
get_shade_fn id r = r.shade_fn_table id

pub record System : Type 0 where
  pub registry : Registry
  pub threads : ℕ → Thread

abbrev pub initial : System
initial = record { registry = new_registry; threads = λ _. idle }

unfoldable pub is_idle : Thread → Bool
is_idle idle = true
is_idle thread = false

-- A call of `register_type` by an idle thread, or the next access of a thread.
pub data Event : Type 0 where
  register_type : (t ty : ℕ) → Event
  move : (t : ℕ) → Event

unfoldable pub step : Event → System → System
step (register_type t ty) s =
    if is_idle (s.threads t) then record s { threads = update s.threads t (inserting ty) } else s
step (move t) s = record {
  registry = write s.registry (s.threads t);
  threads = update s.threads t (advance s.registry (s.threads t));
}

unfoldable pub run : List Event → System → System
run [] s = s
run (e ∷ events) s = run events (step e s)
