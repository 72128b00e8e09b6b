-- ===== src/HashSet.antt =====
-- src/sync/hash_set.rs: `FixedHashSet::get_or_insert` by any number of threads. An event is one atomic
-- access of a slot. Keys are numbers, and `hash` is the hash function of the standard library.
mod Tests
pub mod Probes
pub mod Placement
pub mod Steps
pub mod Once
pub mod Full
use cdpt.Base.{
  ℕ, ◌+◌, ◌-◌, ◌^◌, ◌%◌, Bool, true, false, ◌==◌, if◌then◌else◌, Option, none, some, List, [], ◌∷◌,
  bit_and, word_size, update,
}
use mathlib.Core.Option

-- Where a thread stands in `get_or_insert` of `key`: at the load of the first loop for `i`, at the
-- load or at the compare-exchange of the second loop, or after the return of a reference to the entry
-- of a slot. `panicked` is the panic on a full table.
pub data Thread : Type 0 where
  idle panicked : Thread
  probing : (key i : ℕ) → Thread
  claiming swapping : (key idx : ℕ) → Thread
  returned : (key idx : ℕ) (inserted : Bool) → Thread

-- The slots by index; an entry is never changed once it is there.
abbrev pub Slots : Type 0
Slots = ℕ → Option ℕ

pub record System : Type 0 where
  pub slots : Slots
  pub threads : ℕ → Thread

abbrev pub empty : System
empty = record { slots = λ _. none; threads = λ _. idle }

-- `start t key` is a call of `get_or_insert`, and `move t` the next access of thread `t`.
pub data Event : Type 0 where
  start : (t key : ℕ) → Event
  move : (t : ℕ) → Event

-- The capacity is `2 ^ log`; sums wrap around.
module _ (hash : ℕ → ℕ) (log : ℕ) where
  -- `(hash + i) & mask`
  pub probe : ℕ → ℕ → ℕ
  probe key i = bit_and ((hash key + i) % word_size) (2 ^ log - 1)

  -- `(idx + 1) & mask`
  pub next : ℕ → ℕ
  next idx = bit_and ((idx + 1) % word_size) (2 ^ log - 1)

  -- The first loop, with what it loads at `i`.
  pub probe_slot : Option ℕ → ℕ → ℕ → Thread
  probe_slot none key i = claiming key (probe key i)
  probe_slot (some k) key i =
      if k == key then returned key (probe key i) false else probing key (i + 1)

  -- The second loop at an entry, whether loaded or the winner of the compare-exchange.
  pub meet : ℕ → ℕ → ℕ → Thread
  meet k key idx = if k == key then returned key idx false else claiming key (next idx)

  -- The load of the second loop.
  pub claim_slot : Option ℕ → ℕ → ℕ → Thread
  claim_slot none key idx = swapping key idx
  claim_slot (some k) key idx = meet k key idx

  -- The compare-exchange of the second loop, with what it finds.
  pub swap_slot : Option ℕ → ℕ → ℕ → Thread
  swap_slot none key idx = returned key idx true
  swap_slot (some k) key idx = meet k key idx

  pub swap_store : Option ℕ → ℕ → ℕ → Slots → Slots
  swap_store none key idx slots = update slots idx (some key)
  swap_store (some k) key idx slots = slots

  -- The next access of a thread.
  pub get_or_insert : Slots → Thread → Thread
  get_or_insert slots (probing key i) =
      if i == 2 ^ log then panicked else probe_slot (slots (probe key i)) key i
  get_or_insert slots (claiming key idx) = claim_slot (slots idx) key idx
  get_or_insert slots (swapping key idx) = swap_slot (slots idx) key idx
  get_or_insert slots thread = thread

  pub store : Slots → Thread → Slots
  store slots (swapping key idx) = swap_store (slots idx) key idx slots
  store slots thread = slots

  -- A call by a thread that is not within one.
  pub begin : Thread → ℕ → Thread
  begin idle key = probing key 0
  begin (returned k idx inserted) key = probing key 0
  begin thread key = thread

  pub step : Event → System → System
  step (start t key) s = record s { threads = update s.threads t (begin (s.threads t) key) }
  step (move t) s = record {
    slots = store s.slots (s.threads t);
    threads = update s.threads t (get_or_insert s.slots (s.threads t));
  }

  pub run : List Event → System → System
  run [] s = s
  run (e ∷ events) s = run events (step e s)
