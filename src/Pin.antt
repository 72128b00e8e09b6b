-- ===== src/Pin.antt =====
-- src/internal.rs, src/collector.rs: how mutators pin themselves to the global epoch, and how the
-- collector moves the epoch on and waits for them. All atomics are sequentially consistent; an event
-- is one atomic access of a thread, with the thread's own work up to the next one.
pub mod Epochs
pub mod Mutators
pub mod Invariant
mod Waiting
mod Runs
pub mod Agreement
mod Tests
use cdpt.Base.{
  ℕ, zero, suc, ◌+◌, ◌-◌, ◌≡◌, Bool, true, false, not, ◌&&◌, ◌||◌, ◌==◌, leb, word_size,
}
use mathlib.Core.Option
use cdpt.Base.{update, if◌then◌else◌, Option, none, some, List, [], ◌∷◌, ltb}
use cdpt.Epoch.{
  Epoch, Phase, normal, rt, ct, Color, starting, pinned, is_pinned, phase, color, timestamp,
}
use cdpt.Epoch.{with_phase, with_color, with_timestamp, flip, phase_eq}

-- `epoch.phase() == p`; a phase number 3, at which `phase` panics, counts as different.
abbrev pub phase_is : Epoch → Phase → Bool
phase_is e p = elim (phase e) [ none ↦ false | some q ↦ phase_eq q p ]

-- Where a mutator stands: outside of `pin_freshly`, or at the head of its loop with `curr_epoch`
-- read, or in the loop after the store and the fence.
pub data Pc : Type 0 where
  ready : Pc
  loaded : (curr_epoch : Epoch) → Pc
  stored : (curr_epoch : Epoch) → Pc

-- The fields of a `Local` that pinning uses. `using` is the flag of its slot, and `scanned` the
-- epoch in which `phase_barrier` last ran.
pub record Mutator : Type 0 where
  pub using : Bool
  pub guard_count : ℕ
  pub last_observed : Epoch
  pub epoch : Epoch
  pub scanned : Option Epoch
  pub pc : Pc

-- A slot that no thread has acquired yet (`Local::default`).
abbrev pub fresh : Mutator
fresh = record {
  using = false;
  guard_count = 0;
  last_observed = starting;
  epoch = starting;
  scanned = none;
  pc = ready;
}

-- `Local::register`: the slot is taken.
abbrev register : Pc → Mutator → Option Mutator
register ready m = if m.using then none else some (record m { using = true })
register _ m = none

-- `Entry::drop`, which comes after the last guard, since every guard holds the entry.
abbrev pub release : Pc → Mutator → Option Mutator
release ready m = if m.using && m.guard_count == 0 then some (record m { using = false }) else none
release _ m = none

-- `pin_inner`, and for a first guard the load before the loop of `pin_freshly`. `none` on the
-- overflow of the guard count is the panic of `unwrap`.
pub pin_inner : Epoch → Pc → Mutator → Option Mutator
pin_inner global ready m =
    if not m.using || m.guard_count + 1 == word_size
    then none
    else if m.guard_count == 0
    then some (record m { guard_count = 1; pc = loaded global })
    else some (record m { guard_count = m.guard_count + 1 })
pin_inner global _ m = none

-- The store at the head of the loop of `pin_freshly`.
pub store_epoch : Pc → Mutator → Option Mutator
store_epoch (loaded curr) m = some (record m { epoch = pinned curr; pc = stored curr })
store_epoch _ m = none

-- The end of `pin_freshly`, after its loop.
pub observe : Epoch → Mutator → Mutator
observe curr m =
    if not (timestamp m.last_observed == timestamp curr) && phase_is curr rt
    then record m { scanned = some curr; last_observed = curr; pc = ready }
    else record m { last_observed = curr; pc = ready }

-- The second load in the loop of `pin_freshly`: leave the loop, or go round again.
pub check_epoch : Epoch → Pc → Mutator → Option Mutator
check_epoch global (stored curr) m =
    if curr.data_bits == global.data_bits
    then some (observe curr m)
    else some (record m { pc = loaded global })
check_epoch global _ m = none

-- `unpin_inner`; only a thread that has a guard drops one.
pub unpin_inner : Pc → Mutator → Option Mutator
unpin_inner ready m =
    if m.guard_count == 0
    then none
    else if m.guard_count == 1
    then some (record m { guard_count = 0; epoch = starting })
    else some (record m { guard_count = m.guard_count - 1 })
unpin_inner _ m = none

pub data Op : Type 0 where
  op_register op_release op_pin op_store op_check op_unpin : Op

-- One event of one mutator; `none` where it cannot come.
pub mutator_step : Epoch → Op → Mutator → Option Mutator
mutator_step global op_register m = register m.pc m
mutator_step global op_release m = release m.pc m
mutator_step global op_pin m = pin_inner global m.pc m
mutator_step global op_store m = store_epoch m.pc m
mutator_step global op_check m = check_epoch global m.pc m
mutator_step global op_unpin m = unpin_inner m.pc m

-- The epoch that `phase_trans` stores.
pub phase_trans : Phase → Epoch → Epoch
phase_trans new epoch = with_phase (with_timestamp epoch (timestamp epoch + 1)) new

-- The epoch that `next_normal` stores.
pub next_normal : Epoch → Epoch
next_normal prev =
    with_color (with_phase (with_timestamp prev (timestamp prev + 1)) normal) (flip (color prev))

-- The collector: at work in the current phase, or in `wait_all_mutators_unpin` after it has replaced
-- `prev` and has passed `visited` slots.
pub data Collector : Type 0 where
  working : Collector
  waiting : (prev : Epoch) (visited : ℕ) → Collector

pub record System : Type 0 where
  pub epoch : Epoch
  pub mutators : ℕ → Mutator
  pub collector : Collector

-- `Global::new`, before any thread is there.
abbrev pub init : System
init = record { epoch = starting; mutators = λ _. fresh; collector = working }

-- The test of `wait_all_mutators_unpin` at one slot, which `iter_using` skips if it is not in use.
pub has_left : ℕ → Mutator → Bool
has_left new_ts m = not m.using || (not (is_pinned m.epoch) || leb new_ts (timestamp m.epoch))

-- `pinned_alloc_color` of a `Local`: white in the normal phase, black in the others. `none` is the
-- panic of `phase`.
pub pinned_alloc_color : Epoch → Option Color
pinned_alloc_color e =
    Option.map (λ p. if phase_eq p normal then color e else flip (color e)) (phase e)

pub data Event : Type 0 where
  mutator : ℕ → Op → Event
  -- the stores of `root_tracing`, `completion_tracing` and `next_normal`
  begin complete finish : Event
  -- one look of the collector at a slot
  poll : Event

pub replace_epoch : (Epoch → Epoch) → System → System
replace_epoch next s = record s { epoch = next s.epoch; collector = waiting s.epoch 0 }

-- The stores of the collector, each in the phase in which `collector_loop` comes to it, and its
-- waiting. At a mutator that has not left, it spins.
pub collector_step : ℕ → Event → Collector → System → Option System
collector_step slots begin working s =
    if phase_is s.epoch normal then some (replace_epoch (phase_trans rt) s) else none
collector_step slots complete working s =
    if phase_is s.epoch rt || phase_is s.epoch ct
    then some (replace_epoch (phase_trans ct) s)
    else none
collector_step slots finish working s =
    if phase_is s.epoch ct then some (replace_epoch next_normal s) else none
collector_step slots poll (waiting prev visited) s =
    if visited == slots
    then some (record s { collector = working })
    else if has_left (timestamp s.epoch) (s.mutators visited)
    then some (record s { collector = waiting prev (visited + 1) })
    else some s
collector_step slots _ _ s = none

-- One event of a system with `slots` slots.
pub system_step : ℕ → Event → System → Option System
system_step slots (mutator i op) s =
    if ltb i slots
    then Option.map (λ m. record s { mutators = update s.mutators i m })
        (mutator_step s.epoch op (s.mutators i))
    else none
system_step slots begin s = collector_step slots begin s.collector s
system_step slots complete s = collector_step slots complete s.collector s
system_step slots finish s = collector_step slots finish s.collector s
system_step slots poll s = collector_step slots poll s.collector s

-- An interleaving; `none` if an event cannot come.
pub run : ℕ → List Event → System → Option System
run slots [] s = some s
run slots (e ∷ events) s = Option.bind (system_step slots e s) (run slots events)
