-- ===== src/Hazard.antt =====
-- src/internal.rs: the hazard pointers of one thread: `acquire_hp`, `grow_hazards`, `release_hp` and
-- `phase_barrier` of `Local`, and `HazardPointer`.
mod Tests
pub mod Ids
pub mod Slots
pub mod Valid
pub mod Runs
pub mod Shields
pub mod Isolation
use cdpt.Base.{
  ℕ, zero, suc, ◌+◌, ◌-◌, ◌*◌, max, Bool, ◌&&◌, ◌==◌, ltb, if◌then◌else◌, Option, none, some, List,
  [], ◌∷◌, ◌++◌, length, get_elem?, set,
}
use mathlib.Core.Option

abbrev pub hazards_init_count : ℕ
hazards_init_count = 8

-- An entry of `hazards`: an address, 0 for null, or `none` where the memory is not initialised.
abbrev pub Slot : Type 0
Slot = Option ℕ

-- An entry of `hazards_marker`: `mark::<T>` is named by a number for the type `T`.
abbrev pub Marker : Type 0
Marker = Option ℕ

-- The fields of `Local` for hazard pointers. The first element of `available_hids` is the end of the
-- vector. `held` is the `hid` of every `HazardPointer` that is alive.
pub record Hazards : Type 0 where
  pub hazards : List Slot
  pub hazards_marker : List Marker
  pub available_hids : List ℕ
  pub held : List ℕ

unfoldable pub replicate {ℓ} : {A : Type ℓ} → ℕ → A → List A
replicate zero a = []
replicate (suc n) a = a ∷ replicate n a

-- `Vec::extend` by the numbers `from..from + n`.
unfoldable pub extend : List ℕ → ℕ → ℕ → List ℕ
extend stack from zero = stack
extend stack from (suc n) = extend (from ∷ stack) (from + 1) n

-- `Vec::resize` with `None`.
unfoldable pub resize : List Marker → ℕ → List Marker
resize marks zero = []
resize [] (suc n) = none ∷ resize [] n
resize (m ∷ marks) (suc n) = m ∷ resize marks n

-- The part of `Local::default` for hazard pointers.
abbrev pub initial : Hazards
initial = record {
  hazards = replicate hazards_init_count (some 0);
  hazards_marker = replicate hazards_init_count none;
  available_hids = extend [] 0 hazards_init_count;
  held = [];
}

-- The vector that `grow_hazards` allocates and fills: the entries beyond the copied and the zeroed
-- ones are left as they are allocated.
unfoldable pub grow_slots : List Slot → List Slot
grow_slots old =
    let half = length old in
    old ++ (replicate half (some 0) ++ replicate (max half 1 * 2 - (half + half)) none)

-- `grow_hazards`
unfoldable pub grow_hazards : Hazards → Hazards
grow_hazards l =
    let half = length l.hazards in
    record l {
      hazards = grow_slots l.hazards;
      hazards_marker = resize l.hazards_marker (half * 2);
      available_hids = extend l.available_hids half half;
    }

-- `Vec::pop`, for a new `HazardPointer`.
unfoldable pub pop_hid : List ℕ → Hazards → Option Hazards
pop_hid [] l = none
pop_hid (hid ∷ hids) l = some (record l { available_hids = hids; held = hid ∷ l.held })

-- `HazardPointer::new` by `acquire_hp`; `none` is the panic of `unwrap`.
unfoldable pub acquire_hp : List ℕ → Hazards → Option Hazards
acquire_hp [] l = let grown = grow_hazards l in pop_hid grown.available_hids grown
acquire_hp (hid ∷ hids) l = pop_hid (hid ∷ hids) l

-- A write to the slot `hid` of both vectors; `none` where `get_unchecked` is out of bounds.
unfoldable pub write_slot : ℕ → ℕ → Marker → Hazards → Option Hazards
write_slot hid addr mark l =
    if ltb hid (length l.hazards) && ltb hid (length l.hazards_marker)
    then some (record l {
      hazards = set l.hazards hid (some addr);
      hazards_marker = set l.hazards_marker hid mark;
    })
    else none

-- `HazardPointer::protect` of an object of type `ty`.
unfoldable pub protect : ℕ → ℕ → ℕ → Hazards → Option Hazards
protect hid addr ty l = write_slot hid addr (if addr == 0 then none else some ty) l

-- `HazardPointer::clear`
unfoldable pub clear : ℕ → Hazards → Option Hazards
clear hid l = write_slot hid 0 none l

-- `release_hp`, for the `HazardPointer` at place `k` of those that are alive.
unfoldable pub remove_at : ℕ → List ℕ → List ℕ
remove_at k [] = []
remove_at zero (x ∷ xs) = xs
remove_at (suc k) (x ∷ xs) = x ∷ remove_at k xs

unfoldable pub release_hp : ℕ → ℕ → Hazards → Hazards
release_hp k hid l = record l { available_hids = hid ∷ l.available_hids; held = remove_at k l.held }

-- `HazardPointer::drop`
unfoldable pub drop : ℕ → ℕ → Hazards → Option Hazards
drop k hid l = Option.map (release_hp k hid) (clear hid l)

-- What a thread does with the `HazardPointer` at place `k` of those that are alive.
pub data Event : Type 0 where
  new : Event
  protect_with : (k addr ty : ℕ) → Event
  clear_with : (k : ℕ) → Event
  drop_with : (k : ℕ) → Event

-- An operation of the `HazardPointer` at place `k` of those that are alive, if there is one.
unfoldable pub with_hid : Option ℕ → (ℕ → Hazards → Option Hazards) → Hazards → Option Hazards
with_hid none op l = some l
with_hid (some hid) op l = op hid l

-- One event; one that names no living `HazardPointer` cannot come and changes nothing.
unfoldable pub step : Event → Hazards → Option Hazards
step new l = acquire_hp l.available_hids l
step (protect_with k addr ty) l = with_hid (get_elem? l.held k) (λ hid. protect hid addr ty) l
step (clear_with k) l = with_hid (get_elem? l.held k) clear l
step (drop_with k) l = with_hid (get_elem? l.held k) (drop k) l

unfoldable pub run : List Event → Hazards → Option Hazards
run [] l = some l
run (e ∷ events) l = Option.bind (step e l) (run events)

-- A call of a marker on an address.
pub record Call : Type 0 where
  pub marker : ℕ
  pub addr : ℕ

-- The loop of `phase_barrier`: the calls in order, `none` for a read of memory that is not
-- initialised and for the panic of `mark.unwrap()`.
unfoldable pub phase_barrier : List Slot → List Marker → Option (List Call)
phase_barrier (none ∷ hps) (mark ∷ marks) = none
phase_barrier (some zero ∷ hps) (mark ∷ marks) = phase_barrier hps marks
phase_barrier (some (suc a) ∷ hps) (none ∷ marks) = none
phase_barrier (some (suc a) ∷ hps) (some ty ∷ marks) =
    Option.map (λ calls. record { marker = ty; addr = suc a } ∷ calls) (phase_barrier hps marks)
phase_barrier _ _ = some []
