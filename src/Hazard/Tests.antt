-- ===== src/Hazard/Tests.antt =====
-- The hazard pointers of a thread on concrete sequences of operations.
use cdpt.Base.{◌≡◌, ◌≢◌, refl, sym, ◌∙◌, arith, none, some, List, [], ◌∷◌, length, get_elem?}
use mathlib.Core.Option
use mathlib.Core.Option.{some-injective}
use mathlib.Core.Path.{subst}
use cdpt.Hazard.{
  Hazards, Event, new, protect_with, drop_with, run, step, initial, phase_barrier, replicate,
  extend, resize, grow_slots, grow_hazards, pop_hid, acquire_hp, write_slot, protect, with_hid,
}
use cdpt.Hazard.Valid.{IsValid, Succeeds}
use cdpt.Hazard.Runs.{run-initial}
use cdpt.Hazard.Shields.{MarksAll, phase_barrier-run}
use cdpt.Hazard.Isolation.{place_of, step-slot}

-- Two hazard pointers, of which the older one protects an object of type 3 at address 64.
abbrev two_pointers : List Event
two_pointers = new ∷ protect_with 0 64 3 ∷ new ∷ []

abbrev two_held : Hazards
two_held = record {
  hazards = some 0 ∷ some 0 ∷ some 0 ∷ some 0 ∷ some 0 ∷ some 0 ∷ some 0 ∷ some 64 ∷ [];
  hazards_marker = none ∷ none ∷ none ∷ none ∷ none ∷ none ∷ none ∷ some 3 ∷ [];
  available_hids = 5 ∷ 4 ∷ 3 ∷ 2 ∷ 1 ∷ 0 ∷ [];
  held = 6 ∷ 7 ∷ [];
}

two_pointers-run : run two_pointers initial ≡ some two_held
unfolding run step with_hid acquire_hp pop_hid protect write_slot replicate extend Option.bind
two_pointers-run = refl

two_held-barrier :
    phase_barrier two_held.hazards two_held.hazards_marker
    ≡ some (record { marker = 3; addr = 64 } ∷ [])
unfolding phase_barrier
two_held-barrier = refl

-- The ninth hazard pointer makes the vectors grow to 16 slots.
grown_length :
    Option.map (λ (l : Hazards). length l.hazards) (run (replicate 9 new) initial) ≡ some 16
unfolding run step with_hid acquire_hp pop_hid grow_hazards grow_slots replicate extend resize
    Option.bind
grown_length = refl

two_held-IsValid : IsValid two_held
two_held-IsValid =
    subst IsValid (some-injective _ _ (sym reached.returns ∙ two_pointers-run)) reached.valid
  where
    reached : Succeeds (run two_pointers initial)
    reached = run-initial two_pointers

run-initial_example : Succeeds (run two_pointers initial)
run-initial_example = run-initial two_pointers

phase_barrier-run_example :
    MarksAll two_held.hazards (phase_barrier two_held.hazards two_held.hazards_marker)
phase_barrier-run_example = phase_barrier-run two_pointers two_held two_pointers-run

drop_other : place_of (drop_with 0) ≢ some 1
unfolding place_of
drop_other h = absurd (omega (arith, some-injective 0 1 h))

step-slot_example :
    (after : Hazards) × (step (drop_with 0) two_held ≡ some after)
    × (get_elem? after.hazards 7 ≡ get_elem? two_held.hazards 7)
step-slot_example = step-slot (drop_with 0) two_held 1 7 two_held-IsValid refl drop_other
