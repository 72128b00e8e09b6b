-- ===== src/Batches/Tests.antt =====
-- Batches at concrete inputs.

use mathlib.Core.List.{Memᴰ}
use cdpt.Base.{
  ℕ, ◌+◌, length, Bool, update, ◌<◌, ◌≤◌, ◌≡◌, ◌==◌, refl, true, false, some, List, [], ◌∷◌, arith,
  ℕ_discrete,
}
use cdpt.Epoch.{c0, c1, rt, phase_eq}
use cdpt.Batches.Scanning.{
  Scanning, help_tracing_max_trial, scan_objs, scan_batch, scan_queue, scan_shards,
  help_root_tracing, scan_fresh, Scans,
}
use cdpt.Batches.Roots.{help_root_tracing-Scans, scan_fresh-Scans}
use cdpt.Batches.{Obj, Batches, empty_slot, push_fresh_obj, Sweeping, sweep}
use cdpt.Batches.Sweep.{Sweeps, sweep-Sweeps}
use cdpt.Batches.Objects.{flatten}
use cdpt.Batches.Helping.{
  Helping, help_shards, Helps, Counts, Pops, help_normal_max_trial, help_shards-Helps,
}
use cdpt.Batches.Local.{Adds, push_fresh_obj-Adds}
use cdpt.Batches.Flushing.{IsValid}

abbrev white_obj : Obj
white_obj = record { id = 1; color = c0; size = 24 }

abbrev marked_obj : Obj
marked_obj = record { id = 2; color = c1; size = 40 }

abbrev popped : List (List Obj)
popped = (white_obj ∷ marked_obj ∷ []) ∷ (marked_obj ∷ []) ∷ []

abbrev no_objects : Batches
no_objects = record { objs = λ c. empty_slot; pushes = [] }

no_objects-IsValid : IsValid no_objects
no_objects-IsValid = record { own = λ c. omega arith; pushed = λ p m. elim m [ ] }

sweep-Sweeps_example :
    (after : Sweeping) × (sweep c0 popped ≡ some after) × Sweeps c0 (flatten popped) after
sweep-Sweeps_example = sweep-Sweeps c0 popped

push_fresh_obj-Adds_example :
    (after : Batches) × (push_fresh_obj (λ n. n) 2 c1 marked_obj true no_objects ≡ some after)
    × Adds c1 marked_obj true no_objects after
push_fresh_obj-Adds_example =
    push_fresh_obj-Adds (λ n. n) c1 marked_obj true no_objects no_objects-IsValid

abbrev not_helped : Helping
not_helped = record {
  batches = no_objects;
  marked_objs = update (λ _. []) 3 popped;
  reclaimed = [];
  reclaimed_bytes = 0;
  total_reclaimed = 100;
  trial_count = 0;
}

help_shards-Helps_example :
    (after : Helping) × (n : ℕ) × (taken : List Obj) × (help_shards
        (λ n. n)
        c0
        c1
        (2 ∷ 3 ∷ [])
        not_helped
      ≡ some after)
    × Helps (λ n. n) c0 c1 taken not_helped after
    × Counts (λ n. n) c0 c1 n taken not_helped after
    × Pops (λ n. n) c0 c1 not_helped.marked_objs n taken after.marked_objs
    × (after.trial_count ≤ help_normal_max_trial)
help_shards-Helps_example =
    help_shards-Helps (λ n. n) c0 c1 (2 ∷ 3 ∷ []) not_helped no_objects-IsValid (omega arith)

-- The second object is protected by a hazard pointer, and the first one has no root.
abbrev not_scanned : Scanning
not_scanned = record {
  fresh_objs = update (λ _. []) 3 popped;
  marked_objs = λ _. [];
  marks = [];
  trial_count = 0;
}

abbrev no_roots : ℕ → ℕ
no_roots id = 0

abbrev hazard_of_two : ℕ → Bool
hazard_of_two id = id == 2

scan_fresh_marks :
    (scan_fresh (λ n. n) no_roots hazard_of_two (3 ∷ []) not_scanned).marks
    ≡ marked_obj ∷ marked_obj ∷ []
unfolding scan_fresh scan_shards scan_queue scan_batch scan_objs ℕ_discrete
scan_fresh_marks = refl

scan_fresh-Scans_example :
    (taken : List (List Obj)) × Scans
      (λ n. n)
      no_roots
      hazard_of_two
      taken
      not_scanned
      (scan_fresh (λ n. n) no_roots hazard_of_two (3 ∷ []) not_scanned)
    × ((x : ℕ)
        → Memᴰ x (3 ∷ [])
        → (scan_fresh (λ n. n) no_roots hazard_of_two (3 ∷ []) not_scanned).fresh_objs x ≡ [])
scan_fresh-Scans_example = scan_fresh-Scans (λ n. n) no_roots hazard_of_two (3 ∷ []) not_scanned

abbrev helped : Scanning
helped = help_root_tracing (λ n. n) no_roots hazard_of_two rt (2 ∷ 3 ∷ []) not_scanned

help_root_tracing-Scans_example :
    (taken : List (List Obj)) × Scans (λ n. n) no_roots hazard_of_two taken not_scanned helped
    × (helped.trial_count ≡ not_scanned.trial_count + length taken)
    × (helped.trial_count ≤ help_tracing_max_trial)
    × (phase_eq rt rt ≡ false → helped ≡ not_scanned)
    × (phase_eq rt rt ≡ true
        → helped.trial_count < help_tracing_max_trial
        → (x : ℕ) → Memᴰ x (2 ∷ 3 ∷ [])
        → helped.fresh_objs x ≡ [])
help_root_tracing-Scans_example =
    help_root_tracing-Scans (λ n. n) no_roots hazard_of_two rt (2 ∷ 3 ∷ []) not_scanned
      (omega arith)
