-- ===== src/Batches.antt =====
-- src/internal.rs, src/collector.rs, src/guards.rs: the batches of objects that a mutator allocates,
-- and sweeping. The batches come in the order in which a thread pops them from its queues, for
-- which see Queue.
mod Tests
pub mod Objects
pub mod Flushing
pub mod Local
pub mod Sweep
pub mod Helping
pub mod Scanning
mod Roots
use mathlib.Core.Option
use cdpt.Base.{
  ℕ, zero, suc, ◌+◌, Bool, true, false, ltb, ◌==◌, if◌then◌else◌, Option, none, some, List, [], ◌∷◌,
  ◌++◌, length,
}
use cdpt.Epoch.{Color, color_eq}

-- A `Box<dyn MarkObj>`, with the color that is in its header when it is swept.
pub record Obj : Type 0 where
  pub id : ℕ
  pub color : Color
  pub size : ℕ

abbrev pub obj_batch_size : ℕ
obj_batch_size = 64

-- `ObjBatch::push_within_capacity`: `none` stands for `Err`.
unfoldable pub push_within_capacity : Obj → List Obj → Option (List Obj)
push_within_capacity obj batch =
    if ltb (length batch) obj_batch_size then some (batch ++ obj ∷ []) else none

-- The batch of one color, with the bytes that are newly allocated.
pub record Slot : Type 0 where
  pub batch : List Obj
  pub bytes : ℕ

abbrev pub empty_slot : Slot
empty_slot = record { batch = []; bytes = 0 }

-- One call of `Global::push_fresh_objs`.
pub record Push : Type 0 where
  pub color : Color
  pub shard : ℕ
  pub batch : List Obj
  pub bytes : ℕ

-- The batches of a thread, and what it has pushed to the global queues.
pub record Batches : Type 0 where
  pub objs : Color → Slot
  pub pushes : List Push

abbrev pub set_slot : Color → Slot → Batches → Batches
set_slot c slot w = record w { objs = λ d. if color_eq c d then slot else w.objs d }

unfoldable pub is_empty : List Obj → Bool
is_empty [] = true
is_empty (obj ∷ batch) = false

-- `take_obj_batch`, with what is left.
unfoldable pub take_obj_batch : Color → Batches → Option (Slot × Batches)
take_obj_batch c w =
    if is_empty (w.objs c).batch then none else some (w.objs c, set_slot c empty_slot w)

-- `push_fresh_objs`
unfoldable pub push_fresh_objs : Slot → Color → ℕ → Batches → Batches
push_fresh_objs slot c shard w = record w {
  pushes =
      w.pushes ++ record { color = c; shard = shard; batch = slot.batch; bytes = slot.bytes } ∷ [];
}

unfoldable pub push_taken : Option (Slot × Batches) → Color → ℕ → Batches → Batches
push_taken none c shard w = w
push_taken (some (slot, rest)) c shard w = push_fresh_objs slot c shard rest

-- The shards that the random numbers of the thread select, by how much it has pushed.
module _ (select_shard : ℕ → ℕ) where
  -- `flush_objs`, with the allocation color of the pinned thread
  unfoldable pub flush_objs : Color → Batches → Batches
  flush_objs c w = push_taken (take_obj_batch c w) c (select_shard (length w.pushes)) w

  -- What `push_fresh_obj` does with the answer of `push_within_capacity`; `retry` is the next round.
  unfoldable pub place :
      Option (List Obj) → Color → Obj → Bool → Batches → Option Batches → Option Batches
  place none c obj newly_allocated w retry = retry
  place (some batch) c obj newly_allocated w retry =
      let slot = w.objs c in
      some (
        set_slot c
          (record {
            batch = batch;
            bytes = if newly_allocated then slot.bytes + obj.size else slot.bytes;
          })
          w)

  -- `push_fresh_obj`, with fuel for its rounds
  unfoldable pub push_fresh_obj : ℕ → Color → Obj → Bool → Batches → Option Batches
  push_fresh_obj zero c obj newly_allocated w = none
  push_fresh_obj (suc fuel) c obj newly_allocated w =
      place (push_within_capacity obj (w.objs c).batch) c obj newly_allocated w
        (push_fresh_obj fuel c obj newly_allocated (flush_objs c w))

-- What a collector thread has while it sweeps.
pub record Sweeping : Type 0 where
  pub survived : List Obj
  pub pushed : List (List Obj)
  pub reclaimed : List Obj
  pub reclaimed_bytes : ℕ

abbrev pub sweep_start : Sweeping
sweep_start = record { survived = []; pushed = []; reclaimed = []; reclaimed_bytes = 0 }

-- The assertion after a full batch has been pushed; `none` stands for a panic.
unfoldable pub begin_batch : Option (List Obj) → Sweeping → Option Sweeping
begin_batch none s = none
begin_batch (some batch) s =
    some (record s { survived = batch; pushed = s.pushed ++ s.survived ∷ [] })

unfoldable pub keep_obj : Option (List Obj) → Obj → Sweeping → Option Sweeping
keep_obj (some batch) obj s = some (record s { survived = batch })
keep_obj none obj s = begin_batch (push_within_capacity obj []) s

unfoldable pub sweep_obj : Color → Obj → Sweeping → Option Sweeping
sweep_obj prev_white obj s =
    if color_eq prev_white obj.color
    then some (record s {
      reclaimed = s.reclaimed ++ obj ∷ [];
      reclaimed_bytes = s.reclaimed_bytes + obj.size;
    })
    else keep_obj (push_within_capacity obj s.survived) obj s

unfoldable pub sweep_objs : Color → List Obj → Sweeping → Option Sweeping
sweep_objs prev_white [] s = some s
sweep_objs prev_white (obj ∷ objs) s =
    Option.bind (sweep_obj prev_white obj s) (sweep_objs prev_white objs)

unfoldable pub sweep_batches : Color → List (List Obj) → Sweeping → Option Sweeping
sweep_batches prev_white [] s = some s
sweep_batches prev_white (batch ∷ batches) s =
    Option.bind (sweep_objs prev_white batch s) (sweep_batches prev_white batches)

-- The last batch is pushed if it is not empty.
unfoldable pub push_survived : Sweeping → Sweeping
push_survived s =
    if is_empty s.survived
    then s
    else record s { pushed = s.pushed ++ s.survived ∷ []; survived = [] }

-- `sweep` by one thread, from the batches that it pops.
unfoldable pub sweep : Color → List (List Obj) → Option Sweeping
sweep prev_white batches = Option.map push_survived (sweep_batches prev_white batches sweep_start)
