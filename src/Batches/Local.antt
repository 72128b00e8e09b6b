-- ===== src/Batches/Local.antt =====
-- src/internal.rs: `push_fresh_obj` and `flush_objs` lose no object and no byte.
use mathlib.Core.List.{append_assoc}
use cdpt.Base.{
  ℕ, suc, ◌+◌, ◌<◌, ◌≤◌, ◌≡◌, refl, sym, ap, ◌∙◌, arith, inl, inr, Bool, true, false, ltb,
  if◌then◌else◌, some, List, [], ◌∷◌, ◌++◌, length, length-append, Bool-cases,
}
use cdpt.Epoch.{Color, c0, c1, color_eq}
use cdpt.Batches.{
  Obj, obj_batch_size, push_within_capacity, Batches, set_slot, flush_objs, place, push_fresh_obj,
}
use cdpt.Batches.Objects.{flatten}
use cdpt.Batches.Flushing.{
  pushes_of, objects, allocated_bytes, IsValid, flush_objs-Flushes, true≢false,
}

-- What `push_fresh_obj` leaves.
pub record Adds (c : Color) (obj : Obj) (newly_allocated : Bool) (w after : Batches) : Type 0 where
  pub same_color : objects c after ≡ objects c w ++ obj ∷ []
  pub other_color : (d : Color) → color_eq c d ≡ false → objects d after ≡ objects d w
  pub bytes : allocated_bytes after ≡ allocated_bytes w + (if newly_allocated then obj.size else 0)
  pub valid : IsValid after

-- The batch with the object.
abbrev filled : Color → Obj → Bool → Batches → Batches
filled c obj newly_allocated w =
    set_slot c
      (record {
        batch = (w.objs c).batch ++ obj ∷ [];
        bytes = if newly_allocated then (w.objs c).bytes + obj.size else (w.objs c).bytes;
      })
      w

filled-Adds :
    (c : Color) (obj : Obj) (new : Bool) (w : Batches)
    → IsValid w
    → length (w.objs c).batch < obj_batch_size
    → Adds c obj new w (filled c obj new w)
filled-Adds c0 obj new w v h = record {
  same_color = sym (append_assoc (flatten (pushes_of c0 w.pushes)) (w.objs c0).batch (obj ∷ []));
  other_color = λ d.
      elim d as (λ k. color_eq c0 k ≡ false → objects k (filled c0 obj new w) ≡ objects k w) [
        | c0 ↦ λ q. absurd (true≢false q)
        | c1 ↦ λ q. refl
      ];
  bytes = count new;
  valid = record {
    own = λ d. elim d as (λ k. length ((filled c0 obj new w).objs k).batch ≤ obj_batch_size) [
      | c0 ↦ longer
      | c1 ↦ v.own c1
    ];
    pushed = v.pushed;
  };
}
  where
    longer : length ((w.objs c0).batch ++ obj ∷ []) ≤ 64
    longer = omega (arith, h, length-append (w.objs c0).batch (obj ∷ []))

    count :
        (b : Bool)
        → allocated_bytes (filled c0 obj b w) ≡ allocated_bytes w + (if b then obj.size else 0)
    count true = omega arith
    count false = omega arith
filled-Adds c1 obj new w v h = record {
  same_color = sym (append_assoc (flatten (pushes_of c1 w.pushes)) (w.objs c1).batch (obj ∷ []));
  other_color = λ d.
      elim d as (λ k. color_eq c1 k ≡ false → objects k (filled c1 obj new w) ≡ objects k w) [
        | c0 ↦ λ q. refl
        | c1 ↦ λ q. absurd (true≢false q)
      ];
  bytes = count new;
  valid = record {
    own = λ d. elim d as (λ k. length ((filled c1 obj new w).objs k).batch ≤ obj_batch_size) [
      | c0 ↦ v.own c0
      | c1 ↦ longer
    ];
    pushed = v.pushed;
  };
}
  where
    longer : length ((w.objs c1).batch ++ obj ∷ []) ≤ 64
    longer = omega (arith, h, length-append (w.objs c1).batch (obj ∷ []))

    count :
        (b : Bool)
        → allocated_bytes (filled c1 obj b w) ≡ allocated_bytes w + (if b then obj.size else 0)
    count true = omega arith
    count false = omega arith

module _ (select_shard : ℕ → ℕ) (c : Color) (obj : Obj) (new : Bool) where
  -- A round with room in the batch.
  fills :
      (fuel : ℕ) (w : Batches)
      → length (w.objs c).batch < obj_batch_size
      → push_fresh_obj select_shard (suc fuel) c obj new w ≡ some (filled c obj new w)
  unfolding push_fresh_obj place push_within_capacity
  fills fuel w h =
      let q : ltb (length (w.objs c).batch) obj_batch_size ≡ true =
        short (length (w.objs c).batch) h in
      rw q refl
    where
      short : (n : ℕ) → n < 64 → ltb n 64 ≡ true
      short n g = ground (arith, g)

  flushes :
      (fuel : ℕ) (w : Batches)
      → ltb (length (w.objs c).batch) obj_batch_size ≡ false
      → push_fresh_obj select_shard (suc fuel) c obj new w
        ≡ push_fresh_obj select_shard fuel c obj new (flush_objs select_shard c w)
  unfolding push_fresh_obj place push_within_capacity
  flushes fuel w q = rw q refl

  -- Two rounds are enough to put an object into the batches: `push_fresh_obj` returns. The objects of
  -- the color, those in the global queues before those with the thread, are then the same ones with
  -- the new one behind them, and those of the other color are the same. The bytes that are counted
  -- grow by the size of the object if it is newly allocated. Each batch in the global queues has 1 to
  -- 64 objects.
  pub push_fresh_obj-Adds :
      (w : Batches)
      → IsValid w
      → (after : Batches) × (push_fresh_obj select_shard 2 c obj new w ≡ some after)
        × Adds c obj new w after
  push_fresh_obj-Adds w v = elim (Bool-cases (ltb (length (w.objs c).batch) obj_batch_size)) [
    | inl q ↦ (filled c obj new w, fills 1 w (room q), filled-Adds c obj new w v (room q))
    | inr q ↦
        let mid = flush_objs select_shard c w in
        let f = flush_objs-Flushes select_shard c w v in
        let fits : length (mid.objs c).batch < obj_batch_size = omega (arith, ap length f.room) in
        let a = filled-Adds c obj new mid f.valid fits in
        (
          filled c obj new mid,
          flushes 1 w q ∙ fills 0 mid fits,
          record {
            same_color = a.same_color ∙ ap (λ (r : List Obj). r ++ obj ∷ []) (f.same_objects c);
            other_color = λ d differs. a.other_color d differs ∙ f.same_objects d;
            bytes = a.bytes ∙ ap (λ (n : ℕ). n + (if new then obj.size else 0)) f.same_bytes;
            valid = a.valid;
          },
        )
  ]
    where
      room : ltb (length (w.objs c).batch) 64 ≡ true → length (w.objs c).batch < 64
      room q = ground (arith, q)
