-- ===== src/Batches/Flushing.antt =====
-- src/internal.rs: `flush_objs` loses no object and no byte.
use mathlib.Core.Path.{subst}
use mathlib.Core.List.{Memᴰ, append-nil}
use mathlib.Core.List.Memᴰ
use cdpt.Base.{
  ℕ, ◌+◌, ◌<◌, ◌≤◌, ◌≡◌, ◌≢◌, refl, sym, ap, ◌∙◌, arith, inl, inr, true, false, if◌then◌else◌, List,
  [], ◌∷◌, ◌++◌, length, Bool-cases,
}
use cdpt.Epoch.{Color, c0, c1, color_eq}
use cdpt.Batches.{
  Obj, obj_batch_size, empty_slot, Push, Batches, set_slot, is_empty, take_obj_batch,
  push_fresh_objs, push_taken, flush_objs,
}
use cdpt.Batches.Objects.{flatten, flatten_last, Fits}

-- The batches of a color that have been pushed to the global queues.
unfoldable pub pushes_of : Color → List Push → List (List Obj)
pushes_of c [] = []
pushes_of c (p ∷ pushes) =
    if color_eq c p.color then p.batch ∷ pushes_of c pushes else pushes_of c pushes

-- All objects of a color, in the global queues and with the thread.
abbrev pub objects : Color → Batches → List Obj
objects c w = flatten (pushes_of c w.pushes) ++ (w.objs c).batch

unfoldable pub pushed_bytes : List Push → ℕ
pushed_bytes [] = 0
pushed_bytes (p ∷ pushes) = p.bytes + pushed_bytes pushes

-- The bytes that are counted as allocated, in the global statistics and with the thread.
abbrev pub allocated_bytes : Batches → ℕ
allocated_bytes w = pushed_bytes w.pushes + ((w.objs c0).bytes + (w.objs c1).bytes)

pub record IsValid (w : Batches) : Type 0 where
  pub own : (c : Color) → length (w.objs c).batch ≤ obj_batch_size
  pub pushed : (p : Push) → Memᴰ p w.pushes → Fits p.batch

pushes_of-append :
    (c : Color) (xs ys : List Push) → pushes_of c (xs ++ ys) ≡ pushes_of c xs ++ pushes_of c ys
unfolding pushes_of
pushes_of-append c [] ys = refl
pushes_of-append c (x ∷ xs) ys = elim (Bool-cases (color_eq c x.color)) [
  | inl q ↦ rw q (ap (λ (r : List (List Obj)). x.batch ∷ r) (pushes_of-append c xs ys))
  | inr q ↦ rw q (pushes_of-append c xs ys)
]

pushed_bytes-append :
    (xs ys : List Push) → pushed_bytes (xs ++ ys) ≡ pushed_bytes xs + pushed_bytes ys
unfolding pushed_bytes
pushed_bytes-append [] ys = omega arith
pushed_bytes-append (x ∷ xs) ys = omega (arith, pushed_bytes-append xs ys)

-- One more batch.
module _ (p : Push) (pushes : List Push) (rest : List Obj) where
  same_color :
      (c : Color)
      → color_eq c p.color ≡ true
      → flatten (pushes_of c (pushes ++ p ∷ [])) ++ [] ≡ flatten (pushes_of c pushes) ++ p.batch
  unfolding pushes_of
  same_color c q =
      let one : pushes_of c (p ∷ []) ≡ p.batch ∷ [] = rw q refl in
      append-nil (flatten (pushes_of c (pushes ++ p ∷ [])))
      ∙ ap flatten (
          pushes_of-append c pushes (p ∷ [])
          ∙ ap (λ (r : List (List Obj)). pushes_of c pushes ++ r) one)
      ∙ flatten_last (pushes_of c pushes) p.batch

  other_color :
      (c : Color)
      → color_eq c p.color ≡ false
      → flatten (pushes_of c (pushes ++ p ∷ [])) ++ rest ≡ flatten (pushes_of c pushes) ++ rest
  unfolding pushes_of
  other_color c q =
      let no_batch : pushes_of c (p ∷ []) ≡ [] = rw q refl in
      ap (λ (r : List (List Obj)). flatten r ++ rest)
        (pushes_of-append c pushes (p ∷ [])
          ∙ ap (λ (r : List (List Obj)). pushes_of c pushes ++ r) no_batch
          ∙ append-nil (pushes_of c pushes))

-- What `flush_objs` leaves.
pub record Flushes (c : Color) (w after : Batches) : Type 0 where
  pub room : (after.objs c).batch ≡ []
  pub same_objects : (d : Color) → objects d after ≡ objects d w
  pub same_bytes : allocated_bytes after ≡ allocated_bytes w
  pub valid : IsValid after

something : (batch : List Obj) → is_empty batch ≡ false → 0 < length batch
unfolding is_empty
something [] e = cc
something (x ∷ xs) e = omega arith

nothing : (batch : List Obj) → is_empty batch ≡ true → batch ≡ []
unfolding is_empty
nothing [] e = refl
nothing (x ∷ xs) e = cc

nil_bound : 0 ≤ 64
nil_bound = omega arith

push-Fits :
    (w : Batches) (p : Push)
    → ((q : Push) → Memᴰ q w.pushes → Fits q.batch)
    → Fits p.batch
    → (q : Push) → Memᴰ q (w.pushes ++ p ∷ [])
    → Fits q.batch
push-Fits w p all f q m = elim (Memᴰ.append_cases w.pushes m) [
  | inl old ↦ all q old
  | inr new ↦ subst (λ (x : Push). Fits x.batch) (sym (Memᴰ.eq_of_singleton new)) f
]

flushed : Color → ℕ → Batches → Batches
flushed c shard w = push_fresh_objs (w.objs c) c shard (set_slot c empty_slot w)

flushed-Flushes :
    (c : Color) (shard : ℕ) (w : Batches)
    → IsValid w
    → is_empty (w.objs c).batch ≡ false
    → Flushes c w (flushed c shard w)
unfolding flushed push_fresh_objs pushed_bytes
flushed-Flushes c0 shard w v e =
    let p : Push = record {
      color = c0;
      shard = shard;
      batch = (w.objs c0).batch;
      bytes = (w.objs c0).bytes;
    } in
    record {
      room = refl;
      same_objects = λ d. elim d as (λ k. objects k (flushed c0 shard w) ≡ objects k w) [
        | c0 ↦ same_color p w.pushes [] c0 refl
        | c1 ↦ other_color p w.pushes (w.objs c1).batch c1 refl
      ];
      same_bytes = omega (arith, pushed_bytes-append w.pushes (p ∷ []));
      valid = record {
        own = λ d. elim d as (λ k. length ((flushed c0 shard w).objs k).batch ≤ obj_batch_size) [
          | c0 ↦ nil_bound
          | c1 ↦ v.own c1
        ];
        pushed = push-Fits w p v.pushed (something (w.objs c0).batch e, v.own c0);
      };
    }
flushed-Flushes c1 shard w v e =
    let p : Push = record {
      color = c1;
      shard = shard;
      batch = (w.objs c1).batch;
      bytes = (w.objs c1).bytes;
    } in
    record {
      room = refl;
      same_objects = λ d. elim d as (λ k. objects k (flushed c1 shard w) ≡ objects k w) [
        | c0 ↦ other_color p w.pushes (w.objs c0).batch c0 refl
        | c1 ↦ same_color p w.pushes [] c1 refl
      ];
      same_bytes = omega (arith, pushed_bytes-append w.pushes (p ∷ []));
      valid = record {
        own = λ d. elim d as (λ k. length ((flushed c1 shard w).objs k).batch ≤ obj_batch_size) [
          | c0 ↦ v.own c0
          | c1 ↦ nil_bound
        ];
        pushed = push-Fits w p v.pushed (something (w.objs c1).batch e, v.own c1);
      };
    }

pub flush_objs-Flushes :
    (select_shard : ℕ → ℕ) (c : Color) (w : Batches)
    → IsValid w
    → Flushes c w (flush_objs select_shard c w)
unfolding flush_objs push_taken take_obj_batch flushed
flush_objs-Flushes select_shard c w v = elim (Bool-cases (is_empty (w.objs c).batch)) [
  | inl q ↦ rw q (record {
    room = nothing (w.objs c).batch q;
    same_objects = λ d. refl;
    same_bytes = refl;
    valid = v;
  })
  | inr q ↦ rw q (flushed-Flushes c (select_shard (length w.pushes)) w v q)
]

pub true≢false : true ≢ false
true≢false e = cc
