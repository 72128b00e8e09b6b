-- ===== src/Batches/Sweep.antt =====
-- src/collector.rs: `sweep` against a filter by color.
use mathlib.Core.Option
use mathlib.Core.List.{Memᴰ, append-nil, append_assoc}
use cdpt.Base.{
  ℕ, ◌+◌, ◌<◌, ◌≤◌, ◌≡◌, refl, sym, ap, ◌∙◌, arith, inl, inr, true, false, ltb, Option, some, List,
  [], ◌∷◌, ◌++◌, length, length-append, Bool-cases,
}
use cdpt.Epoch.{Color, color_eq}
use cdpt.Batches.{
  Obj, obj_batch_size, push_within_capacity, is_empty, Sweeping, sweep_start, begin_batch, keep_obj,
  sweep_obj, sweep_objs, sweep_batches, push_survived, sweep,
}
use cdpt.Batches.Objects.{
  flatten, survivors, garbage, total_size, Fits, flatten_last, survivors-append, garbage-append,
  total_size-append, snoc-Fits,
}

-- What a thread has when its own batch is within bounds.
record InBounds (s : Sweeping) : Type 0 where
  own : length s.survived ≤ obj_batch_size
  pushed : (b : List Obj) → Memᴰ b s.pushed → Fits b

-- The thread has gone on by some objects.
record Adds (white : Color) (objs : List Obj) (s after : Sweeping) : Type 0 where
  kept :
      flatten after.pushed ++ after.survived
      ≡ (flatten s.pushed ++ s.survived) ++ survivors white objs
  dead : after.reclaimed ≡ s.reclaimed ++ garbage white objs
  bytes : after.reclaimed_bytes ≡ s.reclaimed_bytes + total_size (garbage white objs)

abbrev Goes : Color → List Obj → Sweeping → Option Sweeping → Type 0
Goes white objs s r =
    (after : Sweeping) × (r ≡ some after) × Adds white objs s after × InBounds after

Adds-append :
    (white : Color) (xs ys : List Obj) (s mid after : Sweeping)
    → Adds white xs s mid
    → Adds white ys mid after
    → Adds white (xs ++ ys) s after
Adds-append white xs ys s mid after a b = record {
  kept =
      b.kept
      ∙ ap (λ (r : List Obj). r ++ survivors white ys) a.kept
      ∙ append_assoc (flatten s.pushed ++ s.survived) (survivors white xs) (survivors white ys)
      ∙ ap (λ (r : List Obj). (flatten s.pushed ++ s.survived) ++ r)
          (sym (survivors-append white xs ys));
  dead =
      b.dead
      ∙ ap (λ (r : List Obj). r ++ garbage white ys) a.dead
      ∙ append_assoc s.reclaimed (garbage white xs) (garbage white ys)
      ∙ ap (λ (r : List Obj). s.reclaimed ++ r) (sym (garbage-append white xs ys));
  bytes =
      let sizes =
        ap total_size (garbage-append white xs ys)
        ∙ total_size-append (garbage white xs) (garbage white ys) in
      omega (arith, a.bytes, b.bytes, sizes);
}

Adds-nil : (white : Color) (s : Sweeping) → Adds white [] s s
unfolding survivors garbage total_size
Adds-nil white s = record {
  kept = sym (append-nil (flatten s.pushed ++ s.survived));
  dead = sym (append-nil s.reclaimed);
  bytes = omega arith;
}

module _ (white : Color) (obj : Obj) (s : Sweeping) (v : InBounds s) where
  reclaims : color_eq white obj.color ≡ true → Goes white (obj ∷ []) s (sweep_obj white obj s)
  unfolding sweep_obj survivors garbage total_size
  reclaims q = rw q (
    record s {
      reclaimed = s.reclaimed ++ obj ∷ [];
      reclaimed_bytes = s.reclaimed_bytes + obj.size;
    },
    refl,
    record {
      kept = rw q (sym (append-nil (flatten s.pushed ++ s.survived)));
      dead = rw q refl;
      bytes = rw q (omega arith);
    },
    record { own = v.own; pushed = v.pushed },
  )

  keeps :
      color_eq white obj.color ≡ false
      → ltb (length s.survived) obj_batch_size ≡ true
      → Goes white (obj ∷ []) s (sweep_obj white obj s)
  unfolding sweep_obj keep_obj push_within_capacity survivors garbage total_size
  keeps q room =
      rw (q, room)
        (
          record s { survived = s.survived ++ obj ∷ [] },
          refl,
          record {
            kept = rw q (sym (append_assoc (flatten s.pushed) s.survived (obj ∷ [])));
            dead = rw q (sym (append-nil s.reclaimed));
            bytes = rw q (omega arith);
          },
          record {
            own = fits (length s.survived) room (length-append s.survived (obj ∷ []));
            pushed = v.pushed;
          },
        )
    where
      fits :
          (n : ℕ)
          → ltb n 64 ≡ true
          → length (s.survived ++ obj ∷ []) ≡ n + 1
          → length (s.survived ++ obj ∷ []) ≤ 64
      fits n r e = ground (arith, r, e)

  starts_batch :
      color_eq white obj.color ≡ false
      → ltb (length s.survived) obj_batch_size ≡ false
      → Goes white (obj ∷ []) s (sweep_obj white obj s)
  unfolding sweep_obj keep_obj begin_batch push_within_capacity survivors garbage total_size
  starts_batch q full =
      rw (q, full)
        (
          record s { survived = obj ∷ []; pushed = s.pushed ++ s.survived ∷ [] },
          refl,
          record {
            kept = rw q (ap (λ (r : List Obj). r ++ obj ∷ []) (flatten_last s.pushed s.survived));
            dead = rw q (sym (append-nil s.reclaimed));
            bytes = rw q (omega arith);
          },
          record {
            own = one;
            pushed = snoc-Fits s.pushed s.survived v.pushed (long (length s.survived) full, v.own);
          },
        )
    where
      one : 1 ≤ 64
      one = omega arith

      long : (n : ℕ) → ltb n 64 ≡ false → 0 < n
      long n r = ground (arith, r)

  sweep_obj-Goes : Goes white (obj ∷ []) s (sweep_obj white obj s)
  sweep_obj-Goes = elim (Bool-cases (color_eq white obj.color)) [
    | inl q ↦ reclaims q
    | inr q ↦ elim (Bool-cases (ltb (length s.survived) obj_batch_size)) [
      | inl room ↦ keeps q room
      | inr full ↦ starts_batch q full
    ]
  ]

sweep_objs-Goes :
    (white : Color) (objs : List Obj) (s : Sweeping)
    → InBounds s
    → Goes white objs s (sweep_objs white objs s)
unfolding sweep_objs Option.bind
sweep_objs-Goes white [] s v = (s, refl, Adds-nil white s, v)
sweep_objs-Goes white (obj ∷ objs) s v =
    let (mid, e, a, w) = sweep_obj-Goes white obj s v in
    let (after, f, b, x) = sweep_objs-Goes white objs mid w in
    rw e (after, f, Adds-append white (obj ∷ []) objs s mid after a b, x)

sweep_batches-Goes :
    (white : Color) (batches : List (List Obj)) (s : Sweeping)
    → InBounds s
    → Goes white (flatten batches) s (sweep_batches white batches s)
unfolding sweep_batches flatten Option.bind
sweep_batches-Goes white [] s v = (s, refl, Adds-nil white s, v)
sweep_batches-Goes white (batch ∷ batches) s v =
    let (mid, e, a, w) = sweep_objs-Goes white batch s v in
    let (after, f, b, x) = sweep_batches-Goes white batches mid w in
    rw e (after, f, Adds-append white batch (flatten batches) s mid after a b, x)

-- What a sweep of these objects does.
pub record Sweeps (white : Color) (objs : List Obj) (after : Sweeping) : Type 0 where
  pub kept : flatten after.pushed ≡ survivors white objs
  pub dead : after.reclaimed ≡ garbage white objs
  pub bytes : after.reclaimed_bytes ≡ total_size (garbage white objs)
  pub fits : (b : List Obj) → Memᴰ b after.pushed → Fits b

push_survived-Sweeps :
    (white : Color) (objs : List Obj) (s : Sweeping)
    → Adds white objs sweep_start s
    → InBounds s
    → Sweeps white objs (push_survived s)
unfolding push_survived flatten is_empty
push_survived-Sweeps white objs s a v = elim (Bool-cases (is_empty s.survived)) [
  | inl q ↦ rw q (record {
    kept =
        sym (append-nil (flatten s.pushed))
        ∙ ap (λ (r : List Obj). flatten s.pushed ++ r) (sym (nothing s.survived q))
        ∙ a.kept;
    dead = a.dead;
    bytes = counted;
    fits = v.pushed;
  })
  | inr q ↦ rw q (record {
    kept = flatten_last s.pushed s.survived ∙ a.kept;
    dead = a.dead;
    bytes = counted;
    fits = snoc-Fits s.pushed s.survived v.pushed (something s.survived q, v.own);
  })
]
  where
    counted : s.reclaimed_bytes ≡ total_size (garbage white objs)
    counted = omega (arith, a.bytes)

    nothing : (batch : List Obj) → is_empty batch ≡ true → batch ≡ []
    nothing [] e = refl
    nothing (x ∷ xs) e = cc

    something : (batch : List Obj) → is_empty batch ≡ false → 0 < length batch
    something [] e = cc
    something (x ∷ xs) e = omega arith

-- Sweeping never panics. The batches that it pushes hold the objects in another color than the white
-- one, in their order, and each is of 1 to 64 objects. All white objects are reclaimed, and
-- no other one, and their bytes are counted.
pub sweep-Sweeps :
    (white : Color) (batches : List (List Obj))
    → (after : Sweeping) × (sweep white batches ≡ some after) × Sweeps white (flatten batches) after
unfolding sweep flatten
sweep-Sweeps white batches =
    let (s, e, a, v) = sweep_batches-Goes white batches sweep_start start in
    rw e (push_survived s, refl, push_survived-Sweeps white (flatten batches) s a v)
  where
    start : InBounds sweep_start
    start = record { own = omega arith; pushed = λ b m. elim m [ ] }
