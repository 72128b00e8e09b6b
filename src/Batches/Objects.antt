-- ===== src/Batches/Objects.antt =====
-- src/collector.rs: lists of objects, and of batches of them.

use mathlib.Core.Path.{subst}
use mathlib.Core.List.{Memᴰ, append-nil, append_assoc}
use mathlib.Core.List.Memᴰ
use cdpt.Base.{
  ℕ, ◌+◌, ◌<◌, ◌≤◌, ◌≡◌, refl, sym, ap, ◌∙◌, arith, inl, inr, if◌then◌else◌, List, [], ◌∷◌, ◌++◌,
  length, Bool-cases,
}
use cdpt.Epoch.{Color, color_eq}
use cdpt.Batches.{Obj, obj_batch_size}

-- All objects of some batches, in order.
unfoldable pub flatten : List (List Obj) → List Obj
flatten [] = []
flatten (batch ∷ batches) = batch ++ flatten batches

-- The objects in another color, and those in that color.
unfoldable pub survivors : Color → List Obj → List Obj
survivors white [] = []
survivors white (obj ∷ objs) =
    if color_eq white obj.color then survivors white objs else obj ∷ survivors white objs

unfoldable pub garbage : Color → List Obj → List Obj
garbage white [] = []
garbage white (obj ∷ objs) =
    if color_eq white obj.color then obj ∷ garbage white objs else garbage white objs

unfoldable pub total_size : List Obj → ℕ
total_size [] = 0
total_size (obj ∷ objs) = obj.size + total_size objs

-- A batch that is not empty and not too long.
abbrev pub Fits : List Obj → Type 0
Fits batch = (0 < length batch) × (length batch ≤ obj_batch_size)

pub flatten-append : (xs ys : List (List Obj)) → flatten (xs ++ ys) ≡ flatten xs ++ flatten ys
unfolding flatten
flatten-append [] ys = refl
flatten-append (x ∷ xs) ys =
    ap (λ (r : List Obj). x ++ r) (flatten-append xs ys)
    ∙ sym (append_assoc x (flatten xs) (flatten ys))

pub flatten_last : (xs : List (List Obj)) (x : List Obj) → flatten (xs ++ x ∷ []) ≡ flatten xs ++ x
unfolding flatten
flatten_last xs x =
    flatten-append xs (x ∷ []) ∙ ap (λ (r : List Obj). flatten xs ++ r) (append-nil x)

pub survivors-append :
    (white : Color) (xs ys : List Obj)
    → survivors white (xs ++ ys) ≡ survivors white xs ++ survivors white ys
unfolding survivors
survivors-append white [] ys = refl
survivors-append white (x ∷ xs) ys = elim (Bool-cases (color_eq white x.color)) [
  | inl q ↦ rw q (survivors-append white xs ys)
  | inr q ↦ rw q (ap (λ (r : List Obj). x ∷ r) (survivors-append white xs ys))
]

pub garbage-append :
    (white : Color) (xs ys : List Obj)
    → garbage white (xs ++ ys) ≡ garbage white xs ++ garbage white ys
unfolding garbage
garbage-append white [] ys = refl
garbage-append white (x ∷ xs) ys = elim (Bool-cases (color_eq white x.color)) [
  | inl q ↦ rw q (ap (λ (r : List Obj). x ∷ r) (garbage-append white xs ys))
  | inr q ↦ rw q (garbage-append white xs ys)
]

pub total_size-append : (xs ys : List Obj) → total_size (xs ++ ys) ≡ total_size xs + total_size ys
unfolding total_size
total_size-append [] ys = omega arith
total_size-append (x ∷ xs) ys = omega (arith, total_size-append xs ys)

pub snoc-Fits :
    (batches : List (List Obj)) (last : List Obj)
    → ((b : List Obj) → Memᴰ b batches → Fits b)
    → Fits last
    → (b : List Obj) → Memᴰ b (batches ++ last ∷ [])
    → Fits b
snoc-Fits batches last all f b m = elim (Memᴰ.append_cases batches m) [
  | inl old ↦ all b old
  | inr new ↦ subst Fits (sym (Memᴰ.eq_of_singleton new)) f
]
