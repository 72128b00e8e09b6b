-- ===== src/Header/Mark.antt =====
-- src/pointers.rs: `AtomicObjMeta::mark` under interference.
use cdpt.Base.{ℕ, zero, suc, ◌<◌, ◌≡◌, refl, sym, ap, ◌∙◌, arith, true, Bool-cases}
use cdpt.Base.{List, [], ◌∷◌, length, ◌++◌, Option, some, inl, inr, ◌==◌}
use cdpt.Epoch.{Color, c0, c1, color_eq}
use cdpt.Header.{ObjMeta, marked, with_marked, mark_loop, mark}
use cdpt.Header.Fields.{fields, fields-with_marked}

-- The content after others have written `written`.
unfoldable pub latest : ObjMeta → List ObjMeta → ObjMeta
latest cell [] = cell
latest cell (x ∷ written) = latest x written

-- The result of a marking that ended after others have written `written`: their last content, black.
pub record IsMarked (black : Color) (cell : ObjMeta) (others : List ObjMeta)
    (result : Option (ObjMeta × List ObjMeta)) : Type 0 where
  pub final : ObjMeta
  pub written : List ObjMeta
  pub left : List ObjMeta
  pub returns : result ≡ some (final, left)
  pub order : others ≡ written ++ left
  pub black_now : fields final ≡ record (fields (latest cell written)) { marked = black }

color_eq→eq : (a b : Color) → color_eq a b ≡ true → a ≡ b
color_eq→eq c0 c0 h = refl
color_eq→eq c0 c1 h = cc
color_eq→eq c1 c0 h = cc
color_eq→eq c1 c1 h = refl

==→eq : (m n : ℕ) → (m == n) ≡ true → m ≡ n
==→eq m n e = ground (arith, e)

==-refl : (n : ℕ) → (n == n) ≡ true
==-refl n = ground arith

already :
    (m : ObjMeta) (black : Color)
    → marked m ≡ black
    → fields m ≡ record (fields m) { marked = black }
already m black e = λ i. record (fields m) { marked = e i }

-- A round that ends: the header is black already, or the compare-exchange writes.
ends_black :
    (black : Color) (cell : ObjMeta) (others : List ObjMeta)
    → marked cell ≡ black
    → IsMarked black cell others (some (cell, others))
unfolding latest
ends_black black cell others e = record {
  final = cell;
  written = [];
  left = others;
  returns = refl;
  order = refl;
  black_now = already cell black e;
}

ends_written :
    (black : Color) (cell : ObjMeta) → IsMarked black cell [] (some (with_marked cell black, []))
unfolding latest
ends_written black cell = record {
  final = with_marked cell black;
  written = [];
  left = [];
  returns = refl;
  order = refl;
  black_now = fields-with_marked cell black;
}

ends_after :
    (black : Color) (cell x : ObjMeta) (others : List ObjMeta)
    → (x.bits == cell.bits) ≡ true
    → IsMarked black cell (x ∷ others) (some (with_marked cell black, others))
unfolding latest
ends_after black cell x others e =
    let bits : cell.bits ≡ x.bits = sym (==→eq x.bits cell.bits e) in
    let same : cell ≡ x = λ i. record { bits = bits i } in
    record {
      final = with_marked cell black;
      written = x ∷ [];
      left = others;
      returns = refl;
      order = refl;
      black_now =
          fields-with_marked cell black
          ∙ ap (λ (m : ObjMeta). record (fields m) { marked = black }) same;
    }

mark_loop-IsMarked :
    (fuel : ℕ) (black : Color) (others : List ObjMeta) (cell : ObjMeta)
    → length others < fuel
    → IsMarked black cell others (mark_loop fuel black others cell cell)
unfolding mark_loop latest
mark_loop-IsMarked zero black others cell h = absurd (omega arith)
mark_loop-IsMarked (suc fuel) black [] cell h = elim (Bool-cases (color_eq (marked cell) black)) [
  | inl done ↦ rw done (ends_black black cell [] (color_eq→eq (marked cell) black done))
  | inr more ↦ rw (more, ==-refl cell.bits) (ends_written black cell)
]
mark_loop-IsMarked (suc fuel) black (x ∷ others) cell h =
    elim (Bool-cases (color_eq (marked cell) black)) [
      | inl done ↦
          rw done (ends_black black cell (x ∷ others) (color_eq→eq (marked cell) black done))
      | inr more ↦ elim (Bool-cases (x.bits == cell.bits)) [
        | inl same ↦ rw (more, same) (ends_after black cell x others same)
        | inr other ↦
            rw (more, other) (later_round (mark_loop-IsMarked fuel black others x (omega arith)))
      ]
    ]
  where
    later_round :
        {r : Option (ObjMeta × List ObjMeta)}
        → IsMarked black x others r
        → IsMarked black cell (x ∷ others) r
    later_round w = record {
      final = w.final;
      written = x ∷ w.written;
      left = w.left;
      returns = w.returns;
      order = ap (λ (l : List ObjMeta). x ∷ l) w.order;
      black_now = w.black_now;
    }

-- With fuel for one round more than other threads write the header, the marking returns. The
-- returned header differs in nothing but the color, which is black, from the content that the header
-- has after what others have written by then, all in their order, so that no change of the root
-- count by another thread is lost.
pub mark_lem :
    (fuel : ℕ) (black : Color) (others : List ObjMeta) (cell : ObjMeta)
    → length others < fuel
    → IsMarked black cell others (mark fuel black others cell)
unfolding mark
mark_lem fuel black others cell h = mark_loop-IsMarked fuel black others cell h
