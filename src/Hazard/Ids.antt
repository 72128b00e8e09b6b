-- ===== src/Hazard/Ids.antt =====
-- src/internal.rs: each hazard index is available once, or held once.
use mathlib.Core.Option.{some-injective}
use cdpt.Base.{
  ℕ, zero, suc, ◌+◌, ◌<◌, ◌≡◌, ap, arith, some, List, [], ◌∷◌, ◌==◌, if◌then◌else◌, get_elem?, ltb,
}
use cdpt.Hazard.{extend, remove_at}

pub one_if : ℕ → ℕ → ℕ
one_if i x = if i == x then 1 else 0

-- How often an index stands in a list.
unfoldable pub count : ℕ → List ℕ → ℕ
count i [] = 0
count i (x ∷ xs) = one_if i x + count i xs

pub one_if_self : (i : ℕ) → one_if i i ≡ 1
unfolding one_if
one_if_self i = ground arith

-- 1 for an index below `n`.
unfoldable pub within : ℕ → ℕ → ℕ
within i n = if ltb i n then 1 else 0

pub within-suc : (i n : ℕ) → within i (suc n) ≡ within i n + one_if i n
unfolding within one_if
within-suc i n = ground arith

pub count-extend :
    (i : ℕ) (stack : List ℕ) (from n : ℕ)
    → count i (extend stack from n) + within i from ≡ count i stack + within i (from + n)
unfolding count extend
count-extend i stack from zero = ap (λ (k : ℕ). count i stack + within i k) (omega arith)
count-extend i stack from (suc n) =
    ground (arith, count-extend i (from ∷ stack) (from + 1) n, within-suc i from)

pub count-remove_at :
    (i k : ℕ) (xs : List ℕ) (x : ℕ)
    → get_elem? xs k ≡ some x
    → count i xs ≡ one_if i x + count i (remove_at k xs)
unfolding count remove_at
count-remove_at i k [] x h = cc
count-remove_at i zero (y ∷ xs) x h = ap (λ (z : ℕ). one_if i z + count i xs) (some-injective y x h)
count-remove_at i (suc k) (y ∷ xs) x h = omega (arith, count-remove_at i k xs x h)

-- An element of a list is counted.
pub count-get : (k : ℕ) (xs : List ℕ) (x : ℕ) → get_elem? xs k ≡ some x → 0 < count x xs
count-get k xs x h = omega (arith, count-remove_at x k xs x h, one_if_self x)
