-- ===== src/Completion/Passes.antt =====
-- src/collector.rs: how many reads of `try_confirm_completion` are left.
use cdpt.Base.{
  ℕ, ◌+◌, ◌-◌, ◌*◌, ◌<◌, ◌≤◌, ◌≡◌, ◌≢◌, refl, arith, inl, inr, true, false, ltb, ◌==◌, Option, List,
  Bool-cases,
}
use cdpt.Completion.{
  Mutator, Confirm, first, emptiness, second, answered, is_empty, at_second, at_emptiness, at_first,
  confirm_next,
}

module _ (push : ℕ → List ℕ → List ℕ) (pop : List ℕ → Option (ℕ × List ℕ)) (ts locals : ℕ) where
  -- The answer comes with at most so many reads, if no mutator records the epoch or has a task.
  pub data Ends : ℕ → Confirm → Type 0 where
    first_pass : (left i : ℕ) → i < locals → 3 * locals ≤ left + i → Ends left (first i)
    emptiness_pass : (left i : ℕ) → i < locals → 2 * locals ≤ left + i → Ends left (emptiness i)
    second_pass : (left i : ℕ) → i < locals → locals ≤ left + i → Ends left (second i)
    given : (left : ℕ) → Ends left (answered true)

  at_second-Ends : (left i : ℕ) → locals ≤ left + i → Ends left (at_second push pop ts locals i)
  unfolding at_second
  at_second-Ends left i l = elim (Bool-cases (ltb i locals)) [
    | inl q ↦ rw q (second_pass left i (ground (arith, q)) l)
    | inr q ↦ rw q (given left)
  ]

  at_emptiness-Ends :
      (left i : ℕ)
      → 2 * locals ≤ left + i
      → i ≤ locals
      → Ends left (at_emptiness push pop ts locals i)
  unfolding at_emptiness
  at_emptiness-Ends left i l g = elim (Bool-cases (ltb i locals)) [
    | inl q ↦ rw q (emptiness_pass left i (ground (arith, q)) l)
    | inr q ↦ rw q (at_second-Ends left 0 (omega (arith, l, g)))
  ]

  pub at_first-Ends :
      (left i : ℕ) → 3 * locals ≤ left + i → i ≤ locals → Ends left (at_first push pop ts locals i)
  unfolding at_first
  at_first-Ends left i l g = elim (Bool-cases (ltb i locals)) [
    | inl q ↦ rw q (first_pass left i (ground (arith, q)) l)
    | inr q ↦ rw q (at_emptiness-Ends left 0 (omega (arith, l, g)) (omega arith))
  ]

  unrecorded : (x : ℕ) → x ≢ ts → (x == ts) ≡ false
  unrecorded x d = ground (arith, d)

  -- One read less is left after a read.
  pub read-Ends :
      (left : ℕ) (mutators : ℕ → Mutator) (c : Confirm)
      → ((t : ℕ) → t < locals → (mutators t).modified ≢ ts)
      → ((t : ℕ) → t < locals → is_empty (mutators t).tasks ≡ true)
      → Ends left c
      → Ends (left - 1) (confirm_next push pop ts locals mutators c)
  unfolding confirm_next
  read-Ends left mutators _ f e (first_pass _ i g l) =
      rw (unrecorded (mutators i).modified (f i g))
        (at_first-Ends (left - 1) (i + 1) (omega (arith, l, g)) (omega (arith, g)))
  read-Ends left mutators _ f e (emptiness_pass _ i g l) =
      rw (e i g) (at_emptiness-Ends (left - 1) (i + 1) (omega (arith, l, g)) (omega (arith, g)))
  read-Ends left mutators _ f e (second_pass _ i g l) =
      rw (unrecorded (mutators i).modified (f i g))
        (at_second-Ends (left - 1) (i + 1) (omega (arith, l, g)))
  read-Ends left mutators _ f e (given _) = given (left - 1)

  pub Ends-given : (c : Confirm) → Ends 0 c → c ≡ answered true
  Ends-given _ (first_pass _ i g l) = absurd (omega (arith, g, l))
  Ends-given _ (emptiness_pass _ i g l) = absurd (omega (arith, g, l))
  Ends-given _ (second_pass _ i g l) = absurd (omega (arith, g, l))
  Ends-given _ (given _) = refl
