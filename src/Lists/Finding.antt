-- ===== src/Lists/Finding.antt =====
-- examples/ds/lists.rs: what a thread knows when it goes on in `find`, and after it.
use mathlib.Core.Path.{subst}
use cdpt.Base.{
  ℕ, suc, ◌<◌, ◌≤◌, ◌≡◌, refl, sym, ap, ◌∙◌, arith, inl, inr, Bool, true, false, ◌&&◌, ◌==◌, ltb,
  Option, none, some, Bool-cases,
}
use cdpt.Lists.{
  Find, harris, harris_michael, harris_herlihy_shavit, Op, get, remove, insert, op_find, op_key,
  Nodes, opt_ptr_eq, return_node, mark_node, after_find, end_find, see_curr, see_key, see_next,
}
use cdpt.Lists.Paths.{rank, Tagged, Tagged-snoc, same, Shape, some_injective, none≢some, true≢false}
use cdpt.Lists.Changes.{key_rank}
use cdpt.Lists.Views.{
  Allowed, any_get, a_remove, an_insert, Before, Inner, Answer, found, absent, missed, Knows,
  at_idle, at_visiting, at_cleaning, at_unlinking, at_storing, at_marking, at_returning,
}

pub opt_ptr_eq→eq : (a b : Option ℕ) → opt_ptr_eq a b ≡ true → a ≡ b
unfolding opt_ptr_eq
opt_ptr_eq→eq none none h = refl
opt_ptr_eq→eq none (some b) h = cc
opt_ptr_eq→eq (some a) none h = cc
opt_ptr_eq→eq (some a) (some b) h = ap some (number a b h)
  where
    number : (x y : ℕ) → (x == y) ≡ true → x ≡ y
    number x y e = ground (arith, e)

module _ (view : ℕ → Bool) (h : Nodes) (seen : Option ℕ) (v : Shape view h) where
  pub after_find-Knows :
      (op : Op) (answer : Bool) (prev : ℕ) (curr : Option ℕ)
      → Allowed view h seen op
      → Before view h seen prev (op_key op)
      → Answer view h seen op answer curr
      → Knows view h seen (after_find op answer prev curr)
  unfolding after_find return_node mark_node
  after_find-Knows (get f k) _ prev _ a b (found _ c d) = at_returning c d.shown d.value
  after_find-Knows (remove f k) _ prev _ (a_remove _ _ x) b (found _ c d) =
      at_marking f k prev c x b d
  after_find-Knows (insert f k new) _ prev _ a b (found _ c d) = at_idle
  after_find-Knows (get f k) _ prev _ a b (absent _ c d) = at_idle
  after_find-Knows (remove f k) _ prev _ a b (absent _ c d) = at_idle
  after_find-Knows (insert f k new) _ prev _ (an_insert _ _ _ x m) b (absent _ c d) =
      at_storing f k new prev c x m b d
  after_find-Knows (get f k) _ prev _ a b (missed _ _ c) = at_idle

  pub end_find-Knows :
      (f : Find) (op : Op) (answer : Bool) (prev : ℕ) (pn curr : Option ℕ)
      → Allowed view h seen op
      → Before view h seen prev (op_key op)
      → Tagged view h pn curr
      → Answer view h seen op answer curr
      → Knows view h seen (end_find f op answer prev pn curr)
  unfolding end_find
  end_find-Knows harris op answer prev pn curr a b w d = elim (Bool-cases (opt_ptr_eq pn curr)) [
    | inl q ↦ rw q (after_find-Knows op answer prev curr a b d)
    | inr q ↦ rw q (at_cleaning op answer prev pn curr a b w d)
  ]
  end_find-Knows harris_michael op answer prev pn curr a b w d =
      after_find-Knows op answer prev curr a b d
  end_find-Knows harris_herlihy_shavit op answer prev pn curr a b w d =
      after_find-Knows op answer prev curr a b d

  pub see_curr-Knows :
      (op : Op) (prev : ℕ) (pn curr : Option ℕ)
      → Allowed view h seen op
      → Before view h seen prev (op_key op)
      → ((c : ℕ) → curr ≡ some c → Inner view h seen c)
      → Tagged view h pn curr
      → Knows view h seen (see_curr op prev pn curr)
  unfolding see_curr
  see_curr-Knows op prev pn none a b i w =
      end_find-Knows (op_find op) op false prev pn none a b w
        (absent op none (λ c e. absurd (none≢some c e)))
  see_curr-Knows op prev pn (some c) a b i w = at_visiting op prev pn c a b (i c refl) w

  -- The next node of one in the list is in the list, and is not the dummy head.
  next-Inner : (n c : ℕ) → view n ≡ true → h.next n ≡ some c → Inner view h seen c
  next-Inner n c p e = (v.inside n c p e, omega (arith, v.ordered n c p e))

  pub step_over :
      (op : Op) (prev curr : ℕ)
      → Allowed view h seen op
      → Before view h seen prev (op_key op)
      → view curr ≡ true
      → Knows view h seen (see_curr op prev (h.next curr) (h.next curr))
  step_over op prev curr a b p =
      see_curr-Knows op prev (h.next curr) (h.next curr) a b (λ c e. next-Inner curr c p e)
        (same (h.next curr))

  -- What `find` answers at a node whose key is not less.
  key-Answer :
      (op : Op) (answer : Bool) (curr : ℕ)
      → Allowed view h seen op
      → Inner view h seen curr
      → ltb (h.key curr) (op_key op) ≡ false
      → ((answer ≡ false) → (f : Find) × (k : ℕ) × (op ≡ get f k))
      → ((h.key curr ≡ op_key op) → answer ≡ true → seen ≡ some (h.value curr))
      → Answer view h seen op ((h.key curr == op_key op) && answer) (some curr)
  key-Answer op answer curr a (p, i) q wrong right = elim (Bool-cases (h.key curr == op_key op)) [
    | inl e ↦ rw e (elim (Bool-cases answer) [
      | inl sure ↦ rw sure (
          found op curr (record {
            shown = p;
            at_key = key_rank h curr i ∙ ap suc (number (h.key curr) (op_key op) e);
            value = right (number (h.key curr) (op_key op) e) sure;
          }))
      | inr wrong_answer ↦
          let (f, k, g) = wrong wrong_answer in
          rw wrong_answer (
            subst (λ (x : Op). Answer view h seen x false (some curr)) (sym g)
              (missed f k (some curr)))
    ])
    | inr e ↦ rw e (
        absent op (some curr) (λ c f.
          let same_node = some_injective curr c f in
          (
            sym (ap view same_node) ∙ p,
            more (h.key curr) (op_key op) q e (rank h c)
                (ap (rank h) (sym same_node) ∙ key_rank h curr i),
          )))
  ]
    where
      more : (x y : ℕ) → ltb x y ≡ false → (x == y) ≡ false → (r : ℕ) → r ≡ suc x → suc y < r
      more x y q f r e = ground (arith, q, f, e)

      number : (x y : ℕ) → (x == y) ≡ true → x ≡ y
      number x y e = ground (arith, e)

  see_key-Knows :
      (op : Op) (answer : Bool) (prev : ℕ) (pn : Option ℕ) (curr : ℕ)
      → Allowed view h seen op
      → Before view h seen prev (op_key op)
      → Inner view h seen curr
      → Tagged view h pn (some curr)
      → ((answer ≡ false) → (f : Find) × (k : ℕ) × (op ≡ get f k))
      → ((h.key curr ≡ op_key op) → answer ≡ true → seen ≡ some (h.value curr))
      → Knows view h seen (see_key op (h.key curr) answer prev pn curr (h.next curr))
  unfolding see_key
  see_key-Knows op answer prev pn curr a b (p, i) w wrong right =
      elim (Bool-cases (ltb (h.key curr) (op_key op))) [
        | inl q ↦ rw q (
            step_over op curr curr a
              (p, less (h.key curr) (op_key op) q (rank h curr) (key_rank h curr i)) p)
        | inr q ↦ rw q (
            end_find-Knows (op_find op) op ((h.key curr == op_key op) && answer) prev pn (some curr)
              a b w (key-Answer op answer curr a (p, i) q wrong right))
      ]
    where
      less : (x y : ℕ) → ltb x y ≡ true → (r : ℕ) → r ≡ suc x → r ≤ y
      less x y q r e = ground (arith, q, e)

  -- The node that an operation with `find_harris_herlihy_shavit` looks for may be tagged.
  only_get :
      (op : Op)
      → Allowed view h seen op
      → op_find op ≡ harris_herlihy_shavit
      → (f : Find) × (k : ℕ) × (op ≡ get f k)
  only_get _ (any_get f k) e = (f, k, refl)
  only_get _ (a_remove f k x) e = absurd (x e)
  only_get _ (an_insert f k new x m) e = absurd (x e)

  pub see_next-Knows :
      (f : Find) (op : Op) (tag : Bool) (prev : ℕ) (pn : Option ℕ) (curr : ℕ)
      → op_find op ≡ f
      → h.tagged curr ≡ tag
      → Allowed view h seen op
      → Before view h seen prev (op_key op)
      → Inner view h seen curr
      → Tagged view h pn (some curr)
      → ((h.key curr ≡ op_key op) → tag ≡ false → seen ≡ some (h.value curr))
      → Knows view h seen (see_next f op (h.key curr) tag prev pn curr (h.next curr))
  unfolding see_next
  see_next-Knows harris op true prev pn curr e t a b (p, i) w right =
      see_curr-Knows op prev pn (h.next curr) a b (λ c g. next-Inner curr c p g)
        (Tagged-snoc view h pn (some curr) curr w refl p t)
  see_next-Knows harris op false prev pn curr e t a b i w right =
      see_key-Knows op true prev pn curr a b i w (λ g. absurd (true≢false g)) (λ g u. right g refl)
  see_next-Knows harris_michael op true prev pn curr e t a b (p, i) w right =
      at_unlinking op prev curr (h.next curr) a b p t refl
  see_next-Knows harris_michael op false prev pn curr e t a b i w right =
      see_key-Knows op true prev pn curr a b i w (λ g. absurd (true≢false g)) (λ g u. right g refl)
  see_next-Knows harris_herlihy_shavit op true prev pn curr e t a b i w right =
      see_key-Knows op false prev pn curr a b i w (λ g. only_get op a e)
        (λ g u. absurd (true≢false (sym u)))
  see_next-Knows harris_herlihy_shavit op false prev pn curr e t a b i w right =
      see_key-Knows op true prev pn curr a b i w (λ g. only_get op a e) (λ g u. right g refl)
