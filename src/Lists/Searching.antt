-- ===== src/Lists/Searching.antt =====
-- examples/ds/lists.rs: `find` keeps track of the key, and its answers are justified.
use mathlib.Core.Path.{subst}
use cdpt.Base.{
  ℕ, suc, ◌<◌, ◌≤◌, ◌≡◌, ◌≢◌, refl, sym, ap, ◌∙◌, arith, inl, inr, Bool, true, false, ◌&&◌, ltb,
  ◌==◌, Option, none, some, Bool-cases,
}
use cdpt.Lists.{
  Find, harris, harris_michael, harris_herlihy_shavit, Op, get, remove, insert, op_find, op_key,
  Thread, idle, cleaning, Nodes, opt_ptr_eq, return_node, mark_node, after_find, end_find, see_curr,
  see_key, see_next,
}
use cdpt.Lists.Paths.{rank, Shape, some_injective, none≢some, true≢false}
use cdpt.Lists.Changes.{key_rank}
use cdpt.Lists.Tracking.{position, key_of, Reach, Justified, Reach-next, Reach-here}

module _ (view : ℕ → Bool) (h : Nodes) (v : Shape view h) (seen : Option ℕ) (missed : Bool) where
  -- The operation goes on as `th`.
  pub record Goes (op : Op) (th : Thread) : Type 0 where
    pub same_key : (k : ℕ) → key_of th ≡ some k → op_key op ≡ k
    pub ahead :
        missed ≡ false → (curr : Option ℕ) → position th ≡ some curr → Reach view h (op_key op) curr
    pub justified : th ≡ idle → Justified op seen missed

  -- A state that looks for no node any more.
  at_rest :
      (op : Op) (th : Thread)
      → ((k : ℕ) → key_of th ≡ some k → op_key op ≡ k)
      → position th ≡ none
      → (th ≡ idle → Justified op seen missed)
      → Goes op th
  at_rest op th k p j = record {
    same_key = k;
    ahead = λ m curr e. absurd (no_place curr (sym p ∙ e));
    justified = j;
  }
    where
      no_place : (c : Option ℕ) → ◌≢◌ {A = Option (Option ℕ)} none (some c)
      no_place c e = cc

  at_pointer :
      (op : Op) (th : Thread) (curr : Option ℕ)
      → key_of th ≡ some (op_key op)
      → position th ≡ some curr
      → th ≢ idle
      → (missed ≡ false → Reach view h (op_key op) curr)
      → Goes op th
  at_pointer op th curr k p d r = record {
    same_key = λ x e. some_injective (op_key op) x (sym k ∙ e);
    ahead = λ m c e. subst (Reach view h (op_key op)) (same_place curr c (sym p ∙ e)) (r m);
    justified = λ e. absurd (d e);
  }
    where
      same_place : (a b : Option ℕ) → ◌≡◌ {A = Option (Option ℕ)} (some a) (some b) → a ≡ b
      same_place a b e = cc

  no_key : (op : Op) (k : ℕ) → none ≡ some k → op_key op ≡ k
  no_key op k e = absurd (none≢some k e)

  pub after_find-Goes :
      (op : Op) (answer : Bool) (prev : ℕ) (curr : Option ℕ)
      → (answer ≡ true → (x : ℕ) × (seen ≡ some x))
      → (answer ≡ false → missed ≡ true)
      → Goes op (after_find op answer prev curr)
  unfolding after_find return_node mark_node
  after_find-Goes (get f k) true prev none a b =
      at_rest (get f k) _ (no_key (get f k)) refl (λ e. cc)
  after_find-Goes (get f k) true prev (some c) a b =
      at_rest (get f k) _ (no_key (get f k)) refl (λ e. cc)
  after_find-Goes (get f k) false prev curr a b =
      at_rest (get f k) idle (no_key (get f k)) refl (λ e. b refl)
  after_find-Goes (remove f k) true prev none a b =
      at_rest (remove f k) _ (no_key (remove f k)) refl (λ e. cc)
  after_find-Goes (remove f k) true prev (some c) a b =
      at_rest (remove f k) _ (λ x e. some_injective k x e) refl (λ e. cc)
  after_find-Goes (remove f k) false prev curr a b =
      at_rest (remove f k) idle (no_key (remove f k)) refl (λ e. b refl)
  after_find-Goes (insert f k new) true prev curr a b =
      at_rest (insert f k new) idle (no_key (insert f k new)) refl (λ e. a refl)
  after_find-Goes (insert f k new) false prev curr a b =
      at_rest (insert f k new) _ (λ x e. some_injective k x e) refl (λ e. cc)

  end_find-Goes :
      (f : Find) (op : Op) (answer : Bool) (prev : ℕ) (pn curr : Option ℕ)
      → (answer ≡ true → (x : ℕ) × (seen ≡ some x))
      → (answer ≡ false → missed ≡ true)
      → Goes op (end_find f op answer prev pn curr)
  unfolding end_find
  end_find-Goes harris op answer prev pn curr a b = elim (Bool-cases (opt_ptr_eq pn curr)) [
    | inl q ↦ rw q (after_find-Goes op answer prev curr a b)
    | inr q ↦ rw q (cleaned answer a b)
  ]
    where
      cleaned :
          (sure : Bool)
          → (sure ≡ true → (x : ℕ) × (seen ≡ some x))
          → (sure ≡ false → missed ≡ true)
          → Goes op (cleaning op sure prev pn curr)
      cleaned true c d = at_rest op _ (λ x e. some_injective (op_key op) x e) refl (λ e. cc)
      cleaned false c d =
          at_pointer op _ none refl refl (λ e. cc) (λ m. absurd (true≢false (sym (d refl) ∙ m)))
  end_find-Goes harris_michael op answer prev pn curr a b = after_find-Goes op answer prev curr a b
  end_find-Goes harris_herlihy_shavit op answer prev pn curr a b =
      after_find-Goes op answer prev curr a b

  -- A key that has not been missed is in the list.
  abbrev pub Present : Op → Type 0
  Present op =
      missed ≡ false
      → (n : ℕ) × (view n ≡ true) × (h.tagged n ≡ false) × (rank h n ≡ suc (op_key op))

  -- Without such a node ahead, the key has been missed.
  gone :
      (op : Op)
      → Present op
      → (missed ≡ false → (n : ℕ) → view n ≡ true → h.tagged n ≡ false → rank h n ≢ suc (op_key op))
      → missed ≡ true
  gone op there away = elim (Bool-cases missed) [
    | inl m ↦ m
    | inr m ↦ let (n, p, u, e) = there m in absurd (away m n p u e)
  ]

  pub see_curr-Goes :
      (op : Op) (prev : ℕ) (pn curr : Option ℕ)
      → Present op
      → (missed ≡ false → Reach view h (op_key op) curr)
      → Goes op (see_curr op prev pn curr)
  unfolding see_curr
  see_curr-Goes op prev pn none there r =
      end_find-Goes (op_find op) op false prev pn none (λ e. absurd (true≢false (sym e)))
        (λ e. gone op there (λ m n p u f. let (c, g, q, path) = r m n p u f in none≢some c g))
  see_curr-Goes op prev pn (some c) there r = at_pointer op _ (some c) refl refl (λ e. cc) r

  see_key-Goes :
      (op : Op) (answer : Bool) (prev : ℕ) (pn : Option ℕ) (curr : ℕ)
      → Present op
      → 0 < rank h curr
      → (missed ≡ false → Reach view h (op_key op) (some curr))
      → (answer ≡ false → h.tagged curr ≡ true)
      → ((h.key curr ≡ op_key op) → answer ≡ true → (x : ℕ) × (seen ≡ some x))
      → Goes op (see_key op (h.key curr) answer prev pn curr (h.next curr))
  unfolding see_key
  see_key-Goes op answer prev pn curr there l r wrong right =
      elim (Bool-cases (ltb (h.key curr) (op_key op))) [
        | inl q ↦ rw q (
            see_curr-Goes op curr (h.next curr) (h.next curr) there (λ m.
              Reach-next view h v (op_key op) curr
                (λ n u e f.
                  below (h.key curr) (op_key op) q (rank h curr) (rank h n) (key_rank h curr l) e
                    (ap (rank h) f))
                (r m)))
        | inr q ↦ rw q (
            end_find-Goes (op_find op) op ((h.key curr == op_key op) && answer) prev pn (some curr)
              (λ e. let (f, g) = both (h.key curr) (op_key op) answer e in right f g)
              (λ e. gone op there (λ m n p u f.
                let same =
                  Reach-here view h v (op_key op) curr l (not_less (h.key curr) (op_key op) q) (r m)
                    n p u f in
                neither (h.key curr) (op_key op) answer e
                  (equal (rank h curr) (h.key curr) (rank h n) (op_key op) (key_rank h curr l) f
                    (ap (rank h) same))
                  (λ g. true≢false (sym (wrong g) ∙ ap h.tagged same ∙ u)))))
      ]
    where
      below : (x y : ℕ) → ltb x y ≡ true → (r s : ℕ) → r ≡ suc x → s ≡ suc y → r ≢ s
      below x y q r s e f g = ground (arith, q, e, f, g)

      not_less : (x y : ℕ) → ltb x y ≡ false → y ≤ x
      not_less x y q = ground (arith, q)

      both : (x y : ℕ) (b : Bool) → ((x == y) && b) ≡ true → (x ≡ y) × (b ≡ true)
      both x y true e = (ground (arith, e), refl)
      both x y false e = ground (arith, e)

      neither : (x y : ℕ) (b : Bool) → ((x == y) && b) ≡ false → x ≡ y → ¬ (b ≢ false)
      neither x y true e f g = ground (arith, e, f)
      neither x y false e f g = g refl

      equal : (r x s y : ℕ) → r ≡ suc x → s ≡ suc y → r ≡ s → x ≡ y
      equal r x s y e f g = omega (arith, e, f, g)

  over_tagged :
      (op : Op) (curr : ℕ)
      → h.tagged curr ≡ true
      → (missed ≡ false → Reach view h (op_key op) (some curr))
      → missed ≡ false
      → Reach view h (op_key op) (h.next curr)
  over_tagged op curr t r m =
      Reach-next view h v (op_key op) curr (λ n u e f. true≢false (sym t ∙ ap h.tagged f ∙ u)) (r m)

  pub see_next-Goes :
      (f : Find) (op : Op) (tag : Bool) (prev : ℕ) (pn : Option ℕ) (curr : ℕ)
      → h.tagged curr ≡ tag
      → Present op
      → 0 < rank h curr
      → (missed ≡ false → Reach view h (op_key op) (some curr))
      → ((h.key curr ≡ op_key op) → tag ≡ false → (x : ℕ) × (seen ≡ some x))
      → Goes op (see_next f op (h.key curr) tag prev pn curr (h.next curr))
  unfolding see_next
  see_next-Goes harris op true prev pn curr t there l r right =
      see_curr-Goes op prev pn (h.next curr) there (over_tagged op curr t r)
  see_next-Goes harris op false prev pn curr t there l r right =
      see_key-Goes op true prev pn curr there l r (λ e. absurd (true≢false e)) (λ g e. right g refl)
  see_next-Goes harris_michael op true prev pn curr t there l r right =
      at_pointer op _ (h.next curr) refl refl (λ e. cc) (over_tagged op curr t r)
  see_next-Goes harris_michael op false prev pn curr t there l r right =
      see_key-Goes op true prev pn curr there l r (λ e. absurd (true≢false e)) (λ g e. right g refl)
  see_next-Goes harris_herlihy_shavit op true prev pn curr t there l r right =
      see_key-Goes op false prev pn curr there l r (λ e. t) (λ g e. absurd (true≢false (sym e)))
  see_next-Goes harris_herlihy_shavit op false prev pn curr t there l r right =
      see_key-Goes op true prev pn curr there l r (λ e. absurd (true≢false e)) (λ g e. right g refl)
