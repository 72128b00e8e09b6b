-- ===== src/Lists/Owning.antt =====
-- examples/ds/lists.rs: which node a thread owns when it goes on in `find`, and after it.
use cdpt.Base.{
  ℕ, ◌≡◌, inl, inr, Bool, true, false, not, ◌&&◌, ◌==◌, ltb, Option, none, some, Bool-cases,
}
use cdpt.Lists.{
  Find, harris, harris_michael, harris_herlihy_shavit, Op, get, remove, insert, op_find, op_key,
  Thread, opt_ptr_eq, return_node, mark_node, after_find, end_find, see_curr, see_key, see_next,
}
use cdpt.Lists.Paths.{none≢some}
use cdpt.Lists.Views.{op_new, owns}

-- A thread owns no more than before.
abbrev pub Owns : Op → Thread → Type 0
Owns op th = (n : ℕ) → owns th ≡ some n → op_new op ≡ some n

pub owns_nothing : (op : Op) (n : ℕ) → none ≡ some n → op_new op ≡ some n
owns_nothing op n e = absurd (none≢some n e)

pub after_find-Owns :
    (op : Op) (answer : Bool) (prev : ℕ) (curr : Option ℕ)
    → Owns op (after_find op answer prev curr)
unfolding after_find return_node mark_node
after_find-Owns (get f k) true prev none = owns_nothing (get f k)
after_find-Owns (get f k) true prev (some c) = owns_nothing (get f k)
after_find-Owns (get f k) false prev curr = owns_nothing (get f k)
after_find-Owns (remove f k) true prev none = owns_nothing (remove f k)
after_find-Owns (remove f k) true prev (some c) = owns_nothing (remove f k)
after_find-Owns (remove f k) false prev curr = owns_nothing (remove f k)
after_find-Owns (insert f k new) true prev curr = owns_nothing (insert f k new)
after_find-Owns (insert f k new) false prev curr = λ n e. e

pub end_find-Owns :
    (f : Find) (op : Op) (answer : Bool) (prev : ℕ) (pn curr : Option ℕ)
    → Owns op (end_find f op answer prev pn curr)
unfolding end_find
end_find-Owns harris op answer prev pn curr = elim (Bool-cases (opt_ptr_eq pn curr)) [
  | inl q ↦ rw q (after_find-Owns op answer prev curr)
  | inr q ↦ rw q (λ n e. e)
]
end_find-Owns harris_michael op answer prev pn curr = after_find-Owns op answer prev curr
end_find-Owns harris_herlihy_shavit op answer prev pn curr = after_find-Owns op answer prev curr

pub see_curr-Owns : (op : Op) (prev : ℕ) (pn curr : Option ℕ) → Owns op (see_curr op prev pn curr)
unfolding see_curr
see_curr-Owns op prev pn none = end_find-Owns (op_find op) op false prev pn none
see_curr-Owns op prev pn (some c) = λ n e. e

see_key-Owns :
    (op : Op) (key : ℕ) (answer : Bool) (prev : ℕ) (pn : Option ℕ) (curr : ℕ) (next : Option ℕ)
    → Owns op (see_key op key answer prev pn curr next)
unfolding see_key
see_key-Owns op key answer prev pn curr next = elim (Bool-cases (ltb key (op_key op))) [
  | inl q ↦ rw q (see_curr-Owns op curr next next)
  | inr q ↦ rw q (end_find-Owns (op_find op) op ((key == op_key op) && answer) prev pn (some curr))
]

pub see_next-Owns :
    (f : Find) (op : Op) (key : ℕ) (tag : Bool) (prev : ℕ) (pn : Option ℕ) (curr : ℕ)
    (next : Option ℕ)
    → Owns op (see_next f op key tag prev pn curr next)
unfolding see_next
see_next-Owns harris op key true prev pn curr next = see_curr-Owns op prev pn next
see_next-Owns harris op key false prev pn curr next = see_key-Owns op key true prev pn curr next
see_next-Owns harris_michael op key true prev pn curr next = λ n e. e
see_next-Owns harris_michael op key false prev pn curr next =
    see_key-Owns op key true prev pn curr next
see_next-Owns harris_herlihy_shavit op key tag prev pn curr next =
    see_key-Owns op key (not tag) prev pn curr next
