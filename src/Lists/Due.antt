-- ===== src/Lists/Due.antt =====
-- examples/ds/lists.rs: what each call has done before it answers.
use mathlib.Core.Path.{subst}
use cdpt.Base.{
  ℕ, ◌≡◌, ◌≢◌, refl, sym, ◌⊎◌, inl, inr, Bool, true, false, not, ◌&&◌, ltb, ◌==◌, Option, none,
  some, update, update_self, update-ne, Bool-cases,
}
use cdpt.Lists.{
  Find, harris, harris_michael, harris_herlihy_shavit, Op, get, remove, insert, op_find, op_key,
  Thread, idle, panicked, begun, visiting, cleaning, unlinking, storing, linking, marking, cutting,
  returning, opt_ptr_eq, return_node, mark_node, after_find, end_find, see_curr, see_key, see_next,
  is_idle,
}
use cdpt.Lists.Spec.{
  Wish, getting, removing, inserting, wish, Label, internal, reply, answer, Pending, outside,
  looking, taken, on_missing, on_refused, set_pending, due_step,
}

-- What a thread has to do fits what its call still has to do.
pub data Due (value : ℕ → ℕ) : Pending → Thread → Type 0 where
  due_idle : Due value outside idle
  due_panicked : (p : Pending) → Due value p panicked
  due_begun : (op : Op) → Due value (looking (wish op)) (begun op)
  due_visiting :
      (op : Op) (prev : ℕ) (pn : Option ℕ) (curr : ℕ)
      → Due value (looking (wish op)) (visiting op prev pn curr)
  due_cleaning :
      (op : Op) (found : Bool) (prev : ℕ) (pn curr : Option ℕ)
      → Due value (looking (wish op)) (cleaning op found prev pn curr)
  due_unlinking :
      (op : Op) (prev curr : ℕ) (next : Option ℕ)
      → Due value (looking (wish op)) (unlinking op prev curr next)
  due_storing :
      (find : Find) (key new prev : ℕ) (curr : Option ℕ)
      → Due value (looking inserting) (storing find key new prev curr)
  due_linking :
      (find : Find) (key new prev : ℕ) (curr : Option ℕ)
      → Due value (looking inserting) (linking find key new prev curr)
  due_marking :
      (find : Find) (key prev curr : ℕ) → Due value (looking removing) (marking find key prev curr)
  due_cutting :
      (v prev curr : ℕ) (next : Option ℕ)
      → value curr ≡ v
      → Due value (taken v) (cutting prev curr next)
  due_got : (curr : ℕ) → Due value (looking getting) (returning curr)
  due_took : (v curr : ℕ) → value curr ≡ v → Due value (taken v) (returning curr)

-- Where `find` leaves a thread: its operation has ended, or goes on.
abbrev pub Follows : (ℕ → ℕ) → Op → Thread → Type 0
Follows value op th = (th ≡ idle) ⊎ Due value (looking (wish op)) th

module _ (value : ℕ → ℕ) where
  pub after_find-Follows :
      (op : Op) (found : Bool) (prev : ℕ) (curr : Option ℕ)
      → Follows value op (after_find op found prev curr)
  unfolding after_find return_node mark_node
  after_find-Follows (get f k) true prev none = inr (due_panicked _)
  after_find-Follows (get f k) true prev (some c) = inr (due_got c)
  after_find-Follows (get f k) false prev curr = inl refl
  after_find-Follows (remove f k) true prev none = inr (due_panicked _)
  after_find-Follows (remove f k) true prev (some c) = inr (due_marking f k prev c)
  after_find-Follows (remove f k) false prev curr = inl refl
  after_find-Follows (insert f k new) true prev curr = inl refl
  after_find-Follows (insert f k new) false prev curr = inr (due_storing f k new prev curr)

  end_find-Follows :
      (f : Find) (op : Op) (found : Bool) (prev : ℕ) (pn curr : Option ℕ)
      → Follows value op (end_find f op found prev pn curr)
  unfolding end_find
  end_find-Follows harris op found prev pn curr = elim (Bool-cases (opt_ptr_eq pn curr)) [
    | inl q ↦ rw q (after_find-Follows op found prev curr)
    | inr q ↦ rw q (inr (due_cleaning op found prev pn curr))
  ]
  end_find-Follows harris_michael op found prev pn curr = after_find-Follows op found prev curr
  end_find-Follows harris_herlihy_shavit op found prev pn curr =
      after_find-Follows op found prev curr

  pub see_curr-Follows :
      (op : Op) (prev : ℕ) (pn curr : Option ℕ) → Follows value op (see_curr op prev pn curr)
  unfolding see_curr
  see_curr-Follows op prev pn none = end_find-Follows (op_find op) op false prev pn none
  see_curr-Follows op prev pn (some c) = inr (due_visiting op prev pn c)

  see_key-Follows :
      (op : Op) (key : ℕ) (b : Bool) (prev : ℕ) (pn : Option ℕ) (curr : ℕ) (next : Option ℕ)
      → Follows value op (see_key op key b prev pn curr next)
  unfolding see_key
  see_key-Follows op key b prev pn curr next = elim (Bool-cases (ltb key (op_key op))) [
    | inl q ↦ rw q (see_curr-Follows op curr next next)
    | inr q ↦ rw q (end_find-Follows (op_find op) op ((key == op_key op) && b) prev pn (some curr))
  ]

  pub see_next-Follows :
      (f : Find) (op : Op) (key : ℕ) (tag : Bool) (prev : ℕ) (pn : Option ℕ) (curr : ℕ)
      (next : Option ℕ)
      → Follows value op (see_next f op key tag prev pn curr next)
  unfolding see_next
  see_next-Follows harris op key true prev pn curr next = see_curr-Follows op prev pn next
  see_next-Follows harris op key false prev pn curr next =
      see_key-Follows op key true prev pn curr next
  see_next-Follows harris_michael op key true prev pn curr next =
      inr (due_unlinking op prev curr next)
  see_next-Follows harris_michael op key false prev pn curr next =
      see_key-Follows op key true prev pn curr next
  see_next-Follows harris_herlihy_shavit op key tag prev pn curr next =
      see_key-Follows op key (not tag) prev pn curr next

-- A call that has not done its work is not over.
looking-busy :
    (value : ℕ → ℕ) (p : Pending) (w : Wish) (th : Thread)
    → Due value p th
    → p ≡ looking w
    → is_idle th ≡ false
unfolding is_idle
looking-busy value _ w _ due_idle e = cc
looking-busy value _ w _ (due_panicked p) e = refl
looking-busy value _ w _ (due_begun op) e = refl
looking-busy value _ w _ (due_visiting op prev pn curr) e = refl
looking-busy value _ w _ (due_cleaning op found prev pn curr) e = refl
looking-busy value _ w _ (due_unlinking op prev curr next) e = refl
looking-busy value _ w _ (due_storing f k new prev curr) e = refl
looking-busy value _ w _ (due_linking f k new prev curr) e = refl
looking-busy value _ w _ (due_marking f k prev curr) e = refl
looking-busy value _ w _ (due_cutting v prev curr next q) e = refl
looking-busy value _ w _ (due_got curr) e = refl
looking-busy value _ w _ (due_took v curr q) e = refl

-- Thread `t` goes on as `th` with two labels.
pub record Goes (value : ℕ → ℕ) (t : ℕ) (ps : ℕ → Pending) (l l2 : Label) (th : Thread)
    : Type 0 where
  pub between : ℕ → Pending
  pub after : ℕ → Pending
  pub first : due_step l ps ≡ some between
  pub second : due_step l2 between ≡ some after
  pub own : Due value (after t) th
  pub others : (u : ℕ) → t ≢ u → after u ≡ ps u

module _ (value : ℕ → ℕ) (t : ℕ) (ps : ℕ → Pending) where
  abbrev pub Sets : Label → Pending → Type 0
  Sets l p = due_step l ps ≡ some (update ps t p)

  -- A first label that changes nothing, and a second one that does not either.
  pub silent :
      (l : Label) (th : Thread)
      → due_step l ps ≡ some ps
      → Due value (ps t) th
      → Goes value t ps l internal th
  unfolding due_step
  silent l th q d = record {
    between = ps;
    after = ps;
    first = q;
    second = refl;
    own = d;
    others = λ u e. refl;
  }

  pub one_label :
      (l : Label) (p : Pending) (th : Thread)
      → Sets l p
      → Due value p th
      → Goes value t ps l internal th
  unfolding due_step
  one_label l p th q d = record {
    between = update ps t p;
    after = update ps t p;
    first = q;
    second = refl;
    own = subst (λ (x : Pending). Due value x th) (sym (update_self ps t p)) d;
    others = λ u e. update-ne ps t u p e;
  }

  answers : (l l2 : Label) → due_step l ps ≡ some ps → Sets l2 outside → Goes value t ps l l2 idle
  answers l l2 q h = record {
    between = ps;
    after = update ps t outside;
    first = q;
    second = h;
    own = subst (λ (x : Pending). Due value x idle) (sym (update_self ps t outside)) due_idle;
    others = λ u e. update-ne ps t u outside e;
  }

  reply-Sets : (op : Op) → ps t ≡ looking (wish op) → Sets (reply t op) outside
  unfolding due_step reply set_pending on_missing on_refused
  reply-Sets (get f k) e = rw e refl
  reply-Sets (remove f k) e = rw e refl
  reply-Sets (insert f k new) e = rw e refl

  -- A thread in `find` goes on, or answers.
  pub finds :
      (l : Label) (op : Op) (th : Thread)
      → due_step l ps ≡ some ps
      → ps t ≡ looking (wish op)
      → Follows value op th
      → Goes value t ps l (answer t (some op) th) th
  unfolding answer is_idle
  finds l op th q e (inl done) =
      subst (λ (x : Thread). Goes value t ps l (answer t (some op) x) x) (sym done)
        (answers l (reply t op) q (reply-Sets op e))
  finds l op th q e (inr d) =
      rw (looking-busy value (looking (wish op)) (wish op) th d refl)
        (silent l th q (subst (λ (x : Pending). Due value x th) (sym e) d))
