-- ===== src/Stack/Answers.antt =====
-- examples/stack.rs: what the callers of `push` and `pop` see.
use mathlib.Core.Path.{subst}
use cdpt.Base.{
  ℕ, ◌≡◌, refl, sym, ap, ◌∙◌, arith, inl, inr, true, if◌then◌else◌, none, some, Option, update,
  update_self, update-ne, Bool-cases,
}
use cdpt.Calls.{
  internal, Pending, outside, popping, pushing, Goes, silent, one_label, Agrees, Answers, as_before,
  Goes-Answers, finishes, returned, put, took, met_none, called_push, called_pop, put-Sets,
  took-Sets, met_none-Sets, called_push-Sets, called_pop-Sets,
}
use cdpt.Stack.{
  Thread, idle, pop_load, push_load, push_store, push_cas, pop_next, pop_cas, Stack, System, Event,
  push, pop, move, allocate, same_top, see_top, advance, cas_top, write, is_idle, push_call,
  pop_call, step, result, top_label, move_label, return_label, label, answer_label,
}
use cdpt.Stack.Views.{
  Knows, at_idle, at_pop_load, at_push_load, at_push_store, at_push_cas, at_pop_next, at_pop_cas,
  Inv,
}

-- What the caller of a thread is waiting for.
unfoldable pub pending : (ℕ → ℕ) → Thread → Pending
pending item_of idle = outside
pending item_of pop_load = popping
pending item_of (pop_next old) = popping
pending item_of (pop_cas old next) = popping
pending item_of (push_load new) = pushing (item_of new)
pending item_of (push_store new old) = pushing (item_of new)
pending item_of (push_cas new old) = pushing (item_of new)

is_idle→eq : (th : Thread) → is_idle th ≡ true → th ≡ idle
unfolding is_idle
is_idle→eq idle e = refl
is_idle→eq pop_load e = cc
is_idle→eq (push_load new) e = cc
is_idle→eq (push_store new old) e = cc
is_idle→eq (push_cas new old) e = cc
is_idle→eq (pop_next old) e = cc
is_idle→eq (pop_cas old next) e = cc

-- An access writes no item.
write-item_of : (q : Stack) (th : Thread) → (write q th).item_of ≡ q.item_of
unfolding write cas_top
write-item_of q idle = refl
write-item_of q pop_load = refl
write-item_of q (push_load new) = refl
write-item_of q (push_store new old) = refl
write-item_of q (pop_next old) = refl
write-item_of q (push_cas new old) = elim (Bool-cases (same_top q.top old)) [
  | inl e ↦ rw e refl
  | inr e ↦ rw e refl
]
write-item_of q (pop_cas old next) = elim (Bool-cases (same_top q.top (some old))) [
  | inl e ↦ rw e refl
  | inr e ↦ rw e refl
]

-- A node that is allocated for another thread is not the one that this thread pushes.
pending-allocate :
    (s : System) (th : Thread) (item : ℕ)
    → Knows s th
    → pending (allocate item s.stack).item_of th ≡ pending s.stack.item_of th
unfolding pending allocate
pending-allocate s _ item at_idle = refl
pending-allocate s _ item at_pop_load = refl
pending-allocate s _ item (at_pop_next old p) = refl
pending-allocate s _ item (at_pop_cas old next p e) = refl
pending-allocate s _ item (at_push_load new l) =
    ap pushing (update-ne s.stack.item_of s.stack.allocated new item (λ e. omega (arith, e, l)))
pending-allocate s _ item (at_push_store new old l) =
    ap pushing (update-ne s.stack.item_of s.stack.allocated new item (λ e. omega (arith, e, l)))
pending-allocate s _ item (at_push_cas new old l f) =
    ap pushing (update-ne s.stack.item_of s.stack.allocated new item (λ e. omega (arith, e, l)))

module _ (s : System) (ps : ℕ → Pending) (a : Agrees (pending s.stack.item_of) s.threads ps)
    (t : ℕ) where
  top-Goes :
      (top : Option ℕ)
      → ps t ≡ popping
      → Goes t ps
          (top_label t top)
          (if is_idle (see_top top) then returned t none else internal)
          (pending s.stack.item_of (see_top top))
  unfolding top_label see_top is_idle pending
  top-Goes none e = finishes t ps (met_none t) none (met_none-Sets t ps e)
  top-Goes (some old) e = silent t ps popping e

  move-Goes :
      (th : Thread)
      → ps t ≡ pending s.stack.item_of th
      → Goes t ps
          (move_label t s.stack th)
          (return_label t s.stack th)
          (pending s.stack.item_of (advance s.stack th))
  unfolding move_label return_label advance pending is_idle result
  move-Goes idle e = silent t ps outside e
  move-Goes pop_load e = top-Goes s.stack.top e
  move-Goes (push_load new) e = silent t ps (pushing (s.stack.item_of new)) e
  move-Goes (push_store new old) e = silent t ps (pushing (s.stack.item_of new)) e
  move-Goes (push_cas new old) e = elim (Bool-cases (same_top s.stack.top old)) [
    | inl q ↦ let x = s.stack.item_of new in rw q (finishes t ps (put t x) none (put-Sets t ps x e))
    | inr q ↦ rw q (silent t ps (pushing (s.stack.item_of new)) e)
  ]
  move-Goes (pop_next old) e = silent t ps popping e
  move-Goes (pop_cas old next) e = elim (Bool-cases (same_top s.stack.top (some old))) [
    | inl q ↦
        let x = s.stack.item_of old in rw q (finishes t ps (took t x) (some x) (took-Sets t ps x e))
    | inr q ↦ rw q (silent t ps popping e)
  ]

  -- An idle thread has no call under way.
  none_pending : is_idle (s.threads t) ≡ true → ps t ≡ outside
  unfolding pending
  none_pending q = a t ∙ ap (pending s.stack.item_of) (is_idle→eq (s.threads t) q)

  pub push-Answers :
      (item : ℕ)
      → Inv s
      → Answers
          (pending (push_call t item s).stack.item_of)
          (push_call t item s).threads
          ps
          (if is_idle (s.threads t) then called_push t item else internal)
          internal
  unfolding push_call allocate pending
  push-Answers item v = elim (Bool-cases (is_idle (s.threads t))) [
    | inl q ↦
        let new = s.stack.allocated in
        let stored = update_self s.stack.item_of new item in
        rw q (
          Goes-Answers (pending s.stack.item_of) _ s.threads t ps _ internal (push_load new) a
            (subst (Goes t ps (called_push t item) internal) (sym (ap pushing stored)) (
              one_label t ps (called_push t item) (pushing item)
                (called_push-Sets t ps item (none_pending q))))
            (λ u d. pending-allocate s (s.threads u) item (v.knows u)))
    | inr q ↦ rw q (as_before (pending s.stack.item_of) s.threads ps a)
  ]

  pub pop-Answers :
      Answers
        (pending (pop_call t s).stack.item_of)
        (pop_call t s).threads
        ps
        (if is_idle (s.threads t) then called_pop t else internal)
        internal
  unfolding pop_call pending
  pop-Answers = elim (Bool-cases (is_idle (s.threads t))) [
    | inl q ↦ rw q (
        Goes-Answers (pending s.stack.item_of) _ s.threads t ps _ internal pop_load a
          (one_label t ps (called_pop t) popping (called_pop-Sets t ps (none_pending q)))
          (λ u d. refl))
    | inr q ↦ rw q (as_before (pending s.stack.item_of) s.threads ps a)
  ]

  pub move-Answers :
      Answers
        (pending (write s.stack (s.threads t)).item_of)
        (update s.threads t (advance s.stack (s.threads t)))
        ps
        (move_label t s.stack (s.threads t))
        (return_label t s.stack (s.threads t))
  move-Answers =
      let th = s.threads t in
      let same = write-item_of s.stack th in
      Goes-Answers (pending s.stack.item_of) _ s.threads t ps _ _ (advance s.stack th) a
        (subst
          (λ (x : ℕ → ℕ).
            Goes t ps (move_label t s.stack th) (return_label t s.stack th)
              (pending x (advance s.stack th)))
          (sym same) (move-Goes th (a t)))
        (λ u d. ap (λ (x : ℕ → ℕ). pending x (s.threads u)) same)

pub step-Answers :
    (e : Event) (s : System) (ps : ℕ → Pending)
    → Inv s
    → Agrees (pending s.stack.item_of) s.threads ps
    → Answers
        (pending (step e s).stack.item_of)
        (step e s).threads
        ps
        (label e s)
        (answer_label e s)
unfolding step label answer_label
step-Answers (push t item) s ps v a = push-Answers s ps a t item v
step-Answers (pop t) s ps v a = pop-Answers s ps a t
step-Answers (move t) s ps v a = move-Answers s ps a t
