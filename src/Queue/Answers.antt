-- ===== src/Queue/Answers.antt =====
-- src/sync/queue.rs: what the callers of `push` and `try_pop` see.
use mathlib.Core.Path.{subst}
use cdpt.Base.{
  ℕ, suc, ◌<◌, ◌≡◌, refl, sym, ap, ◌∙◌, arith, inl, inr, true, if◌then◌else◌, Bool-cases, ◌==◌,
  none, some, Option, List, update, update_self, update-ne,
}
use cdpt.Calls.{
  internal, returned, met_none, called_push, called_pop, Pending, outside, popping, pushing,
  finished, Goes, silent, one_label, returns, finishes, put-Sets, took-Sets, met_none-Sets,
  called_push-Sets, called_pop-Sets, Agrees, Answers, as_before, Goes-Answers,
}
use cdpt.Queue.{
  Thread, idle, pop_load, push_load, push_next, push_link, push_swing, push_help, pop_next,
  pop_head, pop_tail, pop_swing, retiring, Queue, System, Event, push, try_pop, move, allocate,
  cas_tail, cas_head, cas_next, see_next, see_link, see_successor, advance, write, is_idle,
  push_call, pop_call, step, result, link_label, successor_label, move_label, return_label, label,
  answer_label,
}
use cdpt.Queue.Views.{
  View, Place, Knows, at_idle, at_push_load, at_push_next, at_push_help, at_push_link,
  at_push_swing, at_pop_load, at_pop_next, at_pop_head, at_pop_tail, at_pop_swing, at_retiring,
  Owns, owns_load, owns_next, owns_help, owns_link,
}
use cdpt.Queue.Changes.{Related}

-- What the caller of a thread is waiting for.
unfoldable pub pending : (ℕ → ℕ) → Thread → Pending
pending data_of idle = outside
pending data_of (push_load new) = pushing (data_of new)
pending data_of (push_next new onto) = pushing (data_of new)
pending data_of (push_help new onto n) = pushing (data_of new)
pending data_of (push_link new onto) = pushing (data_of new)
pending data_of (push_swing new onto) = finished none
pending data_of pop_load = popping
pending data_of (pop_next head) = popping
pending data_of (pop_head head n) = popping
pending data_of (pop_tail head n) = finished (some (data_of n))
pending data_of (pop_swing head n) = finished (some (data_of n))
pending data_of (retiring head n) = finished (some (data_of n))

is_idle→eq : (th : Thread) → is_idle th ≡ true → th ≡ idle
unfolding is_idle
is_idle→eq idle e = refl
is_idle→eq pop_load e = cc
is_idle→eq (push_load new) e = cc
is_idle→eq (push_next new onto) e = cc
is_idle→eq (push_link new onto) e = cc
is_idle→eq (push_swing new onto) e = cc
is_idle→eq (push_help new onto n) e = cc
is_idle→eq (pop_next head) e = cc
is_idle→eq (pop_head head n) e = cc
is_idle→eq (pop_tail head n) e = cc
is_idle→eq (pop_swing head n) e = cc
is_idle→eq (retiring head n) e = cc

cas_tail-data_of : (x n : ℕ) (q : Queue) → (cas_tail x n q).data_of ≡ q.data_of
unfolding cas_tail
cas_tail-data_of x n q = ground arith

cas_head-data_of : (x n : ℕ) (q : Queue) → (cas_head x n q).data_of ≡ q.data_of
unfolding cas_head
cas_head-data_of x n q = ground arith

cas_next-data_of :
    (found : Option ℕ) (x n : ℕ) (q : Queue) → (cas_next found x n q).data_of ≡ q.data_of
unfolding cas_next
cas_next-data_of none x n q = refl
cas_next-data_of (some m) x n q = refl

-- An access writes no data.
write-data_of : (q : Queue) (th : Thread) → (write q th).data_of ≡ q.data_of
unfolding write
write-data_of q idle = refl
write-data_of q pop_load = refl
write-data_of q (push_load new) = refl
write-data_of q (push_next new onto) = refl
write-data_of q (push_help new onto n) = cas_tail-data_of onto n q
write-data_of q (push_link new onto) = cas_next-data_of (q.next onto) onto new q
write-data_of q (push_swing new onto) = cas_tail-data_of onto new q
write-data_of q (pop_next head) = refl
write-data_of q (pop_head head n) = cas_head-data_of head n q
write-data_of q (pop_tail head n) = refl
write-data_of q (pop_swing head n) = cas_tail-data_of head n q
write-data_of q (retiring head n) = refl

module _ (s : System) (f : List ℕ) (v : View) (r : Related s f v) (item : ℕ) where
  old_data : (n : ℕ) → n < s.queue.allocated → (allocate item s.queue).data_of n ≡ s.queue.data_of n
  unfolding allocate
  old_data n l = update-ne s.queue.data_of s.queue.allocated n item (λ e. omega (arith, e, l))

  placed_data : (p n : ℕ) → Place v p n → (allocate item s.queue).data_of n ≡ s.queue.data_of n
  placed_data p n a =
      old_data n (subst (λ (x : ℕ). x < s.queue.allocated) (sym a.here) (r.shape.old p a.bound))

  owned :
      (u n : ℕ) {th : Thread}
      → s.threads u ≡ th
      → Owns th n
      → (allocate item s.queue).data_of n ≡ s.queue.data_of n
  owned u n at o = old_data n (r.fresh u n (subst (λ (x : Thread). Owns x n) (sym at) o)).unused

  -- A node that is allocated for another thread is none that this thread pushes or has popped.
  pending-allocate :
      (u : ℕ) (th : Thread)
      → s.threads u ≡ th
      → Knows v th
      → pending (allocate item s.queue).data_of th ≡ pending s.queue.data_of th
  unfolding pending
  pending-allocate u _ at at_idle = refl
  pending-allocate u _ at (at_push_load new) = ap pushing (owned u new at (owns_load new))
  pending-allocate u _ at (at_push_next new onto p a h) =
      ap pushing (owned u new at (owns_next new onto))
  pending-allocate u _ at (at_push_help new onto n p a b) =
      ap pushing (owned u new at (owns_help new onto n))
  pending-allocate u _ at (at_push_link new onto p a h) =
      ap pushing (owned u new at (owns_link new onto))
  pending-allocate u _ at (at_push_swing new onto p a b) = refl
  pending-allocate u _ at at_pop_load = refl
  pending-allocate u _ at (at_pop_next head p a h) = refl
  pending-allocate u _ at (at_pop_head head n p a b) = refl
  pending-allocate u _ at (at_pop_tail head n p a b h) =
      ap (λ (x : ℕ). finished (some x)) (placed_data (suc p) n b)
  pending-allocate u _ at (at_pop_swing head n p a b h) =
      ap (λ (x : ℕ). finished (some x)) (placed_data (suc p) n b)
  pending-allocate u _ at (at_retiring head n p a b h g) =
      ap (λ (x : ℕ). finished (some x)) (placed_data (suc p) n b)

module _ (s : System) (ps : ℕ → Pending) (a : Agrees (pending s.queue.data_of) s.threads ps)
    (t : ℕ) where
  see_next-Goes :
      (found : Option ℕ) (new onto : ℕ)
      → ps t ≡ pushing (s.queue.data_of new)
      → Goes t ps internal
          (if is_idle (see_next found new onto) then returned t none else internal)
          (pending s.queue.data_of (see_next found new onto))
  unfolding see_next is_idle pending
  see_next-Goes none new onto e = silent t ps _ e
  see_next-Goes (some n) new onto e = silent t ps _ e

  see_link-Goes :
      (found : Option ℕ) (new onto : ℕ)
      → ps t ≡ pushing (s.queue.data_of new)
      → Goes t ps
          (link_label t found (s.queue.data_of new))
          (if is_idle (see_link found new onto) then returned t none else internal)
          (pending s.queue.data_of (see_link found new onto))
  unfolding see_link link_label is_idle pending
  see_link-Goes none new onto e =
      one_label t ps _ (finished none) (put-Sets t ps (s.queue.data_of new) e)
  see_link-Goes (some n) new onto e = silent t ps _ e

  see_successor-Goes :
      (found : Option ℕ) (head : ℕ)
      → ps t ≡ popping
      → Goes t ps
          (successor_label t found)
          (if is_idle (see_successor found head) then returned t none else internal)
          (pending s.queue.data_of (see_successor found head))
  unfolding see_successor successor_label is_idle pending
  see_successor-Goes none head e = finishes t ps (met_none t) none (met_none-Sets t ps e)
  see_successor-Goes (some n) head e = silent t ps popping e

  move-Goes :
      (th : Thread)
      → ps t ≡ pending s.queue.data_of th
      → Goes t ps
          (move_label t s.queue th)
          (return_label t s.queue th)
          (pending s.queue.data_of (advance s.queue th))
  unfolding move_label return_label advance pending is_idle result
  move-Goes idle e = silent t ps outside e
  move-Goes (push_load new) e = silent t ps _ e
  move-Goes (push_next new onto) e = see_next-Goes (s.queue.next onto) new onto e
  move-Goes (push_help new onto n) e = silent t ps _ e
  move-Goes (push_link new onto) e = see_link-Goes (s.queue.next onto) new onto e
  move-Goes (push_swing new onto) e = returns t ps none e
  move-Goes pop_load e = silent t ps popping e
  move-Goes (pop_next head) e = see_successor-Goes (s.queue.next head) head e
  move-Goes (pop_head head n) e = elim (Bool-cases (s.queue.head == head)) [
    | inl q ↦ rw q (
        one_label t ps _ (finished (some (s.queue.data_of n)))
          (took-Sets t ps (s.queue.data_of n) e))
    | inr q ↦ rw q (silent t ps popping e)
  ]
  move-Goes (pop_tail head n) e = elim (Bool-cases (s.queue.tail == head)) [
    | inl q ↦ rw q (silent t ps _ e)
    | inr q ↦ rw q (silent t ps _ e)
  ]
  move-Goes (pop_swing head n) e = silent t ps _ e
  move-Goes (retiring head n) e = returns t ps (some (s.queue.data_of n)) e

  -- An idle thread has no call under way.
  none_pending : is_idle (s.threads t) ≡ true → ps t ≡ outside
  unfolding pending
  none_pending q = a t ∙ ap (pending s.queue.data_of) (is_idle→eq (s.threads t) q)

  push-Answers :
      (item : ℕ) (f : List ℕ) (v : View)
      → Related s f v
      → Answers
          (pending (push_call t item s).queue.data_of)
          (push_call t item s).threads
          ps
          (if is_idle (s.threads t) then called_push t item else internal)
          internal
  unfolding push_call allocate pending
  push-Answers item f v r = elim (Bool-cases (is_idle (s.threads t))) [
    | inl q ↦
        let new = s.queue.allocated in
        let stored = update_self s.queue.data_of new item in
        rw q (
          Goes-Answers (pending s.queue.data_of) _ s.threads t ps _ internal (push_load new) a
            (subst (Goes t ps (called_push t item) internal) (sym (ap pushing stored)) (
              one_label t ps (called_push t item) (pushing item)
                (called_push-Sets t ps item (none_pending q))))
            (λ u d. pending-allocate s f v r item u (s.threads u) refl (r.knows u)))
    | inr q ↦ rw q (as_before (pending s.queue.data_of) s.threads ps a)
  ]

  pop-Answers :
      Answers
        (pending (pop_call t s).queue.data_of)
        (pop_call t s).threads
        ps
        (if is_idle (s.threads t) then called_pop t else internal)
        internal
  unfolding pop_call pending
  pop-Answers = elim (Bool-cases (is_idle (s.threads t))) [
    | inl q ↦ rw q (
        Goes-Answers (pending s.queue.data_of) _ s.threads t ps _ internal pop_load a
          (one_label t ps (called_pop t) popping (called_pop-Sets t ps (none_pending q)))
          (λ u d. refl))
    | inr q ↦ rw q (as_before (pending s.queue.data_of) s.threads ps a)
  ]

  move-Answers :
      Answers
        (pending (write s.queue (s.threads t)).data_of)
        (update s.threads t (advance s.queue (s.threads t)))
        ps
        (move_label t s.queue (s.threads t))
        (return_label t s.queue (s.threads t))
  move-Answers =
      let th = s.threads t in
      let same = write-data_of s.queue th in
      Goes-Answers (pending s.queue.data_of) _ s.threads t ps _ _ (advance s.queue th) a
        (subst
          (λ (x : ℕ → ℕ).
            Goes t ps (move_label t s.queue th) (return_label t s.queue th)
              (pending x (advance s.queue th)))
          (sym same) (move-Goes th (a t)))
        (λ u d. ap (λ (x : ℕ → ℕ). pending x (s.threads u)) same)

pub step-Answers :
    (e : Event) (s : System) (f : List ℕ) (v : View) (ps : ℕ → Pending)
    → Related s f v
    → Agrees (pending s.queue.data_of) s.threads ps
    → Answers
        (pending (step e s).queue.data_of)
        (step e s).threads
        ps
        (label e s)
        (answer_label e s)
unfolding step label answer_label
step-Answers (push t item) s f v ps r a = push-Answers s ps a t item f v r
step-Answers (try_pop t) s f v ps r a = pop-Answers s ps a t
step-Answers (move t) s f v ps r a = move-Answers s ps a t
