-- ===== src/Queue/Linear.antt =====
-- src/sync/queue.rs: every interleaving is a run of the sequential queue.
use mathlib.Core.Option.{bind}
use cdpt.Base.{
  ℕ, ◌≡◌, ◌≢◌, refl, sym, ap, ◌∙◌, arith, Option, some, List, [], ◌∷◌, ◌==◌, Bool-cases, inl, inr,
}
use cdpt.Queue.{
  Thread, idle, pop_load, push_load, push_next, push_help, pop_next, pop_swing, retiring, System,
  Queue, advance, write, move_label, fifo_step, fifo_run, Event, push, try_pop, move, initial,
  push_call, is_idle, pop_call, step, run, label, answer_label, return_label, trace,
}
use cdpt.Queue.Views.{
  View, values, Knows, at_idle, at_push_load, at_push_next, at_push_help, at_push_link,
  at_push_swing, at_pop_load, at_pop_next, at_pop_head, at_pop_tail, at_pop_swing, at_retiring,
  Owns, owns_load, owns_next, owns_help,
}
use cdpt.Queue.Changes.{Related, Change-Related, quiet}
use cdpt.Queue.Moves.{allocate-Change}
use cdpt.Queue.Refine.{
  Moves, silent, keeps_node, cas_tail-Moves, popped_behind, see_next-Moves, link-Moves,
  see_successor-Moves, pop-Moves, self_number,
}
use cdpt.Queue.Answers.{pending, step-Answers}
use cdpt.Calls.{Label, Pending, outside, pending_run, Agrees, Served}

module _ (s : System) (f : List ℕ) (v : View) (r : Related s f v) (t : ℕ) where
  load_to_next : (new onto m : ℕ) → Owns (push_next new onto) m → Owns (push_load new) m
  load_to_next new onto _ (owns_next _ _) = owns_load new

  help_to_load : (new onto n m : ℕ) → Owns (push_load new) m → Owns (push_help new onto n) m
  help_to_load new onto n _ (owns_load _) = owns_help new onto n

  -- Any access of a thread at its place.
  move-Moves :
      (th : Thread)
      → s.threads t ≡ th
      → Knows v th
      → Moves s f v t (move_label t s.queue th) (advance s.queue th) (write s.queue th)
  unfolding move_label advance write fifo_step
  move-Moves _ at at_idle = silent s f v r t idle at_idle (λ m o. elim o [ ])
  move-Moves _ at (at_push_load new) =
      silent s f v r t (push_next new s.queue.tail)
        (at_push_next new s.queue.tail v.back
          (record { bound = r.shape.back_lt; here = r.shape.tail_at }) (omega arith))
        (keeps_node s f v r t (push_load new) (push_next new s.queue.tail) at
          (load_to_next new s.queue.tail))
  move-Moves _ at (at_push_next new onto p a h) = see_next-Moves s f v r t new onto p at a h
  move-Moves _ at (at_push_help new onto n p a b) =
      cas_tail-Moves s f v r t (push_load new) onto n p a b (at_push_load new)
        (λ ne. at_push_load new)
        (keeps_node s f v r t (push_help new onto n) (push_load new) at (help_to_load new onto n))
  move-Moves _ at (at_push_link new onto p a h) = link-Moves s f v r t new onto p at a h
  move-Moves _ at (at_push_swing new onto p a b) =
      cas_tail-Moves s f v r t idle onto new p a b at_idle (λ ne. at_idle) (λ m o. elim o [ ])
  move-Moves _ at at_pop_load =
      silent s f v r t (pop_next s.queue.head)
        (at_pop_next s.queue.head v.first (record { bound = omega arith; here = r.shape.head_at })
          (omega arith))
        (λ m o. elim o [ ])
  move-Moves _ at (at_pop_next head p a h) = see_successor-Moves s f v r t head p a h
  move-Moves _ at (at_pop_head head n p a b) = pop-Moves s f v r t head n p a b
  move-Moves _ at (at_pop_tail head n p a b h) = elim (Bool-cases (s.queue.tail == head)) [
    | inl q ↦
        rw q (silent s f v r t (pop_swing head n) (at_pop_swing head n p a b h) (λ m o. elim o [ ]))
    | inr q ↦
        let apart : v.back ≢ p = λ same. absurd (
          cc (
            sym q
            ∙ self_number s.queue.tail head (r.shape.tail_at ∙ ap v.node same ∙ sym a.here))) in
        rw q (
          silent s f v r t (retiring head n)
            (at_retiring head n p a b h (popped_behind s f v r t p h apart)) (λ m o. elim o [ ]))
  ]
  move-Moves _ at (at_pop_swing head n p a b h) =
      cas_tail-Moves s f v r t (retiring head n) head n p a b
        (at_retiring head n p (record { bound = a.bound; here = a.here })
          (record { bound = b.bound; here = b.here }) h (omega arith))
        (λ ne. at_retiring head n p a b h (popped_behind s f v r t p h ne)) (λ m o. elim o [ ])
  move-Moves _ at (at_retiring head n p a b h g) = silent s f v r t idle at_idle (λ m o. elim o [ ])

-- The specification allows the label of the event, and the relation holds again.
pub record Refines (s : System) (result : Option (List ℕ)) : Type 0 where
  pub after : List ℕ
  pub view : View
  pub allowed : result ≡ some after
  pub related : Related s after view

push_call-Refines :
    (s : System) (f : List ℕ) (v : View) (t item : ℕ)
    → Related s f v
    → Refines (push_call t item s) (some f)
unfolding push_call
push_call-Refines s f v t item r = elim (Bool-cases (is_idle (s.threads t))) [
  | inl e ↦ rw e (record {
    after = f;
    view = v;
    allowed = refl;
    related = Change-Related s f v t _ _ f v r (allocate-Change s f v r t item);
  })
  | inr e ↦ rw e (record { after = f; view = v; allowed = refl; related = r })
]

pop_call-Refines :
    (s : System) (f : List ℕ) (v : View) (t : ℕ) → Related s f v → Refines (pop_call t s) (some f)
unfolding pop_call
pop_call-Refines s f v t r = elim (Bool-cases (is_idle (s.threads t))) [
  | inl e ↦ rw e (record {
    after = f;
    view = v;
    allowed = refl;
    related =
        Change-Related s f v t pop_load s.queue f v r
          (quiet s f v r t pop_load at_pop_load (λ m o. elim o [ ]));
  })
  | inr e ↦ rw e (record { after = f; view = v; allowed = refl; related = r })
]

step-Refines :
    (e : Event) (s : System) (f : List ℕ) (v : View)
    → Related s f v
    → Refines (step e s) (fifo_step (label e s) f)
unfolding step label fifo_step
step-Refines (push t item) s f v r = elim (Bool-cases (is_idle (s.threads t))) [
  | inl q ↦ rw q (push_call-Refines s f v t item r)
  | inr q ↦ rw q (push_call-Refines s f v t item r)
]
step-Refines (try_pop t) s f v r = elim (Bool-cases (is_idle (s.threads t))) [
  | inl q ↦ rw q (pop_call-Refines s f v t r)
  | inr q ↦ rw q (pop_call-Refines s f v t r)
]
step-Refines (move t) s f v r =
    let m = move-Moves s f v r t (s.threads t) refl (r.knows t) in
    record {
      after = m.after;
      view = m.view;
      allowed = m.allowed;
      related = Change-Related s f v t _ _ m.after m.view r m.change;
    }

-- A label that says nothing about the items.
Neutral : Label → Type 0
Neutral l = (items : List ℕ) → fifo_step l items ≡ some items

return_label-Neutral : (t : ℕ) (q : Queue) (th : Thread) → Neutral (return_label t q th)
unfolding Neutral fifo_step return_label
return_label-Neutral t q th items = elim (Bool-cases (is_idle th)) [
  | inl e ↦ rw e refl
  | inr e ↦ elim (Bool-cases (is_idle (advance q th))) [
    | inl f ↦ rw (e, f) refl
    | inr f ↦ rw (e, f) refl
  ]
]

answer_label-Neutral : (e : Event) (s : System) → Neutral (answer_label e s)
unfolding Neutral fifo_step answer_label
answer_label-Neutral (push t item) s items = refl
answer_label-Neutral (try_pop t) s items = refl
answer_label-Neutral (move t) s items = return_label-Neutral t s.queue (s.threads t) items

run-Refines :
    (events : List Event) (s : System) (f : List ℕ) (v : View) (ps : ℕ → Pending)
    → Related s f v
    → Agrees (pending s.queue.data_of) s.threads ps
    → Refines (run events s) (fifo_run (trace events s) f)
      × Served
          (pending (run events s).queue.data_of)
          (run events s).threads
          (pending_run (trace events s) ps)
unfolding run fifo_run pending_run trace bind Neutral
run-Refines [] s f v ps r a = (
  record { after = f; view = v; allowed = refl; related = r },
  record { after = ps; allowed = refl; agrees = a },
)
run-Refines (e ∷ events) s f v ps r a =
    let one = step-Refines e s f v r in
    let w = step-Answers e s f v ps r a in
    let (rest, calls) =
      run-Refines events (step e s) one.after one.view w.after one.related w.agrees in
    (rw (one.allowed, answer_label-Neutral e s one.after) rest, rw (w.first, w.second) calls)

abbrev initial_view : View
initial_view = record { node = λ p. p; first = 0; count = 0; back = 0 }

initial-Related : Related initial [] initial_view
unfolding values
initial-Related = record {
  shape = record {
    head_at = refl;
    tail_at = refl;
    back_lt = omega arith;
    lag = omega arith;
    linked = λ p h. absurd (omega arith);
    last = refl;
    injective = λ p q h g e. e;
    old = λ p h. omega arith;
  };
  items = refl;
  knows = λ t. at_idle;
  fresh = λ t n o. elim o [ ];
  apart = λ t u n o. elim o [ ];
}

initial-Agrees : Agrees (pending initial.queue.data_of) initial.threads (λ t. outside)
unfolding pending
initial-Agrees t = refl

-- In every interleaving of pushes and pops by any threads, each call takes effect at one moment between
-- its call and its return, in an order that a sequential queue allows: a push puts the item that it has
-- been called with at the end, a pop takes the first item and returns it, and a pop that returns
-- nothing meets an empty queue. No call returns before it has taken effect. The items of that queue
-- are those of the linked nodes after the sentinel.
pub initial-Refines :
    (events : List Event)
    → Refines (run events initial) (fifo_run (trace events initial) [])
      × Served
          (pending (run events initial).queue.data_of)
          (run events initial).threads
          (pending_run (trace events initial) (λ t. outside))
initial-Refines events =
    run-Refines events initial [] initial_view (λ t. outside) initial-Related initial-Agrees
