-- ===== src/Stack/Linear.antt =====
-- examples/stack.rs: every interleaving is a run of a sequential stack.
use mathlib.Core.Option
use cdpt.Base.{ℕ, ◌≡◌, refl, some, List, [], ◌∷◌, inl, inr, Bool-cases}
use cdpt.Calls.{Label, Pending, outside, pending_run, Agrees, Served}
use cdpt.Stack.{
  Thread, Stack, System, Event, push, pop, move, is_idle, advance, step, run, initial, return_label,
  label, answer_label, trace, lifo_step, lifo_run,
}
use cdpt.Stack.Views.{owns, Chain, bottom, at_idle, Inv, none≢some}
use cdpt.Stack.Moves.{Refines, move-Refines, push_call-Refines, pop_call-Refines}
use cdpt.Stack.Answers.{pending, step-Answers}

-- A label that says nothing about the items.
Neutral : Label → Type 0
Neutral l = (items : List ℕ) → lifo_step l items ≡ some items

return_label-Neutral : (t : ℕ) (q : Stack) (th : Thread) → Neutral (return_label t q th)
unfolding Neutral lifo_step return_label
return_label-Neutral t q th items = elim (Bool-cases (is_idle th)) [
  | inl e ↦ rw e refl
  | inr e ↦ elim (Bool-cases (is_idle (advance q th))) [
    | inl f ↦ rw (e, f) refl
    | inr f ↦ rw (e, f) refl
  ]
]

answer_label-Neutral : (e : Event) (s : System) → Neutral (answer_label e s)
unfolding Neutral lifo_step answer_label
answer_label-Neutral (push t item) s items = refl
answer_label-Neutral (pop t) s items = refl
answer_label-Neutral (move t) s items = return_label-Neutral t s.stack (s.threads t) items

step-Refines :
    (e : Event) (s : System) (items : List ℕ)
    → Inv s
    → Chain s s.stack.top items
    → Refines (step e s) (lifo_step (label e s) items)
unfolding step label lifo_step
step-Refines (push t item) s items v c = elim (Bool-cases (is_idle (s.threads t))) [
  | inl q ↦ rw q (push_call-Refines s t items v c item)
  | inr q ↦ rw q (push_call-Refines s t items v c item)
]
step-Refines (pop t) s items v c = elim (Bool-cases (is_idle (s.threads t))) [
  | inl q ↦ rw q (pop_call-Refines s t items v c)
  | inr q ↦ rw q (pop_call-Refines s t items v c)
]
step-Refines (move t) s items v c = move-Refines s t items v c (s.threads t) refl (v.knows t)

run-Refines :
    (events : List Event) (s : System) (items : List ℕ) (ps : ℕ → Pending)
    → Inv s
    → Chain s s.stack.top items
    → Agrees (pending s.stack.item_of) s.threads ps
    → Refines (run events s) (lifo_run (trace events s) items)
      × Served
          (pending (run events s).stack.item_of)
          (run events s).threads
          (pending_run (trace events s) ps)
unfolding run trace lifo_run pending_run Option.bind Neutral
run-Refines [] s items ps v c a = (
  record { items = items; allowed = refl; inv = v; chain = c },
  record { after = ps; allowed = refl; agrees = a },
)
run-Refines (e ∷ events) s items ps v c a =
    let r = step-Refines e s items v c in
    let w = step-Answers e s ps v a in
    let (rest, calls) = run-Refines events (step e s) r.items w.after r.inv r.chain w.agrees in
    (rw (r.allowed, answer_label-Neutral e s r.items) rest, rw (w.first, w.second) calls)

initial-Inv : Inv initial
unfolding owns
initial-Inv = record { knows = λ t. at_idle; one_owner = λ t u n p q. absurd (none≢some n p) }

initial-Agrees : Agrees (pending initial.stack.item_of) initial.threads (λ t. outside)
unfolding pending
initial-Agrees t = refl

-- In every interleaving of pushes and pops by any threads, each call takes effect at one moment between
-- its call and its return, in an order that a sequential stack allows: a push puts the item that it has
-- been called with on top, a pop takes the item on top and returns it, and a pop that returns nothing
-- meets an empty stack. No call returns before it has taken effect. The items of that stack are those
-- of the nodes from the top on.
pub stack-Refines :
    (events : List Event)
    → Refines (run events initial) (lifo_run (trace events initial) [])
      × Served
          (pending (run events initial).stack.item_of)
          (run events initial).threads
          (pending_run (trace events initial) (λ t. outside))
stack-Refines events =
    run-Refines events initial [] (λ t. outside) initial-Inv bottom initial-Agrees
