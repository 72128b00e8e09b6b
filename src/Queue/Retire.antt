-- ===== src/Queue/Retire.antt =====
-- src/sync/queue.rs: a popped node is destroyed only when it cannot be reached from the queue.
use mathlib.Core.Path.{subst}
use cdpt.Base.{ℕ, suc, ◌<◌, ◌≤◌, ◌≡◌, sym, ◌∙◌, arith, some, List}
use cdpt.Queue.{retiring, Queue, System, Event, initial, run}
use cdpt.Queue.Views.{View, Place, Knows, at_retiring}
use cdpt.Queue.Changes.{Related}
use cdpt.Queue.Refine.{successor}
use cdpt.Queue.Linear.{initial-Refines}

-- A node that a thread can come to from another one.
pub data Reaches (q : Queue) : ℕ → ℕ → Type 0 where
  here : (n : ℕ) → Reaches q n n
  onward : (a b c : ℕ) → q.next a ≡ some b → Reaches q b c → Reaches q a c

-- From a linked node only nodes at the same place or behind it are reached.
Reaches-Place :
    (s : System) (f : List ℕ) (v : View)
    → Related s f v
    → (a b i : ℕ) → Reaches s.queue a b
    → Place v i a
    → (j : ℕ) × (i ≤ j) × Place v j b
Reaches-Place s f v r a _ i (here _) at = (i, omega arith, at)
Reaches-Place s f v r a b i (onward _ m _ e rest) at =
    let (j, h, there) = Reaches-Place s f v r m b (suc i) rest (successor s f v r 0 i a m at e) in
    (j, omega (arith, h), there)

not_behind :
    (s : System) (f : List ℕ) (v : View)
    → Related s f v
    → (a old i p : ℕ) → Place v i a
    → Place v p old
    → p < i
    → ¬ Reaches s.queue a old
not_behind s f v r a old i p at gone h path =
    let (j, le, there) = Reaches-Place s f v r a old i path at in
    let same : p ≡ j = r.shape.injective p j gone.bound there.bound (sym gone.here ∙ there.here) in
    absurd (omega (arith, le, h, same))

retiring-Place :
    (v : View) (old n : ℕ)
    → Knows v (retiring old n)
    → (p : ℕ) × Place v p old × (p < v.first) × (p < v.back)
retiring-Place v old n (at_retiring _ _ p a b h g) = (p, a, h, g)

-- In every interleaving, when a thread has a popped node destroyed later, no thread can come to that
-- node any more from the head or the tail of the queue.
pub retired_unreachable :
    (events : List Event) (t old n : ℕ)
    → (run events initial).threads t ≡ retiring old n
    → (¬ Reaches (run events initial).queue (run events initial).queue.head old)
      × (¬ Reaches (run events initial).queue (run events initial).queue.tail old)
retired_unreachable events t old n at =
    let s = run events initial in
    let c = (initial-Refines events).0 in
    let v = c.view in
    let r = c.related in
    let (p, a, h, g) = retiring-Place v old n (subst (Knows v) at (r.knows t)) in
    (
      not_behind s c.after v r s.queue.head old v.first p
          (record { bound = omega arith; here = r.shape.head_at }) a h,
      not_behind s c.after v r s.queue.tail old v.back p
          (record { bound = r.shape.back_lt; here = r.shape.tail_at }) a g,
    )
