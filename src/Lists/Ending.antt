-- ===== src/Lists/Ending.antt =====
-- examples/ds/lists.rs: how near a get with `find_harris_herlihy_shavit` is to its end.
use cdpt.Base.{
  ℕ, zero, suc, ◌+◌, ◌<◌, ◌≤◌, ◌≡◌, ◌≢◌, refl, arith, inl, inr, Bool, true, false, not, ◌&&◌, ltb,
  ◌==◌, Option, none, some, update-ne, Bool-cases,
}
use cdpt.Lists.{
  harris_herlihy_shavit, Op, get, Thread, idle, panicked, begun, visiting, cleaning, unlinking,
  storing, linking, marking, cutting, returning, Nodes, System, new_node, is_idle, return_node,
  after_find, end_find, see_curr, see_key, see_next, cas_next, cas_wins, advance, write, Event,
  call_get, call_remove, call_insert, move, call, thread_of, next_access, step,
}
use cdpt.Lists.Paths.{rank, Shape}
use cdpt.Lists.Changes.{key_rank}
use cdpt.Lists.Views.{Knows, at_visiting}
use cdpt.Lists.Frames.{rank-keys}

-- The get ends within `left` accesses of its thread.
pub data Ends (h : Nodes) (k : ℕ) : ℕ → Thread → Type 0 where
  ended : (left : ℕ) → Ends h k left idle
  at_node : (left curr : ℕ) → Ends h k (suc left) (returning curr)
  on_way :
      (left prev : ℕ) (pn : Option ℕ) (curr : ℕ)
      → 1 ≤ left
      → k + 3 ≤ left + rank h curr
      → Ends h k left (visiting (get harris_herlihy_shavit k) prev pn curr)
  at_start : (left : ℕ) → k + 4 ≤ left → Ends h k left (begun (get harris_herlihy_shavit k))

see_curr-Ends :
    (h : Nodes) (k left prev : ℕ) (pn curr : Option ℕ)
    → 1 ≤ left
    → ((c : ℕ) → curr ≡ some c → k + 3 ≤ left + rank h c)
    → Ends h k left (see_curr (get harris_herlihy_shavit k) prev pn curr)
unfolding see_curr end_find after_find
see_curr-Ends h k left prev pn none l f = ended left
see_curr-Ends h k left prev pn (some c) l f = on_way left prev pn c l (f c refl)

answer-Ends :
    (h : Nodes) (k left prev curr : ℕ) (pn : Option ℕ) (answer : Bool)
    → (answer ≡ true → 1 ≤ left)
    → Ends h k left
        (end_find harris_herlihy_shavit (get harris_herlihy_shavit k) answer prev pn (some curr))
unfolding end_find after_find return_node
answer-Ends h k left prev curr pn true l = one left (l refl)
  where
    one : (n : ℕ) → 1 ≤ n → Ends h k n (returning curr)
    one zero g = absurd (omega (arith, g))
    one (suc n) g = at_node n curr
answer-Ends h k left prev curr pn false l = ended left

-- The access of the thread itself.
pub own-Ends :
    (view : ℕ → Bool) (h : Nodes) (seen : Option ℕ) (k left now : ℕ) (th : Thread)
    → Shape view h
    → Knows view h seen th
    → left ≤ suc now
    → Ends h k left th
    → Ends h k now (advance h th)
unfolding advance see_next see_key
own-Ends view h seen k left now _ v known z (ended _) = ended now
own-Ends view h seen k left now _ v known z (at_node _ curr) = ended now
own-Ends view h seen k left now _ v known z (at_start _ l) =
    see_curr-Ends h k now 0 (h.next 0) (h.next 0) (omega (arith, l, z)) (λ c e. omega (arith, l, z))
own-Ends view h seen k left now _ v (at_visiting _ _ _ _ a b (p, i) w) z
      (on_way _ prev pn curr y l) =
    elim (Bool-cases (ltb (h.key curr) k)) [
      | inl q ↦ rw q (
          see_curr-Ends h k now curr (h.next curr) (h.next curr)
            (less (h.key curr) (rank h curr) q (key_rank h curr i) l z)
            (λ c e. omega (arith, l, z, v.ordered curr c p e)))
      | inr q ↦ rw q (
          answer-Ends h k now prev curr pn ((h.key curr == k) && not (h.tagged curr))
            (λ e. one (h.key curr) (not (h.tagged curr)) (rank h curr) e (key_rank h curr i) l z))
    ]
  where
    less : (x r : ℕ) → ltb x k ≡ true → r ≡ suc x → k + 3 ≤ left + r → left ≤ suc now → 1 ≤ now
    less x r e f g d = ground (arith, e, f, g, d)

    one :
        (x : ℕ) (b : Bool) (r : ℕ)
        → ((x == k) && b) ≡ true
        → r ≡ suc x
        → k + 3 ≤ left + r
        → left ≤ suc now
        → 1 ≤ now
    one x b r e f g d = ground (arith, e, f, g, d)

cas_next-keys :
    (h : Nodes) (at : ℕ) (from to : Option ℕ) (n : ℕ) → (cas_next at from to h).key n ≡ h.key n
unfolding cas_next
cas_next-keys h at from to n = elim (Bool-cases (cas_wins h at from)) [
  | inl q ↦ rw q refl
  | inr q ↦ rw q refl
]

-- Keys do not change.
pub write-keys : (h : Nodes) (th : Thread) (n : ℕ) → (write h th).key n ≡ h.key n
unfolding write
write-keys h idle n = refl
write-keys h panicked n = refl
write-keys h (begun op) n = refl
write-keys h (visiting op prev pn curr) n = refl
write-keys h (cleaning op answer prev pn curr) n = cas_next-keys h prev pn curr n
write-keys h (unlinking op prev curr next) n = cas_next-keys h prev (some curr) next n
write-keys h (storing f k new prev curr) n = refl
write-keys h (linking f k new prev curr) n = cas_next-keys h prev curr (some new) n
write-keys h (marking f k prev curr) n = refl
write-keys h (cutting prev curr next) n = cas_next-keys h prev (some curr) next n
write-keys h (returning curr) n = refl

pub Ends-kept :
    (h after : Nodes) (k left : ℕ) (th : Thread)
    → ((op : Op) (prev : ℕ) (pn : Option ℕ) (curr : ℕ)
        → th ≡ visiting op prev pn curr
        → after.key curr ≡ h.key curr)
    → Ends h k left th
    → Ends after k left th
Ends-kept h after k left _ f (ended _) = ended left
Ends-kept h after k _ _ f (at_node left curr) = at_node left curr
Ends-kept h after k left _ f (on_way _ prev pn curr y l) =
    on_way left prev pn curr y
      (omega (arith, l, rank-keys h after curr (f (get harris_herlihy_shavit k) prev pn curr refl)))
Ends-kept h after k left _ f (at_start _ l) = at_start left l

pub step_else :
    (e : Event) (s : System) (t : ℕ) → thread_of e ≢ t → (step e s).threads t ≡ s.threads t
unfolding step call next_access thread_of
step_else e s t d = elim (Bool-cases (is_idle (s.threads (thread_of e)))) [
  | inl q ↦ rw q (calls e d)
  | inr q ↦ rw q (moves e d)
]
  where
    calls : (f : Event) → thread_of f ≢ t → (call f s).threads t ≡ s.threads t
    calls (call_get u kind key) g = update-ne s.threads u t _ g
    calls (call_remove u kind key) g = update-ne s.threads u t _ g
    calls (call_insert u kind key x) g = update-ne s.threads u t _ g
    calls (move u) g = refl

    moves : (f : Event) → thread_of f ≢ t → (next_access f s).threads t ≡ s.threads t
    moves (call_get u kind key) g = refl
    moves (call_remove u kind key) g = refl
    moves (call_insert u kind key x) g = refl
    moves (move u) g = update-ne s.threads u t _ g

pub step-keys :
    (e : Event) (s : System) (n : ℕ)
    → n < s.nodes.allocated
    → (step e s).nodes.key n ≡ s.nodes.key n
unfolding step call next_access thread_of new_node
step-keys e s n l = elim (Bool-cases (is_idle (s.threads (thread_of e)))) [
  | inl q ↦ rw q (calls e)
  | inr q ↦ rw q (moves e)
]
  where
    calls : (f : Event) → (call f s).nodes.key n ≡ s.nodes.key n
    calls (call_get u kind key) = refl
    calls (call_remove u kind key) = refl
    calls (call_insert u kind key x) =
        update-ne s.nodes.key s.nodes.allocated n key (λ e. omega (arith, e, l))
    calls (move u) = refl

    moves : (f : Event) → (next_access f s).nodes.key n ≡ s.nodes.key n
    moves (call_get u kind key) = refl
    moves (call_remove u kind key) = refl
    moves (call_insert u kind key x) = refl
    moves (move u) = write-keys s.nodes (s.threads u) n
