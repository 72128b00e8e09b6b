-- ===== src/Lists/WaitFree.antt =====
-- examples/ds/lists.rs: a get with `find_harris_herlihy_shavit` does not wait for other threads.
use cdpt.Base.{
  ℕ, zero, suc, ◌-◌, ◌+◌, ◌<◌, ◌≤◌, ◌≡◌, ◌≢◌, refl, sym, arith, inl, inr, Bool, true, false, not,
  ◌&&◌, ◌==◌, if◌then◌else◌, Option, List, [], ◌∷◌, update_self, ℕ_discrete, Bool-cases,
}
use cdpt.Lists.{
  harris_herlihy_shavit, Op, get, Thread, idle, begun, visiting, Nodes, System, initial, is_idle,
  advance, write, Event, call_get, call_remove, call_insert, move, call, thread_of, next_access,
  step, run,
}
use cdpt.Lists.Spec.{Map}
use cdpt.Lists.Paths.{Shape}
use cdpt.Lists.Views.{Knows, at_visiting}
use cdpt.Lists.Invariant.{Inv}
use cdpt.Lists.Moves.{is_idle→eq}
use cdpt.Lists.Linear.{lists-Refines, step-Allows}
use cdpt.Lists.Ending.{
  Ends, ended, on_way, at_start, own-Ends, Ends-kept, write-keys, step_else, step-keys,
}
use mathlib.Core.Path.{subst}

unfoldable pub accesses : ℕ → List Event → ℕ
accesses t [] = 0
accesses t (move u ∷ events) = let rest = accesses t events in if u == t then suc rest else rest
accesses t (e ∷ events) = accesses t events

unfoldable pub no_calls : ℕ → List Event → Bool
no_calls t [] = true
no_calls t (move u ∷ events) = no_calls t events
no_calls t (e ∷ events) = not (thread_of e == t) && no_calls t events

not_mine : (x t : ℕ) (rest : Bool) → (not (x == t) && rest) ≡ true → (x ≢ t) × (rest ≡ true)
not_mine x t true e = (λ f. ground (arith, e, f), refl)
not_mine x t false e = ground (arith, e)

visiting_old :
    (view : ℕ → Bool) (h : Nodes) (seen : Option ℕ) (prev curr : ℕ) (op : Op) (pn : Option ℕ)
    → Shape view h
    → Knows view h seen (visiting op prev pn curr)
    → curr < h.allocated
visiting_old view h seen prev curr op pn v (at_visiting _ _ _ _ a b (p, i) w) = v.old curr p

ended_idle : (h : Nodes) (k : ℕ) (th : Thread) → Ends h k zero th → th ≡ idle
ended_idle h k _ (ended _) = refl
ended_idle h k _ (on_way _ prev pn curr y l) = absurd (omega (arith, y))
ended_idle h k _ (at_start _ l) = absurd (omega (arith, l))

module _ (view : ℕ → Bool) (s : System) (m : Map) (v : Inv view s m) (t k left : ℕ)
    (w : Ends s.nodes k left (s.threads t)) where
  other_step : (e : Event) → thread_of e ≢ t → Ends (step e s).nodes k left ((step e s).threads t)
  other_step e d = subst (Ends (step e s).nodes k left) (sym (step_else e s t d)) (
      Ends-kept s.nodes (step e s).nodes k left (s.threads t)
        (λ op prev pn curr q. step-keys e s curr (
          visiting_old view s.nodes (m.seen t) prev curr op pn v.shape
            (subst (Knows view s.nodes (m.seen t)) q (v.knows t))))
        w)

  own_step :
      (now : ℕ) → left ≤ suc now → Ends (step (move t) s).nodes k now ((step (move t) s).threads t)
  unfolding step call next_access thread_of
  own_step now l = elim (Bool-cases (is_idle (s.threads t))) [
    | inl q ↦ rw q (subst (Ends s.nodes k now) (sym (is_idle→eq (s.threads t) q)) (ended now))
    | inr q ↦
        let th = advance s.nodes (s.threads t) in
        rw q (
          subst (Ends (write s.nodes (s.threads t)) k now) (sym (update_self s.threads t th)) (
            Ends-kept s.nodes (write s.nodes (s.threads t)) k now th
              (λ op prev pn curr g. write-keys s.nodes (s.threads t) curr)
              (own-Ends view s.nodes (m.seen t) k left now (s.threads t) v.shape (v.knows t) l w)))
  ]

run-Ends :
    (events : List Event) (view : ℕ → Bool) (s : System) (m : Map) (t k left : ℕ)
    → Inv view s m
    → Ends s.nodes k left (s.threads t)
    → no_calls t events ≡ true
    → left ≤ accesses t events
    → (run events s).threads t ≡ idle
unfolding run no_calls accesses thread_of
run-Ends [] view s m t k zero v w n l = ended_idle s.nodes k (s.threads t) w
run-Ends [] view s m t k (suc left) v w n l = absurd (omega (arith, l))
run-Ends (move u ∷ events) view s m t k left v w n l =
    let r = step-Allows (move u) view s m v in
    elim (ℕ_discrete u t) [
      | yes e ↦
          run-Ends events r.view (step (move u) s) r.map t k (left - 1) r.inv
            (subst
              (λ (x : ℕ). Ends (step (move x) s).nodes k (left - 1) ((step (move x) s).threads t))
              (sym e) (own_step view s m v t k left w (left - 1) (omega arith)))
            n (mine u t (accesses t events) l)
      | no d ↦
          run-Ends events r.view (step (move u) s) r.map t k left r.inv
            (other_step view s m v t k left w (move u) d) n (theirs u t (accesses t events) d l)
    ]
  where
    mine : (x y rest : ℕ) → left ≤ (if x == y then suc rest else rest) → left - 1 ≤ rest
    mine x y rest g = ground (arith, g)

    theirs : (x y rest : ℕ) → x ≢ y → left ≤ (if x == y then suc rest else rest) → left ≤ rest
    theirs x y rest d g = ground (arith, d, g)
run-Ends (call_get u kind key ∷ events) view s m t k left v w n l =
    let r = step-Allows (call_get u kind key) view s m v in
    let (d, rest) = not_mine u t (no_calls t events) n in
    run-Ends events r.view (step (call_get u kind key) s) r.map t k left r.inv
      (other_step view s m v t k left w (call_get u kind key) d) rest l
run-Ends (call_remove u kind key ∷ events) view s m t k left v w n l =
    let r = step-Allows (call_remove u kind key) view s m v in
    let (d, rest) = not_mine u t (no_calls t events) n in
    run-Ends events r.view (step (call_remove u kind key) s) r.map t k left r.inv
      (other_step view s m v t k left w (call_remove u kind key) d) rest l
run-Ends (call_insert u kind key x ∷ events) view s m t k left v w n l =
    let r = step-Allows (call_insert u kind key x) view s m v in
    let (d, rest) = not_mine u t (no_calls t events) n in
    run-Ends events r.view (step (call_insert u kind key x) s) r.map t k left r.inv
      (other_step view s m v t k left w (call_insert u kind key x) d) rest l

-- A get that is called with `find_harris_herlihy_shavit` ends with the `key + 4`th access of its thread
-- at the latest, in every interleaving with gets, inserts and removes of other threads, and its thread
-- is idle from then on until it is called again.
pub get_ends :
    (before later : List Event) (t k : ℕ)
    → (run before initial).threads t ≡ begun (get harris_herlihy_shavit k)
    → no_calls t later ≡ true
    → k + 4 ≤ accesses t later
    → (run later (run before initial)).threads t ≡ idle
get_ends before later t k e n l =
    let r = (lists-Refines before).0 in
    run-Ends later r.view (run before initial) r.map t k (k + 4) r.inv
      (subst (Ends (run before initial).nodes k (k + 4)) (sym e) (at_start (k + 4) (omega arith))) n
      l
