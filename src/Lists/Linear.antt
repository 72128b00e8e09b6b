-- ===== src/Lists/Linear.antt =====
-- examples/ds/lists.rs: every interleaving is a run of a sequential map.
use mathlib.Core.Option
use mathlib.Core.Path.{subst}
use cdpt.Base.{
  ℕ, ◌<◌, ◌≡◌, ◌≢◌, refl, sym, arith, inl, inr, Bool, true, ◌==◌, if◌then◌else◌, Option, none, some,
  List, [], ◌∷◌, Bool-cases,
}
use cdpt.Lists.{
  get_find, update_find, get, remove, Thread, idle, panicked, Nodes, System, new_list, initial,
  is_idle, advance, write, Event, call_get, call_remove, call_insert, move, call, thread_of,
  next_access, step, run,
}
use cdpt.Lists.Spec.{
  end_label, Pending, outside, due_run, internal, Map, empty_map, move_label, event_label,
  call_label, label, answer, event_answer, answer_label, trace, map_step, map_run,
}
use cdpt.Lists.Paths.{rank, Chain, here, none≢some, true≢false}
use cdpt.Lists.Changes.{Changes, no_change}
use cdpt.Lists.Views.{
  owns, any_get, a_remove, Knows, at_idle, at_begun, at_visiting, at_cleaning, at_unlinking,
  at_storing, at_linking, at_marking, at_cutting, at_returning,
}
use cdpt.Lists.Tracking.{resting-Tracks}
use cdpt.Lists.Invariant.{Inv, Allows, Refines, moved}
use cdpt.Lists.Moves.{opt_ptr_eq_lem, resting, no_key_left, plain, owns_nothing_more}
use cdpt.Lists.Visiting.{begun-Allows, visiting-Allows}
use cdpt.Lists.Writes.{cleaning-Allows, unlinking-Allows}
use cdpt.Lists.Inserting.{storing-Allows, linking-Allows}
use cdpt.Lists.Removing.{marking-Allows, cutting-Allows}
use cdpt.Lists.Due.{due_idle}
use cdpt.Lists.Answering.{Agrees, step-Answers}
use cdpt.Lists.Calls.{update_find-Exact, call-Allows, insert_call-Allows}

module _ (view : ℕ → Bool) (s : System) (m : Map) (v : Inv view s m) (t : ℕ) where
  move-Allows :
      (th : Thread)
      → s.threads t ≡ th
      → Knows view s.nodes (m.seen t) th
      → Allows
          (moved view s m v t (write s.nodes th) (advance s.nodes th))
          m
          (move_label t s.nodes th)
          (end_label t th (advance s.nodes th))
  unfolding advance write move_label end_label answer map_step
  move-Allows _ at at_idle =
      plain view s m v t _ (owns_nothing_more view s m v t) at_idle
        (resting view s m v t idle (no_key_left view s m v t) refl) refl refl
  move-Allows _ at (at_begun op a) = begun-Allows view s m v t op at a
  move-Allows _ at (at_visiting op prev pn curr a b i w) =
      visiting-Allows view s m v t op prev pn curr at a b i w (s.nodes.tagged curr) refl
  move-Allows _ at (at_cleaning op sought prev pn curr a b w d) =
      cleaning-Allows view s m v t op sought prev pn curr at a b w d
  move-Allows _ at (at_unlinking op prev curr next a b p u e) =
      unlinking-Allows view s m v t op prev curr next at a b p u e
  move-Allows _ at (at_storing find key new prev curr x o b a) =
      storing-Allows view s m v t find key new prev curr at x o b a
  move-Allows _ at (at_linking find key new prev curr x o b a e g) =
      linking-Allows view s m v t find key new prev curr at x o b a e g
  move-Allows _ at (at_marking find key prev curr x b d) =
      marking-Allows view s m v t find key prev curr at x b d (s.nodes.tagged curr) refl
  move-Allows _ at (at_cutting prev curr next p q u e d) =
      cutting-Allows view s m v t prev curr next p q u e d
  move-Allows _ at (at_returning curr p d) =
      plain view s m v t _ (owns_nothing_more view s m v t) at_idle
        (resting view s m v t idle (no_key_left view s m v t) refl)
        (rw (opt_ptr_eq_lem (m.seen t) (some (s.nodes.value curr)) d) refl) refl

pub step-Allows :
    (e : Event) (view : ℕ → Bool) (s : System) (m : Map)
    → Inv view s m
    → Allows (step e s) m (label e s) (answer_label e s)
unfolding step label call_label event_label answer_label event_answer call next_access thread_of
    map_step
step-Allows e view s m v = elim (Bool-cases (is_idle (s.threads (thread_of e)))) [
  | inl q ↦ rw q (calls e)
  | inr q ↦ rw q (accesses e)
]
  where
    as_before : Allows s m internal internal
    as_before = record { view = view; map = m; first = refl; second = refl; inv = v }

    same_nodes : (t : ℕ) → Changes (owns (s.threads t)) view s.nodes m.items view s.nodes m.items
    same_nodes t = no_change (owns (s.threads t)) view s.nodes m.items v.shape v.related

    calls : (f : Event) → Allows (call f s) m (call_label f) internal
    calls (call_get t kind key) =
        call-Allows view s m v t (get (get_find kind) key) s.nodes (same_nodes t)
          (any_get (get_find kind) key) (λ n e. absurd (none≢some n e))
    calls (call_remove t kind key) =
        call-Allows view s m v t (remove (update_find kind) key) s.nodes (same_nodes t)
          (a_remove (update_find kind) key (update_find-Exact kind)) (λ n e. absurd (none≢some n e))
    calls (call_insert t kind key x) = insert_call-Allows view s m v t kind key x
    calls (move t) = as_before

    accesses : (f : Event) → Allows (next_access f s) m (event_label f s) (event_answer f s)
    accesses (call_get t kind key) = as_before
    accesses (call_remove t kind key) = as_before
    accesses (call_insert t kind key x) = as_before
    accesses (move t) = move-Allows view s m v t (s.threads t) refl (v.knows t)

-- The calls so far have been served, and what is left of them fits the threads.
pub record Served (s : System) (calls : Option (ℕ → Pending)) : Type 0 where
  pub after : ℕ → Pending
  pub allowed : calls ≡ some after
  pub agrees : Agrees s after

run-Refines :
    (events : List Event) (view : ℕ → Bool) (s : System) (m : Map) (ps : ℕ → Pending)
    → Inv view s m
    → Agrees s ps
    → Refines (run events s) (map_run (trace events s) m)
      × Served (run events s) (due_run (trace events s) ps)
unfolding run trace map_run due_run Option.bind
run-Refines [] view s m ps v a = (
  record { view = view; map = m; allowed = refl; inv = v },
  record { after = ps; allowed = refl; agrees = a },
)
run-Refines (e ∷ events) view s m ps v a =
    let r = step-Allows e view s m v in
    let w = step-Answers view s m v ps a e in
    let (rest, calls) = run-Refines events r.view (step e s) r.map w.after r.inv w.agrees in
    let later = map_run (trace events (step e s)) in
    (
      subst
          (λ (x : Option Map).
            Refines (run events (step e s))
              (Option.bind x (λ (m2 : Map). Option.bind (map_step (answer_label e s) m2) later)))
          (sym r.first)
          (subst (λ (x : Option Map). Refines (run events (step e s)) (Option.bind x later))
            (sym r.second) rest),
      rw (w.first, w.second) calls,
    )

pub initial-Inv : Inv (λ n. n == 0) initial empty_map
unfolding rank
initial-Inv = record {
  shape = record {
    head = zero_is;
    old = λ n p. omega (arith, first n p);
    inside = λ n m p e. absurd (none≢some m e);
    ordered = λ n m p e. absurd (none≢some m e);
    reached = λ n p u. subst (λ (x : ℕ). Chain (λ y. none) 0 x) (sym (first n p)) (here 0);
  };
  related = record {
    present = λ n p u l. absurd (low n (first n p) l);
    absent = λ k x e. absurd (none≢some x e);
  };
  knows = λ t. at_idle;
  tracks = λ t.
      resting-Tracks (λ n. n == 0) new_list (λ _. none) 0 true idle (λ k e. absurd (none≢some k e))
        (λ e. absurd (true≢false e)) refl;
  one_owner = λ t u n p q. absurd (none≢some n p);
}
  where
    zero_is : (0 == 0) ≡ true
    zero_is = ground arith

    first : (n : ℕ) → (n == 0) ≡ true → n ≡ 0
    first n p = ground (arith, p)

    low : (n : ℕ) → n ≡ 0 → ¬ (0 < (if n == 0 then 0 else 1))
    low n e l = ground (arith, e, l)

pub lists-Refines :
    (events : List Event)
    → Refines (run events initial) (map_run (trace events initial) empty_map)
      × Served (run events initial) (due_run (trace events initial) (λ t. outside))
lists-Refines events =
    run-Refines events (λ n. n == 0) initial empty_map (λ t. outside) initial-Inv (λ t. due_idle)

Knows-calm :
    (view : ℕ → Bool) (h : Nodes) (seen : Option ℕ) (th : Thread)
    → Knows view h seen th
    → th ≢ panicked
Knows-calm view h seen _ at_idle e = cc
Knows-calm view h seen _ (at_begun op a) e = cc
Knows-calm view h seen _ (at_visiting op prev pn curr a b i w) e = cc
Knows-calm view h seen _ (at_cleaning op answer prev pn curr a b w d) e = cc
Knows-calm view h seen _ (at_unlinking op prev curr next a b p u f) e = cc
Knows-calm view h seen _ (at_storing find key new prev curr x o b a) e = cc
Knows-calm view h seen _ (at_linking find key new prev curr x o b a f g) e = cc
Knows-calm view h seen _ (at_marking find key prev curr x b d) e = cc
Knows-calm view h seen _ (at_cutting prev curr next p q u f d) e = cc
Knows-calm view h seen _ (at_returning curr p d) e = cc

-- In no interleaving does a thread panic: the nodes that `get` and `remove` unwrap are there.
pub lists_never_panic : (events : List Event) (t : ℕ) → (run events initial).threads t ≢ panicked
lists_never_panic events t =
    let r = (lists-Refines events).0 in
    Knows-calm r.view (run events initial).nodes (r.map.seen t) _ (r.inv.knows t)
