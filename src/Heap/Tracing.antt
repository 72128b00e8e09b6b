-- ===== src/Heap/Tracing.antt =====
-- src/pointers.rs, src/collector.rs: new roots, the scan of fresh objects, and mark tasks keep the
-- invariant of tracing.

use mathlib.Core.Path.{subst}
use cdpt.Base.{
  ℕ, ◌+◌, ◌<◌, ◌≡◌, refl, sym, ap, ◌∙◌, arith, inl, inr, Bool, true, false, not, ◌&&◌, ◌||◌, ◌==◌,
  ltb, some, List, get_elem?, update, update-ne, ℕ_discrete, Bool-cases, Option-cases,
}
use cdpt.Epoch.{Color, flip}
use cdpt.Ptr.{rooted}
use cdpt.Heap.{Thread, idle, checking, marking, Heap, same_link}
use cdpt.Heap.Events.{
  System, null_rooted, remove_at, set_thread, set_heap, new_shared, scan_object, pop_task,
}
use cdpt.Heap.Protected.{
  Holds, holds_checking, holds_marking, Safe, has_task, Protected, is_safe, with_root, with_hazard,
}
use cdpt.Heap.Known.{Knows, at_idle, at_checking, at_marking, Inv}
use cdpt.Heap.Changes.{Change, Safe-Change, now-Holds, link-Change}
use cdpt.Heap.Headers.{header-Change, counted, count-Change}
use cdpt.Heap.Updates.{rooted≢unrooted, same_link-parts}
use cdpt.Heap.Locals.{Memᴰ-remove_at}
use cdpt.Heap.Steps.{still, thread-Inv}
use cdpt.Heap.Mutators.{idle_own, stay-Inv, update_same, and_first, rooted-NotWhite}

module _ (black : Color) (outgoing : ℕ → List ℕ) (s : System) (t : ℕ) (v : Inv black outgoing s)
    (at : s.threads t ≡ idle) where
  module _ (l obj : ℕ) (p : Protected black outgoing s.heap s.threads obj)
      (h : same_link (s.heap.links l) null_rooted ≡ true) where
    abbrev more_roots : Heap
    more_roots = counted black outgoing s t (s.threads t) obj (s.heap.root_count obj + 1)

    abbrev with_roots : System
    with_roots = record { heap = more_roots; threads = s.threads; locals = s.locals }

    roots-Change : Change black outgoing s t (s.threads t) more_roots
    roots-Change =
        count-Change black outgoing s t (s.threads t) obj (s.heap.root_count obj + 1) v
          (λ o held. idle_own black outgoing s t v at o _ held) (λ c. inl (omega arith)) (v.knows t)

    roots-Inv : Inv black outgoing with_roots
    roots-Inv =
        stay-Inv black outgoing s t v more_roots s.locals
          (thread-Inv black outgoing s t (s.threads t) more_roots v roots-Change)

    new_link-Inv : Inv black outgoing (
        set_heap
          (record s.heap {
            links = update s.heap.links l (record { obj = obj; meta = rooted; tag = 0 });
            root_count = update s.heap.root_count obj (s.heap.root_count obj + 1);
          })
          s)
    unfolding set_heap
    new_link-Inv =
        let (o, m) = same_link-parts (s.heap.links l) null_rooted h in
        let w = rooted-NotWhite black outgoing s t v l m in
        stay-Inv black outgoing with_roots t roots-Inv _ s.locals (
          thread-Inv black outgoing with_roots t (s.threads t) _ roots-Inv (
            link-Change black outgoing with_roots t (s.threads t) l
              (record { obj = obj; meta = rooted; tag = 0 }) roots-Inv
              (λ x held. idle_own black outgoing s t v at x _ held)
              (λ n. rooted≢unrooted (flip black)) (λ u. absurd (u m))
              (λ n.
                subst (λ (x : ℕ → Thread). Protected black outgoing more_roots x obj)
                  (update_same s.threads t)
                  (still black outgoing s t (s.threads t) more_roots roots-Change obj p))
              (λ white. absurd (w white))
              (λ steps. subst (Knows black outgoing _ _) (sym at) at_idle)))

  pub new_shared-Inv :
      (l obj : ℕ)
      → Protected black outgoing s.heap s.threads obj
      → Inv black outgoing (new_shared black outgoing l obj s)
  unfolding new_shared
  new_shared-Inv l obj p =
      elim (Bool-cases (same_link (s.heap.links l) null_rooted && not (obj == 0))) [
        | inl q ↦
            rw q (new_link-Inv l obj p (and_first (same_link (s.heap.links l) null_rooted) _ q))
        | inr q ↦ rw q v
      ]

  pub pop_task-Inv :
      (i : ℕ) → Inv black outgoing (pop_task black outgoing (get_elem? s.heap.tasks i) t i s)
  unfolding pop_task set_thread set_heap
  pop_task-Inv i = elim (Option-cases (get_elem? s.heap.tasks i)) [
    | inl e ↦ rw e v
    | inr (o, e) ↦ rw e (thread-Inv black outgoing s t (checking o) _ v (popped o e))
  ]
    where
      popped :
          (o : ℕ)
          → get_elem? s.heap.tasks i ≡ some o
          → Change black outgoing s t
              (checking o)
              (record s.heap { tasks = remove_at i s.heap.tasks })
      popped o e =
          let after : Heap = record s.heap { tasks = remove_at i s.heap.tasks } in
          let hold = now-Holds black outgoing s t (checking o) after o (holds_checking o) in
          header-Change black outgoing s t (checking o) after (λ l. refl) v
            (Safe-Change black outgoing s t (checking o) after (λ x f. f)
              (λ x m. elim (Memᴰ-remove_at s.heap.tasks i o e x m) [
                | inl same ↦ subst (Safe black after (update s.threads t (checking o))) same hold
                | inr rest ↦ has_task rest
              ])
              (λ x held. idle_own black outgoing s t v at x _ held))
            (λ x u c. with_root x u c) (λ x u c. with_hazard x u c) (λ x f. inl f) v.null
            (λ keeps links. at_checking o)

  module _ (obj : ℕ) where
    abbrev scanned : Heap
    scanned = record s.heap { unscanned = update s.heap.unscanned obj false }

    -- An object with a root or a hazard pointer is marked, whatever the header says.
    scanned-Change :
        (th : Thread)
        → Knows black outgoing scanned (update s.threads t th) th
        → (0 < s.heap.root_count obj → Holds th obj)
        → (s.heap.hazard obj ≡ true → Holds th obj)
        → Change black outgoing s t th scanned
    scanned-Change th k root hazard =
        header-Change black outgoing s t th scanned (λ l. refl) v
          (Safe-Change black outgoing s t th scanned (λ x f. f) (λ x m. has_task m)
            (λ x held. idle_own black outgoing s t v at x _ held))
          (λ x u c. elim (ℕ_discrete obj x) [
            | yes same ↦
                here x same (root (subst (λ (y : ℕ). 0 < s.heap.root_count y) (sym same) c))
            | no differs ↦ with_root x (update-ne s.heap.unscanned obj x false differs ∙ u) c
          ])
          (λ x u c. elim (ℕ_discrete obj x) [
            | yes same ↦ here x same (hazard (ap s.heap.hazard same ∙ c))
            | no differs ↦ with_hazard x (update-ne s.heap.unscanned obj x false differs ∙ u) c
          ])
          (λ x f. inl f) v.null (λ keeps links. k)
      where
        here :
            (x : ℕ)
            → obj ≡ x
            → Holds th obj
            → Protected black outgoing scanned (update s.threads t th) x
        here x same held = is_safe x (
            subst (Safe black scanned (update s.threads t th)) same
              (now-Holds black outgoing s t th scanned obj held))

    pub scan_object-Inv : Inv black outgoing (scan_object black outgoing t obj s)
    unfolding scan_object set_thread set_heap
    scan_object-Inv = elim (Bool-cases (s.heap.unscanned obj)) [
      | inl q ↦ elim (Bool-cases (ltb 0 (s.heap.root_count obj) || s.heap.hazard obj)) [
        | inl live ↦
            rw (q, live)
              (thread-Inv black outgoing s t _ scanned v (
                scanned-Change (marking obj (outgoing obj))
                  (at_marking obj (outgoing obj) (λ l m. inr m))
                  (λ c. holds_marking obj (outgoing obj)) (λ c. holds_marking obj (outgoing obj))))
        | inr dead ↦
            rw (q, dead)
              (thread-Inv black outgoing s t idle scanned v (
                scanned-Change idle at_idle
                  (λ c. absurd (no_root (s.heap.root_count obj) (s.heap.hazard obj) dead c))
                  (λ c.
                    absurd (no_hazard (ltb 0 (s.heap.root_count obj)) (s.heap.hazard obj) dead c))))
      ]
      | inr q ↦ rw q v
    ]
      where
        no_root : (n : ℕ) (b : Bool) → (ltb 0 n || b) ≡ false → ¬ (0 < n)
        no_root n b e c = ground (arith, e, c)

        no_hazard : (a b : Bool) → (a || b) ≡ false → ¬ (b ≡ true)
        no_hazard true b e c = cc
        no_hazard false b e c = cc
