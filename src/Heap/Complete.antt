-- ===== src/Heap/Complete.antt =====
-- src/pointers.rs, src/collector.rs: what a cycle of tracing has marked when it ends.
use mathlib.Core.List.{Memᴰ}
use mathlib.Core.Path.{subst}
use cdpt.Base.{
  ℕ, ◌<◌, ◌≡◌, sym, ap, ◌∙◌, inl, inr, true, false, some, List, [], ◌∷◌, update, update_self,
  update-ne, ℕ_discrete, Bool-cases,
}
use cdpt.Epoch.{Color, flip}
use cdpt.Ptr.{rooted, unrooted}
use cdpt.Heap.{Thread, idle, unrooted_cas, Heap, ptrs_differ, link_color}
use cdpt.Heap.Events.{
  System, is_idle, local_at, Event, call, load, move, alloc, unroot, clone, drop, scan, take_task,
  forget, idle_step, thread_of, access, step, run,
}
use cdpt.Heap.Protected.{
  Holds, Safe, is_black, has_task, in_hand, Protected, is_safe, with_root, with_hazard, along,
}
use cdpt.Heap.Known.{
  NotWhite, Knows, at_idle, at_begun, at_counting, at_rooted_cas, at_unrooted_cas, at_barrier,
  at_dropping, at_shading, at_unrooting, at_checking, at_marking, at_mark_shade, at_mark_cas, Inv,
}
use cdpt.Heap.Updates.{rooted≢unrooted}
use cdpt.Heap.Locals.{local_at-Protected}
use cdpt.Heap.Steps.{idle_thread, next_access-Inv}
use cdpt.Heap.Mutators.{
  call_update-Inv, load_link-Inv, alloc_local-Inv, unroot_link-Inv, drop_link-Inv,
}
use cdpt.Heap.Tracing.{new_shared-Inv, scan_object-Inv, pop_task-Inv}

-- An object that a thread has a `Local` of, that a rooted link leads to, or that a link of such an
-- object leads to.
pub data Reachable (outgoing : ℕ → List ℕ) (s : System) : ℕ → Type 0 where
  by_local : (t o : ℕ) → Memᴰ o (s.locals t) → Reachable outgoing s o
  by_root : (l : ℕ) → (s.heap.links l).meta ≡ rooted → Reachable outgoing s (s.heap.links l).obj
  by_link :
      (p l : ℕ)
      → Reachable outgoing s p
      → Memᴰ l (outgoing p)
      → Reachable outgoing s (s.heap.links l).obj

-- Tracing is over: no thread has an object in hand that it shades or marks, no mark task is left, and
-- no object waits for its scan. Threads may be within other steps of their operations.
pub record Finished (s : System) : Type 0 where
  pub threads : (t o : ℕ) → ¬ Holds (s.threads t) o
  pub tasks : s.heap.tasks ≡ []
  pub scanned : (o : ℕ) → s.heap.unscanned o ≡ false

module _ (black : Color) where
  -- What a thread has shaded before it stores it in a black link.
  unfoldable pub Barrier : Heap → (ℕ → Thread) → Thread → Type 0
  Barrier h threads (unrooted_cas op l new old) =
      ptrs_differ old new ≡ true → link_color old.meta ≡ black → Safe black h threads new.obj
  Barrier h threads _ = Unit {0}

  module _ (outgoing : ℕ → List ℕ) where
    -- Marked already, sure to be marked when it is scanned or its mark task is done, or reached by a
    -- white link from such an object.
    pub data Live (h : Heap) : ℕ → Type 0 where
      live_black : (o : ℕ) → h.color o ≡ black → Live h o
      live_root : (o : ℕ) → h.unscanned o ≡ true → 0 < h.root_count o → Live h o
      live_hazard : (o : ℕ) → h.unscanned o ≡ true → h.hazard o ≡ true → Live h o
      live_task : (o : ℕ) → Memᴰ o h.tasks → Live h o
      live_link :
          (p l o : ℕ)
          → Live h p
          → Memᴰ l (outgoing p)
          → (h.links l).obj ≡ o
          → (h.links l).meta ≡ unrooted (flip black)
          → Live h o

    -- A state from which tracing goes on, with every mutator pinned in a tracing phase: each thread is
    -- between two operations or within one, the rooted and the black links and the `Local`s lead to live
    -- objects, and the objects that are black already have no white link.
    pub record Ready (s : System) : Type 0 where
      pub threads : (t : ℕ) → Knows black outgoing s.heap s.threads (s.threads t)
      pub null : s.heap.color 0 ≡ black
      pub links : (l : ℕ) → NotWhite black s.heap l → Live s.heap (s.heap.links l).obj
      pub locals : (t o : ℕ) → Memᴰ o (s.locals t) → Live s.heap o
      pub blacks :
          (p l : ℕ) → s.heap.color p ≡ black → Memᴰ l (outgoing p) → NotWhite black s.heap l

    Live-Protected :
        (h : Heap) (threads : ℕ → Thread) (o : ℕ) → Live h o → Protected black outgoing h threads o
    Live-Protected h threads _ (live_black o e) = is_safe o (is_black e)
    Live-Protected h threads _ (live_root o u c) = with_root o u c
    Live-Protected h threads _ (live_hazard o u c) = with_hazard o u c
    Live-Protected h threads _ (live_task o m) = is_safe o (has_task m)
    Live-Protected h threads _ (live_link p l o path m e white) =
        along p l o (Live-Protected h threads p path) m e white

    Ready-Inv : (s : System) → Ready s → Inv black outgoing s
    Ready-Inv s r = record {
      targets = λ l w. Live-Protected s.heap s.threads (s.heap.links l).obj (r.links l w);
      done = λ p e l m. inl (r.blacks p l e m);
      locals = λ t o m. Live-Protected s.heap s.threads o (r.locals t o m);
      knows = r.threads;
      null = r.null;
    }

    forget-Inv :
        (s : System) (t : ℕ)
        → Inv black outgoing s
        → Inv black outgoing (record s { locals = update s.locals t [] })
    forget-Inv s t v = record {
      targets = v.targets;
      done = v.done;
      locals = λ u o m. elim (ℕ_discrete t u) [
        | yes same ↦
            let none_left =
              subst (Memᴰ o) (sym (ap (update s.locals t []) same) ∙ update_self s.locals t []) m in
            elim none_left [ ]
        | no differs ↦ v.locals u o (subst (Memᴰ o) (update-ne s.locals t u [] differs) m)
      ];
      knows = v.knows;
      null = v.null;
    }

    idle_step-Inv :
        (e : Event) (s : System)
        → Inv black outgoing s
        → s.threads (thread_of black outgoing e) ≡ idle
        → Inv black outgoing (idle_step black outgoing e s)
    unfolding idle_step thread_of
    idle_step-Inv (call t op l owner new tag) s v at =
        call_update-Inv black outgoing s t v at op l owner new tag
    idle_step-Inv (load t l owner) s v at = load_link-Inv black outgoing s t v l owner
    idle_step-Inv (move t spurious) s v at = v
    idle_step-Inv (alloc t obj) s v at = alloc_local-Inv black outgoing s t v at obj
    idle_step-Inv (unroot t l) s v at = unroot_link-Inv black outgoing s t v at l
    idle_step-Inv (clone t l k) s v at =
        new_shared-Inv black outgoing s t v at l (local_at (s.locals t) (some k))
          (local_at-Protected black outgoing s v t (some k))
    idle_step-Inv (drop t l) s v at = drop_link-Inv black outgoing s t v at l
    idle_step-Inv (scan t obj) s v at = scan_object-Inv black outgoing s t v at obj
    idle_step-Inv (take_task t i) s v at = pop_task-Inv black outgoing s t v at i
    idle_step-Inv (forget t) s v at = forget-Inv s t v

    access-Inv :
        (e : Event) (s : System)
        → Inv black outgoing s
        → Inv black outgoing (access black outgoing e s)
    unfolding access
    access-Inv (move t spurious) s v = next_access-Inv black outgoing s t spurious v
    access-Inv (call t op l owner new tag) s v = v
    access-Inv (load t l owner) s v = v
    access-Inv (alloc t obj) s v = v
    access-Inv (unroot t l) s v = v
    access-Inv (clone t l k) s v = v
    access-Inv (drop t l) s v = v
    access-Inv (scan t obj) s v = v
    access-Inv (take_task t i) s v = v
    access-Inv (forget t) s v = v

    step-Inv :
        (e : Event) (s : System)
        → Inv black outgoing s
        → Inv black outgoing (step black outgoing e s)
    unfolding step
    step-Inv e s v = elim (Bool-cases (is_idle (s.threads (thread_of black outgoing e)))) [
      | inl q ↦ rw q (idle_step-Inv e s v (idle_thread _ q))
      | inr q ↦ rw q (access-Inv e s v)
    ]

    pub run-Inv :
        (events : List Event) (s : System)
        → Inv black outgoing s
        → Inv black outgoing (run black outgoing events s)
    unfolding run
    run-Inv [] s v = v
    run-Inv (e ∷ events) s v = run-Inv events (step black outgoing e s) (step-Inv e s v)

    Knows-Barrier :
        (h : Heap) (threads : ℕ → Thread) (th : Thread)
        → Knows black outgoing h threads th
        → Barrier h threads th
    unfolding Barrier
    Knows-Barrier h threads _ (at_unrooted_cas op l new old a p u e b) = b
    Knows-Barrier h threads _ at_idle = tt
    Knows-Barrier h threads _ (at_begun op l new a p) = tt
    Knows-Barrier h threads _ (at_counting op l new old a p e) = tt
    Knows-Barrier h threads _ (at_rooted_cas op l new old a p e) = tt
    Knows-Barrier h threads _ (at_barrier op l new old a p u e) = tt
    Knows-Barrier h threads _ (at_dropping o th k) = tt
    Knows-Barrier h threads _ (at_shading o th k) = tt
    Knows-Barrier h threads _ (at_unrooting l old w p) = tt
    Knows-Barrier h threads _ (at_checking o) = tt
    Knows-Barrier h threads _ (at_marking o left d) = tt
    Knows-Barrier h threads _ (at_mark_shade o l left seen d) = tt
    Knows-Barrier h threads _ (at_mark_cas o l left seen d p) = tt

    -- In every interleaving of mutators and tracing threads, all pinned in a tracing phase, from a ready
    -- state on, no link of a marked object is white: each is rooted or black. What such a link leads to
    -- is protected: it is marked, has a mark task or is in the hands of a thread that shades or marks
    -- it, waits for its scan with a root or a hazard pointer, or a chain of white links leads to it from
    -- such an object. A thread that is about to store another object in a black link by a
    -- compare-exchange has shaded it: that object is marked, has a mark task or is in a thread's hands.
    pub tricolor :
        (events : List Event) (s : System) (p l t : ℕ)
        → Ready s
        → (run black outgoing events s).heap.color p ≡ black
        → Memᴰ l (outgoing p)
        → NotWhite black (run black outgoing events s).heap l
          × Protected black outgoing
              (run black outgoing events s).heap
              (run black outgoing events s).threads
              ((run black outgoing events s).heap.links l).obj
          × Barrier
              (run black outgoing events s).heap
              (run black outgoing events s).threads
              ((run black outgoing events s).threads t)
    tricolor events s p l t r e m =
        let v = run-Inv events s (Ready-Inv s r) in
        let b = Knows-Barrier _ _ _ (v.knows t) in
        elim (v.done p e l m) [ inl w ↦ (w, v.targets l w, b) | inr later ↦ elim later [ ] ]

    module _ (s : System) (v : Inv black outgoing s) (f : Finished s) where
      Safe-black : (o : ℕ) → Safe black s.heap s.threads o → s.heap.color o ≡ black
      Safe-black o (is_black e) = e
      Safe-black o (has_task m) = elim (subst (Memᴰ o) f.tasks m) [ ]
      Safe-black o (in_hand t held) = absurd (f.threads t o held)

      not_white : (p l : ℕ) → s.heap.color p ≡ black → Memᴰ l (outgoing p) → NotWhite black s.heap l
      not_white p l e m = elim (v.done p e l m) [ inl w ↦ w | inr later ↦ elim later [ ] ]

      Protected-black :
          (o : ℕ) → Protected black outgoing s.heap s.threads o → s.heap.color o ≡ black
      Protected-black o (is_safe _ p) = Safe-black o p
      Protected-black o (with_root _ u c) = let w = f.scanned o in cc
      Protected-black o (with_hazard _ u c) = let w = f.scanned o in cc
      Protected-black o (along p l _ guarded m e white) =
          absurd (not_white p l (Protected-black p guarded) m white)

      Reachable-black : (o : ℕ) → Reachable outgoing s o → s.heap.color o ≡ black
      Reachable-black o (by_local t _ m) = Protected-black o (v.locals t o m)
      Reachable-black _ (by_root l m) =
          Protected-black (s.heap.links l).obj
            (v.targets l (λ e. rooted≢unrooted (flip black) (sym m ∙ e)))
      Reachable-black _ (by_link p l path m) =
          Protected-black (s.heap.links l).obj
            (v.targets l (not_white p l (Reachable-black p path) m))

    -- In every interleaving of mutators and tracing threads, all pinned in a tracing phase, from a ready
    -- state to one in which no thread shades or marks an object, no mark task is left and no object
    -- waits for its scan, each object that is reachable there is marked.
    pub Reachable-marked :
        (events : List Event) (s : System) (o : ℕ)
        → Ready s
        → Finished (run black outgoing events s)
        → Reachable outgoing (run black outgoing events s) o
        → (run black outgoing events s).heap.color o ≡ black
    Reachable-marked events s o r f path =
        Reachable-black (run black outgoing events s) (run-Inv events s (Ready-Inv s r)) f o path
