-- ===== src/Heap/Steps.antt =====
-- src/pointers.rs, src/collector.rs: every event keeps the invariant of tracing.

use mathlib.Core.Path.{subst}
use cdpt.Base.{ℕ, ◌≡◌, refl, Bool, true, List, update}
use cdpt.Epoch.{Color}
use cdpt.Heap.{
  Thread, idle, begun, dropping, unrooting, checking, marking, Heap, advance, write, reads,
}
use cdpt.Heap.Events.{System, is_idle, next_access}
use cdpt.Heap.Protected.{Holds, Protected}
use cdpt.Heap.Known.{
  Knows, at_idle, at_begun, at_counting, at_rooted_cas, at_unrooted_cas, at_barrier, at_dropping,
  at_shading, at_unrooting, at_checking, at_marking, at_mark_shade, at_mark_cas, Inv, kept,
}
use cdpt.Heap.Changes.{Change, Change-Inv, plain}
use cdpt.Heap.Cas.{
  nothing_held, empty_idle, begun-Change, counting-Change, rooted_cas-Change, unrooted_cas-Change,
  dropping-Change, shading-Change, barrier-Change, unrooting-Change,
}
use cdpt.Heap.Marking.{checking-Change, marking-Change, mark_shade-Change, mark_cas-Change}
use cdpt.Heap.Locals.{all_locals, reads-Protected}

pub idle_thread : (th : Thread) → is_idle th ≡ true → th ≡ idle
unfolding is_idle
idle_thread idle h = refl
idle_thread (begun op l new) h = cc
idle_thread (Thread.counting op l new old) h = cc
idle_thread (Thread.rooted_cas op l new old) h = cc
idle_thread (Thread.unrooted_cas op l new old) h = cc
idle_thread (dropping o th) h = cc
idle_thread (Thread.shading o th) h = cc
idle_thread (unrooting l old) h = cc
idle_thread (checking o) h = cc
idle_thread (marking o left) h = cc
idle_thread (Thread.mark_shade o l left seen) h = cc
idle_thread (Thread.mark_cas o l left seen) h = cc

module _ (black : Color) (outgoing : ℕ → List ℕ) (s : System) (t : ℕ) where
  -- The next access of a thread, whatever it stands before.
  move-Change :
      (spurious : Bool) (th : Thread)
      → Inv black outgoing s
      → s.threads t ≡ th
      → Knows black outgoing s.heap s.threads th
      → Change black outgoing s t
          (advance black outgoing spurious s.heap th)
          (write black spurious s.heap th)
  unfolding advance write
  move-Change sp _ v at at_idle = plain black outgoing s t idle v at_idle (λ o held.
      absurd (nothing_held idle empty_idle o (subst (λ (x : Thread). Holds x o) at held)))
  move-Change sp _ v at (at_begun op l new a p) = begun-Change black outgoing s t op l new v at a p
  move-Change sp _ v at (at_counting op l new old a p e) =
      counting-Change black outgoing s t op l new old v at a p e
  move-Change sp _ v at (at_rooted_cas op l new old a p e) =
      rooted_cas-Change black outgoing s t sp op l new old v a p at e
  move-Change sp _ v at (at_unrooted_cas op l new old a p u e b) =
      unrooted_cas-Change black outgoing s t sp op l new old v a p at u e
  move-Change sp _ v at (at_dropping o th k) = dropping-Change black outgoing s t o th v at k
  move-Change sp _ v at (at_shading o th k) = shading-Change black outgoing s t o th v at k
  move-Change sp _ v at (at_barrier op l new old a p u e) =
      barrier-Change black outgoing s t op l new old v at a p u e
  move-Change sp _ v at (at_unrooting l old w p) =
      unrooting-Change black outgoing s t l old v at w p
  move-Change sp _ v at (at_checking o) = checking-Change black outgoing s t o v at
  move-Change sp _ v at (at_marking o left d) = marking-Change black outgoing s t o v left at d
  move-Change sp _ v at (at_mark_shade o l left seen d) =
      mark_shade-Change black outgoing s t o v l left seen at d
  move-Change sp _ v at (at_mark_cas o l left seen d safe) =
      mark_cas-Change black outgoing s t o v sp l left seen at d safe

  -- What was protected stays so.
  pub still :
      (th : Thread) (after : Heap)
      → Change black outgoing s t th after
      → (o : ℕ) → Protected black outgoing s.heap s.threads o
      → Protected black outgoing after (update s.threads t th) o
  still th after c o p =
      kept black outgoing s.heap after s.threads (update s.threads t th) c.keeps c.links o p

  -- The locals stay.
  pub thread-Inv :
      (th : Thread) (after : Heap)
      → Inv black outgoing s
      → Change black outgoing s t th after
      → Inv black outgoing
          (record { heap = after; threads = update s.threads t th; locals = s.locals })
  thread-Inv th after v c =
      Change-Inv black outgoing s t th after s.locals v c
        (λ u o m. still th after c o (v.locals u o m))

  pub next_access-Inv :
      (spurious : Bool)
      → Inv black outgoing s
      → Inv black outgoing (next_access black outgoing t spurious s)
  unfolding next_access
  next_access-Inv sp v =
      let th = s.threads t in
      let c = move-Change sp th v refl (v.knows t) in
      Change-Inv black outgoing s t _ _ _ v c (
        all_locals
          (Protected black outgoing (write black sp s.heap th)
            (update s.threads t (advance black outgoing sp s.heap th)))
          s.locals t (reads s.heap th)
          (λ o m. still _ _ c o (reads-Protected black outgoing s v th (v.knows t) o m))
          (λ u o m. still _ _ c o (v.locals u o m)))
