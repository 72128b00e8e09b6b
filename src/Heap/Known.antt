-- ===== src/Heap/Known.antt =====
-- src/pointers.rs, src/collector.rs: what each thread knows of the heap, and the invariant of tracing.
use mathlib.Core.List.{Memᴰ}
use cdpt.Base.{ℕ, true, ◌≡◌, ◌≢◌, ◌⊎◌, inl, inr, List, [], ◌∷◌}
use cdpt.Epoch.{Color, flip}
use cdpt.Ptr.{rooted, unrooted}
use cdpt.Heap.{
  Link, Target, Op, Thread, idle, begun, counting, rooted_cas, unrooted_cas, dropping, shading,
  unrooting, checking, marking, mark_shade, mark_cas, Heap, ptrs_differ, link_color,
}
use cdpt.Heap.Events.{System}
use cdpt.Heap.Protected.{Safe, Protected, Keeps, Protected-Keeps}

module _ (black : Color) where
  -- A link is not in the color of the last cycle: rooted, or black. It never gets that color again.
  abbrev pub NotWhite : Heap → ℕ → Type 0
  NotWhite h l = (h.links l).meta ≢ unrooted (flip black)

  abbrev pub NotRooted : Heap → ℕ → Type 0
  NotRooted h l = (h.links l).meta ≢ rooted

  module _ (outgoing : ℕ → List ℕ) where
    -- A thread may load the link: it is not white, or belongs to a protected object.
    abbrev pub Access : Heap → (ℕ → Thread) → ℕ → Type 0
    Access h threads l =
        NotWhite h l ⊎ ((p : ℕ) × Protected black outgoing h threads p × Memᴰ l (outgoing p))

    -- No link of the object is white but those that are left.
    abbrev pub LinksDone : Heap → ℕ → List ℕ → Type 0
    LinksDone h o left = (l : ℕ) → Memᴰ l (outgoing o) → NotWhite h l ⊎ Memᴰ l left

    -- `at_barrier` is a thread at the insertion barrier, after which the new object is safe.
    pub data Knows (h : Heap) (threads : ℕ → Thread) : Thread → Type 0 where
      at_idle : Knows h threads idle
      at_begun :
          (op : Op) (l : ℕ) (new : Target)
          → Access h threads l
          → Protected black outgoing h threads new.obj
          → Knows h threads (begun op l new)
      at_counting :
          (op : Op) (l : ℕ) (new : Target) (old : Link)
          → Access h threads l
          → Protected black outgoing h threads new.obj
          → old.meta ≡ rooted
          → Knows h threads (counting op l new old)
      at_rooted_cas :
          (op : Op) (l : ℕ) (new : Target) (old : Link)
          → Access h threads l
          → Protected black outgoing h threads new.obj
          → old.meta ≡ rooted
          → Knows h threads (rooted_cas op l new old)
      at_unrooted_cas :
          (op : Op) (l : ℕ) (new : Target) (old : Link)
          → Access h threads l
          → Protected black outgoing h threads new.obj
          → NotRooted h l
          → old.meta ≢ rooted
          → (ptrs_differ old new ≡ true
              → link_color old.meta ≡ black
              → Safe black h threads new.obj)
          → Knows h threads (unrooted_cas op l new old)
      at_barrier :
          (op : Op) (l : ℕ) (new : Target) (old : Link)
          → Access h threads l
          → Protected black outgoing h threads new.obj
          → NotRooted h l
          → old.meta ≢ rooted
          → Knows h threads (shading new.obj (unrooted_cas op l new old))
      at_dropping :
          (o : ℕ) (after : Thread) → Knows h threads after → Knows h threads (dropping o after)
      at_shading :
          (o : ℕ) (after : Thread) → Knows h threads after → Knows h threads (shading o after)
      at_unrooting :
          (l : ℕ) (old : Link)
          → NotWhite h l
          → Protected black outgoing h threads old.obj
          → Knows h threads (unrooting l old)
      at_checking : (o : ℕ) → Knows h threads (checking o)
      at_marking : (o : ℕ) (left : List ℕ) → LinksDone h o left → Knows h threads (marking o left)
      at_mark_shade :
          (o l : ℕ) (left : List ℕ) (seen : Link)
          → LinksDone h o (l ∷ left)
          → Knows h threads (mark_shade o l left seen)
      at_mark_cas :
          (o l : ℕ) (left : List ℕ) (seen : Link)
          → LinksDone h o (l ∷ left)
          → Safe black h threads seen.obj
          → Knows h threads (mark_cas o l left seen)

    -- Whatever a thread can get at is protected, and a marked object has no white link.
    pub record Inv (s : System) : Type 0 where
      pub targets :
          (l : ℕ)
          → NotWhite s.heap l
          → Protected black outgoing s.heap s.threads (s.heap.links l).obj
      pub done : (p : ℕ) → s.heap.color p ≡ black → LinksDone s.heap p []
      pub locals : (t o : ℕ) → Memᴰ o (s.locals t) → Protected black outgoing s.heap s.threads o
      pub knows : (t : ℕ) → Knows s.heap s.threads (s.threads t)
      pub null : s.heap.color 0 ≡ black

    -- Links change only in the ways that the program allows.
    pub record LinkSteps (h after : Heap) : Type 0 where
      pub not_white : (l : ℕ) → NotWhite h l → NotWhite after l
      pub not_rooted : (l : ℕ) → NotRooted h l → NotRooted after l

    -- What a thread knows stays true.
    module _ (h after : Heap) (threads next : ℕ → Thread)
        (k : Keeps black outgoing h threads after next) (x : LinkSteps h after) where
      pub kept :
          (o : ℕ) → Protected black outgoing h threads o → Protected black outgoing after next o
      kept o p = Protected-Keeps black outgoing h threads after next k o p

      pub Access-kept : (l : ℕ) → Access h threads l → Access after next l
      Access-kept l (inl w) = inl (x.not_white l w)
      Access-kept l (inr (p, guarded, m)) = inr (p, kept p guarded, m)

      pub LinksDone-kept : (o : ℕ) (left : List ℕ) → LinksDone h o left → LinksDone after o left
      LinksDone-kept o left d l m = elim (d l m) [
        | inl w ↦ inl (x.not_white l w)
        | inr later ↦ inr later
      ]

      pub Knows-kept : (th : Thread) → Knows h threads th → Knows after next th
      Knows-kept _ at_idle = at_idle
      Knows-kept _ (at_begun op l new a p) = at_begun op l new (Access-kept l a) (kept new.obj p)
      Knows-kept _ (at_counting op l new old a p e) =
          at_counting op l new old (Access-kept l a) (kept new.obj p) e
      Knows-kept _ (at_rooted_cas op l new old a p e) =
          at_rooted_cas op l new old (Access-kept l a) (kept new.obj p) e
      Knows-kept _ (at_unrooted_cas op l new old a p u e b) =
          at_unrooted_cas op l new old (Access-kept l a) (kept new.obj p) (x.not_rooted l u) e
            (λ d c. k.safe new.obj (b d c))
      Knows-kept _ (at_barrier op l new old a p u e) =
          at_barrier op l new old (Access-kept l a) (kept new.obj p) (x.not_rooted l u) e
      Knows-kept _ (at_dropping o th d) = at_dropping o th (Knows-kept th d)
      Knows-kept _ (at_shading o th d) = at_shading o th (Knows-kept th d)
      Knows-kept _ (at_unrooting l old w p) = at_unrooting l old (x.not_white l w) (kept old.obj p)
      Knows-kept _ (at_checking o) = at_checking o
      Knows-kept _ (at_marking o left d) = at_marking o left (LinksDone-kept o left d)
      Knows-kept _ (at_mark_shade o l left seen d) =
          at_mark_shade o l left seen (LinksDone-kept o (l ∷ left) d)
      Knows-kept _ (at_mark_cas o l left seen d p) =
          at_mark_cas o l left seen (LinksDone-kept o (l ∷ left) d) (k.safe seen.obj p)
