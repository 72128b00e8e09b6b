-- ===== src/Heap/Protected.antt =====
-- src/pointers.rs, src/collector.rs: which objects are sure to be marked before tracing ends.
use mathlib.Core.List.{Memᴰ}
use mathlib.Core.Path.{subst}
use cdpt.Base.{ℕ, ◌<◌, ◌≡◌, ◌∙◌, ◌⊎◌, inl, inr, true, List}
use cdpt.Epoch.{Color, flip}
use cdpt.Ptr.{unrooted}
use cdpt.Heap.{Thread, shading, checking, marking, mark_shade, mark_cas, Heap, Link}

-- An object that a thread is about to shade or is marking.
pub data Holds : Thread → ℕ → Type 0 where
  holds_shading : (obj : ℕ) (after : Thread) → Holds (shading obj after) obj
  holds_checking : (obj : ℕ) → Holds (checking obj) obj
  holds_marking : (obj : ℕ) (left : List ℕ) → Holds (marking obj left) obj
  holds_shade : (obj l : ℕ) (left : List ℕ) (seen : Link) → Holds (mark_shade obj l left seen) obj
  holds_cas : (obj l : ℕ) (left : List ℕ) (seen : Link) → Holds (mark_cas obj l left seen) obj

module _ (black : Color) where
  -- A marked object, one with a mark task, or one in the hands of a thread.
  pub data Safe (h : Heap) (threads : ℕ → Thread) (o : ℕ) : Type 0 where
    is_black : h.color o ≡ black → Safe h threads o
    has_task : Memᴰ o h.tasks → Safe h threads o
    in_hand : (t : ℕ) → Holds (threads t) o → Safe h threads o

  module _ (outgoing : ℕ → List ℕ) where
    -- Such an object, one that waits for its scan with a root or a hazard pointer, or one that a link
    -- in the color of the last cycle leads to from a protected object.
    pub data Protected (h : Heap) (threads : ℕ → Thread) : ℕ → Type 0 where
      is_safe : (o : ℕ) → Safe h threads o → Protected h threads o
      with_root : (o : ℕ) → h.unscanned o ≡ true → 0 < h.root_count o → Protected h threads o
      with_hazard : (o : ℕ) → h.unscanned o ≡ true → h.hazard o ≡ true → Protected h threads o
      along :
          (p l o : ℕ)
          → Protected h threads p
          → Memᴰ l (outgoing p)
          → (h.links l).obj ≡ o
          → (h.links l).meta ≡ unrooted (flip black)
          → Protected h threads o

    -- A change keeps every object protected if it does so for those that are so by themselves, and for
    -- the targets of the links that it changes.
    pub record Keeps (h : Heap) (threads : ℕ → Thread) (after : Heap) (next : ℕ → Thread)
        : Type 0 where
      pub safe : (o : ℕ) → Safe h threads o → Safe after next o
      pub roots : (o : ℕ) → h.unscanned o ≡ true → 0 < h.root_count o → Protected after next o
      pub hazards : (o : ℕ) → h.unscanned o ≡ true → h.hazard o ≡ true → Protected after next o
      pub white_links :
          (l : ℕ)
          → (h.links l).meta ≡ unrooted (flip black)
          → (((after.links l).obj ≡ (h.links l).obj) × ((after.links l).meta ≡ (h.links l).meta))
            ⊎ Safe after next (h.links l).obj

    pub Protected-Keeps :
        (h : Heap) (threads : ℕ → Thread) (after : Heap) (next : ℕ → Thread)
        → Keeps h threads after next
        → (o : ℕ) → Protected h threads o
        → Protected after next o
    Protected-Keeps h threads after next k o (is_safe _ e) = is_safe o (k.safe o e)
    Protected-Keeps h threads after next k o (with_root _ u c) = k.roots o u c
    Protected-Keeps h threads after next k o (with_hazard _ u c) = k.hazards o u c
    Protected-Keeps h threads after next k o (along p l _ path m e white) =
        elim (k.white_links l white) [
          | inl (same, color) ↦
              along p l o (Protected-Keeps h threads after next k p path) m (same ∙ e)
                (color ∙ white)
          | inr there ↦ subst (Protected after next) e (is_safe (h.links l).obj there)
        ]
