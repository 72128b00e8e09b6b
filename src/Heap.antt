-- ===== src/Heap.antt =====
-- src/pointers.rs, src/collector.rs: links, root counts and the tracing of objects, from the point where
-- every mutator is pinned in a tracing phase up to the end of tracing. An event is one atomic access
-- of one thread, with the thread's own work up to the next one; a push to its own queue of mark tasks
-- belongs to the access before it.
mod Tests
pub mod Events
pub mod Protected
pub mod Known
pub mod Changes
pub mod Headers
pub mod Updates
pub mod Cas
pub mod Locals
pub mod Marking
pub mod Steps
pub mod Mutators
pub mod Tracing
pub mod Complete
use cdpt.Base.{
  ℕ, zero, suc, ◌+◌, ◌-◌, Bool, true, false, not, ◌&&◌, ◌||◌, ◌==◌, ltb, if◌then◌else◌, Option,
  none, some, List, [], ◌∷◌, get_elem?, update,
}
use cdpt.Epoch.{Color, c0, c1, color_eq, flip}
use cdpt.Ptr.{PtrMeta, rooted, unrooted, ptr_meta_eq}

-- A `ManPtr` by its three parts. An object is a number, 0 for null.
pub record Link : Type 0 where
  pub obj : ℕ
  pub meta : PtrMeta
  pub tag : ℕ

-- A `ManPtr` without metadata, as a `Local` with a tag gives it.
pub record Target : Type 0 where
  pub obj : ℕ
  pub tag : ℕ

-- `p.without_meta() == q`
abbrev pub same_target : Link → Target → Bool
same_target p q = (p.obj == q.obj) && (p.tag == q.tag)

-- `p.data == q.data`
abbrev pub same_link : Link → Link → Bool
same_link p q = (p.obj == q.obj) && ptr_meta_eq p.meta q.meta && (p.tag == q.tag)

abbrev pub is_rooted : Link → Bool
is_rooted p = ptr_meta_eq p.meta rooted

-- `new.with_meta(meta)`
abbrev pub with_meta : Target → PtrMeta → Link
with_meta new m = record { obj = new.obj; meta = m; tag = new.tag }

-- `unrooted_color_unchecked`: the color bit is clear in a rooted pointer.
abbrev pub link_color : PtrMeta → Color
link_color rooted = c0
link_color (unrooted c) = c

-- `swap`, and `compare_exchange` and `compare_exchange_weak` with what they expect.
pub data Op : Type 0 where
  swap : Op
  strong weak : (current : Target) → Op

-- Where a thread stands. `begun` comes before the first load of a link, `counting` before
-- `try_inc_raw`, `rooted_cas` and `unrooted_cas` before a compare-exchange. `dropping` comes before a
-- decrement of the root count and `shading` before `shade_pointee`, each with what follows. `checking`
-- is a mark task before its test, `marking` an object with the links that are left to shade, and
-- `mark_shade` and `mark_cas` come in `shade` of a link. `unrooting` is a link with the pointer that
-- `unroot` has loaded, before it is stored without root.
pub data Thread : Type 0 where
  idle : Thread
  begun : (op : Op) (l : ℕ) (new : Target) → Thread
  counting rooted_cas unrooted_cas : (op : Op) (l : ℕ) (new : Target) (old : Link) → Thread
  dropping shading : (obj : ℕ) (after : Thread) → Thread
  unrooting : (l : ℕ) (old : Link) → Thread
  checking : (obj : ℕ) → Thread
  marking : (obj : ℕ) (left : List ℕ) → Thread
  mark_shade mark_cas : (obj l : ℕ) (left : List ℕ) (seen : Link) → Thread

-- The links, the headers of the objects, the objects in `fresh_objs` that are not scanned yet, the
-- hazard pointers that the collector has read, and the mark tasks of all threads.
pub record Heap : Type 0 where
  pub links : ℕ → Link
  pub color : ℕ → Color
  pub root_count : ℕ → ℕ
  pub unscanned : ℕ → Bool
  pub hazard : ℕ → Bool
  pub allocated : ℕ → Bool
  pub tasks : List ℕ

-- Drops a `Shared` of `new`, if there is one.
abbrev pub drop_shared : ℕ → Thread → Thread
drop_shared obj after = if obj == 0 then after else dropping obj after

-- `old.as_ptr() != new.as_ptr()`
abbrev pub ptrs_differ : Link → Target → Bool
ptrs_differ old new = not (old.obj == new.obj)

-- `black` is the color of marked objects in this cycle.
module _ (black : Color) where
  -- `ManObj::is_marked`
  abbrev pub is_marked : Heap → ℕ → Bool
  is_marked h obj = color_eq (h.color obj) black

  -- `internal_cmpxchg_unrooted_once` up to its compare-exchange, with the insertion barrier.
  unfoldable pub unrooted_once : Op → ℕ → Target → Link → Thread
  unrooted_once op l new old =
      if ptrs_differ old new && color_eq (link_color old.meta) black
      then shading new.obj (unrooted_cas op l new old)
      else unrooted_cas op l new old

  -- The start of the rooted path: `try_inc_raw` of the new pointer.
  unfoldable pub rooted_path : Op → ℕ → Target → Link → Thread
  rooted_path op l new old = if new.obj == 0 then rooted_cas op l new old else counting op l new old

  unfoldable pub either_path : Op → ℕ → Target → Link → Thread
  either_path op l new old =
      if is_rooted old then rooted_path op l new old else unrooted_once op l new old

  -- After the first load of the link.
  unfoldable pub after_load : Op → ℕ → Target → Link → Thread
  after_load swap l new old = either_path swap l new old
  after_load (strong cur) l new old =
      if same_target old cur then either_path (strong cur) l new old else idle
  after_load (weak cur) l new old =
      if same_target old cur then either_path (weak cur) l new old else idle

  -- After a rooted compare-exchange that has found `current` instead.
  unfoldable pub rooted_lost : Op → ℕ → Target → Link → Thread
  rooted_lost swap l new current =
      if is_rooted current
      then rooted_cas swap l new current
      else drop_shared new.obj (unrooted_once swap l new current)
  rooted_lost (strong cur) l new current =
      if not (is_rooted current) && same_target current cur
      then drop_shared new.obj (unrooted_once (strong cur) l new current)
      else drop_shared new.obj idle
  rooted_lost (weak cur) l new current = drop_shared new.obj idle

  -- After an unrooted compare-exchange that has replaced `old`, with the deletion barrier.
  unfoldable pub unrooted_won : Target → Link → Thread
  unrooted_won new old =
      if ptrs_differ old new && color_eq (link_color old.meta) (flip black)
      then shading old.obj idle
      else idle

  -- After an unrooted compare-exchange that has found `current` instead of `old`.
  unfoldable pub unrooted_lost : Op → ℕ → Target → Link → Link → Thread
  unrooted_lost swap l new old current = unrooted_once swap l new current
  unrooted_lost (strong cur) l new old current =
      if same_target current (record { obj = old.obj; tag = old.tag })
      then unrooted_once (strong cur) l new current
      else idle
  unrooted_lost (weak cur) l new old current = idle

  -- Only a weak compare-exchange can fail for no reason.
  unfoldable pub can_fail : Op → Bool
  can_fail (weak cur) = true
  can_fail op = false

  unfoldable pub cas_wins : Bool → Op → Link → Link → Bool
  cas_wins spurious op found old = same_link found old && not (spurious && can_fail op)

  -- After the load of a link by `shade`.
  unfoldable pub see_link : ℕ → ℕ → List ℕ → Link → Thread
  see_link obj l left seen =
      if ptr_meta_eq seen.meta (unrooted black)
      then marking obj left
      else mark_shade obj l left seen

  unfoldable pub next_link : Heap → ℕ → List ℕ → Thread
  next_link h obj [] = idle
  next_link h obj (l ∷ left) = see_link obj l left (h.links l)

  -- `decrement_root_count` that has returned `prev`, and the deletion barrier of the root count. The
  -- global phase is not the normal one.
  unfoldable pub after_drop : ℕ → ℕ → Thread → Thread
  after_drop prev obj after = if prev == 1 then shading obj after else after

  abbrev pub black_link : Link → Link
  black_link p = record p { meta = unrooted black }

  module _ (outgoing : ℕ → List ℕ) where
    -- Where the thread stands after its next access.
    unfoldable pub advance : Bool → Heap → Thread → Thread
    advance spurious h idle = idle
    advance spurious h (begun op l new) = after_load op l new (h.links l)
    advance spurious h (counting op l new old) = rooted_cas op l new old
    advance spurious h (rooted_cas op l new old) =
        if cas_wins spurious op (h.links l) old
        then drop_shared old.obj idle
        else rooted_lost op l new (h.links l)
    advance spurious h (unrooted_cas op l new old) =
        if cas_wins spurious op (h.links l) old
        then unrooted_won new old
        else unrooted_lost op l new old (h.links l)
    advance spurious h (dropping obj after) = after_drop (h.root_count obj) obj after
    advance spurious h (shading obj after) = after
    advance spurious h (unrooting l old) = idle
    advance spurious h (checking obj) = if is_marked h obj then idle else marking obj (outgoing obj)
    advance spurious h (marking obj left) = next_link h obj left
    advance spurious h (mark_shade obj l left seen) = mark_cas obj l left seen
    advance spurious h (mark_cas obj l left seen) =
        if same_link (h.links l) seen then marking obj left else see_link obj l left (h.links l)

  -- `shade_pointee`
  unfoldable pub shade_pointee : ℕ → Heap → Heap
  shade_pointee obj h =
      if (obj == 0) || is_marked h obj then h else record h { tasks = obj ∷ h.tasks }

  -- A compare-exchange of link `l`.
  unfoldable pub cas_link : Bool → ℕ → Link → Heap → Heap
  cas_link wins l new h = if wins then record h { links = update h.links l new } else h

  -- `header.mark` after the last link.
  unfoldable pub finish_mark : ℕ → List ℕ → Heap → Heap
  finish_mark obj [] h = record h { color = update h.color obj black }
  finish_mark obj (l ∷ left) h = h

  -- What the access writes. A root count of 0 is never decremented.
  unfoldable pub write : Bool → Heap → Thread → Heap
  write spurious h idle = h
  write spurious h (begun op l new) = h
  write spurious h (counting op l new old) = record h {
    root_count = update h.root_count new.obj (h.root_count new.obj + 1);
  }
  write spurious h (rooted_cas op l new old) =
      cas_link (cas_wins spurious op (h.links l) old) l (with_meta new rooted) h
  write spurious h (unrooted_cas op l new old) =
      cas_link (cas_wins spurious op (h.links l) old) l
        (with_meta new (unrooted (link_color old.meta))) h
  write spurious h (dropping obj after) = record h {
    root_count = update h.root_count obj (h.root_count obj - 1);
  }
  write spurious h (shading obj after) = shade_pointee obj h
  write spurious h (unrooting l old) = record h { links = update h.links l (black_link old) }
  write spurious h (checking obj) = h
  write spurious h (marking obj left) = finish_mark obj left h
  write spurious h (mark_shade obj l left seen) = shade_pointee seen.obj h
  write spurious h (mark_cas obj l left seen) =
      cas_link (same_link (h.links l) seen) l (black_link seen) h

-- What the thread has read: the pointer that a load or a compare-exchange returns as a `Local`.
unfoldable pub reads : Heap → Thread → List ℕ
reads h (begun op l new) = (h.links l).obj ∷ []
reads h (rooted_cas op l new old) = (h.links l).obj ∷ []
reads h (unrooted_cas op l new old) = (h.links l).obj ∷ []
reads h thread = []
