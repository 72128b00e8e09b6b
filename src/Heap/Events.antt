-- ===== src/Heap/Events.antt =====
-- src/pointers.rs, src/collector.rs: what threads do with a heap that is being traced, as events.
use cdpt.Base.{
  ℕ, zero, suc, ◌+◌, Bool, true, false, not, ◌&&◌, ◌||◌, ◌==◌, ltb, if◌then◌else◌, Option, none,
  some, List, [], ◌∷◌, ◌++◌, get_elem?, update,
}
use cdpt.Epoch.{Color}
use cdpt.Ptr.{rooted}
use cdpt.Heap.{
  Link, Target, Op, Thread, idle, begun, dropping, unrooting, checking, marking, Heap, is_rooted,
  same_link, drop_shared, advance, write, reads,
}

-- `locals` are the objects that each thread has a `Local` of.
pub record System : Type 0 where
  pub heap : Heap
  pub threads : ℕ → Thread
  pub locals : ℕ → List ℕ

abbrev pub null_rooted : Link
null_rooted = record { obj = 0; meta = rooted; tag = 0 }

unfoldable pub is_idle : Thread → Bool
is_idle idle = true
is_idle thread = false

unfoldable pub contains : ℕ → List ℕ → Bool
contains x [] = false
contains x (y ∷ ys) = (x == y) || contains x ys

unfoldable pub all_rooted : Heap → List ℕ → Bool
all_rooted h [] = true
all_rooted h (l ∷ ls) = is_rooted (h.links l) && all_rooted h ls

unfoldable pub remove_at : ℕ → List ℕ → List ℕ
remove_at i [] = []
remove_at zero (x ∷ xs) = xs
remove_at (suc i) (x ∷ xs) = x ∷ remove_at i xs

-- A `Local` at a place of the list, or null.
unfoldable pub obj_at : Option ℕ → ℕ
obj_at none = 0
obj_at (some obj) = obj

unfoldable pub local_at : List ℕ → Option ℕ → ℕ
local_at locals none = 0
local_at locals (some k) = obj_at (get_elem? locals k)

unfoldable pub set_thread : ℕ → Thread → System → System
set_thread t th s = record s { threads = update s.threads t th }

unfoldable pub add_locals : ℕ → List ℕ → System → System
add_locals t objs s = record s { locals = update s.locals t (objs ++ s.locals t) }

unfoldable pub set_heap : Heap → System → System
set_heap h s = record s { heap = h }

pub data Event : Type 0 where
  -- `swap`, `compare_exchange` or `compare_exchange_weak` of link `l`, of a `Local` at place `owner` or
  -- outside of all objects, to a `Local` at place `new` or null with a tag
  call : (t : ℕ) (op : Op) (l : ℕ) (owner new : Option ℕ) (tag : ℕ) → Event
  -- `load` of such a link
  load : (t l : ℕ) (owner : Option ℕ) → Event
  -- the next access of a thread; a weak compare-exchange may fail for no reason
  move : (t : ℕ) (spurious : Bool) → Event
  -- `Local::new` of an object, and `unroot` of one of its links
  alloc unroot : (t n : ℕ) → Event
  -- `Shared::clone` or `try_inc_raw` of the `Local` at place `k` into a new link, and the drop of a link
  clone : (t l k : ℕ) → Event
  drop : (t l : ℕ) → Event
  -- the scan of an object of `fresh_objs`
  scan : (t obj : ℕ) → Event
  -- a mark task is popped or stolen, and a guard is dropped with its `Local`s
  take_task : (t i : ℕ) → Event
  forget : (t : ℕ) → Event

module _ (black : Color) (outgoing : ℕ → List ℕ) where
  -- A link that a thread can get at: one outside of all objects, which is rooted, or one of an object
  -- that it has a `Local` of.
  unfoldable pub has_access : Heap → List ℕ → Option ℕ → ℕ → Bool
  has_access h locals none l = is_rooted (h.links l)
  has_access h locals (some k) l = contains l (outgoing (local_at locals (some k)))

  unfoldable pub call_update : ℕ → Op → ℕ → Option ℕ → Target → System → System
  call_update t op l owner new s =
      if has_access s.heap (s.locals t) owner l then set_thread t (begun op l new) s else s

  unfoldable pub load_link : ℕ → ℕ → Option ℕ → System → System
  load_link t l owner s =
      if has_access s.heap (s.locals t) owner l
      then add_locals t ((s.heap.links l).obj ∷ []) s
      else s

  unfoldable pub next_access : ℕ → Bool → System → System
  next_access t spurious s = record {
    heap = write black spurious s.heap (s.threads t);
    threads = update s.threads t (advance black outgoing spurious s.heap (s.threads t));
    locals = update s.locals t (reads s.heap (s.threads t) ++ s.locals t);
  }

  -- The object is black, and its links are still rooted.
  unfoldable pub alloc_local : ℕ → ℕ → System → System
  alloc_local t obj s =
      if not (obj == 0) && (not (s.heap.allocated obj) && all_rooted s.heap (outgoing obj))
      then add_locals t (obj ∷ []) (
          set_heap
            (record s.heap {
              color = update s.heap.color obj black;
              root_count = update s.heap.root_count obj 0;
              allocated = update s.heap.allocated obj true;
            })
            s)
      else s

  -- `unroot`: the pointer is loaded, and its root count goes down first.
  unfoldable pub unroot_link : ℕ → ℕ → System → System
  unroot_link t l s =
      let old = s.heap.links l in
      if is_rooted old
      then set_thread t
          (if old.obj == 0 then unrooting l old else dropping old.obj (unrooting l old)) s
      else s

  unfoldable pub new_shared : ℕ → ℕ → System → System
  new_shared l obj s =
      if same_link (s.heap.links l) null_rooted && not (obj == 0)
      then set_heap
          (record s.heap {
            links = update s.heap.links l (record { obj = obj; meta = rooted; tag = 0 });
            root_count = update s.heap.root_count obj (s.heap.root_count obj + 1);
          })
          s
      else s

  -- `AtomicSharedOption::drop`, after which the link is not used any more.
  unfoldable pub drop_link : ℕ → ℕ → System → System
  drop_link t l s =
      let old = s.heap.links l in
      if is_rooted old
      then set_thread t (drop_shared old.obj idle)
          (set_heap (record s.heap { links = update s.heap.links l null_rooted }) s)
      else s

  -- The collector or a helping mutator comes to an object of `fresh_objs`: it is marked if it has a
  -- root or a hazard pointer.
  unfoldable pub scan_object : ℕ → ℕ → System → System
  scan_object t obj s =
      if s.heap.unscanned obj
      then set_thread t
          (if ltb 0 (s.heap.root_count obj) || s.heap.hazard obj
            then marking obj (outgoing obj)
            else idle)
          (set_heap (record s.heap { unscanned = update s.heap.unscanned obj false }) s)
      else s

  unfoldable pub pop_task : Option ℕ → ℕ → ℕ → System → System
  pop_task none t i s = s
  pop_task (some obj) t i s =
      set_thread t (checking obj) (set_heap (record s.heap { tasks = remove_at i s.heap.tasks }) s)

  -- An event of a thread that is not within an operation.
  unfoldable pub idle_step : Event → System → System
  idle_step (call t op l owner new tag) s =
      call_update t op l owner (record { obj = local_at (s.locals t) new; tag = tag }) s
  idle_step (load t l owner) s = load_link t l owner s
  idle_step (move t spurious) s = s
  idle_step (alloc t obj) s = alloc_local t obj s
  idle_step (unroot t l) s = unroot_link t l s
  idle_step (clone t l k) s = new_shared l (local_at (s.locals t) (some k)) s
  idle_step (drop t l) s = drop_link t l s
  idle_step (scan t obj) s = scan_object t obj s
  idle_step (take_task t i) s = pop_task (get_elem? s.heap.tasks i) t i s
  idle_step (forget t) s = record s { locals = update s.locals t [] }

  unfoldable pub thread_of : Event → ℕ
  thread_of (call t op l owner new tag) = t
  thread_of (load t l owner) = t
  thread_of (move t spurious) = t
  thread_of (alloc t obj) = t
  thread_of (unroot t l) = t
  thread_of (clone t l k) = t
  thread_of (drop t l) = t
  thread_of (scan t obj) = t
  thread_of (take_task t i) = t
  thread_of (forget t) = t

  unfoldable pub access : Event → System → System
  access (move t spurious) s = next_access t spurious s
  access e s = s

  unfoldable pub step : Event → System → System
  step e s = if is_idle (s.threads (thread_of e)) then idle_step e s else access e s

  unfoldable pub run : List Event → System → System
  run [] s = s
  run (e ∷ events) s = run events (step e s)
