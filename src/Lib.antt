-- ===== src/Lib.antt =====
-- A verification development for CDPT, a concurrent garbage collector by deferred partial tracing.
--
-- Base: shared names, lists, words of 64 bits, and the laws of `&`, `|` and `^` that the packed
--   words of the program need. A `usize` is a number below 2 ^ 64.
-- Epoch: src/epoch.rs. `Epoch`, `Phase` and `Color` with every accessor and update; the panic of
--   `Phase::from` is `none`.
-- Ptr: `PtrMeta` and `ManPtr` of src/pointers.rs, for every alignment 2 ^ t of the object, t ≤ 62,
--   and what the `fetch_tag_*` methods leave in a link.
-- Header: `ObjMeta` and `AtomicObjMeta` of src/pointers.rs. The loop of `mark` takes fuel, and the
--   values that other threads write before each compare-exchange; fuel for one round more than
--   there are such writes is enough.
-- Pin: the pinning of mutators (`Local::pin_inner`, `pin_freshly` and `unpin_inner` of
--   src/internal.rs) against the epoch changes of the collector (`phase_trans`, `next_normal` and
--   `wait_all_mutators_unpin` of src/collector.rs). An event is one atomic access of one thread, and
--   a run is any list of events over a fixed number of slots; a slot that no thread has acquired yet
--   counts as not in use, as `iter_using` treats it. Atomics are sequentially consistent, which the
--   fences of the code are there to give at these accesses. What the collector does between two
--   epoch changes is left open. Runs are shorter than 2 ^ 60 events, the range of the timestamp.
-- Hazard: the hazard pointers of one thread (`Local::acquire_hp`, `grow_hazards`, `release_hp`,
--   `phase_barrier` and `HazardPointer` of src/internal.rs), for any sequence of operations. The
--   address that is protected is a number, 0 for null, and `mark::<T>` is named by a number for `T`.
-- HashSet: `FixedHashSet::get_or_insert` of src/sync/hash_set.rs by any number of threads, for every
--   capacity 2 ^ log, log ≤ 64, and every hash function. An event is one atomic access of a slot. A key
--   is a number for its class under `Eq`.
-- Config: the heap headroom and the number of collector threads of src/internal.rs, and the split of
--   the shards by `parallel_shard_work` of src/collector.rs. The parallelism of the platform is a
--   parameter.
--   `is_collection_necessary` with the flags and totals that it loads is one step; the smoothed rates,
--   which the source computes in floating point, are inputs.
-- Slots: `ReusableSlots::acquire_or_default` and the drop of an `Entry` of src/sync/reusable_slots.rs,
--   by any number of threads. An event is one atomic access; node `i` is named by its place in the
--   list, which only grows.
-- Queue: `Queue::new`, `push` and `try_pop` of src/sync/queue.rs by any number of threads, against a
--   sequential queue. An event is one atomic access; nodes are never allocated again, which the guards
--   of the epochs are there for. `pop_if` is not modelled: nothing uses it.
-- Heap: links, root counts and barriers of src/pointers.rs (`AtomicSharedOption::load`, `swap`,
--   `compare_exchange` and `compare_exchange_weak`, `Shared::clone`, the drop of a link, `Local::new`,
--   `unroot`, `shade`, `mark` and `shade_pointee`) with the scan of fresh objects and the mark tasks of
--   src/collector.rs, by any number of threads. A run starts where every mutator is pinned in a
--   tracing phase, between two operations or within one, and the phase is never the normal one; that
--   some mutators are still pinned in the normal phase when others trace already is not modelled. An event is one atomic access with the
--   thread's own work up to the next. The fields of an object are a list of links, a parameter. The
--   colors do not change in a cycle; the loop of `AtomicObjMeta::mark` is one event, for which see
--   Header, and the deques of mark tasks are one list from which any task may be taken. `Local`s are
--   kept until their guard is dropped, and have a hazard pointer since before the scan, or not, as the
--   start of the run says. Root counts stay below the bound of their field, for which see Header. A
--   ready state is one in which rooted and black links and `Local`s lead to live objects.
-- Completion: `try_confirm_completion` of src/collector.rs against `schedule_mark`,
--   `try_pop_mark_task` and `record_mt_modification` of src/internal.rs by any number of mutators. An
--   event is one atomic access. Pinned mutators are pinned in the current epoch, for which see Pin, and
--   none is inside one of these methods when the epoch begins. The deques of crossbeam are lists whose
--   push and pop are parameters; a `Local` that is added later has no task at the start. The count
--   that triggers helping is left out.
-- Batches: `ObjBatch`, `Local::push_fresh_obj`, `take_obj_batch` and `flush_objs` and
--   `Global::push_fresh_objs` of src/internal.rs, `sweep` of src/collector.rs and
--   `Guard::help_normal_inner` of src/guards.rs, and the scan of fresh objects by
--   `Guard::help_root_tracing` and by a thread of `scan_allocated_objs`, with the root counts and hazards
--   as inputs. Fuel for two rounds of `push_fresh_obj` is enough,
--   since a flushed batch has room. The shards that are drawn at random are a parameter, and the queues
--   are lists, for which see Queue. The sizes of a batch are summed without wrap-around.
-- Registry: `register_type` and `get_shade_fn` of src/pointers.rs by any number of threads. An event is
--   one atomic access; `TYPE_SET.get_or_insert` is one event, for which see HashSet. A type is a
--   number, which also stands for its shade function; the sentinel `ID_UNSET` is a case of its own.
-- Calls: what the callers of a queue or a stack see of their calls, and the moments at which these take
--   effect, for Queue and Stack.
-- Stack: the stack of examples/stack.rs, a client of the collector, by any number of threads, against
--   a sequential stack. An event is one atomic access, and a compare-exchange of `top` is one event.
--   Nodes are never allocated again, which the collector is there for. That an item that was popped can
--   still be borrowed is not modelled.
-- Lists: `get`, `insert` and `remove` of the linked lists of examples/ds/lists.rs with each of their
--   three `find` methods, by any number of threads, against a map. An event is one atomic access, and
--   a compare-exchange of a link is one event. Keys and values are numbers, with the dummy head before
--   all keys. Nodes are never allocated again, which the collector is there for.
-- Not modelled: the derive macro, tasks and thread-local handles, the floating-point rates of
--   src/collector.rs, the draining of mark tasks by `help_draining_mark_tasks_inner`, and the hash map
--   and the trees of examples/ds.
pub mod Base
pub mod Epoch
pub mod Ptr
pub mod Header
pub mod Pin
pub mod Hazard
pub mod HashSet
pub mod Calls
pub mod Completion
pub mod Config
pub mod Slots
pub mod Queue
pub mod Heap
pub mod Batches
pub mod Registry
pub mod Stack
pub mod Lists
