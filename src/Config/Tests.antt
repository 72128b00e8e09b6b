-- ===== src/Config/Tests.antt =====
-- The settings of the collector on concrete values.
use cdpt.Base.{ℕ, ◌≡◌, ◌↔◌, ◌⊎◌, ◌*◌, true, false, refl, arith, some}
use cdpt.Config.{
  proportional, Settings, set_heap_headroom, heap_headroom, set_collector_threads, default_settings,
  slice_start, slice_end,
}
use cdpt.Config.Headroom.{clamped, heap_headroom-set_heap_headroom}
use cdpt.Config.Shards.{Works, shard-Works}
use cdpt.Config.Trigger.{
  Stats, Controls, Due, is_collection_necessary, is_heap_full, is_oom_near, isize_sub, is_negative,
  estimate_heap_usage, enable_collection, request_collection, is_collection_necessary_lem,
}

abbrev eight_cores : Settings
eight_cores = default_settings (some 8)

-- Three threads share 2, 2 and 4 shards.
last_of_three : slice_end 3 1 ≡ 4
unfolding slice_end slice_start
last_of_three = refl

heap_headroom-set_heap_headroom_example :
    heap_headroom (set_heap_headroom (proportional 5000) eight_cores) ≡ clamped (proportional 5000)
heap_headroom-set_heap_headroom_example =
    heap_headroom-set_heap_headroom (proportional 5000) eight_cores

shard-Works_example :
    (t : ℕ) × Works (set_collector_threads 3 eight_cores).collector_threads t 5
    × ((u : ℕ) → Works (set_collector_threads 3 eight_cores).collector_threads u 5 → u ≡ t)
shard-Works_example = shard-Works 3 5 eight_cores (omega arith)

-- Two MiB are in use of a limit of three, and grow by a hundred KiB in a millisecond.
abbrev growing : Stats
growing = record {
  total_allocated = 5 * 1024 * 1024;
  total_reclaimed = 3 * 1024 * 1024;
  alloc_per_ms_smooth = 150 * 1024;
  reclm_per_ms_smooth = 50 * 1024;
  coll_time_ms_smooth = 10;
}

abbrev limited : Controls
limited = record {
  collection_enabled = true;
  collection_requested = false;
  desired_heap_limit = 3 * 1024 * 1024;
}

growing_now : is_collection_necessary growing limited ≡ (true, limited)
unfolding is_collection_necessary is_heap_full is_oom_near isize_sub is_negative estimate_heap_usage
growing_now = refl

is_collection_necessary_lem_example :
    ((is_collection_necessary growing limited).0 ≡ true)
    ↔ ((true ≡ true) × ((false ≡ true) ⊎ Due (3 * 1024 * 1024) growing))
is_collection_necessary_lem_example =
    is_collection_necessary_lem growing limited (omega arith) (omega arith)

-- A request is used up by one collection.
requested_now :
    is_collection_necessary growing (request_collection (enable_collection true limited))
    ≡ (true, limited)
unfolding is_collection_necessary request_collection enable_collection
requested_now = refl
