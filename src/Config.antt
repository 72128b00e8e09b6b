-- ===== src/Config.antt =====
-- src/internal.rs, src/collector.rs: the settings of the collector, and the split of its work among
-- threads.
mod Tests
pub mod Headroom
pub mod Shards
mod Trigger
use cdpt.Base.{
  ℕ, ◌+◌, ◌-◌, ◌*◌, ◌/◌, ◌<◌, ◌≤◌, ◌==◌, ltb, if◌then◌else◌, Option, none, some, bit_and, bit_or,
  bit_not, shl,
}

-- `Ord::clamp`
unfoldable pub clamp : ℕ → ℕ → ℕ → ℕ
clamp x low high = if ltb x low then low else if ltb high x then high else x

abbrev pub obj_batches_shard : ℕ
obj_batches_shard = 8

pub data HeapHeadroom : Type 0 where
  fixed_mib : ℕ → HeapHeadroom
  proportional : ℕ → HeapHeadroom

abbrev pub headroom_proportional_bit : ℕ
headroom_proportional_bit = shl 1 63

-- `HeapHeadroom::pack`
unfoldable pub pack : HeapHeadroom → ℕ
pack (fixed_mib mib) = clamp mib 1 1024 * 1024 * 1024
pack (proportional div) = bit_or (clamp div 1 1024) headroom_proportional_bit

-- `HeapHeadroom::unpack`
unfoldable pub unpack : ℕ → HeapHeadroom
unpack bits =
    if bit_and bits headroom_proportional_bit == 0
    then fixed_mib (bits / (1024 * 1024))
    else proportional (bit_and bits (bit_not headroom_proportional_bit))

-- The settings in `Global`.
pub record Settings : Type 0 where
  pub headroom : ℕ
  pub collector_threads : ℕ

unfoldable pub set_heap_headroom : HeapHeadroom → Settings → Settings
set_heap_headroom h s = record s { headroom = pack h }

unfoldable pub heap_headroom : Settings → HeapHeadroom
heap_headroom s = unpack s.headroom

unfoldable pub set_collector_threads : ℕ → Settings → Settings
set_collector_threads count s = record s { collector_threads = clamp count 1 obj_batches_shard }

-- `default_collector_threads`, by the parallelism that the platform reports.
unfoldable pub default_collector_threads : Option ℕ → ℕ
default_collector_threads none = clamp (1 / 8) 1 obj_batches_shard
default_collector_threads (some n) = clamp (n / 8) 1 obj_batches_shard

-- The settings of `Global::new`.
unfoldable pub default_settings : Option ℕ → Settings
default_settings parallelism = record {
  headroom = pack (fixed_mib 1);
  collector_threads = default_collector_threads parallelism;
}

-- The slice of the shards that `parallel_shard_work` gives to a thread.
unfoldable pub slice_start : ℕ → ℕ → ℕ
slice_start num_threads thread_idx = thread_idx * (obj_batches_shard / num_threads)

unfoldable pub slice_end : ℕ → ℕ → ℕ
slice_end num_threads thread_idx =
    if thread_idx == num_threads - 1
    then obj_batches_shard
    else slice_start num_threads thread_idx + obj_batches_shard / num_threads
