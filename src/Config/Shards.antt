-- ===== src/Config/Shards.antt =====
-- src/collector.rs: `parallel_shard_work` gives every shard to one thread.
use native.Mathlib.Nat.{mul-le-mul_right, div-add-mod', mod-lt, div-mul-le_self}
use cdpt.Base.{ℕ, suc, ◌+◌, ◌-◌, ◌*◌, ◌/◌, ◌%◌, ◌<◌, ◌≤◌, ◌≡◌, ◌≢◌, refl, arith, dec_lt}
use cdpt.Config.{clamp, Settings, set_collector_threads, obj_batches_shard, slice_start, slice_end}
use cdpt.Config.Headroom.{clamp-bounds}

-- The thread works on the shard.
unfoldable pub Works : ℕ → ℕ → ℕ → Type 0
Works num_threads thread_idx shard =
    (thread_idx < num_threads)
    × (slice_start num_threads thread_idx ≤ shard)
    × (shard < slice_end num_threads thread_idx)

-- The slice of a thread that is not the last one.
inner_end : (n t : ℕ) → t ≢ n - 1 → slice_end n t ≡ t * (8 / n) + 8 / n
unfolding slice_end slice_start
inner_end n t h = ground arith

last_end : (n t : ℕ) → t ≡ n - 1 → slice_end n t ≡ 8
unfolding slice_end
last_end n t h = ground arith

base_positive : (n : ℕ) → 1 ≤ n → n ≤ 8 → 1 ≤ 8 / n
base_positive n h g = ground (arith, div-add-mod' 8 n, mod-lt 8 {m = n} (omega arith))

start_below : (n t s : ℕ) → t ≤ s / (8 / n) → slice_start n t ≤ s
unfolding slice_start
start_below n t s h = omega (arith, mul-le-mul_right (8 / n) h, div-mul-le_self s (8 / n))

before_end : (start base s r end : ℕ) → end ≡ start + base → start + r ≡ s → r < base → s < end
before_end start base s r end h e lt = omega arith

worker : (n s : ℕ) → 1 ≤ n → n ≤ 8 → s < 8 → (t : ℕ) × Works n t s
unfolding Works
worker n s h g below = elim (dec_lt (s / (8 / n)) (n - 1)) [
  | yes before ↦
      let t = s / (8 / n) in
      let rest = mod-lt s {m = 8 / n} (base_positive n h g) in
      let inner : t ≢ n - 1 = λ e. absurd (omega (arith, e)) in
      let within : s < slice_end n t =
        before_end (t * (8 / n)) (8 / n) s (s % (8 / n)) (slice_end n t) (inner_end n t inner)
          (div-add-mod' s (8 / n)) rest in
      (t, (omega arith, start_below n t s (omega arith), within))
  | no outer ↦
      let all : s < slice_end n (n - 1) = omega (arith, last_end n (n - 1) refl) in
      (n - 1, (omega arith, start_below n (n - 1) s (omega arith), all))
]

-- Slices follow one another.
ordered : (n t u s : ℕ) → Works n t s → Works n u s → u ≤ t
unfolding Works slice_start
ordered n t u s (tn, ts, te) (un, us, ue) = elim (dec_lt t u) [
  | yes h ↦
      let inner : t ≢ n - 1 = λ e. absurd (omega arith) in
      absurd (omega (arith, inner_end n t inner, mul-le-mul_right {m = suc t} {n = u} (8 / n) h))
  | no h ↦ omega arith
]

-- With any number of threads that `set_collector_threads` is asked for, one thread works on each
-- shard, and no second one.
pub shard-Works :
    (count shard : ℕ) (s : Settings)
    → shard < obj_batches_shard
    → (t : ℕ) × Works (set_collector_threads count s).collector_threads t shard
      × ((u : ℕ) → Works (set_collector_threads count s).collector_threads u shard → u ≡ t)
unfolding set_collector_threads
shard-Works count shard s below =
    let n = clamp count 1 obj_batches_shard in
    let bounds = clamp-bounds count 1 obj_batches_shard (omega arith) in
    let (t, here) = worker n shard bounds.0 bounds.1 below in
    (
      t,
      here,
      λ u there. omega (arith, ordered n t u shard here there, ordered n u t shard there here),
    )
