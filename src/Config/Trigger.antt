-- ===== src/Config/Trigger.antt =====
-- src/collector.rs and src/internal.rs: when a collection starts. The loads of the statistics and of the
-- flags are one step.
use native.Mathlib.Nat.{div-lt_iff_lt-mul}
use cdpt.Base.{
  ℕ, ◌+◌, ◌-◌, ◌*◌, ◌/◌, ◌%◌, ◌^◌, ◌<◌, ◌≤◌, ◌≡◌, ◌≢◌, refl, sym, arith, ◌↔◌, ◌⊎◌, inl, inr, Bool,
  true, false, ltb, leb, ltb→lt, leb→le, ◌==◌, if◌then◌else◌, Bool-cases,
}

-- The flags of `Global`, and `desired_heap_limit` of `CSTATS`
pub record Controls : Type 0 where
  pub collection_enabled : Bool
  pub collection_requested : Bool
  pub desired_heap_limit : ℕ

-- The totals of `GlobalStats`, and the smoothed rates of `HBSTATS` and `CSTATS`
pub record Stats : Type 0 where
  pub total_allocated : ℕ
  pub total_reclaimed : ℕ
  pub alloc_per_ms_smooth : ℕ
  pub reclm_per_ms_smooth : ℕ
  pub coll_time_ms_smooth : ℕ

unfoldable pub enable_collection : Bool → Controls → Controls
enable_collection set c = record c { collection_enabled = set }

unfoldable pub request_collection : Controls → Controls
request_collection c = record c { collection_requested = true }

unfoldable pub estimate_heap_usage : Stats → ℕ
estimate_heap_usage s = s.total_allocated - s.total_reclaimed

-- The bits of a difference of two `isize`s, and whether it is negative
unfoldable pub isize_sub : ℕ → ℕ → ℕ
isize_sub a b = (a + 2 ^ 64 - b) % 2 ^ 64

unfoldable pub is_negative : ℕ → Bool
is_negative bits = leb (2 ^ 63) bits

-- `is_collection_necessary` from the difference of the rates on
unfoldable pub is_oom_near : ℕ → ℕ → ℕ → ℕ → Bool
is_oom_near rate heap_usage heap_limit coll_time =
    if is_negative rate
    then leb heap_limit heap_usage
    else if rate == 0
    then false
    else leb ((heap_limit - heap_usage) / rate) coll_time

-- `is_collection_necessary` from the statistics on
unfoldable pub is_heap_full : ℕ → Stats → Bool
is_heap_full heap_limit s =
    if ltb heap_limit (estimate_heap_usage s)
    then true
    else is_oom_near (isize_sub s.alloc_per_ms_smooth s.reclm_per_ms_smooth) (estimate_heap_usage s)
        heap_limit s.coll_time_ms_smooth

unfoldable pub is_collection_necessary : Stats → Controls → Bool × Controls
is_collection_necessary s c =
    if c.collection_enabled
    then (if c.collection_requested
        then (true, record c { collection_requested = false })
        else (is_heap_full c.desired_heap_limit s, c))
    else (false, record c { desired_heap_limit = 0 })

-- The heap is over its limit, or would be before a collection and a millisecond more are over if it
-- grows as before; if it shrinks, it may be at its limit, too.
pub Due : ℕ → Stats → Type 0
Due limit s =
    (limit < estimate_heap_usage s)
    ⊎ ((s.reclm_per_ms_smooth < s.alloc_per_ms_smooth)
        × (limit - estimate_heap_usage s
            < (s.coll_time_ms_smooth + 1) * (s.alloc_per_ms_smooth - s.reclm_per_ms_smooth)))
    ⊎ ((s.alloc_per_ms_smooth < s.reclm_per_ms_smooth) × (estimate_heap_usage s ≡ limit))

grows : (a b : ℕ) → a < 2 ^ 63 → b ≤ a → isize_sub a b ≡ a - b
unfolding isize_sub
grows a b l g = omega (arith, l, g)

shrinks : (a b : ℕ) → b < 2 ^ 63 → a < b → is_negative (isize_sub a b) ≡ true
unfolding isize_sub is_negative
shrinks a b l g = ground (arith, l, g)

small : (x : ℕ) → x < 2 ^ 63 → is_negative x ≡ false
unfolding is_negative
small x l = ground (arith, l)

-- What is left once the heap is not over its limit.
near :
    (a b u l t : ℕ)
    → a < 2 ^ 63
    → b < 2 ^ 63
    → u ≤ l
    → (is_oom_near (isize_sub a b) u l t ≡ true)
      ↔ (((b < a) × (l - u < (t + 1) * (a - b))) ⊎ ((a < b) × (u ≡ l)))
unfolding is_oom_near
near a b u l t x y z = elim (Bool-cases (ltb a b)) [
  | inl q ↦
      let g = ltb→lt a b q in
      rw (shrinks a b y g) (
        (λ e. inr (g, omega (arith, z, leb→le l u e))),
        λ d. elim d [
          | inl w ↦ absurd (omega (arith, w.0, g))
          | inr w ↦ le_leb l u (omega (arith, w.1))
        ],
      )
  | inr q ↦ elim (Bool-cases (ltb b a)) [
    | inl r ↦
        let g = ltb→lt b a r in
        rw
          (
            grows a b x (omega (arith, g)),
            small (a - b) (omega (arith, x)),
            unequal (a - b) (omega (arith, g)),
          )
          (
            (λ e. inl (g, over (a - b) (omega (arith, g)) (leb→le ((l - u) / (a - b)) t e))),
            λ d. elim d [
              | inl w ↦ le_leb ((l - u) / (a - b)) t (under (a - b) (omega (arith, g)) w.1)
              | inr w ↦ absurd (omega (arith, w.0, g))
            ],
          )
    | inr r ↦
        let g = level a b q r in
        rw
          (
            grows a b x (omega (arith, g)),
            small (a - b) (omega (arith, x)),
            no_rate (a - b) (omega (arith, g)),
          )
          (
            (λ e. absurd (true≢false (sym e))),
            λ d. elim d [
              | inl w ↦ absurd (omega (arith, w.0, g))
              | inr w ↦ absurd (omega (arith, w.0, g))
            ],
          )
  ]
]
  where
    unequal : (n : ℕ) → 0 < n → (n == 0) ≡ false
    unequal n g = ground (arith, g)

    no_rate : (n : ℕ) → n ≡ 0 → (n == 0) ≡ true
    no_rate n g = ground (arith, g)

    level : (x y : ℕ) → ltb x y ≡ false → ltb y x ≡ false → x ≡ y
    level x y g h = ground (arith, g, h)

    le_leb : (x y : ℕ) → x ≤ y → leb x y ≡ true
    le_leb x y g = ground (arith, g)

    true≢false : true ≢ false
    true≢false e = cc

    over : (d : ℕ) → 0 < d → (l - u) / d ≤ t → l - u < (t + 1) * d
    over d g h = (div-lt_iff_lt-mul {x = l - u} {y = t + 1} g).0 (omega (arith, h))

    under : (d : ℕ) → 0 < d → l - u < (t + 1) * d → (l - u) / d ≤ t
    under d g h =
        let less = (div-lt_iff_lt-mul {x = l - u} {y = t + 1} g).1 h in omega (arith, less)

is_heap_full-Due :
    (limit : ℕ) (s : Stats)
    → s.alloc_per_ms_smooth < 2 ^ 63
    → s.reclm_per_ms_smooth < 2 ^ 63
    → (is_heap_full limit s ≡ true) ↔ Due limit s
unfolding is_heap_full Due
is_heap_full-Due limit s x y = elim (Bool-cases (ltb limit (estimate_heap_usage s))) [
  | inl q ↦ rw q ((λ e. inl (ltb→lt limit (estimate_heap_usage s) q)), λ d. refl)
  | inr q ↦
      let l = within limit (estimate_heap_usage s) q in
      let n =
        near s.alloc_per_ms_smooth s.reclm_per_ms_smooth (estimate_heap_usage s) limit
          s.coll_time_ms_smooth x y l in
      rw q
        ((λ e. inr (n.0 e)), λ d. elim d [ inl w ↦ absurd (omega (arith, w, l)) | inr w ↦ n.1 w ])
]
  where
    within : (a b : ℕ) → ltb a b ≡ false → b ≤ a
    within a b q = ground (arith, q)

-- `is_collection_necessary` answers that it is, if collection is enabled, and it has been requested, or
-- the heap is over its limit, or at its limit while it shrinks, or grows so fast that it would be over
-- its limit before the time of a collection and one millisecond more are over; and only then. The
-- smoothed rates are below 2 ^ 63.
pub is_collection_necessary_lem :
    (s : Stats) (c : Controls)
    → s.alloc_per_ms_smooth < 2 ^ 63
    → s.reclm_per_ms_smooth < 2 ^ 63
    → ((is_collection_necessary s c).0 ≡ true) ↔ (
        (c.collection_enabled ≡ true)
        × ((c.collection_requested ≡ true) ⊎ Due c.desired_heap_limit s))
unfolding is_collection_necessary
is_collection_necessary_lem s c x y = elim (Bool-cases c.collection_enabled) [
  | inl on ↦ elim (Bool-cases c.collection_requested) [
    | inl r ↦ rw (on, r) ((λ e. (refl, inl refl)), λ d. refl)
    | inr r ↦
        let n = is_heap_full-Due c.desired_heap_limit s x y in
        rw (on, r)
          (
            (λ e. (refl, inr (n.0 e))),
            λ d. elim d.1 [ inl w ↦ absurd (different w) | inr w ↦ n.1 w ],
          )
  ]
  | inr off ↦ rw off ((λ e. absurd (different e)), λ d. absurd (different d.0))
]
  where
    different : false ≢ true
    different e = cc
