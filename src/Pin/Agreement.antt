-- ===== src/Pin/Agreement.antt =====
-- src/internal.rs, src/collector.rs: in which epochs the mutators are, in every interleaving.
use mathlib.Core.Path.{subst}
use cdpt.Base.{ℕ, ◌+◌, ◌^◌, ◌<◌, ◌≤◌, ◌≡◌, refl, ◌∙◌, arith, ap, some}
use cdpt.Base.{inl, inr, List, length}
use cdpt.Epoch.{Epoch, normal, ct, pinned, phase, color, timestamp, flip}
use cdpt.Pin.{Mutator, Collector, working, waiting, System, init, Event, run, pinned_alloc_color}
use cdpt.Pin.Epochs.{Moves, to_roots, to_completion, to_normal}
use cdpt.Pin.Mutators.{At, Inside}
use cdpt.Pin.Invariant.{Allowed, Replaced, Inv, pinned_view}
use cdpt.Pin.Runs.{Inv-init, run-Inv}

-- A mutator that is inside has pinned itself to an allowed epoch.
Inside-Allowed :
    (A : Epoch → Type 0) (m : Mutator)
    → At A m.pc m
    → Inside m
    → A m.last_observed × (m.epoch ≡ pinned m.last_observed)
Inside-Allowed A m h (at_ready, held) = elim (rw at_ready at h) [
  | inl out ↦ absurd (omega arith)
  | inr (c, u, a, o) ↦ (a, o)
]

module _ (slots : ℕ) (events : List Event) {s : System} (room : length events < 2 ^ 60)
    (reached : run slots events init ≡ some s) where
  invariant : Inv slots (0 + length events) s
  invariant = run-Inv slots 0 events init s (omega arith) reached (Inv-init slots)

  seat :
      (c : Collector) (i : ℕ)
      → s.collector ≡ c
      → Inside (s.mutators i)
      → Allowed s.epoch c i (s.mutators i).last_observed
        × ((s.mutators i).epoch ≡ pinned (s.mutators i).last_observed)
  seat c i w inside =
      Inside-Allowed (Allowed s.epoch c i) (s.mutators i)
        (subst (λ (k : Collector). At (Allowed s.epoch k i) (s.mutators i).pc (s.mutators i)) w
          (invariant.seats i))
        inside

  -- In every interleaving, while the collector does not wait, all mutators in a critical section are
  -- pinned to the global epoch: they agree with it on the phase, the color and the timestamp.
  pub phase_agreement :
      (i : ℕ)
      → s.collector ≡ working
      → Inside (s.mutators i)
      → (s.mutators i).epoch ≡ pinned s.epoch
  phase_agreement i w inside = let (here, at) = seat working i w inside in at ∙ ap pinned here

  lag :
      (c : Collector) (i : ℕ)
      → s.collector ≡ c
      → Inside (s.mutators i)
      → (timestamp (s.mutators i).epoch ≤ timestamp s.epoch)
        × (timestamp s.epoch ≤ timestamp (s.mutators i).epoch + 1)
  lag working i w inside =
      omega
        (arith, pinned_view s.epoch invariant.is_word, ap timestamp (phase_agreement i w inside))
  lag (waiting prev v) i w inside = lag_waiting (seat (waiting prev v) i w inside)
    where
      old : Replaced s.epoch (waiting prev v)
      old = subst (Replaced s.epoch) w invariant.replaced

      lag_waiting :
          Allowed s.epoch (waiting prev v) i (s.mutators i).last_observed
            × ((s.mutators i).epoch ≡ pinned (s.mutators i).last_observed)
          → (timestamp (s.mutators i).epoch ≤ timestamp s.epoch)
            × (timestamp s.epoch ≤ timestamp (s.mutators i).epoch + 1)
      lag_waiting (inl now, at) =
          omega (arith, pinned_view s.epoch invariant.is_word, ap timestamp (at ∙ ap pinned now))
      lag_waiting (inr (le, before), at) =
          omega (arith, old.1, pinned_view prev old.0, ap timestamp (at ∙ ap pinned before))

  -- In every interleaving the timestamps of two mutators in critical sections, and that of the global
  -- epoch, are at most one apart, and no mutator is ahead of the global epoch.
  pub at_most_one_apart :
      (i j : ℕ)
      → Inside (s.mutators i)
      → Inside (s.mutators j)
      → (timestamp (s.mutators i).epoch ≤ timestamp (s.mutators j).epoch + 1)
        × (timestamp (s.mutators i).epoch ≤ timestamp s.epoch)
        × (timestamp s.epoch ≤ timestamp (s.mutators i).epoch + 1)
  at_most_one_apart i j in_i in_j =
      omega (arith, lag s.collector i refl in_i, lag s.collector j refl in_j)

  -- While the collector sweeps and waits in `next_normal`, where it reclaims objects of the color that
  -- was white before, no mutator in a critical section allocates in that color, be it still in the
  -- completion phase or already in the normal phase.
  pub sweep_spares_new :
      (i v : ℕ) (prev : Epoch)
      → s.collector ≡ waiting prev v
      → phase s.epoch ≡ some normal
      → Inside (s.mutators i)
      → pinned_alloc_color (s.mutators i).epoch ≡ some (flip (color prev))
  unfolding pinned_alloc_color
  sweep_spares_new i v prev w sweeping inside = by_epoch (seat (waiting prev v) i w inside)
    where
      old : Replaced s.epoch (waiting prev v)
      old = subst (Replaced s.epoch) w invariant.replaced

      turned : (phase prev ≡ some ct) × (color s.epoch ≡ flip (color prev))
      turned = from_moves old.2
        where
          from_moves :
              Moves prev s.epoch → (phase prev ≡ some ct) × (color s.epoch ≡ flip (color prev))
          from_moves (to_roots p q r) = cc
          from_moves (to_completion p q r) = cc
          from_moves (to_normal p q r) = (p, r)

      by_epoch :
          Allowed s.epoch (waiting prev v) i (s.mutators i).last_observed
            × ((s.mutators i).epoch ≡ pinned (s.mutators i).last_observed)
          → pinned_alloc_color (s.mutators i).epoch ≡ some (flip (color prev))
      by_epoch (inl now, at) =
          ground (arith, at, now, sweeping, turned, pinned_view s.epoch invariant.is_word)
      by_epoch (inr (le, before), at) = ground (arith, at, before, turned, pinned_view prev old.0)
