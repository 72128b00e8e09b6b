-- ===== src/Pin/Mutators.antt =====
-- src/internal.rs: what holds of one mutator, whatever the others do.
use cdpt.Base.{◌+◌, ◌<◌, ◌≡◌, refl, sym, arith, Bool, true, false, some}
use cdpt.Base.{◌⊎◌, inl, inr, ◌==◌, Bool-cases, ==_iff}
use mathlib.Core.Path.{subst}
use mathlib.Core.Option.{some-injective}
use cdpt.Base.{◌&&◌, ◌||◌, not, ◌-◌, word_size}
use cdpt.Epoch.{Epoch, rt, starting, pinned, timestamp}
use cdpt.Pin.{
  Mutator, Pc, ready, loaded, stored, phase_is, register, release, pin_inner, store_epoch,
}
use cdpt.Pin.{observe, check_epoch, unpin_inner, mutator_step, Op, op_register, op_release, op_pin}
use cdpt.Pin.{op_store, op_check, op_unpin}

-- A mutator in a critical section: it has a guard, and `pin_freshly` has returned.
abbrev pub Inside : Mutator → Type 0
Inside m = (m.pc ≡ ready) × (0 < m.guard_count)

-- What holds at each place of a mutator. `Allowed` are the epochs in which it may be inside.
abbrev pub At : (Epoch → Type 0) → Pc → Mutator → Type 0
At Allowed ready m =
    ((m.guard_count ≡ 0) × (m.epoch ≡ starting))
    ⊎ ((0 < m.guard_count)
        × (m.using ≡ true)
        × Allowed m.last_observed
        × (m.epoch ≡ pinned m.last_observed))
At Allowed (loaded e) m = (m.using ≡ true) × (m.guard_count ≡ 1)
At Allowed (stored e) m = (m.using ≡ true) × (m.guard_count ≡ 1) × (m.epoch ≡ pinned e)

same_bits : (e g : Epoch) → (e.data_bits == g.data_bits) ≡ true → e ≡ g
same_bits e g h = λ i. record { data_bits = (==_iff e.data_bits g.data_bits).0 h i }

module _ (Allowed : Epoch → Type 0) (m m' : Mutator) where
  -- The result of an operation, given outright.
  arrive :
      (r : Mutator) (p' : Pc) → some r ≡ some m' → r.pc ≡ p' → At Allowed p' r → At Allowed m'.pc m'
  arrive r p' q e h =
      subst (λ (x : Mutator). At Allowed x.pc x) (some-injective r m' q)
        (subst (λ (p : Pc). At Allowed p r) (sym e) h)

  register-At : (p : Pc) → m.pc ≡ p → At Allowed p m → register p m ≡ some m' → At Allowed m'.pc m'
  register-At ready e h q = elim (Bool-cases m.using) [
    | inl used ↦ absurd (cc (rw used at q))
    | inr free ↦
        arrive (record m { using = true }) ready (rw free at q) e
          (elim h [ inl out ↦ inl out | inr (c, u, a, o) ↦ inr (c, refl, a, o) ])
  ]
  register-At (loaded c) e h q = cc
  register-At (stored c) e h q = cc

  release-At : (p : Pc) → m.pc ≡ p → At Allowed p m → release p m ≡ some m' → At Allowed m'.pc m'
  release-At ready e h q = elim (Bool-cases (m.using && m.guard_count == 0)) [
    | inl idle ↦
        arrive (record m { using = false }) ready (rw idle at q) e
          (elim h [ inl out ↦ inl out | inr (c, u, a, o) ↦ absurd (ground arith) ])
    | inr busy ↦ absurd (cc (rw busy at q))
  ]
  release-At (loaded c) e h q = cc
  release-At (stored c) e h q = cc

  pin_inner-At :
      (g : Epoch) (p : Pc)
      → m.pc ≡ p
      → At Allowed p m
      → pin_inner g p m ≡ some m'
      → At Allowed m'.pc m'
  unfolding pin_inner
  pin_inner-At g ready e h q = elim (Bool-cases (not m.using || m.guard_count + 1 == word_size)) [
    | inl panics ↦ absurd (cc (rw panics at q))
    | inr runs ↦ elim (Bool-cases (m.guard_count == 0)) [
      | inl first ↦
          arrive (record m { guard_count = 1; pc = loaded g }) (loaded g) (rw (runs, first) at q)
            refl (ground arith, refl)
      | inr again ↦
          arrive (record m { guard_count = m.guard_count + 1 }) ready (rw (runs, again) at q) e
            (elim h [
              | inl out ↦ absurd (ground arith)
              | inr (c, u, a, o) ↦ inr (omega arith, u, a, o)
            ])
    ]
  ]
  pin_inner-At g (loaded c) e h q = cc
  pin_inner-At g (stored c) e h q = cc

  store_epoch-At :
      (p : Pc) → m.pc ≡ p → At Allowed p m → store_epoch p m ≡ some m' → At Allowed m'.pc m'
  unfolding store_epoch
  store_epoch-At ready e h q = cc
  store_epoch-At (loaded c) e h q =
      arrive (record m { epoch = pinned c; pc = stored c }) (stored c) q refl (h.0, h.1, refl)
  store_epoch-At (stored c) e h q = cc

  unpin_inner-At :
      (p : Pc) → m.pc ≡ p → At Allowed p m → unpin_inner p m ≡ some m' → At Allowed m'.pc m'
  unfolding unpin_inner
  unpin_inner-At ready e h q = elim (Bool-cases (m.guard_count == 0)) [
    | inl none_held ↦ absurd (cc (rw none_held at q))
    | inr held ↦ elim (Bool-cases (m.guard_count == 1)) [
      | inl last ↦
          arrive (record m { guard_count = 0; epoch = starting }) ready (rw (held, last) at q) e
            (inl (refl, refl))
      | inr more ↦
          arrive (record m { guard_count = m.guard_count - 1 }) ready (rw (held, more) at q) e
            (elim h [
              | inl out ↦ absurd (ground arith)
              | inr (c, u, a, o) ↦ inr (ground arith, u, a, o)
            ])
    ]
  ]
  unpin_inner-At (loaded c) e h q = cc
  unpin_inner-At (stored c) e h q = cc

  -- Leaving the loop, a mutator is inside in the epoch that it has just read.
  check_epoch-At :
      (g : Epoch) (p : Pc)
      → Allowed g
      → m.pc ≡ p
      → At Allowed p m
      → check_epoch g p m ≡ some m'
      → At Allowed m'.pc m'
  unfolding check_epoch observe
  check_epoch-At g ready a e h q = cc
  check_epoch-At g (loaded c) a e h q = cc
  check_epoch-At g (stored c) a e h q = elim (Bool-cases (c.data_bits == g.data_bits)) [
    | inl same ↦ arrive (observe c m) ready (rw same at q) (ready_after c) (inr (seat same))
    | inr changed ↦ arrive (record m { pc = loaded g }) (loaded g) (rw changed at q) refl (h.0, h.1)
  ]
    where
      scans : Epoch → Bool
      scans c = not (timestamp m.last_observed == timestamp c) && phase_is c rt

      ready_after : (c : Epoch) → (observe c m).pc ≡ ready
      ready_after c = elim (Bool-cases (scans c)) [ inl y ↦ rw y refl | inr n ↦ rw n refl ]

      seat :
          (c.data_bits == g.data_bits) ≡ true
          → (0 < (observe c m).guard_count)
            × ((observe c m).using ≡ true)
            × Allowed (observe c m).last_observed
            × ((observe c m).epoch ≡ pinned (observe c m).last_observed)
      seat same =
          let now : Allowed c = subst Allowed (sym (same_bits c g same)) a in
          elim (Bool-cases (scans c)) [
            | inl y ↦ rw y (omega arith, h.0, now, h.2)
            | inr n ↦ rw n (omega arith, h.0, now, h.2)
          ]

  pub mutator_step-At :
      (g : Epoch) (op : Op)
      → Allowed g
      → At Allowed m.pc m
      → mutator_step g op m ≡ some m'
      → At Allowed m'.pc m'
  unfolding mutator_step
  mutator_step-At g op_register a h q = register-At m.pc refl h q
  mutator_step-At g op_release a h q = release-At m.pc refl h q
  mutator_step-At g op_pin a h q = pin_inner-At g m.pc refl h q
  mutator_step-At g op_store a h q = store_epoch-At m.pc refl h q
  mutator_step-At g op_check a h q = check_epoch-At g m.pc a refl h q
  mutator_step-At g op_unpin a h q = unpin_inner-At m.pc refl h q
