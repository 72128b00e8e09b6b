-- ===== src/Pin/Runs.antt =====
-- src/internal.rs, src/collector.rs: every event, and so every interleaving, keeps the invariant.
use mathlib.Core.Path.{subst}
use mathlib.Core.Option.{some-injective}
use mathlib.Core.Option
use native.Mathlib.Nat.{add-zero}
use cdpt.Base.{ℕ, suc, ◌+◌, ◌^◌, ◌<◌, ◌≡◌, refl, arith}
use cdpt.Base.{some, inl, inr, ltb, Bool-cases, Option-cases, ◌||◌}
use cdpt.Base.{List, [], ◌∷◌, length, ltb→lt}
use cdpt.Epoch.{normal, rt, ct, is_pinned, timestamp}
use cdpt.Pin.{phase_is, mutator_step, Collector, working, waiting}
use cdpt.Pin.{System, init, Event, mutator, begin, complete, finish, poll}
use cdpt.Pin.{collector_step, system_step, run, phase_trans, next_normal}
use cdpt.Pin.Epochs.{begin-Follows, complete-Follows, finish-Follows}
use cdpt.Pin.Invariant.{Inv, replace-Inv, mutator-Inv}
use cdpt.Pin.Waiting.{poll-Inv}

pub Inv-init : (slots : ℕ) → Inv slots 0 init
Inv-init slots = record {
  is_word = omega arith;
  unpinned = unfold is_pinned in refl;
  bounded = unfold timestamp in omega arith;
  replaced = tt;
  seats = λ i. inl (refl, refl);
  unused = λ i le. refl;
}

-- The stores of the collector, by the event.
collector_step-Inv :
    (slots n : ℕ) (s t : System) (e : Event) (c : Collector)
    → n + 1 < 2 ^ 60
    → s.collector ≡ c
    → collector_step slots e c s ≡ some t
    → Inv slots n s
    → Inv slots (n + 1) t
unfolding collector_step
collector_step-Inv slots n s t begin working room w q inv =
    elim (Bool-cases (phase_is s.epoch normal)) [
      | inl here ↦ subst (Inv slots (n + 1)) (some-injective _ t (rw here at q)) (
          replace-Inv slots n s (phase_trans rt) w inv
            (begin-Follows s.epoch inv.is_word inv.unpinned (omega (arith, inv.bounded)) here))
      | inr there ↦ absurd (cc (rw there at q))
    ]
collector_step-Inv slots n s t complete working room w q inv =
    elim (Bool-cases (phase_is s.epoch rt || phase_is s.epoch ct)) [
      | inl here ↦ subst (Inv slots (n + 1)) (some-injective _ t (rw here at q)) (
          replace-Inv slots n s (phase_trans ct) w inv
            (complete-Follows s.epoch inv.is_word inv.unpinned (omega (arith, inv.bounded)) here))
      | inr there ↦ absurd (cc (rw there at q))
    ]
collector_step-Inv slots n s t finish working room w q inv =
    elim (Bool-cases (phase_is s.epoch ct)) [
      | inl here ↦ subst (Inv slots (n + 1)) (some-injective _ t (rw here at q)) (
          replace-Inv slots n s next_normal w inv
            (finish-Follows s.epoch inv.is_word inv.unpinned (omega (arith, inv.bounded)) here))
      | inr there ↦ absurd (cc (rw there at q))
    ]
collector_step-Inv slots n s t poll working room w q inv = cc
collector_step-Inv slots n s t poll (waiting prev v) room w q inv =
    poll-Inv slots n s t prev v w q inv
collector_step-Inv slots n s t begin (waiting prev v) room w q inv = cc
collector_step-Inv slots n s t complete (waiting prev v) room w q inv = cc
collector_step-Inv slots n s t finish (waiting prev v) room w q inv = cc
collector_step-Inv slots n s t (mutator i op) working room w q inv = cc
collector_step-Inv slots n s t (mutator i op) (waiting prev v) room w q inv = cc

system_step-Inv :
    (slots n : ℕ) (e : Event) (s t : System)
    → n + 1 < 2 ^ 60
    → system_step slots e s ≡ some t
    → Inv slots n s
    → Inv slots (n + 1) t
unfolding system_step
system_step-Inv slots n begin s t room q inv =
    collector_step-Inv slots n s t begin s.collector room refl q inv
system_step-Inv slots n complete s t room q inv =
    collector_step-Inv slots n s t complete s.collector room refl q inv
system_step-Inv slots n finish s t room q inv =
    collector_step-Inv slots n s t finish s.collector room refl q inv
system_step-Inv slots n poll s t room q inv =
    collector_step-Inv slots n s t poll s.collector room refl q inv
system_step-Inv slots n (mutator i op) s t room q inv = elim (Bool-cases (ltb i slots)) [
  | inl lt ↦ elim (Option-cases (mutator_step s.epoch op (s.mutators i))) [
    | inl stuck ↦ absurd (cc (rw (lt, stuck) at q))
    | inr (m, moved) ↦
        subst (Inv slots (n + 1)) (some-injective _ t (rw (lt, moved) at q))
          (mutator-Inv slots n s i m op (ltb→lt i slots lt) moved inv)
  ]
  | inr ge ↦ absurd (cc (rw ge at q))
]

pub run-Inv :
    (slots n : ℕ) (events : List Event) (s t : System)
    → n + length events < 2 ^ 60
    → run slots events s ≡ some t
    → Inv slots n s
    → Inv slots (n + length events) t
unfolding run Option.bind
run-Inv slots n [] s t room q inv = rw add-zero (subst (Inv slots n) (some-injective s t q) inv)
run-Inv slots n (e ∷ events) s t room q inv = elim (Option-cases (system_step slots e s)) [
  | inl stuck ↦ absurd (cc (rw stuck at q))
  | inr (u, moved) ↦
      let shift : n + suc (length events) ≡ n + 1 + length events = omega arith in
      rw shift (
        run-Inv slots (n + 1) events u t (omega arith) (rw moved at q)
          (system_step-Inv slots n e s u (omega arith) moved inv))
]
