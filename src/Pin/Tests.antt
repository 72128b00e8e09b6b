-- ===== src/Pin/Tests.antt =====
-- src/internal.rs, src/collector.rs: runs of the pinning protocol, and the theorems at them.
use mathlib.Core.Option
use cdpt.Base.{ℕ, ◌≤◌, ◌+◌, ◌≡◌, refl, arith, some, List, [], ◌∷◌, ◌++◌, ℕ_discrete}
use cdpt.Epoch.{Epoch, pinned, is_pinned, phase, color, timestamp, flip, normal, ct}
use cdpt.Epoch.{with_phase, with_color, with_timestamp}
use cdpt.Pin.{op_register, op_pin, op_store, op_check, op_unpin}
use cdpt.Pin.{working, waiting, System, init, Event, mutator, begin, complete, finish, poll}
use cdpt.Pin.{
  run, system_step, mutator_step, collector_step, pin_inner, store_epoch, observe, check_epoch,
}
use cdpt.Pin.{unpin_inner, phase_trans, next_normal, replace_epoch, has_left, pinned_alloc_color}
use cdpt.Pin.Mutators.{Inside}
use cdpt.Pin.Agreement.{phase_agreement, at_most_one_apart, sweep_spares_new}

abbrev enter : ℕ → List Event
enter i = mutator i op_pin ∷ mutator i op_store ∷ mutator i op_check ∷ []

-- The last state of a run that comes through.
last_of : List Event → System
unfolding run system_step mutator_step collector_step pin_inner store_epoch observe check_epoch
    unpin_inner has_left replace_epoch phase_trans next_normal is_pinned pinned timestamp phase
    color with_phase with_color with_timestamp pinned_alloc_color Option.bind ℕ_discrete
last_of events = Option.get_or (run 2 events init) init

-- Thread 0 pins in the normal phase, and thread 1 reads the epoch but stores it late.
abbrev late_pin : List Event
late_pin = mutator 0 op_register ∷ mutator 1 op_register ∷ enter 0 ++ mutator 1 op_pin ∷ begin ∷ []

-- The late thread stores the old epoch, sees the new one, goes round again and is inside; thread 0
-- leaves, and the collector passes both.
abbrev settled : List Event
settled =
    late_pin
    ++ mutator 1 op_store
      ∷ mutator 1 op_check
      ∷ mutator 1 op_store
      ∷ mutator 1 op_check
      ∷ poll
      ∷ mutator 0 op_unpin
      ∷ poll
      ∷ poll
      ∷ poll
      ∷ []

-- Thread 0 stays in the completion phase while the collector begins the next normal phase.
abbrev sweeping : List Event
sweeping = settled ++ mutator 1 op_unpin ∷ complete ∷ poll ∷ poll ∷ poll ∷ enter 0 ++ finish ∷ []

settled_reached : run 2 settled init ≡ some (last_of settled)
unfolding last_of
settled_reached = refl

settled_working : (last_of settled).collector ≡ working
unfolding last_of
settled_working = refl

settled-Inside : Inside ((last_of settled).mutators 1)
unfolding last_of
settled-Inside = (refl, omega arith)

sweeping_reached : run 2 sweeping init ≡ some (last_of sweeping)
unfolding last_of
sweeping_reached = refl

sweeping-Inside : Inside ((last_of sweeping).mutators 0)
unfolding last_of
sweeping-Inside = (refl, omega arith)

-- The epoch that `finish` replaces: completion phase, color 0, timestamp 2.
abbrev completing : Epoch
completing = record { data_bits = 0x24 }

sweeping_waits :
    ((last_of sweeping).collector ≡ waiting completing 0)
    × (phase (last_of sweeping).epoch ≡ some normal)
    × (phase completing ≡ some ct)
unfolding last_of
sweeping_waits = (refl, refl, refl)

-- Thread 0 has not left when thread 1 is still between its load and its store.
late_stuck : run 2 (late_pin ++ poll ∷ poll ∷ []) init ≡ run 2 late_pin init
unfolding last_of
late_stuck = refl

phase_agreement_example : ((last_of settled).mutators 1).epoch ≡ pinned (last_of settled).epoch
phase_agreement_example =
    phase_agreement 2 settled (omega arith) settled_reached 1 settled_working settled-Inside

at_most_one_apart_example :
    (timestamp ((last_of sweeping).mutators 0).epoch
      ≤ timestamp ((last_of sweeping).mutators 0).epoch + 1)
    × (timestamp ((last_of sweeping).mutators 0).epoch ≤ timestamp (last_of sweeping).epoch)
    × (timestamp (last_of sweeping).epoch ≤ timestamp ((last_of sweeping).mutators 0).epoch + 1)
at_most_one_apart_example =
    at_most_one_apart 2 sweeping (omega arith) sweeping_reached 0 0 sweeping-Inside sweeping-Inside

sweep_spares_new_example :
    pinned_alloc_color ((last_of sweeping).mutators 0).epoch ≡ some (flip (color completing))
sweep_spares_new_example =
    sweep_spares_new 2 sweeping (omega arith) sweeping_reached 0 0 completing sweeping_waits.0
      sweeping_waits.1 sweeping-Inside
