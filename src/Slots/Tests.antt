-- ===== src/Slots/Tests.antt =====
-- Slots on a concrete interleaving.
use cdpt.Base.{ℕ, ◌<◌, ◌≡◌, true, List, [], ◌∷◌, ℕ_discrete}
use cdpt.Slots.{Event, call, move, run, step, empty, acquire_or_default, write, begin}
use cdpt.Slots.Owners.{Owns, owns_holding}
use cdpt.Slots.Exclusive.{entry_exclusive}

-- Both threads see an empty list; thread 0 inserts the first node, and thread 1 the second one.
abbrev race : List Event
race =
    call 0
    ∷ call 1
    ∷ move 0
    ∷ move 1
    ∷ move 0
    ∷ move 1
    ∷ move 1
    ∷ move 1
    ∷ move 1
    ∷ move 1
    ∷ move 0
    ∷ move 1
    ∷ []

race-Owns : Owns ((run race empty).threads 1) 1
unfolding run step begin acquire_or_default write ℕ_discrete
race-Owns = owns_holding 1

entry_exclusive_example :
    (1 < (run race empty).slots.nodes)
    × ((run race empty).slots.using 1 ≡ true)
    × ((u : ℕ) → Owns ((run race empty).threads u) 1 → 1 ≡ u)
entry_exclusive_example = entry_exclusive race 1 1 race-Owns
