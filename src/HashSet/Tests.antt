-- ===== src/HashSet/Tests.antt =====
-- `get_or_insert` on concrete interleavings.
use cdpt.Base.{ℕ, zero, suc, ◌≡◌, refl, arith, some, List, [], ◌∷◌, true, false, ℕ_discrete}
use cdpt.HashSet.{
  returned, claiming, System, empty, Event, start, move, run, step, begin, store, get_or_insert,
  probe, probe_slot, claim_slot, swap_slot, swap_store, meet,
}
use cdpt.HashSet.Once.{get_or_insert_once}
use cdpt.HashSet.Full.{FullOfOthers, moves, spins_when_full}

-- Two slots; every key probes slot 0 first.
abbrev constant : ℕ → ℕ
constant key = 0

-- Both threads find slot 0 free, and both try to insert key 7.
abbrev race : List Event
race = start 0 7 ∷ start 1 7 ∷ move 0 ∷ move 1 ∷ move 0 ∷ move 1 ∷ move 0 ∷ []

abbrev rest_of_race : List Event
rest_of_race = move 1 ∷ []

race-winner : (run constant 1 race empty).threads 0 ≡ returned 7 0 true
unfolding run step begin store get_or_insert probe probe_slot claim_slot swap_slot swap_store
    ℕ_discrete
race-winner = refl

race-loser :
    (run constant 1 rest_of_race (run constant 1 race empty)).threads 1 ≡ returned 7 0 false
unfolding run step begin store get_or_insert probe probe_slot claim_slot swap_slot swap_store meet
    ℕ_discrete
race-loser = refl

abbrev winner_slot : ℕ
winner_slot = 0

abbrev loser_slot : ℕ
loser_slot = 0

get_or_insert_once_example :
    (winner_slot ≡ loser_slot)
    × ((run constant 1 rest_of_race (run constant 1 race empty)).slots winner_slot ≡ some 7)
get_or_insert_once_example =
    get_or_insert_once constant 1 race rest_of_race 0 1 7 winner_slot loser_slot true false
      (omega arith) race-winner race-loser

-- One slot; while thread 0 is about to insert key 7, thread 1 inserts key 5.
abbrev filled : System
filled = run constant 0 (start 0 7 ∷ move 0 ∷ start 1 5 ∷ move 1 ∷ move 1 ∷ move 1 ∷ []) empty

filled-claiming : filled.threads 0 ≡ claiming 7 0
unfolding run step begin store get_or_insert probe probe_slot claim_slot swap_slot swap_store
    ℕ_discrete
filled-claiming = refl

filled-FullOfOthers : FullOfOthers 0 filled.slots 7
unfolding FullOfOthers run step begin store get_or_insert probe probe_slot claim_slot swap_slot
    swap_store ℕ_discrete
filled-FullOfOthers zero h = (5, refl, λ e. absurd (omega (arith, e)))
filled-FullOfOthers (suc idx) h = absurd (omega arith)

spins_when_full_example : (at : ℕ) × ((moves constant 0 1000 0 filled).threads 0 ≡ claiming 7 at)
spins_when_full_example =
    spins_when_full constant 0 1000 filled 0 7 0 filled-FullOfOthers (omega arith) filled-claiming
