-- ===== src/Registry/Tests.antt =====
-- Two threads register one type, and a third one another type.
use cdpt.Base.{ℕ, ◌≡◌, ◌<◌, ◌↔◌, refl, some, List, [], ◌∷◌, ℕ_discrete}
use cdpt.Registry.{
  max_type_id, registered, see_entry, insert_entry, see_id, advance, write, get_shade_fn, initial,
  is_idle, Event, register_type, move, step, run,
}
use cdpt.Registry.Ids.{registered_ids}

-- Thread 1 waits for the id that thread 0 stores.
abbrev first : List Event
first =
    register_type 0 5
    ∷ register_type 1 5
    ∷ move 0
    ∷ move 1
    ∷ move 1
    ∷ move 0
    ∷ move 0
    ∷ move 0
    ∷ move 1
    ∷ []

abbrev second : List Event
second = register_type 2 9 ∷ move 2 ∷ move 2 ∷ move 2 ∷ move 2 ∷ []

first_registered : (run first initial).threads 1 ≡ registered 5 0
unfolding run step is_idle advance write see_entry insert_entry see_id ℕ_discrete
first_registered = refl

second_registered : (run second (run first initial)).threads 2 ≡ registered 9 1
unfolding run step is_idle advance write see_entry insert_entry see_id ℕ_discrete
second_registered = refl

registered_ids_example :
    (0 < max_type_id)
    × (get_shade_fn 0 (run second (run first initial)).registry ≡ some 5)
    × (◌≡◌ {A = ℕ} 5 9 ↔ ◌≡◌ {A = ℕ} 0 1)
registered_ids_example = registered_ids first second 1 2 5 9 0 1 first_registered second_registered
