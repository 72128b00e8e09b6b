-- ===== src/HashSet/Once.antt =====
-- src/sync/hash_set.rs: no key is stored twice, and all threads see the one entry of a key.
use mathlib.Core.Path.{subst}
use cdpt.Base.{
  ℕ, ◌≤◌, ◌≡◌, sym, ap, ◌∙◌, arith, Bool, some, List, [], ◌∷◌, update, update_self, update-ne,
  ℕ_discrete,
}
use cdpt.HashSet.{Thread, returned, Slots, System, empty, Event, start, move, begin, step, run}
use cdpt.HashSet.Placement.{
  Grows, Passed, Knows, at_rest, at_panic, at_probe, at_claim, at_swap, at_return, Placed, Inv,
  Knows-Grows, Placed-injective,
}
use cdpt.HashSet.Steps.{get_or_insert-Moves}

-- One event of any thread.
record Advances (hash : ℕ → ℕ) (log : ℕ) (s t : System) : Type 0 where
  pub grows : Grows s.slots t.slots
  pub inv : Inv hash log t

module _ (hash : ℕ → ℕ) (log : ℕ) (word : log ≤ 64) where
  -- A thread that changes leaves what the others know.
  update-Knows :
      (slots : Slots) (threads : ℕ → Thread) (t : ℕ) (th : Thread)
      → Knows hash log slots th
      → ((u : ℕ) → Knows hash log slots (threads u))
      → (u : ℕ) → Knows hash log slots (update threads t th u)
  update-Knows slots threads t th own others u = elim (ℕ_discrete t u) [
    | yes same ↦
        subst (Knows hash log slots)
          (sym (update_self threads t th) ∙ ap (update threads t th) same) own
    | no differs ↦ subst (Knows hash log slots) (sym (update-ne threads t u th differs)) (others u)
  ]

  begin-Knows :
      (slots : Slots) (key : ℕ) (th : Thread)
      → Knows hash log slots th
      → Knows hash log slots (begin hash log th key)
  unfolding begin Passed
  begin-Knows slots key _ at_rest = at_probe key 0 (λ i h. absurd (omega arith))
  begin-Knows slots key _ at_panic = at_panic
  begin-Knows slots key _ (at_probe k i p) = at_probe k i p
  begin-Knows slots key _ (at_claim k idx a) = at_claim k idx a
  begin-Knows slots key _ (at_swap k idx a) = at_swap k idx a
  begin-Knows slots key _ (at_return k idx b e) = at_probe key 0 (λ i h. absurd (omega arith))

  step-Advances :
      (e : Event) (s : System) → Inv hash log s → Advances hash log s (step hash log e s)
  unfolding step Grows
  step-Advances (start t key) s v = record {
    grows = λ idx k e. e;
    inv = record {
      placed = v.placed;
      knows =
          update-Knows s.slots s.threads t (begin hash log (s.threads t) key)
            (begin-Knows s.slots key (s.threads t) (v.knows t)) v.knows;
    };
  }
  step-Advances (move t) s v =
      let moved = get_or_insert-Moves hash log word s.slots (s.threads t) v.placed (v.knows t) in
      record {
        grows = moved.grows;
        inv = record {
          placed = moved.placed;
          knows =
              update-Knows _ s.threads t _ moved.knows
                λ u. Knows-Grows hash log s.slots _ (s.threads u) moved.grows (v.knows u);
        };
      }

  run-Advances :
      (events : List Event) (s : System)
      → Inv hash log s
      → Advances hash log s (run hash log events s)
  unfolding run Grows
  run-Advances [] s v = record { grows = λ idx k e. e; inv = v }
  run-Advances (e ∷ events) s v =
      let one = step-Advances e s v in
      let rest = run-Advances events (step hash log e s) one.inv in
      record { grows = λ idx k h. rest.grows idx k (one.grows idx k h); inv = rest.inv }

empty-Inv : (hash : ℕ → ℕ) (log : ℕ) → Inv hash log empty
unfolding Placed
empty-Inv hash log = record { placed = λ idx k e. cc; knows = λ t. at_rest }

returned-slot :
    (hash : ℕ → ℕ) (log : ℕ) (slots : Slots) (th : Thread) (key idx : ℕ) (b : Bool)
    → Knows hash log slots th
    → th ≡ returned key idx b
    → slots idx ≡ some key
returned-slot hash log slots _ key idx b (at_return k i c e) h = cc
returned-slot hash log slots _ key idx b at_rest h = cc
returned-slot hash log slots _ key idx b at_panic h = cc
returned-slot hash log slots _ key idx b (at_probe k i p) h = cc
returned-slot hash log slots _ key idx b (at_claim k i a) h = cc
returned-slot hash log slots _ key idx b (at_swap k i a) h = cc

-- In every interleaving of any threads: when a call for a key has returned the entry of a slot, and
-- later, after any further events, a call of any thread for the same key has returned the entry of a
-- slot, the two slots are the same, and it still holds the key.
pub get_or_insert_once :
    (hash : ℕ → ℕ) (log : ℕ) (before after : List Event) (t u key i j : ℕ) (b c : Bool)
    → log ≤ 64
    → (run hash log before empty).threads t ≡ returned key i b
    → (run hash log after (run hash log before empty)).threads u ≡ returned key j c
    → (i ≡ j) × ((run hash log after (run hash log before empty)).slots i ≡ some key)
unfolding Grows
get_or_insert_once hash log before after t u key i j b c word p q =
    let first = run-Advances hash log word before empty (empty-Inv hash log) in
    let second = run-Advances hash log word after (run hash log before empty) first.inv in
    let old = second.grows i key (returned-slot hash log _ _ key i b (first.inv.knows t) p) in
    let new = returned-slot hash log _ _ key j c (second.inv.knows u) q in
    (Placed-injective hash log _ i j key second.inv.placed old new, old)
