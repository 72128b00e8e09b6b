-- ===== src/HashSet/Steps.antt =====
-- src/sync/hash_set.rs: every access keeps the entries in the places that probing finds.
use mathlib.Core.Option.{some-injective}
use mathlib.Core.Path.{subst}
use cdpt.Base.{
  ℕ, suc, ◌+◌, ◌^◌, ◌≤◌, ◌≡◌, ◌≢◌, refl, sym, ap, ◌∙◌, arith, true, false, ◌==◌, none, some, update,
  update_self, update-ne, ℕ_discrete, Bool-cases, Option-cases, inl, inr,
}
use cdpt.HashSet.{
  Thread, idle, panicked, swapping, returned, Slots, probe, next, probe_slot, meet, claim_slot,
  swap_slot, swap_store, get_or_insert, store,
}
use cdpt.HashSet.Probes.{next-probe}
use cdpt.HashSet.Placement.{
  Grows, Passed, At, Knows, at_rest, at_panic, at_probe, at_claim, at_swap, at_return, Placed,
  At-Grows,
}

same_key : (k key : ℕ) → (k == key) ≡ true → k ≡ key
same_key k key h = ground arith

other_key : (k key : ℕ) → (k == key) ≡ false → k ≢ key
other_key k key h e = ground arith

-- An access by one thread.
pub record Moves (hash : ℕ → ℕ) (log : ℕ) (slots new : Slots) (th : Thread) : Type 0 where
  pub grows : Grows slots new
  pub placed : Placed hash log new
  pub knows : Knows hash log new th

module _ (hash : ℕ → ℕ) (log : ℕ) (word : log ≤ 64) where
  one_more :
      (slots : Slots) (key j k : ℕ)
      → Passed hash log slots key j
      → slots (probe hash log key j) ≡ some k
      → k ≢ key
      → Passed hash log slots key (suc j)
  unfolding Passed
  one_more slots key j k p e ne i h = elim (ℕ_discrete i j) [
    | yes same ↦ (k, ap (λ (n : ℕ). slots (probe hash log key n)) same ∙ e, ne)
    | no before ↦ p i (omega arith)
  ]

  probe_slot-Knows :
      (slots : Slots) (key i : ℕ)
      → Passed hash log slots key i
      → Knows hash log slots (probe_slot hash log (slots (probe hash log key i)) key i)
  unfolding probe_slot At
  probe_slot-Knows slots key i p = elim (Option-cases (slots (probe hash log key i))) [
    | inl e ↦ rw e (at_claim key (probe hash log key i) (i, refl, p))
    | inr (k, e) ↦ elim (Bool-cases (k == key)) [
      | inl same ↦
          rw (e, same)
            (at_return key (probe hash log key i) false (e ∙ ap some (same_key k key same)))
      | inr other ↦
          let more : suc i ≡ i + 1 = omega arith in
          rw (e, other)
            (at_probe key (i + 1) (
              subst (Passed hash log slots key) more
                (one_more slots key i k p e (other_key k key other))))
    ]
  ]

  meet-Knows :
      (slots : Slots) (key idx k : ℕ)
      → At hash log slots key idx
      → slots idx ≡ some k
      → Knows hash log slots (meet hash log k key idx)
  unfolding meet At
  meet-Knows slots key idx k (j, at, p) e = elim (Bool-cases (k == key)) [
    | inl same ↦ rw same (at_return key idx false (e ∙ ap some (same_key k key same)))
    | inr other ↦ rw other (
        at_claim key (next hash log idx) (
          suc j,
          ap (next hash log) at ∙ next-probe hash log key j word,
          one_more slots key j k p (ap slots (sym at) ∙ e) (other_key k key other),
        ))
  ]

  update-Grows :
      (slots : Slots) (idx key : ℕ) → slots idx ≡ none → Grows slots (update slots idx (some key))
  unfolding Grows
  update-Grows slots idx key free at k e = elim (ℕ_discrete idx at) [
    | yes same ↦ absurd (cc (sym free ∙ ap slots same ∙ e))
    | no differs ↦ update-ne slots idx at (some key) differs ∙ e
  ]

  update-Placed :
      (slots : Slots) (idx key : ℕ)
      → slots idx ≡ none
      → At hash log slots key idx
      → Placed hash log slots
      → Placed hash log (update slots idx (some key))
  unfolding Placed
  update-Placed slots idx key free here p at k e =
      let g = update-Grows slots idx key free in
      elim (ℕ_discrete idx at) [
        | yes same ↦
            let stored =
              sym (update_self slots idx (some key)) ∙ ap (update slots idx (some key)) same ∙ e in
            subst (λ (x : ℕ). At hash log (update slots idx (some key)) k x) same
              (At-Grows hash log slots (update slots idx (some key)) k idx g
                (subst (λ (x : ℕ). At hash log slots x idx) (some-injective key k stored) here))
        | no differs ↦
            At-Grows hash log slots (update slots idx (some key)) k at g
              (p at k (sym (update-ne slots idx at (some key) differs) ∙ e))
      ]

  stay :
      (slots : Slots) (th : Thread)
      → Placed hash log slots
      → Knows hash log slots th
      → Moves hash log slots slots th
  unfolding Grows
  stay slots th p k = record { grows = λ idx key e. e; placed = p; knows = k }

  pub get_or_insert-Moves :
      (slots : Slots) (th : Thread)
      → Placed hash log slots
      → Knows hash log slots th
      → Moves hash log slots (store hash log slots th) (get_or_insert hash log slots th)
  unfolding get_or_insert store claim_slot swap_slot swap_store
  get_or_insert-Moves slots _ p at_rest = stay slots idle p at_rest
  get_or_insert-Moves slots _ p at_panic = stay slots panicked p at_panic
  get_or_insert-Moves slots _ p (at_return key idx b e) =
      stay slots (returned key idx b) p (at_return key idx b e)
  get_or_insert-Moves slots _ p (at_probe key i passed) = elim (Bool-cases (i == 2 ^ log)) [
    | inl full ↦ rw full (stay slots panicked p at_panic)
    | inr more ↦ rw more (stay slots _ p (probe_slot-Knows slots key i passed))
  ]
  get_or_insert-Moves slots _ p (at_claim key idx a) = elim (Option-cases (slots idx)) [
    | inl e ↦ rw e (stay slots (swapping key idx) p (at_swap key idx a))
    | inr (k, e) ↦ rw e (stay slots _ p (meet-Knows slots key idx k a e))
  ]
  get_or_insert-Moves slots _ p (at_swap key idx a) = elim (Option-cases (slots idx)) [
    | inl e ↦ rw e (record {
      grows = update-Grows slots idx key e;
      placed = update-Placed slots idx key e a p;
      knows = at_return key idx true (update_self slots idx (some key));
    })
    | inr (k, e) ↦ rw e (stay slots _ p (meet-Knows slots key idx k a e))
  ]
