-- ===== src/HashSet/Placement.antt =====
-- src/sync/hash_set.rs: where the entries stand, and what each thread knows of them.
use mathlib.Core.Option.{some-injective}
use cdpt.Base.{ℕ, ◌<◌, ◌≤◌, ◌≡◌, ◌≢◌, sym, ap, ◌∙◌, arith, Bool, some, dec_lt}
use cdpt.HashSet.{
  Thread, idle, panicked, probing, claiming, swapping, returned, Slots, System, probe,
}

-- Entries stay.
unfoldable pub Grows : Slots → Slots → Type 0
Grows old new = (idx k : ℕ) → old idx ≡ some k → new idx ≡ some k

module _ (hash : ℕ → ℕ) (log : ℕ) where
  -- The first `j` probes of `key` find other keys.
  unfoldable pub Passed : Slots → ℕ → ℕ → Type 0
  Passed slots key j =
      (i : ℕ) → i < j → (k : ℕ) × (slots (probe hash log key i) ≡ some k) × (k ≢ key)

  -- A slot that `key` comes to by probing.
  unfoldable pub At : Slots → ℕ → ℕ → Type 0
  At slots key idx = (j : ℕ) × (idx ≡ probe hash log key j) × Passed slots key j

  -- What a thread knows.
  pub data Knows (slots : Slots) : Thread → Type 0 where
    at_rest : Knows slots idle
    at_panic : Knows slots panicked
    at_probe : (key i : ℕ) → Passed slots key i → Knows slots (probing key i)
    at_claim : (key idx : ℕ) → At slots key idx → Knows slots (claiming key idx)
    at_swap : (key idx : ℕ) → At slots key idx → Knows slots (swapping key idx)
    at_return :
        (key idx : ℕ) (inserted : Bool)
        → slots idx ≡ some key
        → Knows slots (returned key idx inserted)

  -- Each entry stands where probing for its key comes to it.
  unfoldable pub Placed : Slots → Type 0
  Placed slots = (idx k : ℕ) → slots idx ≡ some k → At slots k idx

  pub record Inv (s : System) : Type 0 where
    pub placed : Placed s.slots
    pub knows : (t : ℕ) → Knows s.slots (s.threads t)

  Passed-Grows : (old new : Slots) (key j : ℕ) → Grows old new → Passed old key j → Passed new key j
  unfolding Passed Grows
  Passed-Grows old new key j g p i h =
      let (k, e, ne) = p i h in (k, g (probe hash log key i) k e, ne)

  pub At-Grows : (old new : Slots) (key idx : ℕ) → Grows old new → At old key idx → At new key idx
  unfolding At
  At-Grows old new key idx g (j, e, p) = (j, e, Passed-Grows old new key j g p)

  pub Knows-Grows : (old new : Slots) (th : Thread) → Grows old new → Knows old th → Knows new th
  unfolding Grows
  Knows-Grows old new _ g at_rest = at_rest
  Knows-Grows old new _ g at_panic = at_panic
  Knows-Grows old new _ g (at_probe key i p) = at_probe key i (Passed-Grows old new key i g p)
  Knows-Grows old new _ g (at_claim key idx a) = at_claim key idx (At-Grows old new key idx g a)
  Knows-Grows old new _ g (at_swap key idx a) = at_swap key idx (At-Grows old new key idx g a)
  Knows-Grows old new _ g (at_return key idx b e) = at_return key idx b (g idx key e)

  -- Two slots with one key are one slot.
  pub Placed-injective :
      (slots : Slots) (a b key : ℕ) → Placed slots → slots a ≡ some key → slots b ≡ some key → a ≡ b
  unfolding Placed At Passed
  Placed-injective slots a b key p ea eb =
      let (i, ia, pa) = p a key ea in
      let (j, jb, pb) = p b key eb in
      let same : i ≡ j = omega (arith, clash i j a ia ea pb, clash j i b jb eb pa) in
      ia ∙ ap (probe hash log key) same ∙ sym jb
    where
      clash :
          (i j x : ℕ)
          → x ≡ probe hash log key i
          → slots x ≡ some key
          → ((n : ℕ) → n < j → (k : ℕ) × (slots (probe hash log key n) ≡ some k) × (k ≢ key))
          → j ≤ i
      clash i j x e here p = elim (dec_lt i j) [
        | yes lt ↦
            let (k, stored, ne) = p i lt in
            absurd (ne (some-injective k key (sym stored ∙ ap slots (sym e) ∙ here)))
        | no ge ↦ omega arith
      ]
