-- ===== src/HashSet/Full.antt =====
-- src/sync/hash_set.rs: the second loop of `get_or_insert` in a table that other threads have filled.
use native.Mathlib.Nat.{mod-lt, one-le-pow}
use mathlib.Core.Path.{subst}
use cdpt.Base.{
  ℕ, zero, suc, ◌+◌, ◌^◌, ◌%◌, ◌<◌, ◌≡◌, ◌≢◌, refl, sym, ◌∙◌, arith, false, ◌==◌, some, word_size,
  update_self,
}
use cdpt.Base.Bits.{bit_and_mask}
use cdpt.HashSet.{Slots, System, claiming, move, next, meet, claim_slot, get_or_insert, store, step}

-- Every slot has an entry, none of them for `key`.
unfoldable pub FullOfOthers : ℕ → Slots → ℕ → Type 0
FullOfOthers log slots key = (idx : ℕ) → idx < 2 ^ log → (k : ℕ) × (slots idx ≡ some k) × (k ≢ key)

-- `n` accesses of one thread in a row.
unfoldable pub moves : (ℕ → ℕ) → ℕ → ℕ → ℕ → System → System
moves hash log zero t s = s
moves hash log (suc n) t s = moves hash log n t (step hash log (move t) s)

next-lt : (hash : ℕ → ℕ) (log idx : ℕ) → next hash log idx < 2 ^ log
unfolding next
next-lt hash log idx =
    rw (bit_and_mask log ((idx + 1) % word_size))
      (mod-lt ((idx + 1) % word_size) (one-le-pow log 2 (omega arith)))

differs : (k key : ℕ) → k ≢ key → (k == key) ≡ false
differs k key ne = ground arith

module _ (hash : ℕ → ℕ) (log : ℕ) where
  -- The thread goes round the loop once, and changes nothing but its own place.
  goes_round :
      (s : System) (t key idx : ℕ)
      → FullOfOthers log s.slots key
      → idx < 2 ^ log
      → s.threads t ≡ claiming key idx
      → ((step hash log (move t) s).threads t ≡ claiming key (next hash log idx))
        × ((step hash log (move t) s).slots ≡ s.slots)
  unfolding FullOfOthers step get_or_insert store claim_slot meet
  goes_round s t key idx full h at =
      let (k, e, ne) = full idx h in
      (
        update_self s.threads t (get_or_insert hash log s.slots (s.threads t))
            ∙ rw (at, e, differs k key ne) refl,
        rw at refl,
      )

  -- However long a thread runs alone in the second loop of `get_or_insert`, in a table that is full of
  -- other keys it is still in that loop: it neither returns nor panics.
  pub spins_when_full :
      (n : ℕ) (s : System) (t key idx : ℕ)
      → FullOfOthers log s.slots key
      → idx < 2 ^ log
      → s.threads t ≡ claiming key idx
      → (at : ℕ) × ((moves hash log n t s).threads t ≡ claiming key at)
  unfolding moves
  spins_when_full zero s t key idx full h at = (idx, at)
  spins_when_full (suc n) s t key idx full h at =
      let (here, same) = goes_round s t key idx full h at in
      spins_when_full n (step hash log (move t) s) t key (next hash log idx)
        (subst (λ (x : Slots). FullOfOthers log x key) (sym same) full) (next-lt hash log idx) here
