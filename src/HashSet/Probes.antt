-- ===== src/HashSet/Probes.antt =====
-- src/sync/hash_set.rs: the sequence of slots that a key probes.
use native.Mathlib.Nat.{mod-mod_of_dvd, add-mod, mod-mod, pow-suc, dvd_refl, dvd-mul_right_of_dvd}
use Prim.Native.Nat.{◌∣◌}
use mathlib.Core.Path.{subst}
use cdpt.Base.{ℕ, zero, suc, ◌+◌, ◌-◌, ◌^◌, ◌%◌, ◌≤◌, ◌≡◌, sym, ap, ◌∙◌, arith, word_size}
use cdpt.Base.Bits.{bit_and_mask}
use cdpt.HashSet.{probe, next}

two_pow_divides : (log n : ℕ) → 2 ^ log ∣ 2 ^ (n + log)
two_pow_divides log zero =
    let here : log ≡ 0 + log = omega arith in
    subst (λ (k : ℕ). 2 ^ log ∣ 2 ^ k) here (dvd_refl (2 ^ log))
two_pow_divides log (suc n) =
    let here : suc (n + log) ≡ suc n + log = omega arith in
    subst (λ (k : ℕ). 2 ^ log ∣ 2 ^ k) here
      (subst (λ (m : ℕ). 2 ^ log ∣ m) (sym (pow-suc 2 (n + log)))
        (dvd-mul_right_of_dvd (2 ^ log) (two_pow_divides log n) 2))

-- A wrap-around at 2 ^ 64 does not matter below.
wrap_mod : (log x : ℕ) → log ≤ 64 → x % word_size % 2 ^ log ≡ x % 2 ^ log
wrap_mod log x h =
    let whole : 64 - log + log ≡ 64 = omega arith in
    mod-mod_of_dvd (2 ^ log) x
      (subst (λ (k : ℕ). 2 ^ log ∣ 2 ^ k) whole (two_pow_divides log (64 - log)))

probe-mod :
    (hash : ℕ → ℕ) (log key j : ℕ) → log ≤ 64 → probe hash log key j ≡ (hash key + j) % 2 ^ log
unfolding probe
probe-mod hash log key j h =
    bit_and_mask log ((hash key + j) % word_size) ∙ wrap_mod log (hash key + j) h

pub next-probe :
    (hash : ℕ → ℕ) (log key j : ℕ)
    → log ≤ 64
    → next hash log (probe hash log key j) ≡ probe hash log key (suc j)
unfolding next
next-probe hash log key j h =
    let at = hash key + j in
    let more : at + 1 ≡ hash key + suc j = omega arith in
    bit_and_mask log ((probe hash log key j + 1) % word_size)
    ∙ wrap_mod log (probe hash log key j + 1) h
    ∙ ap (λ (x : ℕ). (x + 1) % 2 ^ log) (probe-mod hash log key j h)
    ∙ add-mod (at % 2 ^ log) 1 (2 ^ log)
    ∙ ap (λ (x : ℕ). (x + 1 % 2 ^ log) % 2 ^ log) (mod-mod at (2 ^ log))
    ∙ sym (add-mod at 1 (2 ^ log))
    ∙ ap (λ (x : ℕ). x % 2 ^ log) more
    ∙ sym (probe-mod hash log key (suc j) h)
