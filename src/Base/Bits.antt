-- ===== src/Base/Bits.antt =====
-- `&`, `|` and `^` at variables: an operation splits at any bit position into two operations.
use Prim.Native.Nat.{ℕ, zero, suc, ◌+◌, ◌-◌, ◌*◌, ◌/◌, ◌%◌, ◌^◌, ◌≤◌, ◌<◌, min, max}
use Prim.Native.Nat.{bit_and, bit_or, bit_xor, digits, bitwise, differ}
use Prim.Native.Nat.{bit_and-bitwise, bit_or-bitwise, bit_xor-bitwise}
use mathlib.Core.Path.{◌≡◌, refl, ap, ap₂, ◌∙◌}
use mathlib.Core.WellFounded.{Acc, WellFounded, induction}
use native.Mathlib.Nat.{le_refl, pow-suc, one-le-pow, mod-lt, div-add-mod'}
use native.Mathlib.Nat.{mul-add-mod_self_right, mod-eq_of_lt}
use native.Mathlib.Decide.{ℕ_discrete}
use native.Mathlib.Omega.{arith}

-- Fuel beyond the first number changes nothing.
module _ (z : ℕ → ℕ) (f : ℕ → ℕ → ℕ) where
  at_end : (fuel y : ℕ) → digits z f fuel 0 y ≡ z y
  at_end zero y = refl
  at_end (suc fuel) y = refl

  spare :
      (fuel extra x : ℕ) → x ≤ fuel → (y : ℕ) → digits z f (extra + fuel) x y ≡ digits z f fuel x y
  spare fuel extra zero h y = rw (at_end (extra + fuel) y, at_end fuel y)
  spare zero extra (suc x) h y = absurd (omega arith)
  spare (suc fuel) extra (suc x) h y =
      let more : extra + suc fuel ≡ suc (extra + fuel) = omega arith in
      ap (λ (n : ℕ). digits z f n (suc x) y) more
      ∙ ap (λ (high : ℕ). high * 2 + f (suc x % 2) (y % 2))
          (spare fuel extra (suc x / 2) (omega arith) (y / 2))

  -- The lowest digit apart, for an operation that has the same law at 0.
  lowest :
      ((y : ℕ) → z y ≡ f 0 (y % 2) + 2 * z (y / 2))
      → (x y : ℕ) → bitwise z f x y ≡ f (x % 2) (y % 2) + 2 * bitwise z f (x / 2) (y / 2)
  lowest at_zero zero y = at_zero y
  lowest at_zero (suc x) y =
      let rest : x ≡ (x - suc x / 2) + suc x / 2 = omega arith in
      let high : digits z f x (suc x / 2) (y / 2) ≡ bitwise z f (suc x / 2) (y / 2) =
        ap (λ (n : ℕ). digits z f n (suc x / 2) (y / 2)) rest
        ∙ spare (suc x / 2) (x - suc x / 2) (suc x / 2) (le_refl _) (y / 2) in
      omega (arith, high)

pub bit_and_step : (x y : ℕ) → bit_and x y ≡ min (x % 2) (y % 2) + 2 * bit_and (x / 2) (y / 2)
bit_and_step x y = simp bit_and-bitwise (lowest (λ y. 0) min (λ y. omega arith) x y)

pub bit_or_step : (x y : ℕ) → bit_or x y ≡ max (x % 2) (y % 2) + 2 * bit_or (x / 2) (y / 2)
bit_or_step x y = simp bit_or-bitwise (lowest (λ y. y) max (λ y. omega arith) x y)

pub bit_xor_step : (x y : ℕ) → bit_xor x y ≡ differ (x % 2) (y % 2) + 2 * bit_xor (x / 2) (y / 2)
bit_xor_step x y = simp bit_xor-bitwise (lowest (λ y. y) differ (λ y. omega arith) x y)

shl-suc : (x k : ℕ) → x * 2 ^ suc k ≡ x * 2 ^ k + x * 2 ^ k
shl-suc x k = omega (arith, ap (λ (factor : ℕ). x * factor) (pow-suc 2 k))

-- An operation with a law for the lowest digit splits at every position.
module _ (op f : ℕ → ℕ → ℕ)
    (step : (a b : ℕ) → op a b ≡ f (a % 2) (b % 2) + 2 * op (a / 2) (b / 2)) where
  op-zero : op 0 0 ≡ 0
  op-zero = omega (arith, step 0 0)

  halve : (k a c m : ℕ) → m ≡ a * 2 ^ suc k + c → (m / 2 ≡ a * 2 ^ k + c / 2) × (m % 2 ≡ c % 2)
  halve k a c m e = omega (arith, shl-suc a k)

  split_fields :
      (k a b c d : ℕ)
      → c < 2 ^ k
      → d < 2 ^ k
      → op (a * 2 ^ k + c) (b * 2 ^ k + d) ≡ op a b * 2 ^ k + op c d
  split_fields zero a b c d hc hd = ground (arith, op-zero)
  split_fields (suc k) a b c d hc hd = ground (
    arith,
    halve k a c (a * 2 ^ suc k + c) refl,
    halve k b d (b * 2 ^ suc k + d) refl,
    step (a * 2 ^ suc k + c) (b * 2 ^ suc k + d),
    step c d,
    shl-suc (op a b) k,
    pow-suc 2 k,
    split_fields k a b (c / 2) (d / 2) (omega (arith, pow-suc 2 k)) (omega (arith, pow-suc 2 k)),
  )

  split : (k a b : ℕ) → op a b ≡ op (a / 2 ^ k) (b / 2 ^ k) * 2 ^ k + op (a % 2 ^ k) (b % 2 ^ k)
  split k a b = ground (
    arith,
    div-add-mod' a (2 ^ k),
    div-add-mod' b (2 ^ k),
    split_fields k (a / 2 ^ k) (b / 2 ^ k) (a % 2 ^ k) (b % 2 ^ k)
        (mod-lt a (one-le-pow k 2 (omega arith))) (mod-lt b (one-le-pow k 2 (omega arith))),
  )

  -- An operation on two numbers of `k` digits has `k` digits.
  op-lt :
      ((x y : ℕ) → x < 2 → y < 2 → f x y < 2) → (k a b : ℕ) → a < 2 ^ k → b < 2 ^ k → op a b < 2 ^ k
  op-lt bit zero a b ha hb =
      let a0 : a ≡ 0 = omega arith in
      let b0 : b ≡ 0 = omega arith in rw (a0, b0) (omega (arith, op-zero))
  op-lt bit (suc k) a b ha hb = omega (
    arith,
    step a b,
    bit (a % 2) (b % 2) (omega arith) (omega arith),
    pow-suc 2 k,
    op-lt bit k (a / 2) (b / 2) (omega (arith, pow-suc 2 k)) (omega (arith, pow-suc 2 k)),
  )

pub bit_and-lt : (k a b : ℕ) → a < 2 ^ k → b < 2 ^ k → bit_and a b < 2 ^ k
bit_and-lt = op-lt bit_and min bit_and_step (λ x y p q. omega arith)

pub bit_or-lt : (k a b : ℕ) → a < 2 ^ k → b < 2 ^ k → bit_or a b < 2 ^ k
bit_or-lt = op-lt bit_or max bit_or_step (λ x y p q. omega arith)

pub bit_xor-lt : (k a b : ℕ) → a < 2 ^ k → b < 2 ^ k → bit_xor a b < 2 ^ k
bit_xor-lt = op-lt bit_xor differ bit_xor_step differ-lt
  where
    differ-lt : (x y : ℕ) → x < 2 → y < 2 → differ x y < 2
    differ-lt zero y p q = q
    differ-lt (suc zero) zero p q = p
    differ-lt (suc zero) (suc zero) p q = omega arith
    differ-lt (suc zero) (suc (suc y)) p q = absurd (omega arith)
    differ-lt (suc (suc x)) y p q = absurd (omega arith)

pub bit_and_split :
    (k a b : ℕ)
    → bit_and a b ≡ bit_and (a / 2 ^ k) (b / 2 ^ k) * 2 ^ k + bit_and (a % 2 ^ k) (b % 2 ^ k)
bit_and_split = split bit_and min bit_and_step

pub bit_or_split :
    (k a b : ℕ)
    → bit_or a b ≡ bit_or (a / 2 ^ k) (b / 2 ^ k) * 2 ^ k + bit_or (a % 2 ^ k) (b % 2 ^ k)
bit_or_split = split bit_or max bit_or_step

mod_halves : (k a : ℕ) → a % 2 ^ suc k ≡ a / 2 % 2 ^ k * 2 + a % 2
mod_halves k a =
    let q = a / 2 / 2 ^ k in
    let r = a / 2 % 2 ^ k * 2 + a % 2 in
    ap (λ (t : ℕ). t % 2 ^ suc k) (whole q)
    ∙ mul-add-mod_self_right q (2 ^ suc k) r
    ∙ mod-eq_of_lt (omega (arith, pow-suc 2 k, below))
  where
    below : a / 2 % 2 ^ k < 2 ^ k
    below = mod-lt (a / 2) (one-le-pow k 2 (omega arith))

    whole : (q : ℕ) → a ≡ a / 2 / 2 ^ k * 2 ^ suc k + (a / 2 % 2 ^ k * 2 + a % 2)
    whole q = omega (arith, div-add-mod' (a / 2) (2 ^ k), shl-suc (a / 2 / 2 ^ k) k)

differ-zero : (a : ℕ) → differ a 0 ≡ a
differ-zero zero = refl
differ-zero (suc a) = refl

acc_below : (k n : ℕ) → n < k → Acc ◌<◌ n
acc_below zero n h = absurd (omega arith)
acc_below (suc k) n h = Acc.intro n (λ m m<n. acc_below k m (omega arith))

lt_wf : WellFounded ◌<◌
lt_wf = record { apply = λ n. acc_below (suc n) n (le_refl _) }

pub bit_xor_split :
    (k a b : ℕ)
    → bit_xor a b ≡ bit_xor (a / 2 ^ k) (b / 2 ^ k) * 2 ^ k + bit_xor (a % 2 ^ k) (b % 2 ^ k)
bit_xor_split = split bit_xor differ bit_xor_step

-- A mask of `k` ones keeps the low `k` digits, and no digit is kept by zero.
pub bit_and-zero : (a : ℕ) → bit_and a 0 ≡ 0
bit_and-zero a = induction lt_wf {C = λ n. bit_and n 0 ≡ 0} a λ n ih. elim (ℕ_discrete n 0) [
  | yes e ↦ rw e refl
  | no ne ↦ omega (arith, bit_and_step n 0, ih (n / 2) (omega arith))
]

pub bit_or-zero : (a : ℕ) → bit_or a 0 ≡ a
bit_or-zero a = induction lt_wf {C = λ n. bit_or n 0 ≡ n} a λ n ih. elim (ℕ_discrete n 0) [
  | yes e ↦ rw e refl
  | no ne ↦ omega (arith, bit_or_step n 0, ih (n / 2) (omega arith))
]

pub bit_xor-zero : (a : ℕ) → bit_xor a 0 ≡ a
bit_xor-zero a = induction lt_wf {C = λ n. bit_xor n 0 ≡ n} a λ n ih. elim (ℕ_discrete n 0) [
  | yes e ↦ rw e refl
  | no ne ↦ omega (arith, bit_xor_step n 0, ih (n / 2) (omega arith), differ-zero (n % 2))
]

pub zero-bit_or : (b : ℕ) → bit_or 0 b ≡ b
zero-bit_or b = bit_or-bitwise 0 b

pub zero-bit_and : (b : ℕ) → bit_and 0 b ≡ 0
zero-bit_and b = bit_and-bitwise 0 b

mask_halves : (k : ℕ) → ((2 ^ suc k - 1) / 2 ≡ 2 ^ k - 1) × ((2 ^ suc k - 1) % 2 ≡ 1)
mask_halves k = omega (arith, pow-suc 2 k, one-le-pow k 2 (omega arith))

pub bit_and_mask : (k a : ℕ) → bit_and a (2 ^ k - 1) ≡ a % 2 ^ k
bit_and_mask zero a = omega (arith, bit_and-zero a)
bit_and_mask (suc k) a =
    ground
      (arith, bit_and_step a (2 ^ suc k - 1), mask_halves k, bit_and_mask k (a / 2), mod_halves k a)

-- Two fields that do not overlap.
pub bit_or_fields : (k q r : ℕ) → r < 2 ^ k → bit_or (q * 2 ^ k) r ≡ q * 2 ^ k + r
bit_or_fields k q r h = rw at_split (
    ap (λ (t : ℕ). t * 2 ^ k + bit_or 0 r) (bit_or-zero q)
    ∙ ap (λ (t : ℕ). q * 2 ^ k + t) (zero-bit_or r))
  where
    at_split : bit_or (q * 2 ^ k) r ≡ bit_or q 0 * 2 ^ k + bit_or 0 r
    at_split =
        ground
          (arith, split_fields bit_or max bit_or_step k q 0 0 r (one-le-pow k 2 (omega arith)) h)

pub fields-bit_or : (k q r : ℕ) → r < 2 ^ k → bit_or r (q * 2 ^ k) ≡ q * 2 ^ k + r
fields-bit_or k q r h =
    rw at_split (ap₂ (λ (x y : ℕ). x * 2 ^ k + y) (zero-bit_or q) (bit_or-zero r))
  where
    at_split : bit_or r (q * 2 ^ k) ≡ bit_or 0 q * 2 ^ k + bit_or r 0
    at_split =
        ground
          (arith, split_fields bit_or max bit_or_step k 0 q r 0 h (one-le-pow k 2 (omega arith)))
