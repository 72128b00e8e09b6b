-- ===== src/Ptr/Words.antt =====
-- src/pointers.rs: the masks of `ManPtr` as arithmetic, at every alignment.
use cdpt.Base.{
  ℕ, zero, suc, ◌+◌, ◌-◌, ◌*◌, ◌/◌, ◌%◌, ◌^◌, ◌≤◌, ◌<◌, ◌≡◌, sym, ◌∙◌, arith, ap, IsWord,
}
use cdpt.Base.{bit_and, bit_or, bit_not}
use cdpt.Ptr.{ManPtr, low_bits, addr_bits, as_ptr}
use cdpt.Ptr.{tag, with_tag}
use cdpt.Base.Bits.{bit_and_split, bit_and_mask, bit_and-zero, bit_or_fields}
use mathlib.Core.Path.{ap₂}
use native.Mathlib.Nat.{div-div-eq-div-mul, mul_comm}
use native.Mathlib.Nat.{suc-mul, pow-suc, one-le-pow, mul-add-div_right, div-eq_of_lt, mod-eq_of_lt}
use native.Mathlib.Nat.{div-lt_iff_lt-mul, mul-add-mod_self_right, mod-lt, div-add-mod'}

pow-add : (a b : ℕ) → 2 ^ (a + b) ≡ 2 ^ a * 2 ^ b
pow-add zero b = ground (arith)
pow-add (suc a) b =
    ap (λ (k : ℕ). 2 ^ k) (suc-add a b)
    ∙ omega (arith, pow-suc 2 (a + b), ap (λ (x : ℕ). x * 2 ^ b) (pow-suc 2 a), pow-add a b)
  where
    suc-add : (a b : ℕ) → suc a + b ≡ suc (a + b)
    suc-add a b = omega arith

-- The quotient and the remainder of a number that is written in digits.
pub digits : (m q r : ℕ) → r < m → ((q * m + r) / m ≡ q) × ((q * m + r) % m ≡ r)
digits m q r h = (
  mul-add-div_right (omega arith) q r ∙ omega (arith, div-eq_of_lt h),
  mul-add-mod_self_right q m r ∙ mod-eq_of_lt h,
)

two-pow-pos : (k : ℕ) → 1 ≤ 2 ^ k
two-pow-pos k = one-le-pow k 2 (omega arith)

-- 2 ^ n in two digits, and the mask of n ones.
split-pow : (t n : ℕ) → t ≤ n → 2 ^ n ≡ 2 ^ (n - t) * 2 ^ t
split-pow t n h =
    let e : n - t + t ≡ n = omega arith in ap (λ (k : ℕ). 2 ^ k) (sym e) ∙ pow-add (n - t) t

pred-suc : (d : ℕ) → suc d - 1 ≡ d
pred-suc d = omega arith

-- The largest number of two digits, and what is left of it above the lower one.
below_whole : (d m : ℕ) → 1 ≤ d → 1 ≤ m → d * m - 1 ≡ (d - 1) * m + (m - 1)
below_whole zero m p q = absurd (omega arith)
below_whole (suc d) m p q = rw (pred-suc d) (omega (arith, suc-mul d m))

above_mask : (d m : ℕ) → 1 ≤ d → 1 ≤ m → d * m - 1 - (m - 1) ≡ (d - 1) * m + 0
above_mask zero m p q = absurd (omega arith)
above_mask (suc d) m p q = rw (pred-suc d) (omega (arith, suc-mul d m))

mask_digits :
    (t n : ℕ) → t ≤ n → ((2 ^ n - 1) / 2 ^ t ≡ 2 ^ (n - t) - 1) × ((2 ^ n - 1) % 2 ^ t ≡ 2 ^ t - 1)
mask_digits t n h =
    ground
      (arith, digits (2 ^ t) (2 ^ (n - t) - 1) (2 ^ t - 1) (omega (arith, two-pow-pos t)), whole)
  where
    whole : 2 ^ n - 1 ≡ (2 ^ (n - t) - 1) * 2 ^ t + (2 ^ t - 1)
    whole =
        ap (λ (x : ℕ). x - 1) (split-pow t n h)
        ∙ below_whole (2 ^ (n - t)) (2 ^ t) (two-pow-pos (n - t)) (two-pow-pos t)

not_mask : (t : ℕ) → t ≤ 64 → bit_not (2 ^ t - 1) ≡ (2 ^ (64 - t) - 1) * 2 ^ t + 0
not_mask t h =
    ap (λ (x : ℕ). x - 1 - (2 ^ t - 1)) (split-pow t 64 h)
    ∙ above_mask (2 ^ (64 - t)) (2 ^ t) (two-pow-pos (64 - t)) (two-pow-pos t)

-- `x & !(2 ^ t - 1)` clears the low digits of a word.
clear_low : (t x : ℕ) → t ≤ 64 → IsWord x → bit_and x (bit_not (2 ^ t - 1)) ≡ x / 2 ^ t * 2 ^ t
clear_low t x h hx = ground (
  arith,
  ap (bit_and x) (not_mask t h),
  bit_and_split t x ((2 ^ (64 - t) - 1) * 2 ^ t + 0),
  digits (2 ^ t) (2 ^ (64 - t) - 1) 0 (two-pow-pos t),
  bit_and_mask (64 - t) (x / 2 ^ t),
  bit_and-zero (x % 2 ^ t),
  mod-eq_of_lt (quotient_lt t x h hx),
)
  where
    quotient_lt : (t x : ℕ) → t ≤ 64 → IsWord x → x / 2 ^ t < 2 ^ (64 - t)
    quotient_lt t x h hx = (div-lt_iff_lt-mul (two-pow-pos t)).1 (rw (← split-pow t 64 h) hx)

le-mul_pos : (d m : ℕ) → 1 ≤ d → m ≤ d * m
le-mul_pos zero m p = absurd (omega arith)
le-mul_pos (suc d) m p = omega (arith, suc-mul d m)

-- A word of three digits: the metadata, the address without its low bits, and the tag.
abbrev pub word_of : ℕ → ℕ → ℕ → ℕ → ℕ
word_of t m a r = (m * 2 ^ (62 - t) + a) * 2 ^ t + r

module _ (t : ℕ) (h : t ≤ 62) where
  pow_word : 2 ^ 62 ≡ 2 ^ (62 - t) * 2 ^ t
  pow_word = split-pow t 62 h

  pow-le : 2 ^ t ≤ 2 ^ 62
  pow-le = rw pow_word (le-mul_pos (2 ^ (62 - t)) (2 ^ t) (two-pow-pos (62 - t)))

  low_bits_word : low_bits t ≡ 2 ^ t - 1
  low_bits_word = omega (arith, pow-le)

  addr_bits_word : addr_bits t ≡ (2 ^ (62 - t) - 1) * 2 ^ t + 0
  addr_bits_word = omega (
    arith,
    ap (λ (x : ℕ). bit_and (2 ^ 62 - 1) (bit_not x)) low_bits_word,
    clear_low t (2 ^ 62 - 1) (omega arith) (omega arith),
    ap (λ (x : ℕ). x * 2 ^ t) (mask_digits t 62 h).0,
  )

  pub tag_word : (p : ManPtr) → tag t p ≡ p.addr % 2 ^ t
  unfolding tag
  tag_word p = ap (bit_and p.addr) low_bits_word ∙ bit_and_mask t p.addr

  pub as_ptr_word : (p : ManPtr) → as_ptr t p ≡ p.addr / 2 ^ t % 2 ^ (62 - t) * 2 ^ t
  unfolding as_ptr
  as_ptr_word p =
      ap (bit_and p.addr) addr_bits_word
      ∙ ground (
        arith,
        bit_and_split t p.addr ((2 ^ (62 - t) - 1) * 2 ^ t + 0),
        digits (2 ^ t) (2 ^ (62 - t) - 1) 0 (two-pow-pos t),
        bit_and_mask (62 - t) (p.addr / 2 ^ t),
        bit_and-zero (p.addr % 2 ^ t),
      )

  pub with_tag_word :
      (p : ManPtr) (v : ℕ)
      → IsWord p.addr
      → (with_tag t p v).addr ≡ p.addr / 2 ^ t * 2 ^ t + v % 2 ^ t
  unfolding with_tag
  with_tag_word p v hp =
      ap₂ bit_or cleared masked
      ∙ bit_or_fields t (p.addr / 2 ^ t) (v % 2 ^ t) (mod-lt v (two-pow-pos t))
    where
      cleared : bit_and p.addr (bit_not (low_bits t)) ≡ p.addr / 2 ^ t * 2 ^ t
      cleared =
          ap (λ (x : ℕ). bit_and p.addr (bit_not x)) low_bits_word
          ∙ clear_low t p.addr (omega arith) hp

      masked : bit_and v (low_bits t) ≡ v % 2 ^ t
      masked = ap (bit_and v) low_bits_word ∙ bit_and_mask t v

  -- What the digits of a word are, and that they make it up.
  pub digits_word :
      (m a r : ℕ)
      → a < 2 ^ (62 - t)
      → r < 2 ^ t
      → (word_of t m a r % 2 ^ t ≡ r)
        × (word_of t m a r / 2 ^ t % 2 ^ (62 - t) ≡ a)
        × (word_of t m a r / 2 ^ 62 ≡ m)
  digits_word m a r ha hr = ground (
    arith,
    digits (2 ^ t) (m * 2 ^ (62 - t) + a) r hr,
    digits (2 ^ (62 - t)) m a ha,
    div-div-eq-div-mul (word_of t m a r) (2 ^ t) (2 ^ (62 - t)),
    mul_comm (2 ^ t) (2 ^ (62 - t)),
    pow_word,
  )

  pub word_digits : (x : ℕ) → x ≡ word_of t (x / 2 ^ 62) (x / 2 ^ t % 2 ^ (62 - t)) (x % 2 ^ t)
  word_digits x = ground (
    arith,
    div-add-mod' x (2 ^ t),
    div-add-mod' (x / 2 ^ t) (2 ^ (62 - t)),
    div-div-eq-div-mul x (2 ^ t) (2 ^ (62 - t)),
    mul_comm (2 ^ t) (2 ^ (62 - t)),
    pow_word,
  )

  pub high_digits : (x : ℕ) → x / 2 ^ t ≡ x / 2 ^ 62 * 2 ^ (62 - t) + x / 2 ^ t % 2 ^ (62 - t)
  high_digits x = ground (
    arith,
    div-add-mod' (x / 2 ^ t) (2 ^ (62 - t)),
    div-div-eq-div-mul x (2 ^ t) (2 ^ (62 - t)),
    mul_comm (2 ^ t) (2 ^ (62 - t)),
    pow_word,
  )

  pub low_digits : (x : ℕ) → x % 2 ^ 62 ≡ x / 2 ^ t % 2 ^ (62 - t) * 2 ^ t + x % 2 ^ t
  low_digits x = ground (arith, word_digits x, ap (λ (y : ℕ). x / 2 ^ 62 * y) pow_word)

  -- The three digits after the metadata are replaced.
  pub meta_digits :
      (m x : ℕ) → m * 2 ^ 62 + x % 2 ^ 62 ≡ word_of t m (x / 2 ^ t % 2 ^ (62 - t)) (x % 2 ^ t)
  meta_digits m x = ground (arith, low_digits x, ap (λ (y : ℕ). m * y) pow_word)

  pub masked_tag : (v : ℕ) → bit_and v (low_bits t) ≡ v % 2 ^ t
  masked_tag v = ap (bit_and v) low_bits_word ∙ bit_and_mask t v
