-- ===== src/Epoch/Words.antt =====
-- src/epoch.rs: the masks and shifts of the accessors and updates of an epoch, as arithmetic.
use cdpt.Base.{ℕ, zero, suc, ◌+◌, ◌*◌, ◌/◌, ◌%◌, ◌^◌, ◌<◌, ◌≡◌, refl}
use cdpt.Base.{arith, ap, bit_and, bit_or, bit_not, shl, IsWord, ltb}
use cdpt.Base.Bits.{
  bit_and_split, bit_or_split, bit_and_mask, bit_and-zero, bit_or-zero, zero-bit_or,
}
use cdpt.Epoch.{Phase, normal, rt, ct, Color, c0, c1, Epoch, is_pinned, pinned, unpinned, phase}
use cdpt.Epoch.{
  with_phase, color, with_color, timestamp, with_timestamp, phase_num, color_num, phase_from,
  color_from,
}

-- The masked words as arithmetic.
and_pinned : (x : ℕ) → bit_and x 1 ≡ x % 2
and_pinned x = bit_and_mask 1 x

and_phase : (x : ℕ) → bit_and x 6 ≡ x / 2 % 4 * 2
and_phase x = omega (arith, bit_and_split 1 x 6, bit_and_mask 2 (x / 2), bit_and-zero (x % 2))

and_color : (x : ℕ) → bit_and x 8 ≡ x / 8 % 2 * 8
and_color x = omega (arith, bit_and_split 3 x 8, bit_and_mask 1 (x / 8), bit_and-zero (x % 8))

and_timestamp : (x : ℕ) → IsWord x → bit_and x 0xffff_ffff_ffff_fff0 ≡ x / 16 * 16
and_timestamp x h = omega (
  arith,
  bit_and_split 4 x 0xffff_ffff_ffff_fff0,
  bit_and_mask 60 (x / 16),
  bit_and-zero (x % 16),
)

clear_pinned : (x : ℕ) → IsWord x → bit_and x (bit_not 1) ≡ x / 2 * 2
clear_pinned x h =
    omega (arith, bit_and_split 1 x (bit_not 1), bit_and_mask 63 (x / 2), bit_and-zero (x % 2))

clear_phase : (x : ℕ) → IsWord x → bit_and x (bit_not 6) ≡ x / 8 * 8 + x % 2
clear_phase x h =
    omega (arith, bit_and_split 3 x (bit_not 6), bit_and_mask 61 (x / 8), bit_and_mask 1 (x % 8))

clear_color : (x : ℕ) → IsWord x → bit_and x (bit_not 8) ≡ x / 16 * 16 + x % 8
clear_color x h =
    omega (arith, bit_and_split 4 x (bit_not 8), bit_and_mask 60 (x / 16), bit_and_mask 3 (x % 16))

clear_timestamp : (x : ℕ) → bit_and x (bit_not 0xffff_ffff_ffff_fff0) ≡ x % 16
clear_timestamp x = bit_and_mask 4 x

-- Disjoint fields side by side.
or_pinned : (x : ℕ) → bit_or x 1 ≡ x / 2 * 2 + 1
or_pinned x = omega (arith, bit_or_split 1 x 1, bit_or-zero (x / 2), bit_one (x % 2) (omega arith))
  where
    bit_one : (b : ℕ) → b < 2 → bit_or b 1 ≡ 1
    bit_one zero h = refl
    bit_one (suc zero) h = refl
    bit_one (suc (suc b)) h = absurd (omega arith)

or_fields : (q v r : ℕ) → v < 4 → r < 2 → bit_or (q * 8 + r) (v * 2) ≡ q * 8 + v * 2 + r
or_fields q v r hv hr = ground (
  arith,
  bit_or_split 3 (q * 8 + r) (v * 2),
  bit_or-zero q,
  bit_or_split 1 r (v * 2),
  zero-bit_or v,
  bit_or-zero r,
)

or_color_field : (q v r : ℕ) → v < 2 → r < 8 → bit_or (q * 16 + r) (v * 8) ≡ q * 16 + v * 8 + r
or_color_field q v r hv hr = ground (
  arith,
  bit_or_split 4 (q * 16 + r) (v * 8),
  bit_or-zero q,
  bit_or_split 3 r (v * 8),
  zero-bit_or v,
  bit_or-zero r,
)

or_timestamp_field : (r v : ℕ) → r < 16 → bit_or r (v * 16) ≡ v * 16 + r
or_timestamp_field r v hr = ground (arith, bit_or_split 4 r (v * 16), zero-bit_or v, bit_or-zero r)

-- The updates as arithmetic on the word.
pub pinned_word : (e : Epoch) → (pinned e).data_bits ≡ e.data_bits / 2 * 2 + 1
unfolding pinned
pinned_word e = or_pinned e.data_bits

pub unpinned_word : (e : Epoch) → IsWord e.data_bits → (unpinned e).data_bits ≡ e.data_bits / 2 * 2
unfolding unpinned
unpinned_word e h = clear_pinned e.data_bits h

pub with_phase_word :
    (e : Epoch) (p : Phase)
    → IsWord e.data_bits
    → (with_phase e p).data_bits ≡ e.data_bits / 8 * 8 + phase_num p * 2 + e.data_bits % 2
unfolding with_phase
with_phase_word e p h = rw (clear_phase e.data_bits h) (fit p)
  where
    q : ℕ
    q = e.data_bits / 8

    r : ℕ
    r = e.data_bits % 2

    fit : (p : Phase) → bit_or (q * 8 + r) (shl (phase_num p) 1) ≡ q * 8 + phase_num p * 2 + r
    fit normal = or_fields q 0 r (omega arith) (omega arith)
    fit rt = or_fields q 1 r (omega arith) (omega arith)
    fit ct = or_fields q 2 r (omega arith) (omega arith)

pub with_color_word :
    (e : Epoch) (c : Color)
    → IsWord e.data_bits
    → (with_color e c).data_bits ≡ e.data_bits / 16 * 16 + color_num c * 8 + e.data_bits % 8
unfolding with_color
with_color_word e c h = rw (clear_color e.data_bits h) (fit c)
  where
    q : ℕ
    q = e.data_bits / 16

    r : ℕ
    r = e.data_bits % 8

    fit : (c : Color) → bit_or (q * 16 + r) (shl (color_num c) 3) ≡ q * 16 + color_num c * 8 + r
    fit c0 = or_color_field q 0 r (omega arith) (omega arith)
    fit c1 = or_color_field q 1 r (omega arith) (omega arith)

pub with_timestamp_word :
    (e : Epoch) (v : ℕ) → (with_timestamp e v).data_bits ≡ v % 2 ^ 60 * 16 + e.data_bits % 16
unfolding with_timestamp
with_timestamp_word e v =
    rw (clear_timestamp e.data_bits, shifted)
      (or_timestamp_field (e.data_bits % 16) (v % 2 ^ 60) (omega arith))
  where
    shifted : shl v 4 ≡ v % 2 ^ 60 * 16
    shifted = omega arith

-- The accessors as arithmetic on the word.
pub is_pinned_word : (e : Epoch) → is_pinned e ≡ ltb 0 (e.data_bits % 2)
unfolding is_pinned
is_pinned_word e = rw (and_pinned e.data_bits)

pub phase_word : (e : Epoch) → phase e ≡ phase_from (e.data_bits / 2 % 4)
unfolding phase
phase_word e =
    let q : bit_and e.data_bits 6 / 2 ≡ e.data_bits / 2 % 4 =
      omega (arith, and_phase e.data_bits) in
    ap phase_from q

pub color_word : (e : Epoch) → color e ≡ color_from (e.data_bits / 8 % 2)
unfolding color
color_word e = ap color_from {y = e.data_bits / 8 % 2} (omega (arith, and_color e.data_bits))

pub timestamp_word : (e : Epoch) → IsWord e.data_bits → timestamp e ≡ e.data_bits / 16
unfolding timestamp
timestamp_word e h = omega (arith, and_timestamp e.data_bits h)
