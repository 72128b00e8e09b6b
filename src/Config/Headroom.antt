-- ===== src/Config/Headroom.antt =====
-- src/internal.rs: the packed heap headroom.
use cdpt.Base.{
  ℕ, ◌+◌, ◌*◌, ◌/◌, ◌%◌, ◌^◌, ◌<◌, ◌≤◌, ◌≡◌, ap, arith, true, false, ◌==◌, bit_and, bit_or, bit_not,
}
use cdpt.Base.Bits.{bit_and_split, bit_and_mask, bit_and-zero, fields-bit_or}
use cdpt.Config.{
  clamp, HeapHeadroom, fixed_mib, proportional, pack, unpack, headroom_proportional_bit, Settings,
  set_heap_headroom, heap_headroom,
}

pub clamp-bounds :
    (x low high : ℕ) → low ≤ high → (low ≤ clamp x low high) × (clamp x low high ≤ high)
unfolding clamp
clamp-bounds x low high h = ground arith

-- The setting with its number brought into the documented range.
unfoldable pub clamped : HeapHeadroom → HeapHeadroom
clamped (fixed_mib mib) = fixed_mib (clamp mib 1 1024)
clamped (proportional div) = proportional (clamp div 1 1024)

high_bit : (x : ℕ) → bit_and x headroom_proportional_bit ≡ x / 2 ^ 63 % 2 * 2 ^ 63
high_bit x = omega (
  arith,
  bit_and_split 63 x 0x8000_0000_0000_0000,
  bit_and_mask 1 (x / 2 ^ 63),
  bit_and-zero (x % 2 ^ 63),
)

below_flag : (x : ℕ) → bit_and x (bit_not headroom_proportional_bit) ≡ x % 2 ^ 63
below_flag x = bit_and_mask 63 x

packed : (c : ℕ) → c < 2 ^ 63 → bit_or c headroom_proportional_bit ≡ 2 ^ 63 + c
packed c h = omega (arith, fields-bit_or 63 1 c h)

unpack-pack : (h : HeapHeadroom) → unpack (pack h) ≡ clamped h
unfolding pack unpack clamped
unpack-pack (fixed_mib mib) =
    let bounds = clamp-bounds mib 1 1024 (omega arith) in
    let word = clamp mib 1 1024 * 1024 * 1024 in
    let fixed : (bit_and word headroom_proportional_bit == 0) ≡ true =
      ground (arith, high_bit word, bounds) in
    rw fixed (ap fixed_mib (omega (arith, bounds)))
unpack-pack (proportional div) =
    let bounds = clamp-bounds div 1 1024 (omega arith) in
    let whole = packed (clamp div 1 1024) (omega (arith, bounds)) in
    let word = bit_or (clamp div 1 1024) headroom_proportional_bit in
    let fixed : (bit_and word headroom_proportional_bit == 0) ≡ false =
      ground (arith, high_bit word, bounds, whole) in
    rw fixed (ap proportional (omega (arith, below_flag word, bounds, whole)))

-- The heap headroom that is read is the one that was set, with its number in the range from 1 to
-- 1024.
pub heap_headroom-set_heap_headroom :
    (h : HeapHeadroom) (s : Settings) → heap_headroom (set_heap_headroom h s) ≡ clamped h
unfolding heap_headroom set_heap_headroom
heap_headroom-set_heap_headroom h s = unpack-pack h
