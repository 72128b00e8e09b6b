-- ===== src/Epoch.antt =====
-- src/epoch.rs: the packed epoch word, phases, colors and `AtomicEpoch`.
mod Words
pub mod Fields
mod Tests
use cdpt.Base.{ℕ, zero, suc, ◌+◌, ◌<◌, ◌≡◌, refl, Bool, true, false, Option, none, some, arith}
use cdpt.Base.{bit_and, bit_or, bit_not, shl, shr, word_size, ltb, ◌==◌, if◌then◌else◌, ◌-◌, ◌⊎◌}
use cdpt.Base.{inl, inr}

-- `Phase`: `N`, `RT` and `CT`.
pub data Phase : Type 0 where
  normal rt ct : Phase

-- `phase as usize`
abbrev pub phase_num : Phase → ℕ
phase_num normal = 0
phase_num rt = 1
phase_num ct = 2

-- `Phase::from(usize)`; `none` is the panic "Invalid phase number".
unfoldable pub phase_from : ℕ → Option Phase
phase_from value =
    if value == 0
    then some normal
    else if value == 1
    then some rt
    else if value == 2
    then some ct
    else none

pub data Color : Type 0 where
  c0 c1 : Color

-- `color as usize`
abbrev pub color_num : Color → ℕ
color_num c0 = 0
color_num c1 = 1

-- `Color::from(usize)`: every value but 0 is `c1`.
unfoldable pub color_from : ℕ → Color
color_from value = if value == 0 then c0 else c1

-- `Color::flip`
abbrev pub flip : Color → Color
flip c0 = c1
flip c1 = c0

-- `==` on colors and on phases (`derive(PartialEq)`).
abbrev pub color_eq : Color → Color → Bool
color_eq c0 c0 = true
color_eq c1 c1 = true
color_eq _ _ = false

abbrev pub phase_eq : Phase → Phase → Bool
phase_eq normal normal = true
phase_eq rt rt = true
phase_eq ct ct = true
phase_eq _ _ = false

-- `data` is a `usize`.
pub record Epoch : Type 0 where
  pub data_bits : ℕ

abbrev pinned_pos : ℕ
pinned_pos = 0

abbrev phase_number_pos : ℕ
phase_number_pos = pinned_pos + 1

abbrev color_pos : ℕ
color_pos = phase_number_pos + 2

abbrev timestamp_pos : ℕ
timestamp_pos = color_pos + 1

abbrev pinned_bit : ℕ
pinned_bit = shl 1 pinned_pos

abbrev phase_number_bits : ℕ
phase_number_bits = shl 3 phase_number_pos

abbrev color_bit : ℕ
color_bit = shl 1 color_pos

abbrev timestamp_bits : ℕ
timestamp_bits = shl (word_size - 1) timestamp_pos

-- `Epoch::starting`
abbrev pub starting : Epoch
starting = record { data_bits = 0 }

unfoldable pub is_pinned : Epoch → Bool
is_pinned e = ltb 0 (bit_and e.data_bits pinned_bit)

unfoldable pub pinned : Epoch → Epoch
pinned e = record { data_bits = bit_or e.data_bits pinned_bit }

unfoldable pub unpinned : Epoch → Epoch
unpinned e = record { data_bits = bit_and e.data_bits (bit_not pinned_bit) }

-- `none` is the panic of `Phase::from`.
unfoldable pub phase : Epoch → Option Phase
unfolding phase_from
phase e = phase_from (shr (bit_and e.data_bits phase_number_bits) phase_number_pos)

unfoldable pub with_phase : Epoch → Phase → Epoch
with_phase e p = record {
  data_bits =
      bit_or (bit_and e.data_bits (bit_not phase_number_bits)) (shl (phase_num p) phase_number_pos);
}

unfoldable pub color : Epoch → Color
unfolding color_from
color e = color_from (shr (bit_and e.data_bits color_bit) color_pos)

unfoldable pub with_color : Epoch → Color → Epoch
with_color e c = record {
  data_bits = bit_or (bit_and e.data_bits (bit_not color_bit)) (shl (color_num c) color_pos);
}

unfoldable pub timestamp : Epoch → ℕ
timestamp e = shr (bit_and e.data_bits timestamp_bits) timestamp_pos

unfoldable pub with_timestamp : Epoch → ℕ → Epoch
with_timestamp e value = record {
  data_bits = bit_or (bit_and e.data_bits (bit_not timestamp_bits)) (shl value timestamp_pos);
}

-- `AtomicEpoch::compare_exchange`: the new content and the result, `inl` for `Ok`, `inr` for `Err`.
pub compare_exchange : Epoch → Epoch → Epoch → Epoch × (Epoch ⊎ Epoch)
compare_exchange cell current new =
    if cell.data_bits == current.data_bits
    then (new, inl (record { data_bits = cell.data_bits }))
    else (cell, inr (record { data_bits = cell.data_bits }))
