-- ===== src/Header.antt =====
-- src/pointers.rs: `ObjMeta` and `AtomicObjMeta`, the header word of a managed object.
pub mod Fields
mod Tests
pub mod Mark
use cdpt.Base.{ℕ, zero, suc, ◌+◌, ◌-◌, ◌%◌, ◌^◌, Bool, bit_and, bit_or, bit_not, shl, shr}
use cdpt.Base.{wrapping_add, wrapping_sub, ◌==◌, if◌then◌else◌, Option, none, some, List, [], ◌∷◌}
use cdpt.Epoch.{Color, color_num, color_from, color_eq}

-- A `usize`.
pub record ObjMeta : Type 0 where
  pub bits : ℕ

abbrev type_id_bits : ℕ
type_id_bits = 8

abbrev color_shift : ℕ
color_shift = 63

abbrev type_id_shift : ℕ
type_id_shift = color_shift - type_id_bits

abbrev type_id_mask : ℕ
type_id_mask = shl (shl 1 type_id_bits - 1) type_id_shift

abbrev root_count_bits : ℕ
root_count_bits = type_id_shift

abbrev pub root_count_mask : ℕ
root_count_mask = shl 1 root_count_bits - 1

unfoldable pub new_with_type_id : Color → ℕ → ℕ → ObjMeta
new_with_type_id c count id = record {
  bits =
      bit_or (bit_or (shl (color_num c) color_shift) (shl id type_id_shift))
        (bit_and count root_count_mask);
}

-- The cast to `u8` is `% 2 ^ 8`.
unfoldable pub type_id : ObjMeta → ℕ
type_id m = shr (bit_and m.bits type_id_mask) type_id_shift % 2 ^ 8

unfoldable pub marked : ObjMeta → Color
unfolding color_from
marked m = color_from (shr m.bits color_shift)

unfoldable pub with_marked : ObjMeta → Color → ObjMeta
with_marked m c =
    let cleared = bit_and m.bits (bit_not (shl 1 color_shift)) in
    record { bits = bit_or cleared (shl (color_num c) color_shift) }

unfoldable pub root_count : ObjMeta → ℕ
root_count m = bit_and m.bits root_count_mask

-- `AtomicObjMeta::increment_root_count` and `decrement_root_count`: the new content and the result.
unfoldable pub increment_root_count : ObjMeta → ObjMeta × ℕ
increment_root_count m = (record { bits = wrapping_add m.bits 1 }, root_count m)

unfoldable pub decrement_root_count : ObjMeta → ObjMeta × ℕ
decrement_root_count m = (record { bits = wrapping_sub m.bits 1 }, root_count m)

-- What other threads have written when a compare-exchange comes: the next entry of `others`, or
-- nothing new.
abbrev pub seen : List ObjMeta → ObjMeta → ObjMeta
seen [] cell = cell
seen (x ∷ others) cell = x

abbrev pub later : List ObjMeta → List ObjMeta
later [] = []
later (x ∷ others) = others

-- The loop of `AtomicObjMeta::mark`, with fuel: the final content, with what others have not written
-- yet, and `none` while it still runs. `m` is the value that it has read, and `others` what other
-- threads write before each compare-exchange.
unfoldable pub mark_loop :
    ℕ → Color → List ObjMeta → ObjMeta → ObjMeta → Option (ObjMeta × List ObjMeta)
mark_loop zero black others cell m = none
mark_loop (suc fuel) black others cell m =
    let current = seen others cell in
    let retry = mark_loop fuel black (later others) current current in
    if color_eq (marked m) black
    then some (cell, others)
    else if current.bits == m.bits
    then some (with_marked m black, later others)
    else retry

pub mark : ℕ → Color → List ObjMeta → ObjMeta → Option (ObjMeta × List ObjMeta)
mark fuel black others cell = mark_loop fuel black others cell cell
