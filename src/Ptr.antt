-- ===== src/Ptr.antt =====
-- src/pointers.rs: `PtrMeta` and `ManPtr`, a word with two metadata bits at the top, the address,
-- and a tag in the low bits that the alignment of the pointee leaves free.
mod Words
pub mod Views
pub mod Fields
mod Tests
use cdpt.Base.{
  ℕ, ◌+◌, ◌-◌, ◌<◌, Bool, true, false, bit_and, bit_or, bit_xor, bit_not, shl, word_size,
}
use cdpt.Base.{◌==◌, if◌then◌else◌, Option, none, some}
use cdpt.Epoch.{Color, c0, c1, color_from}

pub data PtrMeta : Type 0 where
  rooted : PtrMeta
  unrooted : Color → PtrMeta

-- `==` (`derive(PartialEq)`)
abbrev pub ptr_meta_eq : PtrMeta → PtrMeta → Bool
ptr_meta_eq rooted rooted = true
ptr_meta_eq (unrooted c0) (unrooted c0) = true
ptr_meta_eq (unrooted c1) (unrooted c1) = true
ptr_meta_eq _ _ = false

-- `data`, a pointer, by its address.
pub record ManPtr : Type 0 where
  pub addr : ℕ

-- `usize::BITS`
abbrev usize_bits : ℕ
usize_bits = 64

abbrev meta_width : ℕ
meta_width = 2

abbrev meta_bits : ℕ
meta_bits = shl (shl 1 meta_width - 1) (usize_bits - meta_width)

-- `ManPtr::null_base`
abbrev pub null_base : ManPtr
null_base = record { addr = 0 }

unfoldable pub meta : ManPtr → PtrMeta
unfolding color_from
meta p =
    if bit_and p.addr (shl 1 (usize_bits - 1)) == 0
    then rooted
    else unrooted (color_from (bit_and p.addr (shl 1 (usize_bits - 2))))

abbrev meta_num : PtrMeta → ℕ
meta_num rooted = 0
meta_num (unrooted c0) = 2
meta_num (unrooted c1) = 3

unfoldable pub with_meta : ManPtr → PtrMeta → ManPtr
with_meta p m =
    let wo_meta = bit_and p.addr (bit_not meta_bits) in
    record { addr = bit_or (shl (meta_num m) (usize_bits - meta_width)) wo_meta }

unfoldable pub without_meta : ManPtr → ManPtr
without_meta p = record { addr = bit_and p.addr (bit_not meta_bits) }

unfoldable pub unrooted_color_unchecked : ManPtr → Color
unfolding color_from
unrooted_color_unchecked p = color_from (bit_and p.addr (shl 1 (usize_bits - 2)))

-- `align_of::<ManObj<T>>().trailing_zeros()`, which depends on the type `T` of the object.
module _ (align_log : ℕ) where
  abbrev pub low_bits : ℕ
  low_bits = shl 1 align_log - 1

  abbrev pub addr_bits : ℕ
  addr_bits = bit_and (bit_and (word_size - 1) (bit_not meta_bits)) (bit_not low_bits)

  pub null_rooted_with_tag : ℕ → ManPtr
  null_rooted_with_tag v = record { addr = bit_and v low_bits }

  -- the address that `as_ptr` gives
  unfoldable pub as_ptr : ManPtr → ℕ
  as_ptr p = bit_and p.addr addr_bits

  unfoldable pub tag : ManPtr → ℕ
  tag p = bit_and p.addr low_bits

  unfoldable pub with_tag : ManPtr → ℕ → ManPtr
  with_tag p v = record { addr = bit_or (bit_and p.addr (bit_not low_bits)) (bit_and v low_bits) }

  unfoldable pub is_null : ManPtr → Bool
  unfolding as_ptr
  is_null p = as_ptr p == 0

  -- `as_local_with_tag`: the address in the `Local` (`Local::from_raw`), and the tag.
  unfoldable pub as_local_with_tag : ManPtr → Option ℕ × ℕ
  unfolding is_null
  as_local_with_tag p =
      (if is_null p then none else some (as_ptr (with_tag (without_meta p) 0)), tag p)

  -- `AtomicSharedOption::fetch_tag_and`, `fetch_tag_or` and `fetch_tag_xor`: the new link, and the
  -- result, which is read off the old one.
  pub fetch_tag_and : ManPtr → ℕ → ManPtr × (Option ℕ × ℕ)
  fetch_tag_and link v =
      (record { addr = bit_and link.addr (bit_and v low_bits) }, as_local_with_tag link)

  pub fetch_tag_or : ManPtr → ℕ → ManPtr × (Option ℕ × ℕ)
  fetch_tag_or link v =
      (record { addr = bit_or link.addr (bit_and v low_bits) }, as_local_with_tag link)

  pub fetch_tag_xor : ManPtr → ℕ → ManPtr × (Option ℕ × ℕ)
  fetch_tag_xor link v =
      (record { addr = bit_xor link.addr (bit_and v low_bits) }, as_local_with_tag link)
