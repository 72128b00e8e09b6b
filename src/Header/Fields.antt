-- ===== src/Header/Fields.antt =====
-- src/pointers.rs: what the accessors of an object header see after each update.
use mathlib.Core.Path.{ap₂}
use cdpt.Base.{ℕ, ◌+◌, ◌-◌, ◌*◌, ◌/◌, ◌%◌, ◌^◌, ◌≤◌, ◌<◌, ◌≡◌, refl, sym, ◌∙◌, arith, ap, IsWord}
use cdpt.Base.{bit_or, shl}
use cdpt.Base.Bits.{bit_and_split, bit_and_mask, bit_and-zero, bit_or_fields, fields-bit_or}
use cdpt.Epoch.{Color, c0, c1, color_from, color_num}
use cdpt.Header.{
  ObjMeta, new_with_type_id, type_id, marked, with_marked, root_count, root_count_mask,
}
use cdpt.Header.{increment_root_count, decrement_root_count}

pub record Fields : Type 0 where
  pub marked : Color
  pub type_id : ℕ
  pub root_count : ℕ

abbrev pub fields : ObjMeta → Fields
fields m = record { marked = marked m; type_id = type_id m; root_count = root_count m }

word_fields : ℕ → Fields
word_fields x = record {
  marked = color_from (x / 2 ^ 63);
  type_id = x / 2 ^ 55 % 2 ^ 8;
  root_count = x % 2 ^ 55;
}

type_id_word : (m : ObjMeta) → type_id m ≡ m.bits / 2 ^ 55 % 2 ^ 8
unfolding type_id
type_id_word m = omega (
  arith,
  bit_and_split 55 m.bits 0x7f80_0000_0000_0000,
  bit_and_mask 8 (m.bits / 2 ^ 55),
  bit_and-zero (m.bits % 2 ^ 55),
)

root_count_word : (m : ObjMeta) → root_count m ≡ m.bits % 2 ^ 55
unfolding root_count
root_count_word m = bit_and_mask 55 m.bits

fields_word : (m : ObjMeta) → fields m ≡ word_fields m.bits
unfolding word_fields marked
fields_word m =
    λ i. record { marked = marked m; type_id = type_id_word m i; root_count = root_count_word m i }

shifted : (c : Color) → shl (color_num c) 63 ≡ color_num c * 2 ^ 63
shifted c0 = refl
shifted c1 = refl

with_marked_word :
    (m : ObjMeta) (c : Color) → (with_marked m c).bits ≡ color_num c * 2 ^ 63 + m.bits % 2 ^ 63
unfolding with_marked
with_marked_word m c =
    ap₂ bit_or (bit_and_mask 63 m.bits) (shifted c)
    ∙ fields-bit_or 63 (color_num c) (m.bits % 2 ^ 63) (omega arith)

new_word :
    (c : Color) (count id : ℕ)
    → id < 2 ^ 8
    → (new_with_type_id c count id).bits ≡ color_num c * 2 ^ 63 + id * 2 ^ 55 + count % 2 ^ 55
unfolding new_with_type_id
new_word c count id h =
    ap₂ bit_or top (bit_and_mask 55 count)
    ∙ bit_or_fields 55 (color_num c * 2 ^ 8 + id) (count % 2 ^ 55) (omega arith)
    ∙ omega arith
  where
    top : bit_or (shl (color_num c) 63) (shl id 55) ≡ (color_num c * 2 ^ 8 + id) * 2 ^ 55
    top =
        ap₂ bit_or (shifted c) id_shifted
        ∙ bit_or_fields 63 (color_num c) (id * 2 ^ 55) (omega arith)
        ∙ omega arith
      where
        id_shifted : shl id 55 ≡ id * 2 ^ 55
        id_shifted = omega arith

word_fields_of :
    (c : Color) (id count : ℕ)
    → id < 2 ^ 8
    → count < 2 ^ 55
    → word_fields (color_num c * 2 ^ 63 + id * 2 ^ 55 + count % 2 ^ 55)
      ≡ record { marked = c; type_id = id; root_count = count }
unfolding word_fields color_from
word_fields_of c0 id count hi hc = ground arith
word_fields_of c1 id count hi hc = ground arith

word_fields_marked :
    (x : ℕ) (c : Color)
    → word_fields (color_num c * 2 ^ 63 + x % 2 ^ 63) ≡ record (word_fields x) { marked = c }
unfolding word_fields color_from
word_fields_marked x c0 = ground arith
word_fields_marked x c1 = ground arith

word_fields_inc :
    (x : ℕ)
    → IsWord x
    → x % 2 ^ 55 < 2 ^ 55 - 1
    → word_fields ((x + 1) % 2 ^ 64) ≡ record (word_fields x) { root_count = x % 2 ^ 55 + 1 }
unfolding word_fields color_from
word_fields_inc x h r = ground arith

word_fields_dec :
    (x : ℕ)
    → IsWord x
    → 0 < x % 2 ^ 55
    → word_fields ((x + 2 ^ 64 - 1) % 2 ^ 64)
      ≡ record (word_fields x) { root_count = x % 2 ^ 55 - 1 }
unfolding word_fields color_from
word_fields_dec x h r = ground arith

-- A header that is made of a color, a type id and a root count in range shows them.
pub fields-new_with_type_id :
    (c : Color) (count id : ℕ)
    → count ≤ root_count_mask
    → id < 2 ^ 8
    → fields (new_with_type_id c count id) ≡ record { marked = c; type_id = id; root_count = count }
fields-new_with_type_id c count id hc hi =
    fields_word (new_with_type_id c count id)
    ∙ ap word_fields (new_word c count id hi)
    ∙ word_fields_of c id count hi (omega arith)

pub fields-with_marked :
    (m : ObjMeta) (c : Color) → fields (with_marked m c) ≡ record (fields m) { marked = c }
fields-with_marked m c =
    fields_word (with_marked m c)
    ∙ ap word_fields (with_marked_word m c)
    ∙ word_fields_marked m.bits c
    ∙ ap (λ (f : Fields). record f { marked = c }) (sym (fields_word m))

-- An increment of a root count below its bound adds one to it and leaves the color and the type id
-- alone, and a decrement gives the old header back and returns the incremented count.
pub decrement-increment :
    (m : ObjMeta)
    → IsWord m.bits
    → root_count m < root_count_mask
    → (fields (increment_root_count m).0 ≡ record (fields m) { root_count = root_count m + 1 })
      × (decrement_root_count (increment_root_count m).0 ≡ (m, root_count m + 1))
unfolding increment_root_count decrement_root_count word_fields
decrement-increment m h below = (grown, λ i. (record { bits = back i }, count_of_grown i))
  where
    small : m.bits % 2 ^ 55 < 2 ^ 55 - 1
    small = rw (← root_count_word m) below

    grown :
        fields (record { bits = (m.bits + 1) % 2 ^ 64 })
        ≡ record (fields m) { root_count = root_count m + 1 }
    grown =
        fields_word (record { bits = (m.bits + 1) % 2 ^ 64 })
        ∙ word_fields_inc m.bits h small
        ∙ ap (λ (f : Fields). record f { root_count = f.root_count + 1 }) (sym (fields_word m))

    count_of_grown : root_count (record { bits = (m.bits + 1) % 2 ^ 64 }) ≡ root_count m + 1
    count_of_grown = ap (λ (f : Fields). f.root_count) grown

    back : ((m.bits + 1) % 2 ^ 64 + 2 ^ 64 - 1) % 2 ^ 64 ≡ m.bits
    back = omega arith

-- A decrement of a positive root count takes one from it, leaves the color and the type id alone,
-- and returns the old count.
pub fields-decrement :
    (m : ObjMeta)
    → IsWord m.bits
    → 0 < root_count m
    → (fields (decrement_root_count m).0 ≡ record (fields m) { root_count = root_count m - 1 })
      × ((decrement_root_count m).1 ≡ root_count m)
unfolding decrement_root_count word_fields
fields-decrement m h positive = (
  fields_word (record { bits = (m.bits + 2 ^ 64 - 1) % 2 ^ 64 })
      ∙ word_fields_dec m.bits h (rw (← root_count_word m) positive)
      ∙ ap (λ (f : Fields). record f { root_count = f.root_count - 1 }) (sym (fields_word m)),
  refl,
)
