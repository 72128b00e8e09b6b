-- ===== src/Ptr/Views.antt =====
-- src/pointers.rs: the accessors of `ManPtr` on a word that is given by its digits.
use mathlib.Core.Path.{ap₂}
use native.Mathlib.Nat.{mod-lt, one-le-pow}
use cdpt.Base.{ℕ, ◌+◌, ◌-◌, ◌*◌, ◌/◌, ◌%◌, ◌^◌, ◌≤◌, ◌<◌, ◌≡◌, refl, ◌∙◌, arith, ap}
use cdpt.Base.{bit_or, shl, ◌==◌, if◌then◌else◌}
use cdpt.Base.Bits.{bit_and_split, bit_and_mask, bit_and-zero}
use cdpt.Base.Bits.{bit_or_fields}
use cdpt.Epoch.{c0, c1, color_from}
use cdpt.Ptr.{ManPtr, PtrMeta, rooted, unrooted, meta, with_meta, without_meta, as_ptr, tag}
use cdpt.Ptr.{meta_num}
use cdpt.Ptr.Words.{word_of, tag_word, as_ptr_word, digits_word}

-- Everything that the accessors tell of a pointer.
pub record Fields : Type 0 where
  pub meta : PtrMeta
  pub addr : ℕ
  pub tag : ℕ

abbrev pub fields : ℕ → ManPtr → Fields
fields t p = record { meta = meta p; addr = as_ptr t p; tag = tag t p }

-- The metadata from the two top bits.
pub meta_of : ℕ → PtrMeta
meta_of m = if m / 2 % 2 == 0 then rooted else unrooted (color_from (m % 2))

pub meta_word : (p : ManPtr) → meta p ≡ meta_of (p.addr / 2 ^ 62)
unfolding meta meta_of color_from
meta_word p = ground (
  arith,
  bit_and_split 63 p.addr (2 ^ 63),
  bit_and_mask 1 (p.addr / 2 ^ 63),
  bit_and-zero (p.addr % 2 ^ 63),
  bit_and_split 62 p.addr (2 ^ 62),
  bit_and_mask 1 (p.addr / 2 ^ 62),
  bit_and-zero (p.addr % 2 ^ 62),
)

pub with_meta_word :
    (p : ManPtr) (m : PtrMeta) → (with_meta p m).addr ≡ meta_num m * 2 ^ 62 + p.addr % 2 ^ 62
unfolding with_meta
with_meta_word p m =
    ap₂ bit_or (shifted m) (bit_and_mask 62 p.addr)
    ∙ bit_or_fields 62 (meta_num m) (p.addr % 2 ^ 62) (omega arith)
  where
    shifted : (m : PtrMeta) → shl (meta_num m) 62 ≡ meta_num m * 2 ^ 62
    shifted rooted = refl
    shifted (unrooted c0) = refl
    shifted (unrooted c1) = refl

pub without_meta_word : (p : ManPtr) → (without_meta p).addr ≡ p.addr % 2 ^ 62
unfolding without_meta
without_meta_word p = bit_and_mask 62 p.addr

pub meta_of-num : (m : PtrMeta) → meta_of (meta_num m) ≡ m
unfolding meta_of color_from
meta_of-num rooted = refl
meta_of-num (unrooted c0) = refl
meta_of-num (unrooted c1) = refl

module _ (t : ℕ) (h : t ≤ 62) where
  -- A pointer that is given by three digits shows them.
  pub fields-word_of :
      (p : ManPtr) (m a r : ℕ)
      → p.addr ≡ word_of t m a r
      → a < 2 ^ (62 - t)
      → r < 2 ^ t
      → fields t p ≡ record { meta = meta_of m; addr = a * 2 ^ t; tag = r }
  fields-word_of p m a r e ha hr =
      let d = digits_word t h m a r ha hr in
      λ i. record {
        meta = (meta_word p ∙ ap (λ (x : ℕ). meta_of (x / 2 ^ 62)) e ∙ ap meta_of d.2) i;
        addr =
            (as_ptr_word t h p
                ∙ ap (λ (x : ℕ). x / 2 ^ t % 2 ^ (62 - t) * 2 ^ t) e
                ∙ ap (λ (x : ℕ). x * 2 ^ t) d.1)
              i;
        tag = (tag_word t h p ∙ ap (λ (x : ℕ). x % 2 ^ t) e ∙ d.0) i;
      }

  pub fields_word :
      (p : ManPtr)
      → fields t p ≡ record {
        meta = meta_of (p.addr / 2 ^ 62);
        addr = p.addr / 2 ^ t % 2 ^ (62 - t) * 2 ^ t;
        tag = p.addr % 2 ^ t;
      }
  fields_word p =
      λ i. record { meta = meta_word p i; addr = as_ptr_word t h p i; tag = tag_word t h p i }

  pub tag_lt : (x : ℕ) → x % 2 ^ t < 2 ^ t
  tag_lt x = mod-lt x (one-le-pow t 2 (omega arith))

  pub addr_lt : (x : ℕ) → x / 2 ^ t % 2 ^ (62 - t) < 2 ^ (62 - t)
  addr_lt x = mod-lt (x / 2 ^ t) (one-le-pow (62 - t) 2 (omega arith))
