-- ===== src/Ptr/Fields.antt =====
-- src/pointers.rs: what the accessors of `ManPtr` see after each update, at every alignment.
use mathlib.Core.Path.{ap₂}
use native.Mathlib.Nat.{one-le-pow, div-eq_of_lt, mod-mod}
use cdpt.Base.{ℕ, ◌+◌, ◌-◌, ◌*◌, ◌/◌, ◌%◌, ◌^◌, ◌≤◌, ◌<◌, ◌≡◌, sym, ◌∙◌, arith, ap, IsWord}
use cdpt.Base.{bit_and, bit_or, bit_xor}
use cdpt.Base.Bits.{bit_and_split, bit_or_split, bit_xor_split, bit_and-zero, bit_or-zero}
use cdpt.Base.Bits.{bit_xor-zero, bit_or-lt, bit_xor-lt, bit_and-lt}
use cdpt.Ptr.{ManPtr, PtrMeta, rooted, with_meta, without_meta, tag, with_tag}
use cdpt.Ptr.{meta_num, low_bits, fetch_tag_and, fetch_tag_or, fetch_tag_xor}
use cdpt.Ptr.Words.{word_of, with_tag_word, high_digits}
use cdpt.Ptr.Words.{meta_digits, masked_tag}
use cdpt.Ptr.Views.{Fields, fields, with_meta_word, without_meta_word, meta_of-num}
use cdpt.Ptr.Views.{fields-word_of, fields_word, tag_lt, addr_lt}

module _ (t : ℕ) (h : t ≤ 62) where
  with_tag-fields :
      (p : ManPtr) (v : ℕ)
      → IsWord p.addr
      → fields t (with_tag t p v) ≡ record (fields t p) { tag = v % 2 ^ t }
  with_tag-fields p v hp =
      fields-word_of t h (with_tag t p v) (p.addr / 2 ^ 62) (p.addr / 2 ^ t % 2 ^ (62 - t))
        (v % 2 ^ t)
        (with_tag_word t h p v hp ∙ ap (λ (x : ℕ). x * 2 ^ t + v % 2 ^ t) (high_digits t h p.addr))
        (addr_lt t h p.addr) (tag_lt t h v)
      ∙ ap (λ (f : Fields). record f { tag = v % 2 ^ t }) (sym (fields_word t h p))

  with_meta-fields :
      (p : ManPtr) (m : PtrMeta) → fields t (with_meta p m) ≡ record (fields t p) { meta = m }
  with_meta-fields p m =
      fields-word_of t h (with_meta p m) (meta_num m) (p.addr / 2 ^ t % 2 ^ (62 - t))
        (p.addr % 2 ^ t) (with_meta_word p m ∙ meta_digits t h (meta_num m) p.addr)
        (addr_lt t h p.addr) (tag_lt t h p.addr)
      ∙ ap₂ (λ (k : PtrMeta) (f : Fields). record f { meta = k }) (meta_of-num m)
          (sym (fields_word t h p))

  without_meta-fields :
      (p : ManPtr) → fields t (without_meta p) ≡ record (fields t p) { meta = rooted }
  without_meta-fields p =
      fields-word_of t h (without_meta p) 0 (p.addr / 2 ^ t % 2 ^ (62 - t)) (p.addr % 2 ^ t)
        (without_meta_word p ∙ omega (arith, meta_digits t h 0 p.addr)) (addr_lt t h p.addr)
        (tag_lt t h p.addr)
      ∙ ap₂ (λ (k : PtrMeta) (f : Fields). record f { meta = k }) (meta_of-num rooted)
          (sym (fields_word t h p))

  -- An operation that keeps what meets 0 touches only the tag.
  tag_op-fields :
      (op : ℕ → ℕ → ℕ) (p d : ManPtr) (v : ℕ)
      → d.addr
        ≡ op (p.addr / 2 ^ t) (v % 2 ^ t / 2 ^ t) * 2 ^ t + op (p.addr % 2 ^ t) (v % 2 ^ t % 2 ^ t)
      → ((a : ℕ) → op a 0 ≡ a)
      → op (p.addr % 2 ^ t) (v % 2 ^ t) < 2 ^ t
      → fields t d ≡ record (fields t p) { tag = op (tag t p) (v % 2 ^ t) }
  tag_op-fields op p d v e keep fits =
      fields-word_of t h d (p.addr / 2 ^ 62) (p.addr / 2 ^ t % 2 ^ (62 - t))
        (op (p.addr % 2 ^ t) (v % 2 ^ t)) (e ∙ regroup) (addr_lt t h p.addr) fits
      ∙ ap (λ (f : Fields). record f { tag = op f.tag (v % 2 ^ t) }) (sym (fields_word t h p))
    where
      high :
          op (p.addr / 2 ^ t) (v % 2 ^ t / 2 ^ t)
          ≡ p.addr / 2 ^ 62 * 2 ^ (62 - t) + p.addr / 2 ^ t % 2 ^ (62 - t)
      high =
          ap (op (p.addr / 2 ^ t)) (div-eq_of_lt (tag_lt t h v))
          ∙ keep (p.addr / 2 ^ t)
          ∙ high_digits t h p.addr

      low : op (p.addr % 2 ^ t) (v % 2 ^ t % 2 ^ t) ≡ op (p.addr % 2 ^ t) (v % 2 ^ t)
      low = ap (op (p.addr % 2 ^ t)) (mod-mod v (2 ^ t))

      regroup :
          op (p.addr / 2 ^ t) (v % 2 ^ t / 2 ^ t) * 2 ^ t + op (p.addr % 2 ^ t) (v % 2 ^ t % 2 ^ t)
          ≡ word_of t
              (p.addr / 2 ^ 62)
              (p.addr / 2 ^ t % 2 ^ (62 - t))
              (op (p.addr % 2 ^ t) (v % 2 ^ t))
      regroup = ap₂ (λ (x y : ℕ). x * 2 ^ t + y) high low

  fetch_tag_or-fields :
      (p : ManPtr) (v : ℕ)
      → fields t (fetch_tag_or t p v).0 ≡ record (fields t p) { tag = bit_or (tag t p) (v % 2 ^ t) }
  unfolding fetch_tag_or
  fetch_tag_or-fields p v =
      tag_op-fields bit_or p (fetch_tag_or t p v).0 v
        (ap (bit_or p.addr) (masked_tag t h v) ∙ bit_or_split t p.addr (v % 2 ^ t)) bit_or-zero
        (bit_or-lt t (p.addr % 2 ^ t) (v % 2 ^ t) (tag_lt t h p.addr) (tag_lt t h v))

  fetch_tag_xor-fields :
      (p : ManPtr) (v : ℕ)
      → fields t (fetch_tag_xor t p v).0
        ≡ record (fields t p) { tag = bit_xor (tag t p) (v % 2 ^ t) }
  unfolding fetch_tag_xor
  fetch_tag_xor-fields p v =
      tag_op-fields bit_xor p (fetch_tag_xor t p v).0 v
        (ap (bit_xor p.addr) (masked_tag t h v) ∙ bit_xor_split t p.addr (v % 2 ^ t)) bit_xor-zero
        (bit_xor-lt t (p.addr % 2 ^ t) (v % 2 ^ t) (tag_lt t h p.addr) (tag_lt t h v))

  -- Each update of a link changes what it names and nothing else: the metadata, the tag (its low
  -- bits as far as the alignment reaches), and by `fetch_tag_or` and `fetch_tag_xor` the tag alone.
  pub link_updates :
      (p : ManPtr) (m : PtrMeta) (v : ℕ)
      → IsWord p.addr
      → (fields t (with_meta p m) ≡ record (fields t p) { meta = m })
        × (fields t (without_meta p) ≡ record (fields t p) { meta = rooted })
        × (fields t (with_tag t p v) ≡ record (fields t p) { tag = v % 2 ^ t })
        × (fields t (fetch_tag_or t p v).0
            ≡ record (fields t p) { tag = bit_or (tag t p) (v % 2 ^ t) })
        × (fields t (fetch_tag_xor t p v).0
            ≡ record (fields t p) { tag = bit_xor (tag t p) (v % 2 ^ t) })
  link_updates p m v hp = (
    with_meta-fields p m,
    without_meta-fields p,
    with_tag-fields p v hp,
    fetch_tag_or-fields p v,
    fetch_tag_xor-fields p v,
  )

  -- `fetch_tag_and` does not keep the pointer: whatever the link and the tag are, the address in the
  -- link becomes 0 and its metadata becomes `Rooted`; only the tag is the one that its comment says.
  pub fetch_tag_and_clobbers :
      (p : ManPtr) (v : ℕ)
      → fields t (fetch_tag_and t p v).0
        ≡ record { meta = rooted; addr = 0; tag = bit_and (tag t p) (v % 2 ^ t) }
  unfolding fetch_tag_and
  fetch_tag_and_clobbers p v =
      fields-word_of t h (fetch_tag_and t p v).0 0 0 r (regroup ∙ no_digits)
        (one-le-pow (62 - t) 2 (omega arith))
        (bit_and-lt t (p.addr % 2 ^ t) (v % 2 ^ t) (tag_lt t h p.addr) (tag_lt t h v))
      ∙ (λ i. record {
        meta = meta_of-num rooted i;
        addr = zero_mul i;
        tag = ap (λ (f : Fields). bit_and f.tag (v % 2 ^ t)) (sym (fields_word t h p)) i;
      })
    where
      r : ℕ
      r = bit_and (p.addr % 2 ^ t) (v % 2 ^ t)

      zero_mul : 0 * 2 ^ t ≡ 0
      zero_mul = omega arith

      regroup : bit_and p.addr (bit_and v (low_bits t)) ≡ 0 * 2 ^ t + r
      regroup =
          ap (bit_and p.addr) (masked_tag t h v)
          ∙ bit_and_split t p.addr (v % 2 ^ t)
          ∙ ap₂ (λ (x y : ℕ). x * 2 ^ t + y)
              (ap (bit_and (p.addr / 2 ^ t)) (div-eq_of_lt (tag_lt t h v))
                ∙ bit_and-zero (p.addr / 2 ^ t))
              (ap (bit_and (p.addr % 2 ^ t)) (mod-mod v (2 ^ t)))

      no_digits : 0 * 2 ^ t + r ≡ word_of t 0 0 r
      no_digits = omega arith
