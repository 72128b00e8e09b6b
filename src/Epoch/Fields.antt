-- ===== src/Epoch/Fields.antt =====
-- src/epoch.rs: what the accessors of a packed epoch see after each update.
use cdpt.Base.{ℕ, ◌+◌, ◌*◌, ◌/◌, ◌%◌, ◌^◌, ◌<◌, ◌≡◌, Bool, true, false}
use cdpt.Base.{Option, some, arith, ap, sym, ◌∙◌, IsWord, ltb}
use cdpt.Epoch.{Phase, normal, rt, ct, Color, c0, c1, Epoch, is_pinned, pinned, unpinned, phase}
use cdpt.Epoch.{with_phase, color, with_color, timestamp, with_timestamp, phase_num, color_num}
use cdpt.Epoch.{phase_from, color_from}
use cdpt.Epoch.Words.{pinned_word, unpinned_word, with_phase_word, with_color_word}
use cdpt.Epoch.Words.{with_timestamp_word, is_pinned_word, phase_word, color_word, timestamp_word}

-- Everything that the accessors tell of an epoch.
pub record Fields : Type 0 where
  pub is_pinned : Bool
  pub phase : Option Phase
  pub color : Color
  pub timestamp : ℕ

abbrev pub fields : Epoch → Fields
fields e = record {
  is_pinned = is_pinned e;
  phase = phase e;
  color = color e;
  timestamp = timestamp e;
}

-- The same, from the word.
word_fields : ℕ → Fields
word_fields x = record {
  is_pinned = ltb 0 (x % 2);
  phase = phase_from (x / 2 % 4);
  color = color_from (x / 8 % 2);
  timestamp = x / 16;
}

fields_word : (e : Epoch) → IsWord e.data_bits → fields e ≡ word_fields e.data_bits
unfolding word_fields
fields_word e h = λ i. record {
  is_pinned = is_pinned_word e i;
  phase = phase_word e i;
  color = color_word e i;
  timestamp = timestamp_word e h i;
}

word_phase :
    (x : ℕ) (p : Phase)
    → word_fields (x / 8 * 8 + phase_num p * 2 + x % 2) ≡ record (word_fields x) { phase = some p }
unfolding word_fields phase_from color_from
word_phase x normal = ground arith
word_phase x rt = ground arith
word_phase x ct = ground arith

word_color :
    (x : ℕ) (c : Color)
    → word_fields (x / 16 * 16 + color_num c * 8 + x % 8) ≡ record (word_fields x) { color = c }
unfolding word_fields phase_from color_from
word_color x c0 = ground arith
word_color x c1 = ground arith

word_timestamp :
    (x v : ℕ) → word_fields (v * 16 + x % 16) ≡ record (word_fields x) { timestamp = v }
unfolding word_fields phase_from color_from
word_timestamp x v = ground arith

word_pinned : (x : ℕ) → word_fields (x / 2 * 2 + 1) ≡ record (word_fields x) { is_pinned = true }
unfolding word_fields phase_from color_from
word_pinned x = ground arith

word_unpinned : (x : ℕ) → word_fields (x / 2 * 2) ≡ record (word_fields x) { is_pinned = false }
unfolding word_fields phase_from color_from
word_unpinned x = ground arith

-- `d` is again a word, and shows the fields of `e` changed by `g`.
abbrev pub Updates : Epoch → Epoch → (Fields → Fields) → Type 0
Updates e d g = IsWord d.data_bits × (fields d ≡ g (fields e))

Updates-word :
    (e d : Epoch) (w : ℕ) (g : Fields → Fields)
    → IsWord e.data_bits
    → d.data_bits ≡ w
    → IsWord w
    → word_fields w ≡ g (word_fields e.data_bits)
    → Updates e d g
Updates-word e d w g h p fits q =
    let d_word : IsWord d.data_bits = rw p fits in
    (d_word, fields_word d d_word ∙ ap word_fields p ∙ q ∙ ap g (sym (fields_word e h)))

pub with_phase-Updates :
    (e : Epoch) (p : Phase)
    → IsWord e.data_bits
    → Updates e (with_phase e p) (λ f. record f { phase = some p })
with_phase-Updates e p h =
    Updates-word e (with_phase e p) _ (λ f. record f { phase = some p }) h (with_phase_word e p h)
      (fits p) (word_phase e.data_bits p)
  where
    fits : (p : Phase) → IsWord (e.data_bits / 8 * 8 + phase_num p * 2 + e.data_bits % 2)
    fits normal = omega arith
    fits rt = omega arith
    fits ct = omega arith

pub with_color-Updates :
    (e : Epoch) (c : Color)
    → IsWord e.data_bits
    → Updates e (with_color e c) (λ f. record f { color = c })
with_color-Updates e c h =
    Updates-word e (with_color e c) _ (λ f. record f { color = c }) h (with_color_word e c h)
      (fits c) (word_color e.data_bits c)
  where
    fits : (c : Color) → IsWord (e.data_bits / 16 * 16 + color_num c * 8 + e.data_bits % 8)
    fits c0 = omega arith
    fits c1 = omega arith

pub with_timestamp-Updates :
    (e : Epoch) (v : ℕ)
    → IsWord e.data_bits
    → Updates e (with_timestamp e v) (λ f. record f { timestamp = v % 2 ^ 60 })
with_timestamp-Updates e v h =
    Updates-word e (with_timestamp e v) _ (λ f. record f { timestamp = v % 2 ^ 60 }) h
      (with_timestamp_word e v) (omega arith) (word_timestamp e.data_bits (v % 2 ^ 60))

pub pinned-Updates :
    (e : Epoch) → IsWord e.data_bits → Updates e (pinned e) (λ f. record f { is_pinned = true })
pinned-Updates e h =
    Updates-word e (pinned e) _ (λ f. record f { is_pinned = true }) h (pinned_word e) (omega arith)
      (word_pinned e.data_bits)

pub unpinned-Updates :
    (e : Epoch) → IsWord e.data_bits → Updates e (unpinned e) (λ f. record f { is_pinned = false })
unpinned-Updates e h =
    Updates-word e (unpinned e) _ (λ f. record f { is_pinned = false }) h (unpinned_word e h)
      (omega arith) (word_unpinned e.data_bits)

-- Each update of an epoch that is a `usize` gives a `usize` in which exactly the field of that
-- update is new: the phase, the color, the timestamp modulo 2 ^ 60, or the pinned flag.
pub epoch-Updates :
    (e : Epoch) (p : Phase) (c : Color) (v : ℕ)
    → IsWord e.data_bits
    → Updates e (with_phase e p) (λ f. record f { phase = some p })
      × Updates e (with_color e c) (λ f. record f { color = c })
      × Updates e (with_timestamp e v) (λ f. record f { timestamp = v % 2 ^ 60 })
      × Updates e (pinned e) (λ f. record f { is_pinned = true })
      × Updates e (unpinned e) (λ f. record f { is_pinned = false })
epoch-Updates e p c v h = (
  with_phase-Updates e p h,
  with_color-Updates e c h,
  with_timestamp-Updates e v h,
  pinned-Updates e h,
  unpinned-Updates e h,
)

phase_from-injective : (a b : ℕ) → a < 4 → b < 4 → phase_from a ≡ phase_from b → a ≡ b
unfolding phase_from
phase_from-injective a b ha hb e = ground arith

color_from-injective : (a b : ℕ) → a < 2 → b < 2 → color_from a ≡ color_from b → a ≡ b
unfolding color_from
color_from-injective a b ha hb e = ground arith

pinned_flag-injective : (a b : ℕ) → a < 2 → b < 2 → ltb 0 a ≡ ltb 0 b → a ≡ b
pinned_flag-injective a b ha hb e = ground arith

word_fields-injective : (x y : ℕ) → word_fields x ≡ word_fields y → x ≡ y
unfolding word_fields
word_fields-injective x y e = omega (
  arith,
  pinned_flag-injective (x % 2) (y % 2) (omega arith) (omega arith)
      (ap (λ (f : Fields). f.is_pinned) e),
  phase_from-injective (x / 2 % 4) (y / 2 % 4) (omega arith) (omega arith)
      (ap (λ (f : Fields). f.phase) e),
  color_from-injective (x / 8 % 2) (y / 8 % 2) (omega arith) (omega arith)
      (ap (λ (f : Fields). f.color) e),
  ap (λ (f : Fields). f.timestamp) e,
)

-- Two epochs that are `usize`s with the same fields are the same epoch.
pub fields-injective :
    (e d : Epoch) → IsWord e.data_bits → IsWord d.data_bits → fields e ≡ fields d → e ≡ d
fields-injective e d he hd q =
    let same_word : e.data_bits ≡ d.data_bits =
      word_fields-injective e.data_bits d.data_bits
        (sym (fields_word e he) ∙ q ∙ fields_word d hd) in
    λ i. record { data_bits = same_word i }
