-- ===== src/Pin/Epochs.antt =====
-- src/collector.rs: the epochs that `phase_trans` and `next_normal` store.
use cdpt.Base.{
  ℕ, ◌+◌, ◌%◌, ◌^◌, ◌<◌, ◌≡◌, ◌∙◌, arith, ap, IsWord, true, false, some, ◌⊎◌, inl, inr, ◌||◌,
  Bool-cases,
}
use cdpt.Epoch.{Epoch, Phase, normal, rt, ct, flip, phase, color, timestamp, is_pinned}
use cdpt.Epoch.{with_timestamp}
use cdpt.Epoch.Fields.{Fields, fields, Updates, with_phase-Updates, with_color-Updates}
use cdpt.Epoch.Fields.{with_timestamp-Updates}
use cdpt.Pin.{phase_trans, next_normal, phase_is}

Updates-trans :
    (a b c : Epoch) (f g : Fields → Fields)
    → Updates a b f
    → Updates b c g
    → Updates a c (λ x. g (f x))
Updates-trans a b c f g p q = (q.0, q.1 ∙ ap g p.1)

abbrev tick : Fields → Fields
tick f = record f { timestamp = f.timestamp + 1 }

abbrev in_phase : Phase → Fields → Fields
in_phase p f = record f { phase = some p }

step-Updates :
    (e : Epoch)
    → IsWord e.data_bits
    → timestamp e + 1 < 2 ^ 60
    → Updates e (with_timestamp e (timestamp e + 1)) tick
step-Updates e h room =
    let u = with_timestamp-Updates e (timestamp e + 1) h in
    (u.0, u.1 ∙ ap (λ (t : ℕ). record (fields e) { timestamp = t }) in_range)
  where
    in_range : (timestamp e + 1) % 2 ^ 60 ≡ timestamp e + 1
    in_range = omega arith

-- Before the timestamp wraps around, `phase_trans` gives the next timestamp and the new phase and
-- keeps the color, and `next_normal` gives the next timestamp, the normal phase and the other color.
pub phase_trans-Updates :
    (e : Epoch) (p : Phase)
    → IsWord e.data_bits
    → timestamp e + 1 < 2 ^ 60
    → Updates e (phase_trans p e) (λ f. record f { phase = some p; timestamp = f.timestamp + 1 })
unfolding phase_trans
phase_trans-Updates e p h room =
    let u = step-Updates e h room in
    Updates-trans e _ _ tick (in_phase p) u (with_phase-Updates _ p u.0)

pub next_normal-Updates :
    (e : Epoch)
    → IsWord e.data_bits
    → timestamp e + 1 < 2 ^ 60
    → Updates e
        (next_normal e)
        (λ f. record f { phase = some normal; color = flip f.color; timestamp = f.timestamp + 1 })
unfolding next_normal
next_normal-Updates e h room =
    let u = step-Updates e h room in
    let v = Updates-trans e _ _ tick (in_phase normal) u (with_phase-Updates _ normal u.0) in
    Updates-trans e _ _ (λ f. in_phase normal (tick f)) (λ f. record f { color = flip (color e) }) v
      (with_color-Updates _ (flip (color e)) v.0)

-- From which phase the collector goes to which, and what becomes of the color.
pub data Moves (prev next : Epoch) : Type 0 where
  to_roots :
      phase prev ≡ some normal → phase next ≡ some rt → color next ≡ color prev → Moves prev next
  to_completion :
      (phase prev ≡ some rt) ⊎ (phase prev ≡ some ct)
      → phase next ≡ some ct
      → color next ≡ color prev
      → Moves prev next
  to_normal :
      phase prev ≡ some ct
      → phase next ≡ some normal
      → color next ≡ flip (color prev)
      → Moves prev next

-- What the pinning protocol needs of the epoch that replaces another one.
pub record Follows (prev next : Epoch) : Type 0 where
  pub is_word : IsWord next.data_bits
  pub unpinned : is_pinned next ≡ false
  pub later : timestamp next ≡ timestamp prev + 1
  pub moves : Moves prev next

phase_is→phase : (e : Epoch) (p : Phase) → phase_is e p ≡ true → phase e ≡ some p
phase_is→phase e normal h = ground arith
phase_is→phase e rt h = ground arith
phase_is→phase e ct h = ground arith

module _ (e : Epoch) (h : IsWord e.data_bits) (un : is_pinned e ≡ false)
    (room : timestamp e + 1 < 2 ^ 60) where
  pub begin-Follows : phase_is e normal ≡ true → Follows e (phase_trans rt e)
  begin-Follows here =
      let u = phase_trans-Updates e rt h room in
      record {
        is_word = u.0;
        unpinned = ap (λ (f : Fields). f.is_pinned) u.1 ∙ un;
        later = ap (λ (f : Fields). f.timestamp) u.1;
        moves =
            to_roots (phase_is→phase e normal here) (ap (λ (f : Fields). f.phase) u.1)
              (ap (λ (f : Fields). f.color) u.1);
      }

  pub complete-Follows : (phase_is e rt || phase_is e ct) ≡ true → Follows e (phase_trans ct e)
  complete-Follows here =
      let u = phase_trans-Updates e ct h room in
      record {
        is_word = u.0;
        unpinned = ap (λ (f : Fields). f.is_pinned) u.1 ∙ un;
        later = ap (λ (f : Fields). f.timestamp) u.1;
        moves =
            to_completion from (ap (λ (f : Fields). f.phase) u.1)
              (ap (λ (f : Fields). f.color) u.1);
      }
    where
      from : (phase e ≡ some rt) ⊎ (phase e ≡ some ct)
      from = elim (Bool-cases (phase_is e rt)) [
        | inl roots ↦ inl (phase_is→phase e rt roots)
        | inr other ↦ inr (phase_is→phase e ct (rw other at here))
      ]

  pub finish-Follows : phase_is e ct ≡ true → Follows e (next_normal e)
  finish-Follows here =
      let u = next_normal-Updates e h room in
      record {
        is_word = u.0;
        unpinned = ap (λ (f : Fields). f.is_pinned) u.1 ∙ un;
        later = ap (λ (f : Fields). f.timestamp) u.1;
        moves =
            to_normal (phase_is→phase e ct here) (ap (λ (f : Fields). f.phase) u.1)
              (ap (λ (f : Fields). f.color) u.1);
      }
