-- ===== src/Pin/Invariant.antt =====
-- src/internal.rs, src/collector.rs: in which epochs mutators can be inside, kept by every event.
use mathlib.Core.Path.{subst}
use cdpt.Base.{ℕ, ◌+◌, ◌<◌, ◌≤◌, ◌≡◌, refl, sym, ◌∙◌, arith, ap, true, false}
use cdpt.Base.{some, ◌⊎◌, inl, inr, IsWord}
use cdpt.Base.{update, update_self, update-ne, ℕ_discrete}
use cdpt.Epoch.{Epoch, pinned, is_pinned, phase, color, timestamp}
use cdpt.Epoch.Fields.{Fields, pinned-Updates}
use cdpt.Pin.{Mutator, Pc, ready, loaded, stored, fresh, mutator_step, Collector, working, waiting}
use cdpt.Pin.{System, replace_epoch}
use cdpt.Pin.{Op}
use cdpt.Pin.Epochs.{Follows, Moves}
use cdpt.Pin.Mutators.{At, mutator_step-At}

-- The epochs in which mutator `i` may be inside, from what the collector does: the global one, and
-- while the collector waits and has not passed `i`, the one that it replaced.
abbrev pub Allowed : Epoch → Collector → ℕ → Epoch → Type 0
Allowed global working i e = e ≡ global
Allowed global (waiting prev visited) i e = (e ≡ global) ⊎ ((visited ≤ i) × (e ≡ prev))

abbrev pub Replaced : Epoch → Collector → Type 0
Replaced global working = Unit
Replaced global (waiting prev visited) =
    IsWord prev.data_bits × (timestamp prev + 1 ≡ timestamp global) × Moves prev global

-- `events` bounds the number of events so far, and with it the timestamp.
pub record Inv (slots events : ℕ) (s : System) : Type 0 where
  pub is_word : IsWord s.epoch.data_bits
  pub unpinned : is_pinned s.epoch ≡ false
  pub bounded : timestamp s.epoch ≤ events
  pub replaced : Replaced s.epoch s.collector
  pub seats : (i : ℕ) → At (Allowed s.epoch s.collector i) (s.mutators i).pc (s.mutators i)
  pub unused : (i : ℕ) → slots ≤ i → s.mutators i ≡ fresh

pub At-mono :
    (A B : Epoch → Type 0) (p : Pc) (m : Mutator) → ((e : Epoch) → A e → B e) → At A p m → At B p m
At-mono A B ready m f h = elim h [
  | inl out ↦ inl out
  | inr (c, u, a, o) ↦ inr (c, u, f m.last_observed a, o)
]
At-mono A B (loaded c) m f h = h
At-mono A B (stored c) m f h = h

-- The fields of an epoch that is marked as pinned.
pub pinned_view :
    (e : Epoch)
    → IsWord e.data_bits
    → (is_pinned (pinned e) ≡ true)
      × (timestamp (pinned e) ≡ timestamp e)
      × (phase (pinned e) ≡ phase e)
      × (color (pinned e) ≡ color e)
pinned_view e h =
    let u = pinned-Updates e h in
    (
      ap (λ (f : Fields). f.is_pinned) u.1,
      ap (λ (f : Fields). f.timestamp) u.1,
      ap (λ (f : Fields). f.phase) u.1,
      ap (λ (f : Fields). f.color) u.1,
    )

-- The global epoch is always allowed.
Allowed-now : (global : Epoch) (c : Collector) (i : ℕ) → Allowed global c i global
Allowed-now global working i = refl
Allowed-now global (waiting prev visited) i = inl refl

-- A store of the collector makes the epoch in which all are inside the old one.
pub replace-Inv :
    (slots n : ℕ) (s : System) (next : Epoch → Epoch)
    → s.collector ≡ working
    → Inv slots n s
    → Follows s.epoch (next s.epoch)
    → Inv slots (n + 1) (replace_epoch next s)
unfolding replace_epoch
replace-Inv slots n s next w inv f = record {
  is_word = f.is_word;
  unpinned = f.unpinned;
  bounded = omega (arith, f.later, inv.bounded);
  replaced = (inv.is_word, sym f.later, f.moves);
  seats = λ i.
      At-mono (Allowed s.epoch working i) (Allowed (next s.epoch) (waiting s.epoch 0) i)
        (s.mutators i).pc (s.mutators i) (λ e q. inr (omega arith, q))
        (subst (λ (c : Collector). At (Allowed s.epoch c i) (s.mutators i).pc (s.mutators i)) w
          (inv.seats i));
  unused = inv.unused;
}

pub mutator-Inv :
    (slots n : ℕ) (s : System) (i : ℕ) (m : Mutator) (op : Op)
    → i < slots
    → mutator_step s.epoch op (s.mutators i) ≡ some m
    → Inv slots n s
    → Inv slots (n + 1) (record s { mutators = update s.mutators i m })
mutator-Inv slots n s i m op lt q inv = record {
  is_word = inv.is_word;
  unpinned = inv.unpinned;
  bounded = omega (arith, inv.bounded);
  replaced = inv.replaced;
  seats = seated;
  unused = λ j le. update-ne s.mutators i j m (λ e. omega arith) ∙ inv.unused j le;
}
  where
    Seat : ℕ → Mutator → Type 0
    Seat j x = At (Allowed s.epoch s.collector j) x.pc x

    seated_i : Seat i m
    seated_i =
        mutator_step-At (Allowed s.epoch s.collector i) (s.mutators i) m s.epoch op
          (Allowed-now s.epoch s.collector i) (inv.seats i) q

    seated : (j : ℕ) → Seat j (update s.mutators i m j)
    seated j = elim (ℕ_discrete i j) [
      | yes same ↦
          subst (λ (k : ℕ). Seat k (update s.mutators i m k)) same
            (subst (Seat i) (sym (update_self s.mutators i m)) seated_i)
      | no other ↦ subst (Seat j) (sym (update-ne s.mutators i j m other)) (inv.seats j)
    ]
