-- ===== src/Pin/Waiting.antt =====
-- src/collector.rs: `wait_all_mutators_unpin`, a look at a slot at a time.
use mathlib.Core.Path.{subst}
use mathlib.Core.Option.{some-injective}
use cdpt.Base.{ℕ, ◌+◌, ◌<◌, ◌≤◌, ◌≡◌, ◌≢◌, refl, sym, ◌∙◌, arith, ap, true, false}
use cdpt.Base.{some, inl, inr, ◌==◌, Bool-cases, IsWord}
use cdpt.Base.{ℕ_discrete, dec_lt, ==_iff}
use cdpt.Epoch.{Epoch, pinned, timestamp}
use cdpt.Pin.{Mutator, Pc, ready, loaded, stored, Collector, working, waiting}
use cdpt.Pin.{System, has_left, poll}
use cdpt.Pin.{collector_step}
use cdpt.Pin.Mutators.{At}
use cdpt.Pin.Invariant.{Allowed, Replaced, Inv, At-mono, pinned_view}

-- The collector does not pass a mutator that is inside in the old epoch.
stays :
    (global prev : Epoch) (m : Mutator)
    → IsWord prev.data_bits
    → timestamp prev + 1 ≡ timestamp global
    → m.using ≡ true
    → m.epoch ≡ pinned prev
    → has_left (timestamp global) m ≡ false
unfolding has_left
stays global prev m hw later u o = rw (u, o) (ground (arith, pinned_view prev hw))

passed :
    (global prev : Epoch) (i : ℕ) (p : Pc) (m : Mutator)
    → IsWord prev.data_bits
    → timestamp prev + 1 ≡ timestamp global
    → has_left (timestamp global) m ≡ true
    → At (Allowed global (waiting prev i) i) p m
    → At (Allowed global (waiting prev (i + 1)) i) p m
passed global prev i (loaded c) m hw later left h = h
passed global prev i (stored c) m hw later left h = h
passed global prev i ready m hw later left (inl out) = inl out
passed global prev i ready m hw later left (inr (c, u, inl now, o)) = inr (c, u, inl now, o)
passed global prev i ready m hw later left (inr (c, u, inr (le, old), o)) =
    absurd (cc (stays global prev m hw later u (o ∙ ap pinned old)))

spin : {slots n : ℕ} {s : System} → Inv slots n s → Inv slots (n + 1) s
spin inv = record {
  is_word = inv.is_word;
  unpinned = inv.unpinned;
  bounded = omega (arith, inv.bounded);
  replaced = inv.replaced;
  seats = inv.seats;
  unused = inv.unused;
}

-- A look of the collector: it stops waiting after the last slot, passes a slot, or spins.
pub poll-Inv :
    (slots n : ℕ) (s t : System) (prev : Epoch) (visited : ℕ)
    → s.collector ≡ waiting prev visited
    → collector_step slots poll (waiting prev visited) s ≡ some t
    → Inv slots n s
    → Inv slots (n + 1) t
unfolding collector_step
poll-Inv slots n s t prev visited w q inv = elim (Bool-cases (visited == slots)) [
  | inl last ↦ subst (Inv slots (n + 1)) (some-injective _ t (rw last at q)) (done last)
  | inr more ↦ elim (Bool-cases (has_left (timestamp s.epoch) (s.mutators visited))) [
    | inl left ↦ subst (Inv slots (n + 1)) (some-injective _ t (rw (more, left) at q)) (pass left)
    | inr stuck ↦ subst (Inv slots (n + 1)) (some-injective _ t (rw (more, stuck) at q)) (spin inv)
  ]
]
  where
    old : Replaced s.epoch (waiting prev visited)
    old = subst (Replaced s.epoch) w inv.replaced

    seat : (i : ℕ) → At (Allowed s.epoch (waiting prev visited) i) (s.mutators i).pc (s.mutators i)
    seat i =
        subst (λ (c : Collector). At (Allowed s.epoch c i) (s.mutators i).pc (s.mutators i)) w
          (inv.seats i)

    now :
        (visited == slots) ≡ true
        → (i : ℕ) → i < slots
        → At (Allowed s.epoch working i) (s.mutators i).pc (s.mutators i)
    now last i lt =
        At-mono (Allowed s.epoch (waiting prev visited) i) (Allowed s.epoch working i)
          (s.mutators i).pc (s.mutators i) only_new (seat i)
      where
        only_new : (e : Epoch) → Allowed s.epoch (waiting prev visited) i e → e ≡ s.epoch
        only_new e (inl new) = new
        only_new e (inr (le, _)) = absurd (omega (arith, (==_iff visited slots).0 last))

    never : (i : ℕ) → slots ≤ i → At (Allowed s.epoch working i) (s.mutators i).pc (s.mutators i)
    never i le =
        subst (λ (m : Mutator). At (Allowed s.epoch working i) m.pc m) (sym (inv.unused i le))
          (inl (refl, refl))

    here :
        has_left (timestamp s.epoch) (s.mutators visited) ≡ true
        → (i : ℕ) → visited ≡ i
        → At (Allowed s.epoch (waiting prev (visited + 1)) i) (s.mutators i).pc (s.mutators i)
    here left i e =
        subst
          (λ (j : ℕ).
            At (Allowed s.epoch (waiting prev (visited + 1)) j) (s.mutators j).pc (s.mutators j))
          e
          (passed s.epoch prev visited (s.mutators visited).pc (s.mutators visited) old.0 old.1 left
            (seat visited))

    further :
        (i : ℕ)
        → visited ≢ i
        → At (Allowed s.epoch (waiting prev (visited + 1)) i) (s.mutators i).pc (s.mutators i)
    further i ne =
        At-mono (Allowed s.epoch (waiting prev visited) i)
          (Allowed s.epoch (waiting prev (visited + 1)) i) (s.mutators i).pc (s.mutators i) keep
          (seat i)
      where
        keep :
            (e : Epoch)
            → Allowed s.epoch (waiting prev visited) i e
            → Allowed s.epoch (waiting prev (visited + 1)) i e
        keep e (inl new) = inl new
        keep e (inr (le, q)) = inr (omega arith, q)

    done : (visited == slots) ≡ true → Inv slots (n + 1) (record s { collector = working })
    done last = record {
      is_word = inv.is_word;
      unpinned = inv.unpinned;
      bounded = omega (arith, inv.bounded);
      replaced = tt;
      seats = λ i. elim (dec_lt i slots) [ yes lt ↦ now last i lt | no ge ↦ never i (omega arith) ];
      unused = inv.unused;
    }

    pass :
        has_left (timestamp s.epoch) (s.mutators visited) ≡ true
        → Inv slots (n + 1) (record s { collector = waiting prev (visited + 1) })
    pass left = record {
      is_word = inv.is_word;
      unpinned = inv.unpinned;
      bounded = omega (arith, inv.bounded);
      replaced = old;
      seats = λ i. elim (ℕ_discrete visited i) [ yes e ↦ here left i e | no ne ↦ further i ne ];
      unused = inv.unused;
    }
