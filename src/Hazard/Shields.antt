-- ===== src/Hazard/Shields.antt =====
-- src/internal.rs: what the shields of a thread protect.
use mathlib.Core.Option.{some-injective}
use mathlib.Core.Option
use mathlib.Core.Path.{subst}
use cdpt.Base.{
  ℕ, zero, suc, ◌<◌, ◌≡◌, refl, sym, ◌∙◌, arith, Option, some, List, [], ◌∷◌, get_elem?,
}
use cdpt.Hazard.{Hazards, Slot, Marker, initial, Event, run, phase_barrier, Call}
use cdpt.Hazard.Slots.{Paired, idle, shield, nil, cons}
use cdpt.Hazard.Valid.{IsValid}
use cdpt.Hazard.Runs.{run-initial}

-- Some slot holds the address.
pub Protects : List Slot → ℕ → Type 0
Protects hps addr = (k : ℕ) × (get_elem? hps k ≡ some (some addr))

-- Some call has the address.
pub Marks : List Call → ℕ → Type 0
Marks calls addr = (k : ℕ) × (c : Call) × (get_elem? calls k ≡ some c) × (c.addr ≡ addr)

-- The barrier returns, and marks the non-null addresses of the slots and no others.
pub record MarksAll (hps : List Slot) (result : Option (List Call)) : Type 0 where
  pub calls : List Call
  pub returns : result ≡ some calls
  pub sound : (k : ℕ) (c : Call) → get_elem? calls k ≡ some c → (0 < c.addr) × Protects hps c.addr
  pub complete : (k a : ℕ) → get_elem? hps k ≡ some (some (suc a)) → Marks calls (suc a)

next-Protects : (hps : List Slot) (hp : Slot) (a : ℕ) → Protects hps a → Protects (hp ∷ hps) a
unfolding Protects
next-Protects hps hp a (k, e) = (suc k, e)

next-Marks : (calls : List Call) (c : Call) (a : ℕ) → Marks calls a → Marks (c ∷ calls) a
unfolding Marks
next-Marks calls c a (k, d, e, f) = (suc k, d, e, f)

-- Without slots nothing is marked.
no_slot : MarksAll [] (some [])
no_slot = record { calls = []; returns = refl; sound = λ k c h. cc; complete = λ k a h. cc }

-- A slot that is null adds nothing.
skip_null :
    {hps : List Slot} {result : Option (List Call)}
    → MarksAll hps result
    → MarksAll (some 0 ∷ hps) result
skip_null {hps = hps} m = record {
  calls = m.calls;
  returns = m.returns;
  sound = λ k c h. ((m.sound k c h).0, next-Protects hps (some 0) c.addr (m.sound k c h).1);
  complete = complete;
}
  where
    complete : (k a : ℕ) → get_elem? (some 0 ∷ hps) k ≡ some (some (suc a)) → Marks m.calls (suc a)
    complete zero a h = absurd (ground (arith, some-injective 0 (suc a) (some-injective _ _ h)))
    complete (suc k) a h = m.complete k a h

-- A shield adds its own call.
add_call :
    {hps : List Slot} {result : Option (List Call)} (a ty : ℕ)
    → MarksAll hps result
    → MarksAll
        (some (suc a) ∷ hps)
        (Option.map (λ calls. record { marker = ty; addr = suc a } ∷ calls) result)
unfolding Protects Marks
add_call {hps = hps} a ty m = record {
  calls = call ∷ m.calls;
  returns = rw m.returns refl;
  sound = sound;
  complete = complete;
}
  where
    call : Call
    call = record { marker = ty; addr = suc a }

    sound :
        (k : ℕ) (c : Call)
        → get_elem? (call ∷ m.calls) k ≡ some c
        → (0 < c.addr) × Protects (some (suc a) ∷ hps) c.addr
    sound zero c h =
        subst (λ (d : Call). (0 < d.addr) × Protects (some (suc a) ∷ hps) d.addr)
          (some-injective call c h) (omega arith, (0, refl))
    sound (suc k) c h =
        ((m.sound k c h).0, next-Protects hps (some (suc a)) c.addr (m.sound k c h).1)

    complete :
        (k b : ℕ)
        → get_elem? (some (suc a) ∷ hps) k ≡ some (some (suc b))
        → Marks (call ∷ m.calls) (suc b)
    complete zero b h = (0, call, refl, some-injective _ _ (some-injective _ _ h))
    complete (suc k) b h = next-Marks m.calls call (suc b) (m.complete k b h)

phase_barrier-MarksAll :
    {hps : List Slot} {marks : List Marker}
    → Paired hps marks
    → MarksAll hps (phase_barrier hps marks)
unfolding phase_barrier
phase_barrier-MarksAll nil = no_slot
phase_barrier-MarksAll (cons idle p) = skip_null (phase_barrier-MarksAll p)
phase_barrier-MarksAll (cons (shield a ty) p) = add_call a ty (phase_barrier-MarksAll p)

-- After any sequence of operations of its thread, the phase barrier returns: it meets no
-- uninitialised slot and no missing marker. It marks each address that a slot protects, and it
-- marks nothing else and never null.
pub phase_barrier-run :
    (events : List Event) (l : Hazards)
    → run events initial ≡ some l
    → MarksAll l.hazards (phase_barrier l.hazards l.hazards_marker)
phase_barrier-run events l e =
    let reached = run-initial events in
    let same : reached.after ≡ l = some-injective _ _ (sym reached.returns ∙ e) in
    phase_barrier-MarksAll (subst IsValid same reached.valid).paired
