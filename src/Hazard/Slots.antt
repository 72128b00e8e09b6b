-- ===== src/Hazard/Slots.antt =====
-- src/internal.rs: the two vectors of `Local` for hazard pointers agree slot by slot.
use mathlib.Core.Path.{subst}
use cdpt.Base.{
  ℕ, zero, suc, ◌+◌, ◌≡◌, refl, ap, arith, none, some, List, [], ◌∷◌, ◌++◌, length, set,
}
use cdpt.Hazard.{Slot, Marker, replicate, resize}

-- A slot is initialised, and has a marker unless it is null.
pub data Agrees : Slot → Marker → Type 0 where
  idle : Agrees (some 0) none
  shield : (a ty : ℕ) → Agrees (some (suc a)) (some ty)

pub data Paired : List Slot → List Marker → Type 0 where
  nil : Paired [] []
  cons :
      {hp : Slot} {mark : Marker} {hps : List Slot} {marks : List Marker}
      → Agrees hp mark
      → Paired hps marks
      → Paired (hp ∷ hps) (mark ∷ marks)

pub Paired-length :
    {hps : List Slot} {marks : List Marker} → Paired hps marks → length marks ≡ length hps
Paired-length nil = refl
Paired-length (cons a p) = ap suc (Paired-length p)

pub Paired-set :
    {hps : List Slot} {marks : List Marker} (hid : ℕ) {hp : Slot} {mark : Marker}
    → Agrees hp mark
    → Paired hps marks
    → Paired (set hps hid hp) (set marks hid mark)
Paired-set hid a nil = nil
Paired-set zero a (cons b p) = cons a p
Paired-set (suc hid) a (cons b p) = cons b (Paired-set hid a p)

pub Paired-fresh : (n : ℕ) → Paired (replicate n (some 0)) (resize [] n)
unfolding replicate resize
Paired-fresh zero = nil
Paired-fresh (suc n) = cons idle (Paired-fresh n)

-- Old slots keep their markers when both vectors grow.
pub Paired-grow :
    {hps : List Slot} {marks : List Marker} (n : ℕ)
    → Paired hps marks
    → Paired (hps ++ replicate n (some 0)) (resize marks (length hps + n))
unfolding resize
Paired-grow n nil =
    let len : n ≡ 0 + n = omega arith in
    subst (λ (k : ℕ). Paired (replicate n (some 0)) (resize [] k)) len (Paired-fresh n)
Paired-grow {hps = hp ∷ hps} {marks = mark ∷ marks} n (cons a p) =
    let len : suc (length hps + n) ≡ length (hp ∷ hps) + n = omega arith in
    subst (λ (k : ℕ). Paired (hp ∷ hps ++ replicate n (some 0)) (resize (mark ∷ marks) k)) len
      (cons a (Paired-grow n p))
