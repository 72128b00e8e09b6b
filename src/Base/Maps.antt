-- ===== src/Base/Maps.antt =====
-- Families indexed by native numbers, changed at one index.
use Prim.Native.Nat.{ℕ}
use mathlib.Core.Path.{◌≡◌, sym, ap, ◌∙◌, subst}
use mathlib.Core.Option.{Option, some}
use mathlib.Core.Logic.{ite, ◌≢◌}
use native.Mathlib.Decide.{ℕ_discrete}
use native.Mathlib.Omega.{arith}

abbrev pub update {ℓ} : {S : Type ℓ} → (ℕ → S) → (slot : ℕ) → S → (ℕ → S)
update slots slot new = λ at. ite (ℕ_discrete slot at) new (slots at)

pub update_self {ℓ} : {A : Type ℓ} (f : ℕ → A) (i : ℕ) (a : A) → update f i a i ≡ a
update_self f i a = ground arith

pub update-ne {ℓ} : {A : Type ℓ} (f : ℕ → A) (i j : ℕ) (a : A) → i ≢ j → update f i a j ≡ f j
update-ne f i j a h = ground arith

-- What only one of the threads has is had by only one after thread `t` has gone on as `th`, if what `th`
-- has is had by no other.
module _ {ℓ} {T : Type ℓ} (own : T → Option ℕ) (threads : ℕ → T) (t : ℕ) (th : T) where
  own_at : (x z : ℕ) → t ≡ z → own (update threads t th z) ≡ some x → own th ≡ some x
  own_at x z e q = ap own (sym (update_self threads t th) ∙ ap (update threads t th) e) ∙ q

  own_else : (x z : ℕ) → t ≢ z → own (update threads t th z) ≡ some x → own (threads z) ≡ some x
  own_else x z f q = ap own (sym (update-ne threads t z th f)) ∙ q

  pub update_once :
      ((u w x : ℕ) → own (threads u) ≡ some x → own (threads w) ≡ some x → u ≡ w)
      → ((x : ℕ) → own th ≡ some x → (u : ℕ) → t ≢ u → own (threads u) ≢ some x)
      → (u w x : ℕ) → own (update threads t th u) ≡ some x
      → own (update threads t th w) ≡ some x
      → u ≡ w
  update_once once new u w x a b = elim (ℕ_discrete t u) [
    | yes e ↦ elim (ℕ_discrete t w) [
      | yes f ↦ sym e ∙ f
      | no g ↦ absurd (new x (own_at x u e a) w g (own_else x w g b))
    ]
    | no f ↦ elim (ℕ_discrete t w) [
      | yes e ↦ absurd (new x (own_at x w e b) u f (own_else x u f a))
      | no g ↦ once u w x (own_else x u f a) (own_else x w g b)
    ]
  ]

-- What the change at one index keeps there is kept everywhere.
pub update_each {ℓ ℓ'} :
    {T : Type ℓ} (P : T → Type ℓ') (f : ℕ → T) (at t : ℕ) (new : T)
    → (P (f at) → P new)
    → P (f t)
    → P (update f at new t)
update_each P f at t new keeps p = elim (ℕ_discrete at t) [
  | yes e ↦
      subst (λ z. P (update f at new z)) e
        (subst P (sym (update_self f at new)) (keeps (subst (λ z. P (f z)) (sym e) p)))
  | no differs ↦ subst P (sym (update-ne f at t new differs)) p
]
