-- ===== src/Slots/Owners.antt =====
-- src/sync/reusable_slots.rs: no slot has two owners.
use mathlib.Core.Path.{subst}
use cdpt.Base.{
  ℕ, ◌<◌, ◌≤◌, ◌≡◌, ◌≢◌, sym, ap, ◌∙◌, arith, Bool, true, update, update_self, update-ne,
  ℕ_discrete, inl, inr, ◌⊎◌,
}
use cdpt.Slots.{Thread, checking, taking, counting, holding, leaving, Slots, System}

-- A thread has the entry of slot `i`, from the compare-exchange on until the flag is cleared.
pub data Owns : Thread → ℕ → Type 0 where
  owns_counting : (i : ℕ) → Owns (counting i) i
  owns_holding : (i : ℕ) → Owns (holding i) i
  owns_leaving : (i : ℕ) → Owns (leaving i) i

-- A thread looks at the flag of node `i`.
pub data Visits : Thread → ℕ → Type 0 where
  visits_checking : (i : ℕ) → Visits (checking i) i
  visits_taking : (i : ℕ) → Visits (taking i) i

-- An owned slot exists and has its flag set, no slot has two owners, and a thread looks only at nodes
-- that exist.
pub record Inv (s : System) : Type 0 where
  pub in_use : (t i : ℕ) → Owns (s.threads t) i → (i < s.slots.nodes) × (s.slots.using i ≡ true)
  pub apart : (t u i : ℕ) → Owns (s.threads t) i → Owns (s.threads u) i → t ≡ u
  pub visits : (t i : ℕ) → Visits (s.threads t) i → i < s.slots.nodes

-- A change by thread `t` that keeps the invariant.
pub record Change (s : System) (t : ℕ) (th : Thread) (new : Slots) : Type 0 where
  pub grows : s.slots.nodes ≤ new.nodes
  pub others : (u i : ℕ) → t ≢ u → Owns (s.threads u) i → new.using i ≡ true
  pub own : (i : ℕ) → Owns th i → (i < new.nodes) × (new.using i ≡ true)
  pub alone : (u i : ℕ) → Owns th i → Owns (s.threads u) i → t ≡ u
  pub visits : (i : ℕ) → Visits th i → i < new.nodes

-- What holds of the new thread and of the others holds of all.
at_thread :
    (P : Thread → Type 0) (s : System) (t u : ℕ) (th : Thread)
    → P (update s.threads t th u)
    → ((t ≡ u) × P th) ⊎ ((t ≢ u) × P (s.threads u))
at_thread P s t u th p = elim (ℕ_discrete t u) [
  | yes same ↦
      let here = sym (ap (update s.threads t th) same) ∙ update_self s.threads t th in
      inl (same, subst P here p)
  | no differs ↦ inr (differs, subst P (update-ne s.threads t u th differs) p)
]

pub Change-Inv :
    (s : System) (t : ℕ) (th : Thread) (new : Slots)
    → Inv s
    → Change s t th new
    → Inv (record { slots = new; threads = update s.threads t th })
Change-Inv s t th new v c = record {
  in_use = λ u i o. elim (at_thread (λ (x : Thread). Owns x i) s t u th o) [
    | inl (same, here) ↦ c.own i here
    | inr (differs, there) ↦
        (omega (arith, (v.in_use u i there).0, c.grows), c.others u i differs there)
  ];
  apart = λ u w i a b. elim (at_thread (λ (x : Thread). Owns x i) s t u th a) [
    | inl (same, here) ↦ elim (at_thread (λ (x : Thread). Owns x i) s t w th b) [
      | inl (again, _) ↦ sym same ∙ again
      | inr (differs, there) ↦ sym same ∙ c.alone w i here there
    ]
    | inr (differs, there) ↦ elim (at_thread (λ (x : Thread). Owns x i) s t w th b) [
      | inl (again, here) ↦ sym (c.alone u i here there) ∙ again
      | inr (_, here) ↦ v.apart u w i there here
    ]
  ];
  visits = λ u i o. elim (at_thread (λ (x : Thread). Visits x i) s t u th o) [
    | inl (same, here) ↦ c.visits i here
    | inr (differs, there) ↦ omega (arith, v.visits u i there, c.grows)
  ];
}

-- A change of the thread alone, which gets no slot that it did not have.
pub same_slots :
    (s : System) (t : ℕ) (th : Thread)
    → Inv s
    → ((i : ℕ) → Owns th i → Owns (s.threads t) i)
    → ((i : ℕ) → Visits th i → i < s.slots.nodes)
    → Change s t th s.slots
same_slots s t th v had sees = record {
  grows = omega arith;
  others = λ u i ne o. (v.in_use u i o).1;
  own = λ i o. v.in_use t i (had i o);
  alone = λ u i o other. v.apart t u i (had i o) other;
  visits = sees;
}

-- A compare-exchange that gets slot `i`, which no one owns.
pub gets_slot :
    (s : System) (t i : ℕ) (new : Slots)
    → Inv s
    → s.slots.nodes ≤ new.nodes
    → i < new.nodes
    → new.using ≡ update s.slots.using i true
    → ((u : ℕ) → Owns (s.threads u) i → t ≡ u)
    → Change s t (counting i) new
gets_slot s t i new v more bound flag free = record {
  grows = more;
  others = λ u j ne o. ap (λ (f : ℕ → Bool). f j) flag ∙ still u j o;
  own = own;
  alone = alone;
  visits = λ j w. elim w [ ];
}
  where
    still : (u j : ℕ) → Owns (s.threads u) j → update s.slots.using i true j ≡ true
    still u j o = elim (ℕ_discrete i j) [
      | yes same ↦ sym (ap (update s.slots.using i true) same) ∙ update_self s.slots.using i true
      | no differs ↦ update-ne s.slots.using i j true differs ∙ (v.in_use u j o).1
    ]

    own : (j : ℕ) → Owns (counting i) j → (j < new.nodes) × (new.using j ≡ true)
    own _ (owns_counting _) =
        (bound, ap (λ (f : ℕ → Bool). f i) flag ∙ update_self s.slots.using i true)

    alone : (u j : ℕ) → Owns (counting i) j → Owns (s.threads u) j → t ≡ u
    alone u _ (owns_counting _) o = free u o
