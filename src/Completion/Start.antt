-- ===== src/Completion/Start.antt =====
-- src/collector.rs: what `try_confirm_completion` has learnt about the start of its epoch.
use mathlib.Core.Path.{subst}
use cdpt.Base.{
  ℕ, ◌+◌, ◌<◌, ◌≡◌, ◌≢◌, refl, sym, ◌∙◌, arith, ◌⊎◌, inl, inr, true, false, ltb, ◌==◌, Option, List,
  [], ◌∷◌, update_each, ℕ_discrete, Bool-cases,
}
use cdpt.Completion.{
  Thread, checking, recording_push, Mutator, Confirm, first, emptiness, second, answered, System,
  Event, schedule_mark, try_pop_mark_task, move, read_next, is_empty, call_in, advance, at_second,
  at_emptiness, at_first, confirm_next, step,
}
use cdpt.Completion.Kept.{
  Calm, at_checking, at_recording_push, Kept, recorded, untouched, call_in-Kept, advance-modified,
  advance-Kept,
}

pub is_empty→eq : (tasks : List ℕ) → is_empty tasks ≡ true → tasks ≡ []
unfolding is_empty
is_empty→eq [] e = refl
is_empty→eq (task ∷ tasks) e = cc

module _ (push : ℕ → List ℕ → List ℕ) (pop : List ℕ → Option (ℕ × List ℕ)) (ts locals : ℕ) where
  -- What each call and access of a mutator keeps is kept by each event.
  step-kept :
      (P : Mutator → Type 0)
      → ((m : Mutator) (th : Thread) → Calm th → P m → P (call_in th m))
      → ((m : Mutator) → P m → P (advance push pop ts m m.thread))
      → (e : Event) (s : System) (t : ℕ) → P (s.mutators t)
      → P ((step push pop ts locals e s).mutators t)
  unfolding step
  step-kept P c a (schedule_mark u task) s t p =
      update_each P s.mutators u t _
        (c (s.mutators u) (recording_push task) (at_recording_push task)) p
  step-kept P c a (try_pop_mark_task u) s t p =
      update_each P s.mutators u t _ (c (s.mutators u) checking at_checking) p
  step-kept P c a (move u) s t p = update_each P s.mutators u t _ (a (s.mutators u)) p
  step-kept P c a read_next s t p = p

  pub step-Kept :
      (tasks : List ℕ) (e : Event) (s : System) (t : ℕ)
      → Kept ts tasks (s.mutators t)
      → Kept ts tasks ((step push pop ts locals e s).mutators t)
  step-Kept tasks =
      step-kept (Kept ts tasks) (call_in-Kept ts tasks) (advance-Kept push pop ts tasks)

  -- A mutator that has recorded the epoch keeps it.
  pub step-modified :
      (e : Event) (s : System) (t : ℕ)
      → (s.mutators t).modified ≡ ts
      → ((step push pop ts locals e s).mutators t).modified ≡ ts
  unfolding call_in
  step-modified =
      step-kept (λ m. m.modified ≡ ts) (λ m th c e. e)
        (λ m e. advance-modified push pop ts m m.thread e)

  module _ (start : ℕ → List ℕ) where
    -- What the collector knows of a mutator whose deque it has seen empty.
    abbrev pub Seen : (ℕ → Mutator) → ℕ → Type 0
    Seen mutators u = ((mutators u).modified ≡ ts) ⊎ (start u ≡ [])

    pub data Progress (mutators : ℕ → Mutator) : Confirm → Type 0 where
      at_first_pass : (i : ℕ) → Progress mutators (first i)
      at_emptiness_pass :
          (i : ℕ) → ((u : ℕ) → u < i → Seen mutators u) → Progress mutators (emptiness i)
      at_second_pass :
          (i : ℕ)
          → i < locals
          → ((u : ℕ) → u < locals → Seen mutators u)
          → ((u : ℕ) → u < i → start u ≡ [])
          → Progress mutators (second i)
      refused : Progress mutators (answered false)
      complete : ((u : ℕ) → u < locals → start u ≡ []) → Progress mutators (answered true)

    at_second-Progress :
        (mutators : ℕ → Mutator) (i : ℕ)
        → ((u : ℕ) → u < locals → Seen mutators u)
        → ((u : ℕ) → u < i → start u ≡ [])
        → Progress mutators (at_second push pop ts locals i)
    unfolding at_second
    at_second-Progress mutators i a b = elim (Bool-cases (ltb i locals)) [
      | inl q ↦ rw q (at_second_pass i (inside i locals q) a b)
      | inr q ↦ rw q (complete (λ u l. b u (below u i locals q l)))
    ]
      where
        below : (u i n : ℕ) → ltb i n ≡ false → u < n → u < i
        below u i n q l = ground (arith, q, l)

        inside : (i n : ℕ) → ltb i n ≡ true → i < n
        inside i n q = ground (arith, q)

    at_emptiness-Progress :
        (mutators : ℕ → Mutator) (i : ℕ)
        → ((u : ℕ) → u < i → Seen mutators u)
        → Progress mutators (at_emptiness push pop ts locals i)
    unfolding at_emptiness
    at_emptiness-Progress mutators i a = elim (Bool-cases (ltb i locals)) [
      | inl q ↦ rw q (at_emptiness_pass i a)
      | inr q ↦ rw q (
          at_second-Progress mutators 0 (λ u l. a u (below u i locals q l))
            (λ u l. absurd (omega (arith, l))))
    ]
      where
        below : (u i n : ℕ) → ltb i n ≡ false → u < n → u < i
        below u i n q l = ground (arith, q, l)

    pub at_first-Progress :
        (mutators : ℕ → Mutator) (i : ℕ) → Progress mutators (at_first push pop ts locals i)
    unfolding at_first
    at_first-Progress mutators i = elim (Bool-cases (ltb i locals)) [
      | inl q ↦ rw q (at_first_pass i)
      | inr q ↦ rw q (at_emptiness-Progress mutators 0 (λ u l. absurd (omega (arith, l))))
    ]

    upto : (i : ℕ) (P : ℕ → Type 0) → ((u : ℕ) → u < i → P u) → P i → (u : ℕ) → u < i + 1 → P u
    upto i P f p u l = elim (ℕ_discrete i u) [
      | yes e ↦ subst P e p
      | no d ↦ f u (omega (arith, d, l))
    ]

    -- A read of the collector.
    confirm_next-Progress :
        (mutators : ℕ → Mutator) (c : Confirm)
        → ((t : ℕ) → Kept ts (start t) (mutators t))
        → Progress mutators c
        → Progress mutators (confirm_next push pop ts locals mutators c)
    unfolding confirm_next
    confirm_next-Progress mutators _ k (at_first_pass i) =
        elim (Bool-cases ((mutators i).modified == ts)) [
          | inl q ↦ rw q refused
          | inr q ↦ rw q (at_first-Progress mutators (i + 1))
        ]
    confirm_next-Progress mutators _ k (at_emptiness_pass i a) =
        elim (Bool-cases (is_empty (mutators i).tasks)) [
          | inl q ↦
              rw q (at_emptiness-Progress mutators (i + 1) (upto i (Seen mutators) a (met q (k i))))
          | inr q ↦ rw q refused
        ]
      where
        met : is_empty (mutators i).tasks ≡ true → Kept ts (start i) (mutators i) → Seen mutators i
        met q (recorded e) = inl e
        met q (untouched e c) = inr (sym e ∙ is_empty→eq (mutators i).tasks q)
    confirm_next-Progress mutators _ k (at_second_pass i l a b) =
        elim (Bool-cases ((mutators i).modified == ts)) [
          | inl q ↦ rw q refused
          | inr q ↦
              rw q (
                at_second-Progress mutators (i + 1) a
                  (upto i (λ u. start u ≡ []) b (met q (a i l))))
        ]
      where
        differs : (x y : ℕ) → (x == y) ≡ false → x ≢ y
        differs x y q e = ground (arith, q, e)

        met : ((mutators i).modified == ts) ≡ false → Seen mutators i → start i ≡ []
        met q (inl e) = absurd (differs (mutators i).modified ts q e)
        met q (inr e) = e
    confirm_next-Progress mutators _ k refused = refused
    confirm_next-Progress mutators _ k (complete a) = complete a

    -- What is known stays true while mutators go on.
    Progress-kept :
        (mutators after : ℕ → Mutator) (c : Confirm)
        → ((u : ℕ) → (mutators u).modified ≡ ts → (after u).modified ≡ ts)
        → Progress mutators c
        → Progress after c
    Progress-kept mutators after _ f (at_first_pass i) = at_first_pass i
    Progress-kept mutators after _ f (at_emptiness_pass i a) =
        at_emptiness_pass i (λ u l. still u (a u l))
      where
        still : (u : ℕ) → Seen mutators u → Seen after u
        still u (inl e) = inl (f u e)
        still u (inr e) = inr e
    Progress-kept mutators after _ f (at_second_pass i l a b) =
        at_second_pass i l (λ u l. still u (a u l)) b
      where
        still : (u : ℕ) → Seen mutators u → Seen after u
        still u (inl e) = inl (f u e)
        still u (inr e) = inr e
    Progress-kept mutators after _ f refused = refused
    Progress-kept mutators after _ f (complete a) = complete a

    pub step-Progress :
        (e : Event) (s : System)
        → ((t : ℕ) → Kept ts (start t) (s.mutators t))
        → Progress s.mutators s.confirm
        → Progress (step push pop ts locals e s).mutators (step push pop ts locals e s).confirm
    unfolding step
    step-Progress (schedule_mark u task) s k p =
        Progress-kept s.mutators _ s.confirm (step-modified (schedule_mark u task) s) p
    step-Progress (try_pop_mark_task u) s k p =
        Progress-kept s.mutators _ s.confirm (step-modified (try_pop_mark_task u) s) p
    step-Progress (move u) s k p = Progress-kept s.mutators _ s.confirm (step-modified (move u) s) p
    step-Progress read_next s k p = confirm_next-Progress s.mutators s.confirm k p
