-- ===== src/Slots/Exclusive.antt =====
-- src/sync/reusable_slots.rs: a slot has one owner in every interleaving.
use mathlib.Core.Path.{subst}
use cdpt.Base.{
  ℕ, ◌+◌, ◌-◌, ◌<◌, ◌≡◌, refl, sym, ◌∙◌, arith, true, false, ◌==◌, ltb, List, [], ◌∷◌, update,
  update-ne, ℕ_discrete, Bool-cases, inl, inr, ltb→lt,
}
use cdpt.Slots.{
  Thread, outside, loading, inserting, checking, taking, counting, holding, leaving, Slots, System,
  empty, acquire_or_default, write, give_back, uncount, begin, Event, call, drop_entry, move, step,
  run,
}
use cdpt.Slots.Owners.{
  Owns, owns_counting, owns_holding, owns_leaving, Visits, visits_checking, visits_taking, Inv,
  Change, Change-Inv, same_slots, gets_slot,
}

-- The counter of active slots plays no part.
recount :
    {s : System} {t : ℕ} {th : Thread} {new : Slots} (n : ℕ)
    → Change s t th new
    → Change s t th (record new { active_count = n })
recount n c = record {
  grows = c.grows;
  others = c.others;
  own = c.own;
  alone = c.alone;
  visits = c.visits;
}

checking_at : (i j : ℕ) → Visits (checking i) j → i ≡ j
checking_at i _ (visits_checking _) = refl

taking_at : (i j : ℕ) → Visits (taking i) j → i ≡ j
taking_at i _ (visits_taking _) = refl

holding_at : (i j : ℕ) → Owns (holding i) j → i ≡ j
holding_at i _ (owns_holding _) = refl

leaving_at : (i j : ℕ) → Owns (leaving i) j → i ≡ j
leaving_at i _ (owns_leaving _) = refl

module _ (s : System) (t : ℕ) (v : Inv s) where
  -- A thread that owns nothing and looks at no node.
  idle-Change :
      (th : Thread)
      → ((i : ℕ) → Owns th i → Owns (s.threads t) i)
      → ((i : ℕ) → Visits th i → i < s.slots.nodes)
      → Change s t th s.slots
  idle-Change th had sees = same_slots s t th v had sees

  loading-Change : (i : ℕ) → Change s t (loading i) s.slots
  loading-Change i = idle-Change (loading i) (λ j o. elim o [ ]) (λ j w. elim w [ ])

  clears_slot :
      (i : ℕ)
      → s.threads t ≡ leaving i
      → Change s t outside (record s.slots { using = update s.slots.using i false })
  clears_slot i at = record {
    grows = omega arith;
    others = λ u j ne o. elim (ℕ_discrete i j) [
      | yes same ↦ absurd (
          ne (
            v.apart t u j
              (subst (λ (x : Thread). Owns x j) (sym at)
                (subst (Owns (leaving i)) same (owns_leaving i)))
              o))
      | no differs ↦ update-ne s.slots.using i j false differs ∙ (v.in_use u j o).1
    ];
    own = λ j o. elim o [ ];
    alone = λ u j o other. elim o [ ];
    visits = λ j w. elim w [ ];
  }

  move-Change :
      (th : Thread)
      → s.threads t ≡ th
      → Change s t (acquire_or_default s.slots th) (write s.slots th)
  unfolding acquire_or_default write
  move-Change outside at = idle-Change outside (λ j o. elim o [ ]) (λ j w. elim w [ ])
  move-Change (loading i) at = elim (Bool-cases (ltb i s.slots.nodes)) [
    | inl there ↦ rw there (
        idle-Change (checking i) (λ j o. elim o [ ])
          (λ j w. omega (arith, checking_at i j w, ltb→lt i s.slots.nodes there)))
    | inr end ↦ rw end (idle-Change (inserting i) (λ j o. elim o [ ]) (λ j w. elim w [ ]))
  ]
  move-Change (inserting i) at = elim (Bool-cases (i == s.slots.nodes)) [
    | inl free ↦ rw free (
        gets_slot s t i (record s.slots { nodes = i + 1; using = update s.slots.using i true }) v
          (ground (arith, free)) (omega arith) refl
          (λ u o. absurd (ground (arith, free, v.in_use u i o))))
    | inr lost ↦ rw lost (loading-Change i)
  ]
  move-Change (checking i) at = elim (Bool-cases (s.slots.using i)) [
    | inl busy ↦ rw busy (loading-Change (i + 1))
    | inr free ↦ rw free (
        idle-Change (taking i) (λ j o. elim o [ ])
          (λ j w. omega (
            arith,
            taking_at i j w,
            v.visits t i (subst (λ (x : Thread). Visits x i) (sym at) (visits_checking i)),
          )))
  ]
  move-Change (taking i) at = elim (Bool-cases (s.slots.using i)) [
    | inl busy ↦ rw busy (loading-Change (i + 1))
    | inr free ↦ rw free (
        gets_slot s t i (record s.slots { using = update s.slots.using i true }) v (omega arith)
          (v.visits t i (subst (λ (x : Thread). Visits x i) (sym at) (visits_taking i))) refl
          (λ u o. absurd (cc (sym free ∙ (v.in_use u i o).1))))
  ]
  move-Change (counting i) at = recount (s.slots.active_count + 1) (
      idle-Change (holding i)
        (λ j o.
          subst (Owns (s.threads t)) (holding_at i j o)
            (subst (λ (x : Thread). Owns x i) (sym at) (owns_counting i)))
        (λ j w. elim w [ ]))
  move-Change (holding i) at =
      idle-Change (holding i) (λ j o. subst (λ (x : Thread). Owns x j) (sym at) o)
        (λ j w. elim w [ ])
  move-Change (leaving i) at = clears_slot i at

  -- A thread that stays where it is.
  stays : (th : Thread) → s.threads t ≡ th → Change s t th s.slots
  stays th at =
      idle-Change th (λ j o. subst (λ (x : Thread). Owns x j) (sym at) o)
        (λ j w. v.visits t j (subst (λ (x : Thread). Visits x j) (sym at) w))

  drop-Change : (th : Thread) → s.threads t ≡ th → Change s t (give_back th) (uncount s.slots th)
  unfolding give_back uncount
  drop-Change (holding i) at = recount (s.slots.active_count - 1) (
      idle-Change (leaving i)
        (λ j o.
          subst (Owns (s.threads t)) (leaving_at i j o)
            (subst (λ (x : Thread). Owns x i) (sym at) (owns_holding i)))
        (λ j w. elim w [ ]))
  drop-Change outside at = stays outside at
  drop-Change (loading i) at = stays (loading i) at
  drop-Change (inserting i) at = stays (inserting i) at
  drop-Change (checking i) at = stays (checking i) at
  drop-Change (taking i) at = stays (taking i) at
  drop-Change (counting i) at = stays (counting i) at
  drop-Change (leaving i) at = stays (leaving i) at

  begin-Change : (th : Thread) → s.threads t ≡ th → Change s t (begin th) s.slots
  unfolding begin
  begin-Change outside at = loading-Change 0
  begin-Change (holding i) at = stays (holding i) at
  begin-Change (loading i) at = stays (loading i) at
  begin-Change (inserting i) at = stays (inserting i) at
  begin-Change (checking i) at = stays (checking i) at
  begin-Change (taking i) at = stays (taking i) at
  begin-Change (counting i) at = stays (counting i) at
  begin-Change (leaving i) at = stays (leaving i) at

step-Inv : (e : Event) (s : System) → Inv s → Inv (step e s)
unfolding step
step-Inv (call t) s v =
    Change-Inv s t (begin (s.threads t)) s.slots v (begin-Change s t v (s.threads t) refl)
step-Inv (drop_entry t) s v =
    Change-Inv s t (give_back (s.threads t)) (uncount s.slots (s.threads t)) v
      (drop-Change s t v (s.threads t) refl)
step-Inv (move t) s v =
    Change-Inv s t (acquire_or_default s.slots (s.threads t)) (write s.slots (s.threads t)) v
      (move-Change s t v (s.threads t) refl)

run-Inv : (events : List Event) (s : System) → Inv s → Inv (run events s)
unfolding run
run-Inv [] s v = v
run-Inv (e ∷ events) s v = run-Inv events (step e s) (step-Inv e s v)

empty-Inv : Inv empty
empty-Inv = record {
  in_use = λ t i o. elim o [ ];
  apart = λ t u i o. elim o [ ];
  visits = λ t i w. elim w [ ];
}

-- In every interleaving of calls and drops by any threads: the slot of an entry that a thread has is
-- in the list with its flag set, and no other thread has an entry of it.
pub entry_exclusive :
    (events : List Event) (t i : ℕ)
    → Owns ((run events empty).threads t) i
    → (i < (run events empty).slots.nodes)
      × ((run events empty).slots.using i ≡ true)
      × ((u : ℕ) → Owns ((run events empty).threads u) i → t ≡ u)
entry_exclusive events t i o =
    let v = run-Inv events empty empty-Inv in
    ((v.in_use t i o).0, (v.in_use t i o).1, λ u other. v.apart t u i o other)
