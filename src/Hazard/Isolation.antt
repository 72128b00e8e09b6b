-- ===== src/Hazard/Isolation.antt =====
-- src/internal.rs: the hazard pointers of a thread do not disturb one another.
use mathlib.Core.Option.{some-injective}
use mathlib.Core.Path.{subst}
use cdpt.Base.{
  ℕ, zero, suc, ◌<◌, ◌≤◌, ◌≡◌, ◌≢◌, refl, sym, ap, arith, Option, none, some, ◌∙◌, List, [], ◌∷◌,
  ◌++◌, length, get_elem?, get_elem?-set_ne, inl, inr, Option-cases, ℕ_discrete,
}
use cdpt.Hazard.{
  Hazards, Slot, Marker, grow_slots, grow_hazards, pop_hid, acquire_hp, write_slot, protect, clear,
  release_hp, drop, Event, new, protect_with, clear_with, drop_with, with_hid, step,
}
use cdpt.Hazard.Ids.{count, within, one_if, one_if_self, count-get}
use cdpt.Hazard.Valid.{IsValid, held-lt, write_slot-written}
use cdpt.Hazard.Runs.{step-Succeeds}

-- The `HazardPointer` that an event uses.
unfoldable pub place_of : Event → Option ℕ
place_of new = none
place_of (protect_with k addr ty) = some k
place_of (clear_with k) = some k
place_of (drop_with k) = some k

count-two :
    (k j : ℕ) (xs : List ℕ) (x : ℕ)
    → get_elem? xs k ≡ some x
    → get_elem? xs j ≡ some x
    → k ≢ j
    → 2 ≤ count x xs
unfolding count
count-two k j [] x p q ne = cc
count-two zero zero (y ∷ xs) x p q ne = absurd (ne refl)
count-two zero (suc j) (y ∷ xs) x p q ne =
    omega
      (arith, one_if_self x, count-get j xs x q, ap (λ (z : ℕ). one_if x z) (some-injective y x p))
count-two (suc k) zero (y ∷ xs) x p q ne =
    omega
      (arith, one_if_self x, count-get k xs x p, ap (λ (z : ℕ). one_if x z) (some-injective y x q))
count-two (suc k) (suc j) (y ∷ xs) x p q ne =
    omega (arith, count-two k j xs x p q (λ e. ne (ap suc e)))

-- Two hazard pointers that are alive have different slots.
pub held-injective :
    (l : Hazards) (k j hid : ℕ)
    → IsValid l
    → get_elem? l.held k ≡ some hid
    → get_elem? l.held j ≡ some hid
    → k ≡ j
unfolding within
held-injective l k j hid v p q = elim (ℕ_discrete k j) [
  | yes e ↦ e
  | no ne ↦ absurd (ground (arith, count-two k j l.held hid p q ne, v.once hid))
]

get_elem?-append :
    (xs ys : List Slot) (i : ℕ) → i < length xs → get_elem? (xs ++ ys) i ≡ get_elem? xs i
get_elem?-append [] ys i h = absurd (omega arith)
get_elem?-append (x ∷ xs) ys zero h = refl
get_elem?-append (x ∷ xs) ys (suc i) h = get_elem?-append xs ys i (omega arith)

pop_hid-slots :
    (hids : List ℕ) (l after : Hazards) → pop_hid hids l ≡ some after → after.hazards ≡ l.hazards
unfolding pop_hid
pop_hid-slots [] l after e = cc
pop_hid-slots (hid ∷ hids) l after e = ap (λ (h : Hazards). h.hazards) (sym (some-injective _ _ e))

acquire_hp-slot :
    (hids : List ℕ) (l after : Hazards) (hid : ℕ)
    → acquire_hp hids l ≡ some after
    → hid < length l.hazards
    → get_elem? after.hazards hid ≡ get_elem? l.hazards hid
unfolding acquire_hp grow_hazards grow_slots
acquire_hp-slot [] l after hid e h =
    ap (λ (hps : List Slot). get_elem? hps hid)
      (pop_hid-slots (grow_hazards l).available_hids (grow_hazards l) after e)
    ∙ get_elem?-append l.hazards _ hid h
acquire_hp-slot (x ∷ hids) l after hid e h =
    ap (λ (hps : List Slot). get_elem? hps hid) (pop_hid-slots (x ∷ hids) l after e)

-- A write through the slot of place `k` leaves the slot of place `j` alone.
write_slot-slot :
    (l after : Hazards) (k j own hid addr : ℕ) (mark : Marker)
    → IsValid l
    → get_elem? l.held k ≡ some own
    → get_elem? l.held j ≡ some hid
    → k ≢ j
    → write_slot own addr mark l ≡ some after
    → get_elem? after.hazards hid ≡ get_elem? l.hazards hid
write_slot-slot l after k j own hid addr mark v p q ne e =
    ap (λ (h : Hazards). get_elem? h.hazards hid)
      (sym
        (some-injective _ _ (sym (write_slot-written own addr mark l v (held-lt l v k own p)) ∙ e)))
    ∙ get_elem?-set_ne l.hazards own hid (some addr) λ same.
      ne (held-injective l k j hid v (subst (λ (o : ℕ). get_elem? l.held k ≡ some o) same p) q)

none≢some : {t : Hazards} → none ≢ some t
none≢some h = cc

drop-clear :
    (k own : ℕ) (l after : Hazards)
    → drop k own l ≡ some after
    → (mid : Hazards) × (clear own l ≡ some mid) × (mid.hazards ≡ after.hazards)
unfolding drop release_hp
drop-clear k own l after e = elim (Option-cases (clear own l)) [
  | inl h ↦ absurd (none≢some (rw h at e))
  | inr (mid, h) ↦ (
    mid,
    h,
    ap (λ (t : Hazards). t.hazards) (some-injective (release_hp k own mid) after (rw h at e)),
  )
]

module _ (l : Hazards) (j hid : ℕ) (v : IsValid l) (q : get_elem? l.held j ≡ some hid) where
  other :
      (k : ℕ) (op : ℕ → Hazards → Option Hazards) (after : Hazards)
      → k ≢ j
      → with_hid (get_elem? l.held k) op l ≡ some after
      → ((own : ℕ)
          → get_elem? l.held k ≡ some own
          → op own l ≡ some after
          → get_elem? after.hazards hid ≡ get_elem? l.hazards hid)
      → get_elem? after.hazards hid ≡ get_elem? l.hazards hid
  unfolding with_hid
  other k op after ne e write = elim (Option-cases (get_elem? l.held k)) [
    | inl h ↦
        ap (λ (t : Hazards). get_elem? t.hazards hid) (sym (some-injective l after (rw h at e)))
    | inr (own, h) ↦ write own h (rw h at e)
  ]

  kept :
      (e : Event) (after : Hazards)
      → step e l ≡ some after
      → place_of e ≢ some j
      → get_elem? after.hazards hid ≡ get_elem? l.hazards hid
  unfolding step place_of protect clear
  kept new after s ne = acquire_hp-slot l.available_hids l after hid s (held-lt l v j hid q)
  kept (protect_with k addr ty) after s ne =
      other k (λ own. protect own addr ty) after (λ h. ne (ap some h)) s
        λ own h w. write_slot-slot l after k j own hid addr _ v h q (λ same. ne (ap some same)) w
  kept (clear_with k) after s ne =
      other k clear after (λ h. ne (ap some h)) s
        λ own h w. write_slot-slot l after k j own hid 0 none v h q (λ same. ne (ap some same)) w
  kept (drop_with k) after s ne =
      other k (drop k) after (λ h. ne (ap some h)) s
        λ own h w.
          let (mid, c, same) = drop-clear k own l after w in
          ap (λ (hps : List Slot). get_elem? hps hid) (sym same)
          ∙ write_slot-slot l mid k j own hid 0 none v h q (λ same. ne (ap some same)) c

-- One operation on another hazard pointer than the one at place `j`, or the making of a new one,
-- which may grow the vectors, does not panic and leaves the slot of the one at place `j` as it was.
pub step-slot :
    (e : Event) (l : Hazards) (j hid : ℕ)
    → IsValid l
    → get_elem? l.held j ≡ some hid
    → place_of e ≢ some j
    → (after : Hazards) × (step e l ≡ some after)
      × (get_elem? after.hazards hid ≡ get_elem? l.hazards hid)
step-slot e l j hid v q ne =
    let done = step-Succeeds e l v in
    (done.after, done.returns, kept l j hid v q e done.after done.returns ne)
