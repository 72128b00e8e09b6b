-- ===== src/Hazard/Valid.antt =====
-- src/internal.rs: the states of the hazard pointers of a thread, and the writes to them.
use mathlib.Core.List.{append-nil}
use cdpt.Base.{
  ℕ, zero, suc, ◌+◌, ◌-◌, ◌*◌, ◌<◌, ◌≡◌, refl, ap, arith, max, Option, some, List, [], ◌∷◌, ◌++◌,
  length, get_elem?, set, length-append, lt→ltb, length-set,
}
use cdpt.Hazard.{
  Hazards, Slot, grow_slots, Marker, replicate, grow_hazards, acquire_hp, pop_hid, write_slot,
  extend,
}
use cdpt.Hazard.Ids.{count, within, count-extend, count-get}
use cdpt.Hazard.Slots.{Paired, Agrees, Paired-length, Paired-set, Paired-grow}

-- The vectors agree slot by slot, there is a slot, and each index below their length is either
-- available once or held by one `HazardPointer`.
pub record IsValid (l : Hazards) : Type 0 where
  pub paired : Paired l.hazards l.hazards_marker
  pub some_slot : 0 < length l.hazards
  pub once : (i : ℕ) → count i l.available_hids + count i l.held ≡ within i (length l.hazards)

-- The operation does not panic and stays in bounds, and leaves a valid state.
pub record Succeeds (result : Option Hazards) : Type 0 where
  pub after : Hazards
  pub returns : result ≡ some after
  pub valid : IsValid after

pub length-replicate {ℓ} : {A : Type ℓ} (n : ℕ) (a : A) → length (replicate n a) ≡ n
unfolding replicate
length-replicate zero a = refl
length-replicate (suc n) a = ap suc (length-replicate n a)

-- With at least one old slot, nothing is left uninitialised.
pub grow_slots-filled :
    (hps : List Slot) → 0 < length hps → grow_slots hps ≡ hps ++ replicate (length hps) (some 0)
unfolding grow_slots replicate
grow_slots-filled hps h =
    let none_left : max (length hps) 1 * 2 - (length hps + length hps) ≡ 0 = omega arith in
    rw none_left
      (ap (λ (tail : List Slot). hps ++ tail) (append-nil (replicate (length hps) (some 0))))

pub length-grow_slots :
    (hps : List Slot) → 0 < length hps → length (grow_slots hps) ≡ length hps + length hps
length-grow_slots hps h = rw (grow_slots-filled hps h) (
    omega (
      arith,
      length-append hps (replicate (length hps) (some 0)),
      length-replicate {A = Slot} (length hps) (some 0),
    ))

pub grow-IsValid : (l : Hazards) → IsValid l → IsValid (grow_hazards l)
unfolding grow_hazards
grow-IsValid l v =
    let n = length l.hazards in
    let twice : n * 2 ≡ n + n = omega arith in
    let len = length-grow_slots l.hazards v.some_slot in
    record {
      paired = rw (grow_slots-filled l.hazards v.some_slot, twice) (Paired-grow n v.paired);
      some_slot = omega (arith, len, v.some_slot);
      once = λ i. rw len (omega (arith, count-extend i l.available_hids n n, v.once i));
    }

length-extend : (stack : List ℕ) (from n : ℕ) → length (extend stack from n) ≡ length stack + n
unfolding extend
length-extend stack from zero = omega arith
length-extend stack from (suc n) = omega (arith, length-extend (from ∷ stack) (from + 1) n)

pop_hid-Succeeds :
    (hids : List ℕ) (l : Hazards)
    → IsValid l
    → l.available_hids ≡ hids
    → 0 < length hids
    → Succeeds (pop_hid hids l)
unfolding pop_hid count
pop_hid-Succeeds [] l v e h = absurd (omega arith)
pop_hid-Succeeds (hid ∷ hids) l v e h = record {
  after = record l { available_hids = hids; held = hid ∷ l.held };
  returns = refl;
  valid = record {
    paired = v.paired;
    some_slot = v.some_slot;
    once = λ i.
        let here : count i l.available_hids ≡ count i (hid ∷ hids) = ap (count i) e in
        omega (arith, v.once i, here);
  };
}

pub acquire_hp-Succeeds :
    (hids : List ℕ) (l : Hazards)
    → IsValid l
    → l.available_hids ≡ hids
    → Succeeds (acquire_hp hids l)
unfolding acquire_hp grow_hazards
acquire_hp-Succeeds [] l v e =
    let n = length l.hazards in
    let more : 0 < length (extend l.available_hids n n) =
      omega (arith, length-extend l.available_hids n n, v.some_slot) in
    pop_hid-Succeeds (grow_hazards l).available_hids (grow_hazards l) (grow-IsValid l v) refl more
acquire_hp-Succeeds (hid ∷ hids) l v e = pop_hid-Succeeds (hid ∷ hids) l v e (omega arith)

-- What a `HazardPointer` holds is in bounds.
pub held-lt :
    (l : Hazards) → IsValid l → (k hid : ℕ) → get_elem? l.held k ≡ some hid → hid < length l.hazards
unfolding within
held-lt l v k hid h = ground (arith, v.once hid, count-get k l.held hid h)

abbrev pub written : ℕ → ℕ → Marker → Hazards → Hazards
written hid addr mark l = record l {
  hazards = set l.hazards hid (some addr);
  hazards_marker = set l.hazards_marker hid mark;
}

pub write_slot-written :
    (hid addr : ℕ) (mark : Marker) (l : Hazards)
    → IsValid l
    → hid < length l.hazards
    → write_slot hid addr mark l ≡ some (written hid addr mark l)
unfolding write_slot
write_slot-written hid addr mark l v h =
    rw (Paired-length v.paired, lt→ltb hid (length l.hazards) h) refl

pub written-IsValid :
    (hid addr : ℕ) (mark : Marker) (l : Hazards)
    → IsValid l
    → Agrees (some addr) mark
    → IsValid (written hid addr mark l)
written-IsValid hid addr mark l v a = record {
  paired = Paired-set hid a v.paired;
  some_slot = omega (arith, length-set l.hazards hid (some addr), v.some_slot);
  once = λ i. rw (length-set l.hazards hid (some addr)) (v.once i);
}
