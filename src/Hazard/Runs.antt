-- ===== src/Hazard/Runs.antt =====
-- src/internal.rs: hazard pointers in every sequence of operations of their thread.
use mathlib.Core.Option.{bind}
use cdpt.Base.{
  ℕ, zero, suc, ◌≡◌, refl, arith, none, some, List, [], ◌∷◌, ◌==◌, if◌then◌else◌, get_elem?, inl,
  inr, Option-cases, false,
}
use cdpt.Hazard.{
  Hazards, Slot, Marker, replicate, resize, initial, write_slot, protect, clear, release_hp, drop,
  Event, new, protect_with, clear_with, drop_with, step, run, with_hid,
}
use cdpt.Hazard.Ids.{count, within, count-extend, count-remove_at}
use cdpt.Hazard.Slots.{Agrees, idle, shield, Paired-fresh}
use cdpt.Hazard.Valid.{
  IsValid, Succeeds, acquire_hp-Succeeds, held-lt, written, write_slot-written, written-IsValid,
  length-replicate,
}

initial-IsValid : IsValid initial
unfolding resize within count replicate
initial-IsValid = record {
  paired = Paired-fresh 8;
  some_slot = omega (arith, length-replicate {A = Slot} 8 (some 0));
  once = λ i. rw (length-replicate {A = Slot} 8 (some 0)) (ground (arith, count-extend i [] 0 8));
}

protect-Agrees : (addr ty : ℕ) → Agrees (some addr) (if addr == 0 then none else some ty)
protect-Agrees zero ty = idle
protect-Agrees (suc a) ty =
    let not_null : (suc a == 0) ≡ false = ground arith in rw not_null (shield a ty)

write_slot-Succeeds :
    (l : Hazards) (k hid addr : ℕ) (mark : Marker)
    → IsValid l
    → get_elem? l.held k ≡ some hid
    → Agrees (some addr) mark
    → Succeeds (write_slot hid addr mark l)
write_slot-Succeeds l k hid addr mark v h a = record {
  after = written hid addr mark l;
  returns = write_slot-written hid addr mark l v (held-lt l v k hid h);
  valid = written-IsValid hid addr mark l v a;
}

release_hp-IsValid :
    (k hid : ℕ) (l : Hazards)
    → IsValid l
    → get_elem? l.held k ≡ some hid
    → IsValid (release_hp k hid l)
unfolding release_hp count
release_hp-IsValid k hid l v h = record {
  paired = v.paired;
  some_slot = v.some_slot;
  once = λ i. omega (arith, v.once i, count-remove_at i k l.held hid h);
}

drop-Succeeds :
    (l : Hazards) (k hid : ℕ) → IsValid l → get_elem? l.held k ≡ some hid → Succeeds (drop k hid l)
unfolding drop clear
drop-Succeeds l k hid v h = record {
  after = release_hp k hid (written hid 0 none l);
  returns = rw (write_slot-written hid 0 none l v (held-lt l v k hid h)) refl;
  valid = release_hp-IsValid k hid (written hid 0 none l) (written-IsValid hid 0 none l v idle) h;
}

pub step-Succeeds : (e : Event) (l : Hazards) → IsValid l → Succeeds (step e l)
unfolding step protect clear with_hid
step-Succeeds new l v = acquire_hp-Succeeds l.available_hids l v refl
step-Succeeds (protect_with k addr ty) l v = elim (Option-cases (get_elem? l.held k)) [
  | inl e ↦ rw e (record { after = l; returns = refl; valid = v })
  | inr (hid, e) ↦ rw e (write_slot-Succeeds l k hid addr _ v e (protect-Agrees addr ty))
]
step-Succeeds (clear_with k) l v = elim (Option-cases (get_elem? l.held k)) [
  | inl e ↦ rw e (record { after = l; returns = refl; valid = v })
  | inr (hid, e) ↦ rw e (write_slot-Succeeds l k hid 0 none v e idle)
]
step-Succeeds (drop_with k) l v = elim (Option-cases (get_elem? l.held k)) [
  | inl e ↦ rw e (record { after = l; returns = refl; valid = v })
  | inr (hid, e) ↦ rw e (drop-Succeeds l k hid v e)
]

run-Succeeds : (events : List Event) (l : Hazards) → IsValid l → Succeeds (run events l)
unfolding run bind
run-Succeeds [] l v = record { after = l; returns = refl; valid = v }
run-Succeeds (e ∷ events) l v =
    let here = step-Succeeds e l v in rw here.returns (run-Succeeds events here.after here.valid)

-- Whatever a thread does with hazard pointers, no operation panics or leaves the bounds of a vector.
-- Afterwards each slot is initialised and has a marker exactly if it is not null, and each index is
-- either available once or held by one hazard pointer.
pub run-initial : (events : List Event) → Succeeds (run events initial)
run-initial events = run-Succeeds events initial initial-IsValid
