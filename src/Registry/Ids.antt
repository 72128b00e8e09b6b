-- ===== src/Registry/Ids.antt =====
-- src/pointers.rs: type ids lead to the shade functions of their types.
use mathlib.Core.Path.{subst}
use cdpt.Base.{ℕ, ◌<◌, ◌≡◌, ◌≢◌, ◌↔◌, refl, sym, ap, ◌∙◌, inl, inr, some, List, [], ◌∷◌, Bool-cases}
use cdpt.Registry.{
  max_type_id, absent, set, Registry, inserting, registered, get_shade_fn, System, initial, is_idle,
  Event, register_type, move, step, run,
}
use cdpt.Registry.Invariant.{
  brings, takes, Knows, at_idle, at_inserting, at_registered, Inv, Moves-Inv, none≢some,
}
use cdpt.Registry.Writes.{plain}
use cdpt.Registry.Moves.{move-Moves}

-- After more events the invariant holds, and every type that has an id still has it.
record Later (before after : System) : Type 0 where
  inv : Inv after
  ids : (ty id : ℕ) → before.registry.type_set ty ≡ set id → after.registry.type_set ty ≡ set id

step-Later : (e : Event) (s : System) → Inv s → Later s (step e s)
unfolding step brings takes
step-Later (register_type t ty) s v = elim (Bool-cases (is_idle (s.threads t))) [
  | inl q ↦ rw q (record {
    inv =
        Moves-Inv s t (inserting ty) s.registry v
          (plain s t v (inserting ty) (at_inserting ty) none≢some none≢some);
    ids = λ x i e. e;
  })
  | inr q ↦ rw q (record { inv = v; ids = λ x i e. e })
]
step-Later (move t) s v =
    let m = move-Moves s t v (s.threads t) refl (v.knows t) in
    record { inv = Moves-Inv s t _ _ v m; ids = m.frame.set_stays }

run-Later : (events : List Event) (s : System) → Inv s → Later s (run events s)
unfolding run
run-Later [] s v = record { inv = v; ids = λ x i e. e }
run-Later (e ∷ events) s v =
    let one = step-Later e s v in
    let more = run-Later events (step e s) one.inv in
    record { inv = more.inv; ids = λ x i q. more.ids x i (one.ids x i q) }

initial-Inv : Inv initial
unfolding brings takes
initial-Inv = record {
  knows = λ t. at_idle;
  one_brings = λ t u ty p q. absurd (none≢some ty p);
  one_takes = λ t u id p q. absurd (none≢some id p);
  entries = λ ty id q. absurd (absent≢set id q);
  fresh = λ id l. refl;
}
  where
    absent≢set : (i : ℕ) → absent ≢ set i
    absent≢set i q = cc

registered_entry : (r : Registry) (ty id : ℕ) → Knows r (registered ty id) → r.type_set ty ≡ set id
registered_entry r ty id (at_registered _ _ e) = e

-- In every interleaving, when a thread has registered a type, and then or after more events a thread has
-- registered a type, the first id is below 256 and leads to the shade function of the first
-- type, and the two ids are equal exactly if the two types are.
pub registered_ids :
    (before after : List Event) (t u ty other id other_id : ℕ)
    → (run before initial).threads t ≡ registered ty id
    → (run after (run before initial)).threads u ≡ registered other other_id
    → (id < max_type_id)
      × (get_shade_fn id (run after (run before initial)).registry ≡ some ty)
      × (ty ≡ other ↔ id ≡ other_id)
unfolding get_shade_fn
registered_ids before after t u ty other id other_id p q =
    let first = run before initial in
    let last = run after first in
    let v = run-Later before initial initial-Inv in
    let w = run-Later after first v.inv in
    let a =
      w.ids ty id
        (registered_entry first.registry ty id (subst (Knows first.registry) p (v.inv.knows t))) in
    let b =
      registered_entry last.registry other other_id
        (subst (Knows last.registry) q (w.inv.knows u)) in
    let (bound, shade) = w.inv.entries ty id a in
    let (bound2, shade2) = w.inv.entries other other_id b in
    let ids : ty ≡ other → id ≡ other_id =
      λ e. set_injective id other_id (sym a ∙ ap last.registry.type_set e ∙ b) in
    let types : id ≡ other_id → ty ≡ other =
      λ e. some_injective ty other (sym shade ∙ ap last.registry.shade_fn_table e ∙ shade2) in
    (bound, shade, (ids, types))
  where
    set_injective : (x y : ℕ) → set x ≡ set y → x ≡ y
    set_injective x y e = cc

    some_injective : (x y : ℕ) → some x ≡ some y → x ≡ y
    some_injective x y e = cc
