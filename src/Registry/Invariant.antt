-- ===== src/Registry/Invariant.antt =====
-- src/pointers.rs: what threads know of the type registry, and the invariant.
use mathlib.Core.Path.{subst}
use cdpt.Base.{
  ℕ, ◌<◌, ◌≤◌, ◌≡◌, ◌≢◌, refl, sym, ap, ◌∙◌, arith, Option, none, some, update, update_self,
  update_once, update-ne, ℕ_discrete,
}
use cdpt.Registry.{
  max_type_id, unset, set, Registry, Thread, idle, panicked, inserting, assigning, loading,
  storing_fn, storing_id, registered, System,
}

-- The type that a thread alone brings in, and the id that it has taken for it.
unfoldable pub brings : Thread → Option ℕ
brings (assigning ty) = some ty
brings (storing_fn ty id) = some ty
brings (storing_id ty id) = some ty
brings thread = none

unfoldable pub takes : Thread → Option ℕ
takes (storing_fn ty id) = some id
takes thread = none

-- What a thread knows.
pub data Knows (r : Registry) : Thread → Type 0 where
  at_idle : Knows r idle
  at_panicked : max_type_id < r.next_type_id → Knows r panicked
  at_inserting : (ty : ℕ) → Knows r (inserting ty)
  at_loading : (ty : ℕ) → Knows r (loading ty)
  at_assigning : (ty : ℕ) → r.type_set ty ≡ unset → Knows r (assigning ty)
  at_storing_fn :
      (ty id : ℕ)
      → r.type_set ty ≡ unset
      → id < r.next_type_id
      → id < max_type_id
      → r.shade_fn_table id ≡ none
      → Knows r (storing_fn ty id)
  at_storing_id :
      (ty id : ℕ)
      → r.type_set ty ≡ unset
      → id < max_type_id
      → r.shade_fn_table id ≡ some ty
      → Knows r (storing_id ty id)
  at_registered : (ty id : ℕ) → r.type_set ty ≡ set id → Knows r (registered ty id)

pub record Inv (s : System) : Type 0 where
  pub knows : (t : ℕ) → Knows s.registry (s.threads t)
  pub one_brings :
      (t u ty : ℕ) → brings (s.threads t) ≡ some ty → brings (s.threads u) ≡ some ty → t ≡ u
  pub one_takes :
      (t u id : ℕ) → takes (s.threads t) ≡ some id → takes (s.threads u) ≡ some id → t ≡ u
  pub entries :
      (ty id : ℕ)
      → s.registry.type_set ty ≡ set id
      → (id < max_type_id) × (s.registry.shade_fn_table id ≡ some ty)
  pub fresh : (id : ℕ) → s.registry.next_type_id ≤ id → s.registry.shade_fn_table id ≡ none

-- A change of the registry by thread `t`, which the others do not notice.
pub record Frame (s : System) (t : ℕ) (after : Registry) : Type 0 where
  pub unset_stays :
      (ty : ℕ)
      → s.registry.type_set ty ≡ unset
      → brings (s.threads t) ≢ some ty
      → after.type_set ty ≡ unset
  pub set_stays : (ty id : ℕ) → s.registry.type_set ty ≡ set id → after.type_set ty ≡ set id
  pub none_stays :
      (id : ℕ)
      → s.registry.shade_fn_table id ≡ none
      → takes (s.threads t) ≢ some id
      → after.shade_fn_table id ≡ none
  pub some_stays :
      (id ty : ℕ) → s.registry.shade_fn_table id ≡ some ty → after.shade_fn_table id ≡ some ty
  pub grows : s.registry.next_type_id ≤ after.next_type_id

pub Knows-Frame :
    (s : System) (t : ℕ) (after : Registry)
    → Frame s t after
    → (th : Thread) → ((ty : ℕ) → brings th ≡ some ty → brings (s.threads t) ≢ some ty)
    → ((id : ℕ) → takes th ≡ some id → takes (s.threads t) ≢ some id)
    → Knows s.registry th
    → Knows after th
unfolding brings takes
Knows-Frame s t after f _ b k at_idle = at_idle
Knows-Frame s t after f _ b k (at_panicked l) = at_panicked (omega (arith, f.grows, l))
Knows-Frame s t after f _ b k (at_inserting ty) = at_inserting ty
Knows-Frame s t after f _ b k (at_loading ty) = at_loading ty
Knows-Frame s t after f _ b k (at_assigning ty e) = at_assigning ty (f.unset_stays ty e (b ty refl))
Knows-Frame s t after f _ b k (at_storing_fn ty id e l m n) =
    at_storing_fn ty id (f.unset_stays ty e (b ty refl)) (omega (arith, f.grows, l)) m
      (f.none_stays id n (k id refl))
Knows-Frame s t after f _ b k (at_storing_id ty id e m n) =
    at_storing_id ty id (f.unset_stays ty e (b ty refl)) m (f.some_stays id ty n)
Knows-Frame s t after f _ b k (at_registered ty id e) = at_registered ty id (f.set_stays ty id e)

-- Thread `t` goes on as `th`.
pub record Moves (s : System) (t : ℕ) (th : Thread) (after : Registry) : Type 0 where
  pub frame : Frame s t after
  pub knows : Knows after th
  pub brings_alone :
      (ty : ℕ) → brings th ≡ some ty → (u : ℕ) → t ≢ u → brings (s.threads u) ≢ some ty
  pub takes_alone : (id : ℕ) → takes th ≡ some id → (u : ℕ) → t ≢ u → takes (s.threads u) ≢ some id
  pub entries :
      (ty id : ℕ)
      → after.type_set ty ≡ set id
      → (id < max_type_id) × (after.shade_fn_table id ≡ some ty)
  pub fresh : (id : ℕ) → after.next_type_id ≤ id → after.shade_fn_table id ≡ none

pub Moves-Inv :
    (s : System) (t : ℕ) (th : Thread) (after : Registry)
    → Inv s
    → Moves s t th after
    → Inv (record { registry = after; threads = update s.threads t th })
Moves-Inv s t th after v m = record {
  knows = λ u. elim (ℕ_discrete t u) [
    | yes same ↦
        subst (Knows after) (sym (update_self s.threads t th) ∙ ap (update s.threads t th) same)
          m.knows
    | no differs ↦ subst (Knows after) (sym (update-ne s.threads t u th differs)) (
        Knows-Frame s t after m.frame (s.threads u) (λ ty p q. differs (v.one_brings t u ty q p))
          (λ id p q. differs (v.one_takes t u id q p)) (v.knows u))
  ];
  one_brings = update_once brings s.threads t th v.one_brings m.brings_alone;
  one_takes = update_once takes s.threads t th v.one_takes m.takes_alone;
  entries = m.entries;
  fresh = m.fresh;
}

pub none≢some : (x : ℕ) → none ≢ some x
none≢some x e = cc

pub none_else : {A : Type 0} (x : ℕ) → none ≡ some x → A
none_else x e = absurd (none≢some x e)

-- An id that has been taken is below the counter, and a type that is brought in has no id yet.
pub takes_old :
    (r : Registry) (th : Thread) (id : ℕ) → Knows r th → takes th ≡ some id → id < r.next_type_id
unfolding takes
takes_old r _ id at_idle q = none_else id q
takes_old r _ id (at_panicked l) q = none_else id q
takes_old r _ id (at_inserting ty) q = none_else id q
takes_old r _ id (at_loading ty) q = none_else id q
takes_old r _ id (at_assigning ty e) q = none_else id q
takes_old r _ id (at_storing_fn ty i e l m n) q =
    let same : i ≡ id = cc in subst (λ (x : ℕ). x < r.next_type_id) same l
takes_old r _ id (at_storing_id ty i e m n) q = none_else id q
takes_old r _ id (at_registered ty i e) q = none_else id q

pub brings_unset :
    (r : Registry) (th : Thread) (ty : ℕ) → Knows r th → brings th ≡ some ty → r.type_set ty ≡ unset
unfolding brings
brings_unset r _ ty at_idle q = none_else ty q
brings_unset r _ ty (at_panicked l) q = none_else ty q
brings_unset r _ ty (at_inserting x) q = none_else ty q
brings_unset r _ ty (at_loading x) q = none_else ty q
brings_unset r _ ty (at_assigning x e) q =
    let same : x ≡ ty = cc in subst (λ (y : ℕ). r.type_set y ≡ unset) same e
brings_unset r _ ty (at_storing_fn x i e l m n) q =
    let same : x ≡ ty = cc in subst (λ (y : ℕ). r.type_set y ≡ unset) same e
brings_unset r _ ty (at_storing_id x i e m n) q =
    let same : x ≡ ty = cc in subst (λ (y : ℕ). r.type_set y ≡ unset) same e
brings_unset r _ ty (at_registered x i e) q = none_else ty q
