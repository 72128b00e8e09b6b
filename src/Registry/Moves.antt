-- ===== src/Registry/Moves.antt =====
-- src/pointers.rs: every access of `register_type` keeps the invariant.
use cdpt.Base.{ℕ, ◌≡◌, ◌≢◌, refl, sym, ap, ◌∙◌, arith, update, update_self, update-ne, ℕ_discrete}
use cdpt.Registry.{
  Entry, absent, unset, set, Thread, idle, panicked, loading, registered, see_entry, insert_entry,
  see_id, advance, write, System,
}
use cdpt.Registry.Invariant.{
  brings, takes, Knows, at_idle, at_panicked, at_inserting, at_loading, at_assigning, at_storing_fn,
  at_storing_id, at_registered, Inv, Moves, none≢some, brings_unset,
}
use cdpt.Registry.Writes.{plain, storing_fn-Moves, storing_id-Moves, assigning-Moves}

module _ (s : System) (t : ℕ) (v : Inv s) where
  pub insert_entry-Moves :
      (ty : ℕ) (entry : Entry)
      → s.registry.type_set ty ≡ entry
      → Moves s t (see_entry entry ty) (insert_entry entry ty s.registry)
  unfolding brings takes see_entry insert_entry
  insert_entry-Moves ty unset e = plain s t v (loading ty) (at_loading ty) none≢some none≢some
  insert_entry-Moves ty (set id) e = plain s t v (loading ty) (at_loading ty) none≢some none≢some
  insert_entry-Moves ty absent e = record {
    frame = record {
      unset_stays = λ x q o. elim (ℕ_discrete ty x) [
        | yes same ↦
            sym (ap (update s.registry.type_set ty unset) same)
            ∙ update_self s.registry.type_set ty unset
        | no differs ↦ update-ne s.registry.type_set ty x unset differs ∙ q
      ];
      set_stays = λ x i q. elim (ℕ_discrete ty x) [
        | yes same ↦ absurd (absent≢set i (sym e ∙ ap s.registry.type_set same ∙ q))
        | no differs ↦ update-ne s.registry.type_set ty x unset differs ∙ q
      ];
      none_stays = λ i q o. q;
      some_stays = λ i x q. q;
      grows = omega arith;
    };
    knows = at_assigning ty (update_self s.registry.type_set ty unset);
    brings_alone = λ x f u g h.
        let same : ty ≡ x = cc in
        absent≢unset (
          sym e
          ∙ ap s.registry.type_set same
          ∙ brings_unset s.registry (s.threads u) x (v.knows u) h);
    takes_alone = λ i f. absurd (none≢some i f);
    entries = λ x i q. elim (ℕ_discrete ty x) [
      | yes same ↦ absurd (
          unset≢set i (
            sym (update_self s.registry.type_set ty unset)
            ∙ ap (update s.registry.type_set ty unset) same
            ∙ q))
      | no differs ↦ v.entries x i (sym (update-ne s.registry.type_set ty x unset differs) ∙ q)
    ];
    fresh = v.fresh;
  }
    where
      absent≢set : (i : ℕ) → absent ≢ set i
      absent≢set i q = cc

      unset≢set : (i : ℕ) → unset ≢ set i
      unset≢set i q = cc

      absent≢unset : absent ≢ unset
      absent≢unset q = cc

  pub see_id-Moves :
      (ty : ℕ) (entry : Entry)
      → s.registry.type_set ty ≡ entry
      → Moves s t (see_id entry ty) s.registry
  unfolding brings takes see_id
  see_id-Moves ty absent e = plain s t v (loading ty) (at_loading ty) none≢some none≢some
  see_id-Moves ty unset e = plain s t v (loading ty) (at_loading ty) none≢some none≢some
  see_id-Moves ty (set id) e =
      plain s t v (registered ty id) (at_registered ty id e) none≢some none≢some

  pub move-Moves :
      (th : Thread)
      → s.threads t ≡ th
      → Knows s.registry th
      → Moves s t (advance s.registry th) (write s.registry th)
  unfolding advance write brings takes
  move-Moves _ at at_idle = plain s t v idle at_idle none≢some none≢some
  move-Moves _ at (at_panicked l) = plain s t v panicked (at_panicked l) none≢some none≢some
  move-Moves _ at (at_inserting ty) = insert_entry-Moves ty (s.registry.type_set ty) refl
  move-Moves _ at (at_loading ty) = see_id-Moves ty (s.registry.type_set ty) refl
  move-Moves _ at (at_assigning ty e) = assigning-Moves s t v ty at (at_assigning ty e)
  move-Moves _ at (at_storing_fn ty id e l m n) =
      storing_fn-Moves s t v ty id at (at_storing_fn ty id e l m n)
  move-Moves _ at (at_storing_id ty id e m n) =
      storing_id-Moves s t v ty id at (at_storing_id ty id e m n)
  move-Moves _ at (at_registered ty id e) = plain s t v idle at_idle none≢some none≢some
