-- ===== src/Registry/Writes.antt =====
-- src/pointers.rs: the accesses of the thread that brings in a type.
use mathlib.Core.Path.{subst}
use cdpt.Base.{
  ℕ, ◌+◌, ◌<◌, ◌≡◌, ◌≢◌, sym, ap, ◌∙◌, arith, inl, inr, true, false, ltb, some, update, update_self,
  update-ne, ℕ_discrete, Bool-cases,
}
use cdpt.Registry.{
  max_type_id, unset, set, Thread, assigning, storing_fn, storing_id, registered, advance, write,
  System,
}
use cdpt.Registry.Invariant.{
  brings, takes, Knows, at_panicked, at_assigning, at_storing_fn, at_storing_id, at_registered, Inv,
  Frame, Moves, none≢some, takes_old,
}

pub same-Frame : (s : System) (t : ℕ) → Frame s t s.registry
same-Frame s t = record {
  unset_stays = λ ty e n. e;
  set_stays = λ ty id e. e;
  none_stays = λ id e n. e;
  some_stays = λ id ty e. e;
  grows = omega arith;
}

module _ (s : System) (t : ℕ) (v : Inv s) where
  -- The registry stays, and the thread has nothing alone.
  pub plain :
      (th : Thread)
      → Knows s.registry th
      → ((x : ℕ) → brings th ≢ some x)
      → ((x : ℕ) → takes th ≢ some x)
      → Moves s t th s.registry
  plain th k b n = record {
    frame = same-Frame s t;
    knows = k;
    brings_alone = λ ty e. absurd (b ty e);
    takes_alone = λ id e. absurd (n id e);
    entries = v.entries;
    fresh = v.fresh;
  }

  -- No other thread brings in a type that thread `t` brings in.
  pub still_alone :
      (ty x : ℕ)
      → brings (s.threads t) ≡ some ty
      → some ty ≡ some x
      → (u : ℕ) → t ≢ u
      → brings (s.threads u) ≢ some x
  still_alone ty x e q u f p = f (v.one_brings t u x (e ∙ q) p)

  pub storing_fn-Moves :
      (ty id : ℕ)
      → s.threads t ≡ storing_fn ty id
      → Knows s.registry (storing_fn ty id)
      → Moves s t
          (storing_id ty id)
          (record s.registry { shade_fn_table = update s.registry.shade_fn_table id (some ty) })
  unfolding brings takes
  storing_fn-Moves ty id at (at_storing_fn _ _ e l m n) = record {
    frame = record {
      unset_stays = λ x q o. q;
      set_stays = λ x i q. q;
      none_stays = λ i q o. elim (ℕ_discrete id i) [
        | yes same ↦ absurd (o (ap takes at ∙ ap some same))
        | no differs ↦ update-ne s.registry.shade_fn_table id i (some ty) differs ∙ q
      ];
      some_stays = kept;
      grows = omega arith;
    };
    knows = at_storing_id ty id e m (update_self s.registry.shade_fn_table id (some ty));
    brings_alone = λ x q u f. still_alone ty x (ap brings at) q u f;
    takes_alone = λ i q. absurd (none≢some i q);
    entries = λ x i q. ((v.entries x i q).0, kept i x (v.entries x i q).1);
    fresh = λ i q.
        update-ne s.registry.shade_fn_table id i (some ty) (λ f. omega (arith, f, l, q))
        ∙ v.fresh i q;
  }
    where
      kept :
          (i x : ℕ)
          → s.registry.shade_fn_table i ≡ some x
          → update s.registry.shade_fn_table id (some ty) i ≡ some x
      kept i x q = elim (ℕ_discrete id i) [
        | yes same ↦ absurd (none≢some x (sym n ∙ ap s.registry.shade_fn_table same ∙ q))
        | no differs ↦ update-ne s.registry.shade_fn_table id i (some ty) differs ∙ q
      ]

  pub storing_id-Moves :
      (ty id : ℕ)
      → s.threads t ≡ storing_id ty id
      → Knows s.registry (storing_id ty id)
      → Moves s t
          (registered ty id)
          (record s.registry { type_set = update s.registry.type_set ty (set id) })
  unfolding brings takes
  storing_id-Moves ty id at (at_storing_id _ _ e m n) = record {
    frame = record {
      unset_stays = λ x q o. elim (ℕ_discrete ty x) [
        | yes same ↦ absurd (o (ap brings at ∙ ap some same))
        | no differs ↦ update-ne s.registry.type_set ty x (set id) differs ∙ q
      ];
      set_stays = λ x i q. elim (ℕ_discrete ty x) [
        | yes same ↦ absurd (unset≢set i (sym e ∙ ap s.registry.type_set same ∙ q))
        | no differs ↦ update-ne s.registry.type_set ty x (set id) differs ∙ q
      ];
      none_stays = λ i q o. q;
      some_stays = λ i x q. q;
      grows = omega arith;
    };
    knows = at_registered ty id (update_self s.registry.type_set ty (set id));
    brings_alone = λ x q. absurd (none≢some x q);
    takes_alone = λ i q. absurd (none≢some i q);
    entries = λ x i q. elim (ℕ_discrete ty x) [
      | yes same ↦
          let found : set id ≡ set i =
            sym (update_self s.registry.type_set ty (set id))
            ∙ ap (update s.registry.type_set ty (set id)) same
            ∙ q in
          let ids : id ≡ i = cc in
          subst (λ (y : ℕ). (y < max_type_id) × (s.registry.shade_fn_table y ≡ some x)) ids
            (m, n ∙ ap some same)
      | no differs ↦ v.entries x i (sym (update-ne s.registry.type_set ty x (set id) differs) ∙ q)
    ];
    fresh = v.fresh;
  }
    where
      unset≢set : (i : ℕ) → unset ≢ set i
      unset≢set i q = cc

  pub assigning-Moves :
      (ty : ℕ)
      → s.threads t ≡ assigning ty
      → Knows s.registry (assigning ty)
      → Moves s t (advance s.registry (assigning ty)) (write s.registry (assigning ty))
  unfolding brings takes advance write
  assigning-Moves ty at (at_assigning _ e) =
      let next = s.registry.next_type_id in
      let frame : Frame s t (record s.registry { next_type_id = next + 1 }) = record {
        unset_stays = λ x q o. q;
        set_stays = λ x i q. q;
        none_stays = λ i q o. q;
        some_stays = λ i x q. q;
        grows = omega arith;
      } in
      elim (Bool-cases (ltb next max_type_id)) [
        | inl q ↦ rw q (record {
          frame = frame;
          knows = at_storing_fn ty next e (omega arith) (below next q) (v.fresh next (omega arith));
          brings_alone = λ x f u g. still_alone ty x (ap brings at) f u g;
          takes_alone = λ i f u g h.
              let same : next ≡ i = cc in
              let old = takes_old s.registry (s.threads u) i (v.knows u) h in
              omega (arith, same, old);
          entries = v.entries;
          fresh = λ i l. v.fresh i (omega (arith, l));
        })
        | inr q ↦ rw q (record {
          frame = frame;
          knows = at_panicked (full next q);
          brings_alone = λ x f. absurd (none≢some x f);
          takes_alone = λ i f. absurd (none≢some i f);
          entries = v.entries;
          fresh = λ i l. v.fresh i (omega (arith, l));
        })
      ]
    where
      below : (n : ℕ) → ltb n 256 ≡ true → n < 256
      below n q = ground (arith, q)

      full : (n : ℕ) → ltb n 256 ≡ false → 256 < n + 1
      full n q = ground (arith, q)
