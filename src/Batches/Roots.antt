-- ===== src/Batches/Roots.antt =====
-- src/guards.rs, src/collector.rs: what a scan of fresh objects marks and moves.
use mathlib.Core.List.{Memᴰ}
use mathlib.Core.List.Memᴰ
use cdpt.Base.{
  ℕ, ◌+◌, ◌<◌, ◌≤◌, ◌≡◌, ◌≢◌, refl, sym, ap, ◌∙◌, arith, inl, inr, Bool, true, false, leb, leb→le,
  List, [], ◌∷◌, ◌++◌, length, length-append, update_self, Bool-cases,
}
use cdpt.Epoch.{Phase, rt, phase_eq}
use cdpt.Batches.{Obj}
use cdpt.Batches.Scanning.{
  Scanning, help_tracing_max_trial, scan_batch, scan_queue, scan_shards, help_root_tracing,
  scan_fresh, Moves-empty, Scans, Scans-nil, Scans-append, single-Scans,
}

module _ (select_shard : ℕ → ℕ) (root_count : ℕ → ℕ) (hazards : ℕ → Bool) (enough : ℕ → Bool) where
  -- The loop over these shards has come to an end.
  pub record Runs (shards : List ℕ) (s : Scanning) (r : Bool × Scanning) : Type 0 where
    pub taken : List (List Obj)
    pub scans : Scans select_shard root_count hazards taken s r.1
    pub tried : r.1.trial_count ≡ s.trial_count + length taken
    pub stopped : r.0 ≡ true → enough r.1.trial_count ≡ true
    pub emptied : r.0 ≡ false → (x : ℕ) → Memᴰ x shards → r.1.fresh_objs x ≡ []

  true≢false : true ≢ false
  true≢false e = cc

  scan_queue-Runs :
      (shard : ℕ) (queue : List (List Obj)) (s : Scanning)
      → s.fresh_objs shard ≡ queue
      → Runs (shard ∷ []) s (scan_queue select_shard root_count hazards enough shard queue s)
  unfolding scan_queue scan_batch
  scan_queue-Runs shard [] s e = record {
    taken = [];
    tried = omega arith;
    scans = Scans-nil select_shard root_count hazards s;
    stopped = λ q. absurd (true≢false (sym q));
    emptied = λ q x m. ap s.fresh_objs (Memᴰ.eq_of_singleton m) ∙ e;
  }
  scan_queue-Runs shard (batch ∷ rest) s e =
      let tried = scan_batch select_shard root_count hazards shard batch rest s in
      let one = single-Scans select_shard root_count hazards shard batch rest s e in
      elim (Bool-cases (enough tried.trial_count)) [
        | inl q ↦ rw q (record {
          taken = batch ∷ [];
          tried = omega arith;
          scans = one;
          stopped = λ z. q;
          emptied = λ z. absurd (true≢false z);
        })
        | inr q ↦
            let more = scan_queue-Runs shard rest tried (update_self s.fresh_objs shard rest) in
            rw q (record {
              taken = batch ∷ more.taken;
              tried = omega (arith, more.tried);
              scans =
                  Scans-append select_shard root_count hazards (batch ∷ []) more.taken s tried _ one
                    more.scans;
              stopped = more.stopped;
              emptied = more.emptied;
            })
      ]

  pub scan_shards-Runs :
      (shards : List ℕ) (s : Scanning)
      → Runs shards s (scan_shards select_shard root_count hazards enough shards s)
  unfolding scan_shards
  scan_shards-Runs [] s = record {
    taken = [];
    tried = omega arith;
    scans = Scans-nil select_shard root_count hazards s;
    stopped = λ q. absurd (true≢false (sym q));
    emptied = λ q x m. elim m [ ];
  }
  scan_shards-Runs (shard ∷ shards) s =
      let r = scan_queue select_shard root_count hazards enough shard (s.fresh_objs shard) s in
      let one = scan_queue-Runs shard (s.fresh_objs shard) s refl in
      elim (Bool-cases r.0) [
        | inl q ↦ rw q (record {
          taken = one.taken;
          tried = one.tried;
          scans = one.scans;
          stopped = λ z. one.stopped q;
          emptied = λ z. absurd (true≢false z);
        })
        | inr q ↦
            let more = scan_shards-Runs shards r.1 in
            rw q (record {
              taken = one.taken ++ more.taken;
              tried = omega (arith, one.tried, more.tried, length-append one.taken more.taken);
              scans =
                  Scans-append select_shard root_count hazards one.taken more.taken s r.1 _
                    one.scans more.scans;
              stopped = more.stopped;
              emptied = λ z x m. elim (Memᴰ.cases_cons m) [
                | inl e ↦
                    Moves-empty select_shard root_count hazards _ _ _ _ more.taken x
                      more.scans.moves (one.emptied q x (Memᴰ.head e))
                | inr n ↦ more.emptied z x n
              ];
            })
      ]

  -- The thread does not go on once it has done enough.
  module _ (limit : ℕ) (few : (n : ℕ) → enough n ≡ false → n < limit) where
    abbrev Bounded : Bool × Scanning → Type 0
    Bounded r = (r.1.trial_count ≤ limit) × (r.0 ≡ false → r.1.trial_count < limit)

    scan_queue-Bounded :
        (shard : ℕ) (queue : List (List Obj)) (s : Scanning)
        → s.trial_count < limit
        → Bounded (scan_queue select_shard root_count hazards enough shard queue s)
    unfolding scan_queue scan_batch
    scan_queue-Bounded shard [] s l = (omega (arith, l), λ q. l)
    scan_queue-Bounded shard (batch ∷ rest) s l =
        let tried = scan_batch select_shard root_count hazards shard batch rest s in
        elim (Bool-cases (enough tried.trial_count)) [
          | inl q ↦ rw q (omega (arith, l), λ z. absurd (true≢false z))
          | inr q ↦ rw q (scan_queue-Bounded shard rest tried (few tried.trial_count q))
        ]

    pub scan_shards-Bounded :
        (shards : List ℕ) (s : Scanning)
        → s.trial_count < limit
        → Bounded (scan_shards select_shard root_count hazards enough shards s)
    unfolding scan_shards
    scan_shards-Bounded [] s l = (omega (arith, l), λ q. l)
    scan_shards-Bounded (shard ∷ shards) s l =
        let r = scan_queue select_shard root_count hazards enough shard (s.fresh_objs shard) s in
        let one = scan_queue-Bounded shard (s.fresh_objs shard) s l in
        elim (Bool-cases r.0) [
          | inl q ↦ rw q (one.0, λ z. absurd (true≢false z))
          | inr q ↦ rw q (scan_shards-Bounded shards r.1 (one.1 q))
        ]

leb_few : (limit n : ℕ) → leb limit n ≡ false → n < limit
leb_few limit n q = ground (arith, q)

-- A mutator that helps in the phase of root tracing counts each batch that it takes as a trial, and
-- makes at most four in all. It has marked the
-- objects of these batches that have a root or a hazard pointer, in their order, and no others, and has
-- moved each batch from a queue of fresh objects to the end of one of marked objects, as it is. If it has
-- made less than four trials, the queues of fresh objects of all its shards are empty. In other phases it
-- does nothing.
pub help_root_tracing-Scans :
    (select_shard : ℕ → ℕ) (root_count : ℕ → ℕ) (hazards : ℕ → Bool) (phase : Phase)
    (shards : List ℕ) (s : Scanning)
    → s.trial_count < help_tracing_max_trial
    → (taken : List (List Obj)) × Scans select_shard root_count hazards taken s
        (help_root_tracing select_shard root_count hazards phase shards s)
      × ((help_root_tracing select_shard root_count hazards phase shards s).trial_count
          ≡ s.trial_count + length taken)
      × ((help_root_tracing select_shard root_count hazards phase shards s).trial_count
          ≤ help_tracing_max_trial)
      × (phase_eq phase rt ≡ false
          → help_root_tracing select_shard root_count hazards phase shards s ≡ s)
      × (phase_eq phase rt ≡ true
          → (help_root_tracing select_shard root_count hazards phase shards s).trial_count
            < help_tracing_max_trial
          → (x : ℕ) → Memᴰ x shards
          → (help_root_tracing select_shard root_count hazards phase shards s).fresh_objs x ≡ [])
unfolding help_root_tracing
help_root_tracing-Scans select_shard root_count hazards phase shards s l =
    let enough = leb help_tracing_max_trial in
    let r = scan_shards select_shard root_count hazards enough shards s in
    let runs = scan_shards-Runs select_shard root_count hazards enough shards s in
    elim (Bool-cases (phase_eq phase rt)) [
      | inl p ↦ rw p (
        runs.taken,
        runs.scans,
        runs.tried,
        (scan_shards-Bounded select_shard root_count hazards enough help_tracing_max_trial
            (leb_few help_tracing_max_trial) shards s l).0,
        λ z. absurd (differ z),
        λ z few x m. elim (Bool-cases r.0) [
          | inl q ↦
              let reached = leb→le help_tracing_max_trial r.1.trial_count (runs.stopped q) in
              absurd (omega (arith, few, reached))
          | inr q ↦ runs.emptied q x m
        ],
      )
      | inr p ↦ rw p (
        [],
        Scans-nil select_shard root_count hazards s,
        omega arith,
        omega (arith, l),
        λ z. refl,
        λ z. absurd (differ (sym z)),
      )
    ]
  where
    differ : true ≢ false
    differ e = cc

-- A collector thread empties the queues of fresh objects of all shards in its range. It has marked the
-- objects of the batches that it has taken that have a root or a hazard pointer, in their order, and no
-- others, and has moved each batch to the end of a queue of marked objects, as it is.
pub scan_fresh-Scans :
    (select_shard : ℕ → ℕ) (root_count : ℕ → ℕ) (hazards : ℕ → Bool) (shards : List ℕ)
    (s : Scanning)
    → (taken : List (List Obj)) × Scans select_shard root_count hazards taken s
        (scan_fresh select_shard root_count hazards shards s)
      × ((x : ℕ)
          → Memᴰ x shards
          → (scan_fresh select_shard root_count hazards shards s).fresh_objs x ≡ [])
unfolding scan_fresh
scan_fresh-Scans select_shard root_count hazards shards s =
    let r = scan_shards select_shard root_count hazards (λ _. false) shards s in
    let runs = scan_shards-Runs select_shard root_count hazards (λ _. false) shards s in
    (
      runs.taken,
      runs.scans,
      λ x m. elim (Bool-cases r.0) [
        | inl q ↦ absurd (differ (runs.stopped q))
        | inr q ↦ runs.emptied q x m
      ],
    )
  where
    differ : false ≢ true
    differ e = cc
