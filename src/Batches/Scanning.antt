-- ===== src/Batches/Scanning.antt =====
-- src/guards.rs, src/collector.rs: `help_root_tracing` and the scan of the fresh objects by a collector
-- thread in `scan_allocated_objs`, from what the thread pops from the queues.
use mathlib.Core.List.{append-nil, append_assoc}
use cdpt.Base.{
  ℕ, ◌+◌, ◌≡◌, ◌≢◌, refl, sym, ap, ◌∙◌, inl, inr, Bool, true, false, ltb, leb, ◌||◌, if◌then◌else◌,
  List, [], ◌∷◌, ◌++◌, update, update-ne, ℕ_discrete, Bool-cases,
}
use cdpt.Epoch.{Phase, rt, phase_eq}
use cdpt.Batches.{Obj}
use cdpt.Batches.Objects.{flatten, flatten-append}

abbrev pub help_tracing_max_trial : ℕ
help_tracing_max_trial = 4

-- The queues of one color by shard, the objects that the thread has marked, and its trials.
pub record Scanning : Type 0 where
  pub fresh_objs : ℕ → List (List Obj)
  pub marked_objs : ℕ → List (List Obj)
  pub marks : List Obj
  pub trial_count : ℕ

-- The shards that are drawn at random, by the trials so far; the root counts that are loaded; and the
-- hazards that have been collected.
module _ (select_shard : ℕ → ℕ) (root_count : ℕ → ℕ) (hazards : ℕ → Bool) where
  unfoldable pub scan_objs : List Obj → List Obj → List Obj
  scan_objs [] marks = marks
  scan_objs (obj ∷ objs) marks =
      scan_objs objs
        (if ltb 0 (root_count obj.id) || hazards obj.id then marks ++ obj ∷ [] else marks)

  unfoldable pub scan_batch : ℕ → List Obj → List (List Obj) → Scanning → Scanning
  scan_batch shard batch rest s =
      let to = select_shard s.trial_count in
      record {
        fresh_objs = update s.fresh_objs shard rest;
        marked_objs = update s.marked_objs to (s.marked_objs to ++ batch ∷ []);
        marks = scan_objs batch s.marks;
        trial_count = s.trial_count + 1;
      }

  -- The rest of the queue of a shard, and whether the thread has done enough; a collector thread never
  -- has.
  module _ (enough : ℕ → Bool) where
    unfoldable pub scan_queue : ℕ → List (List Obj) → Scanning → Bool × Scanning
    scan_queue shard [] s = (false, s)
    scan_queue shard (batch ∷ rest) s =
        let tried = scan_batch shard batch rest s in
        let go_on = scan_queue shard rest tried in
        if enough tried.trial_count then (true, tried) else go_on

    unfoldable pub scan_shards : List ℕ → Scanning → Bool × Scanning
    scan_shards [] s = (false, s)
    scan_shards (shard ∷ shards) s =
        let r = scan_queue shard (s.fresh_objs shard) s in
        let go_on = scan_shards shards r.1 in if r.0 then r else go_on

  -- `help_root_tracing`, with the shards in a random order
  unfoldable pub help_root_tracing : Phase → List ℕ → Scanning → Scanning
  help_root_tracing phase shards s =
      if phase_eq phase rt then (scan_shards (leb help_tracing_max_trial) shards s).1 else s

  -- The scan by a collector thread, of its range of shards
  unfoldable pub scan_fresh : List ℕ → Scanning → Scanning
  scan_fresh shards s = (scan_shards (λ _. false) shards s).1

  -- The objects that have a root or a hazard pointer.
  unfoldable pub live : List Obj → List Obj
  live [] = []
  live (obj ∷ objs) =
      let rest = live objs in
      if ltb 0 (root_count obj.id) || hazards obj.id then obj ∷ rest else rest

  -- Batches move one by one from a queue of fresh objects to the end of a queue of marked ones.
  pub data Moves
      : (fresh marked : ℕ → List (List Obj)) (taken : List (List Obj))
          (fresh2 marked2 : ℕ → List (List Obj))
        → Type 0 where
    stays : (fresh marked : ℕ → List (List Obj)) → Moves fresh marked [] fresh marked
    moves_one :
        (fresh marked fresh2 marked2 : ℕ → List (List Obj)) (from to : ℕ) (batch : List Obj)
        (rest taken : List (List Obj))
        → fresh from ≡ batch ∷ rest
        → Moves
            (update fresh from rest)
            (update marked to (marked to ++ batch ∷ []))
            taken
            fresh2
            marked2
        → Moves fresh marked (batch ∷ taken) fresh2 marked2

  Moves-append :
      (a b c d e f : ℕ → List (List Obj)) (xs ys : List (List Obj))
      → Moves a b xs c d
      → Moves c d ys e f
      → Moves a b (xs ++ ys) e f
  Moves-append _ _ _ _ e f _ ys (stays a b) q = q
  Moves-append _ _ c d e f _ ys (moves_one a b _ _ from to batch rest taken g p) q =
      moves_one a b e f from to batch rest (taken ++ ys) g (Moves-append _ _ c d e f taken ys p q)

  -- An empty queue of fresh objects stays empty.
  pub Moves-empty :
      (a b c d : ℕ → List (List Obj)) (xs : List (List Obj)) (shard : ℕ)
      → Moves a b xs c d
      → a shard ≡ []
      → c shard ≡ []
  Moves-empty _ _ _ _ _ shard (stays a b) e = e
  Moves-empty _ _ c d _ shard (moves_one a b _ _ from to batch rest taken g p) e =
      elim (ℕ_discrete from shard) [
        | yes same ↦ absurd (filled batch rest (sym g ∙ ap a same ∙ e))
        | no differs ↦ Moves-empty _ _ c d taken shard p (update-ne a from shard rest differs ∙ e)
      ]
    where
      filled : (x : List Obj) (xs : List (List Obj)) → x ∷ xs ≢ []
      filled x xs h = cc

  scan_objs-live : (objs marks : List Obj) → scan_objs objs marks ≡ marks ++ live objs
  unfolding scan_objs live
  scan_objs-live [] marks = sym (append-nil marks)
  scan_objs-live (obj ∷ objs) marks =
      elim (Bool-cases (ltb 0 (root_count obj.id) || hazards obj.id)) [
        | inl q ↦
            rw q
              (scan_objs-live objs (marks ++ obj ∷ []) ∙ append_assoc marks (obj ∷ []) (live objs))
        | inr q ↦ rw q (scan_objs-live objs marks)
      ]

  live-append : (xs ys : List Obj) → live (xs ++ ys) ≡ live xs ++ live ys
  unfolding live
  live-append [] ys = refl
  live-append (obj ∷ xs) ys = elim (Bool-cases (ltb 0 (root_count obj.id) || hazards obj.id)) [
    | inl q ↦ rw q (ap (λ (r : List Obj). obj ∷ r) (live-append xs ys))
    | inr q ↦ rw q (live-append xs ys)
  ]

  -- The thread has scanned these batches.
  pub record Scans (taken : List (List Obj)) (s after : Scanning) : Type 0 where
    pub moves : Moves s.fresh_objs s.marked_objs taken after.fresh_objs after.marked_objs
    pub marks : after.marks ≡ s.marks ++ live (flatten taken)

  pub Scans-nil : (s : Scanning) → Scans [] s s
  unfolding flatten live
  Scans-nil s = record {
    moves = stays s.fresh_objs s.marked_objs;
    marks = sym (append-nil s.marks);
  }

  pub Scans-append :
      (xs ys : List (List Obj)) (s mid after : Scanning)
      → Scans xs s mid
      → Scans ys mid after
      → Scans (xs ++ ys) s after
  Scans-append xs ys s mid after a b = record {
    moves = Moves-append _ _ _ _ _ _ xs ys a.moves b.moves;
    marks =
        b.marks
        ∙ ap (λ (r : List Obj). r ++ live (flatten ys)) a.marks
        ∙ append_assoc s.marks (live (flatten xs)) (live (flatten ys))
        ∙ ap (λ (r : List Obj). s.marks ++ r)
            (sym (ap live (flatten-append xs ys) ∙ live-append (flatten xs) (flatten ys)));
  }

  pub single-Scans :
      (shard : ℕ) (batch : List Obj) (rest : List (List Obj)) (s : Scanning)
      → s.fresh_objs shard ≡ batch ∷ rest
      → Scans (batch ∷ []) s (scan_batch shard batch rest s)
  unfolding scan_batch flatten
  single-Scans shard batch rest s e = record {
    moves = moves_one _ _ _ _ shard (select_shard s.trial_count) batch rest [] e (stays _ _);
    marks =
        scan_objs-live batch s.marks
        ∙ ap (λ (r : List Obj). s.marks ++ live r) (sym (append-nil batch));
  }
