-- ===== src/Batches/Helping.antt =====
-- src/guards.rs: `help_normal_inner`, the sweeping that a mutator does in a normal phase.
use mathlib.Core.Option
use mathlib.Core.Path.{subst}
use mathlib.Core.List.{append-nil, append_assoc}
use cdpt.Base.{
  ℕ, suc, ◌+◌, ◌%◌, ◌^◌, wrapping_add, ◌<◌, ◌≤◌, ◌≡◌, ◌≢◌, refl, sym, ap, ◌∙◌, arith, inl, inr,
  Bool, true, false, leb, if◌then◌else◌, Option, some, List, [], ◌∷◌, ◌++◌, update, update_self,
  Bool-cases,
}
use cdpt.Epoch.{Color, color_eq}
use cdpt.Batches.{Obj, Batches, push_fresh_obj}
use cdpt.Batches.Objects.{
  survivors, garbage, total_size, survivors-append, garbage-append, total_size-append,
}
use cdpt.Batches.Local.{push_fresh_obj-Adds}
use cdpt.Batches.Flushing.{objects, allocated_bytes, IsValid}

abbrev pub help_normal_max_trial : ℕ
help_normal_max_trial = 2

-- The batches of the thread, the queues of marked objects by shard, the objects that it has
-- reclaimed, with their bytes in the batch at hand and the bytes that all threads have reclaimed
-- together, and its trials.
pub record Helping : Type 0 where
  pub batches : Batches
  pub marked_objs : ℕ → List (List Obj)
  pub reclaimed : List Obj
  pub reclaimed_bytes : ℕ
  pub total_reclaimed : ℕ
  pub trial_count : ℕ

module _ (select_shard : ℕ → ℕ) (prev_white alloc_color : Color) where
  -- Two rounds of `push_fresh_obj` are enough.
  unfoldable pub help_obj : Obj → Helping → Option Helping
  help_obj obj h =
      if color_eq prev_white obj.color
      then some (record h {
        reclaimed = h.reclaimed ++ obj ∷ [];
        reclaimed_bytes = h.reclaimed_bytes + obj.size;
      })
      else Option.map (λ (w : Batches). record h { batches = w })
          (push_fresh_obj select_shard 2 alloc_color obj false h.batches)

  unfoldable pub help_batch : List Obj → Helping → Option Helping
  help_batch [] h = some h
  help_batch (obj ∷ objs) h = Option.bind (help_obj obj h) (help_batch objs)

  -- Before and after the objects of a batch.
  unfoldable pub begin_help : ℕ → List (List Obj) → Helping → Helping
  begin_help shard rest h = record h {
    marked_objs = update h.marked_objs shard rest;
    reclaimed_bytes = 0;
  }

  unfoldable pub end_help : Helping → Helping
  end_help h = record h {
    total_reclaimed = wrapping_add h.total_reclaimed h.reclaimed_bytes;
    trial_count = h.trial_count + 1;
  }

  -- The rest of the queue of a shard, and whether the thread has done enough.
  unfoldable pub help_queue : ℕ → List (List Obj) → Helping → Option (Bool × Helping)
  help_queue shard [] h = some (false, h)
  help_queue shard (batch ∷ rest) h =
      Option.bind (help_batch batch (begin_help shard rest h)) (λ (after : Helping).
        let tried = end_help after in
        let go_on = help_queue shard rest tried in
        if leb help_normal_max_trial tried.trial_count then some (true, tried) else go_on)

  -- The shards in a random order.
  unfoldable pub help_shards : List ℕ → Helping → Option Helping
  help_shards [] h = some h
  help_shards (shard ∷ shards) h =
      Option.bind (help_queue shard (h.marked_objs shard) h)
        (λ (r : Bool × Helping). if r.0 then some r.1 else help_shards shards r.1)

  -- That many batches are popped one by one, with the objects that come out.
  pub data Pops : (ℕ → List (List Obj)) → ℕ → List Obj → (ℕ → List (List Obj)) → Type 0 where
    pops_none : (queues : ℕ → List (List Obj)) → Pops queues 0 [] queues
    pops_one :
        (queues after : ℕ → List (List Obj)) (shard : ℕ) (batch : List Obj) (rest : List (List Obj))
        (n : ℕ) (taken : List Obj)
        → queues shard ≡ batch ∷ rest
        → Pops (update queues shard rest) n taken after
        → Pops queues (suc n) (batch ++ taken) after

  -- The thread has gone on by some objects.
  pub record Helps (taken : List Obj) (h after : Helping) : Type 0 where
    pub kept :
        objects alloc_color after.batches
        ≡ objects alloc_color h.batches ++ survivors prev_white taken
    pub dead : after.reclaimed ≡ h.reclaimed ++ garbage prev_white taken
    pub bytes : allocated_bytes after.batches ≡ allocated_bytes h.batches
    pub valid : IsValid after.batches

  -- So many batches more have been counted, and the bytes of what was reclaimed from them.
  pub record Counts (n : ℕ) (taken : List Obj) (h after : Helping) : Type 0 where
    pub trials : after.trial_count ≡ h.trial_count + n
    pub total :
        after.total_reclaimed % 2 ^ 64
        ≡ (h.total_reclaimed + total_size (garbage prev_white taken)) % 2 ^ 64

  garbage_size :
      (xs ys : List Obj)
      → total_size (garbage prev_white (xs ++ ys))
        ≡ total_size (garbage prev_white xs) + total_size (garbage prev_white ys)
  garbage_size xs ys =
      ap total_size (garbage-append prev_white xs ys)
      ∙ total_size-append (garbage prev_white xs) (garbage prev_white ys)

  Counts-append :
      (m n : ℕ) (xs ys : List Obj) (h mid after : Helping)
      → Counts m xs h mid
      → Counts n ys mid after
      → Counts (m + n) (xs ++ ys) h after
  Counts-append m n xs ys h mid after a b = record {
    trials = omega (arith, a.trials, b.trials);
    total = omega (arith, a.total, b.total, garbage_size xs ys);
  }

  Counts-nil : (h : Helping) → Counts 0 [] h h
  unfolding garbage total_size
  Counts-nil h = record { trials = omega arith; total = omega arith }

  Helps-append :
      (xs ys : List Obj) (h mid after : Helping)
      → Helps xs h mid
      → Helps ys mid after
      → Helps (xs ++ ys) h after
  Helps-append xs ys h mid after a b = record {
    kept =
        b.kept
        ∙ ap (λ (r : List Obj). r ++ survivors prev_white ys) a.kept
        ∙ append_assoc (objects alloc_color h.batches) (survivors prev_white xs)
            (survivors prev_white ys)
        ∙ ap (λ (r : List Obj). objects alloc_color h.batches ++ r)
            (sym (survivors-append prev_white xs ys));
    dead =
        b.dead
        ∙ ap (λ (r : List Obj). r ++ garbage prev_white ys) a.dead
        ∙ append_assoc h.reclaimed (garbage prev_white xs) (garbage prev_white ys)
        ∙ ap (λ (r : List Obj). h.reclaimed ++ r) (sym (garbage-append prev_white xs ys));
    bytes = b.bytes ∙ a.bytes;
    valid = b.valid;
  }

  Helps-nil : (h : Helping) → IsValid h.batches → Helps [] h h
  unfolding survivors garbage
  Helps-nil h v = record {
    kept = sym (append-nil (objects alloc_color h.batches));
    dead = sym (append-nil h.reclaimed);
    bytes = refl;
    valid = v;
  }

  -- The queues and the counters that threads share are not touched.
  abbrev Does : List Obj → Helping → Option Helping → Type 0
  Does objs h r =
      (after : Helping) × (r ≡ some after)
      × Helps objs h after
      × (after.marked_objs ≡ h.marked_objs)
      × (after.trial_count ≡ h.trial_count)
      × (after.total_reclaimed ≡ h.total_reclaimed)
      × (after.reclaimed_bytes ≡ h.reclaimed_bytes + total_size (garbage prev_white objs))

  help_obj-Does : (obj : Obj) (h : Helping) → IsValid h.batches → Does (obj ∷ []) h (help_obj obj h)
  unfolding help_obj survivors garbage total_size
  help_obj-Does obj h v = elim (Bool-cases (color_eq prev_white obj.color)) [
    | inl q ↦ rw q (
      record h {
        reclaimed = h.reclaimed ++ obj ∷ [];
        reclaimed_bytes = h.reclaimed_bytes + obj.size;
      },
      refl,
      record {
        kept = rw q (sym (append-nil (objects alloc_color h.batches)));
        dead = rw q refl;
        bytes = refl;
        valid = v;
      },
      refl,
      refl,
      refl,
      omega arith,
    )
    | inr q ↦
        let (w, e, a) = push_fresh_obj-Adds select_shard alloc_color obj false h.batches v in
        rw (q, e)
          (
            record h { batches = w },
            refl,
            record {
              kept = rw q a.same_color;
              dead = rw q (sym (append-nil h.reclaimed));
              bytes = omega (arith, a.bytes);
              valid = a.valid;
            },
            refl,
            refl,
            refl,
            omega arith,
          )
  ]

  help_batch-Does :
      (objs : List Obj) (h : Helping) → IsValid h.batches → Does objs h (help_batch objs h)
  unfolding help_batch Option.bind garbage total_size
  help_batch-Does [] h v = (h, refl, Helps-nil h v, refl, refl, refl, omega arith)
  help_batch-Does (obj ∷ objs) h v =
      let (mid, e, a, m, t, w, x) = help_obj-Does obj h v in
      let (after, f, b, n, u, y, z) = help_batch-Does objs mid a.valid in
      rw e (
        after,
        f,
        Helps-append (obj ∷ []) objs h mid after a b,
        n ∙ m,
        u ∙ t,
        y ∙ w,
        omega (arith, x, z, garbage_size (obj ∷ []) objs),
      )

  -- One batch is popped and counted.
  abbrev BatchDoes : List Obj → ℕ → List (List Obj) → Helping → Option Helping → Type 0
  BatchDoes batch shard rest h r =
      (mid : Helping) × (r ≡ some mid)
      × Helps batch h (end_help mid)
      × Counts 1 batch h (end_help mid)
      × (mid.marked_objs ≡ update h.marked_objs shard rest)

  popped_batch-Does :
      (shard : ℕ) (batch : List Obj) (rest : List (List Obj)) (h : Helping)
      → IsValid h.batches
      → BatchDoes batch shard rest h (help_batch batch (begin_help shard rest h))
  unfolding begin_help end_help
  popped_batch-Does shard batch rest h v =
      let (mid, e, a, m, t, w, x) = help_batch-Does batch (begin_help shard rest h) v in
      (
        mid,
        e,
        record { kept = a.kept; dead = a.dead; bytes = a.bytes; valid = a.valid },
        record { trials = omega (arith, t); total = omega (arith, w, x) },
        m,
      )

  -- Some batches are popped and swept, and the thread stops when it has tried often enough.
  abbrev QueueDoes : Helping → Option (Bool × Helping) → Type 0
  QueueDoes h r =
      (stop : Bool) × (after : Helping) × (n : ℕ) × (taken : List Obj) × (r ≡ some (stop, after))
      × Helps taken h after
      × Counts n taken h after
      × Pops h.marked_objs n taken after.marked_objs
      × (after.trial_count ≤ help_normal_max_trial)
      × (stop ≡ false → after.trial_count < help_normal_max_trial)

  help_queue-Does :
      (shard : ℕ) (queue : List (List Obj)) (h : Helping)
      → IsValid h.batches
      → h.marked_objs shard ≡ queue
      → h.trial_count < help_normal_max_trial
      → QueueDoes h (help_queue shard queue h)
  unfolding help_queue Option.bind end_help
  help_queue-Does shard [] h v at few = (
    false,
    h,
    0,
    [],
    refl,
    Helps-nil h v,
    Counts-nil h,
    pops_none h.marked_objs,
    omega arith,
    λ q. few,
  )
  help_queue-Does shard (batch ∷ rest) h v at few =
      let (mid, e, a, counted, m) = popped_batch-Does shard batch rest h v in
      let tried : Helping = end_help mid in
      elim (Bool-cases (leb help_normal_max_trial tried.trial_count)) [
        | inl q ↦
            rw (e, q)
              (
                true,
                tried,
                1,
                batch ++ [],
                refl,
                Helps-append batch [] h tried tried a (Helps-nil tried a.valid),
                Counts-append 1 0 batch [] h tried tried counted (Counts-nil tried),
                pops_one h.marked_objs tried.marked_objs shard batch rest 0 [] at (
                    subst (Pops (update h.marked_objs shard rest) 0 []) (sym m)
                      (pops_none (update h.marked_objs shard rest))),
                omega (arith, counted.trials),
                λ f. absurd (true≢false f),
              )
        | inr q ↦
            let left : tried.marked_objs shard ≡ rest =
              ap (λ (f : ℕ → List (List Obj)). f shard) m ∙ update_self h.marked_objs shard rest in
            let (stop, after, n, taken, f, b, more, pops, bound, fewer) =
              help_queue-Does shard rest tried a.valid left (below tried.trial_count q) in
            rw (e, q)
              (
                stop,
                after,
                suc n,
                batch ++ taken,
                f,
                Helps-append batch taken h tried after a b,
                subst (λ (k : ℕ). Counts k (batch ++ taken) h after) (omega arith)
                    (Counts-append 1 n batch taken h tried after counted more),
                pops_one h.marked_objs after.marked_objs shard batch rest n taken at
                    (subst (λ (x : ℕ → List (List Obj)). Pops x n taken after.marked_objs) m pops),
                bound,
                fewer,
              )
      ]
    where
      true≢false : true ≢ false
      true≢false e = cc

      below : (n : ℕ) → leb 2 n ≡ false → n < 2
      below n q = ground (arith, q)

  Pops-append :
      (a b c : ℕ → List (List Obj)) (m n : ℕ) (xs ys : List Obj)
      → Pops a m xs b
      → Pops b n ys c
      → Pops a (m + n) (xs ++ ys) c
  Pops-append _ _ c _ n _ ys (pops_none queues) q =
      subst (λ (k : ℕ). Pops queues k ys c) (omega arith) q
  Pops-append _ _ c _ n _ ys (pops_one queues after shard batch rest m taken e p) q =
      let more = Pops-append (update queues shard rest) after c m n taken ys p q in
      let all : Pops queues (suc (m + n)) (batch ++ (taken ++ ys)) c =
        pops_one queues c shard batch rest (m + n) (taken ++ ys) e more in
      let count : suc (m + n) ≡ suc m + n = omega arith in
      subst (λ (x : List Obj). Pops queues (suc m + n) x c) (sym (append_assoc batch taken ys))
        (subst (λ (k : ℕ). Pops queues k (batch ++ (taken ++ ys)) c) count all)

  -- Helping returns. It pops batches from the queues of marked objects and counts each of them as a
  -- trial, at most two in all. It puts their objects in another color than the white one behind those
  -- of the allocation color, in their order, and reclaims the white ones, and no other. The bytes of
  -- the objects that it has reclaimed are added to the total, modulo 2 ^ 64, and the bytes that are
  -- counted as allocated stay the same.
  pub help_shards-Helps :
      (shards : List ℕ) (h : Helping)
      → IsValid h.batches
      → h.trial_count < help_normal_max_trial
      → (after : Helping) × (n : ℕ) × (taken : List Obj) × (help_shards shards h ≡ some after)
        × Helps taken h after
        × Counts n taken h after
        × Pops h.marked_objs n taken after.marked_objs
        × (after.trial_count ≤ help_normal_max_trial)
  unfolding help_shards Option.bind
  help_shards-Helps [] h v few =
      (h, 0, [], refl, Helps-nil h v, Counts-nil h, pops_none h.marked_objs, omega arith)
  help_shards-Helps (shard ∷ shards) h v few =
      let (stop, mid, m, taken, e, a, c, pops, bound, fewer) =
        help_queue-Does shard (h.marked_objs shard) h v refl few in
      elim (Bool-cases stop) [
        | inl q ↦ rw (e, q) (mid, m, taken, refl, a, c, pops, bound)
        | inr q ↦
            let (after, n, more, f, b, d, pops2, bound2) =
              help_shards-Helps shards mid a.valid (fewer q) in
            rw (e, q)
              (
                after,
                m + n,
                taken ++ more,
                f,
                Helps-append taken more h mid after a b,
                Counts-append m n taken more h mid after c d,
                Pops-append h.marked_objs mid.marked_objs after.marked_objs m n taken more pops
                    pops2,
                bound2,
              )
      ]
