-- ===== src/Heap/Headers.antt =====
-- src/pointers.rs, src/collector.rs: changes of root counts, colors and mark tasks.
use mathlib.Core.Path.{subst}
use mathlib.Core.List.{Memᴰ}
use cdpt.Base.{
  ℕ, ◌<◌, ◌≡◌, refl, sym, ap, ◌∙◌, arith, ◌⊎◌, inl, inr, true, List, [], ◌∷◌, update, update_self,
  update-ne, ℕ_discrete, ◌==◌, ◌||◌, if◌then◌else◌, Bool, Bool-cases,
}
use cdpt.Epoch.{Color, c0, c1, color_eq}
use cdpt.Heap.{Link, Thread, Heap, shade_pointee, is_marked}
use cdpt.Heap.Events.{System}
use cdpt.Heap.Protected.{
  Holds, Safe, is_black, has_task, Protected, is_safe, with_root, with_hazard, Keeps,
}
use cdpt.Heap.Known.{LinksDone, Knows, Inv, LinkSteps, Knows-kept}
use cdpt.Heap.Changes.{Change, Safe-Change, now-Holds}

pub color_eq→eq : (a b : Color) → color_eq a b ≡ true → a ≡ b
color_eq→eq c0 c0 h = refl
color_eq→eq c0 c1 h = cc
color_eq→eq c1 c0 h = cc
color_eq→eq c1 c1 h = refl

module _ (black : Color) (outgoing : ℕ → List ℕ) (s : System) (t : ℕ) (th : Thread) where
  -- The links stay.
  pub header-Change :
      (after : Heap)
      → ((l : ℕ) → after.links l ≡ s.heap.links l)
      → Inv black outgoing s
      → ((o : ℕ) → Safe black s.heap s.threads o → Safe black after (update s.threads t th) o)
      → ((o : ℕ)
          → s.heap.unscanned o ≡ true
          → 0 < s.heap.root_count o
          → Protected black outgoing after (update s.threads t th) o)
      → ((o : ℕ)
          → s.heap.unscanned o ≡ true
          → s.heap.hazard o ≡ true
          → Protected black outgoing after (update s.threads t th) o)
      → ((p : ℕ)
          → after.color p ≡ black
          → (s.heap.color p ≡ black) ⊎ LinksDone black outgoing after p [])
      → after.color 0 ≡ black
      → (Keeps black outgoing s.heap s.threads after (update s.threads t th)
          → LinkSteps black outgoing s.heap after
          → Knows black outgoing after (update s.threads t th) th)
      → Change black outgoing s t th after
  header-Change after same v safe roots hazards blacks null knows =
      let keeps : Keeps black outgoing s.heap s.threads after (update s.threads t th) = record {
        safe = safe;
        roots = roots;
        hazards = hazards;
        white_links =
            λ l w. inl (ap (λ (x : Link). x.obj) (same l), ap (λ (x : Link). x.meta) (same l));
      } in
      let links : LinkSteps black outgoing s.heap after = record {
        not_white = λ l w e. w (sym (ap (λ (x : Link). x.meta) (same l)) ∙ e);
        not_rooted = λ l w e. w (sym (ap (λ (x : Link). x.meta) (same l)) ∙ e);
      } in
      record {
        keeps = keeps;
        links = links;
        targets = λ l w. inl (same l);
        blacks = blacks;
        knows = knows keeps links;
        null = null;
      }

  abbrev pub counted : ℕ → ℕ → Heap
  counted o n = record s.heap { root_count = update s.heap.root_count o n }

  -- The root count of an object becomes `n`.
  pub count-Change :
      (o n : ℕ)
      → Inv black outgoing s
      → ((x : ℕ) → Holds (s.threads t) x → Safe black (counted o n) (update s.threads t th) x)
      → (0 < s.heap.root_count o → (0 < n) ⊎ Holds th o)
      → Knows black outgoing s.heap s.threads th
      → Change black outgoing s t th (counted o n)
  count-Change o n v own enough k =
      header-Change (counted o n) (λ l. refl) v
        (Safe-Change black outgoing s t th (counted o n) (λ x e. e) (λ x m. has_task m) own) roots
        (λ x u c. with_hazard x u c) (λ p e. inl e) v.null
        (λ keeps links.
          Knows-kept black outgoing s.heap (counted o n) s.threads (update s.threads t th) keeps
            links th k)
    where
      roots :
          (x : ℕ)
          → s.heap.unscanned x ≡ true
          → 0 < s.heap.root_count x
          → Protected black outgoing (counted o n) (update s.threads t th) x
      roots x u c = elim (ℕ_discrete o x) [
        | yes same ↦ elim (enough (subst (λ (y : ℕ). 0 < s.heap.root_count y) (sym same) c)) [
          | inl more ↦ with_root x u (
              subst (λ (y : ℕ). 0 < y)
                (sym (update_self s.heap.root_count o n) ∙ ap (update s.heap.root_count o n) same)
                more)
          | inr held ↦ is_safe x (
              subst (Safe black (counted o n) (update s.threads t th)) same
                (now-Holds black outgoing s t th (counted o n) o held))
        ]
        | no differs ↦
            with_root x u
              (subst (λ (y : ℕ). 0 < y) (sym (update-ne s.heap.root_count o x n differs)) c)
      ]

  -- `shade_pointee` makes its object safe.
  pub shade_pointee-Safe :
      (o : ℕ)
      → Inv black outgoing s
      → Safe black (shade_pointee black o s.heap) (update s.threads t th) o
  unfolding shade_pointee
  shade_pointee-Safe o v = elim (Bool-cases ((o == 0) || is_marked black s.heap o)) [
    | inl skip ↦ rw skip (
        is_black (elim (Bool-cases (o == 0)) [
          | inl null ↦ null_black null
          | inr other ↦ color_eq→eq (s.heap.color o) black (rw other at skip)
        ]))
    | inr new ↦ rw new (has_task (Memᴰ.head refl))
  ]
    where
      null_black : (o == 0) ≡ true → s.heap.color o ≡ black
      null_black h = let zero_obj : o ≡ 0 = ground (arith, h) in ap s.heap.color zero_obj ∙ v.null

  shade_cases :
      (o : ℕ) (P : Heap → Type 0)
      → P s.heap
      → P (record s.heap { tasks = o ∷ s.heap.tasks })
      → P (shade_pointee black o s.heap)
  unfolding shade_pointee
  shade_cases o P skip push = elim (Bool-cases ((o == 0) || is_marked black s.heap o)) [
    | inl e ↦
        subst (λ (b : Bool). P (if b then s.heap else record s.heap { tasks = o ∷ s.heap.tasks }))
          (sym e) skip
    | inr e ↦
        subst (λ (b : Bool). P (if b then s.heap else record s.heap { tasks = o ∷ s.heap.tasks }))
          (sym e) push
  ]

  -- A mark task more.
  pub shade-Change :
      (o : ℕ)
      → Inv black outgoing s
      → ((x : ℕ)
          → Holds (s.threads t) x
          → Safe black (shade_pointee black o s.heap) (update s.threads t th) x)
      → (Keeps black outgoing s.heap s.threads
            (shade_pointee black o s.heap)
            (update s.threads t th)
          → LinkSteps black outgoing s.heap (shade_pointee black o s.heap)
          → Knows black outgoing (shade_pointee black o s.heap) (update s.threads t th) th)
      → Change black outgoing s t th (shade_pointee black o s.heap)
  shade-Change o v own knows =
      header-Change (shade_pointee black o s.heap)
        (shade_cases o (λ (h : Heap). (l : ℕ) → h.links l ≡ s.heap.links l) (λ l. refl) (λ l. refl))
        v
        (Safe-Change black outgoing s t th (shade_pointee black o s.heap)
          (λ x.
            shade_cases o (λ (h : Heap). s.heap.color x ≡ black → h.color x ≡ black) (λ e. e)
              (λ e. e))
          (λ x m. has_task (shade_cases o (λ (h : Heap). Memᴰ x h.tasks) m (Memᴰ.tail m))) own)
        (λ x u c.
          with_root x (shade_cases o (λ (h : Heap). h.unscanned x ≡ true) u u)
            (shade_cases o (λ (h : Heap). 0 < h.root_count x) c c))
        (λ x u c.
          with_hazard x (shade_cases o (λ (h : Heap). h.unscanned x ≡ true) u u)
            (shade_cases o (λ (h : Heap). h.hazard x ≡ true) c c))
        (λ p.
          shade_cases o
            (λ (h : Heap).
              h.color p ≡ black → (s.heap.color p ≡ black) ⊎ LinksDone black outgoing h p [])
            inl inl)
        (shade_cases o (λ (h : Heap). h.color 0 ≡ black) v.null v.null) knows
