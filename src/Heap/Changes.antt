-- ===== src/Heap/Changes.antt =====
-- src/pointers.rs, src/collector.rs: changes by one thread that keep the invariant of tracing.
use mathlib.Core.Path.{subst}
use mathlib.Core.List.{Memᴰ}
use cdpt.Base.{
  ℕ, ◌≡◌, ◌≢◌, refl, sym, ap, ◌∙◌, ◌⊎◌, inl, inr, List, [], update, update_self, update-ne,
  ℕ_discrete,
}
use cdpt.Epoch.{Color, flip}
use cdpt.Ptr.{rooted, unrooted}
use cdpt.Heap.{Link, Thread, Heap}
use cdpt.Heap.Events.{System}
use cdpt.Heap.Protected.{
  Holds, Safe, is_black, has_task, in_hand, Protected, with_root, with_hazard, Keeps,
}
use cdpt.Heap.Known.{
  NotWhite, NotRooted, LinksDone, Knows, Inv, LinkSteps, kept, LinksDone-kept, Knows-kept,
}

module _ (black : Color) (outgoing : ℕ → List ℕ) where
  -- Thread `t` goes on as `th` and the heap becomes `after`.
  pub record Change (s : System) (t : ℕ) (th : Thread) (after : Heap) : Type 0 where
    pub keeps : Keeps black outgoing s.heap s.threads after (update s.threads t th)
    pub links : LinkSteps black outgoing s.heap after
    pub targets :
        (l : ℕ)
        → NotWhite black after l
        → (after.links l ≡ s.heap.links l)
          ⊎ Protected black outgoing after (update s.threads t th) (after.links l).obj
    pub blacks :
        (p : ℕ)
        → after.color p ≡ black
        → (s.heap.color p ≡ black) ⊎ LinksDone black outgoing after p []
    pub knows : Knows black outgoing after (update s.threads t th) th
    pub null : after.color 0 ≡ black

  module _ (s : System) (t : ℕ) (th : Thread) (after : Heap) where
    pub now-Holds : (o : ℕ) → Holds th o → Safe black after (update s.threads t th) o
    now-Holds o held =
        in_hand t (subst (λ (x : Thread). Holds x o) (sym (update_self s.threads t th)) held)

    -- What is safe stays so, if this holds of marked objects, of mark tasks, and of what the thread held.
    pub Safe-Change :
        ((o : ℕ) → s.heap.color o ≡ black → after.color o ≡ black)
        → ((o : ℕ) → Memᴰ o s.heap.tasks → Safe black after (update s.threads t th) o)
        → ((o : ℕ) → Holds (s.threads t) o → Safe black after (update s.threads t th) o)
        → (o : ℕ) → Safe black s.heap s.threads o
        → Safe black after (update s.threads t th) o
    Safe-Change colors tasks own o (is_black e) = is_black (colors o e)
    Safe-Change colors tasks own o (has_task m) = tasks o m
    Safe-Change colors tasks own o (in_hand u held) = elim (ℕ_discrete t u) [
      | yes same ↦ own o (subst (λ (x : ℕ). Holds (s.threads x) o) (sym same) held)
      | no differs ↦
          in_hand u
            (subst (λ (x : Thread). Holds x o) (sym (update-ne s.threads t u th differs)) held)
    ]

    pub Change-Inv :
        (locals : ℕ → List ℕ)
        → Inv black outgoing s
        → Change s t th after
        → ((u o : ℕ) → Memᴰ o (locals u) → Protected black outgoing after (update s.threads t th) o)
        → Inv black outgoing
            (record { heap = after; threads = update s.threads t th; locals = locals })
    Change-Inv locals v c held = record {
      targets = λ l w. elim (c.targets l w) [
        | inl same ↦
            let was : NotWhite black s.heap l = λ e. w (ap (λ (x : Link). x.meta) same ∙ e) in
            subst (λ (x : Link). Protected black outgoing after next x.obj) (sym same)
              (keep (s.heap.links l).obj (v.targets l was))
        | inr there ↦ there
      ];
      done = λ p e. elim (c.blacks p e) [
        | inl was ↦
            LinksDone-kept black outgoing s.heap after s.threads next c.keeps c.links p []
              (v.done p was)
        | inr there ↦ there
      ];
      locals = held;
      knows = λ u. elim (ℕ_discrete t u) [
        | yes same ↦
            let here = sym (update_self s.threads t th) ∙ ap next same in
            subst (Knows black outgoing after next) here c.knows
        | no differs ↦
            subst (Knows black outgoing after next) (sym (update-ne s.threads t u th differs)) (
              Knows-kept black outgoing s.heap after s.threads next c.keeps c.links (s.threads u)
                (v.knows u))
      ];
      null = c.null;
    }
      where
        next : ℕ → Thread
        next = update s.threads t th

        keep :
            (o : ℕ)
            → Protected black outgoing s.heap s.threads o
            → Protected black outgoing after next o
        keep = kept black outgoing s.heap after s.threads next c.keeps c.links

  same_links : (h : Heap) → LinkSteps black outgoing h h
  same_links h = record { not_white = λ l w. w; not_rooted = λ l w. w }

  -- Only the thread changes.
  pub plain :
      (s : System) (t : ℕ) (th : Thread)
      → Inv black outgoing s
      → Knows black outgoing s.heap s.threads th
      → ((o : ℕ) → Holds (s.threads t) o → Safe black s.heap (update s.threads t th) o)
      → Change s t th s.heap
  plain s t th v k own =
      let next = update s.threads t th in
      let safe = Safe-Change s t th s.heap (λ o e. e) (λ o m. has_task m) own in
      let keeps : Keeps black outgoing s.heap s.threads s.heap next = record {
        safe = safe;
        roots = λ o u c. with_root o u c;
        hazards = λ o u c. with_hazard o u c;
        white_links = λ l w. inl (refl, refl);
      } in
      record {
        keeps = keeps;
        links = same_links s.heap;
        targets = λ l w. inl refl;
        blacks = λ p e. inl e;
        knows =
            Knows-kept black outgoing s.heap s.heap s.threads next keeps (same_links s.heap) th k;
        null = v.null;
      }

  -- A link is written.
  pub link-Change :
      (s : System) (t : ℕ) (th : Thread) (l : ℕ) (new : Link)
      → Inv black outgoing s
      → ((o : ℕ)
          → Holds (s.threads t) o
          → Safe black
              (record s.heap { links = update s.heap.links l new })
              (update s.threads t th)
              o)
      → (NotWhite black s.heap l → new.meta ≢ unrooted (flip black))
      → (NotRooted black s.heap l → new.meta ≢ rooted)
      → (new.meta ≢ unrooted (flip black) → Protected black outgoing s.heap s.threads new.obj)
      → ((s.heap.links l).meta ≡ unrooted (flip black)
          → ((new.obj ≡ (s.heap.links l).obj) × (new.meta ≡ (s.heap.links l).meta))
            ⊎ Safe black
                (record s.heap { links = update s.heap.links l new })
                (update s.threads t th)
                (s.heap.links l).obj)
      → (LinkSteps black outgoing s.heap (record s.heap { links = update s.heap.links l new })
          → Knows black outgoing
              (record s.heap { links = update s.heap.links l new })
              (update s.threads t th)
              th)
      → Change s t th (record s.heap { links = update s.heap.links l new })
  link-Change s t th l new v own not_white not_rooted target white knows = record {
    keeps = keeps;
    links = steps;
    targets = targets;
    blacks = λ p e. inl e;
    knows = knows steps;
    null = v.null;
  }
    where
      after : Heap
      after = record s.heap { links = update s.heap.links l new }

      next : ℕ → Thread
      next = update s.threads t th

      at_self : (k : ℕ) → l ≡ k → after.links k ≡ new
      at_self k same = sym (ap after.links same) ∙ update_self s.heap.links l new

      steps : LinkSteps black outgoing s.heap after
      steps = record {
        not_white = λ k w. elim (ℕ_discrete l k) [
          | yes same ↦ λ e.
              not_white (subst (NotWhite black s.heap) (sym same) w)
                (sym (ap (λ (x : Link). x.meta) (at_self k same)) ∙ e)
          | no differs ↦
              λ e. w (sym (ap (λ (x : Link). x.meta) (update-ne s.heap.links l k new differs)) ∙ e)
        ];
        not_rooted = λ k w. elim (ℕ_discrete l k) [
          | yes same ↦ λ e.
              not_rooted (subst (NotRooted black s.heap) (sym same) w)
                (sym (ap (λ (x : Link). x.meta) (at_self k same)) ∙ e)
          | no differs ↦
              λ e. w (sym (ap (λ (x : Link). x.meta) (update-ne s.heap.links l k new differs)) ∙ e)
        ];
      }

      keeps : Keeps black outgoing s.heap s.threads after next
      keeps = record {
        safe = Safe-Change s t th after (λ o e. e) (λ o m. has_task m) own;
        roots = λ o u c. with_root o u c;
        hazards = λ o u c. with_hazard o u c;
        white_links = λ k w. elim (ℕ_discrete l k) [
          | yes same ↦
              elim (white
                (subst (λ (x : ℕ). (s.heap.links x).meta ≡ unrooted (flip black)) (sym same) w)) [
                  | inl (e, m) ↦ inl (
                    ap (λ (x : Link). x.obj) (at_self k same)
                        ∙ e
                        ∙ ap (λ (x : ℕ). (s.heap.links x).obj) same,
                    ap (λ (x : Link). x.meta) (at_self k same)
                        ∙ m
                        ∙ ap (λ (x : ℕ). (s.heap.links x).meta) same,
                  )
                  | inr there ↦
                      inr (subst (λ (x : ℕ). Safe black after next (s.heap.links x).obj) same there)
                ]
          | no differs ↦ inl (
            ap (λ (x : Link). x.obj) (update-ne s.heap.links l k new differs),
            ap (λ (x : Link). x.meta) (update-ne s.heap.links l k new differs),
          )
        ];
      }

      targets :
          (k : ℕ)
          → NotWhite black after k
          → (after.links k ≡ s.heap.links k)
            ⊎ Protected black outgoing after next (after.links k).obj
      targets k w = elim (ℕ_discrete l k) [
        | yes same ↦
            let fine : new.meta ≢ unrooted (flip black) =
              λ e. w (ap (λ (x : Link). x.meta) (at_self k same) ∙ e) in
            inr (
              subst (λ (x : Link). Protected black outgoing after next x.obj) (sym (at_self k same))
                (kept black outgoing s.heap after s.threads next keeps steps new.obj (target fine)))
        | no differs ↦ inl (update-ne s.heap.links l k new differs)
      ]
