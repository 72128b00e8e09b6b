-- ===== src/Heap/Cas.antt =====
-- src/pointers.rs: the accesses of link operations keep the invariant of tracing.
use mathlib.Core.Path.{subst}
use cdpt.Base.{
  ℕ, ◌+◌, ◌-◌, ◌<◌, ◌≡◌, ◌≢◌, refl, sym, ap, ◌∙◌, arith, inl, inr, Bool, true, false, not, ◌&&◌,
  ◌==◌, List, update, Bool-cases,
}
use cdpt.Epoch.{Color, flip}
use cdpt.Ptr.{PtrMeta, rooted, unrooted}
use cdpt.Heap.{
  Link, Target, Op, Thread, idle, begun, counting, rooted_cas, unrooted_cas, dropping, shading,
  unrooting, same_link, with_meta, link_color, ptrs_differ, after_load, unrooted_won, cas_wins,
  after_drop, black_link, cas_link, advance, write, shade_pointee,
}
use cdpt.Heap.Events.{System}
use cdpt.Heap.Protected.{Holds, holds_shading, Safe, Protected}
use cdpt.Heap.Known.{
  NotWhite, NotRooted, Access, Knows, at_idle, at_rooted_cas, at_unrooted_cas, at_shading, Inv,
  Knows-kept, Access-kept, kept,
}
use cdpt.Heap.Changes.{Change, now-Holds, plain, link-Change}
use cdpt.Heap.Headers.{counted, count-Change, shade-Change, shade_pointee-Safe}
use cdpt.Heap.Updates.{
  unrooted_by_color, rooted≢unrooted, black≢white, same_link-parts, after_load-Knows,
  rooted_lost-Knows, unrooted_lost-Knows, unrooted_won-Knows, drop_idle-Knows, unrooted_won-Holds,
}

-- A thread in an operation on a link has no object in hand, but when it shades.
pub data Empty : Thread → Type 0 where
  empty_begun : (op : Op) (l : ℕ) (new : Target) → Empty (begun op l new)
  empty_counting : (op : Op) (l : ℕ) (new : Target) (old : Link) → Empty (counting op l new old)
  empty_rooted : (op : Op) (l : ℕ) (new : Target) (old : Link) → Empty (rooted_cas op l new old)
  empty_unrooted : (op : Op) (l : ℕ) (new : Target) (old : Link) → Empty (unrooted_cas op l new old)
  empty_dropping : (o : ℕ) (after : Thread) → Empty (dropping o after)
  empty_unrooting : (l : ℕ) (old : Link) → Empty (unrooting l old)
  empty_idle : Empty idle

pub nothing_held : (th : Thread) → Empty th → (o : ℕ) → ¬ Holds th o
nothing_held _ empty_idle o held = elim held [ ]
nothing_held _ (empty_begun op l new) o held = elim held [ ]
nothing_held _ (empty_counting op l new old) o held = elim held [ ]
nothing_held _ (empty_rooted op l new old) o held = elim held [ ]
nothing_held _ (empty_unrooted op l new old) o held = elim held [ ]
nothing_held _ (empty_dropping p after) o held = elim held [ ]
nothing_held _ (empty_unrooting l old) o held = elim held [ ]

and_parts : (a b : Bool) → (a && b) ≡ true → a ≡ true
and_parts true b h = refl
and_parts false b h = cc

-- What the compare-exchange that wins has found.
won-parts :
    (black : Color) (spurious : Bool) (op : Op) (found old : Link)
    → cas_wins black spurious op found old ≡ true
    → (found.obj ≡ old.obj) × (found.meta ≡ old.meta)
unfolding cas_wins
won-parts black spurious op found old h =
    same_link-parts found old (and_parts (same_link found old) _ h)

white_color : (black : Color) (m : PtrMeta) → m ≡ unrooted (flip black) → link_color m ≡ flip black
white_color black m e = ap (λ (x : PtrMeta). link_color x) e

differ_false : (old : Link) (new : Target) → ptrs_differ old new ≡ false → new.obj ≡ old.obj
differ_false old new h = same old.obj new.obj h
  where
    same : (x y : ℕ) → not (x == y) ≡ false → y ≡ x
    same x y e = ground (arith, e)

module _ (black : Color) (outgoing : ℕ → List ℕ) (s : System) (t : ℕ) where
  module _ (v : Inv black outgoing s) (th : Thread) (at : s.threads t ≡ th)
      (nothing : Empty th) where
    own : (o : ℕ) (A : Type 0) → Holds (s.threads t) o → A
    own o A held = absurd (nothing_held th nothing o (subst (λ (x : Thread). Holds x o) at held))

  pub begun-Change :
      (op : Op) (l : ℕ) (new : Target)
      → Inv black outgoing s
      → s.threads t ≡ begun op l new
      → Access black outgoing s.heap s.threads l
      → Protected black outgoing s.heap s.threads new.obj
      → Change black outgoing s t (after_load black op l new (s.heap.links l)) s.heap
  begun-Change op l new v at a p =
      plain black outgoing s t _ v (after_load-Knows black outgoing s.heap s.threads op l new a p)
        (λ o held. own v (begun op l new) at (empty_begun op l new) o _ held)

  pub counting-Change :
      (op : Op) (l : ℕ) (new : Target) (old : Link)
      → Inv black outgoing s
      → s.threads t ≡ counting op l new old
      → Access black outgoing s.heap s.threads l
      → Protected black outgoing s.heap s.threads new.obj
      → old.meta ≡ rooted
      → Change black outgoing s t (rooted_cas op l new old) (
          counted black outgoing s t
            (rooted_cas op l new old)
            new.obj
            (s.heap.root_count new.obj + 1))
  counting-Change op l new old v at a p e =
      count-Change black outgoing s t _ new.obj (s.heap.root_count new.obj + 1) v
        (λ o held. own v (counting op l new old) at (empty_counting op l new old) o _ held)
        (λ c. inl (omega arith)) (at_rooted_cas op l new old a p e)

  module _ (spurious : Bool) (op : Op) (l : ℕ) (new : Target) (old : Link)
      (v : Inv black outgoing s) (a : Access black outgoing s.heap s.threads l)
      (p : Protected black outgoing s.heap s.threads new.obj) where
    pub rooted_cas-Change :
        s.threads t ≡ rooted_cas op l new old
        → old.meta ≡ rooted
        → Change black outgoing s t
            (advance black outgoing spurious s.heap (rooted_cas op l new old))
            (write black spurious s.heap (rooted_cas op l new old))
    unfolding advance write cas_link
    rooted_cas-Change at e = elim (Bool-cases (cas_wins black spurious op (s.heap.links l) old)) [
      | inl q ↦
          let (o, m) = won-parts black spurious op (s.heap.links l) old q in
          rw q (
            link-Change black outgoing s t _ l (with_meta new rooted) v
              (λ x held. own v (rooted_cas op l new old) at (empty_rooted op l new old) x _ held)
              (λ w. rooted≢unrooted (flip black)) (λ u. absurd (u (m ∙ e))) (λ w. p)
              (λ w. absurd (rooted≢unrooted (flip black) (sym (m ∙ e) ∙ w)))
              (λ steps. drop_idle-Knows black outgoing _ _ old.obj))
      | inr q ↦ rw q (
          plain black outgoing s t _ v
            (rooted_lost-Knows black outgoing s.heap s.threads op l new a p)
            (λ x held. own v (rooted_cas op l new old) at (empty_rooted op l new old) x _ held))
    ]

    pub unrooted_cas-Change :
        s.threads t ≡ unrooted_cas op l new old
        → NotRooted black s.heap l
        → old.meta ≢ rooted
        → Change black outgoing s t
            (advance black outgoing spurious s.heap (unrooted_cas op l new old))
            (write black spurious s.heap (unrooted_cas op l new old))
    unfolding advance write cas_link
    unrooted_cas-Change at u e =
        elim (Bool-cases (cas_wins black spurious op (s.heap.links l) old)) [
          | inl q ↦
              let (o, m) = won-parts black spurious op (s.heap.links l) old q in
              let same_meta : unrooted (link_color old.meta) ≡ (s.heap.links l).meta =
                sym (unrooted_by_color old.meta e) ∙ sym m in
              rw q (
                link-Change black outgoing s t _ l (with_meta new (unrooted (link_color old.meta)))
                  v
                  (λ x held.
                    own v (unrooted_cas op l new old) at (empty_unrooted op l new old) x _ held)
                  (λ w f. w (sym same_meta ∙ f))
                  (λ r f. rooted≢unrooted (link_color old.meta) (sym f)) (λ w. p)
                  (λ w. elim (Bool-cases (ptrs_differ old new)) [
                    | inl d ↦ inr (
                        now-Holds black outgoing s t _ _ (s.heap.links l).obj (
                          subst (Holds (unrooted_won black new old)) (sym o) (
                            unrooted_won-Holds black outgoing s.heap s.threads new old d
                              (white_color black old.meta (sym m ∙ w)))))
                    | inr d ↦ inl (differ_false old new d ∙ sym o, same_meta)
                  ])
                  (λ steps. unrooted_won-Knows black outgoing _ _ new old))
          | inr q ↦ rw q (
              plain black outgoing s t _ v
                (unrooted_lost-Knows black outgoing s.heap s.threads op l new old a p u)
                (λ x held.
                  own v (unrooted_cas op l new old) at (empty_unrooted op l new old) x _ held))
        ]

  pub dropping-Change :
      (o : ℕ) (after : Thread)
      → Inv black outgoing s
      → s.threads t ≡ dropping o after
      → Knows black outgoing s.heap s.threads after
      → Change black outgoing s t (after_drop black (s.heap.root_count o) o after) (
          counted black outgoing s t
            (after_drop black (s.heap.root_count o) o after)
            o
            (s.heap.root_count o - 1))
  unfolding after_drop
  dropping-Change o after v at k = elim (Bool-cases (s.heap.root_count o == 1)) [
    | inl q ↦ rw q (
        count-Change black outgoing s t _ o (s.heap.root_count o - 1) v
          (λ x held. own v (dropping o after) at (empty_dropping o after) x _ held)
          (λ c. inr (holds_shading o after)) (at_shading o after k))
    | inr q ↦ rw q (
        count-Change black outgoing s t _ o (s.heap.root_count o - 1) v
          (λ x held. own v (dropping o after) at (empty_dropping o after) x _ held)
          (λ c. inl (more (s.heap.root_count o) q c)) k)
  ]
    where
      more : (n : ℕ) → (n == 1) ≡ false → 0 < n → 0 < n - 1
      more n e c = ground (arith, e, c)

  shaded :
      (o : ℕ) (after : Thread)
      → Inv black outgoing s
      → (x : ℕ) → Holds (shading o after) x
      → Safe black (shade_pointee black o s.heap) (update s.threads t after) x
  shaded o after v _ (holds_shading _ _) = shade_pointee-Safe black outgoing s t after o v

  pub shading-Change :
      (o : ℕ) (after : Thread)
      → Inv black outgoing s
      → s.threads t ≡ shading o after
      → Knows black outgoing s.heap s.threads after
      → Change black outgoing s t after (shade_pointee black o s.heap)
  shading-Change o after v at k =
      shade-Change black outgoing s t after o v
        (λ x held. shaded o after v x (subst (λ (y : Thread). Holds y x) at held))
        (λ keeps links. Knows-kept black outgoing s.heap _ s.threads _ keeps links after k)

  -- The insertion barrier.
  pub barrier-Change :
      (op : Op) (l : ℕ) (new : Target) (old : Link)
      → Inv black outgoing s
      → s.threads t ≡ shading new.obj (unrooted_cas op l new old)
      → Access black outgoing s.heap s.threads l
      → Protected black outgoing s.heap s.threads new.obj
      → NotRooted black s.heap l
      → old.meta ≢ rooted
      → Change black outgoing s t (unrooted_cas op l new old) (shade_pointee black new.obj s.heap)
  barrier-Change op l new old v at a p u e =
      let th = unrooted_cas op l new old in
      shade-Change black outgoing s t th new.obj v
        (λ x held. shaded new.obj th v x (subst (λ (y : Thread). Holds y x) at held))
        (λ keeps links.
          at_unrooted_cas op l new old
            (Access-kept black outgoing s.heap _ s.threads _ keeps links l a)
            (kept black outgoing s.heap _ s.threads _ keeps links new.obj p) (links.not_rooted l u)
            e (λ d c. shade_pointee-Safe black outgoing s t th new.obj v))

  pub unrooting-Change :
      (l : ℕ) (old : Link)
      → Inv black outgoing s
      → s.threads t ≡ unrooting l old
      → NotWhite black s.heap l
      → Protected black outgoing s.heap s.threads old.obj
      → Change black outgoing s t idle
          (record s.heap { links = update s.heap.links l (black_link black old) })
  unrooting-Change l old v at w p =
      link-Change black outgoing s t idle l (black_link black old) v
        (λ x held. own v (unrooting l old) at (empty_unrooting l old) x _ held)
        (λ n. black≢white black) (λ u e. rooted≢unrooted black (sym e)) (λ n. p)
        (λ white. absurd (w white)) (λ steps. at_idle)
