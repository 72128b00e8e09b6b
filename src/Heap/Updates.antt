-- ===== src/Heap/Updates.antt =====
-- src/pointers.rs: the accesses of `swap`, `compare_exchange` and `compare_exchange_weak`, with their
-- root counts and barriers.
use cdpt.Base.{
  ℕ, ◌≡◌, ◌≢◌, refl, sym, ap, ◌∙◌, arith, inl, inr, Bool, true, false, ◌&&◌, ◌==◌, List, Bool-cases,
}
use cdpt.Epoch.{Color, c0, c1, color_eq, flip}
use cdpt.Ptr.{PtrMeta, rooted, unrooted, ptr_meta_eq}
use cdpt.Heap.{
  Link, Target, Op, swap, strong, weak, Thread, idle, Heap, same_target, same_link, is_rooted,
  link_color, drop_shared, ptrs_differ, unrooted_once, rooted_path, either_path, after_load,
  rooted_lost, unrooted_won, unrooted_lost,
}
use cdpt.Heap.Protected.{Holds, holds_shading, Protected}
use cdpt.Heap.Known.{
  NotRooted, Access, Knows, at_idle, at_counting, at_rooted_cas, at_unrooted_cas, at_barrier,
  at_dropping, at_shading,
}

pub ptr_meta_eq→eq : (a b : PtrMeta) → ptr_meta_eq a b ≡ true → a ≡ b
ptr_meta_eq→eq rooted rooted h = refl
ptr_meta_eq→eq (unrooted c0) (unrooted c0) h = refl
ptr_meta_eq→eq (unrooted c1) (unrooted c1) h = refl
ptr_meta_eq→eq rooted (unrooted c) h = cc
ptr_meta_eq→eq (unrooted c0) rooted h = cc
ptr_meta_eq→eq (unrooted c1) rooted h = cc
ptr_meta_eq→eq (unrooted c0) (unrooted c1) h = cc
ptr_meta_eq→eq (unrooted c1) (unrooted c0) h = cc

true≢false : true ≢ false
true≢false e = cc

pub not_rooted : (m : PtrMeta) → ptr_meta_eq m rooted ≡ false → m ≢ rooted
not_rooted rooted h = cc
not_rooted (unrooted c) h = λ e. cc

pub rooted≢unrooted : (c : Color) → rooted ≢ unrooted c
rooted≢unrooted c e = cc

pub black≢white : (black : Color) → unrooted black ≢ unrooted (flip black)
black≢white c0 e = cc
black≢white c1 e = cc

color_eq_self : (c : Color) → color_eq c c ≡ true
color_eq_self c0 = refl
color_eq_self c1 = refl

-- An unrooted pointer by its color.
pub unrooted_by_color : (m : PtrMeta) → m ≢ rooted → m ≡ unrooted (link_color m)
unrooted_by_color rooted h = absurd (h refl)
unrooted_by_color (unrooted c) h = refl

and_left : (a b : Bool) → (a && b) ≡ true → a ≡ true
and_left true b h = refl
and_left false b h = cc

and_right : (a b : Bool) → (a && b) ≡ true → b ≡ true
and_right true b h = h
and_right false b h = cc

same_number : (x y : ℕ) → (x == y) ≡ true → x ≡ y
same_number x y h = ground arith

-- A pointer that was found is the expected one.
pub same_link-parts : (p q : Link) → same_link p q ≡ true → (p.obj ≡ q.obj) × (p.meta ≡ q.meta)
same_link-parts p q h = (
  same_number p.obj q.obj
      (and_left (p.obj == q.obj) _ (and_left (p.obj == q.obj && ptr_meta_eq p.meta q.meta) _ h)),
  ptr_meta_eq→eq p.meta q.meta
      (and_right (p.obj == q.obj) _ (and_left (p.obj == q.obj && ptr_meta_eq p.meta q.meta) _ h)),
)

module _ (black : Color) (outgoing : ℕ → List ℕ) (h : Heap) (threads : ℕ → Thread) where
  drop_shared-Knows :
      (o : ℕ) (th : Thread)
      → Knows black outgoing h threads th
      → Knows black outgoing h threads (drop_shared o th)
  drop_shared-Knows o th k = elim (Bool-cases (o == 0)) [
    | inl e ↦ rw e k
    | inr e ↦ rw e (at_dropping o th k)
  ]

  module _ (op : Op) (l : ℕ) (new : Target) (a : Access black outgoing h threads l)
      (p : Protected black outgoing h threads new.obj) where
    unrooted_once-Knows :
        (old : Link)
        → NotRooted black h l
        → old.meta ≢ rooted
        → Knows black outgoing h threads (unrooted_once black op l new old)
    unfolding unrooted_once
    unrooted_once-Knows old u e =
        elim (Bool-cases (ptrs_differ old new && color_eq (link_color old.meta) black)) [
          | inl q ↦ rw q (at_barrier op l new old a p u e)
          | inr q ↦ rw q (at_unrooted_cas op l new old a p u e (λ d c. absurd (skipped d c q)))
        ]
      where
        skipped :
            ptrs_differ old new ≡ true
            → link_color old.meta ≡ black
            → (ptrs_differ old new && color_eq (link_color old.meta) black) ≢ false
        skipped d c q =
            let both : color_eq (link_color old.meta) black ≡ false = rw d at q in
            true≢false (sym (ap (λ (x : Color). color_eq x black) c ∙ color_eq_self black) ∙ both)

    rooted_path-Knows :
        (old : Link)
        → old.meta ≡ rooted
        → Knows black outgoing h threads (rooted_path black op l new old)
    unfolding rooted_path
    rooted_path-Knows old e = elim (Bool-cases (new.obj == 0)) [
      | inl q ↦ rw q (at_rooted_cas op l new old a p e)
      | inr q ↦ rw q (at_counting op l new old a p e)
    ]

    -- Either path, from the pointer that stands in the link.
    either_path-Knows : Knows black outgoing h threads (either_path black op l new (h.links l))
    unfolding either_path
    either_path-Knows = elim (Bool-cases (is_rooted (h.links l))) [
      | inl q ↦ rw q (rooted_path-Knows (h.links l) (ptr_meta_eq→eq (h.links l).meta rooted q))
      | inr q ↦ let u = not_rooted (h.links l).meta q in rw q (unrooted_once-Knows (h.links l) u u)
    ]

  pub after_load-Knows :
      (op : Op) (l : ℕ) (new : Target)
      → Access black outgoing h threads l
      → Protected black outgoing h threads new.obj
      → Knows black outgoing h threads (after_load black op l new (h.links l))
  unfolding after_load
  after_load-Knows swap l new a p = either_path-Knows swap l new a p
  after_load-Knows (strong cur) l new a p = elim (Bool-cases (same_target (h.links l) cur)) [
    | inl q ↦ rw q (either_path-Knows (strong cur) l new a p)
    | inr q ↦ rw q at_idle
  ]
  after_load-Knows (weak cur) l new a p = elim (Bool-cases (same_target (h.links l) cur)) [
    | inl q ↦ rw q (either_path-Knows (weak cur) l new a p)
    | inr q ↦ rw q at_idle
  ]

  pub rooted_lost-Knows :
      (op : Op) (l : ℕ) (new : Target)
      → Access black outgoing h threads l
      → Protected black outgoing h threads new.obj
      → Knows black outgoing h threads (rooted_lost black op l new (h.links l))
  unfolding rooted_lost
  rooted_lost-Knows swap l new a p = elim (Bool-cases (is_rooted (h.links l))) [
    | inl q ↦
        rw q (at_rooted_cas swap l new (h.links l) a p (ptr_meta_eq→eq (h.links l).meta rooted q))
    | inr q ↦
        let u = not_rooted (h.links l).meta q in
        rw q (drop_shared-Knows new.obj _ (unrooted_once-Knows swap l new a p (h.links l) u u))
  ]
  rooted_lost-Knows (strong cur) l new a p = elim (Bool-cases (is_rooted (h.links l))) [
    | inl q ↦ rw q (drop_shared-Knows new.obj idle at_idle)
    | inr q ↦ elim (Bool-cases (same_target (h.links l) cur)) [
      | inl e ↦
          let u = not_rooted (h.links l).meta q in
          rw (q, e)
            (drop_shared-Knows new.obj _
              (unrooted_once-Knows (strong cur) l new a p (h.links l) u u))
      | inr e ↦ rw (q, e) (drop_shared-Knows new.obj idle at_idle)
    ]
  ]
  rooted_lost-Knows (weak cur) l new a p = drop_shared-Knows new.obj idle at_idle

  pub unrooted_lost-Knows :
      (op : Op) (l : ℕ) (new : Target) (old : Link)
      → Access black outgoing h threads l
      → Protected black outgoing h threads new.obj
      → NotRooted black h l
      → Knows black outgoing h threads (unrooted_lost black op l new old (h.links l))
  unfolding unrooted_lost
  unrooted_lost-Knows swap l new old a p u = unrooted_once-Knows swap l new a p (h.links l) u u
  unrooted_lost-Knows (strong cur) l new old a p u =
      elim (Bool-cases (same_target (h.links l) (record { obj = old.obj; tag = old.tag }))) [
        | inl q ↦ rw q (unrooted_once-Knows (strong cur) l new a p (h.links l) u u)
        | inr q ↦ rw q at_idle
      ]
  unrooted_lost-Knows (weak cur) l new old a p u = at_idle

  pub unrooted_won-Knows :
      (new : Target) (old : Link) → Knows black outgoing h threads (unrooted_won black new old)
  unfolding unrooted_won
  unrooted_won-Knows new old =
      elim (Bool-cases (ptrs_differ old new && color_eq (link_color old.meta) (flip black))) [
        | inl q ↦ rw q (at_shading old.obj idle at_idle)
        | inr q ↦ rw q at_idle
      ]

  pub drop_idle-Knows : (o : ℕ) → Knows black outgoing h threads (drop_shared o idle)
  drop_idle-Knows o = drop_shared-Knows o idle at_idle

  -- The deletion barrier has the old pointer in hand.
  pub unrooted_won-Holds :
      (new : Target) (old : Link)
      → ptrs_differ old new ≡ true
      → link_color old.meta ≡ flip black
      → Holds (unrooted_won black new old) old.obj
  unfolding unrooted_won
  unrooted_won-Holds new old d e =
      rw (d, e, color_eq_self (flip black)) (holds_shading old.obj idle)
