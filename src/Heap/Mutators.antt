-- ===== src/Heap/Mutators.antt =====
-- src/pointers.rs: calls of mutators that are not within an operation keep the invariant of tracing.
use mathlib.Core.List.{Memᴰ}
use mathlib.Core.List.Memᴰ
use mathlib.Core.Path.{subst, fun_ext}
use cdpt.Base.{
  ℕ, ◌<◌, ◌≡◌, refl, sym, ap, ◌∙◌, inl, inr, Bool, true, false, not, ◌&&◌, ◌==◌, Option, List, [],
  ◌∷◌, update, update_self, update-ne, ℕ_discrete, Bool-cases,
}
use cdpt.Epoch.{Color, flip}
use cdpt.Ptr.{rooted}
use cdpt.Heap.{Op, Thread, idle, Heap, is_rooted, drop_shared}
use cdpt.Heap.Events.{
  System, null_rooted, local_at, set_thread, add_locals, set_heap, has_access, all_rooted,
  call_update, load_link, alloc_local, unroot_link, drop_link,
}
use cdpt.Heap.Protected.{Holds, is_black, has_task, Protected, is_safe, with_root, with_hazard}
use cdpt.Heap.Known.{
  NotWhite, LinksDone, Knows, at_begun, at_dropping, at_unrooting, Inv, Knows-kept,
}
use cdpt.Heap.Changes.{Change, Change-Inv, Safe-Change, plain, link-Change}
use cdpt.Heap.Headers.{header-Change}
use cdpt.Heap.Updates.{ptr_meta_eq→eq, rooted≢unrooted, drop_idle-Knows}
use cdpt.Heap.Cas.{nothing_held, empty_idle}
use cdpt.Heap.Locals.{
  all_locals, local_at-Protected, has_access-Access, loaded-Protected, null-Protected,
}
use cdpt.Heap.Steps.{still, thread-Inv}

pub and_first : (a b : Bool) → (a && b) ≡ true → a ≡ true
and_first true b h = refl
and_first false b h = cc

pub and_second : (a b : Bool) → (a && b) ≡ true → b ≡ true
and_second true b h = h
and_second false b h = cc

pub update_same {ℓ} : {A : Type ℓ} (f : ℕ → A) (t : ℕ) → update f t (f t) ≡ f
update_same f t = fun_ext (λ u. elim (ℕ_discrete t u) [
  | yes same ↦ sym (ap (update f t (f t)) same) ∙ update_self f t (f t) ∙ ap f same
  | no differs ↦ update-ne f t u (f t) differs
])

module _ (black : Color) (outgoing : ℕ → List ℕ) (s : System) (t : ℕ)
    (v : Inv black outgoing s) where
  -- A rooted link is not white.
  pub rooted-NotWhite : (l : ℕ) → (s.heap.links l).meta ≡ rooted → NotWhite black s.heap l
  rooted-NotWhite l m e = rooted≢unrooted (flip black) (sym m ∙ e)

  -- The thread goes on as before.
  pub stay-Inv :
      (after : Heap) (locals : ℕ → List ℕ)
      → Inv black outgoing
          (record { heap = after; threads = update s.threads t (s.threads t); locals = locals })
      → Inv black outgoing (record { heap = after; threads = s.threads; locals = locals })
  stay-Inv after locals i =
      subst
        (λ (x : ℕ → Thread).
          Inv black outgoing (record { heap = after; threads = x; locals = locals }))
        (update_same s.threads t) i

  module _ (at : s.threads t ≡ idle) where
    pub idle_own : (o : ℕ) (A : Type 0) → Holds (s.threads t) o → A
    idle_own o A held =
        absurd (nothing_held idle empty_idle o (subst (λ (x : Thread). Holds x o) at held))

    -- An idle thread starts something.
    pub begin-Inv :
        (th : Thread)
        → Knows black outgoing s.heap s.threads th
        → Inv black outgoing (set_thread t th s)
    unfolding set_thread
    begin-Inv th k =
        thread-Inv black outgoing s t th s.heap v
          (plain black outgoing s t th v k (λ o held. idle_own o _ held))

    pub call_update-Inv :
        (op : Op) (l : ℕ) (owner new : Option ℕ) (tag : ℕ)
        → Inv black outgoing (
            call_update black outgoing t op l owner
              (record { obj = local_at (s.locals t) new; tag = tag })
              s)
    unfolding call_update
    call_update-Inv op l owner new tag =
        elim (Bool-cases (has_access black outgoing s.heap (s.locals t) owner l)) [
          | inl q ↦ rw q (
              begin-Inv _ (
                at_begun op l _ (has_access-Access black outgoing s v t owner l q)
                  (local_at-Protected black outgoing s v t new)))
          | inr q ↦ rw q v
        ]

    pub unroot_link-Inv : (l : ℕ) → Inv black outgoing (unroot_link black outgoing t l s)
    unfolding unroot_link
    unroot_link-Inv l = elim (Bool-cases (is_rooted (s.heap.links l))) [
      | inl q ↦
          let w = rooted-NotWhite l (ptr_meta_eq→eq (s.heap.links l).meta rooted q) in
          let k = at_unrooting l (s.heap.links l) w (v.targets l w) in
          elim (Bool-cases ((s.heap.links l).obj == 0)) [
            | inl e ↦ rw (q, e) (begin-Inv _ k)
            | inr e ↦ rw (q, e) (begin-Inv _ (at_dropping (s.heap.links l).obj _ k))
          ]
      | inr q ↦ rw q v
    ]

    pub drop_link-Inv : (l : ℕ) → Inv black outgoing (drop_link black outgoing t l s)
    unfolding drop_link set_thread set_heap
    drop_link-Inv l = elim (Bool-cases (is_rooted (s.heap.links l))) [
      | inl q ↦
          let m = ptr_meta_eq→eq (s.heap.links l).meta rooted q in
          let th = drop_shared (s.heap.links l).obj idle in
          rw q (
            thread-Inv black outgoing s t th _ v (
              link-Change black outgoing s t th l null_rooted v (λ o held. idle_own o _ held)
                (λ w. rooted≢unrooted (flip black)) (λ u. absurd (u m))
                (λ w. null-Protected black outgoing s v)
                (λ white. absurd (rooted-NotWhite l m white))
                (λ steps. drop_idle-Knows black outgoing _ _ (s.heap.links l).obj)))
      | inr q ↦ rw q v
    ]

  pub load_link-Inv :
      (l : ℕ) (owner : Option ℕ) → Inv black outgoing (load_link black outgoing t l owner s)
  unfolding load_link add_locals
  load_link-Inv l owner =
      elim (Bool-cases (has_access black outgoing s.heap (s.locals t) owner l)) [
        | inl q ↦ rw q (record {
          targets = v.targets;
          done = v.done;
          knows = v.knows;
          null = v.null;
          locals =
              all_locals (Protected black outgoing s.heap s.threads) s.locals t
                ((s.heap.links l).obj ∷ [])
                (loaded-Protected black outgoing s v l
                  (has_access-Access black outgoing s v t owner l q))
                v.locals;
        })
        | inr q ↦ rw q v
      ]

  all_rooted-NotWhite :
      (ls : List ℕ) → all_rooted s.heap ls ≡ true → (l : ℕ) → Memᴰ l ls → NotWhite black s.heap l
  unfolding all_rooted
  all_rooted-NotWhite [] h l m = elim m [ ]
  all_rooted-NotWhite (k ∷ ls) h _ (Memᴰ.head e) = subst (NotWhite black s.heap) (sym e) (
      rooted-NotWhite k
        (ptr_meta_eq→eq (s.heap.links k).meta rooted (and_first (is_rooted (s.heap.links k)) _ h)))
  all_rooted-NotWhite (k ∷ ls) h l (Memᴰ.tail m) =
      all_rooted-NotWhite ls (and_second (is_rooted (s.heap.links k)) _ h) l m

  module _ (at : s.threads t ≡ idle) (obj : ℕ) where
    abbrev born : Heap
    born = record s.heap {
      color = update s.heap.color obj black;
      root_count = update s.heap.root_count obj 0;
      allocated = update s.heap.allocated obj true;
    }

    born_black : born.color obj ≡ black
    born_black = update_self s.heap.color obj black

    born_color : (p : ℕ) → s.heap.color p ≡ black → born.color p ≡ black
    born_color p e = elim (ℕ_discrete obj p) [
      | yes same ↦ sym (ap born.color same) ∙ born_black
      | no differs ↦ update-ne s.heap.color obj p black differs ∙ e
    ]

    -- A black object, whose links are not white.
    born-Change :
        all_rooted s.heap (outgoing obj) ≡ true → Change black outgoing s t (s.threads t) born
    born-Change h =
        header-Change black outgoing s t (s.threads t) born (λ l. refl) v
          (Safe-Change black outgoing s t (s.threads t) born born_color (λ x m. has_task m)
            (λ o held. idle_own at o _ held))
          (λ x u c. elim (ℕ_discrete obj x) [
            | yes same ↦ is_safe x (is_black (sym (ap born.color same) ∙ born_black))
            | no differs ↦
                with_root x u
                  (subst (λ (n : ℕ). 0 < n) (sym (update-ne s.heap.root_count obj x 0 differs)) c)
          ])
          (λ x u c. with_hazard x u c)
          (λ p e. elim (ℕ_discrete obj p) [
            | yes same ↦ inr (
                subst (λ (x : ℕ). LinksDone black outgoing born x []) same
                  (λ l m. inl (all_rooted-NotWhite (outgoing obj) h l m)))
            | no differs ↦ inl (sym (update-ne s.heap.color obj p black differs) ∙ e)
          ])
          (born_color 0 v.null)
          (λ keeps links.
            Knows-kept black outgoing s.heap born s.threads _ keeps links _ (v.knows t))

    pub alloc_local-Inv : Inv black outgoing (alloc_local black outgoing t obj s)
    unfolding alloc_local add_locals set_heap
    alloc_local-Inv =
        elim (Bool-cases
          (not (obj == 0) && (not (s.heap.allocated obj) && all_rooted s.heap (outgoing obj)))) [
            | inl q ↦
                let h =
                  and_second (not (s.heap.allocated obj)) _ (and_second (not (obj == 0)) _ q) in
                let c = born-Change h in
                rw q (
                  stay-Inv born _ (
                    Change-Inv black outgoing s t (s.threads t) born _ v c (
                      all_locals (Protected black outgoing born (update s.threads t (s.threads t)))
                        s.locals t (obj ∷ [])
                        (λ o m.
                          is_safe o
                            (is_black (ap born.color (Memᴰ.eq_of_singleton m) ∙ born_black)))
                        (λ u o m. still black outgoing s t _ born c o (v.locals u o m)))))
            | inr q ↦ rw q v
          ]
