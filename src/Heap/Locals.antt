-- ===== src/Heap/Locals.antt =====
-- src/pointers.rs: the `Local`s of threads, and what a thread can get at with them.
use mathlib.Core.List.{Memᴰ}
use mathlib.Core.List.Memᴰ
use mathlib.Core.Path.{subst}
use cdpt.Base.{
  ℕ, zero, suc, ◌≡◌, ◌≢◌, refl, sym, ap, ◌∙◌, arith, ◌⊎◌, inl, inr, true, false, ◌==◌, Option, none,
  some, List, [], ◌∷◌, ◌++◌, get_elem?, update, update_self, update-ne, ℕ_discrete, Bool-cases,
  Option-cases,
}
use cdpt.Epoch.{Color, c0, c1, flip}
use cdpt.Ptr.{PtrMeta, rooted, unrooted, ptr_meta_eq}
use cdpt.Heap.{Thread, reads}
use cdpt.Heap.Events.{System, contains, remove_at, obj_at, local_at, has_access}
use cdpt.Heap.Protected.{is_black, Protected, is_safe, along}
use cdpt.Heap.Known.{
  Access, Knows, at_begun, at_rooted_cas, at_unrooted_cas, at_barrier, at_idle, at_counting,
  at_dropping, at_shading, at_unrooting, at_checking, at_marking, at_mark_shade, at_mark_cas, Inv,
}
use cdpt.Heap.Updates.{ptr_meta_eq→eq, rooted≢unrooted}

ptr_meta_eq_self : (m : PtrMeta) → ptr_meta_eq m m ≡ true
ptr_meta_eq_self rooted = refl
ptr_meta_eq_self (unrooted c0) = refl
ptr_meta_eq_self (unrooted c1) = refl

pub differs : (a b : PtrMeta) → ptr_meta_eq a b ≡ false → a ≢ b
differs a b h e =
    let q : ptr_meta_eq a b ≡ true = ap (λ (x : PtrMeta). ptr_meta_eq x b) e ∙ ptr_meta_eq_self b in
    cc

contains-Memᴰ : (o : ℕ) (xs : List ℕ) → contains o xs ≡ true → Memᴰ o xs
unfolding contains
contains-Memᴰ o [] h = cc
contains-Memᴰ o (x ∷ xs) h = elim (Bool-cases (o == x)) [
  | inl q ↦ Memᴰ.head (same o x q)
  | inr q ↦ Memᴰ.tail (contains-Memᴰ o xs (rw q at h))
]
  where
    same : (a b : ℕ) → (a == b) ≡ true → a ≡ b
    same a b e = ground (arith, e)

pub get_elem?-Memᴰ : (xs : List ℕ) (k o : ℕ) → get_elem? xs k ≡ some o → Memᴰ o xs
get_elem?-Memᴰ [] k o h = cc
get_elem?-Memᴰ (x ∷ xs) zero o h = Memᴰ.head (cc)
get_elem?-Memᴰ (x ∷ xs) (suc k) o h = Memᴰ.tail (get_elem?-Memᴰ xs k o h)

-- A task that is popped leaves all others.
pub Memᴰ-remove_at :
    (xs : List ℕ) (i o : ℕ)
    → get_elem? xs i ≡ some o
    → (x : ℕ) → Memᴰ x xs
    → (o ≡ x) ⊎ Memᴰ x (remove_at i xs)
unfolding remove_at
Memᴰ-remove_at [] i o h x m = cc
Memᴰ-remove_at (y ∷ ys) zero o h x (Memᴰ.head e) = inl cc
Memᴰ-remove_at (y ∷ ys) zero o h x (Memᴰ.tail m) = inr m
Memᴰ-remove_at (y ∷ ys) (suc i) o h x (Memᴰ.head e) = inr (Memᴰ.head e)
Memᴰ-remove_at (y ∷ ys) (suc i) o h x (Memᴰ.tail m) = elim (Memᴰ-remove_at ys i o h x m) [
  | inl e ↦ inl e
  | inr r ↦ inr (Memᴰ.tail r)
]

-- What holds of the locals and of the new ones holds of all of them.
pub all_locals :
    (P : ℕ → Type 0) (locals : ℕ → List ℕ) (t : ℕ) (new : List ℕ)
    → ((o : ℕ) → Memᴰ o new → P o)
    → ((u o : ℕ) → Memᴰ o (locals u) → P o)
    → (u o : ℕ) → Memᴰ o (update locals t (new ++ locals t) u)
    → P o
all_locals P locals t new fresh old u o m = elim (ℕ_discrete t u) [
  | yes same ↦
      let at : update locals t (new ++ locals t) u ≡ new ++ locals t =
        sym (ap (update locals t (new ++ locals t)) same)
        ∙ update_self locals t (new ++ locals t) in
      elim (Memᴰ.append_cases new (subst (Memᴰ o) at m)) [ inl a ↦ fresh o a | inr b ↦ old t o b ]
  | no other ↦ old u o (subst (Memᴰ o) (update-ne locals t u (new ++ locals t) other) m)
]

module _ (black : Color) (outgoing : ℕ → List ℕ) (s : System) (v : Inv black outgoing s) where
  pub null-Protected : Protected black outgoing s.heap s.threads 0
  null-Protected = is_safe 0 (is_black v.null)

  pub local_at-Protected :
      (t : ℕ) (k : Option ℕ) → Protected black outgoing s.heap s.threads (local_at (s.locals t) k)
  unfolding local_at obj_at
  local_at-Protected t none = null-Protected
  local_at-Protected t (some k) = elim (Option-cases (get_elem? (s.locals t) k)) [
    | inl e ↦ rw e null-Protected
    | inr (o, e) ↦ rw e (v.locals t o (get_elem?-Memᴰ (s.locals t) k o e))
  ]

  pub has_access-Access :
      (t : ℕ) (owner : Option ℕ) (l : ℕ)
      → has_access black outgoing s.heap (s.locals t) owner l ≡ true
      → Access black outgoing s.heap s.threads l
  unfolding has_access
  has_access-Access t none l h =
      inl (λ e.
        rooted≢unrooted (flip black) (sym (ptr_meta_eq→eq (s.heap.links l).meta rooted h) ∙ e))
  has_access-Access t (some k) l h = inr (
    local_at (s.locals t) (some k),
    local_at-Protected t (some k),
    contains-Memᴰ l (outgoing (local_at (s.locals t) (some k))) h,
  )

  -- A pointer that a thread may load is protected.
  pub target-Protected :
      (l : ℕ)
      → Access black outgoing s.heap s.threads l
      → Protected black outgoing s.heap s.threads (s.heap.links l).obj
  target-Protected l (inl w) = v.targets l w
  target-Protected l (inr (p, guarded, m)) =
      elim (Bool-cases (ptr_meta_eq (s.heap.links l).meta (unrooted (flip black)))) [
        | inl q ↦
            along p l (s.heap.links l).obj guarded m refl
              (ptr_meta_eq→eq (s.heap.links l).meta (unrooted (flip black)) q)
        | inr q ↦ v.targets l (differs (s.heap.links l).meta (unrooted (flip black)) q)
      ]

  pub loaded-Protected :
      (l : ℕ)
      → Access black outgoing s.heap s.threads l
      → (o : ℕ) → Memᴰ o ((s.heap.links l).obj ∷ [])
      → Protected black outgoing s.heap s.threads o
  loaded-Protected l a o m =
      subst (Protected black outgoing s.heap s.threads) (sym (Memᴰ.eq_of_singleton m))
        (target-Protected l a)

  none_read : (o : ℕ) → Memᴰ o [] → Protected black outgoing s.heap s.threads o
  none_read o m = elim m [ ]

  pub reads-Protected :
      (th : Thread)
      → Knows black outgoing s.heap s.threads th
      → (o : ℕ) → Memᴰ o (reads s.heap th)
      → Protected black outgoing s.heap s.threads o
  unfolding reads
  reads-Protected _ at_idle = none_read
  reads-Protected _ (at_begun op l new a p) = loaded-Protected l a
  reads-Protected _ (at_counting op l new old a p e) = none_read
  reads-Protected _ (at_rooted_cas op l new old a p e) = loaded-Protected l a
  reads-Protected _ (at_unrooted_cas op l new old a p u e b) = loaded-Protected l a
  reads-Protected _ (at_barrier op l new old a p u e) = none_read
  reads-Protected _ (at_dropping o th d) = none_read
  reads-Protected _ (at_shading o th d) = none_read
  reads-Protected _ (at_unrooting l old w p) = none_read
  reads-Protected _ (at_checking o) = none_read
  reads-Protected _ (at_marking o left d) = none_read
  reads-Protected _ (at_mark_shade o l left seen d) = none_read
  reads-Protected _ (at_mark_cas o l left seen d p) = none_read
