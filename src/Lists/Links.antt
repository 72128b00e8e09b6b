-- ===== src/Lists/Links.antt =====
-- examples/ds/lists.rs: the compare-exchanges of links keep the chain in order.
use mathlib.Core.Path.{subst}
use cdpt.Base.{
  ℕ, suc, ◌<◌, ◌≡◌, ◌≢◌, refl, sym, ap, ◌∙◌, arith, Bool, true, false, Option, some, update,
  update_self, update-ne, ℕ_discrete,
}
use cdpt.Lists.{Nodes}
use cdpt.Lists.Paths.{
  rank, Chain, here, onward, Tagged, same, over, Shape, some_injective, true≢false, Tagged-bound,
  Chain-snoc,
}

abbrev pub relink : Nodes → ℕ → Option ℕ → Nodes
relink h prev new = record h { next = update h.next prev new }

-- Tagged nodes are cut out.
module _ (view : ℕ → Bool) (h : Nodes) (v : Shape view h) (prev : ℕ) (to : Option ℕ)
    (p : view prev ≡ true) (w : Tagged view h (h.next prev) to) where
  pub cut-Chain :
      (a n : ℕ)
      → h.tagged n ≡ false
      → Chain h.next a n
      → Chain (update h.next prev to) a n
        × (Tagged view h (some a) to → (c : ℕ) × (to ≡ some c) × Chain (update h.next prev to) c n)
  cut-Chain a _ u (here _) = (here a, λ t. at_end (some a) to t refl u)
    where
      at_end :
          (from end : Option ℕ)
          → Tagged view h from end
          → from ≡ some a
          → h.tagged a ≡ false
          → (c : ℕ) × (end ≡ some c) × Chain (update h.next prev to) c a
      at_end _ _ (same x) e f = (a, e, here a)
      at_end _ _ (over n b q t rest) e f =
          absurd (true≢false (sym t ∙ ap h.tagged (some_injective n a e) ∙ f))
  cut-Chain a n u (onward _ m _ e rest) =
      let (direct, jump) = cut-Chain m n u rest in
      let first : Chain (update h.next prev to) a n = elim (ℕ_discrete prev a) [
        | yes at ↦
            let from : h.next prev ≡ some m = ap h.next at ∙ e in
            let (c, f, path) = jump (subst (λ (x : Option ℕ). Tagged view h x to) from w) in
            onward a c n (sym (ap (update h.next prev to) at) ∙ update_self h.next prev to ∙ f) path
        | no differs ↦ onward a m n (update-ne h.next prev a to differs ∙ e) direct
      ] in
      (first, λ t. on_way (some a) to t refl e first jump)
    where
      on_way :
          (from end : Option ℕ)
          → Tagged view h from end
          → from ≡ some a
          → h.next a ≡ some m
          → Chain (update h.next prev to) a n
          → (Tagged view h (some m) end
              → (c : ℕ) × (end ≡ some c) × Chain (update h.next prev to) c n)
          → (c : ℕ) × (end ≡ some c) × Chain (update h.next prev to) c n
      on_way _ _ (same x) e f path j = (a, e, path)
      on_way _ _ (over k b q t more) e f path j =
          j (
            subst (λ (x : Option ℕ). Tagged view h x b) (ap h.next (some_injective k a e) ∙ f) more)

  pub cut-Shape : Shape view (relink h prev to)
  unfolding rank
  cut-Shape = record {
    head = v.head;
    old = v.old;
    inside = λ n m q e. elim (ℕ_discrete prev n) [
      | yes at ↦ (target m (sym (update_self h.next prev to) ∙ ap (update h.next prev to) at ∙ e)).0
      | no differs ↦ v.inside n m q (sym (update-ne h.next prev n to differs) ∙ e)
    ];
    ordered = λ n m q e. elim (ℕ_discrete prev n) [
      | yes at ↦
          let l =
            (target m (sym (update_self h.next prev to) ∙ ap (update h.next prev to) at ∙ e)).1 in
          subst (λ (x : ℕ). rank h x < rank h m) at l
      | no differs ↦ v.ordered n m q (sym (update-ne h.next prev n to differs) ∙ e)
    ];
    reached = λ n q u. (cut-Chain 0 n u (v.reached n q u)).0;
  }
    where
      target : (m : ℕ) → to ≡ some m → (view m ≡ true) × (rank h prev < rank h m)
      target m e =
          let (q, l) =
            Tagged-bound view h v (h.next prev) to (suc (rank h prev)) m w
              (λ n f. (v.inside prev n p f, omega (arith, v.ordered prev n p f))) e in
          (q, omega (arith, l))

-- A new node is put in.
module _ (view : ℕ → Bool) (h : Nodes) (v : Shape view h) (prev new : ℕ) (p : view prev ≡ true)
    (u : h.tagged prev ≡ false) (fresh : view new ≡ false)
    (same_next : h.next new ≡ h.next prev) where
  apart : prev ≢ new
  apart e = true≢false (sym p ∙ ap view e ∙ fresh)

  kept_new : update h.next prev (some new) new ≡ h.next new
  kept_new = update-ne h.next prev new (some new) apart

  pub link-Chain : (a n : ℕ) → Chain h.next a n → Chain (update h.next prev (some new)) a n
  link-Chain a _ (here _) = here a
  link-Chain a n (onward _ m _ e rest) = elim (ℕ_discrete prev a) [
    | yes at ↦
        onward a new n
          (sym (ap (update h.next prev (some new)) at) ∙ update_self h.next prev (some new))
          (onward new m n (kept_new ∙ same_next ∙ ap h.next at ∙ e) (link-Chain m n rest))
    | no differs ↦
        onward a m n (update-ne h.next prev a (some new) differs ∙ e) (link-Chain m n rest)
  ]

  in_view : (n : ℕ) → view n ≡ true → update view new true n ≡ true
  in_view n q = elim (ℕ_discrete new n) [
    | yes at ↦ sym (ap (update view new true) at) ∙ update_self view new true
    | no differs ↦ update-ne view new n true differs ∙ q
  ]

  pub link-Shape :
      new < h.allocated
      → rank h prev < rank h new
      → ((m : ℕ) → h.next prev ≡ some m → rank h new < rank h m)
      → Shape (update view new true) (relink h prev (some new))
  unfolding rank
  link-Shape l below above = record {
    head = in_view 0 v.head;
    old = λ n q. elim (ℕ_discrete new n) [
      | yes at ↦ subst (λ (x : ℕ). x < h.allocated) at l
      | no differs ↦ v.old n (sym (update-ne view new n true differs) ∙ q)
    ];
    inside = λ n m q e. (edge n m q e).0;
    ordered = λ n m q e. (edge n m q e).1;
    reached = λ n q f. elim (ℕ_discrete new n) [
      | yes at ↦ subst (Chain (update h.next prev (some new)) 0) at (
          Chain-snoc (update h.next prev (some new)) 0 prev new
            (link-Chain 0 prev (v.reached prev p u)) (update_self h.next prev (some new)))
      | no differs ↦ link-Chain 0 n (v.reached n (sym (update-ne view new n true differs) ∙ q) f)
    ];
  }
    where
      edge :
          (n m : ℕ)
          → update view new true n ≡ true
          → update h.next prev (some new) n ≡ some m
          → (update view new true m ≡ true) × (rank h n < rank h m)
      edge n m q e = elim (ℕ_discrete new n) [
        | yes at ↦
            let f : h.next prev ≡ some m =
              sym same_next ∙ sym kept_new ∙ ap (update h.next prev (some new)) at ∙ e in
            (in_view m (v.inside prev m p f), subst (λ (x : ℕ). rank h x < rank h m) at (above m f))
        | no other ↦ elim (ℕ_discrete prev n) [
          | yes at ↦
              let is_new : new ≡ m = some_injective new m (
                sym (update_self h.next prev (some new))
                ∙ ap (update h.next prev (some new)) at
                ∙ e) in
              (
                sym (ap (update view new true) is_new) ∙ update_self view new true,
                subst (λ (x : ℕ). rank h x < rank h m) at
                    (subst (λ (x : ℕ). rank h prev < rank h x) is_new below),
              )
          | no differs ↦
              let q_old = sym (update-ne view new n true other) ∙ q in
              let f = sym (update-ne h.next prev n (some new) differs) ∙ e in
              (in_view m (v.inside n m q_old f), v.ordered n m q_old f)
        ]
      ]
