-- ===== src/Lists/Updates.antt =====
-- examples/ds/lists.rs: what the writes to links of the list do to the chain and to the map.
use cdpt.Base.{
  ℕ, suc, ◌<◌, ◌≤◌, ◌≡◌, ◌≢◌, refl, sym, ap, ◌∙◌, arith, inl, inr, Bool, true, false, Option, none,
  some, update, update_self, update-ne, ℕ_discrete,
}
use cdpt.Lists.{Nodes}
use cdpt.Lists.Paths.{rank, Tagged, Shape, none≢some, true≢false, Chain-between, Chain-same}
use cdpt.Lists.Links.{relink, cut-Chain, cut-Shape, link-Chain, link-Shape}
use cdpt.Lists.Changes.{Related, Changes, key_rank, rank_inner}

suc_injective : (a b : ℕ) → suc a ≡ suc b → a ≡ b
suc_injective a b e = omega (arith, e)

module _ (mine : Option ℕ) (view : ℕ → Bool) (h : Nodes) (items : ℕ → Option ℕ) (v : Shape view h)
    (r : Related view h items) where
  -- Tagged nodes are cut out of the chain.
  pub cut_change :
      (prev : ℕ) (to : Option ℕ)
      → view prev ≡ true
      → h.tagged prev ≡ false
      → Tagged view h (h.next prev) to
      → Changes mine view h items view (relink h prev to) items
  unfolding rank
  cut_change prev to p u w = record {
    frame = record {
      views = λ n q. q;
      grows = omega arith;
      keys = λ n l. refl;
      values = λ n l. refl;
      tags = λ n q t. t;
      frozen =
          λ n q t. update-ne h.next prev n to (λ e. true≢false (sym t ∙ sym (ap h.tagged e) ∙ u));
      hidden = λ n q l o.
          (q, update-ne h.next prev n to (λ e. true≢false (sym p ∙ ap view e ∙ q)), refl);
    };
    keeps = record {
      paths = λ a n q t c. (cut-Chain view h v prev to p w a n t c).0;
      fresh = λ k n q e. inl q;
    };
    shape = cut-Shape view h v prev to p w;
    related = record { present = r.present; absent = r.absent };
  }

  -- No node without tag has a key between two neighbours.
  pub no_key :
      (prev k : ℕ)
      → view prev ≡ true
      → h.tagged prev ≡ false
      → rank h prev ≤ k
      → ((m : ℕ) → h.next prev ≡ some m → suc k < rank h m)
      → items k ≡ none
  no_key prev k p u l above = nothing (items k) (λ x e.
      let (n, q, t, at) = r.absent k x e in
      let (m, f, g) =
        Chain-between view h v 0 prev n v.head (v.reached prev p u) (v.reached n q t)
          (omega (arith, l, at)) in
      omega (arith, above m f, g, at))
    where
      nothing : (o : Option ℕ) → ((x : ℕ) → o ≢ some x) → o ≡ none
      nothing none f = refl
      nothing (some x) f = absurd (f x refl)

  pub link_change :
      (prev new k : ℕ)
      → mine ≡ some new
      → view prev ≡ true
      → h.tagged prev ≡ false
      → view new ≡ false
      → new < h.allocated
      → h.key new ≡ k
      → h.tagged new ≡ false
      → h.next new ≡ h.next prev
      → rank h prev ≤ k
      → ((m : ℕ) → h.next prev ≡ some m → suc k < rank h m)
      → Changes mine view h items
          (update view new true)
          (relink h prev (some new))
          (update items k (some (h.value new)))
  unfolding rank
  link_change prev new k own p u hidden old at new_tag same_next l above = record {
    frame = record {
      views = λ n q. elim (ℕ_discrete new n) [
        | yes e ↦ sym (ap (update view new true) e) ∙ update_self view new true
        | no differs ↦ update-ne view new n true differs ∙ q
      ];
      grows = omega arith;
      keys = λ n g. refl;
      values = λ n g. refl;
      tags = λ n q t. t;
      frozen = λ n q t.
          update-ne h.next prev n (some new) (λ e. true≢false (sym t ∙ sym (ap h.tagged e) ∙ u));
      hidden = λ n q g o. (
        update-ne view new n true (λ e. o (own ∙ ap some e)) ∙ q,
        update-ne h.next prev n (some new) (λ e. true≢false (sym p ∙ ap view e ∙ q)),
        refl,
      );
    };
    keeps = record {
      paths = λ a n q t c. link-Chain view h v prev new p u hidden same_next a n c;
      fresh = λ x n q e. elim (ℕ_discrete new n) [
        | yes f ↦ inr (
            ap items (suc_injective x k (sym e ∙ ap (rank h) (sym f) ∙ place))
            ∙ no_key prev k p u l above)
        | no differs ↦ inl (sym (update-ne view new n true differs) ∙ q)
      ];
    };
    shape =
        link-Shape view h v prev new p u hidden same_next old (omega (arith, l, place))
          (λ m e. omega (arith, above m e, place));
    related = record {
      present = λ n q t g. elim (ℕ_discrete new n) [
        | yes e ↦
            sym (ap (λ (x : ℕ). update items k (some (h.value new)) (h.key x)) e)
            ∙ ap (update items k (some (h.value new))) at
            ∙ update_self items k (some (h.value new))
            ∙ ap (λ (x : ℕ). some (h.value x)) e
        | no differs ↦
            let q_old = sym (update-ne view new n true differs) ∙ q in
            let was = r.present n q_old t g in
            update-ne items k (h.key n) (some (h.value new))
              (λ e. none≢some (h.value n) (sym free ∙ ap items e ∙ was))
            ∙ was
      ];
      absent = λ x y e. elim (ℕ_discrete k x) [
        | yes f ↦ (new, update_self view new true, new_tag, place ∙ ap suc f)
        | no differs ↦
            let (n, q, t, g) =
              r.absent x y (sym (update-ne items k x (some (h.value new)) differs) ∙ e) in
            (n, shown n q, t, g)
      ];
    };
  }
    where
      place : rank h new ≡ suc k
      place = rank_inner h new (λ e. true≢false (sym v.head ∙ sym (ap view e) ∙ hidden)) ∙ ap suc at

      free : items k ≡ none
      free = no_key prev k p u l above

      shown : (n : ℕ) → view n ≡ true → update view new true n ≡ true
      shown n q = elim (ℕ_discrete new n) [
        | yes e ↦ sym (ap (update view new true) e) ∙ update_self view new true
        | no differs ↦ update-ne view new n true differs ∙ q
      ]

  -- A node gets its tag.
  pub mark_change :
      (curr k : ℕ)
      → view curr ≡ true
      → h.tagged curr ≡ false
      → rank h curr ≡ suc k
      → Changes mine view h items view
          (record h { tagged = update h.tagged curr true })
          (update items k none)
  unfolding rank
  mark_change curr k p u at = record {
    frame = record {
      views = λ n q. q;
      grows = omega arith;
      keys = λ n l. refl;
      values = λ n l. refl;
      tags = λ n q t. elim (ℕ_discrete curr n) [
        | yes e ↦ sym (ap (update h.tagged curr true) e) ∙ update_self h.tagged curr true
        | no differs ↦ update-ne h.tagged curr n true differs ∙ t
      ];
      frozen = λ n q t. refl;
      hidden = λ n q l o.
          (q, refl, update-ne h.tagged curr n true (λ e. true≢false (sym p ∙ ap view e ∙ q)));
    };
    keeps = record { paths = λ a n q t c. c; fresh = λ x n q e. inl q };
    shape = record {
      head = v.head;
      old = v.old;
      inside = v.inside;
      ordered = v.ordered;
      reached = λ n q t. v.reached n q (untagged n t);
    };
    related = record {
      present = λ n q t l.
          let was = untagged n t in
          update-ne items k (h.key n) none (λ e. away n t (
            Chain-same view h v 0 curr n v.head (v.reached curr p u) (v.reached n q was)
              (at ∙ ap suc e ∙ sym (key_rank h n l))))
          ∙ r.present n q was l;
      absent = λ x y e. elim (ℕ_discrete k x) [
        | yes f ↦
            absurd (none≢some y (sym (update_self items k none) ∙ ap (update items k none) f ∙ e))
        | no differs ↦
            let (n, q, t, g) = r.absent x y (sym (update-ne items k x none differs) ∙ e) in
            (
              n,
              q,
              update-ne h.tagged curr n true
                    (λ f. differs (suc_injective k x (sym at ∙ ap (rank h) f ∙ g)))
                  ∙ t,
              g,
            )
      ];
    };
  }
    where
      away : (n : ℕ) → update h.tagged curr true n ≡ false → curr ≢ n
      away n t e =
          true≢false (sym (update_self h.tagged curr true) ∙ ap (update h.tagged curr true) e ∙ t)

      untagged : (n : ℕ) → update h.tagged curr true n ≡ false → h.tagged n ≡ false
      untagged n t = sym (update-ne h.tagged curr n true (away n t)) ∙ t
