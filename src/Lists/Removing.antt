-- ===== src/Lists/Removing.antt =====
-- examples/ds/lists.rs: what the writes of `remove` mean for the map.
use mathlib.Core.Path.{subst}
use cdpt.Base.{
  ℕ, suc, ◌≡◌, ◌≢◌, ◌||◌, ◌==◌, refl, sym, ap, ◌∙◌, arith, inl, inr, Bool, true, false,
  if◌then◌else◌, Option, none, some, update, update_self, update-ne, ℕ_discrete, Bool-cases,
}
use cdpt.Lists.{Find, remove, begun, marking, cutting, returning, System, cas_wins, cas_next}
use cdpt.Lists.Spec.{internal, removed, Map, map_step}
use cdpt.Lists.Paths.{rank, Tagged, same, over}
use cdpt.Lists.Changes.{rank_key, private_change}
use cdpt.Lists.Updates.{mark_change}
use cdpt.Lists.Views.{owns, a_remove, Exact, Before, Found, at_begun, at_cutting, at_returning}
use cdpt.Lists.Tracking.{key_of, resting-Tracks}
use cdpt.Lists.Invariant.{Allows, Inv, moved}
use cdpt.Lists.Moves.{
  same_Stays, resting, no_key_left, changed, plain, cut, owns_nothing_more, opt_ptr_eq_lem,
}

module _ (view : ℕ → Bool) (s : System) (m : Map) (v : Inv view s m) (t : ℕ) where
  pub marking-Allows :
      (find : Find) (key prev curr : ℕ)
      → s.threads t ≡ marking find key prev curr
      → Exact find
      → Before view s.nodes (m.seen t) prev key
      → Found view s.nodes (m.seen t) curr key
      → (tag : Bool) → s.nodes.tagged curr ≡ tag
      → Allows
          (moved view s m v t
            (record s.nodes { tagged = update s.nodes.tagged curr true })
            (if tag then begun (remove find key) else cutting prev curr (s.nodes.next curr)))
          m
          (if tag then internal else removed t (s.nodes.value curr))
          internal
  unfolding map_step
  marking-Allows find key prev curr at x b d true u =
      changed view s m v t view _ m (begun (remove find key))
        (private_change (owns (s.threads t)) view s.nodes m.items v.shape v.related _ (omega arith)
          (λ n p. (refl, already n, refl, refl)) (λ n l. (refl, refl))
          (λ n p l o. (refl, already n)))
        (at_begun (remove find key) (a_remove find key x)) (owns_nothing_more view s m v t)
        (resting-Tracks view _ m.items (m.wanted t) (m.missed t) _
          (λ k e. (v.tracks t).key k (ap key_of at ∙ e)) (v.tracks t).present refl)
        (λ z e. same_Stays m z) refl refl
    where
      already : (n : ℕ) → update s.nodes.tagged curr true n ≡ s.nodes.tagged n
      already n = elim (ℕ_discrete curr n) [
        | yes e ↦
            sym (ap (update s.nodes.tagged curr true) e)
            ∙ update_self s.nodes.tagged curr true
            ∙ sym u
            ∙ ap s.nodes.tagged e
        | no differs ↦ update-ne s.nodes.tagged curr n true differs
      ]
  marking-Allows find key prev curr at x (p, l) d false u =
      let m2 : Map = record m {
        items = update m.items (m.wanted t) none;
        seen = update m.seen t (some (s.nodes.value curr));
        missed = λ z. (m.wanted z == m.wanted t) || m.missed z;
      } in
      changed view s m v t view _ m2 (cutting prev curr (s.nodes.next curr))
        (mark_change (owns (s.threads t)) view s.nodes m.items v.shape v.related curr (m.wanted t)
          d.shown u rank_at)
        (at_cutting prev curr (s.nodes.next curr) p d.shown (update_self s.nodes.tagged curr true)
          refl (update_self m.seen t (some (s.nodes.value curr))))
        (owns_nothing_more view s m v t)
        (resting-Tracks view _ m2.items (m.wanted t) (m2.missed t) _ (no_key_left view s m v t)
          (λ e. absurd ((other (m.wanted t) (m.wanted t) (m.missed t) e).0 refl)) refl)
        (λ z d. record {
          seen = update-ne m.seen t z (some (s.nodes.value curr)) d;
          wanted = refl;
          tracked = λ e r.
              let (differs, f) = other (m.wanted z) (m.wanted t) (m.missed z) e in
              (
                f,
                λ g. r f (
                    sym (update-ne m.items (m.wanted t) (m.wanted z) none (λ y. differs (sym y)))
                    ∙ g),
              );
        })
        (rw (opt_ptr_eq_lem (m.items (m.wanted t)) (some (s.nodes.value curr)) here_now) refl) refl
    where
      rank_at : rank s.nodes curr ≡ suc (m.wanted t)
      rank_at = d.at_key ∙ ap suc (sym ((v.tracks t).key key (ap key_of at)))

      here_now : m.items (m.wanted t) ≡ some (s.nodes.value curr)
      here_now =
          ap m.items (sym (rank_key s.nodes curr (m.wanted t) rank_at))
          ∙ v.related.present curr d.shown u (omega (arith, d.at_key))

      other : (x y : ℕ) (b : Bool) → ((x == y) || b) ≡ false → (x ≢ y) × (b ≡ false)
      other x y true e = ground (arith, e)
      other x y false e = (λ f. ground (arith, e, f), refl)

  pub cutting-Allows :
      (prev curr : ℕ) (next : Option ℕ)
      → view prev ≡ true
      → view curr ≡ true
      → s.nodes.tagged curr ≡ true
      → s.nodes.next curr ≡ next
      → m.seen t ≡ some (s.nodes.value curr)
      → Allows
          (moved view s m v t (cas_next prev (some curr) next s.nodes) (returning curr))
          m
          internal
          internal
  unfolding cas_next map_step
  cutting-Allows prev curr next p q u e d =
      let k = at_returning curr q d in
      let w0 = resting view s m v t (returning curr) (no_key_left view s m v t) refl in
      elim (Bool-cases (cas_wins s.nodes prev (some curr))) [
        | inl w ↦ rw w (
            cut view s m v t prev (some curr) next (returning curr) w p
              (over curr next q u
                (subst (λ (x : Option ℕ). Tagged view s.nodes x next) (sym e) (same next)))
              (owns_nothing_more view s m v t) k w0 refl refl)
        | inr w ↦
            rw w
              (plain view s m v t (returning curr) (owns_nothing_more view s m v t) k w0 refl refl)
      ]
