-- ===== src/Lists/Inserting.antt =====
-- examples/ds/lists.rs: what the writes of `insert` mean for the map.
use cdpt.Base.{
  ℕ, suc, ◌≡◌, ◌≢◌, ◌≤◌, ◌<◌, refl, sym, ap, ◌∙◌, arith, ◌⊎◌, inl, inr, Bool, true, false,
  if◌then◌else◌, Option, none, some, update, update_self, update-ne, ℕ_discrete, Bool-cases,
}
use cdpt.Lists.{Find, insert, idle, begun, storing, linking, System, is_idle, cas_wins, cas_next}
use cdpt.Lists.Spec.{internal, inserted, added, Map, map_step}
use cdpt.Lists.Paths.{rank, some_injective, none≢some}
use cdpt.Lists.Links.{relink}
use cdpt.Lists.Changes.{store_change}
use cdpt.Lists.Updates.{no_key, link_change}
use cdpt.Lists.Views.{owns, Mine, an_insert, Exact, Before, After, at_idle, at_begun, at_linking}
use cdpt.Lists.Tracking.{key_of, resting-Tracks}
use cdpt.Lists.Invariant.{Allows, Inv, moved}
use cdpt.Lists.Moves.{
  same_Stays, resting, no_key_left, changed, plain, owns_nothing_more, cas_wins_lem, opt_ptr_eq_lem,
}

module _ (view : ℕ → Bool) (s : System) (m : Map) (v : Inv view s m) (t : ℕ) where
  pub storing-Allows :
      (find : Find) (key new prev : ℕ) (curr : Option ℕ)
      → s.threads t ≡ storing find key new prev curr
      → Exact find
      → Mine view s.nodes (m.seen t) key new
      → Before view s.nodes (m.seen t) prev key
      → After view s.nodes (m.seen t) curr key
      → Allows
          (moved view s m v t
            (record s.nodes {
              next = update s.nodes.next new curr;
              tagged = update s.nodes.tagged new false;
            })
            (linking find key new prev curr))
          m
          internal
          internal
  unfolding rank map_step
  storing-Allows find key new prev curr at x o b a =
      changed view s m v t view _ m (linking find key new prev curr)
        (store_change (owns (s.threads t)) view s.nodes m.items v.shape v.related new curr o.hidden
          (ap owns at))
        (at_linking find key new prev curr x
          (record { hidden = o.hidden; old = o.old; has_key = o.has_key }) b a
          (update_self s.nodes.next new curr) (update_self s.nodes.tagged new false))
        (λ n e. ap owns at ∙ e)
        (resting-Tracks view _ m.items (m.wanted t) (m.missed t) _
          (λ k e. (v.tracks t).key k (ap key_of at ∙ e)) (v.tracks t).present refl)
        (λ u e. same_Stays m u) refl refl

  pub linking-Allows :
      (find : Find) (key new prev : ℕ) (curr : Option ℕ)
      → s.threads t ≡ linking find key new prev curr
      → Exact find
      → Mine view s.nodes (m.seen t) key new
      → Before view s.nodes (m.seen t) prev key
      → After view s.nodes (m.seen t) curr key
      → s.nodes.next new ≡ curr
      → s.nodes.tagged new ≡ false
      → Allows
          (moved view s m v t
            (cas_next prev curr (some new) s.nodes)
            (if cas_wins s.nodes prev curr then idle else begun (insert find key new)))
          m
          (if cas_wins s.nodes prev curr then inserted t (s.nodes.value new) else internal)
          (if is_idle (if cas_wins s.nodes prev curr then idle else begun (insert find key new))
            then added t
            else internal)
  unfolding cas_next map_step is_idle
  linking-Allows find key new prev curr at x o (p, l) a e g =
      let wants = (v.tracks t).key key (ap key_of at) in
      elim (Bool-cases (cas_wins s.nodes prev curr)) [
        | inl q ↦
            let (u, f) = cas_wins_lem s.nodes prev curr q in
            let mine = owns (s.threads t) in
            let items2 = update m.items (m.wanted t) (some (s.nodes.value new)) in
            let below : rank s.nodes prev ≤ m.wanted t = omega (arith, l, wants) in
            let above = λ (c : ℕ) (z : s.nodes.next prev ≡ some c).
              beyond key (m.wanted t) (rank s.nodes c) wants (a c (sym f ∙ z)).1 in
            let free =
              no_key mine view s.nodes m.items v.shape v.related prev (m.wanted t) p u below
                above in
            rw q (
              changed view s m v t (update view new true) (relink s.nodes prev (some new))
                (record m { items = items2 }) idle
                (link_change mine view s.nodes m.items v.shape v.related prev new (m.wanted t)
                  (ap owns at) p u o.hidden o.old (o.has_key ∙ sym wants) g (e ∙ sym f) below above)
                at_idle (owns_nothing_more view s m v t)
                (resting-Tracks _ _ items2 (m.wanted t) (m.missed t) idle (no_key_left view s m v t)
                  (λ z. put_in (m.wanted t) (m.wanted t) (inl refl)) refl)
                (λ z d. record {
                  seen = refl;
                  wanted = refl;
                  tracked = λ h r. (h, put_in (m.wanted t) (m.wanted z) (inr (r h)));
                })
                (rw (opt_ptr_eq_lem (m.items (m.wanted t)) none free) refl) refl)
        | inr q ↦ rw q (
            plain view s m v t (begun (insert find key new)) (λ n z. ap owns at ∙ z)
              (at_begun (insert find key new) (an_insert find key new x o))
              (resting view s m v t _ (λ k z. wants ∙ some_injective key k z) refl) refl refl)
      ]
    where
      beyond : (k w r : ℕ) → w ≡ k → suc k < r → suc w < r
      beyond k w r e f = omega (arith, e, f)

      put_in :
          (k w : ℕ)
          → (k ≡ w) ⊎ (m.items w ≢ none)
          → update m.items k (some (s.nodes.value new)) w ≢ none
      put_in k w h z = elim (ℕ_discrete k w) [
        | yes at ↦ none≢some (s.nodes.value new) (
            sym z
            ∙ sym (ap (update m.items k (some (s.nodes.value new))) at)
            ∙ update_self m.items k (some (s.nodes.value new)))
        | no differs ↦ elim h [
          | inl at ↦ differs at
          | inr r ↦ r (sym (update-ne m.items k w (some (s.nodes.value new)) differs) ∙ z)
        ]
      ]
