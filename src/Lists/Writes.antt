-- ===== src/Lists/Writes.antt =====
-- examples/ds/lists.rs: what the compare-exchanges of `find` mean for the map.
use mathlib.Core.Path.{subst}
use cdpt.Base.{
  ℕ, suc, ◌≡◌, refl, sym, ap, ◌∙◌, inl, inr, Bool, true, false, if◌then◌else◌, Option, none, some,
  Bool-cases,
}
use cdpt.Lists.{
  Op, op_key, begun, cleaning, unlinking, System, after_find, see_curr, cas_wins, cas_next,
}
use cdpt.Lists.Spec.{internal, answer, Map, map_step}
use cdpt.Lists.Paths.{Tagged, same, over, some_injective, none≢some, true≢false}
use cdpt.Lists.Views.{found, absent, missed, owns, Allowed, Before, Answer, Knows, at_begun}
use cdpt.Lists.Finding.{after_find-Knows, step_over}
use cdpt.Lists.Owning.{after_find-Owns, see_curr-Owns}
use cdpt.Lists.Tracking.{position, key_of, Reach, Tracks}
use cdpt.Lists.Searching.{after_find-Goes, see_curr-Goes}
use cdpt.Lists.Invariant.{Allows, Inv, moved}
use cdpt.Lists.Moves.{answer_lem, resting, found_there, going, plain, cut}

module _ (view : ℕ → Bool) (s : System) (m : Map) (v : Inv view s m) (t : ℕ) where
  over_one :
      (curr : ℕ) (next : Option ℕ)
      → s.nodes.next curr ≡ next
      → Tagged view s.nodes (s.nodes.next curr) next
  over_one curr next e = subst (λ (x : Option ℕ). Tagged view s.nodes x next) (sym e) (same next)

  -- A thread that tries again.
  again :
      (op : Op)
      → m.wanted t ≡ op_key op
      → Tracks view s.nodes m.items (m.wanted t) (m.missed t) (begun op)
  again op wants =
      resting view s m v t (begun op) (λ k e. wants ∙ some_injective (op_key op) k e) refl

  sure :
      (op : Op) (answer : Bool) (curr : Option ℕ)
      → Answer view s.nodes (m.seen t) op answer curr
      → answer ≡ true
      → (x : ℕ) × (m.seen t ≡ some x)
  sure _ _ _ (found op curr a) e = (s.nodes.value curr, a.value)
  sure _ _ _ (absent op curr a) e = absurd (true≢false (sym e))
  sure _ _ _ (missed find key curr) e = absurd (true≢false (sym e))

  nothing_ahead :
      (op : Op)
      → m.wanted t ≡ op_key op
      → (m.missed t ≡ false → Reach view s.nodes (m.wanted t) none)
      → m.missed t ≡ true
  nothing_ahead op wants r = elim (Bool-cases (m.missed t)) [
    | inl e ↦ e
    | inr e ↦
        let (n, p, u, f) = found_there view s m v t op wants e in
        let (c, g, q, path) = r e n p u (f ∙ ap suc (sym wants)) in absurd (none≢some c g)
  ]

  pub cleaning-Allows :
      (op : Op) (sought : Bool) (prev : ℕ) (pn curr : Option ℕ)
      → s.threads t ≡ cleaning op sought prev pn curr
      → Allowed view s.nodes (m.seen t) op
      → Before view s.nodes (m.seen t) prev (op_key op)
      → Tagged view s.nodes pn curr
      → Answer view s.nodes (m.seen t) op sought curr
      → Allows
          (moved view s m v t
            (cas_next prev pn curr s.nodes)
            (if cas_wins s.nodes prev pn then after_find op sought prev curr else begun op))
          m
          internal
          (answer t
            (some op)
            (if cas_wins s.nodes prev pn then after_find op sought prev curr else begun op))
  unfolding cas_next map_step
  cleaning-Allows op sought prev pn curr at a b w d =
      let wants = (v.tracks t).key (op_key op) (ap key_of at) in
      elim (Bool-cases (cas_wins s.nodes prev pn)) [
        | inl q ↦
            let goes =
              after_find-Goes view s.nodes v.shape (m.seen t) (m.missed t) op sought prev curr
                (sure op sought curr d)
                (λ e. nothing_ahead op wants (λ f.
                  (v.tracks t).ahead f none
                    (ap position (at ∙ ap (λ (x : Bool). cleaning op x prev pn curr) e)))) in
            rw q (
              cut view s m v t prev pn curr (after_find op sought prev curr) q b.0 w
                (λ n e. ap owns at ∙ after_find-Owns op sought prev curr n e)
                (after_find-Knows view s.nodes (m.seen t) v.shape op sought prev curr a b d)
                (going view s m v t op wants (after_find op sought prev curr) (m.seen t) goes) refl
                (answer_lem t op (after_find op sought prev curr) m goes.justified))
        | inr q ↦ rw q (
            plain view s m v t (begun op) (λ n e. ap owns at ∙ e) (at_begun op a) (again op wants)
              refl (answer_lem t op (begun op) m (λ e. cc)))
      ]

  pub unlinking-Allows :
      (op : Op) (prev curr : ℕ) (next : Option ℕ)
      → s.threads t ≡ unlinking op prev curr next
      → Allowed view s.nodes (m.seen t) op
      → Before view s.nodes (m.seen t) prev (op_key op)
      → view curr ≡ true
      → s.nodes.tagged curr ≡ true
      → s.nodes.next curr ≡ next
      → Allows
          (moved view s m v t
            (cas_next prev (some curr) next s.nodes)
            (if cas_wins s.nodes prev (some curr) then see_curr op prev next next else begun op))
          m
          internal
          (answer t
            (some op)
            (if cas_wins s.nodes prev (some curr) then see_curr op prev next next else begun op))
  unfolding cas_next map_step
  unlinking-Allows op prev curr next at a b p u e =
      let wants = (v.tracks t).key (op_key op) (ap key_of at) in
      elim (Bool-cases (cas_wins s.nodes prev (some curr))) [
        | inl q ↦
            let goes =
              see_curr-Goes view s.nodes v.shape (m.seen t) (m.missed t) op prev next next
                (found_there view s m v t op wants)
                (λ f.
                  subst (λ (x : ℕ). Reach view s.nodes x next) wants
                    ((v.tracks t).ahead f next (ap position at))) in
            rw q (
              cut view s m v t prev (some curr) next (see_curr op prev next next) q b.0
                (over curr next p u (over_one curr next e))
                (λ n f. ap owns at ∙ see_curr-Owns op prev next next n f)
                (subst (λ (x : Option ℕ). Knows view s.nodes (m.seen t) (see_curr op prev x x)) e
                  (step_over view s.nodes (m.seen t) v.shape op prev curr a b p))
                (going view s m v t op wants (see_curr op prev next next) (m.seen t) goes) refl
                (answer_lem t op (see_curr op prev next next) m goes.justified))
        | inr q ↦ rw q (
            plain view s m v t (begun op) (λ n f. ap owns at ∙ f) (at_begun op a) (again op wants)
              refl (answer_lem t op (begun op) m (λ f. cc)))
      ]
