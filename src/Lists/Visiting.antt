-- ===== src/Lists/Visiting.antt =====
-- examples/ds/lists.rs: what the loads of `find` mean for the map.
use mathlib.Core.Path.{subst}
use cdpt.Base.{
  ℕ, ◌≡◌, ◌≢◌, refl, sym, ap, ◌∙◌, arith, inl, inr, Bool, true, false, not, ◌&&◌, ◌==◌,
  if◌then◌else◌, Option, some, update, update_self, update-ne, Bool-cases,
}
use cdpt.Lists.{Op, op_find, op_key, Thread, begun, visiting, System, see_curr, see_next}
use cdpt.Lists.Spec.{internal, saw, answer, Map, map_step}
use cdpt.Lists.Paths.{rank, Tagged}
use cdpt.Lists.Changes.{no_change}
use cdpt.Lists.Views.{owns, Allowed, Before, Inner}
use cdpt.Lists.Finding.{step_over, see_next-Knows}
use cdpt.Lists.Owning.{see_curr-Owns, see_next-Owns}
use cdpt.Lists.Tracking.{position, key_of, Reach, Reach-start}
use cdpt.Lists.Searching.{Goes, see_curr-Goes, see_next-Goes}
use cdpt.Lists.Invariant.{Allows, Inv, Allowed-seen, moved}
use cdpt.Lists.Moves.{opt_ptr_eq_lem, answer_lem, changed, plain, found_there, going}

module _ (view : ℕ → Bool) (s : System) (m : Map) (v : Inv view s m) (t : ℕ) where
  pub begun-Allows :
      (op : Op)
      → s.threads t ≡ begun op
      → Allowed view s.nodes (m.seen t) op
      → Allows
          (moved view s m v t s.nodes (see_curr op 0 (s.nodes.next 0) (s.nodes.next 0)))
          m
          internal
          (answer t (some op) (see_curr op 0 (s.nodes.next 0) (s.nodes.next 0)))
  unfolding rank map_step
  begun-Allows op at a =
      let th = see_curr op 0 (s.nodes.next 0) (s.nodes.next 0) in
      let wants = (v.tracks t).key (op_key op) (ap key_of at) in
      let goes =
        see_curr-Goes view s.nodes v.shape (m.seen t) (m.missed t) op 0 (s.nodes.next 0)
          (s.nodes.next 0) (found_there view s m v t op wants)
          (λ e. Reach-start view s.nodes v.shape (op_key op)) in
      plain view s m v t th
        (λ n e. ap owns at ∙ see_curr-Owns op 0 (s.nodes.next 0) (s.nodes.next 0) n e)
        (step_over view s.nodes (m.seen t) v.shape op 0 0 a (v.shape.head, omega arith)
          v.shape.head)
        (going view s m v t op wants th (m.seen t) goes) refl (answer_lem t op th m goes.justified)

  pub visiting-Allows :
      (op : Op) (prev : ℕ) (pn : Option ℕ) (curr : ℕ)
      → s.threads t ≡ visiting op prev pn curr
      → Allowed view s.nodes (m.seen t) op
      → Before view s.nodes (m.seen t) prev (op_key op)
      → Inner view s.nodes (m.seen t) curr
      → Tagged view s.nodes pn (some curr)
      → (tag : Bool) → s.nodes.tagged curr ≡ tag
      → Allows
          (moved view s m v t s.nodes
            (see_next (op_find op) op (s.nodes.key curr) tag prev pn curr (s.nodes.next curr)))
          m
          (if (s.nodes.key curr == op_key op) && not tag
            then saw t (s.nodes.value curr)
            else internal)
          (answer t
            (some op)
            (see_next (op_find op) op (s.nodes.key curr) tag prev pn curr (s.nodes.next curr)))
  unfolding map_step
  visiting-Allows op prev pn curr at a b (p, i) w tag u =
      elim (Bool-cases ((s.nodes.key curr == op_key op) && not tag)) [
        | inl q ↦
            let (e, f) = both (s.nodes.key curr) (op_key op) tag q in
            let m2 : Map = record m { seen = update m.seen t (some (s.nodes.value curr)) } in
            let sight = update_self m.seen t (some (s.nodes.value curr)) in
            let goes = goes_on (m2.seen t) (λ g h. (s.nodes.value curr, sight)) in
            changed view s m v t view s.nodes m2 th
              (no_change _ view s.nodes m.items v.shape v.related)
              (see_next-Knows view s.nodes (m2.seen t) v.shape (op_find op) op tag prev pn curr refl
                u (Allowed-seen view s.nodes (m.seen t) (m2.seen t) op a) b (p, i) w (λ g h. sight))
              owned (going view s m v t op wants th (m2.seen t) goes)
              (λ z d. record {
                seen = update-ne m.seen t z (some (s.nodes.value curr)) d;
                wanted = refl;
                tracked = λ g h. (g, h g);
              })
              (rw
                (
                  q,
                  opt_ptr_eq_lem (m.items (m.wanted t)) (some (s.nodes.value curr))
                      (ap m.items (wants ∙ sym e) ∙ v.related.present curr p (u ∙ f) i),
                )
                refl)
              (answer_lem t op th m2 goes.justified)
        | inr q ↦
            let wrong = λ (g : s.nodes.key curr ≡ op_key op) (h : tag ≡ false).
              neither (s.nodes.key curr) (op_key op) tag q g h in
            let goes = goes_on (m.seen t) (λ g h. absurd (wrong g h)) in
            plain view s m v t th owned
              (see_next-Knows view s.nodes (m.seen t) v.shape (op_find op) op tag prev pn curr refl
                u a b (p, i) w (λ g h. absurd (wrong g h)))
              (going view s m v t op wants th (m.seen t) goes) (rw q refl)
              (answer_lem t op th m goes.justified)
      ]
    where
      th : Thread
      th = see_next (op_find op) op (s.nodes.key curr) tag prev pn curr (s.nodes.next curr)

      wants : m.wanted t ≡ op_key op
      wants = (v.tracks t).key (op_key op) (ap key_of at)

      goes_on :
          (seen : Option ℕ)
          → ((s.nodes.key curr ≡ op_key op) → tag ≡ false → (x : ℕ) × (seen ≡ some x))
          → Goes view s.nodes v.shape seen (m.missed t) op th
      goes_on seen right =
          see_next-Goes view s.nodes v.shape seen (m.missed t) (op_find op) op tag prev pn curr u
            (found_there view s m v t op wants) i
            (λ e.
              subst (λ (x : ℕ). Reach view s.nodes x (some curr)) wants
                ((v.tracks t).ahead e (some curr) (ap position at)))
            right

      owned : (n : ℕ) → owns th ≡ some n → owns (s.threads t) ≡ some n
      owned n e =
          ap owns at
          ∙ see_next-Owns (op_find op) op (s.nodes.key curr) tag prev pn curr (s.nodes.next curr) n
              e

      both : (x y : ℕ) (b : Bool) → ((x == y) && not b) ≡ true → (x ≡ y) × (b ≡ false)
      both x y true e = ground (arith, e)
      both x y false e = (ground (arith, e), refl)

      neither : (x y : ℕ) (b : Bool) → ((x == y) && not b) ≡ false → x ≡ y → b ≢ false
      neither x y b e f g = ground (arith, e, f, g)
