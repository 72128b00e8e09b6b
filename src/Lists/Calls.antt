-- ===== src/Lists/Calls.antt =====
-- examples/ds/lists.rs: what the calls mean for the map.

use cdpt.Base.{
  ℕ, ◌≤◌, ◌≡◌, refl, sym, ap, ◌∙◌, arith, ◌⊎◌, inl, inr, Bool, false, none, some, update,
  update_self, update-ne, Bool-cases,
}
use cdpt.Lists.{
  Kind, h_list, hm_list, hhs_list, update_find, Op, insert, op_key, begun, Nodes, System, new_node,
  opt_ptr_eq, call_insert, call,
}
use cdpt.Lists.Spec.{called, inserting, wish, internal, Map, map_step}
use cdpt.Lists.Paths.{some_injective, true≢false}
use cdpt.Lists.Changes.{Changes, new_change}
use cdpt.Lists.Views.{op_new, owns, Allowed, an_insert, Exact, at_begun}
use cdpt.Lists.Tracking.{resting-Tracks}
use cdpt.Lists.Invariant.{Inv, Allows, Allowed-seen, moved, moved-Inv}
use cdpt.Lists.Moves.{opt_ptr_eq_lem}

pub update_find-Exact : (kind : Kind) → Exact (update_find kind)
update_find-Exact h_list e = cc
update_find-Exact hm_list e = cc
update_find-Exact hhs_list e = cc

module _ (view : ℕ → Bool) (s : System) (m : Map) (v : Inv view s m) (t : ℕ) where
  -- A call, with the nodes that it leaves.
  pub call-Allows :
      (op : Op) (after : Nodes)
      → Changes (owns (s.threads t)) view s.nodes m.items view after m.items
      → Allowed view after none op
      → ((n : ℕ) → op_new op ≡ some n → (owns (s.threads t) ≡ some n) ⊎ (s.nodes.allocated ≤ n))
      → Allows (moved view s m v t after (begun op)) m (called t (wish op) (op_key op)) internal
  unfolding map_step
  call-Allows op after c a o = record {
    view = view;
    map = m2;
    first = refl;
    second = refl;
    inv =
        moved-Inv view s m v t view after m2 (begun op) c
          (at_begun op (Allowed-seen view after none (m2.seen t) op a)) o
          (resting-Tracks view after m.items (m2.wanted t) (m2.missed t) (begun op)
            (λ k e. update_self m.wanted t (op_key op) ∙ some_injective (op_key op) k e)
            (λ e f. true≢false (
              sym (
                opt_ptr_eq_lem (m.items (op_key op)) none
                  (ap m.items (sym (update_self m.wanted t (op_key op))) ∙ f))
              ∙ sym (update_self m.missed t (opt_ptr_eq (m.items (op_key op)) none))
              ∙ e))
            refl)
          (λ u d. record {
            seen = update-ne m.seen t u none d;
            wanted = update-ne m.wanted t u (op_key op) d;
            tracked = λ e r.
                let f =
                  sym (update-ne m.missed t u (opt_ptr_eq (m.items (op_key op)) none) d) ∙ e in
                (f, r f);
          });
  }
    where
      m2 : Map
      m2 = record m {
        wanted = update m.wanted t (op_key op);
        seen = update m.seen t none;
        missed = update m.missed t (opt_ptr_eq (m.items (op_key op)) none);
      }

  pub insert_call-Allows :
      (kind : Kind) (key x : ℕ)
      → Allows (call (call_insert t kind key x) s) m (called t inserting key) internal
  unfolding call new_node
  insert_call-Allows kind key x =
      call-Allows (insert (update_find kind) key s.nodes.allocated) (new_node key x s.nodes)
        (new_change (owns (s.threads t)) view s.nodes m.items v.shape v.related key x)
        (an_insert (update_find kind) key s.nodes.allocated (update_find-Exact kind) (record {
          hidden = unseen;
          old = omega arith;
          has_key = update_self s.nodes.key s.nodes.allocated key;
        }))
        (λ n e. inr (new_one s.nodes.allocated n e))
    where
      unseen : view s.nodes.allocated ≡ false
      unseen = elim (Bool-cases (view s.nodes.allocated)) [
        | inl p ↦ absurd (omega (arith, v.shape.old s.nodes.allocated p))
        | inr p ↦ p
      ]

      new_one : (y n : ℕ) → some y ≡ some n → y ≤ n
      new_one y n e = let same : y ≡ n = cc in omega (arith, same)
