-- ===== src/Lists/Frames.antt =====
-- examples/ds/lists.rs: what a thread knows stays true while others go on.
use mathlib.Core.Path.{subst}
use cdpt.Base.{
  ℕ, suc, ◌<◌, ◌≤◌, ◌≡◌, ◌≢◌, refl, sym, ap, ◌∙◌, arith, Bool, true, false, ◌==◌, if◌then◌else◌,
  Option, some,
}
use cdpt.Lists.{Op, op_key, Thread, Nodes}
use cdpt.Lists.Paths.{rank, Tagged, same, over, Shape}
use cdpt.Lists.Views.{
  op_new, owns, Mine, Allowed, Before, After, Found, Answer, Knows, any_get, a_remove, an_insert,
  found, absent, missed, at_idle, at_begun, at_visiting, at_cleaning, at_unlinking, at_storing,
  at_linking, at_marking, at_cutting, at_returning,
}

-- A change by a thread that owns `mine`, which other threads do not notice.
pub record Frame (mine : Option ℕ) (view : ℕ → Bool) (h : Nodes) (view2 : ℕ → Bool) (after : Nodes)
    : Type 0 where
  pub views : (n : ℕ) → view n ≡ true → view2 n ≡ true
  pub grows : h.allocated ≤ after.allocated
  pub keys : (n : ℕ) → n < h.allocated → after.key n ≡ h.key n
  pub values : (n : ℕ) → n < h.allocated → after.value n ≡ h.value n
  pub tags : (n : ℕ) → view n ≡ true → h.tagged n ≡ true → after.tagged n ≡ true
  pub frozen : (n : ℕ) → view n ≡ true → h.tagged n ≡ true → after.next n ≡ h.next n
  pub hidden :
      (n : ℕ)
      → view n ≡ false
      → n < h.allocated
      → mine ≢ some n
      → (view2 n ≡ false) × (after.next n ≡ h.next n) × (after.tagged n ≡ h.tagged n)

pub rank-keys : (h after : Nodes) (n : ℕ) → after.key n ≡ h.key n → rank after n ≡ rank h n
unfolding rank
rank-keys h after n e = ap (λ (k : ℕ). if n == 0 then 0 else suc k) e

module _ (mine : Option ℕ) (view : ℕ → Bool) (h : Nodes) (view2 : ℕ → Bool) (after : Nodes)
    (v : Shape view h) (f : Frame mine view h view2 after) where
  pub rank_kept : (n : ℕ) → view n ≡ true → rank after n ≡ rank h n
  rank_kept n p = rank-keys h after n (f.keys n (v.old n p))

  pub Tagged-kept : (a b : Option ℕ) → Tagged view h a b → Tagged view2 after a b
  Tagged-kept _ _ (same a) = same a
  Tagged-kept _ _ (over n b p t rest) = over n b (f.views n p) (f.tags n p t) (
      subst (λ (x : Option ℕ). Tagged view2 after x b) (sym (f.frozen n p t))
        (Tagged-kept (h.next n) b rest))

  pub Before-kept :
      (n k : ℕ) (seen : Option ℕ) → Before view h seen n k → Before view2 after seen n k
  Before-kept n k seen (p, l) = (f.views n p, omega (arith, l, rank_kept n p))

  pub After-kept :
      (curr : Option ℕ) (k : ℕ) (seen : Option ℕ)
      → After view h seen curr k
      → After view2 after seen curr k
  After-kept curr k seen a c e =
      let (p, l) = a c e in (f.views c p, omega (arith, l, rank_kept c p))

  pub value_kept :
      (n : ℕ) (seen : Option ℕ)
      → view n ≡ true
      → seen ≡ some (h.value n)
      → seen ≡ some (after.value n)
  value_kept n seen p e = e ∙ ap some (sym (f.values n (v.old n p)))

  pub Found-kept :
      (curr k : ℕ) (seen : Option ℕ) → Found view h seen curr k → Found view2 after seen curr k
  Found-kept curr k seen a = record {
    shown = f.views curr a.shown;
    at_key = rank_kept curr a.shown ∙ a.at_key;
    value = value_kept curr seen a.shown a.value;
  }

  pub Answer-kept :
      (op : Op) (b : Bool) (curr : Option ℕ) (seen : Option ℕ)
      → Answer view h seen op b curr
      → Answer view2 after seen op b curr
  Answer-kept _ _ _ seen (found op curr a) = found op curr (Found-kept curr (op_key op) seen a)
  Answer-kept _ _ _ seen (absent op curr a) = absent op curr (After-kept curr (op_key op) seen a)
  Answer-kept _ _ _ seen (missed find key curr) = missed find key curr

  pub Mine-kept :
      (key new : ℕ) (seen : Option ℕ)
      → mine ≢ some new
      → Mine view h seen key new
      → Mine view2 after seen key new
  Mine-kept key new seen o m = record {
    hidden = (f.hidden new m.hidden m.old o).0;
    old = omega (arith, m.old, f.grows);
    has_key = f.keys new m.old ∙ m.has_key;
  }

  pub Allowed-kept :
      (op : Op) (seen : Option ℕ)
      → ((n : ℕ) → op_new op ≡ some n → mine ≢ some n)
      → Allowed view h seen op
      → Allowed view2 after seen op
  Allowed-kept _ seen o (any_get find key) = any_get find key
  Allowed-kept _ seen o (a_remove find key x) = a_remove find key x
  Allowed-kept _ seen o (an_insert find key new x m) =
      an_insert find key new x (Mine-kept key new seen (o new refl) m)

  -- What another thread knows stays true.
  pub Knows-kept :
      (th : Thread) (seen : Option ℕ)
      → ((n : ℕ) → owns th ≡ some n → mine ≢ some n)
      → Knows view h seen th
      → Knows view2 after seen th
  Knows-kept _ seen o at_idle = at_idle
  Knows-kept _ seen o (at_begun op a) = at_begun op (Allowed-kept op seen o a)
  Knows-kept _ seen o (at_visiting op prev prev_next curr a b (p, i) w) =
      at_visiting op prev prev_next curr (Allowed-kept op seen o a)
        (Before-kept prev (op_key op) seen b) (f.views curr p, omega (arith, i, rank_kept curr p))
        (Tagged-kept prev_next (some curr) w)
  Knows-kept _ seen o (at_cleaning op answer prev prev_next curr a b w d) =
      at_cleaning op answer prev prev_next curr (Allowed-kept op seen o a)
        (Before-kept prev (op_key op) seen b) (Tagged-kept prev_next curr w)
        (Answer-kept op answer curr seen d)
  Knows-kept _ seen o (at_unlinking op prev curr next a b p t e) =
      at_unlinking op prev curr next (Allowed-kept op seen o a)
        (Before-kept prev (op_key op) seen b) (f.views curr p) (f.tags curr p t)
        (f.frozen curr p t ∙ e)
  Knows-kept _ seen o (at_storing find key new prev curr x m b a) =
      at_storing find key new prev curr x (Mine-kept key new seen (o new refl) m)
        (Before-kept prev key seen b) (After-kept curr key seen a)
  Knows-kept _ seen o (at_linking find key new prev curr x m b a e t) =
      at_linking find key new prev curr x (Mine-kept key new seen (o new refl) m)
        (Before-kept prev key seen b) (After-kept curr key seen a)
        ((f.hidden new m.hidden m.old (o new refl)).1 ∙ e)
        ((f.hidden new m.hidden m.old (o new refl)).2 ∙ t)
  Knows-kept _ seen o (at_marking find key prev curr x b d) =
      at_marking find key prev curr x (Before-kept prev key seen b) (Found-kept curr key seen d)
  Knows-kept _ seen o (at_cutting prev curr next p q t e d) =
      at_cutting prev curr next (f.views prev p) (f.views curr q) (f.tags curr q t)
        (f.frozen curr q t ∙ e) (value_kept curr seen q d)
  Knows-kept _ seen o (at_returning curr p d) =
      at_returning curr (f.views curr p) (value_kept curr seen p d)
