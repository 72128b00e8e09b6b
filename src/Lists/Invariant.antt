-- ===== src/Lists/Invariant.antt =====
-- examples/ds/lists.rs: what holds between the nodes, the threads and the map that they stand for.
use mathlib.Core.Path.{subst}
use cdpt.Base.{
  ℕ, ◌<◌, ◌≤◌, ◌≡◌, ◌≢◌, sym, arith, ◌⊎◌, inl, inr, Bool, false, Option, none, some, update,
  update_self, update-ne, update_once, ℕ_discrete,
}
use cdpt.Lists.{Op, Thread, Nodes, System}
use cdpt.Lists.Spec.{Label, Map, map_step}
use cdpt.Lists.Paths.{Shape, some_injective, none≢some}
use cdpt.Lists.Changes.{Related, Changes}
use cdpt.Lists.Tracking.{Tracks, Tracks-kept}
use cdpt.Lists.Views.{
  op_new, owns, Mine, Allowed, any_get, a_remove, an_insert, Knows, at_idle, at_begun, at_visiting,
  at_cleaning, at_unlinking, at_storing, at_linking, at_marking, at_cutting, at_returning,
}
use cdpt.Lists.Frames.{Knows-kept}

pub record Inv (view : ℕ → Bool) (s : System) (m : Map) : Type 0 where
  pub shape : Shape view s.nodes
  pub related : Related view s.nodes m.items
  pub knows : (t : ℕ) → Knows view s.nodes (m.seen t) (s.threads t)
  pub tracks : (t : ℕ) → Tracks view s.nodes m.items (m.wanted t) (m.missed t) (s.threads t)
  pub one_owner : (t u n : ℕ) → owns (s.threads t) ≡ some n → owns (s.threads u) ≡ some n → t ≡ u

-- The specification allows the labels so far, and its map is that of the nodes.
pub record Refines (s : System) (spec : Option Map) : Type 0 where
  pub view : ℕ → Bool
  pub map : Map
  pub allowed : spec ≡ some map
  pub inv : Inv view s map

-- The specification allows two labels, the second of which leaves the map as it is.
pub record Allows (s : System) (m : Map) (l l2 : Label) : Type 0 where
  pub view : ℕ → Bool
  pub map : Map
  pub first : map_step l m ≡ some map
  pub second : map_step l2 map ≡ some map
  pub inv : Inv view s map

-- What a label leaves for a thread that it is not about.
pub record Stays (m m2 : Map) (u : ℕ) : Type 0 where
  pub seen : m2.seen u ≡ m.seen u
  pub wanted : m2.wanted u ≡ m.wanted u
  pub tracked :
      m2.missed u ≡ false
      → (m.missed u ≡ false → m.items (m.wanted u) ≢ none)
      → (m.missed u ≡ false) × (m2.items (m.wanted u) ≢ none)

-- What a thread may do does not depend on what it has seen.
pub Mine-seen :
    (view : ℕ → Bool) (h : Nodes) (a b : Option ℕ) (key new : ℕ)
    → Mine view h a key new
    → Mine view h b key new
Mine-seen view h a b key new m = record { hidden = m.hidden; old = m.old; has_key = m.has_key }

pub Allowed-seen :
    (view : ℕ → Bool) (h : Nodes) (a b : Option ℕ)
    → (op : Op) → Allowed view h a op
    → Allowed view h b op
Allowed-seen view h a b _ (any_get f k) = any_get f k
Allowed-seen view h a b _ (a_remove f k x) = a_remove f k x
Allowed-seen view h a b _ (an_insert f k new x m) =
    an_insert f k new x (Mine-seen view h a b k new m)

module _ (view : ℕ → Bool) (h : Nodes) (seen : Option ℕ) where
  Allowed-old : (op : Op) (n : ℕ) → Allowed view h seen op → op_new op ≡ some n → n < h.allocated
  Allowed-old _ n (any_get f k) e = absurd (none≢some n e)
  Allowed-old _ n (a_remove f k x) e = absurd (none≢some n e)
  Allowed-old _ n (an_insert f k new x m) e =
      subst (λ (y : ℕ). y < h.allocated) (some_injective new n e) m.old

  owned_old : (th : Thread) (n : ℕ) → Knows view h seen th → owns th ≡ some n → n < h.allocated
  owned_old _ n at_idle e = absurd (none≢some n e)
  owned_old _ n (at_begun op a) e = Allowed-old op n a e
  owned_old _ n (at_visiting op prev pn curr a b i w) e = Allowed-old op n a e
  owned_old _ n (at_cleaning op answer prev pn curr a b w d) e = Allowed-old op n a e
  owned_old _ n (at_unlinking op prev curr next a b p t g) e = Allowed-old op n a e
  owned_old _ n (at_storing f k new prev curr x m b d) e =
      subst (λ (y : ℕ). y < h.allocated) (some_injective new n e) m.old
  owned_old _ n (at_linking f k new prev curr x m b d g t) e =
      subst (λ (y : ℕ). y < h.allocated) (some_injective new n e) m.old
  owned_old _ n (at_marking f k prev curr x b d) e = absurd (none≢some n e)
  owned_old _ n (at_cutting prev curr next p q t g d) e = absurd (none≢some n e)
  owned_old _ n (at_returning curr p d) e = absurd (none≢some n e)

module _ (view : ℕ → Bool) (s : System) (m : Map) (v : Inv view s m) (t : ℕ) where
  -- Thread `t` goes on as `th`, and leaves the nodes as `after`.
  abbrev pub moved : Nodes → Thread → System
  moved after th = record { nodes = after; threads = update s.threads t th }

  pub moved-Inv :
      (view2 : ℕ → Bool) (after : Nodes) (m2 : Map) (th : Thread)
      → Changes (owns (s.threads t)) view s.nodes m.items view2 after m2.items
      → Knows view2 after (m2.seen t) th
      → ((n : ℕ) → owns th ≡ some n → (owns (s.threads t) ≡ some n) ⊎ (s.nodes.allocated ≤ n))
      → Tracks view2 after m2.items (m2.wanted t) (m2.missed t) th
      → ((u : ℕ) → t ≢ u → Stays m m2 u)
      → Inv view2 (moved after th) m2
  moved-Inv view2 after m2 th c k o w other = record {
    shape = c.shape;
    related = c.related;
    knows = λ u. elim (ℕ_discrete t u) [
      | yes e ↦
          subst (λ (x : ℕ). Knows view2 after (m2.seen x) (update s.threads t th x)) e
            (subst (Knows view2 after (m2.seen t)) (sym (update_self s.threads t th)) k)
      | no differs ↦
          subst (Knows view2 after (m2.seen u)) (sym (update-ne s.threads t u th differs)) (
            Knows-kept (owns (s.threads t)) view s.nodes view2 after v.shape c.frame (s.threads u)
              (m2.seen u) (λ n e f. differs (v.one_owner t u n f e))
              (subst (λ (x : Option ℕ). Knows view s.nodes x (s.threads u))
                (sym (other u differs).seen) (v.knows u)))
    ];
    tracks = λ u. elim (ℕ_discrete t u) [
      | yes e ↦
          subst
            (λ (x : ℕ).
              Tracks view2 after m2.items (m2.wanted x) (m2.missed x) (update s.threads t th x))
            e
            (subst (Tracks view2 after m2.items (m2.wanted t) (m2.missed t))
              (sym (update_self s.threads t th)) w)
      | no differs ↦
          let stays = other u differs in
          subst (Tracks view2 after m2.items (m2.wanted u) (m2.missed u))
            (sym (update-ne s.threads t u th differs))
            (subst (λ (x : ℕ). Tracks view2 after m2.items x (m2.missed u) (s.threads u))
              (sym stays.wanted)
              (Tracks-kept (owns (s.threads t)) view s.nodes m.items view2 after m2.items v.shape c
                (m.wanted u) (m.missed u) (m2.missed u) (s.threads u)
                (λ e. stays.tracked e (v.tracks u).present) (v.tracks u)))
    ];
    one_owner = update_once owns s.threads t th v.one_owner (λ x e u differs f. elim (o x e) [
      | inl g ↦ differs (v.one_owner t u x g f)
      | inr l ↦ omega (arith, l, owned_old view s.nodes (m.seen u) (s.threads u) x (v.knows u) f)
    ]);
  }
