-- ===== src/Lists/Changes.antt =====
-- examples/ds/lists.rs: what each write does to the chain of nodes and to the map that it stands for.
use mathlib.Core.Path.{subst}
use cdpt.Base.{
  ℕ, suc, ◌<◌, ◌≤◌, ◌≡◌, ◌≢◌, refl, sym, ap, ◌∙◌, arith, ◌⊎◌, inl, Bool, true, false, Option, none,
  some, update, update-ne,
}
use cdpt.Lists.{Nodes, new_node}
use cdpt.Lists.Paths.{rank, Chain, here, onward, Shape, true≢false}
use cdpt.Lists.Frames.{Frame, rank-keys}

-- The map has the keys of the nodes without tag, but for the dummy head.
pub record Related (view : ℕ → Bool) (h : Nodes) (items : ℕ → Option ℕ) : Type 0 where
  pub present :
      (n : ℕ)
      → view n ≡ true
      → h.tagged n ≡ false
      → 0 < rank h n
      → items (h.key n) ≡ some (h.value n)
  pub absent :
      (k x : ℕ)
      → items k ≡ some x
      → (n : ℕ) × (view n ≡ true) × (h.tagged n ≡ false) × (rank h n ≡ suc k)

pub rank_key : (h : Nodes) (n k : ℕ) → rank h n ≡ suc k → h.key n ≡ k
unfolding rank
rank_key h n k e = ground (arith, e)

pub key_rank : (h : Nodes) (n : ℕ) → 0 < rank h n → rank h n ≡ suc (h.key n)
unfolding rank
key_rank h n l = ground (arith, l)

pub rank_inner : (h : Nodes) (n : ℕ) → n ≢ 0 → rank h n ≡ suc (h.key n)
unfolding rank
rank_inner h n l = ground (arith, l)

-- Paths to nodes without tag are kept, and a key of the list that is new was not in the map.
pub record Keeps (view : ℕ → Bool) (h : Nodes) (items : ℕ → Option ℕ) (view2 : ℕ → Bool)
    (after : Nodes) : Type 0 where
  pub paths :
      (a n : ℕ) → view a ≡ true → h.tagged n ≡ false → Chain h.next a n → Chain after.next a n
  pub fresh : (k n : ℕ) → view2 n ≡ true → rank after n ≡ suc k → (view n ≡ true) ⊎ (items k ≡ none)

-- What a write leaves.
pub record Changes (mine : Option ℕ) (view : ℕ → Bool) (h : Nodes) (items : ℕ → Option ℕ)
    (view2 : ℕ → Bool) (after : Nodes) (items2 : ℕ → Option ℕ) : Type 0 where
  pub frame : Frame mine view h view2 after
  pub keeps : Keeps view h items view2 after
  pub shape : Shape view2 after
  pub related : Related view2 after items2

module _ (mine : Option ℕ) (view : ℕ → Bool) (h : Nodes) (items : ℕ → Option ℕ) (v : Shape view h)
    (r : Related view h items) where
  pub no_change : Changes mine view h items view h items
  no_change = record {
    frame = record {
      views = λ n p. p;
      grows = omega arith;
      keys = λ n l. refl;
      values = λ n l. refl;
      tags = λ n p q. q;
      frozen = λ n p q. refl;
      hidden = λ n p l o. (p, refl, refl);
    };
    keeps = record { paths = λ a n p u c. c; fresh = λ k n p e. inl p };
    shape = v;
    related = r;
  }

  -- Nodes of the list stay as they are.
  private-Chain :
      (after : Nodes)
      → ((n : ℕ) → view n ≡ true → after.next n ≡ h.next n)
      → (a b : ℕ) → view a ≡ true
      → Chain h.next a b
      → Chain after.next a b
  private-Chain after f a _ p (here _) = here a
  private-Chain after f a b p (onward _ m _ e rest) =
      onward a m b (f a p ∙ e) (private-Chain after f m b (v.inside a m p e) rest)

  pub private_change :
      (after : Nodes)
      → h.allocated ≤ after.allocated
      → ((n : ℕ)
          → view n ≡ true
          → (after.next n ≡ h.next n)
            × (after.tagged n ≡ h.tagged n)
            × (after.key n ≡ h.key n)
            × (after.value n ≡ h.value n))
      → ((n : ℕ) → n < h.allocated → (after.key n ≡ h.key n) × (after.value n ≡ h.value n))
      → ((n : ℕ)
          → view n ≡ false
          → n < h.allocated
          → mine ≢ some n
          → (after.next n ≡ h.next n) × (after.tagged n ≡ h.tagged n))
      → Changes mine view h items view after items
  private_change after g f k o = record {
    frame = record {
      views = λ n p. p;
      grows = g;
      keys = λ n l. (k n l).0;
      values = λ n l. (k n l).1;
      tags = λ n p q. (f n p).1 ∙ q;
      frozen = λ n p q. (f n p).0;
      hidden = λ n p l q. (p, (o n p l q).0, (o n p l q).1);
    };
    keeps = record {
      paths = λ a n p u c. private-Chain after (λ x q. (f x q).0) a n p c;
      fresh = λ k n p e. inl p;
    };
    shape = record {
      head = v.head;
      old = λ n p. omega (arith, v.old n p, g);
      inside = λ n m p e. v.inside n m p (sym (f n p).0 ∙ e);
      ordered = λ n m p e.
          let q = v.inside n m p (sym (f n p).0 ∙ e) in
          let l = v.ordered n m p (sym (f n p).0 ∙ e) in
          omega (arith, l, rank-keys h after n (f n p).2, rank-keys h after m (f m q).2);
      reached = λ n p u.
          private-Chain after (λ x q. (f x q).0) 0 n v.head (v.reached n p (sym (f n p).1 ∙ u));
    };
    related = record {
      present = λ n p u l.
          ap items (f n p).2
          ∙ r.present n p (sym (f n p).1 ∙ u)
              (subst (λ (x : ℕ). 0 < x) (rank-keys h after n (f n p).2) l)
          ∙ ap some (sym (f n p).3);
      absent = λ x y e.
          let (n, p, u, q) = r.absent x y e in
          (n, p, (f n p).1 ∙ u, rank-keys h after n (f n p).2 ∙ q);
    };
  }

  -- `insert` writes to its own node.
  pub store_change :
      (new : ℕ) (curr : Option ℕ)
      → view new ≡ false
      → mine ≡ some new
      → Changes mine view h items view
          (record h { next = update h.next new curr; tagged = update h.tagged new false })
          items
  store_change new curr hidden own =
      private_change _ (omega arith)
        (λ n p.
          let differs : new ≢ n = λ e. true≢false (sym p ∙ sym (ap view e) ∙ hidden) in
          (update-ne h.next new n curr differs, update-ne h.tagged new n false differs, refl, refl))
        (λ n l. (refl, refl))
        (λ n p l o.
          let differs : new ≢ n = λ e. o (own ∙ ap some e) in
          (update-ne h.next new n curr differs, update-ne h.tagged new n false differs))

  pub new_change : (k x : ℕ) → Changes mine view h items view (new_node k x h) items
  unfolding new_node
  new_change k x =
      private_change _ (omega arith)
        (λ n p.
          let fresh = differs n (v.old n p) in
          (
            update-ne h.next h.allocated n none fresh,
            update-ne h.tagged h.allocated n false fresh,
            update-ne h.key h.allocated n k fresh,
            update-ne h.value h.allocated n x fresh,
          ))
        (λ n l. (
          update-ne h.key h.allocated n k (differs n l),
          update-ne h.value h.allocated n x (differs n l),
        ))
        (λ n p l o. (
          update-ne h.next h.allocated n none (differs n l),
          update-ne h.tagged h.allocated n false (differs n l),
        ))
    where
      differs : (n : ℕ) → n < h.allocated → h.allocated ≢ n
      differs n l e = omega (arith, e, l)
