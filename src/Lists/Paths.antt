-- ===== src/Lists/Paths.antt =====
-- examples/ds/lists.rs: chains of nodes in the order of their keys.
use mathlib.Core.Path.{subst}
use cdpt.Base.{
  ℕ, suc, ◌<◌, ◌≤◌, ◌≡◌, ◌≢◌, refl, sym, ◌∙◌, arith, Bool, true, false, ◌==◌, if◌then◌else◌, Option,
  none, some,
}
use cdpt.Lists.{Nodes}

-- The place of a node in the order: the dummy head comes first.
unfoldable pub rank : Nodes → ℕ → ℕ
rank h n = if n == 0 then 0 else suc (h.key n)

-- The links lead from one node to another.
pub data Chain (next : ℕ → Option ℕ) : ℕ → ℕ → Type 0 where
  here : (n : ℕ) → Chain next n n
  onward : (a b c : ℕ) → next a ≡ some b → Chain next b c → Chain next a c

-- From one pointer to another over tagged nodes.
pub data Tagged (view : ℕ → Bool) (h : Nodes) : Option ℕ → Option ℕ → Type 0 where
  same : (a : Option ℕ) → Tagged view h a a
  over :
      (n : ℕ) (b : Option ℕ)
      → view n ≡ true
      → h.tagged n ≡ true
      → Tagged view h (h.next n) b
      → Tagged view h (some n) b

-- `view` are the nodes that have been put into the list. Links lead to greater keys, and each node
-- without tag can be reached from the head.
pub record Shape (view : ℕ → Bool) (h : Nodes) : Type 0 where
  pub head : view 0 ≡ true
  pub old : (n : ℕ) → view n ≡ true → n < h.allocated
  pub inside : (n m : ℕ) → view n ≡ true → h.next n ≡ some m → view m ≡ true
  pub ordered : (n m : ℕ) → view n ≡ true → h.next n ≡ some m → rank h n < rank h m
  pub reached : (n : ℕ) → view n ≡ true → h.tagged n ≡ false → Chain h.next 0 n

pub some_injective : (a b : ℕ) → ◌≡◌ {A = Option ℕ} (some a) (some b) → a ≡ b
some_injective a b e = cc

pub none≢some : (x : ℕ) → none ≢ some x
none≢some x e = cc

pub true≢false : true ≢ false
true≢false e = cc

module _ (view : ℕ → Bool) (h : Nodes) (v : Shape view h) where
  pub Chain-view : (a b : ℕ) → view a ≡ true → Chain h.next a b → view b ≡ true
  Chain-view a _ p (here _) = p
  Chain-view a c p (onward _ b _ e rest) = Chain-view b c (v.inside a b p e) rest

  pub rank-Chain : (a b : ℕ) → view a ≡ true → Chain h.next a b → rank h a ≤ rank h b
  rank-Chain a _ p (here _) = omega arith
  rank-Chain a c p (onward _ b _ e rest) =
      omega (arith, v.ordered a b p e, rank-Chain b c (v.inside a b p e) rest)

  -- The ranks over tagged nodes grow.
  pub Tagged-bound :
      (from to : Option ℕ) (k b : ℕ)
      → Tagged view h from to
      → ((n : ℕ) → from ≡ some n → (view n ≡ true) × (k ≤ rank h n))
      → to ≡ some b
      → (view b ≡ true) × (k ≤ rank h b)
  Tagged-bound _ _ k b (same _) p e = p b e
  Tagged-bound _ to k b (over m _ q t rest) p e =
      Tagged-bound (h.next m) to k b rest
        (λ n f. (v.inside m n q f, omega (arith, v.ordered m n q f, (p m refl).1))) e

  after_start :
      (a c : ℕ)
      → view a ≡ true
      → Chain h.next a c
      → rank h a < rank h c
      → (n : ℕ) × (h.next a ≡ some n) × (rank h n ≤ rank h c)
  after_start a _ p (here _) l = absurd (omega (arith, l))
  after_start a c p (onward _ m _ e rest) l = (m, e, rank-Chain m c (v.inside a m p e) rest)

  -- Of two nodes on paths from one node, the one with the lesser rank comes first.
  pub Chain-between :
      (a b c : ℕ)
      → view a ≡ true
      → Chain h.next a b
      → Chain h.next a c
      → rank h b < rank h c
      → (n : ℕ) × (h.next b ≡ some n) × (rank h n ≤ rank h c)
  Chain-between a _ c p (here _) q l = after_start a c p q l
  Chain-between a b _ p (onward _ m _ e rest) (here _) l =
      absurd (omega (arith, l, rank-Chain a b p (onward a m b e rest)))
  Chain-between a b c p (onward _ m _ e rest) (onward _ k _ f more) l =
      Chain-between m b c (v.inside a m p e) rest
        (subst (λ (x : ℕ). Chain h.next x c) (some_injective k m (sym f ∙ e)) more) l

  -- Two nodes of one rank on paths from one node are the same.
  pub Chain-same :
      (a b c : ℕ)
      → view a ≡ true
      → Chain h.next a b
      → Chain h.next a c
      → rank h b ≡ rank h c
      → b ≡ c
  Chain-same a _ _ p (here _) (here _) l = refl
  Chain-same a _ c p (here _) (onward _ m _ e rest) l =
      absurd (omega (arith, l, v.ordered a m p e, rank-Chain m c (v.inside a m p e) rest))
  Chain-same a b _ p (onward _ m _ e rest) (here _) l =
      absurd (omega (arith, l, v.ordered a m p e, rank-Chain m b (v.inside a m p e) rest))
  Chain-same a b c p (onward _ m _ e rest) (onward _ k _ f more) l =
      Chain-same m b c (v.inside a m p e) rest
        (subst (λ (x : ℕ). Chain h.next x c) (some_injective k m (sym f ∙ e)) more) l

-- One node more at the end.
pub Chain-snoc :
    (next : ℕ → Option ℕ) (a b c : ℕ) → Chain next a b → next b ≡ some c → Chain next a c
Chain-snoc next a _ c (here _) e = onward a c c e (here c)
Chain-snoc next a b c (onward _ m _ f rest) e = onward a m c f (Chain-snoc next m b c rest e)

-- One tagged node more at the end.
pub Tagged-snoc :
    (view : ℕ → Bool) (h : Nodes) (from to : Option ℕ) (b : ℕ)
    → Tagged view h from to
    → to ≡ some b
    → view b ≡ true
    → h.tagged b ≡ true
    → Tagged view h from (h.next b)
Tagged-snoc view h _ to b (same _) e p t =
    subst (λ (x : Option ℕ). Tagged view h x (h.next b)) (sym e)
      (over b (h.next b) p t (same (h.next b)))
Tagged-snoc view h _ to b (over n _ q u rest) e p t =
    over n (h.next b) q u (Tagged-snoc view h (h.next n) to b rest e p t)
