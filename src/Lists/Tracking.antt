-- ===== src/Lists/Tracking.antt =====
-- examples/ds/lists.rs: while the key of an operation is in the map, its node is ahead of the thread.
use mathlib.Core.Path.{subst}
use cdpt.Base.{
  ℕ, suc, ◌<◌, ◌≤◌, ◌≡◌, ◌≢◌, refl, sym, ap, ◌∙◌, arith, inl, inr, Bool, true, false, ◌==◌,
  if◌then◌else◌, Option, none, some, Bool-cases,
}
use cdpt.Lists.{
  Op, get, remove, insert, op_key, Thread, begun, visiting, cleaning, unlinking, storing, linking,
  marking, Nodes,
}
use cdpt.Lists.Paths.{
  rank, Chain, here, onward, Shape, rank-Chain, Chain-same, some_injective, true≢false,
}
use cdpt.Lists.Changes.{Changes, key_rank}
use cdpt.Lists.Frames.{rank_kept}

-- The pointer at which the thread goes on looking; a thread that has decided that the key is not there
-- looks at nothing any more.
abbrev pub position : Thread → Option (Option ℕ)
position (visiting op prev prev_next curr) = some (some curr)
position (unlinking op prev curr next) = some next
position (cleaning op false prev prev_next curr) = some none
position _ = none

abbrev pub key_of : Thread → Option ℕ
key_of (begun op) = some (op_key op)
key_of (visiting op prev prev_next curr) = some (op_key op)
key_of (cleaning op found prev prev_next curr) = some (op_key op)
key_of (unlinking op prev curr next) = some (op_key op)
key_of (storing find key new prev curr) = some key
key_of (linking find key new prev curr) = some key
key_of (marking find key prev curr) = some key
key_of _ = none

module _ (view : ℕ → Bool) (h : Nodes) where
  -- A node without tag that has the key is ahead of the pointer.
  abbrev pub Reach : ℕ → Option ℕ → Type 0
  Reach key curr =
      (n : ℕ)
      → view n ≡ true
      → h.tagged n ≡ false
      → rank h n ≡ suc key
      → (c : ℕ) × (curr ≡ some c) × (view c ≡ true) × Chain h.next c n

  -- What holds for a thread and the key that it wants.
  pub record Tracks (items : ℕ → Option ℕ) (wanted : ℕ) (missed : Bool) (th : Thread) : Type 0 where
    pub key : (k : ℕ) → key_of th ≡ some k → wanted ≡ k
    pub present : missed ≡ false → items wanted ≢ none
    pub ahead : missed ≡ false → (curr : Option ℕ) → position th ≡ some curr → Reach wanted curr

-- A thread that looks for no node.
pub resting-Tracks :
    (view : ℕ → Bool) (h : Nodes) (items : ℕ → Option ℕ) (wanted : ℕ) (missed : Bool) (th : Thread)
    → ((k : ℕ) → key_of th ≡ some k → wanted ≡ k)
    → (missed ≡ false → items wanted ≢ none)
    → position th ≡ none
    → Tracks view h items wanted missed th
resting-Tracks view h items wanted missed th k f p = record {
  key = k;
  present = f;
  ahead = λ e curr g. absurd (no_place curr (sym p ∙ g));
}
  where
    no_place : (c : Option ℕ) → ◌≢◌ {A = Option (Option ℕ)} none (some c)
    no_place c e = cc

-- What an operation needs for the answer that it gives when `find` ends it.
abbrev pub Justified : Op → Option ℕ → Bool → Type 0
Justified (get find key) seen missed = missed ≡ true
Justified (remove find key) seen missed = missed ≡ true
Justified (insert find key new) seen missed = (x : ℕ) × (seen ≡ some x)

module _ (mine : Option ℕ) (view : ℕ → Bool) (h : Nodes) (items : ℕ → Option ℕ) (view2 : ℕ → Bool)
    (after : Nodes) (items2 : ℕ → Option ℕ) (v : Shape view h)
    (c : Changes mine view h items view2 after items2) where
  Reach-kept :
      (key : ℕ) (curr : Option ℕ)
      → items key ≢ none
      → Reach view h key curr
      → Reach view2 after key curr
  Reach-kept key curr p r n q u e = elim (c.keeps.fresh key n q e) [
    | inl old ↦
        let untagged = before n old u in
        let (x, f, shown, path) =
          r n old untagged (sym (rank_kept mine view h view2 after v c.frame n old) ∙ e) in
        (x, f, c.frame.views x shown, c.keeps.paths x n shown untagged path)
    | inr free ↦ absurd (p free)
  ]
    where
      before : (n : ℕ) → view n ≡ true → after.tagged n ≡ false → h.tagged n ≡ false
      before n old u = elim (Bool-cases (h.tagged n)) [
        | inl t ↦ absurd (true≢false (sym (c.frame.tags n old t) ∙ u))
        | inr t ↦ t
      ]

  -- Other threads keep track, if the map still has their keys or they have missed them.
  pub Tracks-kept :
      (wanted : ℕ) (missed missed2 : Bool) (th : Thread)
      → (missed2 ≡ false → (missed ≡ false) × (items2 wanted ≢ none))
      → Tracks view h items wanted missed th
      → Tracks view2 after items2 wanted missed2 th
  Tracks-kept wanted missed missed2 th f a = record {
    key = a.key;
    present = λ e. (f e).1;
    ahead = λ e curr g. Reach-kept wanted curr (a.present (f e).0) (a.ahead (f e).0 curr g);
  }

module _ (view : ℕ → Bool) (h : Nodes) (v : Shape view h) where
  -- One node further.
  pub Reach-next :
      (key curr : ℕ)
      → ((n : ℕ) → h.tagged n ≡ false → rank h n ≡ suc key → curr ≢ n)
      → Reach view h key (some curr)
      → Reach view h key (h.next curr)
  Reach-next key curr d r n p u e =
      let (x, f, q, path) = r n p u e in let same = some_injective curr x f in further x path q same
    where
      further :
          (x : ℕ)
          → Chain h.next x n
          → view x ≡ true
          → curr ≡ x
          → (c : ℕ) × (h.next curr ≡ some c) × (view c ≡ true) × Chain h.next c n
      further _ (here _) q same = absurd (d n u e same)
      further _ (onward _ m _ g rest) q same = (m, ap h.next same ∙ g, v.inside _ m q g, rest)

  pub Reach-start : (key : ℕ) → Reach view h key (h.next 0)
  unfolding rank
  Reach-start key =
      Reach-next key 0 (λ n u e f. low n e f) (λ n p u e. (0, refl, v.head, v.reached n p u))
    where
      low : (n : ℕ) → (if n == 0 then 0 else suc (h.key n)) ≡ suc key → 0 ≢ n
      low n e f = ground (arith, e, f)

  -- At a node whose key is not less, the key is there only if the node is the one that has it.
  pub Reach-here :
      (key curr : ℕ)
      → 0 < rank h curr
      → key ≤ h.key curr
      → Reach view h key (some curr)
      → (n : ℕ) → view n ≡ true
      → h.tagged n ≡ false
      → rank h n ≡ suc key
      → curr ≡ n
  Reach-here key curr l g r n p u e =
      let (x, f, q, path) = r n p u e in
      let same = some_injective curr x f in
      let shown : view curr ≡ true = ap view same ∙ q in
      let path_curr = subst (λ (y : ℕ). Chain h.next y n) (sym same) path in
      Chain-same view h v curr curr n shown (here curr) path_curr
        (omega (arith, e, g, key_rank h curr l, rank-Chain view h v curr n shown path_curr))
