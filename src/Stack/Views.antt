-- ===== src/Stack/Views.antt =====
-- examples/stack.rs: what each thread knows of the nodes, and the items of the stack.
use mathlib.Core.Path.{subst}
use cdpt.Base.{
  ℕ, ◌<◌, ◌≤◌, ◌≡◌, ◌≢◌, refl, sym, ap, ◌∙◌, arith, ◌⊎◌, inl, inr, Option, none, some, List, [],
  ◌∷◌, update, update_self, update_once, update-ne, ℕ_discrete,
}
use cdpt.Stack.{
  Thread, idle, pop_load, push_load, push_store, push_cas, pop_next, pop_cas, Stack, System,
}

-- The node that a thread has not put on the stack yet.
unfoldable pub owns : Thread → Option ℕ
owns (push_load new) = some new
owns (push_store new old) = some new
owns (push_cas new old) = some new
owns thread = none

-- A node that has been put on the stack, and may have been taken off it.
pub record Public (s : System) (n : ℕ) : Type 0 where
  pub old : n < s.stack.allocated
  pub unowned : (u : ℕ) → owns (s.threads u) ≢ some n

-- The items from a node on.
pub data Chain (s : System) : Option ℕ → List ℕ → Type 0 where
  bottom : Chain s none []
  node :
      (n : ℕ) (items : List ℕ)
      → Public s n
      → Chain s (s.stack.next n) items
      → Chain s (some n) (s.stack.item_of n ∷ items)

pub data Knows (s : System) : Thread → Type 0 where
  at_idle : Knows s idle
  at_pop_load : Knows s pop_load
  at_push_load : (new : ℕ) → new < s.stack.allocated → Knows s (push_load new)
  at_push_store :
      (new : ℕ) (old : Option ℕ) → new < s.stack.allocated → Knows s (push_store new old)
  at_push_cas :
      (new : ℕ) (old : Option ℕ)
      → new < s.stack.allocated
      → s.stack.next new ≡ old
      → Knows s (push_cas new old)
  at_pop_next : (old : ℕ) → Public s old → Knows s (pop_next old)
  at_pop_cas :
      (old : ℕ) (next : Option ℕ)
      → Public s old
      → s.stack.next old ≡ next
      → Knows s (pop_cas old next)

pub record Inv (s : System) : Type 0 where
  pub knows : (t : ℕ) → Knows s (s.threads t)
  pub one_owner : (t u n : ℕ) → owns (s.threads t) ≡ some n → owns (s.threads u) ≡ some n → t ≡ u

-- Thread `t` goes on as `th`, and writes to no node but its own and new ones.
pub record Frame (s : System) (t : ℕ) (th : Thread) (after : Stack) : Type 0 where
  pub grows : s.stack.allocated ≤ after.allocated
  pub next :
      (n : ℕ) → n < s.stack.allocated → owns (s.threads t) ≢ some n → after.next n ≡ s.stack.next n
  pub item : (n : ℕ) → n < s.stack.allocated → after.item_of n ≡ s.stack.item_of n
  pub owned : (n : ℕ) → owns th ≡ some n → (owns (s.threads t) ≡ some n) ⊎ (s.stack.allocated ≤ n)

abbrev pub moved : System → ℕ → Thread → Stack → System
moved s t th after = record { stack = after; threads = update s.threads t th }

module _ (s : System) (t : ℕ) (th : Thread) (after : Stack) (f : Frame s t th after) where
  pub Public-kept : (n : ℕ) → Public s n → Public (moved s t th after) n
  Public-kept n p = record {
    old = omega (arith, p.old, f.grows);
    unowned = λ u e. elim (ℕ_discrete t u) [
      | yes same ↦
          let mine : owns th ≡ some n =
            ap owns (sym (update_self s.threads t th) ∙ ap (update s.threads t th) same) ∙ e in
          elim (f.owned n mine) [ inl was ↦ p.unowned t was | inr new ↦ omega (arith, new, p.old) ]
      | no differs ↦ p.unowned u (ap owns (sym (update-ne s.threads t u th differs)) ∙ e)
    ];
  }

  pub Chain-kept :
      (top : Option ℕ) (items : List ℕ) → Chain s top items → Chain (moved s t th after) top items
  Chain-kept _ _ bottom = bottom
  Chain-kept _ _ (node n items p c) =
      let rest : Chain (moved s t th after) (after.next n) items =
        subst (λ (x : Option ℕ). Chain (moved s t th after) x items)
          (sym (f.next n p.old (p.unowned t))) (Chain-kept (s.stack.next n) items c) in
      subst (λ (x : ℕ). Chain (moved s t th after) (some n) (x ∷ items)) (f.item n p.old)
        (node n items (Public-kept n p) rest)

  -- Another thread does not notice.
  pub Knows-kept :
      (other : Thread)
      → ((n : ℕ) → owns other ≡ some n → owns (s.threads t) ≢ some n)
      → Knows s other
      → Knows (moved s t th after) other
  unfolding owns
  Knows-kept _ o at_idle = at_idle
  Knows-kept _ o at_pop_load = at_pop_load
  Knows-kept _ o (at_push_load new l) = at_push_load new (omega (arith, l, f.grows))
  Knows-kept _ o (at_push_store new old l) = at_push_store new old (omega (arith, l, f.grows))
  Knows-kept _ o (at_push_cas new old l e) =
      at_push_cas new old (omega (arith, l, f.grows)) (f.next new l (o new refl) ∙ e)
  Knows-kept _ o (at_pop_next old p) = at_pop_next old (Public-kept old p)
  Knows-kept _ o (at_pop_cas old next p e) =
      at_pop_cas old next (Public-kept old p) (f.next old p.old (p.unowned t) ∙ e)

  -- A node that the thread owns from now on is owned by no other thread.
  owns_alone :
      Inv s
      → ((u n : ℕ) → owns (s.threads u) ≡ some n → n < s.stack.allocated)
      → (u n : ℕ) → t ≢ u
      → owns th ≡ some n
      → owns (s.threads u) ≢ some n
  owns_alone v bound u n differs mine e = elim (f.owned n mine) [
    | inl was ↦ differs (v.one_owner t u n was e)
    | inr new ↦ omega (arith, new, bound u n e)
  ]

pub none≢some : (x : ℕ) → none ≢ some x
none≢some x e = cc

-- An owned node has been allocated.
owned_old :
    (s : System) (th : Thread) (n : ℕ) → Knows s th → owns th ≡ some n → n < s.stack.allocated
unfolding owns
owned_old s _ n at_idle e = absurd (none≢some n e)
owned_old s _ n at_pop_load e = absurd (none≢some n e)
owned_old s _ n (at_push_load new l) e = let same : new ≡ n = cc in omega (arith, same, l)
owned_old s _ n (at_push_store new old l) e = let same : new ≡ n = cc in omega (arith, same, l)
owned_old s _ n (at_push_cas new old l q) e = let same : new ≡ n = cc in omega (arith, same, l)
owned_old s _ n (at_pop_next old p) e = absurd (none≢some n e)
owned_old s _ n (at_pop_cas old next p q) e = absurd (none≢some n e)

pub moved-Inv :
    (s : System) (t : ℕ) (th : Thread) (after : Stack)
    → Inv s
    → Frame s t th after
    → Knows (moved s t th after) th
    → Inv (moved s t th after)
moved-Inv s t th after v f k = record {
  knows = λ u. elim (ℕ_discrete t u) [
    | yes same ↦
        subst (Knows (moved s t th after))
          (sym (update_self s.threads t th) ∙ ap (update s.threads t th) same) k
    | no differs ↦ subst (Knows (moved s t th after)) (sym (update-ne s.threads t u th differs)) (
        Knows-kept s t th after f (s.threads u) (λ n p q. differs (v.one_owner t u n q p))
          (v.knows u))
  ];
  one_owner = update_once owns s.threads t th v.one_owner (λ n e u f. alone u n f e);
}
  where
    alone : (u n : ℕ) → t ≢ u → owns th ≡ some n → owns (s.threads u) ≢ some n
    alone = owns_alone s t th after f v (λ u n e. owned_old s (s.threads u) n (v.knows u) e)
