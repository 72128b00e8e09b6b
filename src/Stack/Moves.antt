-- ===== src/Stack/Moves.antt =====
-- examples/stack.rs: what each event means for the items of the stack.

use mathlib.Core.Path.{subst}
use cdpt.Base.{
  ℕ, ◌<◌, ◌≤◌, ◌≡◌, ◌≢◌, refl, sym, ap, ◌∙◌, arith, inl, inr, true, ◌==◌, Option, none, some, List,
  [], ◌∷◌, update, update_self, update-ne, ℕ_discrete, Bool-cases,
}
use cdpt.Stack.{
  Thread, idle, pop_load, push_load, push_store, push_cas, pop_next, pop_cas, Stack, System,
  allocate, same_top, see_top, advance, cas_top, write, is_idle, push_call, pop_call, top_label,
  move_label, take_top, if_empty, lifo_step,
}
use cdpt.Calls.{took}
use cdpt.Stack.Views.{
  owns, Public, Chain, bottom, node, Knows, at_idle, at_pop_load, at_push_load, at_push_store,
  at_push_cas, at_pop_next, at_pop_cas, Inv, Frame, moved, Public-kept, Chain-kept, moved-Inv,
  none≢some,
}

-- The specification allows the labels so far, and its items are those of the nodes from the top on.
pub record Refines (s : System) (spec : Option (List ℕ)) : Type 0 where
  pub items : List ℕ
  pub allowed : spec ≡ some items
  pub inv : Inv s
  pub chain : Chain s s.stack.top items

same_top→eq : (a b : Option ℕ) → same_top a b ≡ true → a ≡ b
unfolding same_top
same_top→eq none none h = refl
same_top→eq none (some b) h = cc
same_top→eq (some a) none h = cc
same_top→eq (some a) (some b) h = ap some (same a b h)
  where
    same : (x y : ℕ) → (x == y) ≡ true → x ≡ y
    same x y e = ground (arith, e)

empty-Chain : (s : System) (items : List ℕ) → Chain s none items → items ≡ []
empty-Chain s _ bottom = refl

if_empty_self : (items : List ℕ) → items ≡ [] → if_empty items ≡ some items
unfolding if_empty
if_empty_self [] e = refl
if_empty_self (x ∷ items) e = cc

top-Public : (s : System) (n : ℕ) (items : List ℕ) → Chain s (some n) items → Public s n
top-Public s _ _ (node n items p c) = p

below_top :
    (s : System) (n : ℕ) (items : List ℕ)
    → Chain s (some n) items
    → (rest : List ℕ) × (items ≡ s.stack.item_of n ∷ rest) × Chain s (s.stack.next n) rest
below_top s _ _ (node n items p c) = (items, refl, c)

module _ (s : System) (t : ℕ) (items : List ℕ) (v : Inv s) (c : Chain s s.stack.top items) where
  -- The nodes stay as they are, and the top becomes `top`.
  top-Frame :
      (th : Thread) (top : Option ℕ)
      → ((n : ℕ) → owns th ≡ some n → owns (s.threads t) ≡ some n)
      → Frame s t th (record s.stack { top = top })
  top-Frame th top o = record {
    grows = omega arith;
    next = λ n l e. refl;
    item = λ n l. refl;
    owned = λ n e. inl (o n e);
  }

  plain :
      (th : Thread)
      → ((n : ℕ) → owns th ≡ some n → owns (s.threads t) ≡ some n)
      → (Frame s t th s.stack → Knows (moved s t th s.stack) th)
      → Refines (moved s t th s.stack) (some items)
  plain th o k =
      let f = top-Frame th s.stack.top o in
      record {
        items = items;
        allowed = refl;
        inv = moved-Inv s t th s.stack v f (k f);
        chain = Chain-kept s t th s.stack f s.stack.top items c;
      }

  no_owner : (n : ℕ) → none ≡ some n → owns (s.threads t) ≡ some n
  no_owner n e = absurd (none≢some n e)

  push_store-Refines :
      (new : ℕ) (old : Option ℕ)
      → s.threads t ≡ push_store new old
      → new < s.stack.allocated
      → Refines
          (moved s t (push_cas new old) (record s.stack { next = update s.stack.next new old }))
          (some items)
  unfolding owns
  push_store-Refines new old at l =
      let after : Stack = record s.stack { next = update s.stack.next new old } in
      let f : Frame s t (push_cas new old) after = record {
        grows = omega arith;
        next = λ n q e. update-ne s.stack.next new n old (λ same. e (ap owns at ∙ ap some same));
        item = λ n q. refl;
        owned = λ n e. inl (ap owns at ∙ e);
      } in
      record {
        items = items;
        allowed = refl;
        inv = moved-Inv s t _ after v f (at_push_cas new old l (update_self s.stack.next new old));
        chain = Chain-kept s t _ after f s.stack.top items c;
      }

  -- The compare-exchange of `push` that wins.
  push_won-Refines :
      (new : ℕ)
      → owns (s.threads t) ≡ some new
      → new < s.stack.allocated
      → s.stack.next new ≡ s.stack.top
      → Refines
          (moved s t idle (record s.stack { top = some new }))
          (some (s.stack.item_of new ∷ items))
  unfolding owns
  push_won-Refines new mine l e =
      let after : Stack = record s.stack { top = some new } in
      let f = top-Frame idle (some new) no_owner in
      let rest = Chain-kept s t idle after f s.stack.top items c in
      record {
        items = s.stack.item_of new ∷ items;
        allowed = refl;
        inv = moved-Inv s t idle after v f at_idle;
        chain =
            node new items (record { old = l; unowned = unowned })
              (subst (λ (x : Option ℕ). Chain (moved s t idle after) x items) (sym e) rest);
      }
    where
      unowned : (u : ℕ) → owns (update s.threads t idle u) ≢ some new
      unowned u q = elim (ℕ_discrete t u) [
        | yes same ↦
            none≢some new
              (ap owns (sym (update_self s.threads t idle) ∙ ap (update s.threads t idle) same) ∙ q)
        | no differs ↦
            differs
              (v.one_owner t u new mine (ap owns (sym (update-ne s.threads t u idle differs)) ∙ q))
      ]

  -- The compare-exchange of `pop` that wins.
  pop_won-Refines :
      (old : ℕ)
      → s.stack.top ≡ some old
      → Refines
          (moved s t idle (record s.stack { top = s.stack.next old }))
          (lifo_step (took t (s.stack.item_of old)) items)
  unfolding owns lifo_step take_top
  pop_won-Refines old e =
      let after : Stack = record s.stack { top = s.stack.next old } in
      let f = top-Frame idle (s.stack.next old) no_owner in
      let (rest, q, d) = below_top s old items (subst (λ (x : Option ℕ). Chain s x items) e c) in
      let same : (s.stack.item_of old == s.stack.item_of old) ≡ true =
        itself (s.stack.item_of old) in
      rw (q, same)
        (record {
          items = rest;
          allowed = refl;
          inv = moved-Inv s t idle after v f at_idle;
          chain = Chain-kept s t idle after f (s.stack.next old) rest d;
        })
    where
      itself : (n : ℕ) → (n == n) ≡ true
      itself n = ground arith

  pop_load-Refines :
      (top : Option ℕ)
      → s.stack.top ≡ top
      → Refines (moved s t (see_top top) s.stack) (lifo_step (top_label t top) items)
  unfolding owns see_top top_label lifo_step
  pop_load-Refines none e =
      let none_left = empty-Chain s items (subst (λ (x : Option ℕ). Chain s x items) e c) in
      subst (Refines (moved s t idle s.stack)) (sym (if_empty_self items none_left))
        (plain idle no_owner (λ f. at_idle))
  pop_load-Refines (some old) e =
      let p = top-Public s old items (subst (λ (x : Option ℕ). Chain s x items) e c) in
      plain (pop_next old) no_owner
        (λ f. at_pop_next old (Public-kept s t (pop_next old) s.stack f old p))

  pub move-Refines :
      (th : Thread)
      → s.threads t ≡ th
      → Knows s th
      → Refines
          (moved s t (advance s.stack th) (write s.stack th))
          (lifo_step (move_label t s.stack th) items)
  unfolding owns advance write move_label lifo_step cas_top
  move-Refines _ at at_idle = plain idle no_owner (λ f. at_idle)
  move-Refines _ at at_pop_load = pop_load-Refines s.stack.top refl
  move-Refines _ at (at_push_load new l) =
      plain (push_store new s.stack.top) (λ n e. ap owns at ∙ e)
        (λ f. at_push_store new s.stack.top l)
  move-Refines _ at (at_push_store new old l) = push_store-Refines new old at l
  move-Refines _ at (at_push_cas new old l e) = elim (Bool-cases (same_top s.stack.top old)) [
    | inl q ↦ rw q (push_won-Refines new (ap owns at) l (e ∙ sym (same_top→eq s.stack.top old q)))
    | inr q ↦ rw q (plain (push_load new) (λ n r. ap owns at ∙ r) (λ f. at_push_load new l))
  ]
  move-Refines _ at (at_pop_next old p) =
      plain (pop_cas old (s.stack.next old)) no_owner
        (λ f. at_pop_cas old (s.stack.next old) (Public-kept s t _ s.stack f old p) refl)
  move-Refines _ at (at_pop_cas old next p e) =
      elim (Bool-cases (same_top s.stack.top (some old))) [
        | inl q ↦ rw (q, sym e) (pop_won-Refines old (same_top→eq s.stack.top (some old) q))
        | inr q ↦ rw q (plain pop_load no_owner (λ f. at_pop_load))
      ]

  pub push_call-Refines : (item : ℕ) → Refines (push_call t item s) (some items)
  unfolding push_call allocate owns
  push_call-Refines item = elim (Bool-cases (is_idle (s.threads t))) [
    | inl q ↦ rw q (record {
      items = items;
      allowed = refl;
      inv = moved-Inv s t th after v frame (at_push_load s.stack.allocated (omega arith));
      chain = Chain-kept s t th after frame s.stack.top items c;
    })
    | inr q ↦ rw q (record { items = items; allowed = refl; inv = v; chain = c })
  ]
    where
      th : Thread
      th = push_load s.stack.allocated

      after : Stack
      after = allocate item s.stack

      new_one : (x n : ℕ) → some x ≡ some n → x ≤ n
      new_one x n e = let same : x ≡ n = cc in omega (arith, same)

      frame : Frame s t th after
      frame = record {
        grows = omega arith;
        next = λ n l o.
            update-ne s.stack.next s.stack.allocated n none (λ same. omega (arith, same, l));
        item = λ n l.
            update-ne s.stack.item_of s.stack.allocated n item (λ same. omega (arith, same, l));
        owned = λ n e. inr (new_one s.stack.allocated n e);
      }

  pub pop_call-Refines : Refines (pop_call t s) (some items)
  unfolding pop_call owns
  pop_call-Refines = elim (Bool-cases (is_idle (s.threads t))) [
    | inl q ↦ rw q (plain pop_load no_owner (λ f. at_pop_load))
    | inr q ↦ rw q (record { items = items; allowed = refl; inv = v; chain = c })
  ]
