-- ===== src/Queue/Views.antt =====
-- src/sync/queue.rs: the chain of linked nodes, and what each thread knows of it.
use cdpt.Base.{
  ℕ, zero, suc, ◌+◌, ◌<◌, ◌≤◌, ◌≡◌, ◌≢◌, refl, sym, ◌∙◌, arith, none, some, List, [], ◌∷◌,
}
use cdpt.Queue.{
  Thread, idle, pop_load, push_load, push_next, push_link, push_swing, push_help, pop_next,
  pop_head, pop_tail, pop_swing, retiring, Queue,
}

-- The nodes ever linked, in their order: `first` of them have been popped, then comes the sentinel,
-- then `count` nodes that hold the items. `back` is the place of `tail`.
pub record View : Type 0 where
  pub node : ℕ → ℕ
  pub first : ℕ
  pub count : ℕ
  pub back : ℕ

-- How many nodes have been linked.
abbrev pub len : View → ℕ
len v = suc (v.first + v.count)

-- The data of `n` nodes from place `p`.
unfoldable pub values : (ℕ → ℕ) → (ℕ → ℕ) → ℕ → ℕ → List ℕ
values data_of node p zero = []
values data_of node p (suc n) = data_of (node p) ∷ values data_of node (suc p) n

-- The queue is such a chain, of different nodes. `tail` is the last node or the one before.
pub record Shape (q : Queue) (v : View) : Type 0 where
  pub head_at : q.head ≡ v.node v.first
  pub tail_at : q.tail ≡ v.node v.back
  pub back_lt : v.back < len v
  pub lag : len v ≤ v.back + 2
  pub linked : (p : ℕ) → suc p < len v → q.next (v.node p) ≡ some (v.node (suc p))
  pub last : q.next (v.node (v.first + v.count)) ≡ none
  pub injective : (p r : ℕ) → p < len v → r < len v → v.node p ≡ v.node r → p ≡ r
  pub old : (p : ℕ) → p < len v → v.node p < q.allocated

-- `n` is the node at place `p`.
pub record Place (v : View) (p n : ℕ) : Type 0 where
  pub bound : p < len v
  pub here : n ≡ v.node p

-- What a thread knows.
pub data Knows (v : View) : Thread → Type 0 where
  at_idle : Knows v idle
  at_push_load : (new : ℕ) → Knows v (push_load new)
  at_push_next : (new onto p : ℕ) → Place v p onto → p ≤ v.back → Knows v (push_next new onto)
  at_push_help :
      (new onto n p : ℕ) → Place v p onto → Place v (suc p) n → Knows v (push_help new onto n)
  at_push_link : (new onto p : ℕ) → Place v p onto → p ≤ v.back → Knows v (push_link new onto)
  at_push_swing :
      (new onto p : ℕ) → Place v p onto → Place v (suc p) new → Knows v (push_swing new onto)
  at_pop_load : Knows v pop_load
  at_pop_next : (head p : ℕ) → Place v p head → p ≤ v.first → Knows v (pop_next head)
  at_pop_head : (head n p : ℕ) → Place v p head → Place v (suc p) n → Knows v (pop_head head n)
  at_pop_tail :
      (head n p : ℕ) → Place v p head → Place v (suc p) n → p < v.first → Knows v (pop_tail head n)
  at_pop_swing :
      (head n p : ℕ) → Place v p head → Place v (suc p) n → p < v.first → Knows v (pop_swing head n)
  at_retiring :
      (head n p : ℕ)
      → Place v p head
      → Place v (suc p) n
      → p < v.first
      → p < v.back
      → Knows v (retiring head n)

-- A node that a thread is about to link.
pub data Owns : Thread → ℕ → Type 0 where
  owns_load : (new : ℕ) → Owns (push_load new) new
  owns_next : (new onto : ℕ) → Owns (push_next new onto) new
  owns_help : (new onto n : ℕ) → Owns (push_help new onto n) new
  owns_link : (new onto : ℕ) → Owns (push_link new onto) new

-- It is not in the chain.
pub record Fresh (q : Queue) (v : View) (new : ℕ) : Type 0 where
  pub unused : new < q.allocated
  pub unlinked : q.next new ≡ none
  pub outside : (p : ℕ) → p < len v → v.node p ≢ new

-- The chain only grows, and `head` and `tail` only move on.
pub record Extends (v w : View) (data_of data_after : ℕ → ℕ) : Type 0 where
  pub longer : len v ≤ len w
  pub popped : v.first ≤ w.first
  pub behind : v.back ≤ w.back
  pub same_node : (p : ℕ) → p < len v → w.node p ≡ v.node p
  pub same_data : (p : ℕ) → p < len v → data_after (v.node p) ≡ data_of (v.node p)

pub Extends-refl : (v : View) (data_of : ℕ → ℕ) → Extends v v data_of data_of
Extends-refl v data_of = record {
  longer = omega arith;
  popped = omega arith;
  behind = omega arith;
  same_node = λ p h. refl;
  same_data = λ p h. refl;
}

module _ (v w : View) (data_of data_after : ℕ → ℕ) (x : Extends v w data_of data_after) where
  Place-Extends : (p n : ℕ) → Place v p n → Place w p n
  Place-Extends p n a = record {
    bound = omega (arith, a.bound, x.longer);
    here = a.here ∙ sym (x.same_node p a.bound);
  }

  pub Knows-Extends : (th : Thread) → Knows v th → Knows w th
  Knows-Extends _ at_idle = at_idle
  Knows-Extends _ (at_push_load new) = at_push_load new
  Knows-Extends _ (at_push_next new onto p a h) =
      at_push_next new onto p (Place-Extends p onto a) (omega (arith, h, x.behind))
  Knows-Extends _ (at_push_help new onto n p a b) =
      at_push_help new onto n p (Place-Extends p onto a) (Place-Extends (suc p) n b)
  Knows-Extends _ (at_push_link new onto p a h) =
      at_push_link new onto p (Place-Extends p onto a) (omega (arith, h, x.behind))
  Knows-Extends _ (at_push_swing new onto p a b) =
      at_push_swing new onto p (Place-Extends p onto a) (Place-Extends (suc p) new b)
  Knows-Extends _ at_pop_load = at_pop_load
  Knows-Extends _ (at_pop_next head p a h) =
      at_pop_next head p (Place-Extends p head a) (omega (arith, h, x.popped))
  Knows-Extends _ (at_pop_head head n p a b) =
      at_pop_head head n p (Place-Extends p head a) (Place-Extends (suc p) n b)
  Knows-Extends _ (at_pop_tail head n p a b h) =
      at_pop_tail head n p (Place-Extends p head a) (Place-Extends (suc p) n b)
        (omega (arith, h, x.popped))
  Knows-Extends _ (at_pop_swing head n p a b h) =
      at_pop_swing head n p (Place-Extends p head a) (Place-Extends (suc p) n b)
        (omega (arith, h, x.popped))
  Knows-Extends _ (at_retiring head n p a b h g) =
      at_retiring head n p (Place-Extends p head a) (Place-Extends (suc p) n b)
        (omega (arith, h, x.popped)) (omega (arith, g, x.behind))
