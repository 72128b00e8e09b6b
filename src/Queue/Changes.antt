-- ===== src/Queue/Changes.antt =====
-- src/sync/queue.rs: the queue against the sequence that it stands for, and changes by one thread.
use mathlib.Core.Path.{subst}
use cdpt.Base.{
  ℕ, suc, ◌≡◌, ◌≢◌, refl, sym, ap, ◌∙◌, arith, update, update_self, update-ne, ℕ_discrete, ◌⊎◌, inl,
  inr, List,
}
use cdpt.Queue.{Thread, Queue, System}
use cdpt.Queue.Views.{
  View, values, Shape, Place, Knows, Owns, Fresh, Extends, Extends-refl, Knows-Extends,
}

-- The chain is the sequence, each thread knows what its place says, and no node is about to be linked
-- by two threads.
pub record Related (s : System) (f : List ℕ) (v : View) : Type 0 where
  pub shape : Shape s.queue v
  pub items : f ≡ values s.queue.data_of v.node (suc v.first) v.count
  pub knows : (t : ℕ) → Knows v (s.threads t)
  pub fresh : (t n : ℕ) → Owns (s.threads t) n → Fresh s.queue v n
  pub apart : (t u n : ℕ) → Owns (s.threads t) n → Owns (s.threads u) n → t ≡ u

-- A change by thread `t` that keeps this.
pub record Change (s : System) (f : List ℕ) (v : View) (t : ℕ) (th : Thread) (q : Queue)
    (g : List ℕ) (w : View) : Type 0 where
  pub shape : Shape q w
  pub items : g ≡ values q.data_of w.node (suc w.first) w.count
  pub extends : Extends v w s.queue.data_of q.data_of
  pub knows : Knows w th
  pub others_fresh : (u n : ℕ) → t ≢ u → Owns (s.threads u) n → Fresh q w n
  pub own_fresh : (n : ℕ) → Owns th n → Fresh q w n
  pub alone : (u n : ℕ) → Owns th n → Owns (s.threads u) n → t ≡ u

-- What holds of the new thread and of the others holds of all.
at_thread :
    (P : Thread → Type 0) (threads : ℕ → Thread) (t u : ℕ) (th : Thread)
    → P (update threads t th u)
    → ((t ≡ u) × P th) ⊎ ((t ≢ u) × P (threads u))
at_thread P threads t u th p = elim (ℕ_discrete t u) [
  | yes same ↦
      let here = sym (ap (update threads t th) same) ∙ update_self threads t th in
      inl (same, subst P here p)
  | no differs ↦ inr (differs, subst P (update-ne threads t u th differs) p)
]

pub Change-Related :
    (s : System) (f : List ℕ) (v : View) (t : ℕ) (th : Thread) (q : Queue) (g : List ℕ) (w : View)
    → Related s f v
    → Change s f v t th q g w
    → Related (record { queue = q; threads = update s.threads t th }) g w
Change-Related s f v t th q g w r c = record {
  shape = c.shape;
  items = c.items;
  knows = knows;
  fresh = λ u n o. elim (at_thread (λ (x : Thread). Owns x n) s.threads t u th o) [
    | inl (same, here) ↦ c.own_fresh n here
    | inr (differs, there) ↦ c.others_fresh u n differs there
  ];
  apart = λ u x n a b. elim (at_thread (λ (y : Thread). Owns y n) s.threads t u th a) [
    | inl (same, here) ↦ elim (at_thread (λ (y : Thread). Owns y n) s.threads t x th b) [
      | inl (again, _) ↦ sym same ∙ again
      | inr (differs, there) ↦ sym same ∙ c.alone x n here there
    ]
    | inr (differs, there) ↦ elim (at_thread (λ (y : Thread). Owns y n) s.threads t x th b) [
      | inl (again, here) ↦ sym (c.alone u n here there) ∙ again
      | inr (_, here) ↦ r.apart u x n there here
    ]
  ];
}
  where
    knows : (u : ℕ) → Knows w (update s.threads t th u)
    knows u = elim (ℕ_discrete t u) [
      | yes same ↦
          subst (Knows w) (sym (update_self s.threads t th) ∙ ap (update s.threads t th) same)
            c.knows
      | no differs ↦
          subst (Knows w) (sym (update-ne s.threads t u th differs))
            (Knows-Extends v w s.queue.data_of q.data_of c.extends (s.threads u) (r.knows u))
    ]

module _ (s : System) (f : List ℕ) (v : View) (r : Related s f v) (t : ℕ) where
  -- Only the thread changes.
  pub quiet :
      (th : Thread)
      → Knows v th
      → ((n : ℕ) → Owns th n → Owns (s.threads t) n)
      → Change s f v t th s.queue f v
  quiet th k had = record {
    shape = r.shape;
    items = r.items;
    extends = Extends-refl v s.queue.data_of;
    knows = k;
    others_fresh = λ u n h o. r.fresh u n o;
    own_fresh = λ n o. r.fresh t n (had n o);
    alone = λ u n o other. r.apart t u n (had n o) other;
  }

  -- The tail moves from the node at place `p`, where it is, to the one after it.
  pub swings :
      (th : Thread) (new p : ℕ)
      → v.back ≡ p
      → Place v (suc p) new
      → Knows (record v { back = suc p }) th
      → ((n : ℕ) → Owns th n → Owns (s.threads t) n)
      → Change s f v t th (record s.queue { tail = new }) f (record v { back = suc p })
  swings th new p at a k had = record {
    shape = record {
      head_at = r.shape.head_at;
      tail_at = a.here;
      back_lt = a.bound;
      lag = omega (arith, r.shape.lag, at);
      linked = r.shape.linked;
      last = r.shape.last;
      injective = r.shape.injective;
      old = r.shape.old;
    };
    items = r.items;
    extends = record {
      longer = omega arith;
      popped = omega arith;
      behind = omega (arith, at);
      same_node = λ i h. refl;
      same_data = λ i h. refl;
    };
    knows = k;
    others_fresh = λ u n h o. moved n (r.fresh u n o);
    own_fresh = λ n o. moved n (r.fresh t n (had n o));
    alone = λ u n o other. r.apart t u n (had n o) other;
  }
    where
      moved :
          (n : ℕ)
          → Fresh s.queue v n
          → Fresh (record s.queue { tail = new }) (record v { back = suc p }) n
      moved n x = record { unused = x.unused; unlinked = x.unlinked; outside = x.outside }
