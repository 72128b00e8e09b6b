-- ===== src/Queue/Pop.antt =====
-- src/sync/queue.rs: the compare-exchange that takes the first item.
use cdpt.Base.{ℕ, suc, ◌+◌, ◌≡◌, refl, sym, ap, ◌∙◌, arith, some, List, ◌∷◌, ◌==◌, true}
use cdpt.Queue.{pop_tail, Queue, System, take_first, fifo_step}
use cdpt.Calls.{took}
use cdpt.Queue.Views.{View, values, Place, at_pop_tail, Fresh}
use cdpt.Queue.Changes.{Related, Change}

==-refl : (n : ℕ) → (n == n) ≡ true
==-refl n = ground arith

module _ (s : System) (f : List ℕ) (v : View) (r : Related s f v) (t head n p c : ℕ)
    (a : Place v p head) (b : Place v (suc p) n) (is_head : s.queue.head ≡ head)
    (counted : v.count ≡ suc c) where
  at_first : p ≡ v.first
  at_first =
      r.shape.injective p v.first a.bound (omega arith) (sym a.here ∙ sym is_head ∙ r.shape.head_at)

  next_at : n ≡ v.node (suc v.first)
  next_at = b.here ∙ ap (λ (i : ℕ). v.node (suc i)) at_first

  abbrev rest : List ℕ
  rest = values s.queue.data_of v.node (suc (suc v.first)) c

  items_now : f ≡ s.queue.data_of n ∷ rest
  unfolding values
  items_now =
      r.items
      ∙ ap (values s.queue.data_of v.node (suc v.first)) counted
      ∙ ap (λ (x : ℕ). s.queue.data_of x ∷ rest) (sym next_at)

  -- The specification takes the same item.
  pub pop-fifo_step : fifo_step (took t (s.queue.data_of n)) f ≡ some rest
  unfolding fifo_step take_first
  pop-fifo_step = rw (items_now, ==-refl (s.queue.data_of n)) refl

  abbrev popped_queue : Queue
  popped_queue = record s.queue { head = n }

  abbrev popped_view : View
  popped_view = record v { first = suc v.first; count = c }

  still_fresh : (m : ℕ) → Fresh s.queue v m → Fresh popped_queue popped_view m
  still_fresh m x = record {
    unused = x.unused;
    unlinked = x.unlinked;
    outside = λ i h. x.outside i (omega (arith, h, counted));
  }

  pub pop-Change : Change s f v t (pop_tail head n) popped_queue rest popped_view
  pop-Change = record {
    shape = record {
      head_at = next_at;
      tail_at = r.shape.tail_at;
      back_lt = omega (arith, r.shape.back_lt, counted);
      lag = omega (arith, r.shape.lag, counted);
      linked = λ i h. r.shape.linked i (omega (arith, h, counted));
      last =
          let end : suc v.first + c ≡ v.first + v.count = omega (arith, counted) in
          ap (λ (i : ℕ). s.queue.next (v.node i)) end ∙ r.shape.last;
      injective =
          λ i j h g. r.shape.injective i j (omega (arith, h, counted)) (omega (arith, g, counted));
      old = λ i h. r.shape.old i (omega (arith, h, counted));
    };
    items = refl;
    extends = record {
      longer = omega (arith, counted);
      popped = omega arith;
      behind = omega arith;
      same_node = λ i h. refl;
      same_data = λ i h. refl;
    };
    knows =
        at_pop_tail head n p (record { bound = omega (arith, a.bound, counted); here = a.here })
          (record { bound = omega (arith, b.bound, counted); here = b.here })
          (omega (arith, at_first));
    others_fresh = λ u m ne o. still_fresh m (r.fresh u m o);
    own_fresh = λ m o. elim o [ ];
    alone = λ u m o. elim o [ ];
  }
