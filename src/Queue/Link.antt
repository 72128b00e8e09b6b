-- ===== src/Queue/Link.antt =====
-- src/sync/queue.rs: the compare-exchange that links a node at the end of the chain.
use mathlib.Core.Path.{subst}
use cdpt.Base.{
  ℕ, suc, ◌+◌, ◌<◌, ◌≤◌, ◌≡◌, ◌≢◌, refl, sym, ap, ◌∙◌, arith, none, some, List, [], ◌∷◌, ◌++◌,
  update, update_self, update-ne, ℕ_discrete, dec_lt,
}
use cdpt.Queue.{Thread, push_link, push_swing, Queue, System}
use cdpt.Queue.Views.{View, len, values, Shape, Place, at_push_swing, Owns, owns_link, Fresh}
use cdpt.Queue.Changes.{Related, Change}
use cdpt.Queue.Moves.{none≢some, values_same, values_snoc}

module _ (s : System) (f : List ℕ) (v : View) (r : Related s f v) (t new onto p : ℕ)
    (at : s.threads t ≡ push_link new onto) (a : Place v p onto)
    (free : s.queue.next onto ≡ none) where
  -- Only the last node has no successor.
  last_place : p ≡ v.first + v.count
  last_place = elim (dec_lt (suc p) (len v)) [
    | yes h ↦ absurd (none≢some (sym free ∙ ap s.queue.next a.here ∙ r.shape.linked p h))
    | no h ↦ omega (arith, a.bound)
  ]

  fresh_new : Fresh s.queue v new
  fresh_new = r.fresh t new (subst (λ (x : Thread). Owns x new) (sym at) (owns_link new onto))

  new≢onto : new ≢ onto
  new≢onto e = fresh_new.outside p a.bound (sym a.here ∙ sym e)

  abbrev linked_queue : Queue
  linked_queue = record s.queue { next = update s.queue.next onto (some new) }

  abbrev linked_view : View
  linked_view = record v { node = update v.node (len v) new; count = suc v.count }

  kept : (i : ℕ) → i < len v → linked_view.node i ≡ v.node i
  kept i h = update-ne v.node (len v) i new (λ e. omega (arith, h, e))

  added : linked_view.node (len v) ≡ new
  added = update_self v.node (len v) new

  inner : (i : ℕ) → i < len v → i ≢ p → s.queue.next (v.node i) ≡ linked_queue.next (v.node i)
  inner i h ne = sym (
      update-ne s.queue.next onto (v.node i) (some new)
        λ e. ne (r.shape.injective i p h a.bound (sym e ∙ a.here)))

  links :
      (i : ℕ)
      → suc i < suc (len v)
      → linked_queue.next (linked_view.node i) ≡ some (linked_view.node (suc i))
  links i h = elim (ℕ_discrete i p) [
    | yes same ↦
        let end : suc i ≡ len v = omega (arith, last_place, same) in
        ap linked_queue.next (kept i (omega (arith, h)) ∙ ap v.node same ∙ sym a.here)
        ∙ update_self s.queue.next onto (some new)
        ∙ ap some (sym (ap linked_view.node end ∙ added))
    | no differs ↦
        let below : suc i < len v = omega (arith, h, last_place, differs) in
        ap linked_queue.next (kept i (omega (arith, h)))
        ∙ sym (inner i (omega (arith, h)) differs)
        ∙ r.shape.linked i below
        ∙ ap some (sym (kept (suc i) below))
  ]

  end_free : linked_queue.next (linked_view.node (v.first + suc v.count)) ≡ none
  end_free =
      let end : v.first + suc v.count ≡ len v = omega arith in
      ap linked_queue.next (ap linked_view.node end ∙ added)
      ∙ update-ne s.queue.next onto new (some new) (λ e. new≢onto (sym e))
      ∙ fresh_new.unlinked

  node_outside : (i n : ℕ) → i < suc (len v) → Fresh s.queue v n → new ≢ n → linked_view.node i ≢ n
  node_outside i n h x ne e = elim (ℕ_discrete i (len v)) [
    | yes end ↦ ne (sym (ap linked_view.node end ∙ added) ∙ e)
    | no inside ↦
        let below : i < len v = omega (arith, h, inside) in
        x.outside i below (sym (kept i below) ∙ e)
  ]

  differ :
      (i j : ℕ)
      → i < suc (len v)
      → j < suc (len v)
      → linked_view.node i ≡ linked_view.node j
      → i ≡ j
  differ i j hi hj e = elim (ℕ_discrete i (len v)) [
    | yes iend ↦ elim (ℕ_discrete j (len v)) [
      | yes jend ↦ iend ∙ sym jend
      | no jin ↦
          let below : j < len v = omega (arith, hj, jin) in
          absurd (
            fresh_new.outside j below
              (sym (kept j below) ∙ sym e ∙ ap linked_view.node iend ∙ added))
    ]
    | no iin ↦
        let below : i < len v = omega (arith, hi, iin) in
        elim (ℕ_discrete j (len v)) [
          | yes jend ↦ absurd (
              fresh_new.outside i below (sym (kept i below) ∙ e ∙ ap linked_view.node jend ∙ added))
          | no jin ↦
              let under : j < len v = omega (arith, hj, jin) in
              r.shape.injective i j below under (sym (kept i below) ∙ e ∙ kept j under)
        ]
  ]

  bounded : (i : ℕ) → i < suc (len v) → linked_view.node i < s.queue.allocated
  bounded i h = elim (ℕ_discrete i (len v)) [
    | yes end ↦
        subst (λ (x : ℕ). x < s.queue.allocated) (sym (ap linked_view.node end ∙ added))
          fresh_new.unused
    | no inside ↦
        let below : i < len v = omega (arith, h, inside) in
        subst (λ (x : ℕ). x < s.queue.allocated) (sym (kept i below)) (r.shape.old i below)
  ]

  -- The items get the data of the new node at their end.
  snoc_items :
      f ++ s.queue.data_of new ∷ []
      ≡ values s.queue.data_of linked_view.node (suc v.first) (suc v.count)
  snoc_items =
      let end : suc v.first + v.count ≡ len v = omega arith in
      let old =
        values_same s.queue.data_of s.queue.data_of v.node linked_view.node (suc v.first) v.count
          (λ i h. ap s.queue.data_of (kept i (omega (arith, h)))) in
      ap (λ (xs : List ℕ). xs ++ s.queue.data_of new ∷ []) (r.items ∙ sym old)
      ∙ ap
          (λ (x : ℕ).
            values s.queue.data_of linked_view.node (suc v.first) v.count ++ s.queue.data_of x ∷ [])
          (sym (ap linked_view.node end ∙ added))
      ∙ sym (values_snoc s.queue.data_of linked_view.node (suc v.first) v.count)

  linked-Shape : p ≤ v.back → Shape linked_queue linked_view
  linked-Shape h = record {
    head_at = r.shape.head_at ∙ sym (kept v.first (omega arith));
    tail_at = r.shape.tail_at ∙ sym (kept v.back r.shape.back_lt);
    back_lt = omega (arith, r.shape.back_lt);
    lag = omega (arith, h, last_place);
    linked = λ i b. links i (omega (arith, b));
    last = end_free;
    injective = λ i j b c. differ i j (omega (arith, b)) (omega (arith, c));
    old = λ i b. bounded i (omega (arith, b));
  }

  still_fresh : (u n : ℕ) → t ≢ u → Owns (s.threads u) n → Fresh linked_queue linked_view n
  still_fresh u n ne o =
      let x = r.fresh u n o in
      let mine : Owns (s.threads t) new =
        subst (λ (y : Thread). Owns y new) (sym at) (owns_link new onto) in
      let differs : new ≢ n = λ e. ne (r.apart t u n (subst (Owns (s.threads t)) e mine) o) in
      record {
        unused = x.unused;
        unlinked =
            update-ne s.queue.next onto n (some new) (λ e. x.outside p a.bound (sym a.here ∙ e))
            ∙ x.unlinked;
        outside = λ i b. node_outside i n (omega (arith, b)) x differs;
      }

  pub link-Change :
      p ≤ v.back
      → Change s f v t
          (push_swing new onto)
          linked_queue
          (f ++ s.queue.data_of new ∷ [])
          linked_view
  link-Change h = record {
    shape = linked-Shape h;
    items = snoc_items;
    extends = record {
      longer = omega arith;
      popped = omega arith;
      behind = omega arith;
      same_node = kept;
      same_data = λ i b. refl;
    };
    knows =
        at_push_swing new onto p
          (record { bound = omega (arith, a.bound); here = a.here ∙ sym (kept p a.bound) })
          (record {
            bound = omega (arith, last_place);
            here = sym (ap linked_view.node (omega (arith, last_place)) ∙ added);
          });
    others_fresh = still_fresh;
    own_fresh = λ n o. elim o [ ];
    alone = λ u n o. elim o [ ];
  }
