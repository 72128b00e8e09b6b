-- ===== src/Queue/Moves.antt =====
-- src/sync/queue.rs: the accesses that change the chain: a new node, a link, and a pop.
use cdpt.Base.{
  ℕ, zero, suc, ◌+◌, ◌<◌, ◌≡◌, ◌≢◌, refl, sym, ap, ◌∙◌, arith, none, some, List, [], ◌∷◌, ◌++◌,
  update, update_self, update-ne,
}
use cdpt.Queue.{push_load, Queue, System, allocate}
use cdpt.Queue.Views.{View, len, values, at_push_load, Owns, owns_load, Fresh}
use cdpt.Queue.Changes.{Related, Change}

pub none≢some : {A : Type 0} {a : A} → none ≢ some a
none≢some h = cc

-- Contents by places that agree.
pub values_same :
    (data_of data_after node other : ℕ → ℕ) (p n : ℕ)
    → ((i : ℕ) → i < p + n → data_after (other i) ≡ data_of (node i))
    → values data_after other p n ≡ values data_of node p n
unfolding values
values_same data_of data_after node other p zero h = refl
values_same data_of data_after node other p (suc n) h =
    ap (λ (x : ℕ). x ∷ values data_after other (suc p) n) (h p (omega arith))
    ∙ ap (λ (xs : List ℕ). data_of (node p) ∷ xs)
        (values_same data_of data_after node other (suc p) n (λ i b. h i (omega (arith, b))))

pub values_snoc :
    (data_of node : ℕ → ℕ) (p n : ℕ)
    → values data_of node p (suc n) ≡ values data_of node p n ++ data_of (node (p + n)) ∷ []
unfolding values
values_snoc data_of node p zero =
    let here : p ≡ p + 0 = omega arith in ap (λ (i : ℕ). data_of (node i) ∷ []) here
values_snoc data_of node p (suc n) =
    let here : suc p + n ≡ p + suc n = omega arith in
    ap (λ (xs : List ℕ). data_of (node p) ∷ xs)
      (values_snoc data_of node (suc p) n
        ∙ ap (λ (i : ℕ). values data_of node (suc p) n ++ data_of (node i) ∷ []) here)

module _ (s : System) (f : List ℕ) (v : View) (r : Related s f v) (t : ℕ) where
  pub allocate-Change :
      (item : ℕ) → Change s f v t (push_load s.queue.allocated) (allocate item s.queue) f v
  unfolding allocate
  allocate-Change item = record {
    shape = record {
      head_at = r.shape.head_at;
      tail_at = r.shape.tail_at;
      back_lt = r.shape.back_lt;
      lag = r.shape.lag;
      linked = λ p h. other (v.node p) (r.shape.old p (omega (arith, h))) ∙ r.shape.linked p h;
      last =
          other (v.node (v.first + v.count)) (r.shape.old (v.first + v.count) (omega arith))
          ∙ r.shape.last;
      injective = r.shape.injective;
      old = λ p h. omega (arith, r.shape.old p h);
    };
    items =
        r.items
        ∙ sym (
            values_same q.data_of (update q.data_of a item) v.node v.node (suc v.first) v.count
              (λ i h. same_data i (omega (arith, h))));
    extends = record {
      longer = omega arith;
      popped = omega arith;
      behind = omega arith;
      same_node = λ p h. refl;
      same_data = same_data;
    };
    knows = at_push_load a;
    others_fresh = λ u n h o. record {
      unused = omega (arith, (r.fresh u n o).unused);
      unlinked = other n (r.fresh u n o).unused ∙ (r.fresh u n o).unlinked;
      outside = (r.fresh u n o).outside;
    };
    own_fresh = own_fresh;
    alone = alone;
  }
    where
      q : Queue
      q = s.queue

      a : ℕ
      a = q.allocated

      other : (n : ℕ) → n < a → update q.next a none n ≡ q.next n
      other n h = update-ne q.next a n none (λ e. omega (arith, h, e))

      same_data : (p : ℕ) → p < len v → update q.data_of a item (v.node p) ≡ q.data_of (v.node p)
      same_data p h = update-ne q.data_of a (v.node p) item (λ e. omega (arith, r.shape.old p h, e))

      own_fresh : (n : ℕ) → Owns (push_load a) n → Fresh (allocate item q) v n
      own_fresh _ (owns_load _) = record {
        unused = omega arith;
        unlinked = update_self q.next a none;
        outside = λ p h e. omega (arith, r.shape.old p h, e);
      }

      alone : (u n : ℕ) → Owns (push_load a) n → Owns (s.threads u) n → t ≡ u
      alone u _ (owns_load _) o = absurd (omega (arith, (r.fresh u a o).unused))
