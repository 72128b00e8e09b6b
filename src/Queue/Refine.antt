-- ===== src/Queue/Refine.antt =====
-- src/sync/queue.rs: each access of a thread does what the specification says.
use mathlib.Core.Path.{subst}
use mathlib.Core.Option.{some-injective}
use cdpt.Base.{
  ℕ, suc, ◌+◌, ◌-◌, ◌<◌, ◌≤◌, ◌≡◌, ◌≢◌, refl, sym, ap, ◌∙◌, arith, some, [], ◌==◌, if◌then◌else◌,
  true, false, Bool-cases, Option-cases, inl, inr, dec_lt, List,
}
use cdpt.Queue.{
  Thread, idle, pop_load, push_load, push_next, push_link, push_help, pop_head, pop_tail, Queue,
  System, cas_tail, cas_head, cas_next, see_next, see_link, see_successor, link_label,
  successor_label, fifo_step, if_empty,
}
use cdpt.Calls.{Label, internal, took}
use cdpt.Queue.Views.{
  View, len, values, Place, Knows, at_idle, at_push_load, at_push_help, at_push_link, at_pop_load,
  at_pop_head, Owns, owns_load, owns_next, owns_help, owns_link,
}
use cdpt.Queue.Changes.{Related, Change, quiet, swings}
use cdpt.Queue.Moves.{none≢some}
use cdpt.Queue.Link.{link-Change}
use cdpt.Queue.Pop.{pop-Change, pop-fifo_step}

-- The specification allows the label, and the thread's change fits.
pub record Moves (s : System) (f : List ℕ) (v : View) (t : ℕ) (l : Label) (th : Thread) (q : Queue)
    : Type 0 where
  pub after : List ℕ
  pub view : View
  pub allowed : fifo_step l f ≡ some after
  pub change : Change s f v t th q after view

same_number : (x y : ℕ) → (x == y) ≡ true → x ≡ y
same_number x y h = ground arith

other_number : (x y : ℕ) → (x == y) ≡ false → x ≢ y
other_number x y h e = ground arith

pub self_number : (x y : ℕ) → x ≡ y → (x == y) ≡ true
self_number x y e = ground arith

module _ (s : System) (f : List ℕ) (v : View) (r : Related s f v) (t : ℕ) where
  -- An access that changes nothing but the thread, and means nothing for the sequence.
  pub silent :
      (th : Thread)
      → Knows v th
      → ((n : ℕ) → Owns th n → Owns (s.threads t) n)
      → Moves s f v t internal th s.queue
  unfolding fifo_step
  silent th k had = record {
    after = f;
    view = v;
    allowed = refl;
    change = quiet s f v r t th k had;
  }

  pub keeps_node :
      (old th : Thread)
      → s.threads t ≡ old
      → ((n : ℕ) → Owns th n → Owns old n)
      → (n : ℕ) → Owns th n
      → Owns (s.threads t) n
  keeps_node old th at had n o = subst (λ (x : Thread). Owns x n) (sym at) (had n o)

  pub successor : (p x n : ℕ) → Place v p x → s.queue.next x ≡ some n → Place v (suc p) n
  successor p x n a e = elim (dec_lt (suc p) (len v)) [
    | yes h ↦ record {
      bound = h;
      here =
          some-injective n (v.node (suc p)) (sym e ∙ ap s.queue.next a.here ∙ r.shape.linked p h);
    }
    | no h ↦
        let end : p ≡ v.first + v.count = omega (arith, a.bound) in
        absurd (
          none≢some (
            sym r.shape.last
            ∙ ap (λ (i : ℕ). s.queue.next (v.node i)) (sym end)
            ∙ ap s.queue.next (sym a.here)
            ∙ e))
  ]

  -- The compare-exchange of `tail` from `x` at place `p` to the node after it.
  pub cas_tail-Moves :
      (th : Thread) (x n p : ℕ)
      → Place v p x
      → Place v (suc p) n
      → Knows (record v { back = suc p }) th
      → (v.back ≢ p → Knows v th)
      → ((m : ℕ) → Owns th m → Owns (s.threads t) m)
      → Moves s f v t internal th (cas_tail x n s.queue)
  unfolding cas_tail fifo_step
  cas_tail-Moves th x n p a b moved stayed had = elim (Bool-cases (s.queue.tail == x)) [
    | inl e ↦
        let same : v.back ≡ p =
          r.shape.injective v.back p r.shape.back_lt a.bound
            (sym r.shape.tail_at ∙ same_number s.queue.tail x e ∙ a.here) in
        rw e (record {
          after = f;
          view = record v { back = suc p };
          allowed = refl;
          change = swings s f v r t th n p same b moved had;
        })
    | inr e ↦
        let apart : v.back ≢ p =
          λ same. other_number s.queue.tail x e (r.shape.tail_at ∙ ap v.node same ∙ sym a.here) in
        rw e (silent th (stayed apart) had)
  ]

  -- A node that has been popped is not behind the last but one place.
  pub popped_behind : (p : ℕ) → p < v.first → v.back ≢ p → p < v.back
  popped_behind p h ne = omega (arith, r.shape.lag, ne)

  pub see_next-Moves :
      (new onto p : ℕ)
      → s.threads t ≡ push_next new onto
      → Place v p onto
      → p ≤ v.back
      → Moves s f v t internal (see_next (s.queue.next onto) new onto) s.queue
  unfolding see_next
  see_next-Moves new onto p at a h = elim (Option-cases (s.queue.next onto)) [
    | inl e ↦ rw e (
        silent (push_link new onto) (at_push_link new onto p a h)
          (keeps_node (push_next new onto) (push_link new onto) at to_link))
    | inr (n, e) ↦ rw e (
        silent (push_help new onto n) (at_push_help new onto n p a (successor p onto n a e))
          (keeps_node (push_next new onto) (push_help new onto n) at (to_help n)))
  ]
    where
      to_link : (m : ℕ) → Owns (push_link new onto) m → Owns (push_next new onto) m
      to_link _ (owns_link _ _) = owns_next new onto

      to_help : (n m : ℕ) → Owns (push_help new onto n) m → Owns (push_next new onto) m
      to_help n _ (owns_help _ _ _) = owns_next new onto

  pub link-Moves :
      (new onto p : ℕ)
      → s.threads t ≡ push_link new onto
      → Place v p onto
      → p ≤ v.back
      → Moves s f v t
          (link_label t (s.queue.next onto) (s.queue.data_of new))
          (see_link (s.queue.next onto) new onto)
          (cas_next (s.queue.next onto) onto new s.queue)
  unfolding see_link cas_next link_label fifo_step
  link-Moves new onto p at a h = elim (Option-cases (s.queue.next onto)) [
    | inl e ↦ rw e (record {
      after = _;
      view = _;
      allowed = refl;
      change = link-Change s f v r t new onto p at a e h;
    })
    | inr (n, e) ↦ rw e (
        silent (push_load new) (at_push_load new)
          (keeps_node (push_link new onto) (push_load new) at to_load))
  ]
    where
      to_load : (m : ℕ) → Owns (push_load new) m → Owns (push_link new onto) m
      to_load _ (owns_load _) = owns_link new onto

  pub see_successor-Moves :
      (head p : ℕ)
      → Place v p head
      → p ≤ v.first
      → Moves s f v t
          (successor_label t (s.queue.next head))
          (see_successor (s.queue.next head) head)
          s.queue
  unfolding see_successor successor_label fifo_step if_empty values
  see_successor-Moves head p a h = elim (Option-cases (s.queue.next head)) [
    | inl e ↦
        let none_left : v.count ≡ 0 = elim (dec_lt (suc p) (len v)) [
          | yes more ↦ absurd (none≢some (sym e ∙ ap s.queue.next a.here ∙ r.shape.linked p more))
          | no last ↦ omega (arith, h)
        ] in
        let nothing : f ≡ [] =
          r.items ∙ ap (values s.queue.data_of v.node (suc v.first)) none_left in
        rw e (record {
          after = f;
          view = v;
          allowed = rw nothing refl;
          change = quiet s f v r t idle at_idle (λ m o. elim o [ ]);
        })
    | inr (n, e) ↦ rw e (
        silent (pop_head head n) (at_pop_head head n p a (successor p head n a e))
          (λ m o. elim o [ ]))
  ]

  pub pop-Moves :
      (head n p : ℕ)
      → Place v p head
      → Place v (suc p) n
      → Moves s f v t
          (if s.queue.head == head then took t (s.queue.data_of n) else internal)
          (if s.queue.head == head then pop_tail head n else pop_load)
          (cas_head head n s.queue)
  unfolding cas_head
  pop-Moves head n p a b = elim (Bool-cases (s.queue.head == head)) [
    | inl e ↦
        let here = same_number s.queue.head head e in
        let first : p ≡ v.first =
          r.shape.injective p v.first a.bound (omega arith)
            (sym a.here ∙ sym here ∙ r.shape.head_at) in
        let more : v.count ≡ suc (v.count - 1) = omega (arith, b.bound, first) in
        rw e (record {
          after = _;
          view = _;
          allowed = pop-fifo_step s f v r t head n p (v.count - 1) a b here more;
          change = pop-Change s f v r t head n p (v.count - 1) a b here more;
        })
    | inr e ↦ rw e (silent pop_load at_pop_load (λ m o. elim o [ ]))
  ]
