-- ===== src/Lists/Answering.antt =====
-- examples/ds/lists.rs: in every interleaving the calls answer what they have done.
use mathlib.Core.Path.{subst}
use cdpt.Base.{
  ℕ, ◌≡◌, ◌≢◌, refl, sym, ap, ◌∙◌, arith, inl, inr, Bool, true, false, not, ◌&&◌, ◌==◌,
  if◌then◌else◌, Option, some, update, update_self, update-ne, ℕ_discrete, Bool-cases,
}
use cdpt.Lists.{
  Op, get, remove, insert, op_find, op_key, Thread, idle, panicked, begun, visiting, cleaning,
  unlinking, storing, linking, marking, cutting, returning, Nodes, System, new_node, cas_wins,
  cas_next, advance, write, is_idle, Event, call_get, call_remove, call_insert, move, call,
  next_access, thread_of, step, get_find, update_find,
}
use cdpt.Lists.Spec.{
  removing, inserting, wish, Label, internal, called, saw, removed, inserted, returned, added,
  move_label, answer, end_label, call_label, event_label, event_answer, label, answer_label,
  Pending, outside, joined, looking, taken, on_call, on_removed, on_inserted, on_returned, on_added,
  set_pending, due_step, Map,
}
use cdpt.Lists.Views.{Knows, at_cutting, at_returning}
use cdpt.Lists.Invariant.{Inv}
use cdpt.Lists.Moves.{is_idle→eq}
use cdpt.Lists.Due.{
  Due, due_idle, due_panicked, due_begun, due_visiting, due_cleaning, due_unlinking, due_storing,
  due_linking, due_marking, due_cutting, due_got, due_took, Follows, after_find-Follows,
  see_curr-Follows, see_next-Follows, Goes, silent, one_label, finds,
}

module _ (t : ℕ) (ps : ℕ → Pending) (h : Nodes) where
  linking-Goes :
      (op : Op) (new : ℕ)
      → ps t ≡ looking inserting
      → wish op ≡ inserting
      → (wins : Bool)
      → Goes h.value t ps
          (if wins then inserted t (h.value new) else internal)
          (if is_idle (if wins then idle else begun op) then added t else internal)
          (if wins then idle else begun op)
  unfolding is_idle due_step set_pending on_inserted on_added
  linking-Goes op new e w true = record {
    between = update ps t joined;
    after = update (update ps t joined) t outside;
    first = rw e refl;
    second = rw (update_self ps t joined) refl;
    own =
        subst (λ (x : Pending). Due h.value x idle)
          (sym (update_self (update ps t joined) t outside)) due_idle;
    others = λ u d. update-ne (update ps t joined) t u outside d ∙ update-ne ps t u joined d;
  }
  linking-Goes op new e w false =
      silent h.value t ps internal (begun op) refl
        (subst (λ (x : Pending). Due h.value x (begun op)) (ap looking w ∙ sym e) (due_begun op))

  marking-Goes :
      (op : Op) (prev curr : ℕ)
      → ps t ≡ looking removing
      → wish op ≡ removing
      → (tag : Bool)
      → Goes h.value t ps
          (if tag then internal else removed t (h.value curr))
          internal
          (if tag then begun op else cutting prev curr (h.next curr))
  unfolding due_step set_pending on_removed
  marking-Goes op prev curr e w true =
      silent h.value t ps internal (begun op) refl
        (subst (λ (x : Pending). Due h.value x (begun op)) (ap looking w ∙ sym e) (due_begun op))
  marking-Goes op prev curr e w false =
      one_label h.value t ps (removed t (h.value curr)) (taken (h.value curr)) _ (rw e refl)
        (due_cutting (h.value curr) prev curr (h.next curr) refl)

  seeing : (b : Bool) (v : ℕ) → due_step (if b then saw t v else internal) ps ≡ some ps
  unfolding due_step
  seeing true v = refl
  seeing false v = refl

  either :
      (op : Op) (b : Bool) (th : Thread)
      → Follows h.value op th
      → Follows h.value op (if b then th else begun op)
  either op true th f = f
  either op false th f = inr (due_begun op)

  ==-refl : (n : ℕ) → (n == n) ≡ true
  ==-refl n = ground arith

  move-Goes :
      (p : Pending) (th : Thread)
      → Due h.value p th
      → ps t ≡ p
      → Goes h.value t ps (move_label t h th) (end_label t th (advance h th)) (advance h th)
  unfolding move_label end_label answer advance due_step set_pending on_returned
  move-Goes _ _ due_idle e =
      silent h.value t ps internal idle refl
        (subst (λ (x : Pending). Due h.value x idle) (sym e) due_idle)
  move-Goes _ _ (due_panicked p) e =
      silent h.value t ps internal panicked refl (due_panicked (ps t))
  move-Goes _ _ (due_begun op) e =
      finds h.value t ps internal op _ refl e (see_curr-Follows h.value op 0 (h.next 0) (h.next 0))
  move-Goes _ _ (due_visiting op prev pn curr) e =
      finds h.value t ps _ op _
        (seeing ((h.key curr == op_key op) && not (h.tagged curr)) (h.value curr)) e
        (see_next-Follows h.value (op_find op) op (h.key curr) (h.tagged curr) prev pn curr
          (h.next curr))
  move-Goes _ _ (due_cleaning op found prev pn curr) e =
      finds h.value t ps internal op _ refl e
        (either op (cas_wins h prev pn) _ (after_find-Follows h.value op found prev curr))
  move-Goes _ _ (due_unlinking op prev curr next) e =
      finds h.value t ps internal op _ refl e
        (either op (cas_wins h prev (some curr)) _ (see_curr-Follows h.value op prev next next))
  move-Goes _ _ (due_storing f k new prev curr) e =
      silent h.value t ps internal (linking f k new prev curr) refl (
        subst (λ (x : Pending). Due h.value x (linking f k new prev curr)) (sym e)
          (due_linking f k new prev curr))
  move-Goes _ _ (due_linking f k new prev curr) e =
      linking-Goes (insert f k new) new e refl (cas_wins h prev curr)
  move-Goes _ _ (due_marking f k prev curr) e =
      marking-Goes (remove f k) prev curr e refl (h.tagged curr)
  move-Goes _ _ (due_cutting v prev curr next q) e =
      silent h.value t ps internal (returning curr) refl
        (subst (λ (x : Pending). Due h.value x (returning curr)) (sym e) (due_took v curr q))
  move-Goes _ _ (due_got curr) e =
      one_label h.value t ps (returned t (h.value curr)) outside idle (rw e refl) due_idle
  move-Goes _ _ (due_took v curr q) e =
      one_label h.value t ps (returned t (h.value curr)) outside idle (rw (e, q, ==-refl v) refl)
        due_idle

cas_next-value : (prev : ℕ) (a b : Option ℕ) (h : Nodes) → (cas_next prev a b h).value ≡ h.value
unfolding cas_next
cas_next-value prev a b h = ground arith

-- An access writes no value.
write-value : (h : Nodes) (th : Thread) → (write h th).value ≡ h.value
unfolding write
write-value h idle = refl
write-value h panicked = refl
write-value h (begun op) = refl
write-value h (visiting op prev pn curr) = refl
write-value h (cleaning op found prev pn curr) = cas_next-value prev pn curr h
write-value h (unlinking op prev curr next) = cas_next-value prev (some curr) next h
write-value h (storing f k new prev curr) = refl
write-value h (linking f k new prev curr) = cas_next-value prev curr (some new) h
write-value h (marking f k prev curr) = refl
write-value h (cutting prev curr next) = cas_next-value prev (some curr) next h
write-value h (returning curr) = refl

abbrev pub Agrees : System → (ℕ → Pending) → Type 0
Agrees s ps = (t : ℕ) → Due s.nodes.value (ps t) (s.threads t)

-- The calls allow the labels of an event, and fit the threads after it.
pub record Answers (s : System) (ps : ℕ → Pending) (l l2 : Label) : Type 0 where
  pub between : ℕ → Pending
  pub after : ℕ → Pending
  pub first : due_step l ps ≡ some between
  pub second : due_step l2 between ≡ some after
  pub agrees : Agrees s after

cutting_node :
    (view : ℕ → Bool) (h : Nodes) (seen : Option ℕ) (prev curr : ℕ) (next : Option ℕ)
    → Knows view h seen (cutting prev curr next)
    → view curr ≡ true
cutting_node view h seen prev curr next (at_cutting _ _ _ p q u e d) = q

returning_node :
    (view : ℕ → Bool) (h : Nodes) (seen : Option ℕ) (curr : ℕ)
    → Knows view h seen (returning curr)
    → view curr ≡ true
returning_node view h seen curr (at_returning _ p d) = p

idle-outside :
    (value : ℕ → ℕ) (p : Pending) (th : Thread) → Due value p th → th ≡ idle → p ≡ outside
idle-outside value _ _ due_idle e = refl
idle-outside value _ _ (due_panicked p) e = cc
idle-outside value _ _ (due_begun op) e = cc
idle-outside value _ _ (due_visiting op prev pn curr) e = cc
idle-outside value _ _ (due_cleaning op found prev pn curr) e = cc
idle-outside value _ _ (due_unlinking op prev curr next) e = cc
idle-outside value _ _ (due_storing f k new prev curr) e = cc
idle-outside value _ _ (due_linking f k new prev curr) e = cc
idle-outside value _ _ (due_marking f k prev curr) e = cc
idle-outside value _ _ (due_cutting v prev curr next q) e = cc
idle-outside value _ _ (due_got curr) e = cc
idle-outside value _ _ (due_took v curr q) e = cc

module _ (view : ℕ → Bool) (s : System) (m : Map) (v : Inv view s m) (ps : ℕ → Pending)
    (a : Agrees s ps) where
  Goes-Answers :
      (t : ℕ) (l l2 : Label) (th : Thread) (after : Nodes)
      → Goes after.value t ps l l2 th
      → ((u : ℕ) → t ≢ u → Due after.value (ps u) (s.threads u))
      → Answers (record { nodes = after; threads = update s.threads t th }) ps l l2
  Goes-Answers t l l2 th after g kept = record {
    between = g.between;
    after = g.after;
    first = g.first;
    second = g.second;
    agrees = λ u. elim (ℕ_discrete t u) [
      | yes e ↦
          subst (λ (x : ℕ). Due after.value (g.after x) (update s.threads t th x)) e
            (subst (Due after.value (g.after t)) (sym (update_self s.threads t th)) g.own)
      | no d ↦
          subst (Due after.value (g.after u)) (sym (update-ne s.threads t u th d)) (
            subst (λ (x : Pending). Due after.value x (s.threads u)) (sym (g.others u d))
              (kept u d))
    ];
  }

  -- A new node changes no value that a thread returns.
  Due-new :
      (key x u : ℕ) (p : Pending) (th : Thread)
      → Knows view s.nodes (m.seen u) th
      → Due s.nodes.value p th
      → Due (new_node key x s.nodes).value p th
  unfolding new_node
  Due-new key x u _ _ k due_idle = due_idle
  Due-new key x u _ _ k (due_panicked p) = due_panicked p
  Due-new key x u _ _ k (due_begun op) = due_begun op
  Due-new key x u _ _ k (due_visiting op prev pn curr) = due_visiting op prev pn curr
  Due-new key x u _ _ k (due_cleaning op found prev pn curr) = due_cleaning op found prev pn curr
  Due-new key x u _ _ k (due_unlinking op prev curr next) = due_unlinking op prev curr next
  Due-new key x u _ _ k (due_storing f j new prev curr) = due_storing f j new prev curr
  Due-new key x u _ _ k (due_linking f j new prev curr) = due_linking f j new prev curr
  Due-new key x u _ _ k (due_marking f j prev curr) = due_marking f j prev curr
  Due-new key x u _ _ k (due_cutting w prev curr next q) =
      let l = v.shape.old curr (cutting_node view s.nodes (m.seen u) prev curr next k) in
      due_cutting w prev curr next
        (update-ne s.nodes.value s.nodes.allocated curr x (λ e. omega (arith, e, l)) ∙ q)
  Due-new key x u _ _ k (due_got curr) = due_got curr
  Due-new key x u _ _ k (due_took w curr q) =
      let l = v.shape.old curr (returning_node view s.nodes (m.seen u) curr k) in
      due_took w curr
        (update-ne s.nodes.value s.nodes.allocated curr x (λ e. omega (arith, e, l)) ∙ q)

  -- An idle thread has no call under way.
  none_pending : (t : ℕ) → is_idle (s.threads t) ≡ true → ps t ≡ outside
  none_pending t q =
      idle-outside s.nodes.value (ps t) (s.threads t) (a t) (is_idle→eq (s.threads t) q)

  call-Goes :
      (value : ℕ → ℕ) (t key : ℕ) (op : Op)
      → ps t ≡ outside
      → Goes value t ps (called t (wish op) key) internal (begun op)
  unfolding due_step set_pending on_call
  call-Goes value t key op e =
      one_label value t ps (called t (wish op) key) (looking (wish op)) (begun op) (rw e refl)
        (due_begun op)

  calls :
      (e : Event)
      → is_idle (s.threads (thread_of e)) ≡ true
      → Answers (call e s) ps (call_label e) internal
  unfolding call call_label thread_of due_step
  calls (call_get t kind key) q =
      Goes-Answers t _ _ _ s.nodes
        (call-Goes s.nodes.value t key (get (get_find kind) key) (none_pending t q)) (λ u d. a u)
  calls (call_remove t kind key) q =
      Goes-Answers t _ _ _ s.nodes
        (call-Goes s.nodes.value t key (remove (update_find kind) key) (none_pending t q))
        (λ u d. a u)
  calls (call_insert t kind key x) q =
      Goes-Answers t _ _ _ (new_node key x s.nodes)
        (call-Goes _ t key (insert (update_find kind) key s.nodes.allocated) (none_pending t q))
        (λ u d. Due-new key x u (ps u) (s.threads u) (v.knows u) (a u))
  calls (move t) q = record { between = ps; after = ps; first = refl; second = refl; agrees = a }

  accesses : (e : Event) → Answers (next_access e s) ps (event_label e s) (event_answer e s)
  unfolding next_access event_label event_answer due_step
  accesses (call_get t kind key) = record {
    between = ps;
    after = ps;
    first = refl;
    second = refl;
    agrees = a;
  }
  accesses (call_remove t kind key) = record {
    between = ps;
    after = ps;
    first = refl;
    second = refl;
    agrees = a;
  }
  accesses (call_insert t kind key x) = record {
    between = ps;
    after = ps;
    first = refl;
    second = refl;
    agrees = a;
  }
  accesses (move t) =
      let th = s.threads t in
      let same = write-value s.nodes th in
      Goes-Answers t _ _ (advance s.nodes th) (write s.nodes th)
        (subst
          (λ (x : ℕ → ℕ).
            Goes x t ps (move_label t s.nodes th) (end_label t th (advance s.nodes th))
              (advance s.nodes th))
          (sym same) (move-Goes t ps s.nodes (ps t) th (a t) refl))
        (λ u d. subst (λ (x : ℕ → ℕ). Due x (ps u) (s.threads u)) (sym same) (a u))

  pub step-Answers : (e : Event) → Answers (step e s) ps (label e s) (answer_label e s)
  unfolding step label answer_label
  step-Answers e = elim (Bool-cases (is_idle (s.threads (thread_of e)))) [
    | inl q ↦ rw q (calls e q)
    | inr q ↦ rw q (accesses e)
  ]
