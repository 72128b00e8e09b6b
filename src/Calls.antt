-- ===== src/Calls.antt =====
-- src/sync/queue.rs, examples/stack.rs: what the callers of a concurrent stack or queue see, and the
-- moments at which its calls take effect.
use mathlib.Core.Option
use cdpt.Base.{
  ℕ, ◌≡◌, ◌≢◌, refl, sym, ap, ◌∙◌, arith, Bool, true, false, ◌==◌, if◌then◌else◌, Option, none,
  some, List, [], ◌∷◌, update, update_self, update-ne, ℕ_discrete,
}

-- Thread `t` calls `push` or `pop`, puts its item in, takes an item out, finds none, or returns; a
-- `push` returns nothing, as a `pop` does that has found none.
pub data Label : Type 0 where
  internal : Label
  called_push put took : (t item : ℕ) → Label
  called_pop met_none : (t : ℕ) → Label
  returned : (t : ℕ) (answer : Option ℕ) → Label

-- What a caller still has to see: a call takes effect once, and then returns.
pub data Pending : Type 0 where
  outside popping : Pending
  pushing : (item : ℕ) → Pending
  finished : (answer : Option ℕ) → Pending

unfoldable pub same_answer : Option ℕ → Option ℕ → Bool
same_answer none none = true
same_answer none (some b) = false
same_answer (some a) none = false
same_answer (some a) (some b) = a == b

-- What the pending call allows, `none` where it does not allow the label.
unfoldable pub start_call : Pending → Pending → Option Pending
start_call p outside = some p
start_call p popping = none
start_call p (pushing item) = none
start_call p (finished answer) = none

unfoldable pub finish_push : ℕ → Pending → Option Pending
finish_push x (pushing item) = if x == item then some (finished none) else none
finish_push x outside = none
finish_push x popping = none
finish_push x (finished answer) = none

unfoldable pub finish_pop : Option ℕ → Pending → Option Pending
finish_pop answer popping = some (finished answer)
finish_pop answer outside = none
finish_pop answer (pushing item) = none
finish_pop answer (finished old) = none

unfoldable pub leave_call : Option ℕ → Pending → Option Pending
leave_call answer (finished due) = if same_answer answer due then some outside else none
leave_call answer outside = none
leave_call answer popping = none
leave_call answer (pushing item) = none

unfoldable pub set_pending : ℕ → (ℕ → Pending) → Option Pending → Option (ℕ → Pending)
set_pending t ps none = none
set_pending t ps (some p) = some (update ps t p)

unfoldable pub pending_step : Label → (ℕ → Pending) → Option (ℕ → Pending)
pending_step internal ps = some ps
pending_step (called_push t item) ps = set_pending t ps (start_call (pushing item) (ps t))
pending_step (called_pop t) ps = set_pending t ps (start_call popping (ps t))
pending_step (put t item) ps = set_pending t ps (finish_push item (ps t))
pending_step (took t item) ps = set_pending t ps (finish_pop (some item) (ps t))
pending_step (met_none t) ps = set_pending t ps (finish_pop none (ps t))
pending_step (returned t answer) ps = set_pending t ps (leave_call answer (ps t))

unfoldable pub pending_run : List Label → (ℕ → Pending) → Option (ℕ → Pending)
pending_run [] ps = some ps
pending_run (l ∷ labels) ps = Option.bind (pending_step l ps) (pending_run labels)

==-refl : (n : ℕ) → (n == n) ≡ true
==-refl n = ground arith

same_answer_self : (a : Option ℕ) → same_answer a a ≡ true
unfolding same_answer
same_answer_self none = refl
same_answer_self (some a) = ==-refl a

-- Thread `t` goes on with two labels, and its call becomes `p`.
pub record Goes (t : ℕ) (ps : ℕ → Pending) (l l2 : Label) (p : Pending) : Type 0 where
  pub between : ℕ → Pending
  pub after : ℕ → Pending
  pub first : pending_step l ps ≡ some between
  pub second : pending_step l2 between ≡ some after
  pub own : after t ≡ p
  pub others : (u : ℕ) → t ≢ u → after u ≡ ps u

module _ (t : ℕ) (ps : ℕ → Pending) where
  -- Whether the pending calls become these.
  abbrev pub Sets : Label → Pending → Type 0
  Sets l p = pending_step l ps ≡ some (update ps t p)

  pub put-Sets : (x : ℕ) → ps t ≡ pushing x → Sets (put t x) (finished none)
  unfolding pending_step set_pending finish_push
  put-Sets x e = rw (e, ==-refl x) refl

  pub took-Sets : (x : ℕ) → ps t ≡ popping → Sets (took t x) (finished (some x))
  unfolding pending_step set_pending finish_pop
  took-Sets x e = rw e refl

  pub met_none-Sets : ps t ≡ popping → Sets (met_none t) (finished none)
  unfolding pending_step set_pending finish_pop
  met_none-Sets e = rw e refl

  pub returned-Sets : (a : Option ℕ) → ps t ≡ finished a → Sets (returned t a) outside
  unfolding pending_step set_pending leave_call
  returned-Sets a e = rw (e, same_answer_self a) refl

  pub called_push-Sets : (x : ℕ) → ps t ≡ outside → Sets (called_push t x) (pushing x)
  unfolding pending_step set_pending start_call
  called_push-Sets x e = rw e refl

  pub called_pop-Sets : ps t ≡ outside → Sets (called_pop t) popping
  unfolding pending_step set_pending start_call
  called_pop-Sets e = rw e refl

  pub silent : (p : Pending) → ps t ≡ p → Goes t ps internal internal p
  unfolding pending_step
  silent p e = record {
    between = ps;
    after = ps;
    first = refl;
    second = refl;
    own = e;
    others = λ u d. refl;
  }

  pub one_label : (l : Label) (p : Pending) → Sets l p → Goes t ps l internal p
  unfolding pending_step
  one_label l p h = record {
    between = update ps t p;
    after = update ps t p;
    first = h;
    second = refl;
    own = update_self ps t p;
    others = λ u d. update-ne ps t u p d;
  }

  pub returns : (a : Option ℕ) → ps t ≡ finished a → Goes t ps internal (returned t a) outside
  unfolding pending_step
  returns a e = record {
    between = ps;
    after = update ps t outside;
    first = refl;
    second = returned-Sets a e;
    own = update_self ps t outside;
    others = λ u d. update-ne ps t u outside d;
  }

pub finishes :
    (t : ℕ) (ps : ℕ → Pending) (l : Label) (a : Option ℕ)
    → Sets t ps l (finished a)
    → Goes t ps l (returned t a) outside
finishes t ps l a h = record {
  between = mid;
  after = update mid t outside;
  first = h;
  second = returned-Sets t mid a (update_self ps t (finished a));
  own = update_self mid t outside;
  others = λ u d. update-ne mid t u outside d ∙ update-ne ps t u (finished a) d;
}
  where
    mid : ℕ → Pending
    mid = update ps t (finished a)

-- `pending` says what the caller of a thread is waiting for.
module _ {T : Type 0} (pending : T → Pending) (threads : ℕ → T) where
  abbrev pub Agrees : (ℕ → Pending) → Type 0
  Agrees ps = (t : ℕ) → ps t ≡ pending (threads t)

  -- The callers see the labels of an event, and agree with the threads after it.
  pub record Answers (ps : ℕ → Pending) (l l2 : Label) : Type 0 where
    pub between : ℕ → Pending
    pub after : ℕ → Pending
    pub first : pending_step l ps ≡ some between
    pub second : pending_step l2 between ≡ some after
    pub agrees : Agrees after

  -- The calls so far have been served, and the callers expect what their threads do.
  pub record Served (calls : Option (ℕ → Pending)) : Type 0 where
    pub after : ℕ → Pending
    pub allowed : calls ≡ some after
    pub agrees : Agrees after

  pub as_before : (ps : ℕ → Pending) → Agrees ps → Answers ps internal internal
  unfolding pending_step
  as_before ps a = record { between = ps; after = ps; first = refl; second = refl; agrees = a }

-- A thread goes on as its caller expects, and the others are waited for as before.
pub Goes-Answers :
    {T : Type 0} (before pending : T → Pending) (threads : ℕ → T) (t : ℕ) (ps : ℕ → Pending)
    (l l2 : Label) (th : T)
    → Agrees before threads ps
    → Goes t ps l l2 (pending th)
    → ((u : ℕ) → t ≢ u → pending (threads u) ≡ before (threads u))
    → Answers pending (update threads t th) ps l l2
Goes-Answers before pending threads t ps l l2 th a g kept = record {
  between = g.between;
  after = g.after;
  first = g.first;
  second = g.second;
  agrees = λ u. elim (ℕ_discrete t u) [
    | yes e ↦
        sym (ap g.after e)
        ∙ g.own
        ∙ ap pending (sym (update_self threads t th) ∙ ap (update threads t th) e)
    | no d ↦ g.others u d ∙ a u ∙ sym (kept u d) ∙ ap pending (sym (update-ne threads t u th d))
  ];
}
