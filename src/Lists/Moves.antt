-- ===== src/Lists/Moves.antt =====
-- examples/ds/lists.rs: what each access of a thread means for the map.
use mathlib.Core.Path.{subst}
use cdpt.Base.{
  ℕ, suc, ◌≡◌, ◌≢◌, refl, sym, ap, ◌∙◌, arith, inl, inr, Bool, true, false, not, ◌&&◌, ◌==◌, Option,
  none, some, Bool-cases,
}
use cdpt.Lists.{
  Op, get, remove, insert, op_key, Thread, idle, panicked, begun, visiting, cleaning, unlinking,
  storing, linking, marking, cutting, returning, Nodes, System, is_idle, opt_ptr_eq, cas_wins,
}
use cdpt.Lists.Spec.{Label, reply, answer, Map, map_step}
use cdpt.Lists.Paths.{Tagged, none≢some}
use cdpt.Lists.Links.{relink}
use cdpt.Lists.Changes.{Changes, no_change}
use cdpt.Lists.Updates.{cut_change}
use cdpt.Lists.Views.{owns, Knows}
use cdpt.Lists.Frames.{Knows-kept}
use cdpt.Lists.Finding.{opt_ptr_eq→eq}
use cdpt.Lists.Tracking.{position, key_of, Reach, Justified, Tracks, resting-Tracks, Tracks-kept}
use cdpt.Lists.Searching.{Goes, Present}
use cdpt.Lists.Invariant.{Allows, Stays, Inv, moved, moved-Inv}

opt_ptr_eq_self : (a : Option ℕ) → opt_ptr_eq a a ≡ true
unfolding opt_ptr_eq
opt_ptr_eq_self none = refl
opt_ptr_eq_self (some a) = itself a
  where
    itself : (n : ℕ) → (n == n) ≡ true
    itself n = ground arith

pub opt_ptr_eq_lem : (a b : Option ℕ) → a ≡ b → opt_ptr_eq a b ≡ true
opt_ptr_eq_lem a b e = ap (opt_ptr_eq a) (sym e) ∙ opt_ptr_eq_self a

pub cas_wins_lem :
    (h : Nodes) (prev : ℕ) (expected : Option ℕ)
    → cas_wins h prev expected ≡ true
    → (h.tagged prev ≡ false) × (h.next prev ≡ expected)
unfolding cas_wins
cas_wins_lem h prev expected e =
    let (a, b) = both (h.tagged prev) (opt_ptr_eq (h.next prev) expected) e in
    (a, opt_ptr_eq→eq (h.next prev) expected b)
  where
    both : (x y : Bool) → (not x && y) ≡ true → (x ≡ false) × (y ≡ true)
    both false true e = (refl, refl)
    both false false e = cc
    both true y e = cc

pub same_Stays : (m : Map) (u : ℕ) → Stays m m u
same_Stays m u = record { seen = refl; wanted = refl; tracked = λ e p. (e, p e) }

pub is_idle→eq : (th : Thread) → is_idle th ≡ true → th ≡ idle
unfolding is_idle
is_idle→eq idle e = refl
is_idle→eq panicked e = cc
is_idle→eq (begun op) e = cc
is_idle→eq (visiting op prev pn curr) e = cc
is_idle→eq (cleaning op answer prev pn curr) e = cc
is_idle→eq (unlinking op prev curr next) e = cc
is_idle→eq (storing f k new prev curr) e = cc
is_idle→eq (linking f k new prev curr) e = cc
is_idle→eq (marking f k prev curr) e = cc
is_idle→eq (cutting prev curr next) e = cc
is_idle→eq (returning curr) e = cc

reply_lem :
    (t : ℕ) (op : Op) (m : Map)
    → Justified op (m.seen t) (m.missed t)
    → map_step (reply t op) m ≡ some m
unfolding map_step reply opt_ptr_eq
reply_lem t (get f k) m j = rw j refl
reply_lem t (remove f k) m j = rw j refl
reply_lem t (insert f k new) m (x, j) = rw j refl

-- An operation answers only what the specification allows.
pub answer_lem :
    (t : ℕ) (op : Op) (th : Thread) (m : Map)
    → (th ≡ idle → Justified op (m.seen t) (m.missed t))
    → map_step (answer t (some op) th) m ≡ some m
unfolding map_step answer
answer_lem t op th m j = elim (Bool-cases (is_idle th)) [
  | inl q ↦ rw q (reply_lem t op m (j (is_idle→eq th q)))
  | inr q ↦ rw q refl
]

module _ (view : ℕ → Bool) (s : System) (m : Map) (v : Inv view s m) (t : ℕ) where
  pub changed :
      {l l2 : Label} (view2 : ℕ → Bool) (after : Nodes) (m2 : Map) (th : Thread)
      → Changes (owns (s.threads t)) view s.nodes m.items view2 after m2.items
      → Knows view2 after (m2.seen t) th
      → ((n : ℕ) → owns th ≡ some n → owns (s.threads t) ≡ some n)
      → Tracks view2 after m2.items (m2.wanted t) (m2.missed t) th
      → ((u : ℕ) → t ≢ u → Stays m m2 u)
      → map_step l m ≡ some m2
      → map_step l2 m2 ≡ some m2
      → Allows (moved view s m v t after th) m l l2
  changed view2 after m2 th c k o w other first second = record {
    view = view2;
    map = m2;
    first = first;
    second = second;
    inv = moved-Inv view s m v t view2 after m2 th c k (λ n e. inl (o n e)) w other;
  }

  -- The thread goes on, and nothing else changes.
  pub plain :
      {l l2 : Label} (th : Thread)
      → ((n : ℕ) → owns th ≡ some n → owns (s.threads t) ≡ some n)
      → Knows view s.nodes (m.seen t) th
      → Tracks view s.nodes m.items (m.wanted t) (m.missed t) th
      → map_step l m ≡ some m
      → map_step l2 m ≡ some m
      → Allows (moved view s m v t s.nodes th) m l l2
  plain th o k w first second =
      changed view s.nodes m th (no_change _ view s.nodes m.items v.shape v.related) k o w
        (λ u e. same_Stays m u) first second

  -- A compare-exchange that cuts tagged nodes out.
  pub cut :
      {l l2 : Label} (prev : ℕ) (from to : Option ℕ) (th : Thread)
      → cas_wins s.nodes prev from ≡ true
      → view prev ≡ true
      → Tagged view s.nodes from to
      → ((n : ℕ) → owns th ≡ some n → owns (s.threads t) ≡ some n)
      → Knows view s.nodes (m.seen t) th
      → Tracks view s.nodes m.items (m.wanted t) (m.missed t) th
      → map_step l m ≡ some m
      → map_step l2 m ≡ some m
      → Allows (moved view s m v t (relink s.nodes prev to) th) m l l2
  cut prev from to th q p w o k track first second =
      let (u, e) = cas_wins_lem s.nodes prev from q in
      let tags = subst (λ (x : Option ℕ). Tagged view s.nodes x to) (sym e) w in
      let unseen = cut_change none view s.nodes m.items v.shape v.related prev to p u tags in
      changed view (relink s.nodes prev to) m th
        (cut_change (owns (s.threads t)) view s.nodes m.items v.shape v.related prev to p u tags)
        (Knows-kept none view s.nodes view _ v.shape unseen.frame th (m.seen t)
          (λ n f g. none≢some n g) k)
        o
        (Tracks-kept none view s.nodes m.items view _ m.items v.shape unseen (m.wanted t)
          (m.missed t) (m.missed t) th (λ e. (e, (v.tracks t).present e)) track)
        (λ u e. same_Stays m u) first second

  pub owns_nothing_more : (n : ℕ) → none ≡ some n → owns (s.threads t) ≡ some n
  owns_nothing_more n e = absurd (none≢some n e)

  -- What holds for a thread that looks for no node.
  pub resting :
      (th : Thread)
      → ((k : ℕ) → key_of th ≡ some k → m.wanted t ≡ k)
      → position th ≡ none
      → Tracks view s.nodes m.items (m.wanted t) (m.missed t) th
  resting th k p =
      resting-Tracks view s.nodes m.items (m.wanted t) (m.missed t) th k (v.tracks t).present p

  pub no_key_left : (k : ℕ) → none ≡ some k → m.wanted t ≡ k
  no_key_left k e = absurd (none≢some k e)

  module _ (op : Op) (wants : m.wanted t ≡ op_key op) where
    pub found_there : Present view s.nodes v.shape (m.seen t) (m.missed t) op
    found_there e =
        let (x, f) = something (m.items (m.wanted t)) ((v.tracks t).present e) in
        let (n, p, u, g) = v.related.absent (m.wanted t) x f in (n, p, u, g ∙ ap suc wants)
      where
        something : (o : Option ℕ) → o ≢ none → (x : ℕ) × (o ≡ some x)
        something none d = absurd (d refl)
        something (some x) d = (x, refl)

    pub going :
        (th : Thread) (seen : Option ℕ)
        → Goes view s.nodes v.shape seen (m.missed t) op th
        → Tracks view s.nodes m.items (m.wanted t) (m.missed t) th
    going th seen g = record {
      key = λ k e. wants ∙ g.same_key k e;
      present = (v.tracks t).present;
      ahead =
          λ e curr f. subst (λ (x : ℕ). Reach view s.nodes x curr) (sym wants) (g.ahead e curr f);
    }
