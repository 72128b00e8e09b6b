-- ===== src/Lists/Views.antt =====
-- examples/ds/lists.rs: what each thread knows of the nodes.
use cdpt.Base.{ℕ, suc, ◌<◌, ◌≤◌, ◌≡◌, ◌≢◌, Bool, true, false, Option, none, some}
use cdpt.Lists.{
  Find, harris_herlihy_shavit, Op, get, remove, insert, op_key, Thread, idle, begun, visiting,
  cleaning, unlinking, storing, linking, marking, cutting, returning, Nodes,
}
use cdpt.Lists.Paths.{rank, Tagged}

-- The node of an insert that is not in the list yet.
abbrev pub op_new : Op → Option ℕ
op_new (get find key) = none
op_new (remove find key) = none
op_new (insert find key new) = some new

abbrev pub owns : Thread → Option ℕ
owns (begun op) = op_new op
owns (visiting op prev prev_next curr) = op_new op
owns (cleaning op found prev prev_next curr) = op_new op
owns (unlinking op prev curr next) = op_new op
owns (storing find key new prev curr) = some new
owns (linking find key new prev curr) = some new
owns _ = none

-- Inserts and removes do not call `find_harris_herlihy_shavit`.
abbrev pub Exact : Find → Type 0
Exact find = find ≢ harris_herlihy_shavit

module _ (view : ℕ → Bool) (h : Nodes) (seen : Option ℕ) where
  pub record Mine (key new : ℕ) : Type 0 where
    pub hidden : view new ≡ false
    pub old : new < h.allocated
    pub has_key : h.key new ≡ key

  pub data Allowed : Op → Type 0 where
    any_get : (find : Find) (key : ℕ) → Allowed (get find key)
    a_remove : (find : Find) (key : ℕ) → Exact find → Allowed (remove find key)
    an_insert :
        (find : Find) (key new : ℕ) → Exact find → Mine key new → Allowed (insert find key new)

  -- A node of the list that comes before a key, and a pointer to one after it.
  abbrev pub Before : ℕ → ℕ → Type 0
  Before n key = (view n ≡ true) × (rank h n ≤ key)

  abbrev pub After : Option ℕ → ℕ → Type 0
  After curr key = (c : ℕ) → curr ≡ some c → (view c ≡ true) × (suc key < rank h c)

  abbrev pub Inner : ℕ → Type 0
  Inner curr = (view curr ≡ true) × (0 < rank h curr)

  pub record Found (curr key : ℕ) : Type 0 where
    pub shown : view curr ≡ true
    pub at_key : rank h curr ≡ suc key
    pub value : seen ≡ some (h.value curr)

  -- What an answer of `find` is worth.
  pub data Answer : Op → Bool → Option ℕ → Type 0 where
    found : (op : Op) (curr : ℕ) → Found curr (op_key op) → Answer op true (some curr)
    absent : (op : Op) (curr : Option ℕ) → After curr (op_key op) → Answer op false curr
    missed : (find : Find) (key : ℕ) (curr : Option ℕ) → Answer (get find key) false curr

  pub data Knows : Thread → Type 0 where
    at_idle : Knows idle
    at_begun : (op : Op) → Allowed op → Knows (begun op)
    at_visiting :
        (op : Op) (prev : ℕ) (prev_next : Option ℕ) (curr : ℕ)
        → Allowed op
        → Before prev (op_key op)
        → Inner curr
        → Tagged view h prev_next (some curr)
        → Knows (visiting op prev prev_next curr)
    at_cleaning :
        (op : Op) (answer : Bool) (prev : ℕ) (prev_next curr : Option ℕ)
        → Allowed op
        → Before prev (op_key op)
        → Tagged view h prev_next curr
        → Answer op answer curr
        → Knows (cleaning op answer prev prev_next curr)
    at_unlinking :
        (op : Op) (prev curr : ℕ) (next : Option ℕ)
        → Allowed op
        → Before prev (op_key op)
        → view curr ≡ true
        → h.tagged curr ≡ true
        → h.next curr ≡ next
        → Knows (unlinking op prev curr next)
    at_storing :
        (find : Find) (key new prev : ℕ) (curr : Option ℕ)
        → Exact find
        → Mine key new
        → Before prev key
        → After curr key
        → Knows (storing find key new prev curr)
    at_linking :
        (find : Find) (key new prev : ℕ) (curr : Option ℕ)
        → Exact find
        → Mine key new
        → Before prev key
        → After curr key
        → h.next new ≡ curr
        → h.tagged new ≡ false
        → Knows (linking find key new prev curr)
    at_marking :
        (find : Find) (key prev curr : ℕ)
        → Exact find
        → Before prev key
        → Found curr key
        → Knows (marking find key prev curr)
    at_cutting :
        (prev curr : ℕ) (next : Option ℕ)
        → view prev ≡ true
        → view curr ≡ true
        → h.tagged curr ≡ true
        → h.next curr ≡ next
        → seen ≡ some (h.value curr)
        → Knows (cutting prev curr next)
    at_returning :
        (curr : ℕ) → view curr ≡ true → seen ≡ some (h.value curr) → Knows (returning curr)
