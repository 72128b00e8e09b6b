-- ===== src/Heap/Tests.antt =====
-- A cycle of tracing with a mutator that takes an object out of the heap in the middle.
use mathlib.Core.List.{Memᴰ}
use mathlib.Core.Path.{subst}
use cdpt.Base.{
  ℕ, zero, suc, ◌≤◌, ◌≡◌, refl, inl, inr, Bool, true, false, ◌&&◌, ltb, none, some, List, [], ◌∷◌,
  ◌++◌, update, ℕ_discrete, arith, ◌≢◌, sym, ◌∙◌, update-ne, ap, Bool-cases,
}
use cdpt.Epoch.{c0, c1}
use cdpt.Ptr.{rooted, unrooted}
use cdpt.Heap.{
  Thread, swap, unrooted_cas, idle, advance, write, reads, after_load, either_path, rooted_path,
  unrooted_once, rooted_lost, unrooted_won, unrooted_lost, can_fail, cas_wins, see_link, next_link,
  after_drop, shade_pointee, cas_link, finish_mark,
}
use cdpt.Heap.Events.{
  System, null_rooted, is_idle, contains, all_rooted, remove_at, obj_at, local_at, set_thread,
  add_locals, set_heap, Event, call, load, move, scan, take_task, has_access, call_update,
  load_link, alloc_local, unroot_link, new_shared, drop_link, next_access, scan_object, pop_task,
  idle_step, thread_of, access, step, run,
}
use cdpt.Heap.Complete.{
  Barrier, Live, live_black, live_root, Ready, Finished, Reachable, by_local, tricolor,
  Reachable-marked,
}
use cdpt.Heap.Known.{NotWhite, at_idle}
use cdpt.Heap.Protected.{Holds, Protected}
use cdpt.Heap.Cas.{nothing_held, empty_idle}

-- Object 1 has link 1, which leads to object 2, and object 2 has link 2, which is null. The rooted
-- link 0 leads to object 1, and nothing leads to object 3.
abbrev outgoing : ℕ → List ℕ
outgoing = update (update (λ _. []) 1 (1 ∷ [])) 2 (2 ∷ [])

abbrev start : System
start = record {
  heap = record {
    links =
        update
          (update (update (λ _. null_rooted) 0 (record { obj = 1; meta = rooted; tag = 0 })) 1
            (record { obj = 2; meta = unrooted c0; tag = 0 }))
          2 (record { obj = 0; meta = unrooted c0; tag = 0 });
    color = update (λ _. c0) 0 c1;
    root_count = update (λ _. 0) 1 1;
    unscanned = λ o. ltb 0 o && ltb o 4;
    hazard = λ _. false;
    allocated = λ o. ltb o 4;
    tasks = [];
  };
  threads = λ _. idle;
  locals = λ _. [];
}

-- Thread 0 marks object 1 and has seen link 1, when thread 1 loads object 2 from it and stores null.
abbrev cycle : List Event
cycle =
    scan 0 1
    ∷ move 0 false
    ∷ load 1 0 none
    ∷ load 1 1 (some 0)
    ∷ call 1 swap 1 (some 1) none 0
    ∷ move 1 false
    ∷ move 1 false
    ∷ move 1 false
    ∷ move 0 false
    ∷ move 0 false
    ∷ move 0 false
    ∷ move 0 false
    ∷ move 0 false
    ∷ take_task 0 0
    ∷ move 0 false
    ∷ move 0 false
    ∷ move 0 false
    ∷ move 0 false
    ∷ move 0 false
    ∷ take_task 0 0
    ∷ move 0 false
    ∷ scan 0 2
    ∷ scan 0 3
    ∷ []

end_links :
    (run c1 outgoing cycle start).heap.links 1 ≡ record { obj = 0; meta = unrooted c1; tag = 0 }
unfolding run step is_idle thread_of idle_step access next_access advance write reads after_load
    either_path rooted_path unrooted_once rooted_lost unrooted_won unrooted_lost can_fail cas_wins
    see_link next_link after_drop shade_pointee cas_link finish_mark contains all_rooted remove_at
    obj_at local_at set_thread add_locals set_heap has_access call_update load_link scan_object
    pop_task ℕ_discrete
end_links = refl

end_colors :
    ((run c1 outgoing cycle start).heap.color 1 ≡ c1)
    × ((run c1 outgoing cycle start).heap.color 2 ≡ c1)
    × ((run c1 outgoing cycle start).heap.color 3 ≡ c0)
unfolding run step is_idle thread_of idle_step access next_access advance write reads after_load
    either_path rooted_path unrooted_once rooted_lost unrooted_won unrooted_lost can_fail cas_wins
    see_link next_link after_drop shade_pointee cas_link finish_mark contains all_rooted remove_at
    obj_at local_at set_thread add_locals set_heap has_access call_update load_link scan_object
    pop_task ℕ_discrete
end_colors = (refl, refl, refl)

end_tasks : (run c1 outgoing cycle start).heap.tasks ≡ []
unfolding run step is_idle thread_of idle_step access next_access advance write reads after_load
    either_path rooted_path unrooted_once rooted_lost unrooted_won unrooted_lost can_fail cas_wins
    see_link next_link after_drop shade_pointee cas_link finish_mark contains all_rooted remove_at
    obj_at local_at set_thread add_locals set_heap has_access call_update load_link scan_object
    pop_task ℕ_discrete
end_tasks = refl

-- Threads that no event belongs to stay where they are.
unfoldable threads_below : ℕ → List Event → Bool
threads_below n [] = true
threads_below n (e ∷ events) = ltb (thread_of c1 outgoing e) n && threads_below n events

step-other :
    (e : Event) (s : System) (u : ℕ)
    → thread_of c1 outgoing e ≢ u
    → (step c1 outgoing e s).threads u ≡ s.threads u
unfolding step thread_of idle_step access next_access set_thread add_locals set_heap call_update
    load_link scan_object pop_task alloc_local unroot_link new_shared drop_link
step-other (call t op l owner new tag) s u h = ground arith
step-other (load t l owner) s u h = ground arith
step-other (move t spurious) s u h = ground arith
step-other (Event.alloc t n) s u h = ground arith
step-other (Event.unroot t n) s u h = ground arith
step-other (Event.clone t l k) s u h = ground arith
step-other (Event.drop t l) s u h = ground arith
step-other (scan t obj) s u h = ground arith
step-other (take_task t i) s u h = ground arith
step-other (Event.forget t) s u h = ground arith

run-other :
    (events : List Event) (s : System) (n u : ℕ)
    → threads_below n events ≡ true
    → n ≤ u
    → (run c1 outgoing events s).threads u ≡ s.threads u
unfolding run threads_below
run-other [] s n u h g = refl
run-other (e ∷ events) s n u h g = elim (Bool-cases (ltb (thread_of c1 outgoing e) n)) [
  | inl q ↦
      let rest = run-other events (step c1 outgoing e s) n u (rw q at h) g in
      rest ∙ step-other e s u (other (thread_of c1 outgoing e) q)
  | inr q ↦ let none_left : false ≡ true = rw q at h in cc
]
  where
    other : (t : ℕ) → ltb t n ≡ true → t ≢ u
    other t q e = ground (arith, g, q, e)

end_threads : (t : ℕ) → (run c1 outgoing cycle start).threads t ≡ idle
unfolding run step is_idle thread_of idle_step access next_access advance write reads after_load
    either_path rooted_path unrooted_once rooted_lost unrooted_won unrooted_lost can_fail cas_wins
    see_link next_link after_drop shade_pointee cas_link finish_mark contains all_rooted remove_at
    obj_at local_at set_thread add_locals set_heap has_access call_update load_link scan_object
    pop_task ℕ_discrete threads_below
end_threads zero = refl
end_threads (suc zero) = refl
end_threads (suc (suc t)) = run-other cycle start 2 (suc (suc t)) refl (omega arith)

c0≢c1 : c0 ≢ c1
c0≢c1 e = cc

start-Ready : Ready c1 outgoing start
unfolding ℕ_discrete
start-Ready = record {
  threads = λ t. at_idle;
  null = refl;
  links = start_links;
  locals = λ t o m. elim m [ ];
  blacks = start_blacks;
}
  where
    start_links :
        (l : ℕ) → NotWhite c1 start.heap l → Live c1 outgoing start.heap (start.heap.links l).obj
    start_links zero w = live_root 1 refl (omega arith)
    start_links (suc zero) w = absurd (w refl)
    start_links (suc (suc zero)) w = absurd (w refl)
    start_links (suc (suc (suc l))) w = live_black _ (ground arith)

    start_blacks :
        (p l : ℕ) → start.heap.color p ≡ c1 → Memᴰ l (outgoing p) → NotWhite c1 start.heap l
    start_blacks zero l e m = elim m [ ]
    start_blacks (suc p) l e m =
        let white : start.heap.color (suc p) ≡ c0 =
          update-ne (λ _. c0) 0 (suc p) c1 (λ (q : 0 ≡ suc p). omega (arith, q)) in
        let same : c0 ≡ c1 = sym white ∙ e in absurd (c0≢c1 same)

abbrev unscanned_at_end : ℕ → Bool
unscanned_at_end = update (update (update start.heap.unscanned 1 false) 2 false) 3 false

end_unscanned : (run c1 outgoing cycle start).heap.unscanned ≡ unscanned_at_end
unfolding run step is_idle thread_of idle_step access next_access advance write reads after_load
    either_path rooted_path unrooted_once rooted_lost unrooted_won unrooted_lost can_fail cas_wins
    see_link next_link after_drop shade_pointee cas_link finish_mark contains all_rooted remove_at
    obj_at local_at set_thread add_locals set_heap has_access call_update load_link scan_object
    pop_task ℕ_discrete
end_unscanned = refl

all_scanned : (o : ℕ) → unscanned_at_end o ≡ false
all_scanned o = ground arith

end_Finished : Finished (run c1 outgoing cycle start)
end_Finished = record {
  threads = λ t o held.
      nothing_held idle empty_idle o (subst (λ (x : Thread). Holds x o) (end_threads t) held);
  tasks = end_tasks;
  scanned = λ o. ap (λ (f : ℕ → Bool). f o) end_unscanned ∙ all_scanned o;
}

held_at_end : Reachable outgoing (run c1 outgoing cycle start) 2
unfolding run step is_idle thread_of idle_step access next_access advance write reads after_load
    either_path rooted_path unrooted_once rooted_lost unrooted_won unrooted_lost can_fail cas_wins
    see_link next_link after_drop shade_pointee cas_link finish_mark contains all_rooted remove_at
    obj_at local_at set_thread add_locals set_heap has_access call_update load_link scan_object
    pop_task ℕ_discrete
held_at_end = by_local 1 2 (Memᴰ.head refl)

Reachable-marked_example : (run c1 outgoing cycle start).heap.color 2 ≡ c1
Reachable-marked_example =
    Reachable-marked c1 outgoing cycle start 2 start-Ready end_Finished held_at_end

-- After the cycle, thread 1 is about to store object 2 in link 1 of object 1, which is black now.
abbrev storing : List Event
storing = cycle ++ call 1 swap 1 (some 3) (some 0) 0 ∷ move 1 false ∷ move 1 false ∷ []

storing_thread :
    (run c1 outgoing storing start).threads 1
    ≡ unrooted_cas swap 1
        (record { obj = 2; tag = 0 })
        (record { obj = 0; meta = unrooted c1; tag = 0 })
unfolding run step is_idle thread_of idle_step access next_access advance write reads after_load
    either_path rooted_path unrooted_once rooted_lost unrooted_won unrooted_lost can_fail cas_wins
    see_link next_link after_drop shade_pointee cas_link finish_mark contains all_rooted remove_at
    obj_at local_at set_thread add_locals set_heap has_access call_update load_link scan_object
    pop_task ℕ_discrete
storing_thread = refl

black_at_end : (run c1 outgoing storing start).heap.color 1 ≡ c1
unfolding run step is_idle thread_of idle_step access next_access advance write reads after_load
    either_path rooted_path unrooted_once rooted_lost unrooted_won unrooted_lost can_fail cas_wins
    see_link next_link after_drop shade_pointee cas_link finish_mark contains all_rooted remove_at
    obj_at local_at set_thread add_locals set_heap has_access call_update load_link scan_object
    pop_task ℕ_discrete
black_at_end = refl

link_of_1 : Memᴰ 1 (outgoing 1)
unfolding ℕ_discrete
link_of_1 = Memᴰ.head refl

tricolor_example :
    NotWhite c1 (run c1 outgoing storing start).heap 1
    × Protected c1 outgoing
        (run c1 outgoing storing start).heap
        (run c1 outgoing storing start).threads
        ((run c1 outgoing storing start).heap.links 1).obj
    × Barrier c1
        (run c1 outgoing storing start).heap
        (run c1 outgoing storing start).threads
        ((run c1 outgoing storing start).threads 1)
tricolor_example = tricolor c1 outgoing storing start 1 1 1 start-Ready black_at_end link_of_1
