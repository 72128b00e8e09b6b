-- ===== src/Lists/Tests.antt =====
-- A key is put in, found by a get, refused to another insert, and taken out while another get is on its
-- way to it.
use cdpt.Base.{◌≡◌, ◌≢◌, refl, arith, List, [], ◌∷◌, ℕ_discrete}
use cdpt.Lists.{
  h_list, hm_list, hhs_list, idle, panicked, new_node, opt_ptr_eq, return_node, mark_node,
  after_find, end_find, see_curr, see_key, see_next, cas_wins, cas_next, advance, write, initial,
  is_idle, Event, call_get, call_remove, call_insert, move, call, thread_of, next_access, step, run,
}
use cdpt.Lists.Spec.{
  getting, removing, inserting, end_label, added, internal, called, saw, removed, inserted,
  returned, missing, refused, call_label, move_label, event_label, reply, answer, event_answer,
  answer_label, label, trace,
}
use cdpt.Lists.Linear.{lists_never_panic}
use cdpt.Lists.WaitFree.{accesses, no_calls, get_ends}

abbrev overtaken : List Event
overtaken =
    call_insert 0 hm_list 5 7
    ∷ move 0
    ∷ move 0
    ∷ move 0
    ∷ call_get 1 hm_list 5
    ∷ move 1
    ∷ move 1
    ∷ move 1
    ∷ call_insert 3 hm_list 5 9
    ∷ move 3
    ∷ move 3
    ∷ call_get 1 hhs_list 5
    ∷ move 1
    ∷ call_remove 2 h_list 5
    ∷ move 2
    ∷ move 2
    ∷ move 2
    ∷ move 1
    ∷ move 2
    ∷ move 2
    ∷ []

overtaken-trace :
    trace overtaken initial
    ≡ called 0 inserting 5
      ∷ internal
      ∷ internal
      ∷ internal
      ∷ internal
      ∷ internal
      ∷ inserted 0 7
      ∷ added 0
      ∷ called 1 getting 5
      ∷ internal
      ∷ internal
      ∷ internal
      ∷ saw 1 7
      ∷ internal
      ∷ returned 1 7
      ∷ internal
      ∷ called 3 inserting 5
      ∷ internal
      ∷ internal
      ∷ internal
      ∷ saw 3 7
      ∷ refused 3
      ∷ called 1 getting 5
      ∷ internal
      ∷ internal
      ∷ internal
      ∷ called 2 removing 5
      ∷ internal
      ∷ internal
      ∷ internal
      ∷ saw 2 7
      ∷ internal
      ∷ removed 2 7
      ∷ internal
      ∷ internal
      ∷ missing 1
      ∷ internal
      ∷ internal
      ∷ returned 2 7
      ∷ internal
      ∷ []
unfolding trace label call_label event_label move_label answer_label event_answer end_label answer
    reply step call next_access advance write new_node opt_ptr_eq return_node mark_node after_find
    end_find see_curr see_key see_next cas_wins cas_next is_idle thread_of ℕ_discrete
overtaken-trace = refl

lists_never_panic_example : (run overtaken initial).threads 2 ≢ panicked
lists_never_panic_example = lists_never_panic overtaken 2

-- A get of thread 1 meets an insert by thread 0.
abbrev under_way : List Event
under_way = call_insert 0 h_list 1 9 ∷ call_get 1 hhs_list 1 ∷ []

abbrev crossing : List Event
crossing =
    move 0
    ∷ move 1
    ∷ move 0
    ∷ move 0
    ∷ move 1
    ∷ move 1
    ∷ move 1
    ∷ call_remove 0 h_list 1
    ∷ move 1
    ∷ []

get_ends_example : (run crossing (run under_way initial)).threads 1 ≡ idle
unfolding run step call next_access thread_of is_idle no_calls accesses ℕ_discrete
get_ends_example = get_ends under_way crossing 1 1 refl refl (omega arith)
