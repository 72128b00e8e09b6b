-- ===== src/Heap/Marking.antt =====
-- src/pointers.rs: the accesses of `mark` and `shade` keep the invariant of tracing.
use mathlib.Core.Path.{subst}
use mathlib.Core.List.{Memᴰ}
use cdpt.Base.{
  ℕ, ◌≡◌, refl, sym, ap, ◌∙◌, inl, inr, Bool, List, [], ◌∷◌, update, update_self, update-ne,
  ℕ_discrete, if◌then◌else◌, Bool-cases,
}
use cdpt.Epoch.{Color}
use cdpt.Ptr.{unrooted, ptr_meta_eq}
use cdpt.Heap.{
  Link, Thread, idle, checking, marking, mark_shade, mark_cas, Heap, is_marked, see_link, next_link,
  shade_pointee, finish_mark, cas_link, black_link, same_link, advance, write,
}
use cdpt.Heap.Events.{System}
use cdpt.Heap.Protected.{
  Holds, holds_checking, holds_marking, holds_shade, holds_cas, Safe, is_black, has_task, is_safe,
  with_root, with_hazard,
}
use cdpt.Heap.Known.{
  NotWhite, LinksDone, Knows, at_idle, at_marking, at_mark_shade, at_mark_cas, Inv, LinksDone-kept,
}
use cdpt.Heap.Changes.{Change, Safe-Change, now-Holds, plain, link-Change}
use cdpt.Heap.Headers.{color_eq→eq, header-Change, shade-Change, shade_pointee-Safe}
use cdpt.Heap.Updates.{ptr_meta_eq→eq, rooted≢unrooted, black≢white, same_link-parts}

-- The object that a thread is marking.
pub data Marks : Thread → ℕ → Type 0 where
  marks_checking : (o : ℕ) → Marks (checking o) o
  marks_marking : (o : ℕ) (left : List ℕ) → Marks (marking o left) o
  marks_shade : (o l : ℕ) (left : List ℕ) (seen : Link) → Marks (mark_shade o l left seen) o
  marks_cas : (o l : ℕ) (left : List ℕ) (seen : Link) → Marks (mark_cas o l left seen) o

Marks-Holds : (th : Thread) (o x : ℕ) → Marks th o → Holds th x → o ≡ x
Marks-Holds _ _ _ (marks_checking o) (holds_checking _) = refl
Marks-Holds _ _ _ (marks_marking o left) (holds_marking _ _) = refl
Marks-Holds _ _ _ (marks_shade o l left seen) (holds_shade _ _ _ _) = refl
Marks-Holds _ _ _ (marks_cas o l left seen) (holds_cas _ _ _ _) = refl

module _ (black : Color) (outgoing : ℕ → List ℕ) (s : System) (t o : ℕ)
    (v : Inv black outgoing s) where
  -- It is enough that the object is safe after the change.
  own :
      (th : Thread)
      → s.threads t ≡ th
      → Marks th o
      → (after : Heap) (next : ℕ → Thread) → Safe black after next o
      → (x : ℕ) → Holds (s.threads t) x
      → Safe black after next x
  own th at m after next safe x held =
      subst (Safe black after next)
        (Marks-Holds th o x m (subst (λ (y : Thread). Holds y x) at held)) safe

  -- One link less is left.
  LinksDone-fewer :
      (l : ℕ) (left : List ℕ)
      → LinksDone black outgoing s.heap o (l ∷ left)
      → NotWhite black s.heap l
      → LinksDone black outgoing s.heap o left
  LinksDone-fewer l left d w k m = elim (d k m) [
    | inl fine ↦ inl fine
    | inr later ↦ elim later [
      | Memᴰ.head e ↦ inl (subst (NotWhite black s.heap) (sym e) w)
      | Memᴰ.tail rest ↦ inr rest
    ]
  ]

  see_link-Knows :
      (threads : ℕ → Thread) (l : ℕ) (left : List ℕ)
      → LinksDone black outgoing s.heap o (l ∷ left)
      → Knows black outgoing s.heap threads (see_link black o l left (s.heap.links l))
  unfolding see_link
  see_link-Knows threads l left d =
      elim (Bool-cases (ptr_meta_eq (s.heap.links l).meta (unrooted black))) [
        | inl q ↦
            let m = ptr_meta_eq→eq (s.heap.links l).meta (unrooted black) q in
            rw q (at_marking o left (LinksDone-fewer l left d (λ e. black≢white black (sym m ∙ e))))
        | inr q ↦ rw q (at_mark_shade o l left (s.heap.links l) d)
      ]

  see_link-Holds : (l : ℕ) (left : List ℕ) (seen : Link) → Holds (see_link black o l left seen) o
  unfolding see_link
  see_link-Holds l left seen = elim (Bool-cases (ptr_meta_eq seen.meta (unrooted black))) [
    | inl q ↦ rw q (holds_marking o left)
    | inr q ↦ rw q (holds_shade o l left seen)
  ]

  pub see_link-Change :
      (th : Thread) (l : ℕ) (left : List ℕ)
      → s.threads t ≡ th
      → Marks th o
      → LinksDone black outgoing s.heap o (l ∷ left)
      → Change black outgoing s t (see_link black o l left (s.heap.links l)) s.heap
  see_link-Change th l left at m d =
      plain black outgoing s t _ v (see_link-Knows s.threads l left d)
        (own th at m s.heap _ (now-Holds black outgoing s t _ s.heap o (see_link-Holds l left _)))

  pub checking-Change :
      s.threads t ≡ checking o
      → Change black outgoing s t
          (if is_marked black s.heap o then idle else marking o (outgoing o))
          s.heap
  checking-Change at = elim (Bool-cases (is_marked black s.heap o)) [
    | inl q ↦ rw q (
        plain black outgoing s t _ v at_idle (
          own (checking o) at (marks_checking o) s.heap _
            (is_black (color_eq→eq (s.heap.color o) black q))))
    | inr q ↦ rw q (
        plain black outgoing s t _ v (at_marking o (outgoing o) (λ l m. inr m)) (
          own (checking o) at (marks_checking o) s.heap _
            (now-Holds black outgoing s t _ s.heap o (holds_marking o (outgoing o)))))
  ]

  abbrev blackened : Heap
  blackened = record s.heap { color = update s.heap.color o black }

  keeps_color : (p : ℕ) → s.heap.color p ≡ black → update s.heap.color o black p ≡ black
  keeps_color p e = elim (ℕ_discrete o p) [
    | yes same ↦ sym (ap (update s.heap.color o black) same) ∙ update_self s.heap.color o black
    | no differs ↦ update-ne s.heap.color o p black differs ∙ e
  ]

  -- The object becomes black.
  finish-Change :
      s.threads t ≡ marking o []
      → LinksDone black outgoing s.heap o []
      → Change black outgoing s t idle blackened
  finish-Change at d =
      header-Change black outgoing s t idle blackened (λ l. refl) v
        (Safe-Change black outgoing s t idle blackened keeps_color (λ x m. has_task m)
          (own (marking o []) at (marks_marking o []) blackened _
            (is_black (update_self s.heap.color o black))))
        (λ x u c. with_root x u c) (λ x u c. with_hazard x u c)
        (λ p e. elim (ℕ_discrete o p) [
          | yes same ↦ inr (subst (λ (x : ℕ). LinksDone black outgoing s.heap x []) same d)
          | no differs ↦ inl (sym (update-ne s.heap.color o p black differs) ∙ e)
        ])
        (keeps_color 0 v.null) (λ keeps links. at_idle)

  pub marking-Change :
      (left : List ℕ)
      → s.threads t ≡ marking o left
      → LinksDone black outgoing s.heap o left
      → Change black outgoing s t (next_link black s.heap o left) (finish_mark black o left s.heap)
  unfolding next_link finish_mark
  marking-Change [] at d = finish-Change at d
  marking-Change (l ∷ left) at d =
      see_link-Change (marking o (l ∷ left)) l left at (marks_marking o (l ∷ left)) d

  pub mark_shade-Change :
      (l : ℕ) (left : List ℕ) (seen : Link)
      → s.threads t ≡ mark_shade o l left seen
      → LinksDone black outgoing s.heap o (l ∷ left)
      → Change black outgoing s t (mark_cas o l left seen) (shade_pointee black seen.obj s.heap)
  mark_shade-Change l left seen at d =
      shade-Change black outgoing s t (mark_cas o l left seen) seen.obj v
        (own (mark_shade o l left seen) at (marks_shade o l left seen) _ _
          (now-Holds black outgoing s t (mark_cas o l left seen) _ o (holds_cas o l left seen)))
        (λ keeps links.
          at_mark_cas o l left seen
            (LinksDone-kept black outgoing s.heap _ s.threads _ keeps links o (l ∷ left) d)
            (shade_pointee-Safe black outgoing s t _ seen.obj v))

  pub mark_cas-Change :
      (spurious : Bool) (l : ℕ) (left : List ℕ) (seen : Link)
      → s.threads t ≡ mark_cas o l left seen
      → LinksDone black outgoing s.heap o (l ∷ left)
      → Safe black s.heap s.threads seen.obj
      → Change black outgoing s t
          (advance black outgoing spurious s.heap (mark_cas o l left seen))
          (write black spurious s.heap (mark_cas o l left seen))
  unfolding advance write cas_link
  mark_cas-Change spurious l left seen at d safe =
      elim (Bool-cases (same_link (s.heap.links l) seen)) [
        | inl q ↦
            let (e, m) = same_link-parts (s.heap.links l) seen q in
            let new = black_link black seen in
            let after : Heap = record s.heap { links = update s.heap.links l new } in
            let hold = λ (x : ℕ) (h : Holds (s.threads t) x).
              own (mark_cas o l left seen) at (marks_cas o l left seen) after
                (update s.threads t (marking o left))
                (now-Holds black outgoing s t (marking o left) after o (holds_marking o left)) x
                h in
            rw q (
              link-Change black outgoing s t (marking o left) l new v hold (λ n. black≢white black)
                (λ u f. rooted≢unrooted black (sym f)) (λ n. is_safe seen.obj safe)
                (λ white. inr (
                  Safe-Change black outgoing s t (marking o left) after (λ x f. f)
                    (λ x f. has_task f) hold (s.heap.links l).obj
                    (subst (Safe black s.heap s.threads) (sym e) safe)))
                (λ steps. at_marking o left (done steps.not_white)))
        | inr q ↦
            rw q (see_link-Change (mark_cas o l left seen) l left at (marks_cas o l left seen) d)
      ]
    where
      after : Heap
      after = record s.heap { links = update s.heap.links l (black_link black seen) }

      done :
          ((k : ℕ) → NotWhite black s.heap k → NotWhite black after k)
          → LinksDone black outgoing after o left
      done steps k m = elim (d k m) [
        | inl fine ↦ inl (steps k fine)
        | inr later ↦ elim later [
          | Memᴰ.head e ↦ inl (λ f. black≢white black (
              sym (
                ap (λ (x : Link). x.meta)
                  (ap after.links e ∙ update_self s.heap.links l (black_link black seen)))
              ∙ f))
          | Memᴰ.tail rest ↦ inr rest
        ]
      ]
