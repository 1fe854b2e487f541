-- ===== src/Heap/Pop.antt =====
-- common/common_heap.h: Pop and Erase of a node on a sound heap.
use mathlib.Core.Path.{subst}
use lightframe.Common.{
  ℕ, ◌+◌, ◌-◌, ◌/◌, ◌<◌, ◌≤◌, ◌≡◌, ◌≢◌, refl, sym, ap, ◌∙◌, Option, some, List, [], ◌∷◌, ◌++◌,
  arith, length, length-append, get_or, true,
}
use lightframe.Pool.{Index}
use lightframe.Heap.{Heap, slot, heap_index, rank, place, is_empty, first, pop, erase_node}
use lightframe.Heap.Swap.{In, some_injective}
use lightframe.Heap.Holds.{IsHeap, slot-place}
use lightframe.Heap.Down.{shift_down_stays}
use lightframe.Pool.Destroy.{destroy_lem}
use lightframe.Heap.Remove.{In-split}
use lightframe.Heap.Erase.{sunk, sunk-IsHeap, sunk_pool, pop_run, erase_run}

module _ (past : Index) (cap : ℕ) (h : Heap) where
  first-slot :
      (x : ℕ) → first past cap h ≡ some x → (0 < h.pool.object_count) × (slot h.slots 0 ≡ x)
  unfolding first is_empty
  first-slot x e = ground arith

  -- A run that takes x out of the heap, in any of the ways.
  abbrev pub TakenOut : Option Heap → ℕ → List ℕ → List ℕ → Type 0
  TakenOut r x fs us =
      (before : List ℕ) × (later : List ℕ) × (h' : Heap) × (us ≡ before ++ x ∷ later)
      × (r ≡ some h')
      × (h'.keys ≡ h.keys)
      × IsHeap past cap h' (fs ++ x ∷ []) (before ++ later)

  -- Pop of a sound heap takes out the node that First gives, and keeps the others with their keys; the
  -- heap is sound again, and the node is the last of the free ones.
  pub pop-first :
      (x : ℕ) (fs us : List ℕ)
      → IsHeap past cap h fs us
      → first past cap h ≡ some x
      → TakenOut (pop past cap h) x fs us
  pop-first x fs us v e =
      let q = first-slot x e in
      let z : 0 < length us = omega (arith, q, v.pool_in.used_counted) in
      let (before, later, split) = In-split x us (rw q.1 at (v.placed.held 0 z)) in
      let m = length (before ++ later) in
      let n : length (before ++ x ∷ later) ≡ m + 1 =
        omega (arith, length-append before (x ∷ later), length-append before later) in
      let v' = subst (λ l. IsHeap past cap h fs l) split v in
      let s =
        sunk past cap h 0 x m fs before later v' n (omega arith) q.1 (λ w. absurd (omega arith)) in
      (
        before,
        later,
        _,
        split,
        pop_run past cap h m x s.0 (v'.pool_in.used_counted ∙ n) q.1
            (sunk_pool past cap h 0 x m fs before later v' n (omega arith) q.1
              (λ w. absurd (omega arith)))
            s.1,
        refl,
        sunk-IsHeap past cap h 0 x m fs before later v' n (omega arith) q.1
            (λ w. absurd (omega arith)),
      )

  -- Erase of a node of a sound heap takes it out and keeps the others with their keys, and the heap is
  -- sound again, unless the key of the last node is below that of the parent of the node's slot.
  pub erase_node_lem :
      (x i m : ℕ) (fs us : List ℕ)
      → IsHeap past cap h fs us
      → In x us
      → heap_index h.slots x ≡ some i
      → length us ≡ m + 1
      → (0 < i → rank h.keys h.slots ((i - 1) / 2) ≤ rank h.keys h.slots m)
      → TakenOut (erase_node past cap x h) x fs us
  erase_node_lem x i m fs us v k e l w =
      let f = v.placed.found x k in
      let same : i ≡ f.0 =
        some_injective i f.0 (sym e ∙ ap (heap_index h.slots) (sym f.2) ∙ v.placed.back f.0 f.1) in
      let a : i < m + 1 = omega (arith, same, f.1, l) in
      let here : slot h.slots i ≡ x = ap (slot h.slots) same ∙ f.2 in
      let (before, later, split) = In-split x us k in
      let n : length (before ++ x ∷ later) ≡ m + 1 = ap length (sym split) ∙ l in
      let v' = subst (λ t. IsHeap past cap h fs t) split v in
      let s = sunk past cap h i x m fs before later v' n a here w in
      (
        before,
        later,
        _,
        split,
        erase_run past cap h m i x s.0 (v'.pool_in.used_counted ∙ n) e a
            (sunk_pool past cap h i x m fs before later v' n a here w) s.1,
        refl,
        sunk-IsHeap past cap h i x m fs before later v' n a here w,
      )

  -- Erase of a node of a sound heap leaves it out of order where the last node takes its slot and has a
  -- key below that of the parent of the slot: nothing moves that node up.
  pub erase_node_breaks :
      (x i m : ℕ) (fs us : List ℕ)
      → IsHeap past cap h fs us
      → In x us
      → heap_index h.slots x ≡ some i
      → length us ≡ m + 1
      → i < m
      → 0 < i
      → rank h.keys h.slots m < rank h.keys h.slots ((i - 1) / 2)
      → (h' : Heap) × (erase_node past cap x h ≡ some h')
        × (h'.keys ≡ h.keys)
        × (rank h'.keys h'.slots i < rank h'.keys h'.slots ((i - 1) / 2))
  erase_node_breaks x i m fs us v k e l y z w =
      let f = v.placed.found x k in
      let same : i ≡ f.0 =
        some_injective i f.0 (sym e ∙ ap (heap_index h.slots) (sym f.2) ∙ v.placed.back f.0 f.1) in
      let here : slot h.slots i ≡ x = ap (slot h.slots) same ∙ f.2 in
      let (before, later, split) = In-split x us k in
      let n : length (before ++ x ∷ later) ≡ m + 1 = ap length (sym split) ∙ l in
      let v' = subst (λ t. IsHeap past cap h fs t) split v in
      let s = place i (slot h.slots m) h.slots in
      let at =
        slot-place h.slots i (slot h.slots m) (omega (arith, v.placed.slotted, v.placed.room, l)) in
      let moved : rank h.keys s i ≡ rank h.keys h.slots m =
        ap (λ k. get_or h.keys k 0) (ground (arith, at i)) in
      let kept : (c : ℕ) → c ≢ i → rank h.keys s c ≡ rank h.keys h.slots c =
        λ c d. ap (λ k. get_or h.keys k 0) (ground (arith, at c)) in
      let stays = shift_down_stays h.keys m i s (λ c b d q. omega (
        arith,
        moved,
        kept c (λ r. absurd (omega (arith, r))),
        v.ordered i z (omega arith),
        ap (λ t. rank h.keys h.slots t) q,
        v.ordered c b (omega arith),
      )) in
      (
        _,
        erase_run past cap h m i x s (v'.pool_in.used_counted ∙ n) e (omega arith)
            ((destroy_lem past cap h.pool x fs before later v'.pool_in true).1.used_counted
              ∙ omega (arith, n, length-append before (x ∷ later), length-append before later))
            stays,
        refl,
        omega (arith, moved, kept ((i - 1) / 2) (λ r. absurd (omega (arith, r)))),
      )
