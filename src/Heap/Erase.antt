-- ===== src/Heap/Erase.antt =====
-- common/common_heap.h: First on a sound heap, and what Pop and Erase of a node have in common.
use native.Mathlib.Decide.{ℕ_discrete}
use lightframe.Common.{
  ℕ, zero, suc, ◌+◌, ◌-◌, ◌/◌, ◌<◌, ◌≤◌, ◌≡◌, ◌≢◌, refl, ◌∙◌, true, false, some, List, [], ◌∷◌,
  ◌++◌, arith, length, length-append, get_or, ◌==◌, leb, inl, inr,
}
use lightframe.Pool.{Index, destroy_index}
use lightframe.Pool.Links.{All, Distinct-split}
use lightframe.Pool.Holds.{Holds}
use lightframe.Pool.Destroy.{destroy_lem}
use lightframe.Heap.{
  Heap, Slots, slot, heap_index, rank, place, shift_down, is_empty, first, pop, erase_node,
}
use lightframe.Heap.Swap.{In, Placed}
use lightframe.Heap.Up.{Ordered, Settled}
use lightframe.Heap.Down.{shift_down_settles}
use lightframe.Heap.Holds.{IsHeap, In-All, In-append}
use lightframe.Heap.Remove.{remove-Placed, remove-Sinking}

-- The key in the first slot is the least.
root_least :
    (k : ℕ) (keys : List ℕ) (n : ℕ) (s : Slots) (i : ℕ)
    → Ordered keys n s
    → i < k
    → i < n
    → rank keys s 0 ≤ rank keys s i
root_least zero keys n s i o h l = absurd (omega arith)
root_least (suc k) keys n s i o h l = elim (ℕ_discrete i 0) [
  | yes q ↦ rw q (omega arith)
  | no q ↦
      let up = root_least k keys n s ((i - 1) / 2) o (omega arith) (omega arith) in
      omega (arith, up, o i (omega arith) l)
]

module _ (past : Index) (cap : ℕ) (h : Heap) where
  -- First of a sound heap that is not empty gives a node that it holds, with the least key of all.
  pub first_lem :
      (fs : List ℕ) (u : ℕ) (us : List ℕ)
      → IsHeap past cap h fs (u ∷ us)
      → (x : ℕ) × (first past cap h ≡ some x)
        × In x (u ∷ us)
        × ((y : ℕ) → In y (u ∷ us) → get_or h.keys x 0 ≤ get_or h.keys y 0)
  unfolding first is_empty
  first_lem fs u us v =
      let e : (h.pool.object_count == 0) ≡ false = ground (arith, v.pool_in.used_counted) in
      (
        slot h.slots 0,
        rw e refl,
        v.placed.held 0 (omega arith),
        λ y m.
            let f = v.placed.found y m in
            rw (← f.2) (
              root_least (f.0 + 1) h.keys (length (u ∷ us)) h.slots f.0 v.ordered (omega arith)
                f.1),
      )

  module _ (i x m : ℕ) (fs us ws : List ℕ) (v : IsHeap past cap h fs (us ++ x ∷ ws))
      (n : length (us ++ x ∷ ws) ≡ m + 1) (a : i < m + 1) (e : slot h.slots i ≡ x)
      (w : 0 < i → rank h.keys h.slots ((i - 1) / 2) ≤ rank h.keys h.slots m) where
    -- x is none of the nodes that stay
    stays : In x (us ++ ws) → ⊥
    stays k =
        let d = Distinct-split us (x ∷ ws) v.pool_in.used_list.distinct in
        elim (In-append x us ws k) [
          | inl b ↦ (In-All (λ y. All (λ z. y ≢ z) (x ∷ ws)) x us d.2 b).0 refl
          | inr b ↦ In-All (λ y. x ≢ y) x ws d.1.0 b refl
        ]

    full : Placed cap (m + 1) h.slots (us ++ x ∷ ws)
    full = rw n at v.placed

    rest : length (us ++ ws) ≡ m
    rest = omega (arith, n, length-append us (x ∷ ws), length-append us ws)

    destroyed : Holds past cap (destroy_index past cap true x h.pool).1 (fs ++ x ∷ []) (us ++ ws)
    destroyed = (destroy_lem past cap h.pool x fs us ws v.pool_in true).1

    counted : (destroy_index past cap true x h.pool).1.object_count ≡ m
    counted = destroyed.used_counted ∙ rest

    pub sunk :
        Settled h.keys cap m (us ++ ws) (shift_down h.keys m i (place i (slot h.slots m) h.slots))
    sunk =
        shift_down_settles h.keys cap m (us ++ ws) i (place i (slot h.slots m) h.slots)
          (remove-Placed cap m i h.slots us ws x full a e stays)
          (remove-Sinking cap m i h.slots us ws x full a e stays h.keys (rw n at v.ordered) w)

    pub sunk-IsHeap :
        IsHeap past cap
          (record {
            pool = (destroy_index past cap true x h.pool).1;
            keys = h.keys;
            slots = sunk.0;
          })
          (fs ++ x ∷ [])
          (us ++ ws)
    sunk-IsHeap = record {
      pool_in = destroyed;
      keyed = v.keyed;
      placed = rw rest sunk.2;
      ordered = rw rest sunk.3;
    }

    pub sunk_pool : (destroy_index past cap true x h.pool).1.object_count ≡ m
    sunk_pool = counted

  -- What Pop and Erase are, from the count and the place of the node.
  pub pop_run :
      (m x : ℕ) (s : Slots)
      → h.pool.object_count ≡ m + 1
      → slot h.slots 0 ≡ x
      → (destroy_index past cap true x h.pool).1.object_count ≡ m
      → shift_down h.keys m 0 (place 0 (slot h.slots m) h.slots) ≡ some s
      → pop past cap h
        ≡ some
            (record { pool = (destroy_index past cap true x h.pool).1; keys = h.keys; slots = s })
  unfolding pop is_empty shift_down
  pop_run zero x s c e d r =
      let z : h.pool.object_count - 1 ≡ 0 = omega arith in
      let t : (h.pool.object_count == 0) ≡ false = ground (arith, c) in
      rw (t, e, z) (rw d (ground (arith, r)))
  pop_run (suc m) x s c e d r =
      let z : h.pool.object_count - 1 ≡ suc m = omega arith in
      let t : (h.pool.object_count == 0) ≡ false = ground (arith, c) in
      let more : (suc m == 0) ≡ false = ground arith in rw (t, e, z) (rw d (rw (r, more) refl))

  pub erase_run :
      (m i x : ℕ) (s : Slots)
      → h.pool.object_count ≡ m + 1
      → heap_index h.slots x ≡ some i
      → i < m + 1
      → (destroy_index past cap true x h.pool).1.object_count ≡ m
      → shift_down h.keys m i (place i (slot h.slots m) h.slots) ≡ some s
      → erase_node past cap x h
        ≡ some
            (record { pool = (destroy_index past cap true x h.pool).1; keys = h.keys; slots = s })
  unfolding erase_node is_empty
  erase_run m i x s c e l d r =
      let z : h.pool.object_count - 1 ≡ m = omega arith in
      let t : (h.pool.object_count == 0) ≡ false = ground (arith, c) in
      let b : leb h.pool.object_count i ≡ false = ground (arith, c) in
      rw (t, e) (rw (b, z, d, r) refl)
