-- ===== src/Heap/Insert.antt =====
-- common/common_heap.h: Insert on a sound heap.
use lightframe.Common.{
  ℕ, ◌+◌, ◌-◌, ◌/◌, ◌<◌, ◌≡◌, ◌≢◌, refl, sym, ap, ◌∙◌, true, Option, some, none, List, [], ◌∷◌,
  ◌++◌, arith, length, length-append, set, length-set, sub32,
}
use lightframe.Pool.{Index, Pool, create_index}
use lightframe.Pool.Links.{All, Distinct-split}
use lightframe.Pool.Create.{create_lem, create_full}
use lightframe.Heap.{Heap, Slots, slot, rank, place, shift_up, insert}
use lightframe.Heap.Swap.{In, Placed}
use lightframe.Heap.Up.{Ordered, Rising, shift_up_settles}
use lightframe.Heap.Holds.{IsHeap, In-All, slot-place, rank-set, place-Placed}

-- The new node joins behind the last; only the edge above it may be out of order.
place-Rising :
    (cap n : ℕ) (keys : List ℕ) (s : Slots) (xs : List ℕ) (x key : ℕ)
    → Placed cap n s xs
    → Ordered keys n s
    → n < cap
    → x < length keys
    → (In x xs → ⊥)
    → Rising (set keys x key) (n + 1) (place n x s) n
place-Rising cap n keys s xs x key v o a b new =
    let p : n < length s.node_at = omega (arith, v.slotted) in
    let at = slot-place s n x p in
    let same : (c : ℕ) → c < n → rank (set keys x key) (place n x s) c ≡ rank keys s c = λ c h.
      let other : x ≢ slot s c = λ e. new (rw e (v.held c h)) in
      let e : slot (place n x s) c ≡ slot s c = ground (arith, at c) in
      rw e (ground (arith, rank-set keys x key s c b)) in
    record {
      inside = omega arith;
      edges = λ e z l q. ground (arith, same e, same ((e - 1) / 2), o e);
      below = λ e z l q w. absurd (omega arith);
    }

module _ (past : Index) (cap : ℕ) (h : Heap) where
  -- the run of Insert, from those of its calls
  insert_run :
      (key x k : ℕ) (s : Slots)
      → (create_index past cap true h.pool).0 ≡ some x
      → sub32 (create_index past cap true h.pool).1.object_count 1 ≡ k
      → (create_index past cap true h.pool).1.object_count ≡ k + 1
      → shift_up (set h.keys x key) (k + 1) k (place k x h.slots) ≡ some s
      → insert past cap key h
        ≡ some (
          some x,
          record {
            pool = (create_index past cap true h.pool).1;
            keys = set h.keys x key;
            slots = s;
          },
        )
  unfolding insert
  insert_run key x k s a b c e = rw (insert, a) (rw (b, c) (rw (insert, e) refl))

  insert_refuses :
      (key : ℕ)
      → create_index past cap true h.pool ≡ (none, h.pool)
      → insert past cap key h ≡ some (none, h)
  unfolding insert
  insert_refuses key e =
      let q : (create_index past cap true h.pool).0 ≡ none = ap (λ (r : Option ℕ × Pool). r.0) e in
      rw (insert, q) (ap (λ (r : Option ℕ × Pool). some (none, record h { pool = r.1 })) e)

  -- Insert into a sound heap with a free node takes the first free node, gives it the key and leaves
  -- the other keys alone; the heap is sound again and holds that node besides the others.
  pub insert_lem :
      (key x : ℕ) (fs us : List ℕ)
      → IsHeap past cap h (x ∷ fs) us
      → (h' : Heap) × (insert past cap key h ≡ some (some x, h'))
        × (h'.keys ≡ set h.keys x key)
        × IsHeap past cap h' fs (us ++ x ∷ [])
  insert_lem key x fs us v =
      let made = create_lem past cap true h.pool x fs us v.pool_in in
      let p = (create_index past cap true h.pool).1 in
      let w = v.pool_in.whole in
      let x_in = v.pool_in.free_list.inside.0 in
      let count : p.object_count ≡ length us + 1 =
        made.1.used_counted ∙ length-append us (x ∷ []) in
      let last : sub32 p.object_count 1 ≡ length us = omega (arith, count, w, v.pool_in.small) in
      let d = Distinct-split us (x ∷ []) made.1.used_list.distinct in
      let new : In x us → ⊥ = λ m. (In-All (λ y. All (λ z. y ≢ z) (x ∷ [])) x us d.2 m).0 refl in
      let s = place (length us) x h.slots in
      let placed = place-Placed cap (length us) h.slots us x v.placed (omega arith) x_in new in
      let rising =
        place-Rising cap (length us) h.keys h.slots us x key v.placed v.ordered (omega arith)
          (omega (arith, v.keyed)) new in
      let run =
        shift_up_settles (set h.keys x key) cap (length us + 1) (us ++ x ∷ []) (length us) s placed
          rising in
      let n : length us + 1 ≡ length (us ++ x ∷ []) = sym (length-append us (x ∷ [])) in
      (
        record { pool = p; keys = set h.keys x key; slots = run.0 },
        insert_run key x (length us) run.0 made.0 last count run.1,
        refl,
        record {
          pool_in = made.1;
          keyed = length-set h.keys x key ∙ v.keyed;
          placed = rw n at run.2;
          ordered = rw n at run.3;
        },
      )

  -- Insert into a sound heap without a free node gives NULL and changes nothing.
  pub insert_full :
      (key : ℕ) (us : List ℕ) → IsHeap past cap h [] us → insert past cap key h ≡ some (none, h)
  insert_full key us v = insert_refuses key (create_full past cap true h.pool us v.pool_in)
