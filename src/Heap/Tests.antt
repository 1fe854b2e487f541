-- ===== src/Heap/Tests.antt =====
-- Runs of the heap, and the theorems about it at a heap of six nodes.
use lightframe.Common.{
  ℕ, zero, suc, ◌-◌, ◌/◌, ◌<◌, ◌≤◌, ◌≡◌, ◌≢◌, refl, sym, true, some, none, List, [], ◌∷◌, ◌++◌,
  arith, get_or, set, inl, inr,
}
use lightframe.Pool
use lightframe.Pool.{Pool, blank, create_index, destroy_index}
use lightframe.Pool.Holds.{Holds}
use lightframe.Pool.Fresh.{initialize-Holds}
use lightframe.Pool.Create.{create_lem}
use lightframe.Heap.{
  Heap, slot, rank, insert, pop, erase_node, erase_key, first, find, find_loop, up_loop, shift_up,
  swap, is_empty,
}
use lightframe.Heap.Swap.{In}
use lightframe.Heap.Holds.{IsHeap}
use lightframe.Heap.Insert.{insert_lem}
use lightframe.Heap.Erase.{first_lem}
use lightframe.Heap.Pop.{TakenOut, pop-first, erase_node_lem, erase_node_breaks}
use lightframe.Heap.Find.{erase_key_keeps}

-- The next node of a pool is taken.
abbrev take_one : Pool → Pool
take_one p = (create_index blank 7 true p).1

abbrev six : Pool
six =
    take_one (take_one (take_one (take_one (take_one (take_one (Pool.initialize blank 7 true).1)))))

abbrev members : List ℕ
members = 0 ∷ 1 ∷ 2 ∷ 3 ∷ 4 ∷ 5 ∷ []

six-Holds : Holds blank 7 six (6 ∷ []) members
six-Holds =
    let h0 = (initialize-Holds blank 7 true (omega arith) (omega arith)).1 in
    let h1 = (create_lem blank 7 true _ 0 (1 ∷ 2 ∷ 3 ∷ 4 ∷ 5 ∷ 6 ∷ []) [] h0).1 in
    let h2 = (create_lem blank 7 true _ 1 (2 ∷ 3 ∷ 4 ∷ 5 ∷ 6 ∷ []) (0 ∷ []) h1).1 in
    let h3 = (create_lem blank 7 true _ 2 (3 ∷ 4 ∷ 5 ∷ 6 ∷ []) (0 ∷ 1 ∷ []) h2).1 in
    let h4 = (create_lem blank 7 true _ 3 (4 ∷ 5 ∷ 6 ∷ []) (0 ∷ 1 ∷ 2 ∷ []) h3).1 in
    let h5 = (create_lem blank 7 true _ 4 (5 ∷ 6 ∷ []) (0 ∷ 1 ∷ 2 ∷ 3 ∷ []) h4).1 in
    (create_lem blank 7 true _ 5 (6 ∷ []) (0 ∷ 1 ∷ 2 ∷ 3 ∷ 4 ∷ []) h5).1

-- The last key, 3, is below 10, which is above 11 and 12.
abbrev heap : Heap
heap = record {
  pool = six;
  keys = 1 ∷ 10 ∷ 2 ∷ 11 ∷ 12 ∷ 3 ∷ 0 ∷ [];
  slots = record {
    node_at = 0 ∷ 1 ∷ 2 ∷ 3 ∷ 4 ∷ 5 ∷ 9 ∷ [];
    index_of = some 0 ∷ some 1 ∷ some 2 ∷ some 3 ∷ some 4 ∷ some 5 ∷ none ∷ [];
  };
}

below_six : (P : ℕ → Type 0) → P 0 → P 1 → P 2 → P 3 → P 4 → P 5 → (i : ℕ) → i < 6 → P i
below_six P a b c d e f zero h = a
below_six P a b c d e f (suc zero) h = b
below_six P a b c d e f (suc (suc zero)) h = c
below_six P a b c d e f (suc (suc (suc zero))) h = d
below_six P a b c d e f (suc (suc (suc (suc zero)))) h = e
below_six P a b c d e f (suc (suc (suc (suc (suc zero))))) h = f
below_six P a b c d e f (suc (suc (suc (suc (suc (suc i)))))) h = absurd (omega arith)

heap_found : (x : ℕ) → In x members → (i : ℕ) × (i < 6) × (slot heap.slots i ≡ x)
heap_found x (inl e) = (0, omega arith, sym e)
heap_found x (inr (inl e)) = (1, omega arith, sym e)
heap_found x (inr (inr (inl e))) = (2, omega arith, sym e)
heap_found x (inr (inr (inr (inl e)))) = (3, omega arith, sym e)
heap_found x (inr (inr (inr (inr (inl e))))) = (4, omega arith, sym e)
heap_found x (inr (inr (inr (inr (inr (inl e)))))) = (5, omega arith, sym e)
heap_found x (inr (inr (inr (inr (inr (inr e)))))) = elim e [ ]

heap-IsHeap : IsHeap blank 7 heap (6 ∷ []) members
heap-IsHeap = record {
  pool_in = six-Holds;
  keyed = refl;
  placed = record {
    slotted = refl;
    indexed = refl;
    room = omega arith;
    inside =
        below_six _ (omega arith) (omega arith) (omega arith) (omega arith) (omega arith)
          (omega arith);
    back = below_six _ refl refl refl refl refl refl;
    held =
        below_six _ (inl refl) (inr (inl refl)) (inr (inr (inl refl))) (inr (inr (inr (inl refl))))
          (inr (inr (inr (inr (inl refl))))) (inr (inr (inr (inr (inr (inl refl))))));
    found = heap_found;
  };
  ordered = λ c a b.
      below_six (λ k. 0 < k → rank heap.keys heap.slots ((k - 1) / 2) ≤ rank heap.keys heap.slots k)
        (λ z. omega arith) (λ z. omega arith) (λ z. omega arith) (λ z. omega arith)
        (λ z. omega arith) (λ z. omega arith) c b a;
}

-- A node of key 0 rises to the first slot.
up_to_root :
    shift_up
      (1 ∷ 10 ∷ 2 ∷ 0 ∷ [])
      4
      3
      (record { node_at = 0 ∷ 1 ∷ 2 ∷ 3 ∷ []; index_of = some 0 ∷ some 1 ∷ some 2 ∷ some 3 ∷ [] })
    ≡ some
        (record { node_at = 3 ∷ 0 ∷ 2 ∷ 1 ∷ []; index_of = some 1 ∷ some 3 ∷ some 2 ∷ some 0 ∷ [] })
unfolding shift_up up_loop swap
up_to_root = refl

least_run : first blank 7 heap ≡ some 0
unfolding first is_empty
least_run = ground (arith, six-Holds.used_counted)

key_twelve : find_loop heap.keys 6 12 0 heap.slots ≡ some 4
unfolding find_loop
key_twelve = refl

insert_lem_example :
    (h' : Heap) × (insert blank 7 5 heap ≡ some (some 6, h'))
    × (h'.keys ≡ set heap.keys 6 5)
    × IsHeap blank 7 h' [] (members ++ 6 ∷ [])
insert_lem_example = insert_lem blank 7 heap 5 6 [] members heap-IsHeap

first_lem_example :
    (x : ℕ) × (first blank 7 heap ≡ some x)
    × In x members
    × ((y : ℕ) → In y members → get_or heap.keys x 0 ≤ get_or heap.keys y 0)
first_lem_example = first_lem blank 7 heap (6 ∷ []) 0 (1 ∷ 2 ∷ 3 ∷ 4 ∷ 5 ∷ []) heap-IsHeap

pop-first_example : TakenOut blank 7 heap (pop blank 7 heap) 0 (6 ∷ []) members
pop-first_example = pop-first blank 7 heap 0 (6 ∷ []) members heap-IsHeap least_run

erase_node_lem_example : TakenOut blank 7 heap (erase_node blank 7 2 heap) 2 (6 ∷ []) members
erase_node_lem_example =
    erase_node_lem blank 7 heap 2 2 5 (6 ∷ []) members heap-IsHeap (inr (inr (inl refl))) refl refl
      (omega arith)

-- Node 3 leaves slot 3, and the last node, of key 3, comes under key 10.
erase_node_breaks_example :
    (h' : Heap) × (erase_node blank 7 3 heap ≡ some h')
    × (h'.keys ≡ heap.keys)
    × (rank h'.keys h'.slots 3 < rank h'.keys h'.slots 1)
erase_node_breaks_example =
    erase_node_breaks blank 7 heap 3 3 5 (6 ∷ []) members heap-IsHeap (inr (inr (inr (inl refl))))
      refl refl (omega arith) (omega arith) (omega arith)

erase_key_keeps_example :
    (h' : Heap) × (erase_key blank 7 12 heap ≡ some h')
    × (h'.pool ≡ (destroy_index blank 7 true 4 six).1)
    × (find blank 7 12 h' ≡ some 4)
    × ((i : ℕ) → i < h'.pool.object_count → slot h'.slots i ≢ 5)
erase_key_keeps_example =
    erase_key_keeps blank 7 heap 12 4 4 5 (6 ∷ []) members heap-IsHeap refl key_twelve refl refl
