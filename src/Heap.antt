-- ===== src/Heap.antt =====
-- common/common_heap.h: CMinHeap<TKEY, T, CAPACITY>, a binary heap of pointers to nodes. The nodes'
-- flags, counters and two lists are kept as in CPool: CreateIndex, DestroyIndex and BuildIndexList are
-- written out again there with pointers for ids, and are taken from Pool with RECYCLETOTAIL set. A node
-- is its place in m_arrIndex. Keys are numbers. The objects of the nodes are left out: the heap never
-- reads them. Indices stay below twice the capacity plus two, so an int32_t does not overflow.
pub mod Swap
pub mod Up
pub mod Down
pub mod Holds
pub mod Insert
pub mod Remove
pub mod Erase
pub mod Pop
pub mod Find
mod Tests
use lightframe.Common.{
  ℕ, zero, suc, ◌+◌, ◌-◌, ◌*◌, ◌/◌, Bool, true, false, ◌&&◌, ◌||◌, Option, none, some, List, [],
  ◌∷◌, ltb, leb, ◌==◌, if◌then◌else◌, get_or, set, replicate, sub32, Status, ok,
}
use lightframe.Pool
use lightframe.Pool.{Index, Pool, create_index, destroy_index}

-- m_arrIndexPrt, and the m_iHeapIndex of every node; `none` is enmInvalidHeapIndex.
pub record Slots : Type 0 where
  pub node_at : List ℕ
  pub index_of : List (Option ℕ)

pub record Heap : Type 0 where
  pub pool : Pool
  pub keys : List ℕ
  pub slots : Slots

-- m_arrIndexPrt[i]
abbrev pub slot : Slots → ℕ → ℕ
slot s i = get_or s.node_at i 0

abbrev pub heap_index : Slots → ℕ → Option ℕ
heap_index s x = get_or s.index_of x none

-- m_arrIndexPrt[i]->m_key
abbrev pub rank : List ℕ → Slots → ℕ → ℕ
rank keys s i = get_or keys (slot s i) 0

-- Swap(m_arrIndexPrt[i], m_arrIndexPrt[j])
pub swap : ℕ → ℕ → Slots → Slots
swap i j s =
    let x = slot s i in
    let y = slot s j in
    record {
      node_at = set (set s.node_at j x) i y;
      index_of = set (set s.index_of y (heap_index s x)) x (heap_index s y);
    }

-- `m_arrIndexPrt[i] = node; node->m_iHeapIndex = i`
pub place : ℕ → ℕ → Slots → Slots
place i x s = record { node_at = set s.node_at i x; index_of = set s.index_of x (some i) }

module _ (keys : List ℕ) (n : ℕ) where
  -- The loops return `none` where the fuel ends before they do; `n` is m_nObjectCount.
  pub up_loop : ℕ → ℕ → Slots → Option Slots
  up_loop zero c s = none
  up_loop (suc k) c s = elim (c == 0) [
    | true ↦ some s
    | false ↦
        let p = (c - 1) / 2 in
        elim (leb (rank keys s p) (rank keys s c)) [
          | true ↦ some s
          | false ↦ up_loop k p (swap p c s)
        ]
  ]

  pub shift_up : ℕ → Slots → Option Slots
  shift_up c s = if leb c 0 || leb n c then some s else up_loop (c + 1) c s

  -- one round's iSmallest, from the last one
  pub smallest : ℕ → ℕ → Slots → ℕ
  smallest c last s =
      let l = 2 * c + 1 in
      let r = 2 * c + 2 in
      let m = if ltb l n then (if ltb (rank keys s l) (rank keys s c) then l else c) else last in
      if ltb r n && ltb (rank keys s r) (rank keys s m) then r else m

  pub down_loop : ℕ → ℕ → ℕ → Slots → Option Slots
  down_loop zero c last s = none
  down_loop (suc k) c last s =
      let m = smallest c last s in
      elim (c == m) [ true ↦ some s | false ↦ down_loop k m m (swap c m s) ]

  pub shift_down : ℕ → Slots → Option Slots
  shift_down c s = if leb n c then some s else down_loop (n + 1) c c s

-- the loop of FindNode and of Erase by key, with k rounds left from i on
pub find_loop : List ℕ → ℕ → ℕ → ℕ → Slots → Option ℕ
find_loop keys zero key i s = none
find_loop keys (suc k) key i s =
    if rank keys s i == key then some i else find_loop keys k key (i + 1) s

-- `past` and `cap` are as for the pool.
module _ (past : Index) (cap : ℕ) where
  -- the rest of an operation that ends with a shift
  abbrev pub shifted : Option Slots → Heap → Option Heap
  shifted none h = none
  shifted (some s) h = some (record h { slots = s })

  -- Initialize; what m_arrIndexPrt holds is not touched.
  pub initialize : List ℕ → Status × Heap
  initialize old = (
    ok,
    record {
      pool = (Pool.initialize past cap true).1;
      keys = replicate cap 0;
      slots = record { node_at = old; index_of = replicate cap none };
    },
  )

  pub is_empty : Heap → Bool
  is_empty h = h.pool.object_count == 0

  -- Insert: the node, and the heap.
  pub insert : ℕ → Heap → Option (Option ℕ × Heap)
  insert key h =
      let (ret, p) = create_index past cap true h.pool in
      elim ret [
        | none ↦ some (none, record h { pool = p })
        | some x ↦
            let last = sub32 p.object_count 1 in
            let keys = set h.keys x key in
            elim (shift_up keys p.object_count last (place last x h.slots)) [
              | none ↦ none
              | some s ↦ some (some x, record { pool = p; keys = keys; slots = s })
            ]
      ]

  pub pop : Heap → Option Heap
  pop h =
      if is_empty h
      then some h
      else let n = h.pool.object_count in
        let x = slot h.slots 0 in
        let s = place 0 (slot h.slots (n - 1)) h.slots in
        let p = (destroy_index past cap true x h.pool).1 in
        let h' : Heap = record { pool = p; keys = h.keys; slots = s } in
        if is_empty h' then some h' else shifted (shift_down h.keys p.object_count 0 s) h'

  -- Erase(CIndex*)
  pub erase_node : ℕ → Heap → Option Heap
  erase_node x h =
      let n = h.pool.object_count in
      if is_empty h then some h else elim (heap_index h.slots x) [
        | none ↦ some h
        | some i ↦
            if leb n i
            then some h
            else let s = place i (slot h.slots (n - 1)) h.slots in
              let p = (destroy_index past cap true x h.pool).1 in
              let h' : Heap = record { pool = p; keys = h.keys; slots = s } in
              shifted (shift_down h.keys p.object_count i s) h'
      ]

  -- Erase(TKEY)
  pub erase_key : ℕ → Heap → Option Heap
  erase_key key h = elim (find_loop h.keys h.pool.object_count key 0 h.slots) [
    | none ↦ some h
    | some i ↦
        let p = (destroy_index past cap true (slot h.slots i) h.pool).1 in
        let h' : Heap = record h { pool = p } in
        let n = p.object_count in
        if is_empty h'
        then some h'
        else if i == n
        then some h'
        else let s : Slots = record h.slots {
          node_at = set h.slots.node_at i (slot h.slots (sub32 n 1));
        } in
          shifted (shift_down h.keys n i s) (record h' { slots = s })
  ]

  pub first : Heap → Option ℕ
  first h = if is_empty h then none else some (slot h.slots 0)

  -- Find, FindNode
  pub find : ℕ → Heap → Option ℕ
  find key h = elim (find_loop h.keys h.pool.object_count key 0 h.slots) [
    | none ↦ none
    | some i ↦ some (slot h.slots i)
  ]
