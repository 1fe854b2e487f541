-- ===== src/Pool.antt =====
-- common/common_pool.h: CPool<T, CAPACITY, RECYCLETOTAIL>, an array of nodes on two doubly linked
-- lists: the free nodes and the used ones. A CIndex* into the array is the node's place, `none` is
-- enmInvalidObjectID (and NULL, where a function returns a pointer). A node's object is untouched by
-- the pool: CComplexType's Initialize and Uninitialize do nothing.
pub mod Links
pub mod Walk
pub mod Moves
pub mod Holds
pub mod Joins
pub mod Build
pub mod Fresh
pub mod Create
pub mod Leaves
pub mod Destroy
mod Tests
use lightframe.Common.{
  ℕ, zero, suc, ◌+◌, ◌-◌, ◌%◌, ◌^◌, Bool, true, false, ◌||◌, Option, none, some, List, [], ◌∷◌, ltb,
  leb, ◌==◌, if◌then◌else◌, get_or, set, replicate, Error, Status, ok, err, invalid_argument,
  invalid_object_index, object_index_not_used,
}

pub record Index : Type 0 where
  pub used : Bool
  pub index : Option ℕ
  pub next : Option ℕ
  pub prev : Option ℕ
  pub additional : List ℕ

-- CIndex::Initialize and CIndex::Uninitialize leave a node like this.
abbrev pub blank : Index
blank = record { used = false; index = none; next = none; prev = none; additional = replicate 4 0 }

pub record Pool : Type 0 where
  pub object_count : ℕ
  pub free_count : ℕ
  pub free_head : Option ℕ
  pub free_tail : Option ℕ
  pub used_head : Option ℕ
  pub used_tail : Option ℕ
  pub arr : List Index

-- `==` on two ids
unfoldable pub same_id : Option ℕ → Option ℕ → Bool
same_id none none = true
same_id (some i) (some j) = i == j
same_id none (some j) = false
same_id (some i) none = false

-- `past` is what the memory after the array holds, where a place outside it is read.
module _ (past : Index) where
  -- m_arrIndex[i]
  unfoldable pub at : List Index → ℕ → Index
  at arr i = get_or arr i past

  unfoldable pub set_next : ℕ → Option ℕ → List Index → List Index
  set_next i n arr = set arr i (record (at arr i) { next = n })

  unfoldable pub set_prev : ℕ → Option ℕ → List Index → List Index
  set_prev i p arr = set arr i (record (at arr i) { prev = p })

  unfoldable pub set_used : ℕ → Bool → List Index → List Index
  set_used i b arr = set arr i (record (at arr i) { used = b })

  -- `if (enmInvalidObjectID != id) m_arrIndex[id].SetNext(n)`, and the same for SetPrev
  unfoldable pub set_next_of : Option ℕ → Option ℕ → List Index → List Index
  set_next_of none n arr = arr
  set_next_of (some i) n arr = set_next i n arr

  unfoldable pub set_prev_of : Option ℕ → Option ℕ → List Index → List Index
  set_prev_of none p arr = arr
  set_prev_of (some i) p arr = set_prev i p arr

  -- A node linked behind the last node of a list, and before the first; `id` is its Index().
  unfoldable pub append_node : ℕ → Option ℕ → Option ℕ → List Index → List Index
  append_node i tail id arr = set_next_of tail id (set_next i none (set_prev i tail arr))

  pub prepend_node : ℕ → Option ℕ → Option ℕ → List Index → List Index
  prepend_node i head id arr = set_prev_of head id (set_prev i none (set_next i head arr))

  -- A node's neighbours linked to each other.
  unfoldable pub detach : ℕ → List Index → List Index
  detach i arr =
      let arr' = set_next_of (at arr i).prev (at arr i).next arr in
      set_prev_of (at arr' i).next (at arr' i).prev arr'

-- the id, or where it is enmInvalidObjectID the other one
unfoldable pub or_id : Option ℕ → Option ℕ → Option ℕ
or_id none j = j
or_id (some i) j = some i

-- `cap` is CAPACITY, and `recycle` is RECYCLETOTAIL.
module _ (past : Index) (cap : ℕ) (recycle : Bool) where
  -- the n rounds left of BuildIndexList's loop
  unfoldable pub build_loop : ℕ → ℕ → List Index → List Index
  build_loop zero i arr = arr
  build_loop (suc n) i arr =
      let node = record (at past arr i) { index = some i; prev = some (i - 1) } in
      build_loop n (i + 1) (set_next past (i - 1) (some i) (set arr i node))

  unfoldable pub build_index_list : List Index → List Index
  build_index_list arr =
      let node = record (at past arr 0) { index = some 0; prev = none } in
      set_next past (cap - 1) none (build_loop (cap - 1) 1 (set arr 0 node))

  -- Initialize; Uninitialize and Clear leave the same pool.
  unfoldable pub initialize : Status × Pool
  initialize = (
    ok,
    record {
      object_count = 0;
      free_count = cap;
      free_head = some 0;
      free_tail = some (cap - 1);
      used_head = none;
      used_tail = none;
      arr = build_index_list (replicate cap blank);
    },
  )

  pub is_empty : Pool → Bool
  is_empty p = p.object_count == 0

  unfoldable pub is_full : Pool → Bool
  is_full p = p.object_count == cap

  -- CheckIndex of an id that is not negative: `(int32_t)CAPACITY < nIndex`
  pub check_index : ℕ → Pool → Status
  check_index i p =
      if ltb cap i
      then err invalid_object_index
      else if (at past p.arr i).used
      then ok
      else err object_index_not_used

  -- CheckIndex of a pointer: `pIndex >= m_arrIndex + CAPACITY`
  unfoldable pub check_pointer : ℕ → Pool → Status
  check_pointer i p =
      if leb cap i
      then err invalid_object_index
      else if (at past p.arr i).used
      then ok
      else err object_index_not_used

  pub get_index : ℕ → Pool → Option ℕ
  get_index i p = elim (check_index i p) [ ok ↦ some i | err e ↦ none ]

  -- CreateIndex, with CreateObject: the node that it hands out, and the pool.
  unfoldable pub create_index : Pool → Option ℕ × Pool
  create_index p = if is_full p then (none, p) else elim p.free_head [
    | none ↦ (none, p)
    | some i ↦
        let node = at past p.arr i in
        (
          some i,
          record {
            object_count = (p.object_count + 1) % 2 ^ 32;
            free_count = (p.free_count + (2 ^ 32 - 1)) % 2 ^ 32;
            free_head = node.next;
            free_tail = if same_id p.free_tail node.index then node.next else p.free_tail;
            used_head = or_id p.used_head node.index;
            used_tail = node.index;
            arr =
                set_used past i true (
                  append_node past i p.used_tail node.index
                    (set_prev_of past node.next none p.arr));
          },
        )
  ]

  -- DestroyIndex, with DestroyObject of a pointer.
  unfoldable pub destroy_index : ℕ → Pool → Status × Pool
  destroy_index i p = elim (check_pointer i p) [
    | err e ↦ (err e, p)
    | ok ↦
        let node = at past p.arr i in
        let used_head = if same_id p.used_head node.index then node.next else p.used_head in
        let used_tail = if same_id p.used_tail node.index then node.prev else p.used_tail in
        let object_count = (p.object_count + (2 ^ 32 - 1)) % 2 ^ 32 in
        let free_count = (p.free_count + 1) % 2 ^ 32 in
        if recycle
        then (
          ok,
          record {
            object_count = object_count;
            free_count = free_count;
            free_head = or_id p.free_head node.index;
            free_tail = node.index;
            used_head = used_head;
            used_tail = used_tail;
            arr =
                set_used past i false
                  (append_node past i p.free_tail node.index (detach past i p.arr));
          },
        )
        else (
          ok,
          record {
            object_count = object_count;
            free_count = free_count;
            free_head = node.index;
            free_tail = or_id p.free_tail node.index;
            used_head = used_head;
            used_tail = used_tail;
            arr =
                set_used past i false
                  (prepend_node past i p.free_head node.index (detach past i p.arr));
          },
        )
  ]

  -- DestroyObject of an id
  pub destroy_object : ℕ → Pool → Status × Pool
  destroy_object i p = elim (get_index i p) [
    | none ↦ (err invalid_argument, p)
    | some j ↦ destroy_index j p
  ]
