-- ===== src/RbTree.antt =====
-- common/common_rbtree.h: CRBTree<TKEY, T, CAPACITY>, a red-black tree whose nodes stand in an array
-- that is also an object pool. A CIndex* into the array is the node's place, which is its Index() too
-- (BuildIndexList numbers the nodes, and nothing else gives a number); `none` is enmInvalidObjectID
-- and NULL. Keys are unsigned numbers, as the timers' end times are, and an object is a number. The
-- fields of a node that the pool uses (flag, index, next, prev) are those of Pool.Index, since
-- CreateIndex, DestroyIndex, BuildIndexList and CheckIndex are those of CPool with RECYCLETOTAIL
-- set; the fields of the tree are those of Node. Code that would read or write through NULL gives
-- `none`, and so does a loop that has not ended when its fuel has.
pub mod Nodes
pub mod Rotate
pub mod Shapes
mod Tests
pub mod Balance
pub mod Paint
pub mod Place
pub mod Link
pub mod Entries
pub mod Holds
pub mod Blacken
pub mod Turns
pub mod TurnLeft
pub mod TurnRight
pub mod Rounds
pub mod Recolor
pub mod Fixed
pub mod RoundLeft
pub mod RoundRight
pub mod InnerLeft
pub mod Cases
pub mod Find
pub mod Walk
pub mod Loop
pub mod Steps
pub mod Loose
pub mod Fill
pub mod Grow
pub mod InnerRight
pub mod LiftLeft
pub mod LiftRight
pub mod Insert
pub mod Erase
pub mod CutOne
pub mod Parts
pub mod EraseRed
use lightframe.Common.{ℕ, zero, suc, true, Option, none, some, Status, ok, err, if◌then◌else◌}
use lightframe.Pool
use lightframe.Pool.{Index, Pool}
use Nodes.{Shape, blank_node, red, black, reset_node, find_insert_position, find_node, is_red}
use Insert.{link_node, insert_rebalance}
use Erase.{Cut, cut_node, erase_rebalance}

pub record RbTree : Type 0 where
  pub pool : Pool
  pub shape : Shape

-- `cap` is CAPACITY, `past` what the memory after the array holds. No walk of a sound tree has more
-- than CAPACITY nodes, so that the fuel is CAPACITY + 1.
module _ (past : Index) (cap : ℕ) where
  -- Initialize; Uninitialize and Clear leave the same tree.
  unfoldable pub initialize : RbTree
  initialize = record {
    pool = (Pool.initialize past cap true).1;
    shape = record { root = none; nodes = λ i. blank_node };
  }

  -- Insert after FindInsertPostion gave the parent p, and CreateIndex its node.
  unfoldable pub insert_at :
      ℕ → ℕ → Option ℕ → Option ℕ × Pool → RbTree → Option (Option ℕ × RbTree)
  insert_at key object p (none, pool) t = some (none, record t { pool = pool })
  insert_at key object p (some i, pool) t =
      elim (insert_rebalance (suc cap) i (link_node i p key object t.shape)) [
        | none ↦ none
        | some s ↦ some (some i, record { pool = pool; shape = s })
      ]

  unfoldable pub insert : ℕ → ℕ → RbTree → Option (Option ℕ × RbTree)
  insert key object t = elim (find_insert_position (suc cap) key t.shape) [
    | none ↦ none
    | some p ↦ insert_at key object p (Pool.create_index past cap true t.pool) t
  ]

  -- Erase of a node: DestroyIndex, whose status is dropped, ResetRBNode, and EraseRebalance.
  unfoldable pub erase_cut : ℕ → Cut → RbTree → Option RbTree
  erase_cut i c t =
      let pool = (Pool.destroy_index past cap true i t.pool).1 in
      let s = reset_node i c.shape in
      elim c.color [
        | red ↦ some (record { pool = pool; shape = s })
        | black ↦ elim (erase_rebalance (suc cap) c.child c.parent s) [
          | none ↦ none
          | some s' ↦ some (record { pool = pool; shape = s' })
        ]
      ]

  unfoldable pub erase_node : ℕ → RbTree → Option RbTree
  erase_node i t = elim (cut_node (suc cap) i t.shape) [ none ↦ none | some c ↦ erase_cut i c t ]

  -- Erase of a key: every node with it, one after the other, in n rounds at most.
  unfoldable pub erase_key : ℕ → ℕ → RbTree → Option RbTree
  erase_key zero key t = none
  erase_key (suc n) key t = elim (find_node (suc cap) key t.shape) [
    | none ↦ none
    | some none ↦ some t
    | some (some i) ↦ elim (erase_node i t) [ none ↦ none | some t' ↦ erase_key n key t' ]
  ]
