-- ===== src/RbTree/Holds.antt =====
-- common/common_rbtree.h: what a sound red-black tree holds.
use lightframe.Common.{ℕ, ◌≡◌, none, List, length}
use lightframe.Pool.{Index}
use lightframe.Pool.Holds.{Holds}
use lightframe.RbTree.{RbTree}
use lightframe.RbTree.Shapes.{Tree, IsTree, ids, depth, count}
use lightframe.RbTree.Balance.{Rb, RootBlack}
use lightframe.RbTree.Place.{Sorted}
use lightframe.RbTree.Entries.{times}

-- The links of the nodes make up the tree, whose nodes are the used ones of the pool; the root is
-- black, no red node has a red child, all ways down pass as many black nodes, and the keys do not
-- fall from left to right.
pub record IsRbTree (past : Index) (cap : ℕ) (t : RbTree) (tree : Tree) (free used : List ℕ)
    : Type 0 where
  pub pool : Holds past cap t.pool free used
  pub links : IsTree t.shape.nodes none t.shape.root tree
  pub members : (j : ℕ) → count j tree ≡ times j used
  pub sizes : depth tree ≡ length used
  pub height : ℕ
  pub balanced : Rb t.shape.nodes tree height
  pub black_root : RootBlack t.shape.nodes tree
  pub sorted : Sorted t.shape.nodes (ids tree)
