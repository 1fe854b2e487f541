-- ===== src/RbTree/Loose.antt =====
-- common/common_rbtree.h: Erase of a node that is not in the tree.
use lightframe.Common.{
  ℕ, suc, ◌<◌, ◌≡◌, refl, ap, ◌∙◌, Option, none, some, true, false, length, Status,
}
use lightframe.Pool
use lightframe.Pool.{Index, Pool, same_id, at}
use lightframe.Pool.Destroy.{destroy_refuses}
use lightframe.RbTree.{RbTree, erase_node, erase_cut}
use lightframe.RbTree.Nodes.{
  Color, red, black, Shape, set_root, reset_node, set_parent_of, set_color_of, is_red,
}
use lightframe.RbTree.Rotate.{hang_left}
use lightframe.RbTree.Erase.{Cut, cut_node, cut_one, erase_rebalance, erase_loop}

same_id-none : (o : Option ℕ) → o ≡ none → same_id none o ≡ true
unfolding same_id
same_id-none none e = refl
same_id-none (some j) e = cc

erase_loop_empty :
    (n : ℕ) (w : Shape) → w.root ≡ none → erase_loop (suc n) none none w ≡ some (none, w)
unfolding erase_loop is_red
erase_loop_empty n w e = rw (same_id-none w.root e, erase_loop, is_red) refl

rebalance_empty : (n : ℕ) (w : Shape) → w.root ≡ none → erase_rebalance (suc n) none none w ≡ some w
unfolding erase_rebalance set_color_of
rebalance_empty n w e = rw (erase_loop_empty n w e, erase_rebalance) refl

module _ (past : Index) (cap : ℕ) (i : ℕ) (t : RbTree) where
  abbrev s : Shape
  s = t.shape

  abbrev cut : Cut
  cut = record { color = (s.nodes i).color; child = none; parent = none; shape = set_root none s }

  cut_node-cut :
      (s.nodes i).left ≡ none
      → (s.nodes i).right ≡ none
      → (s.nodes i).parent ≡ none
      → cut_node (suc cap) i s ≡ some cut
  unfolding cut_node cut_one hang_left set_parent_of
  cut_node-cut l r p = rw (l, cut_node, r, cut_one, p) refl

  lost : Shape
  lost = reset_node i (set_root none s)

  lost_root : lost.root ≡ none
  unfolding lost reset_node set_root
  lost_root = refl

  erase_cut_any :
      (k : Color)
      → erase_cut past cap i
          (record { color = k; child = none; parent = none; shape = set_root none s })
          t
        ≡ some (record { pool = (Pool.destroy_index past cap true i t.pool).1; shape = lost })
  unfolding erase_cut lost
  erase_cut_any red = refl
  erase_cut_any black =
      rw (rebalance_empty cap (reset_node i (set_root none s)) lost_root, erase_cut) refl

  pub erase_node_cut :
      (c : Cut)
      → cut_node (suc cap) i s ≡ some c
      → erase_node past cap i t ≡ erase_cut past cap i c t
  unfolding erase_node
  erase_node_cut c e = rw (e, erase_node) refl

-- Erase of a node that the pool does not use and that has no links, as Erase leaves a node and
-- Initialize makes it, returns, keeps the pool as it is, and leaves the tree without a root, whatever
-- nodes it had.
pub erase_node_loose :
    (past : Index) (cap : ℕ) (i : ℕ) (t : RbTree)
    → length t.pool.arr ≡ cap
    → (i < cap → (at past t.pool.arr i).used ≡ false)
    → (t.shape.nodes i).left ≡ none
    → (t.shape.nodes i).right ≡ none
    → (t.shape.nodes i).parent ≡ none
    → (t' : RbTree) × (erase_node past cap i t ≡ some t')
      × (t'.shape.root ≡ none)
      × (t'.pool ≡ t.pool)
erase_node_loose past cap i t a u l r p = (
  record { pool = (Pool.destroy_index past cap true i t.pool).1; shape = lost past cap i t },
  erase_node_cut past cap i t (cut past cap i t) (cut_node-cut past cap i t l r p)
      ∙ erase_cut_any past cap i t (t.shape.nodes i).color,
  lost_root past cap i t,
  ap (λ (x : Status × Pool). x.1) (destroy_refuses past cap true i t.pool a u).0,
)
