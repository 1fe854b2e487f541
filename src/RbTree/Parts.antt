-- ===== src/RbTree/Parts.antt =====
-- common/common_rbtree.h: a balanced tree taken apart at a node, and the steps of Erase on a red
-- node.
use lightframe.Common.{ℕ, ◌≡◌, ◌≢◌, refl, Option, none, some, true, List, [], ◌∷◌, ◌++◌, arith}
use mathlib.Core.Path.{subst}
use lightframe.Pool
use lightframe.Pool.{Index}
use lightframe.Pool.Links.{All-split, All-append}
use lightframe.RbTree.{RbTree, erase_cut}
use lightframe.RbTree.Nodes.{Node, red, Shape, put, reset_node}
use lightframe.RbTree.Erase.{Cut, cut_node, cut_one}
use lightframe.RbTree.Shapes.{Tree, node, Way, top, left_of, right_of, Same, close}
use lightframe.RbTree.Balance.{Rb, RootBlack, RbWay}
use lightframe.RbTree.Paint.{KeyKept}
use lightframe.RbTree.Place.{Red, Red-top, black_above, Sorted}

module _ (m : ℕ → Node) where
  -- A balanced tree taken apart at a subtree.
  pub Rb-open :
      (t : Tree) (up : Way) (k : ℕ)
      → Rb m (close t up) k
      → RootBlack m (close t up)
      → (n : ℕ) × Rb m t n × RbWay m n up × Red m 0 t up
  Rb-open t top k h b = (k, h, tt, Red-top m 0 t b)
  Rb-open t (left_of i r up) k h b =
      let (n, (calm, d, e, bl, br), w, c) = Rb-open (node t i r) up k h b in
      (
        d,
        bl,
        (br, (λ q. ((calm q).1, c q)), subst (λ x. RbWay m x up) e w),
        black_above m 0 t i (left_of i r up) (λ q. (calm q).0) (λ q. q),
      )
  Rb-open t (right_of l i up) k h b =
      let (n, (calm, d, e, bl, br), w, c) = Rb-open (node l i t) up k h b in
      (
        d,
        br,
        (bl, (λ q. ((calm q).0, c q)), subst (λ x. RbWay m x up) e w),
        black_above m 0 t i (right_of l i up) (λ q. (calm q).1) (λ q. q),
      )

  -- The root of the whole tree stays black where a subtree is replaced.
  pub RootBlack-close :
      (t u : Tree) (up : Way)
      → (RootBlack m t → RootBlack m u)
      → RootBlack m (close t up)
      → RootBlack m (close u up)
  RootBlack-close t u top f h = f h
  RootBlack-close t u (left_of i r up) f h = RootBlack-close (node t i r) (node u i r) up (λ q. q) h
  RootBlack-close t u (right_of l i up) f h =
      RootBlack-close (node l i t) (node l i u) up (λ q. q) h

  pub Sorted-without : (xs ys : List ℕ) (i : ℕ) → Sorted m (xs ++ (i ∷ ys)) → Sorted m (xs ++ ys)
  Sorted-without [] ys i h = h.1
  Sorted-without (x ∷ xs) ys i h =
      let a = All-split _ xs (i ∷ ys) h.0 in
      (All-append _ xs ys a.0 a.1.1, Sorted-without xs ys i h.1)

module _ (s : Shape) (i j : ℕ) where
  pub reset_node-Same : j ≢ i → Same s.nodes (reset_node i s).nodes j
  unfolding reset_node put
  reset_node-Same n = ground arith

  pub reset_node-KeyKept : j ≢ i → KeyKept s.nodes (reset_node i s).nodes j
  unfolding reset_node put
  reset_node-KeyKept n = ground arith

  pub reset_node-color : ((reset_node i s).nodes j).color ≡ (s.nodes j).color
  unfolding reset_node put
  reset_node-color = ground arith

pub cut_node-left :
    (s : Shape) (n i : ℕ)
    → (s.nodes i).left ≡ none
    → cut_node n i s ≡ some (cut_one i (s.nodes i).right s)
unfolding cut_node
cut_node-left s n i e = rw (e, cut_node) refl

pub cut_one-color : (s : Shape) (i : ℕ) (o : Option ℕ) → (cut_one i o s).color ≡ (s.nodes i).color
unfolding cut_one
cut_one-color s i o = refl

-- A cut of a red node is all that Erase does to the tree.
pub erase_cut-red :
    (past : Index) (cap i : ℕ) (c : Cut) (t : RbTree)
    → c.color ≡ red
    → erase_cut past cap i c t
      ≡ some (record {
        pool = (Pool.destroy_index past cap true i t.pool).1;
        shape = reset_node i c.shape;
      })
unfolding erase_cut
erase_cut-red past cap i c t e = rw (e, erase_cut) refl
