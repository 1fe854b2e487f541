-- ===== src/RbTree/LiftRight.antt =====
-- common/common_rbtree.h: the last rotation of InsertRebalance, where the red parent is a right child.
use lightframe.Common.{ℕ, ◌+◌, ◌≤◌, ◌≡◌, ◌≢◌, refl, ◌∙◌, Option, some, arith}
use lightframe.RbTree.Nodes.{black, Node, Shape, set_color}
use lightframe.RbTree.Rotate.{turn_left}
use lightframe.RbTree.Insert.{lift_right}
use lightframe.RbTree.Shapes.{
  Tree, node, Way, IsTree, IsWay, Once, count, count_way, one_self, IsTree-frame, IsWay-frame,
}
use lightframe.RbTree.Balance.{Rb, RootBlack, RbWay, Rb-frame, RbWay-frame, RootBlack-frame}
use lightframe.RbTree.Paint.{
  KeyKept, paint, paint-Same, paint_upper, paint_lower, paint_other, paint-KeyKept,
}
use lightframe.RbTree.TurnLeft.{
  turn_left-IsTree, turn_left-IsWay, turn_left-SameEntry, rotate_left-turn,
}

module _ (s : Shape) (p g : ℕ) (q : Option ℕ) (x y u : Tree) (up : Way) (n : ℕ)
    (tree : IsTree s.nodes q (some g) (node u g (node y p x)))
    (way : IsWay s.nodes s.root q (some g) up) (once : Once (node u g (node y p x)) up) where
  -- the parent black, the grandparent red, and the grandparent turned below the parent
  abbrev pub lifted_right : Shape
  lifted_right = turn_left g p (paint p g s)

  abbrev m : ℕ → Node
  m = lifted_right.nodes

  tree' : IsTree (paint p g s).nodes q (some g) (node u g (node y p x))
  tree' =
      IsTree-frame s.nodes (paint p g s).nodes q (some g) (node u g (node y p x))
        (λ j e. paint-Same p g s j) tree

  way' : IsWay (paint p g s).nodes (paint p g s).root q (some g) up
  unfolding set_color
  way' =
      IsWay-frame s.nodes (paint p g s).nodes s.root q (some g) up (λ j e. paint-Same p g s j) way

  apart : p ≢ g
  apart e = ground (arith, once p, one_self p)

  entry : (j : ℕ) → (m j).color ≡ ((paint p g s).nodes j).color
  entry j = (turn_left-SameEntry (paint p g s) g p j).0

  other : (j : ℕ) → j ≢ p → j ≢ g → (m j).color ≡ (s.nodes j).color
  other j h k = entry j ∙ paint_other p g s j h k

  rest :
      (j : ℕ)
      → 1 ≤ count j x + count j y + count j u + count_way j up
      → (m j).color ≡ (s.nodes j).color
  rest j h =
      other j (λ e. ground (arith, once j, one_self p)) (λ e. ground (arith, once j, one_self g))

  pub lifted_right-IsTree : IsTree m q (some p) (node (node u g y) p x)
  lifted_right-IsTree = turn_left-IsTree (paint p g s) g p q u y x up tree' way' once

  pub lifted_right-IsWay : IsWay m lifted_right.root q (some p) up
  lifted_right-IsWay = turn_left-IsWay (paint p g s) g p q u y x up tree' way' once

  pub lift_right-lifted : (i : ℕ) → lift_right i p g s ≡ some (i, lifted_right)
  unfolding lift_right
  lift_right-lifted i =
      rw (rotate_left-turn (paint p g s) g p q u y x up tree' way' once, lift_right) refl

  pub lifted_right-black : (m p).color ≡ black
  lifted_right-black = entry p ∙ paint_upper p g s apart

  pub lifted_right-KeyKept : (j : ℕ) → KeyKept s.nodes m j
  lifted_right-KeyKept j =
      let e = turn_left-SameEntry (paint p g s) g p j in
      let k = paint-KeyKept p g s j in (e.1 ∙ k.0, e.2 ∙ k.1)

  pub lifted_right-Rb :
      Rb s.nodes x n
      → Rb s.nodes y n
      → Rb s.nodes u n
      → RootBlack s.nodes y
      → RootBlack s.nodes u
      → Rb m (node (node u g y) p x) (n + 1)
  lifted_right-Rb bx by bu ry ru = (
    λ e. cc (lifted_right-black),
    n,
    rw lifted_right-black refl,
    (
      λ e. (
        RootBlack-frame s.nodes m u (λ j h. rest j (omega arith)) ru,
        RootBlack-frame s.nodes m y (λ j h. rest j (omega arith)) ry,
      ),
      n,
      rw (entry g, paint_lower p g s) (omega arith),
      Rb-frame s.nodes m u n (λ j h. rest j (omega arith)) bu,
      Rb-frame s.nodes m y n (λ j h. rest j (omega arith)) by,
    ),
    Rb-frame s.nodes m x n (λ j h. rest j (omega arith)) bx,
  )

  pub lifted_right-RbWay : RbWay s.nodes (n + 1) up → RbWay m (n + 1) up
  lifted_right-RbWay w = RbWay-frame s.nodes m (n + 1) up (λ j h. rest j (omega arith)) w
