-- ===== src/RbTree/LiftLeft.antt =====
-- common/common_rbtree.h: the last rotation of InsertRebalance, where the red parent is a left child.
use lightframe.Common.{ℕ, ◌+◌, ◌≤◌, ◌≡◌, ◌≢◌, refl, ◌∙◌, Option, some, arith}
use lightframe.RbTree.Nodes.{black, Node, Shape, set_color}
use lightframe.RbTree.Rotate.{turn_right}
use lightframe.RbTree.Insert.{lift_left}
use lightframe.RbTree.Shapes.{
  Tree, node, Way, IsTree, IsWay, Once, count, count_way, one_self, IsTree-frame, IsWay-frame,
}
use lightframe.RbTree.Balance.{Rb, RootBlack, RbWay, Rb-frame, RbWay-frame, RootBlack-frame}
use lightframe.RbTree.Paint.{
  KeyKept, paint, paint-Same, paint_upper, paint_lower, paint_other, paint-KeyKept,
}
use lightframe.RbTree.TurnRight.{
  turn_right-IsTree, turn_right-IsWay, turn_right-SameEntry, rotate_right-turn,
}

module _ (s : Shape) (p g : ℕ) (q : Option ℕ) (x y u : Tree) (up : Way) (n : ℕ)
    (tree : IsTree s.nodes q (some g) (node (node x p y) g u))
    (way : IsWay s.nodes s.root q (some g) up) (once : Once (node (node x p y) g u) up) where
  -- the parent black, the grandparent red, and the grandparent turned below the parent
  abbrev pub lifted_left : Shape
  lifted_left = turn_right g p (paint p g s)

  abbrev m : ℕ → Node
  m = lifted_left.nodes

  tree' : IsTree (paint p g s).nodes q (some g) (node (node x p y) g u)
  tree' =
      IsTree-frame s.nodes (paint p g s).nodes q (some g) (node (node x p y) g u)
        (λ j e. paint-Same p g s j) tree

  way' : IsWay (paint p g s).nodes (paint p g s).root q (some g) up
  unfolding set_color
  way' =
      IsWay-frame s.nodes (paint p g s).nodes s.root q (some g) up (λ j e. paint-Same p g s j) way

  apart : p ≢ g
  apart e = ground (arith, once p, one_self p)

  entry : (j : ℕ) → (m j).color ≡ ((paint p g s).nodes j).color
  entry j = (turn_right-SameEntry (paint p g s) g p j).0

  other : (j : ℕ) → j ≢ p → j ≢ g → (m j).color ≡ (s.nodes j).color
  other j h k = entry j ∙ paint_other p g s j h k

  rest :
      (j : ℕ)
      → 1 ≤ count j x + count j y + count j u + count_way j up
      → (m j).color ≡ (s.nodes j).color
  rest j h =
      other j (λ e. ground (arith, once j, one_self p)) (λ e. ground (arith, once j, one_self g))

  pub lifted_left-IsTree : IsTree m q (some p) (node x p (node y g u))
  lifted_left-IsTree = turn_right-IsTree (paint p g s) g p q u y x up tree' way' once

  pub lifted_left-IsWay : IsWay m lifted_left.root q (some p) up
  lifted_left-IsWay = turn_right-IsWay (paint p g s) g p q u y x up tree' way' once

  pub lift_left-lifted : (i : ℕ) → lift_left i p g s ≡ some (i, lifted_left)
  unfolding lift_left
  lift_left-lifted i =
      rw (rotate_right-turn (paint p g s) g p q u y x up tree' way' once, lift_left) refl

  pub lifted_left-black : (m p).color ≡ black
  lifted_left-black = entry p ∙ paint_upper p g s apart

  pub lifted_left-KeyKept : (j : ℕ) → KeyKept s.nodes m j
  lifted_left-KeyKept j =
      let e = turn_right-SameEntry (paint p g s) g p j in
      let k = paint-KeyKept p g s j in (e.1 ∙ k.0, e.2 ∙ k.1)

  pub lifted_left-Rb :
      Rb s.nodes x n
      → Rb s.nodes y n
      → Rb s.nodes u n
      → RootBlack s.nodes y
      → RootBlack s.nodes u
      → Rb m (node x p (node y g u)) (n + 1)
  lifted_left-Rb bx by bu ry ru = (
    λ e. cc (lifted_left-black),
    n,
    rw lifted_left-black refl,
    Rb-frame s.nodes m x n (λ j h. rest j (omega arith)) bx,
    (
      λ e. (
        RootBlack-frame s.nodes m y (λ j h. rest j (omega arith)) ry,
        RootBlack-frame s.nodes m u (λ j h. rest j (omega arith)) ru,
      ),
      n,
      rw (entry g, paint_lower p g s) (omega arith),
      Rb-frame s.nodes m y n (λ j h. rest j (omega arith)) by,
      Rb-frame s.nodes m u n (λ j h. rest j (omega arith)) bu,
    ),
  )

  pub lifted_left-RbWay : RbWay s.nodes (n + 1) up → RbWay m (n + 1) up
  lifted_left-RbWay w = RbWay-frame s.nodes m (n + 1) up (λ j h. rest j (omega arith)) w
