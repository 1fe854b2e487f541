-- ===== src/RbTree/InnerLeft.antt =====
-- common/common_rbtree.h: the round of InsertRebalance with two rotations, where the red parent is a
-- left child.
use lightframe.Common.{ℕ, suc, ◌+◌, ◌≡◌, refl, ◌∙◌, Option, some, false, arith, append_assoc}
use mathlib.Core.Path.{subst}
use lightframe.RbTree.Nodes.{red, Node, Shape, is_red}
use lightframe.RbTree.Rotate.{turn_left}
use lightframe.RbTree.Insert.{insert_loop}
use lightframe.RbTree.Shapes.{Tree, node, Way, left_of, IsTree, IsWay, Once, ids, close}
use lightframe.RbTree.Balance.{
  Rb, RootBlack, RbWay, ids-close, Rb-frame, RootBlack-frame, RbWay-frame,
}
use lightframe.RbTree.Paint.{KeyKept-trans}
use lightframe.RbTree.Rounds.{insert_loop_step, insert_round_left, insert_left_inner}
use lightframe.RbTree.Recolor.{RootBlack-is_red}
use lightframe.RbTree.TurnLeft.{
  turn_left-IsTree, turn_left-IsWay, turn_left-SameEntry, rotate_left-turn,
}
use lightframe.RbTree.LiftLeft.{
  lifted_left, lifted_left-IsTree, lifted_left-IsWay, lift_left-lifted, lifted_left-black,
  lifted_left-KeyKept, lifted_left-Rb, lifted_left-RbWay,
}
use lightframe.RbTree.Fixed.{Fixed, Fixed-step, settle}

-- The node is the parent's right child, and the uncle is black: the parent is first turned below it.
module _ (fuel : ℕ) (s : Shape) (q : Option ℕ) (p g i : ℕ) (a l r u : Tree) (up : Way) (n : ℕ)
    (tree : IsTree s.nodes q (some g) (node (node a p (node l i r)) g u))
    (way : IsWay s.nodes s.root q (some g) up)
    (once : Once (node (node a p (node l i r)) g u) up) where
  abbrev turned_left : Shape
  turned_left = turn_left p i s

  abbrev m : ℕ → Node
  m = turned_left.nodes

  low_tree : IsTree s.nodes (some g) (some p) (node a p (node l i r))
  low_tree = (refl, tree.2.1, tree.2.2, tree.2.3)

  low-IsWay : IsWay s.nodes s.root (some g) (some p) (left_of g u up)
  low-IsWay = (refl, tree.2.0, tree.3, rw tree.1 way)

  low-Once : Once (node a p (node l i r)) (left_of g u up)
  low-Once j = omega (arith, once j)

  new : IsTree m (some g) (some i) (node (node a p l) i r)
  new = turn_left-IsTree s p i (some g) a l r (left_of g u up) low_tree low-IsWay low-Once

  new-IsWay : IsWay m turned_left.root (some g) (some i) (left_of g u up)
  new-IsWay = turn_left-IsWay s p i (some g) a l r (left_of g u up) low_tree low-IsWay low-Once

  tree' : IsTree m (m g).parent (some g) (node (node (node a p l) i r) g u)
  tree' = (refl, refl, rw new-IsWay.1 new, new-IsWay.2)

  way' : IsWay m turned_left.root (m g).parent (some g) up
  way' = new-IsWay.3

  once' : Once (node (node (node a p l) i r) g u) up
  once' j = omega (arith, once j)

  color : (j : ℕ) → (m j).color ≡ (s.nodes j).color
  color j = (turn_left-SameEntry s p i j).0

  -- The nodes of the round end in the same order.
  order :
      ids (close (node (node a p l) i (node r g u)) up)
      ≡ ids (close (node (node a p (node l i r)) g u) up)
  order =
      ids-close (node (node a p l) i (node r g u)) (node (node a p (node l i r)) g u) up
        (simp (append_assoc))

  pub inner :
      (s.nodes i).parent ≡ some p
      → (s.nodes p).color ≡ red
      → is_red (s.nodes g).right s ≡ false
      → Rb s.nodes a n
      → RootBlack s.nodes a
      → (s.nodes i).color ≡ red
      → Rb s.nodes (node l i r) n
      → RbWay s.nodes (n + 1) up
      → Rb s.nodes u n
      → Fixed
          (insert_loop (suc (suc fuel)) i s)
          s
          (ids (close (node (node a p (node l i r)) g u) up))
  inner e is h ra ba red_i (calm, k, w, rl, rr) rc ru =
      let h' = lifted_left turned_left i g (m g).parent (node a p l) r u up n tree' way' once' in
      let tree2 =
        lifted_left-IsTree turned_left i g (m g).parent (node a p l) r u up n tree' way' once' in
      let b =
        lifted_left-black turned_left i g (m g).parent (node a p l) r u up n tree' way' once' in
      let z : k ≡ n = (let v = rw red_i at w in omega arith) in
      let rl' = subst (λ x. Rb s.nodes l x) z rl in
      let rr' = subst (λ x. Rb s.nodes r x) z rr in
      let lift : (t : Tree) → Rb s.nodes t n → Rb m t n =
        λ t v. Rb-frame s.nodes m t n (λ j q. color j) v in
      let root : (t : Tree) → RootBlack s.nodes t → RootBlack m t =
        λ t v. RootBlack-frame s.nodes m t (λ j q. color j) v in
      let low : Rb m (node a p l) n = (
        λ q. (root a ba, root l (calm red_i).0),
        n,
        rw (color p, is) (omega arith),
        lift a ra,
        lift l rl',
      ) in
      Fixed-step (insert_loop (suc (suc fuel)) i s) (insert_loop (suc fuel) p h') s h'
        (ids (close (node (node a p (node l i r)) g u) up))
        (ids (close (node (node a p l) i (node r g u)) up))
        (insert_loop_step (suc fuel) i s p p h' e is (
          insert_round_left s i p g tree.2.1 tree.2.0
          ∙ insert_left_inner s i p g turned_left h tree.2.3.0
              (rotate_left-turn s p i (some g) a l r (left_of g u up) low_tree low-IsWay low-Once)
          ∙ lift_left-lifted turned_left i g (m g).parent (node a p l) r u up n tree' way' once' p))
        (λ j.
          let v = turn_left-SameEntry s p i j in
          KeyKept-trans s.nodes m h'.nodes j (v.1, v.2)
            (lifted_left-KeyKept turned_left i g (m g).parent (node a p l) r u up n tree' way' once'
              j))
        order
        (settle fuel h' (m g).parent i p (node (node a p l) i (node r g u)) up (n + 1) tree2.2.1 b
          tree2
          (lifted_left-IsWay turned_left i g (m g).parent (node a p l) r u up n tree' way' once')
          (lifted_left-Rb turned_left i g (m g).parent (node a p l) r u up n tree' way' once' low
            (lift r rr') (lift u ru) (root r (calm red_i).1)
            (root u (RootBlack-is_red s (some g) (s.nodes g).right u tree.3 h)))
          b
          (lifted_left-RbWay turned_left i g (m g).parent (node a p l) r u up n tree' way' once'
            (RbWay-frame s.nodes m (n + 1) up (λ j q. color j) rc)))
