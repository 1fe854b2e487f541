-- ===== src/RbTree/InnerRight.antt =====
-- common/common_rbtree.h: the round of InsertRebalance with two rotations, where the red parent is a
-- right child.
use lightframe.Common.{ℕ, suc, ◌+◌, ◌≡◌, ◌≢◌, refl, ◌∙◌, Option, some, false, arith, append_assoc}
use mathlib.Core.Path.{subst}
use lightframe.RbTree.Nodes.{red, Node, Shape, is_red}
use lightframe.RbTree.Rotate.{turn_right}
use lightframe.RbTree.Insert.{insert_loop}
use lightframe.RbTree.Shapes.{Tree, node, Way, right_of, IsTree, IsWay, Once, ids, close, one_self}
use lightframe.RbTree.Balance.{
  Rb, RootBlack, RbWay, ids-close, Rb-frame, RootBlack-frame, RbWay-frame,
}
use lightframe.RbTree.Paint.{KeyKept-trans}
use lightframe.RbTree.Rounds.{insert_loop_step, insert_round_right, insert_right_inner}
use lightframe.RbTree.Recolor.{RootBlack-is_red}
use lightframe.RbTree.Turns.{count_root}
use lightframe.RbTree.TurnRight.{
  turn_right-IsTree, turn_right-IsWay, turn_right-SameEntry, rotate_right-turn,
}
use lightframe.RbTree.LiftRight.{
  lifted_right, lifted_right-IsTree, lifted_right-IsWay, lift_right-lifted, lifted_right-black,
  lifted_right-KeyKept, lifted_right-Rb, lifted_right-RbWay,
}
use lightframe.RbTree.Fixed.{Fixed, Fixed-step, settle}

-- The node is the parent's left child, and the uncle is black: the parent is first turned below it.
module _ (fuel : ℕ) (s : Shape) (q : Option ℕ) (p g i : ℕ) (a l r u : Tree) (up : Way) (n : ℕ)
    (tree : IsTree s.nodes q (some g) (node u g (node (node r i l) p a)))
    (way : IsWay s.nodes s.root q (some g) up)
    (once : Once (node u g (node (node r i l) p a)) up) where
  abbrev turned_right : Shape
  turned_right = turn_right p i s

  abbrev m : ℕ → Node
  m = turned_right.nodes

  low_tree : IsTree s.nodes (some g) (some p) (node (node r i l) p a)
  low_tree = (refl, tree.3.1, tree.3.2, tree.3.3)

  low-IsWay : IsWay s.nodes s.root (some g) (some p) (right_of u g up)
  low-IsWay = (refl, tree.3.0, tree.2, rw tree.1 way)

  beside : (s.nodes g).left ≢ some p
  beside w =
      let h = count_root s.nodes (some g) p u (subst (λ x. IsTree s.nodes (some g) x u) w tree.2) in
      omega (arith, once p, one_self p, h)

  low-Once : Once (node (node r i l) p a) (right_of u g up)
  low-Once j = omega (arith, once j)

  new : IsTree m (some g) (some i) (node r i (node l p a))
  new = turn_right-IsTree s p i (some g) a l r (right_of u g up) low_tree low-IsWay low-Once

  new-IsWay : IsWay m turned_right.root (some g) (some i) (right_of u g up)
  new-IsWay = turn_right-IsWay s p i (some g) a l r (right_of u g up) low_tree low-IsWay low-Once

  tree' : IsTree m (m g).parent (some g) (node u g (node r i (node l p a)))
  tree' = (refl, refl, new-IsWay.2, rw new-IsWay.1 new)

  way' : IsWay m turned_right.root (m g).parent (some g) up
  way' = new-IsWay.3

  once' : Once (node u g (node r i (node l p a))) up
  once' j = omega (arith, once j)

  color : (j : ℕ) → (m j).color ≡ (s.nodes j).color
  color j = (turn_right-SameEntry s p i j).0

  -- The nodes of the round end in the same order.
  order :
      ids (close (node (node u g r) i (node l p a)) up)
      ≡ ids (close (node u g (node (node r i l) p a)) up)
  order =
      ids-close (node (node u g r) i (node l p a)) (node u g (node (node r i l) p a)) up
        (simp (append_assoc))

  pub inner :
      (s.nodes i).parent ≡ some p
      → (s.nodes p).color ≡ red
      → is_red (s.nodes g).left s ≡ false
      → Rb s.nodes a n
      → RootBlack s.nodes a
      → (s.nodes i).color ≡ red
      → Rb s.nodes (node r i l) n
      → RbWay s.nodes (n + 1) up
      → Rb s.nodes u n
      → Fixed
          (insert_loop (suc (suc fuel)) i s)
          s
          (ids (close (node u g (node (node r i l) p a)) up))
  inner e is h ra ba red_i (calm, k, w, rr, rl) rc ru =
      let h' = lifted_right turned_right i g (m g).parent (node l p a) r u up n tree' way' once' in
      let tree2 =
        lifted_right-IsTree turned_right i g (m g).parent (node l p a) r u up n tree' way' once' in
      let b =
        lifted_right-black turned_right i g (m g).parent (node l p a) r u up n tree' way' once' in
      let z : k ≡ n = (let v = rw red_i at w in omega arith) in
      let rl' = subst (λ x. Rb s.nodes l x) z rl in
      let rr' = subst (λ x. Rb s.nodes r x) z rr in
      let lift : (t : Tree) → Rb s.nodes t n → Rb m t n =
        λ t v. Rb-frame s.nodes m t n (λ j q. color j) v in
      let root : (t : Tree) → RootBlack s.nodes t → RootBlack m t =
        λ t v. RootBlack-frame s.nodes m t (λ j q. color j) v in
      let low : Rb m (node l p a) n = (
        λ q. (root l (calm red_i).1, root a ba),
        n,
        rw (color p, is) (omega arith),
        lift l rl',
        lift a ra,
      ) in
      Fixed-step (insert_loop (suc (suc fuel)) i s) (insert_loop (suc fuel) p h') s h'
        (ids (close (node u g (node (node r i l) p a)) up))
        (ids (close (node (node u g r) i (node l p a)) up))
        (insert_loop_step (suc fuel) i s p p h' e is (
          insert_round_right s i p g tree.3.1 beside
          ∙ insert_right_inner s i p g turned_right h tree.3.2.0
              (rotate_right-turn s p i (some g) a l r (right_of u g up) low_tree low-IsWay low-Once)
          ∙ lift_right-lifted turned_right i g (m g).parent (node l p a) r u up n tree' way' once'
              p))
        (λ j.
          let v = turn_right-SameEntry s p i j in
          KeyKept-trans s.nodes m h'.nodes j (v.1, v.2)
            (lifted_right-KeyKept turned_right i g (m g).parent (node l p a) r u up n tree' way'
              once' j))
        order
        (settle fuel h' (m g).parent i p (node (node u g r) i (node l p a)) up (n + 1) tree2.3.1 b
          tree2
          (lifted_right-IsWay turned_right i g (m g).parent (node l p a) r u up n tree' way' once')
          (lifted_right-Rb turned_right i g (m g).parent (node l p a) r u up n tree' way' once' low
            (lift r rr') (lift u ru) (root r (calm red_i).0)
            (root u (RootBlack-is_red s (some g) (s.nodes g).left u tree.2 h)))
          b
          (lifted_right-RbWay turned_right i g (m g).parent (node l p a) r u up n tree' way' once'
            (RbWay-frame s.nodes m (n + 1) up (λ j q. color j) rc)))
