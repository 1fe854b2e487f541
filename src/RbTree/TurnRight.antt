-- ===== src/RbTree/TurnRight.antt =====
-- common/common_rbtree.h: what RotateRight does to the nodes' links, and to the tree.
use lightframe.Common.{ℕ, ◌+◌, ◌≤◌, ◌≡◌, ◌≢◌, refl, Option, some, arith, ◌∙◌, sym}
use mathlib.Core.Path.{subst}
use lightframe.RbTree.Nodes.{Node, Shape, put, set_right, set_left, set_parent, set_parent_of}
use lightframe.RbTree.Rotate.{hang_right, turn_right, rotate_right}
use lightframe.RbTree.Shapes.{
  Tree, node, Way, IsTree, IsWay, Same, Once, count, one_self, IsTree-frame,
}
use lightframe.RbTree.Turns.{
  SameEntry, Hung, IsWay-Hung, IsTree-adopt, count_root, count_above, set_right-SameEntry,
  set_left-SameEntry, set_parent-SameEntry, set_parent_of-SameEntry, hang_right-SameEntry,
}

module _ (s : Shape) (i r : ℕ) where
  turn_right-Same :
      i ≢ r
      → (j : ℕ) → j ≢ i
      → j ≢ r
      → some j ≢ (s.nodes r).right
      → some j ≢ (s.nodes i).parent
      → Same s.nodes (turn_right i r s).nodes j
  unfolding turn_right put
  turn_right-Same z j h k l n = ground arith

  turn_right-low :
      let m = (turn_right i r s).nodes in
      i ≢ r
      → (s.nodes i).parent ≢ some i
      → (s.nodes i).parent ≢ some r
      → (s.nodes r).right ≢ some i
      → (s.nodes r).right ≢ some r
      → ((m i).right ≡ (s.nodes i).right)
        × ((m i).left ≡ (s.nodes r).right)
        × ((m i).parent ≡ some r)
        × ((m r).right ≡ some i)
        × ((m r).left ≡ (s.nodes r).left)
        × ((m r).parent ≡ (s.nodes i).parent)
  unfolding turn_right put
  turn_right-low z a b c d = ground arith

  turn_right-inner :
      let m = (turn_right i r s).nodes in
      i ≢ r
      → (k : ℕ) → (s.nodes r).right ≡ some k
      → k ≢ i
      → k ≢ r
      → (s.nodes i).parent ≢ some k
      → ((m k).left ≡ (s.nodes k).left)
        × ((m k).right ≡ (s.nodes k).right)
        × ((m k).parent ≡ some i)
  unfolding turn_right put
  turn_right-inner z k q h l n = ground arith

  turn_right-Hung :
      i ≢ r
      → (s.nodes i).parent ≢ some i
      → (s.nodes i).parent ≢ some r
      → (s.nodes r).right ≢ some i
      → (s.nodes r).right ≢ some r
      → ((k : ℕ) → (s.nodes r).right ≡ some k → (s.nodes i).parent ≢ some k)
      → Hung s.nodes (turn_right i r s).nodes s.root (turn_right i r s).root (s.nodes i).parent i r
  unfolding turn_right put
  turn_right-Hung z a b d e c = record {
    at_top = ground arith;
    root_kept = ground arith;
    parent_kept = λ k q. ground (arith, c k);
    on_right = λ k q w. ground (arith, c k);
    on_left = λ k q w. ground (arith, c k);
  }

  pub turn_right-SameEntry : (j : ℕ) → SameEntry s.nodes (turn_right i r s).nodes j
  unfolding turn_right
  turn_right-SameEntry j =
      let inner = (s.nodes r).right in
      let s0 = set_left i inner s in
      let s1 = set_parent_of inner (some i) s0 in
      let s2 = set_right r (some i) s1 in
      let s3 = set_parent r (s2.nodes i).parent s2 in
      let s4 = hang_right i (some r) (s3.nodes i).parent s3 in
      let e1 = set_left-SameEntry i inner s j in
      let e2 = set_parent_of-SameEntry inner (some i) s0 j in
      let e3 = set_right-SameEntry r (some i) s1 j in
      let e4 = set_parent-SameEntry r (s2.nodes i).parent s2 j in
      let e5 = hang_right-SameEntry i (some r) (s3.nodes i).parent s3 j in
      let e6 = set_parent-SameEntry i (some r) s4 j in
      (
        e6.0 ∙ e5.0 ∙ e4.0 ∙ e3.0 ∙ e2.0 ∙ e1.0,
        e6.1 ∙ e5.1 ∙ e4.1 ∙ e3.1 ∙ e2.1 ∙ e1.1,
        e6.2 ∙ e5.2 ∙ e4.2 ∙ e3.2 ∙ e2.2 ∙ e1.2,
      )

module _ (s : Shape) (i r : ℕ) (p : Option ℕ) (a b c : Tree) (up : Way)
    (tree : IsTree s.nodes p (some i) (node (node c r b) i a))
    (way : IsWay s.nodes s.root p (some i) up) (once : Once (node (node c r b) i a) up) where
  apart : i ≢ r
  apart e = ground (arith, once i, one_self i)

  above_ne : (j : ℕ) → 1 ≤ count j (node (node c r b) i a) → (s.nodes i).parent ≢ some j
  above_ne j q e =
      omega (arith, once j, count_above s.nodes s.root p (some i) j up way (sym tree.1 ∙ e))

  inner_in : (k : ℕ) → (s.nodes r).right ≡ some k → 1 ≤ count k b
  inner_in k e = count_root s.nodes (some r) k b (rw (sym e) tree.2.3)

  not_inner : (j : ℕ) → count j b ≡ 0 → (s.nodes r).right ≢ some j
  not_inner j z e = omega (arith, inner_in j e)

  abbrev m : ℕ → Node
  m = (turn_right i r s).nodes

  low :
      ((m i).right ≡ (s.nodes i).right)
      × ((m i).left ≡ (s.nodes r).right)
      × ((m i).parent ≡ some r)
      × ((m r).right ≡ some i)
      × ((m r).left ≡ (s.nodes r).left)
      × ((m r).parent ≡ (s.nodes i).parent)
  low =
      turn_right-low s i r apart (above_ne i (omega (arith, one_self i)))
        (above_ne r (omega (arith, one_self r))) (not_inner i (omega (arith, once i, one_self i)))
        (not_inner r (omega (arith, once r, one_self r)))

  same :
      (j : ℕ)
      → j ≢ i
      → j ≢ r
      → (s.nodes r).right ≢ some j
      → (s.nodes i).parent ≢ some j
      → Same s.nodes m j
  same j h k u w = turn_right-Same s i r apart j h k (λ e. u (sym e)) (λ e. w (sym e))

  -- The nodes of the outer subtrees keep their links.
  outer : (j : ℕ) → 1 ≤ count j a + count j c → Same s.nodes m j
  outer j q =
      same j (λ e. ground (arith, once j, one_self i)) (λ e. ground (arith, once j, one_self r))
        (not_inner j (omega (arith, once j))) (above_ne j (omega arith))

  inner : (j : ℕ) → 1 ≤ count j b → (s.nodes r).right ≢ some j → Same s.nodes m j
  inner j q n =
      same j (λ e. ground (arith, once j, one_self i)) (λ e. ground (arith, once j, one_self r)) n
        (above_ne j (omega arith))

  inner-IsTree : IsTree m (some i) (s.nodes r).right b
  inner-IsTree =
      IsTree-adopt s.nodes m (some r) (some i) (s.nodes r).right b
        (λ k e.
          turn_right-inner s i r apart k e (λ w. ground (arith, once k, one_self i, inner_in k e))
            (λ w. ground (arith, once k, one_self r, inner_in k e))
            (above_ne k (omega (arith, inner_in k e))))
        inner (λ j. omega (arith, once j)) tree.2.3

  -- The left child stands in the node's place, and the node is its right child.
  pub turn_right-IsTree : IsTree m p (some r) (node c r (node b i a))
  turn_right-IsTree = (
    refl,
    low.5 ∙ tree.1,
    rw low.4 (
        IsTree-frame s.nodes m (some r) (s.nodes r).left c (λ j q. outer j (omega arith)) tree.2.2),
    rw low.3 (
      refl,
      low.2,
      rw low.1 inner-IsTree,
      rw low.0 (
          IsTree-frame s.nodes m (some i) (s.nodes i).right a (λ j q. outer j (omega arith))
            tree.3),
    ),
  )

  hung : Hung s.nodes m s.root (turn_right i r s).root p i r
  hung =
      subst (λ x. Hung s.nodes m s.root (turn_right i r s).root x i r) tree.1
        (turn_right-Hung s i r apart (above_ne i (omega (arith, one_self i)))
          (above_ne r (omega (arith, one_self r))) (not_inner i (omega (arith, once i, one_self i)))
          (not_inner r (omega (arith, once r, one_self r)))
          (λ k e. above_ne k (omega (arith, inner_in k e))))

  pub turn_right-IsWay : IsWay m (turn_right i r s).root p (some r) up
  turn_right-IsWay =
      IsWay-Hung s.nodes m s.root (turn_right i r s).root p i r hung up
        (λ j q n.
          same j (λ e. ground (arith, once j, one_self i)) (λ e. ground (arith, once j, one_self r))
            (not_inner j (omega (arith, once j))) (λ e. n (sym tree.1 ∙ e)))
        (omega (arith, once i, one_self i)) (λ j. omega (arith, once j)) way

  -- RotateRight finds the child.
  pub rotate_right-turn : rotate_right i s ≡ some (turn_right i r s)
  unfolding rotate_right
  rotate_right-turn = rw (tree.2.0, rotate_right) refl
