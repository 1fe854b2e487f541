-- ===== src/RbTree/CutOne.antt =====
-- common/common_rbtree.h: Erase's unlinking of a node with at most one child.
use lightframe.Common.{ℕ, ◌+◌, ◌≤◌, ◌≡◌, ◌≢◌, sym, ap, Option, none, some, arith, ◌∙◌}
use mathlib.Core.Path.{subst}
use lightframe.RbTree.Nodes.{
  Node, Shape, put, set_parent_of, set_root, set_left, set_right, set_parent,
}
use lightframe.RbTree.Rotate.{hang_left}
use lightframe.RbTree.Erase.{cut_one}
use lightframe.RbTree.Shapes.{
  Tree, Way, top, left_of, right_of, IsTree, IsWay, Same, count, count_way, one, one_self,
  IsTree-frame, IsWay-frame,
}
use lightframe.RbTree.Turns.{SameEntry, count_root, IsTree-adopt, count_above}

-- The node i, whose one child is o, leaves.
module _ (s : Shape) (i : ℕ) (o : Option ℕ) where
  abbrev cut : Shape
  cut = (cut_one i o s).shape

  cut_Same : (j : ℕ) → o ≢ some j → (s.nodes i).parent ≢ some j → Same s.nodes cut.nodes j
  unfolding cut_one hang_left set_parent_of set_root set_left set_right set_parent put
  cut_Same j h k = ground arith

  cut_child :
      (j : ℕ)
      → o ≡ some j
      → (s.nodes i).parent ≢ some j
      → ((cut.nodes j).left ≡ (s.nodes j).left)
        × ((cut.nodes j).right ≡ (s.nodes j).right)
        × ((cut.nodes j).parent ≡ (s.nodes i).parent)
  unfolding cut_one hang_left set_parent_of set_root set_left set_right set_parent put
  cut_child j h k = ground arith

  cut_above :
      (k : ℕ)
      → (s.nodes i).parent ≡ some k
      → o ≢ some k
      → ((cut.nodes k).parent ≡ (s.nodes k).parent)
        × (cut.root ≡ s.root)
        × ((s.nodes k).left ≡ some i
            → ((cut.nodes k).left ≡ o) × ((cut.nodes k).right ≡ (s.nodes k).right))
        × ((s.nodes k).left ≢ some i
            → ((cut.nodes k).right ≡ o) × ((cut.nodes k).left ≡ (s.nodes k).left))
  unfolding cut_one hang_left set_parent_of set_root set_left set_right set_parent put
  cut_above k h n = ground arith

  cut_top : (s.nodes i).parent ≡ none → cut.root ≡ o
  unfolding cut_one hang_left set_parent_of set_root set_left set_right set_parent put
  cut_top h = ground arith

  pub cut-SameEntry : (j : ℕ) → SameEntry s.nodes cut.nodes j
  unfolding cut_one hang_left set_parent_of set_root set_left set_right set_parent put
  cut-SameEntry j = ground arith

module _ (s : Shape) (i : ℕ) (o p : Option ℕ) (t : Tree) (up : Way)
    (sub : IsTree s.nodes (some i) o t) (par : (s.nodes i).parent ≡ p)
    (way : IsWay s.nodes s.root p (some i) up)
    (once : (j : ℕ) → one j i + count j t + count_way j up ≤ 1) where
  abbrev m : ℕ → Node
  m = (cut s i o).nodes

  child_in : (k : ℕ) → o ≡ some k → 1 ≤ count k t
  child_in k e = count_root s.nodes (some i) k t (subst (λ x. IsTree s.nodes (some i) x t) e sub)

  above_in : (k : ℕ) → p ≡ some k → 1 ≤ count_way k up
  above_in k e = count_above s.nodes s.root p (some i) k up way e

  not_child : (k : ℕ) → count k t ≡ 0 → o ≢ some k
  not_child k z e = omega (arith, child_in k e)

  not_above : (k : ℕ) → count_way k up ≡ 0 → (s.nodes i).parent ≢ some k
  not_above k z e = omega (arith, above_in k (sym par ∙ e))

  -- The child's subtree hangs below the node's parent.
  pub cut-IsTree : IsTree m p o t
  cut-IsTree =
      IsTree-adopt s.nodes m (some i) p o t
        (λ k e.
          let c = cut_child s i o k e (not_above k (omega (arith, once k, child_in k e))) in
          (c.0, c.1, c.2 ∙ par))
        (λ j q n. cut_Same s i o j n (not_above j (omega (arith, once j))))
        (λ j. omega (arith, once j)) sub

  spare : (j : ℕ) → 1 ≤ count_way j up → p ≢ some j → Same s.nodes m j
  spare j q n = cut_Same s i o j (not_child j (omega (arith, once j))) (λ e. n (sym par ∙ e))

pub cut-IsWay :
    (s : Shape) (i : ℕ) (o p : Option ℕ) (t : Tree) (up : Way)
    → IsTree s.nodes (some i) o t
    → (s.nodes i).parent ≡ p
    → IsWay s.nodes s.root p (some i) up
    → ((j : ℕ) → one j i + count j t + count_way j up ≤ 1)
    → IsWay (cut s i o).nodes (cut s i o).root p o up
cut-IsWay s i o p t top sub par h once = (h.0, cut_top s i o (par ∙ h.0))
cut-IsWay s i o p t (left_of k r up) sub par h once =
    let m = (cut s i o).nodes in
    let a =
      cut_above s i o k (par ∙ h.0) (
        not_child s i o p t (left_of k r up) sub par h once k
          (omega (arith, once k, one_self k))) in
    let e = a.2 h.1 in
    let free : (j : ℕ) → 1 ≤ count j r + count_way j up → Same s.nodes m j = λ j q.
      spare s i o p t (left_of k r up) sub par h once j (omega arith)
        (λ u. let z : k ≡ j = cc in omega (arith, once j, ap (one j) z, one_self j)) in
    (
      h.0,
      e.0,
      rw e.1
          (IsTree-frame s.nodes m (some k) (s.nodes k).right r (λ j q. free j (omega arith)) h.2),
      rw a.0 (
          subst (λ x. IsWay m x (s.nodes k).parent (some k) up) (sym a.1)
            (IsWay-frame s.nodes m s.root (s.nodes k).parent (some k) up
              (λ j q. free j (omega arith)) h.3)),
    )
cut-IsWay s i o p t (right_of l k up) sub par h once =
    let m = (cut s i o).nodes in
    let a = cut_above s i o k (par ∙ h.0) (
      not_child s i o p t (right_of l k up) sub par h once k (omega (arith, once k, one_self k))) in
    let e = a.3 (λ q.
      let c = count_root s.nodes (some k) i l (rw q at h.2) in
      omega (arith, c, once i, one_self i)) in
    let free : (j : ℕ) → 1 ≤ count j l + count_way j up → Same s.nodes m j = λ j q.
      spare s i o p t (right_of l k up) sub par h once j (omega arith)
        (λ u. let z : k ≡ j = cc in omega (arith, once j, ap (one j) z, one_self j)) in
    (
      h.0,
      e.0,
      rw e.1 (IsTree-frame s.nodes m (some k) (s.nodes k).left l (λ j q. free j (omega arith)) h.2),
      rw a.0 (
          subst (λ x. IsWay m x (s.nodes k).parent (some k) up) (sym a.1)
            (IsWay-frame s.nodes m s.root (s.nodes k).parent (some k) up
              (λ j q. free j (omega arith)) h.3)),
    )
