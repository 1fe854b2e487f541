-- ===== src/RbTree/Shapes.antt =====
-- common/common_rbtree.h: the trees that the links of the nodes stand for, the way from a node up
-- to the root, and how often a node stands in them.
use lightframe.Common.{
  ℕ, suc, ◌+◌, ◌≤◌, ◌≡◌, Option, none, some, List, [], ◌∷◌, ◌++◌, ◌==◌, if◌then◌else◌, arith, ◌∙◌,
}
use lightframe.RbTree.Nodes.{Node}

pub data Tree : Type 0 where
  leaf : Tree
  node : Tree → ℕ → Tree → Tree

-- What is above a subtree: `left_of i r up` where it is the left child of i, whose right subtree is
-- r, and `right_of l i up` where it is the right child.
pub data Way : Type 0 where
  top : Way
  left_of : ℕ → Tree → Way → Way
  right_of : Tree → ℕ → Way → Way

-- The nodes from left to right
abbrev pub ids : Tree → List ℕ
ids leaf = []
ids (node l i r) = ids l ++ (i ∷ ids r)

-- The whole tree
abbrev pub close : Tree → Way → Tree
close t top = t
close t (left_of i r up) = close (node t i r) up
close t (right_of l i up) = close (node l i t) up

-- The links of node j are the same.
abbrev pub Same : (ℕ → Node) → (ℕ → Node) → ℕ → Type 0
Same m m' j =
    ((m' j).left ≡ (m j).left) × ((m' j).right ≡ (m j).right) × ((m' j).parent ≡ (m j).parent)

abbrev pub IsTree : (ℕ → Node) → Option ℕ → Option ℕ → Tree → Type 0
IsTree m p o leaf = o ≡ none
IsTree m p o (node l i r) =
    (o ≡ some i)
    × ((m i).parent ≡ p)
    × IsTree m (some i) (m i).left l
    × IsTree m (some i) (m i).right r

-- The subtree at o, below the node p, hangs on the way `up`.
abbrev pub IsWay : (ℕ → Node) → Option ℕ → Option ℕ → Option ℕ → Way → Type 0
IsWay m root p o top = (p ≡ none) × (root ≡ o)
IsWay m root p o (left_of i r up) =
    (p ≡ some i)
    × ((m i).left ≡ o)
    × IsTree m (some i) (m i).right r
    × IsWay m root (m i).parent (some i) up
IsWay m root p o (right_of l i up) =
    (p ≡ some i)
    × ((m i).right ≡ o)
    × IsTree m (some i) (m i).left l
    × IsWay m root (m i).parent (some i) up

abbrev pub one : ℕ → ℕ → ℕ
one j i = if j == i then 1 else 0

abbrev pub count : ℕ → Tree → ℕ
count j leaf = 0
count j (node l i r) = count j l + one j i + count j r

abbrev pub count_way : ℕ → Way → ℕ
count_way j top = 0
count_way j (left_of i r up) = one j i + count j r + count_way j up
count_way j (right_of l i up) = count j l + one j i + count_way j up

abbrev pub height : Way → ℕ
height top = 0
height (left_of i r up) = suc (height up)
height (right_of l i up) = suc (height up)

abbrev pub depth : Tree → ℕ
depth leaf = 0
depth (node l i r) = suc (depth l + depth r)

-- No node stands twice.
abbrev pub Once : Tree → Way → Type 0
Once t up = (j : ℕ) → count j t + count_way j up ≤ 1

pub one_self : (j : ℕ) → one j j ≡ 1
one_self j = ground arith

module _ (m m' : ℕ → Node) where
  -- A subtree whose nodes keep their links stays.
  pub IsTree-frame :
      (p o : Option ℕ) (t : Tree)
      → ((j : ℕ) → 1 ≤ count j t → Same m m' j)
      → IsTree m p o t
      → IsTree m' p o t
  IsTree-frame p o leaf f h = h
  IsTree-frame p o (node l i r) f h =
      let e : Same m m' i = f i (omega (arith, one_self i)) in
      (
        h.0,
        e.2 ∙ h.1,
        rw e.0 (IsTree-frame (some i) (m i).left l (λ j q. f j (omega arith)) h.2),
        rw e.1 (IsTree-frame (some i) (m i).right r (λ j q. f j (omega arith)) h.3),
      )

  pub IsWay-frame :
      (root p o : Option ℕ) (up : Way)
      → ((j : ℕ) → 1 ≤ count_way j up → Same m m' j)
      → IsWay m root p o up
      → IsWay m' root p o up
  IsWay-frame root p o top f h = h
  IsWay-frame root p o (left_of i r up) f h =
      let e : Same m m' i = f i (omega (arith, one_self i)) in
      (
        h.0,
        e.0 ∙ h.1,
        rw e.1 (IsTree-frame (some i) (m i).right r (λ j q. f j (omega arith)) h.2),
        rw e.2 (IsWay-frame root (m i).parent (some i) up (λ j q. f j (omega arith)) h.3),
      )
  IsWay-frame root p o (right_of l i up) f h =
      let e : Same m m' i = f i (omega (arith, one_self i)) in
      (
        h.0,
        e.1 ∙ h.1,
        rw e.0 (IsTree-frame (some i) (m i).left l (λ j q. f j (omega arith)) h.2),
        rw e.2 (IsWay-frame root (m i).parent (some i) up (λ j q. f j (omega arith)) h.3),
      )
