-- ===== src/RbTree/Turns.antt =====
-- common/common_rbtree.h: what the rotations have in common: the place under the parent, and
-- the fields that are no links.
use lightframe.Common.{ℕ, ◌+◌, ◌≤◌, ◌≡◌, ◌≢◌, refl, Option, none, some, arith, sym}
use mathlib.Core.Path.{subst}
use lightframe.RbTree.Nodes.{Node, Shape, put, set_left, set_right, set_parent, set_parent_of}
use lightframe.RbTree.Rotate.{hang_right}
use lightframe.RbTree.Shapes.{
  Tree, leaf, node, Way, top, left_of, right_of, IsTree, IsWay, Same, count, count_way, one_self,
  IsTree-frame, IsWay-frame,
}

-- What is no link of node j stays.
abbrev pub SameEntry : (ℕ → Node) → (ℕ → Node) → ℕ → Type 0
SameEntry m m' j =
    ((m' j).color ≡ (m j).color) × ((m' j).key ≡ (m j).key) × ((m' j).object ≡ (m j).object)

-- Node n hangs where node i did: below the parent p, or as the root.
pub record Hung (m m' : ℕ → Node) (root root' p : Option ℕ) (i n : ℕ) : Type 0 where
  pub at_top : p ≡ none → root' ≡ some n
  pub root_kept : (k : ℕ) → p ≡ some k → root' ≡ root
  pub parent_kept : (k : ℕ) → p ≡ some k → (m' k).parent ≡ (m k).parent
  pub on_right :
      (k : ℕ)
      → p ≡ some k
      → (m k).right ≡ some i
      → ((m' k).right ≡ some n) × ((m' k).left ≡ (m k).left)
  pub on_left :
      (k : ℕ)
      → p ≡ some k
      → (m k).right ≢ some i
      → ((m' k).left ≡ some n) × ((m' k).right ≡ (m k).right)

-- A tree that is not empty has its root among its nodes.
pub count_root :
    (m : ℕ → Node) (p : Option ℕ) (i : ℕ) (t : Tree) → IsTree m p (some i) t → 1 ≤ count i t
count_root m p i leaf h = cc
count_root m p i (node l j r) h = ground (arith, one_self i)

module _ (m m' : ℕ → Node) (root root' p : Option ℕ) (i n : ℕ)
    (hung : Hung m m' root root' p i n) where
  pub IsWay-Hung :
      (up : Way)
      → ((j : ℕ) → 1 ≤ count_way j up → p ≢ some j → Same m m' j)
      → count_way i up ≡ 0
      → ((j : ℕ) → count_way j up ≤ 1)
      → IsWay m root p (some i) up
      → IsWay m' root' p (some n) up
  IsWay-Hung top f z once h = (h.0, hung.at_top h.0)
  IsWay-Hung (left_of k r up) f z once h =
      let e =
        hung.on_left k h.0
          (λ q. let c = count_root m (some k) i r (rw q at h.2) in omega (arith, c, z)) in
      let w = hung.root_kept k h.0 in
      let spare : (j : ℕ) → 1 ≤ count j r + count_way j up → Same m m' j =
        λ j q. f j (omega arith) (λ u. ground (arith, once j)) in
      (
        h.0,
        e.0,
        rw e.1 (IsTree-frame m m' (some k) (m k).right r (λ j q. spare j (omega arith)) h.2),
        rw (hung.parent_kept k h.0) (
            subst (λ x. IsWay m' x (m k).parent (some k) up) (sym w)
              (IsWay-frame m m' root (m k).parent (some k) up (λ j q. spare j (omega arith)) h.3)),
      )
  IsWay-Hung (right_of l k up) f z once h =
      let e = hung.on_right k h.0 h.1 in
      let w = hung.root_kept k h.0 in
      let spare : (j : ℕ) → 1 ≤ count j l + count_way j up → Same m m' j =
        λ j q. f j (omega arith) (λ u. ground (arith, once j)) in
      (
        h.0,
        e.0,
        rw e.1 (IsTree-frame m m' (some k) (m k).left l (λ j q. spare j (omega arith)) h.2),
        rw (hung.parent_kept k h.0) (
            subst (λ x. IsWay m' x (m k).parent (some k) up) (sym w)
              (IsWay-frame m m' root (m k).parent (some k) up (λ j q. spare j (omega arith)) h.3)),
      )

-- The node above a subtree stands on its way.
pub count_above :
    (m : ℕ → Node) (root p o : Option ℕ) (k : ℕ) (up : Way)
    → IsWay m root p o up
    → p ≡ some k
    → 1 ≤ count_way k up
count_above m root p o k top h e = cc
count_above m root p o k (left_of i r up) h e = ground (arith, one_self i)
count_above m root p o k (right_of l i up) h e = ground (arith, one_self i)

-- A subtree whose root gets another parent, and that is left alone otherwise, stays.
pub IsTree-adopt :
    (m m' : ℕ → Node) (p q o : Option ℕ) (t : Tree)
    → ((k : ℕ)
        → o ≡ some k
        → ((m' k).left ≡ (m k).left) × ((m' k).right ≡ (m k).right) × ((m' k).parent ≡ q))
    → ((j : ℕ) → 1 ≤ count j t → o ≢ some j → Same m m' j)
    → ((j : ℕ) → count j t ≤ 1)
    → IsTree m p o t
    → IsTree m' q o t
IsTree-adopt m m' p q o leaf g f once h = h
IsTree-adopt m m' p q o (node l i r) g f once h =
    let e = g i h.0 in
    let spare : (j : ℕ) → 1 ≤ count j l + count j r → Same m m' j =
      λ j u. f j (omega arith) (λ w. ground (arith, once j)) in
    (
      h.0,
      e.2,
      rw e.0 (IsTree-frame m m' (some i) (m i).left l (λ j u. spare j (omega arith)) h.2),
      rw e.1 (IsTree-frame m m' (some i) (m i).right r (λ j u. spare j (omega arith)) h.3),
    )

module _ (i : ℕ) (o : Option ℕ) (s : Shape) (j : ℕ) where
  pub set_left-SameEntry : SameEntry s.nodes (set_left i o s).nodes j
  unfolding set_left put
  set_left-SameEntry = ground arith

  pub set_right-SameEntry : SameEntry s.nodes (set_right i o s).nodes j
  unfolding set_right put
  set_right-SameEntry = ground arith

  pub set_parent-SameEntry : SameEntry s.nodes (set_parent i o s).nodes j
  unfolding set_parent put
  set_parent-SameEntry = ground arith

pub set_parent_of-SameEntry :
    (p o : Option ℕ) (s : Shape) (j : ℕ) → SameEntry s.nodes (set_parent_of p o s).nodes j
unfolding set_parent_of
set_parent_of-SameEntry none o s j = (refl, refl, refl)
set_parent_of-SameEntry (some i) o s j = set_parent-SameEntry i o s j

pub hang_right-SameEntry :
    (i : ℕ) (o p : Option ℕ) (s : Shape) (j : ℕ) → SameEntry s.nodes (hang_right i o p s).nodes j
unfolding hang_right
hang_right-SameEntry i o none s j = (refl, refl, refl)
hang_right-SameEntry i o (some p) s j =
    ground (arith, set_left-SameEntry p o s j, set_right-SameEntry p o s j)
