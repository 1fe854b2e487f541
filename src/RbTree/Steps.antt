-- ===== src/RbTree/Steps.antt =====
-- common/common_rbtree.h: First, Last, Next and Prev on a sound tree.
use lightframe.Common.{
  ℕ, suc, ◌+◌, ◌≤◌, ◌<◌, ◌≡◌, refl, sym, ap, ◌∙◌, Option, none, some, List, [], ◌∷◌, ◌++◌, arith,
  append_assoc, append-nil, ◌==◌, leb, bool_cases, inl, inr,
}
use mathlib.Core.Path.{subst}
use lightframe.Pool.{Index}
use lightframe.Pool.Links.{first_or, last_or}
use lightframe.RbTree.{RbTree}
use lightframe.RbTree.Nodes.{
  Shape, reached, min_node, max_node, next_up, prev_up, first, last, next, prev,
}
use lightframe.RbTree.Shapes.{
  Tree, leaf, node, Way, top, left_of, right_of, IsTree, IsWay, ids, close, depth, height, count,
  count_way, one, one_self,
}
use lightframe.RbTree.Place.{before, after, ids-close_around}
use lightframe.RbTree.Entries.{times, times-append, count-times, Distinct-times}
use lightframe.RbTree.Walk.{
  min_node_lem, max_node_lem, reached_first, reached_last, first_front, last_back, first_tree,
  last_tree, next_up_lem, prev_up_lem,
}
use lightframe.RbTree.Grow.{count-close}
use lightframe.RbTree.Holds.{IsRbTree}

-- Node i in the tree, with its two subtrees and the way up.
pub record Located (s : Shape) (i : ℕ) (whole : Tree) : Type 0 where
  pub left : Tree
  pub right : Tree
  pub parent : Option ℕ
  pub up : Way
  pub tree : IsTree s.nodes parent (some i) (node left i right)
  pub way : IsWay s.nodes s.root parent (some i) up
  pub closed : close (node left i right) up ≡ whole

locate :
    (s : Shape) (i : ℕ) (p o : Option ℕ) (t : Tree) (up : Way)
    → IsTree s.nodes p o t
    → IsWay s.nodes s.root p o up
    → 1 ≤ count i t
    → Located s i (close t up)
locate s i p o leaf up h w c = absurd (omega arith)
locate s i p o (node l k r) up h w c =
    let w' : IsWay s.nodes s.root p (some k) up = subst (λ x. IsWay s.nodes s.root p x up) h.0 w in
    let low = subst (λ x. IsWay s.nodes s.root x (some k) up) (sym h.1) w' in
    elim (bool_cases (i == k)) [
      | inl e ↦
          let q : k ≡ i = ground arith in
          subst (λ j. Located s j (close (node l k r) up)) q
            (record {
              left = l;
              right = r;
              parent = p;
              up = up;
              tree = (refl, h.1, h.2, h.3);
              way = w';
              closed = refl;
            })
      | inr e ↦ elim (bool_cases (leb 1 (count i l))) [
        | inl q ↦
            locate s i (some k) (s.nodes k).left l (left_of k r up) h.2 (refl, refl, h.3, low)
              (ground arith)
        | inr q ↦
            locate s i (some k) (s.nodes k).right r (right_of l k up) h.3 (refl, refl, h.2, low)
              (ground arith)
      ]
    ]

-- A node that stands once in a list splits it in one way.
split_unique :
    (i : ℕ) (xs ys xs' ys' : List ℕ)
    → times i (xs ++ (i ∷ ys)) ≤ 1
    → xs ++ (i ∷ ys) ≡ xs' ++ (i ∷ ys')
    → (xs ≡ xs') × (ys ≡ ys')
split_unique i [] ys [] ys' h e = (refl, cc)
split_unique i [] ys (x ∷ xs') ys' h e =
    let z : i ≡ x = cc in
    let t : ys ≡ xs' ++ (i ∷ ys') = cc in
    absurd (omega (arith, ap (times i) t, times-append i xs' (i ∷ ys'), one_self i))
split_unique i (x ∷ xs) ys [] ys' h e =
    let z : x ≡ i = cc in
    absurd (omega (arith, times-append i xs (i ∷ ys), one_self i, ap (one i) z))
split_unique i (x ∷ xs) ys (x' ∷ xs') ys' h e =
    let z : x ≡ x' = cc in
    let t : xs ++ (i ∷ ys) ≡ xs' ++ (i ∷ ys') = cc in
    let r = split_unique i xs ys xs' ys' (omega arith) t in (rw (z, r.0) refl, r.1)

depth-close : (t : Tree) (up : Way) → depth t + height up ≤ depth (close t up)
depth-close t top = omega arith
depth-close t (left_of i r up) = omega (arith, depth-close (node t i r) up)
depth-close t (right_of l i up) = omega (arith, depth-close (node l i t) up)

module _ (s : Shape) (n i : ℕ) where
  next-next_up : (s.nodes i).right ≡ none → next n i s ≡ next_up n i (s.nodes i).parent s
  unfolding next
  next-next_up e = rw (e, next) refl

  next-min_node : (k : ℕ) → (s.nodes i).right ≡ some k → next n i s ≡ reached (min_node n k s)
  unfolding next
  next-min_node k e = rw (e, next) refl

  prev-prev_up : (s.nodes i).left ≡ none → prev n i s ≡ prev_up n i (s.nodes i).parent s
  unfolding prev
  prev-prev_up e = rw (e, prev) refl

  prev-max_node : (k : ℕ) → (s.nodes i).left ≡ some k → prev n i s ≡ reached (max_node n k s)
  unfolding prev
  prev-max_node k e = rw (e, prev) refl

next_here :
    (s : Shape) (fuel : ℕ) (l : Tree) (i : ℕ) (r : Tree) (p : Option ℕ) (up : Way)
    → height up < fuel
    → depth r < fuel
    → IsTree s.nodes p (some i) (node l i r)
    → IsWay s.nodes s.root p (some i) up
    → count_way i up ≡ 0
    → ((j : ℕ) → count_way j up ≤ 1)
    → next fuel i s ≡ some (first_or none (ids r ++ after up))
next_here s fuel l i leaf p up f g h w z once =
    next-next_up s fuel i h.3
    ∙ ap (λ x. next_up fuel i x s) h.1
    ∙ next_up_lem s fuel i p up f w z once
next_here s fuel l i (node a k b) p up f g h w z once =
    next-min_node s fuel i k h.3.0
    ∙ ap reached (min_node_lem s fuel (some i) (s.nodes i).right a k b g h.3)
    ∙ reached_first (ids a) (ids b) k
    ∙ ap some (sym (first_front (ids a) (ids b) (after up) k))

prev_here :
    (s : Shape) (fuel : ℕ) (l : Tree) (i : ℕ) (r : Tree) (p : Option ℕ) (up : Way)
    → height up < fuel
    → depth l < fuel
    → IsTree s.nodes p (some i) (node l i r)
    → IsWay s.nodes s.root p (some i) up
    → count_way i up ≡ 0
    → ((j : ℕ) → count_way j up ≤ 1)
    → prev fuel i s ≡ some (last_or none (before up ++ ids l))
prev_here s fuel leaf i r p up f g h w z once =
    prev-prev_up s fuel i h.2
    ∙ ap (λ x. prev_up fuel i x s) h.1
    ∙ prev_up_lem s fuel i p up f w z once
    ∙ ap (λ x. some (last_or none x)) (sym (append-nil (before up)))
prev_here s fuel (node a k b) i r p up f g h w z once =
    prev-max_node s fuel i k h.2.0
    ∙ ap reached (max_node_lem s fuel (some i) (s.nodes i).left a k b g h.2)
    ∙ reached_last (ids a) (ids b) k
    ∙ ap some (
        last_back (ids a) (ids b) k
        ∙ sym (last_back (before up ++ ids a) (ids b) k)
        ∙ ap (last_or none) (append_assoc (before up) (ids a) (k ∷ ids b)))

module _ (past : Index) (cap : ℕ) (t : RbTree) (tree : Tree) (fs us : List ℕ)
    (v : IsRbTree past cap t tree fs us) where
  -- First and Last of a sound red-black tree give its first and its last node from left to right, and NULL
  -- where it is empty.
  pub first-last :
      (first (suc cap) t.shape ≡ some (first_or none (ids tree)))
      × (last (suc cap) t.shape ≡ some (last_or none (ids tree)))
  first-last =
      let d : depth tree < suc cap = omega (arith, v.sizes, v.pool.whole) in
      (first_tree t.shape (suc cap) tree d v.links, last_tree t.shape (suc cap) tree d v.links)

  once : (j : ℕ) → times j (ids tree) ≤ 1
  once j =
      omega (arith, count-times j tree, v.members j, Distinct-times j us v.pool.used_list.distinct)

  module _ (xs ys : List ℕ) (i : ℕ) (at : ids tree ≡ xs ++ (i ∷ ys)) where
    pub found : Located t.shape i tree
    found =
        locate t.shape i none t.shape.root tree top v.links (refl, refl)
          (omega
            (arith, count-times i tree, ap (times i) at, times-append i xs (i ∷ ys), one_self i))

    same :
        (before found.up ++ ids found.left) ++ (i ∷ (ids found.right ++ after found.up)) ≡ ids tree
    same =
        around
        ∙ sym (ids-close_around (node found.left i found.right) found.up)
        ∙ ap ids found.closed
      where
        around :
            (before found.up ++ ids found.left) ++ (i ∷ (ids found.right ++ after found.up))
            ≡ before found.up ++ ((ids found.left ++ (i ∷ ids found.right)) ++ after found.up)
        around = simp (append_assoc)

    pub sides : (before found.up ++ ids found.left ≡ xs) × (ids found.right ++ after found.up ≡ ys)
    sides =
        split_unique i (before found.up ++ ids found.left) (ids found.right ++ after found.up) xs ys
          (subst (λ x. times i x ≤ 1) (sym same) (once i)) (same ∙ at)

    small : height found.up + depth found.left + depth found.right < suc cap
    small = omega (
      arith,
      depth-close (node found.left i found.right) found.up,
      ap depth found.closed,
      v.sizes,
      v.pool.whole,
    )

    apart : (j : ℕ) → count_way j found.up + one j i ≤ 1
    apart j = omega (
      arith,
      once j,
      count-times j tree,
      ap (count j) found.closed,
      count-close j (node found.left i found.right) found.up,
    )

    -- Next of a node of a sound red-black tree gives the node behind it from left to right, and Prev
    -- the node before it; they give NULL at the two ends.
    pub next_prev :
        (next (suc cap) i t.shape ≡ some (first_or none ys))
        × (prev (suc cap) i t.shape ≡ some (last_or none xs))
    next_prev =
        let w = found.way in
        let z : count_way i found.up ≡ 0 = omega (arith, apart i, one_self i) in
        let o = λ (j : ℕ). le_one j in
        (
          next_here t.shape (suc cap) found.left i found.right found.parent found.up
                (omega (arith, small)) (omega (arith, small)) found.tree w z o
              ∙ ap (λ x. some (first_or none x)) sides.1,
          prev_here t.shape (suc cap) found.left i found.right found.parent found.up
                (omega (arith, small)) (omega (arith, small)) found.tree w z o
              ∙ ap (λ x. some (last_or none x)) sides.0,
        )
      where
        le_one : (j : ℕ) → count_way j found.up ≤ 1
        le_one j = omega (arith, apart j)
