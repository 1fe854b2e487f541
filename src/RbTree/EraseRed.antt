-- ===== src/RbTree/EraseRed.antt =====
-- common/common_rbtree.h: Erase of a red node without children, which needs no rebalancing.
use lightframe.Common.{
  ℕ, suc, ◌+◌, ◌≤◌, ◌≡◌, ◌≢◌, refl, sym, ap, ◌∙◌, none, some, true, List, [], ◌∷◌, ◌++◌, arith,
  length, length-append, append-nil,
}
use mathlib.Core.Path.{subst}
use lightframe.Pool
use lightframe.Pool.{Index}
use lightframe.Pool.Destroy.{destroy_lem}
use lightframe.RbTree.{RbTree, erase_node}
use lightframe.RbTree.Nodes.{red, Shape, reset_node}
use lightframe.RbTree.Erase.{cut_one}
use lightframe.RbTree.Shapes.{
  Tree, leaf, node, IsTree, Same, ids, close, count, count_way, one, one_self, IsTree-frame,
  IsWay-frame,
}
use lightframe.RbTree.Balance.{
  Rb, RootBlack, weight, RbWay, Rb-frame, RootBlack-frame, RbWay-frame, Rb-close_black,
  IsTree-close,
}
use lightframe.RbTree.Paint.{KeyKept}
use lightframe.RbTree.Place.{Red, before, after, ids-close_around, Sorted}
use lightframe.RbTree.Entries.{
  entries, entries-kept, Sorted-kept, times, times-append, Distinct-times, depth-length,
  count-times,
}
use lightframe.RbTree.Holds.{IsRbTree}
use lightframe.RbTree.Grow.{count-close}
use lightframe.RbTree.Steps.{Located, found, sides}
use lightframe.RbTree.Loose.{erase_node_cut}
use lightframe.RbTree.CutOne.{cut-IsTree, cut-IsWay, cut-SameEntry}
use lightframe.RbTree.Parts.{
  Rb-open, RootBlack-close, Sorted-without, reset_node-Same, reset_node-KeyKept, reset_node-color,
  cut_node-left, cut_one-color, erase_cut-red,
}

module _ (past : Index) (cap : ℕ) (t : RbTree) (tree : Tree) (fs us ws : List ℕ) (i : ℕ)
    (v : IsRbTree past cap t tree fs (us ++ (i ∷ ws))) (xs ys : List ℕ)
    (at : ids tree ≡ xs ++ (i ∷ ys)) (is : (t.shape.nodes i).color ≡ red)
    (bare : (t.shape.nodes i).left ≡ none) where
  abbrev s : Shape
  s = t.shape

  abbrev here : Located s i tree
  here = found past cap t tree fs (us ++ (i ∷ ws)) v xs ys i at

  no_left : here.left ≡ leaf
  no_left = none_left here.left here.tree.2
    where
      none_left : (l : Tree) → IsTree s.nodes (some i) (s.nodes i).left l → l ≡ leaf
      none_left leaf h = refl
      none_left (node a k b) h = let z : none ≡ some k = sym bare ∙ h.0 in cc

  abbrev left_over : Tree
  left_over = close here.right here.up

  order : ids left_over ≡ xs ++ ys
  order =
      let w = sides past cap t tree fs (us ++ (i ∷ ws)) v xs ys i at in
      ids-close_around here.right here.up
      ∙ ap (λ x. x ++ (ids here.right ++ after here.up))
          (sym (append-nil (before here.up))
            ∙ sym (ap (λ x. before here.up ++ ids x) no_left)
            ∙ w.0)
      ∙ ap (λ x. xs ++ x) w.1

  -- How often a node stands in the tree, and in what the erasing leaves of it
  times_once : (j : ℕ) → count j tree ≤ 1
  times_once j = omega (arith, v.members j, Distinct-times j _ v.pool.used_list.distinct)

  once : (j : ℕ) → one j i + count j here.right + count_way j here.up ≤ 1
  once j = omega (
    arith,
    times_once j,
    ap (count j) here.closed,
    count-close j (node here.left i here.right) here.up,
  )

  abbrev cut : Shape
  cut = (cut_one i (s.nodes i).right s).shape

  abbrev final : Shape
  final = reset_node i cut

  same : (j : ℕ) → 1 ≤ count j here.right + count_way j here.up → Same cut.nodes final.nodes j
  same j q = reset_node-Same cut i j (λ e.
      omega
        (arith, once j, once i, one_self i, ap (λ x. count x here.right + count_way x here.up) e))

  final_links : IsTree final.nodes none final.root left_over
  unfolding reset_node
  final_links =
      let w = here.tree in
      let up = here.up in
      let p = here.parent in
      IsTree-close final.nodes final.root p (s.nodes i).right here.right up
        (IsTree-frame cut.nodes final.nodes p (s.nodes i).right here.right
          (λ j q. same j (omega arith))
          (cut-IsTree s i (s.nodes i).right p here.right up w.3 w.1 here.way once))
        (IsWay-frame cut.nodes final.nodes final.root p (s.nodes i).right up
          (λ j q. same j (omega arith))
          (cut-IsWay s i (s.nodes i).right p here.right up w.3 w.1 here.way once))

  color : (j : ℕ) → (final.nodes j).color ≡ (s.nodes j).color
  color j = reset_node-color cut i j ∙ (cut-SameEntry s i (s.nodes i).right j).0

  kept : (j : ℕ) → j ≢ i → KeyKept s.nodes final.nodes j
  kept j n =
      let a = reset_node-KeyKept cut i j n in
      let b = cut-SameEntry s i (s.nodes i).right j in (a.0 ∙ b.1, a.1 ∙ b.2)

  taken_apart :
      (n : ℕ) × Rb s.nodes (node here.left i here.right) n
      × RbWay s.nodes n here.up
      × Red s.nodes 0 (node here.left i here.right) here.up
  taken_apart =
      Rb-open s.nodes (node here.left i here.right) here.up v.height
        (subst (λ x. Rb s.nodes x v.height) (sym here.closed) v.balanced)
        (subst (RootBlack s.nodes) (sym here.closed) v.black_root)

  -- The right subtree is as high as the node's.
  low : RootBlack s.nodes here.right × Rb s.nodes here.right taken_apart.0
  low =
      let (n, (calm, k, e, a, b), w, c) = taken_apart in
      let z : k ≡ n = omega (arith, e, ap weight is) in
      ((calm is).1, subst (Rb s.nodes here.right) z b)

  balanced : (k : ℕ) × Rb final.nodes left_over k
  balanced =
      Rb-close_black final.nodes taken_apart.0 here.right here.up
        (Rb-frame s.nodes final.nodes here.right taken_apart.0 (λ j q. color j) low.1)
        (RootBlack-frame s.nodes final.nodes here.right (λ j q. color j) low.0)
        (RbWay-frame s.nodes final.nodes taken_apart.0 here.up (λ j q. color j) taken_apart.2)

  black_root : RootBlack final.nodes left_over
  black_root =
      RootBlack-frame s.nodes final.nodes left_over (λ j q. color j)
        (RootBlack-close s.nodes (node here.left i here.right) here.right here.up (λ q. low.0)
          (subst (RootBlack s.nodes) (sym here.closed) v.black_root))

  times_left : (j : ℕ) → times j (xs ++ ys) + one j i ≡ count j tree
  times_left j =
      omega (
        arith,
        times-append j xs (i ∷ ys),
        times-append j xs ys,
        ap (times j) at,
        count-times j tree,
      )

  kept_left : (j : ℕ) → 1 ≤ times j (xs ++ ys) → KeyKept s.nodes final.nodes j
  kept_left j q =
      kept j
        (λ e. omega (arith, times_left i, times_once i, one_self i, ap (λ x. times x (xs ++ ys)) e))

  abbrev erased : RbTree
  erased = record { pool = (Pool.destroy_index past cap true i t.pool).1; shape = final }

  erased-IsRbTree : IsRbTree past cap erased left_over (fs ++ (i ∷ [])) (us ++ ws)
  erased-IsRbTree = record {
    pool = (destroy_lem past cap t.pool i fs us ws v.pool true).1;
    links = final_links;
    members = λ j. omega (
      arith,
      times_left j,
      v.members j,
      times-append j us (i ∷ ws),
      times-append j us ws,
      count-times j left_over,
      ap (times j) order,
    );
    sizes = omega (
      arith,
      v.sizes,
      length-append us (i ∷ ws),
      length-append us ws,
      depth-length tree,
      depth-length left_over,
      ap length order,
      ap length at,
      length-append xs (i ∷ ys),
      length-append xs ys,
    );
    height = balanced.0;
    balanced = balanced.1;
    black_root = black_root;
    sorted = subst (Sorted final.nodes) (sym order) (
        Sorted-kept s.nodes final.nodes (xs ++ ys) kept_left
          (Sorted-without s.nodes xs ys i (subst (Sorted s.nodes) at v.sorted)));
  }

  -- Erase of a red node without a left child, in a sound red-black tree, returns; the tree is sound again,
  -- its entries from left to right are the others, unchanged, and the node becomes the last free one.
  pub erase_node-red :
      (t' : RbTree) × (tree' : Tree) × (erase_node past cap i t ≡ some t')
      × IsRbTree past cap t' tree' (fs ++ (i ∷ [])) (us ++ ws)
      × (ids tree' ≡ xs ++ ys)
      × (entries t'.shape.nodes (xs ++ ys) ≡ entries t.shape.nodes (xs ++ ys))
  erase_node-red =
      let c = cut_one i (s.nodes i).right s in
      (
        erased,
        left_over,
        erase_node_cut past cap i t c (cut_node-left s (suc cap) i bare)
            ∙ erase_cut-red past cap i c t (cut_one-color s i (s.nodes i).right ∙ is),
        erased-IsRbTree,
        order,
        entries-kept s.nodes final.nodes (xs ++ ys) kept_left,
      )
