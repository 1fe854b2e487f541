-- ===== src/RbTree/Grow.antt =====
-- common/common_rbtree.h: Insert on a sound tree.
use lightframe.Common.{
  ℕ, suc, ◌+◌, ◌≤◌, ◌<◌, ◌≡◌, refl, sym, ap, ◌∙◌, Option, none, some, true, false, List, [], ◌∷◌,
  ◌++◌, arith, length, length-append,
}
use mathlib.Core.Bool.{true≢false}
use mathlib.Core.Path.{subst}
use lightframe.Pool
use lightframe.Pool.{Index, Pool}
use lightframe.Pool.Holds.{flags_apart}
use lightframe.Pool.Create.{create_lem}
use lightframe.RbTree.{RbTree, insert, insert_at}
use lightframe.RbTree.Nodes.{Shape, find_insert_position}
use lightframe.RbTree.Insert.{link_node, insert_loop, insert_rebalance}
use lightframe.RbTree.Shapes.{
  Tree, leaf, node, Way, top, left_of, right_of, ids, close, count, count_way, one, one_self,
}
use lightframe.RbTree.Paint.{KeyKept, KeyKept-trans}
use lightframe.RbTree.Place.{
  above, before, after, place, place-close, place-Toward, place-IsWay, place-RbWay, place_order,
  place_height, Red-top, position_loop-place, ids-close_around, Sorted,
}
use lightframe.RbTree.Link.{link_node-Open, link_node_new, link_node_other}
use lightframe.RbTree.Entries.{
  entries, put_entry, times, times-append, times_none, count-times, depth-length, Distinct-times,
  entries-middle, Sorted-middle,
}
use lightframe.Pool.Links.{All}
use lightframe.RbTree.Fixed.{Open, Fixed}
use lightframe.RbTree.Loop.{insert_loop_lem}
use lightframe.RbTree.Blacken.{Finished, Fixed-finish}
use lightframe.RbTree.Holds.{IsRbTree}

pub count-close : (j : ℕ) (t : Tree) (up : Way) → count j (close t up) ≡ count j t + count_way j up
count-close j t top = omega arith
count-close j t (left_of i r up) = omega (arith, count-close j (node t i r) up)
count-close j t (right_of l i up) = omega (arith, count-close j (node l i t) up)

insert_at_lem :
    (past : Index) (cap key object : ℕ) (p : Option ℕ) (i : ℕ) (q : Pool) (t : RbTree) (s : Shape)
    → insert_rebalance (suc cap) i (link_node i p key object t.shape) ≡ some s
    → insert_at past cap key object p (some i, q) t ≡ some (some i, record { pool = q; shape = s })
unfolding insert_at
insert_at_lem past cap key object p i q t s f = rw (f, insert_at) refl

insert_at-some :
    (past : Index) (cap key object : ℕ) (p : Option ℕ) (i : ℕ) (x : Option ℕ × Pool) (t : RbTree)
    (s : Shape)
    → x.0 ≡ some i
    → insert_rebalance (suc cap) i (link_node i p key object t.shape) ≡ some s
    → insert_at past cap key object p x t ≡ some (some i, record { pool = x.1; shape = s })
insert_at-some past cap key object p i (none, q) t s e f = cc
insert_at-some past cap key object p i (some j, q) t s e f =
    let z : i ≡ j = ground arith in
    subst
      (λ k.
        insert_at past cap key object p (some k, q) t
        ≡ some (some i, record { pool = q; shape = s }))
      z (insert_at_lem past cap key object p i q t s f)

module _ (past : Index) (cap : ℕ) (t : RbTree) (tree : Tree) (i : ℕ) (fs us : List ℕ)
    (key object : ℕ) (v : IsRbTree past cap t tree (i ∷ fs) us) where
  abbrev s : Shape
  s = t.shape

  -- the place of the new node, and the shape with the node in it
  abbrev w : Way
  w = place s.nodes key tree top

  abbrev linked : Shape
  linked = link_node i (above w) key object s

  count_w : (j : ℕ) → count_way j w ≡ times j us
  count_w j =
      omega
        (arith, count-close j leaf w, ap (count j) (place-close s.nodes key tree top), v.members j)

  once : (j : ℕ) → count_way j w ≤ 1
  once j = omega (arith, count_w j, Distinct-times j us v.pool.used_list.distinct)

  unused : times i us ≡ 0
  unused = times_none i us (
      flags_apart past t.pool.arr false true i us (λ e. true≢false (sym e)) v.pool.free_list.flags.0
        v.pool.used_list.flags)

  order : ids tree ≡ before w ++ after w
  order = ap ids (sym (place-close s.nodes key tree top)) ∙ ids-close_around leaf w

  low : All (λ j. (s.nodes j).key ≤ key) (before w)
  low = (place_order s.nodes key tree top v.sorted tt tt).0

  high : All (λ j. key < (s.nodes j).key) (after w)
  high = (place_order s.nodes key tree top v.sorted tt tt).1

  opened : Open linked (above w) i leaf leaf w 0
  opened =
      link_node-Open s i key object w (omega (arith, count_w i, unused)) once
        (place-IsWay s.nodes key s.root none s.root tree top v.links (refl, refl))
        (place-Toward s.nodes key tree top tt)
        (place-RbWay s.nodes key tree top v.height v.balanced
          (Red-top s.nodes key tree v.black_root) tt)

  fixed : Fixed (insert_loop (suc cap) i linked) linked (before w ++ (i ∷ after w))
  fixed =
      subst (Fixed (insert_loop (suc cap) i linked) linked) (ids-close_around (node leaf i leaf) w)
        (insert_loop_lem (suc cap) linked (above w) i leaf leaf w 0
          (omega (arith, place_height s.nodes key tree top, v.sizes, v.pool.whole)) opened)

  -- How often a node stands in the new list
  times_new : (j : ℕ) → times j (before w ++ (i ∷ after w)) ≡ times j us + one j i
  times_new j = omega (
    arith,
    times-append j (before w) (i ∷ after w),
    times-append j (before w) (after w),
    ap (times j) order,
    count-times j tree,
    v.members j,
  )

  count_fixed : (j : ℕ) → count j fixed.tree ≡ times j us + one j i
  count_fixed j = count-times j fixed.tree ∙ ap (times j) fixed.order ∙ times_new j

  finished : Finished (insert_rebalance (suc cap) i linked) linked (before w ++ (i ∷ after w))
  finished =
      Fixed-finish (suc cap) i linked (before w ++ (i ∷ after w)) fixed
        (omega (arith, count_fixed i, one_self i))
        (λ j. omega (arith, count_fixed j, opened.once j, count_w j))

  kept :
      (j : ℕ) → 1 ≤ times j (before w) + times j (after w) → KeyKept s.nodes finished.shape.nodes j
  kept j h =
      let q : 1 ≤ times j us = omega (
        arith,
        times-append j (before w) (after w),
        ap (times j) order,
        count-times j tree,
        v.members j,
      ) in
      KeyKept-trans s.nodes linked.nodes finished.shape.nodes j
        (link_node_other s i key object (above w) j
          (λ e. omega (arith, unused, subst (λ x. 1 ≤ times x us) e q)))
        (finished.kept j)

  new : ((finished.shape.nodes i).key ≡ key) × ((finished.shape.nodes i).object ≡ object)
  new =
      let n = link_node_new s i key object w (omega (arith, count_w i, unused)) in
      let k = finished.kept i in (k.0 ∙ n.0, k.1 ∙ n.1)

  abbrev grown : RbTree
  grown = record { pool = (Pool.create_index past cap true t.pool).1; shape = finished.shape }

  grown-IsRbTree : IsRbTree past cap grown finished.tree fs (us ++ (i ∷ []))
  grown-IsRbTree = record {
    pool = (create_lem past cap true t.pool i fs us v.pool).1;
    links = finished.links;
    members = λ j.
        count-times j finished.tree
        ∙ ap (times j) finished.order
        ∙ times_new j
        ∙ omega (arith, times-append j us (i ∷ []));
    sizes = omega (
      arith,
      depth-length finished.tree,
      ap length finished.order,
      length-append (before w) (i ∷ after w),
      length-append (before w) (after w),
      ap length order,
      depth-length tree,
      v.sizes,
      length-append us (i ∷ []),
    );
    height = finished.height;
    balanced = finished.balanced;
    black_root = finished.black_root;
    sorted = subst (Sorted finished.shape.nodes) (sym finished.order) (
        Sorted-middle s.nodes finished.shape.nodes i (key, object) (before w) (after w) kept new low
          high (subst (Sorted s.nodes) order v.sorted));
  }

  grown_entries :
      entries finished.shape.nodes (ids finished.tree)
      ≡ put_entry (i, key, object) (entries s.nodes (ids tree))
  grown_entries =
      ap (entries finished.shape.nodes) finished.order
      ∙ entries-middle s.nodes finished.shape.nodes i (key, object) (before w) (after w) kept new
          low high
      ∙ ap (λ x. put_entry (i, key, object) (entries s.nodes x)) (sym order)

  insert-grown : insert past cap key object t ≡ some (some i, grown)
  unfolding insert find_insert_position
  insert-grown =
      rw
        (
          position_loop-place s key (suc cap) none s.root tree top
              (omega (arith, v.sizes, v.pool.whole)) v.links refl,
          find_insert_position,
          insert,
        )
        (insert_at-some past cap key object (above w) i (Pool.create_index past cap true t.pool) t
          finished.shape (create_lem past cap true t.pool i fs us v.pool).0 finished.returns)

  -- Insert into a sound red-black tree with a free node returns the first free node and puts the
  -- entry behind those whose key is not greater; the tree is sound again: links, colors, black nodes
  -- on every way down, order of the keys, and the pool.
  pub insert-put_entry :
      (t' : RbTree) × (tree' : Tree) × (insert past cap key object t ≡ some (some i, t'))
      × IsRbTree past cap t' tree' fs (us ++ (i ∷ []))
      × (entries t'.shape.nodes (ids tree')
          ≡ put_entry (i, key, object) (entries t.shape.nodes (ids tree)))
  insert-put_entry = (grown, finished.tree, insert-grown, grown-IsRbTree, grown_entries)
