-- ===== src/RbTree/Insert.antt =====
-- common/common_rbtree.h: the linking of a new node, and InsertRebalance.
use lightframe.Common.{ℕ, zero, suc, true, false, Option, none, some, ltb, if◌then◌else◌}
use lightframe.Pool.{same_id}
use lightframe.RbTree.Nodes.{
  red, black, Shape, set_root, set_color, set_parent, set_left, set_right, set_entry, is_red,
  set_color_of,
}
use lightframe.RbTree.Rotate.{rotate_left, rotate_right}

-- The new red node i below the parent that FindInsertPostion gave, or as the root.
unfoldable pub link_node : ℕ → Option ℕ → ℕ → ℕ → Shape → Shape
unfolding set_parent set_left set_right set_color set_entry set_root
link_node i p key object s =
    let s1 = set_right i none (set_left i none (set_parent i p s)) in
    let s2 = set_entry i key object (set_color i red s1) in
    elim p [
      | none ↦ set_root (some i) s2
      | some j ↦
          if ltb key (s2.nodes j).key then set_left j (some i) s2 else set_right j (some i) s2
    ]

-- The parent and the grandparent recolored, and the grandparent turned down.
unfoldable pub lift_left : ℕ → ℕ → ℕ → Shape → Option (ℕ × Shape)
lift_left i p g s = elim (rotate_right g (set_color g red (set_color p black s))) [
  | none ↦ none
  | some s' ↦ some (i, s')
]

unfoldable pub lift_right : ℕ → ℕ → ℕ → Shape → Option (ℕ × Shape)
lift_right i p g s = elim (rotate_left g (set_color g red (set_color p black s))) [
  | none ↦ none
  | some s' ↦ some (i, s')
]

-- The uncle is red: both generations change color, and the grandparent is next.
unfoldable pub recolor : ℕ → ℕ → Option ℕ → Shape → ℕ × Shape
recolor p g uncle s = (g, set_color g red (set_color p black (set_color_of uncle black s)))

-- A round for a parent that is the grandparent's left child, and one for the right child: the node
-- of the next round, and the shape.
unfoldable pub insert_left : ℕ → ℕ → ℕ → Shape → Option (ℕ × Shape)
insert_left i p g s =
    if is_red (s.nodes g).right s
    then some (recolor p g (s.nodes g).right s)
    else if same_id (s.nodes p).right (some i)
    then elim (rotate_left p s) [ none ↦ none | some s' ↦ lift_left p i g s' ]
    else lift_left i p g s

unfoldable pub insert_right : ℕ → ℕ → ℕ → Shape → Option (ℕ × Shape)
insert_right i p g s =
    if is_red (s.nodes g).left s
    then some (recolor p g (s.nodes g).left s)
    else if same_id (s.nodes p).left (some i)
    then elim (rotate_right p s) [ none ↦ none | some s' ↦ lift_right p i g s' ]
    else lift_right i p g s

-- One round below a red parent p. A red root would have the code read through NULL.
unfoldable pub insert_round : ℕ → ℕ → Shape → Option (ℕ × Shape)
insert_round i p s = elim (s.nodes p).parent [
  | none ↦ none
  | some g ↦ if same_id (s.nodes g).left (some p) then insert_left i p g s else insert_right i p g s
]

unfoldable pub insert_loop : ℕ → ℕ → Shape → Option Shape
insert_loop zero i s = none
insert_loop (suc n) i s = elim (is_red (s.nodes i).parent s) [
  | false ↦ some s
  | true ↦ elim (s.nodes i).parent [
    | none ↦ none
    | some p ↦ elim (insert_round i p s) [ none ↦ none | some (j, s') ↦ insert_loop n j s' ]
  ]
]

-- Root()->SetColor(enmNodeColor_Black)
unfoldable pub blacken_root : Shape → Option Shape
blacken_root s = elim s.root [ none ↦ none | some r ↦ some (set_color r black s) ]

unfoldable pub insert_rebalance : ℕ → ℕ → Shape → Option Shape
insert_rebalance n i s = elim (insert_loop n i s) [ none ↦ none | some s' ↦ blacken_root s' ]
