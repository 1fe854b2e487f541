-- ===== src/RbTree/Erase.antt =====
-- common/common_rbtree.h: the unlinking of a node, and EraseRebalance.
use lightframe.Common.{ℕ, zero, suc, true, false, Option, none, some, ◌||◌, if◌then◌else◌}
use lightframe.Pool.{same_id}
use lightframe.RbTree.Nodes.{
  Color, red, black, Shape, set_color, set_parent, set_left, set_right, is_red, set_color_of,
  set_parent_of, min_node,
}
use lightframe.RbTree.Rotate.{hang_left, rotate_left, rotate_right}

-- What Erase hands to EraseRebalance: the color that left the tree, pChild, pParent and the shape.
pub record Cut : Type 0 where
  pub color : Color
  pub child : Option ℕ
  pub parent : Option ℕ
  pub shape : Shape

-- A node with at most one child: the child takes its place.
unfoldable pub cut_one : ℕ → Option ℕ → Shape → Cut
unfolding set_parent_of hang_left
cut_one i child s =
    let p = (s.nodes i).parent in
    record {
      color = (s.nodes i).color;
      child = child;
      parent = p;
      shape = hang_left i child p (set_parent_of child p s);
    }

-- The node k takes over the links and the color of the node `old`, and its place under the parent.
unfoldable pub take_over : ℕ → ℕ → Shape → Shape
unfolding set_parent set_color set_right set_left hang_left
take_over old k s =
    let s1 = set_parent k (s.nodes old).parent s in
    let s2 = set_color k (s1.nodes old).color s1 in
    let s3 = set_right k (s2.nodes old).right s2 in
    let s4 = set_left k (s3.nodes old).left s3 in hang_left old (some k) (s4.nodes old).parent s4

-- A node with two children: the least node k of the right subtree takes its place.
unfoldable pub cut_two : ℕ → ℕ → Shape → Cut
unfolding cut_one take_over set_parent_of same_id
cut_two old k s =
    let c = cut_one k (s.nodes k).right s in
    let p = if same_id (c.shape.nodes k).parent (some old) then some k else c.parent in
    let s1 = take_over old k c.shape in
    let s2 = set_parent_of (s1.nodes old).left (some k) s1 in
    record {
      color = c.color;
      child = c.child;
      parent = p;
      shape = set_parent_of (s2.nodes old).right (some k) s2;
    }

unfoldable pub cut_node : ℕ → ℕ → Shape → Option Cut
unfolding cut_one cut_two min_node
cut_node n i s = elim (s.nodes i).left [
  | none ↦ some (cut_one i (s.nodes i).right s)
  | some l ↦ elim (s.nodes i).right [
    | none ↦ some (cut_one i (some l) s)
    | some r ↦ elim (min_node n r s) [ none ↦ none | some k ↦ some (cut_two i k s) ]
  ]
]

-- How a round of EraseRebalance ends: with pNode, pParent and the shape of the next one, or by the
-- `break`, after which pNode is the root.
pub data Round : Type 0 where
  more : Option ℕ → Option ℕ → Shape → Round
  leave : Shape → Round

-- The sibling o of a left child has no red child: it turns red, and the parent is next.
unfoldable pub sink : ℕ → ℕ → Shape → Round
unfolding set_color
sink p o s = let s' = set_color o red s in more (some p) (s'.nodes p).parent s'

-- The sibling's outer child is red: the last rotation.
unfoldable pub close_left : ℕ → ℕ → Shape → Option Round
unfolding set_color set_color_of rotate_left
close_left p o s =
    let s1 = set_color p black (set_color o (s.nodes p).color s) in
    elim (rotate_left p (set_color_of (s1.nodes o).right black s1)) [
      | none ↦ none
      | some s' ↦ some (leave s')
    ]

unfoldable pub close_right : ℕ → ℕ → Shape → Option Round
unfolding set_color set_color_of rotate_right
close_right p o s =
    let s1 = set_color p black (set_color o (s.nodes p).color s) in
    elim (rotate_right p (set_color_of (s1.nodes o).left black s1)) [
      | none ↦ none
      | some s' ↦ some (leave s')
    ]

-- The part of a round after the sibling is black, for a left child and for a right child.
unfoldable pub mend_left : ℕ → ℕ → Shape → Option Round
unfolding is_red sink close_left set_color_of set_color rotate_right
mend_left p o s =
    if is_red (s.nodes o).left s || is_red (s.nodes o).right s
    then if is_red (s.nodes o).right s
      then close_left p o s
      else elim (rotate_right o (set_color o red (set_color_of (s.nodes o).left black s))) [
        | none ↦ none
        | some s' ↦ elim (s'.nodes p).right [ none ↦ none | some o' ↦ close_left p o' s' ]
      ]
    else some (sink p o s)

unfoldable pub mend_right : ℕ → ℕ → Shape → Option Round
unfolding is_red sink close_right set_color_of set_color rotate_left
mend_right p o s =
    if is_red (s.nodes o).left s || is_red (s.nodes o).right s
    then if is_red (s.nodes o).left s
      then close_right p o s
      else elim (rotate_left o (set_color o red (set_color_of (s.nodes o).right black s))) [
        | none ↦ none
        | some s' ↦ elim (s'.nodes p).left [ none ↦ none | some o' ↦ close_right p o' s' ]
      ]
    else some (sink p o s)

-- A round: a red sibling is first turned above the parent.
unfoldable pub erase_left : ℕ → Shape → Option Round
unfolding is_red mend_left set_color rotate_left
erase_left p s = elim (s.nodes p).right [
  | none ↦ none
  | some o ↦
      if is_red (some o) s
      then elim (rotate_left p (set_color p red (set_color o black s))) [
        | none ↦ none
        | some s' ↦ elim (s'.nodes p).right [ none ↦ none | some o' ↦ mend_left p o' s' ]
      ]
      else mend_left p o s
]

unfoldable pub erase_right : ℕ → Shape → Option Round
unfolding is_red mend_right set_color rotate_right
erase_right p s = elim (s.nodes p).left [
  | none ↦ none
  | some o ↦
      if is_red (some o) s
      then elim (rotate_right p (set_color p red (set_color o black s))) [
        | none ↦ none
        | some s' ↦ elim (s'.nodes p).left [ none ↦ none | some o' ↦ mend_right p o' s' ]
      ]
      else mend_right p o s
]

unfoldable pub erase_round : Option ℕ → Option ℕ → Shape → Option Round
unfolding erase_left erase_right same_id
erase_round o none s = none
erase_round o (some p) s = if same_id (s.nodes p).left o then erase_left p s else erase_right p s

-- The loop, and the node that is made black after it.
unfoldable pub erase_loop : ℕ → Option ℕ → Option ℕ → Shape → Option (Option ℕ × Shape)
unfolding erase_round is_red same_id
erase_loop zero o p s = none
erase_loop (suc n) o p s = if is_red o s then some (o, s) else elim (same_id o s.root) [
  | true ↦ some (o, s)
  | false ↦ elim (erase_round o p s) [
    | none ↦ none
    | some (leave s') ↦ some (s'.root, s')
    | some (more o' p' s') ↦ erase_loop n o' p' s'
  ]
]

unfoldable pub erase_rebalance : ℕ → Option ℕ → Option ℕ → Shape → Option Shape
unfolding erase_loop set_color_of
erase_rebalance n o p s = elim (erase_loop n o p s) [
  | none ↦ none
  | some (o', s') ↦ some (set_color_of o' black s')
]
