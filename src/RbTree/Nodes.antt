-- ===== src/RbTree/Nodes.antt =====
-- common/common_rbtree.h: the tree's part of the nodes, what reads and writes it, and the walks down
-- and up the tree.
use lightframe.Common.{
  ℕ, zero, suc, Bool, true, false, Option, none, some, ltb, ◌==◌, if◌then◌else◌,
}
use lightframe.Pool.{same_id}

pub data Color : Type 0 where
  red black : Color

pub record Node : Type 0 where
  pub color : Color
  pub parent : Option ℕ
  pub left : Option ℕ
  pub right : Option ℕ
  pub key : ℕ
  pub object : ℕ

-- A node of Initialize and Uninitialize; memset clears the key.
abbrev pub blank_node : Node
blank_node = record { color = red; parent = none; left = none; right = none; key = 0; object = 0 }

-- m_nRoot, and m_arrIndex less the pool's fields
pub record Shape : Type 0 where
  pub root : Option ℕ
  pub nodes : ℕ → Node

unfoldable pub put : ℕ → Node → Shape → Shape
put i n s = record s { nodes = λ j. if j == i then n else s.nodes j }

unfoldable pub set_root : Option ℕ → Shape → Shape
set_root r s = record s { root = r }

unfoldable pub set_color : ℕ → Color → Shape → Shape
unfolding put
set_color i c s = put i (record (s.nodes i) { color = c }) s

unfoldable pub set_parent : ℕ → Option ℕ → Shape → Shape
unfolding put
set_parent i p s = put i (record (s.nodes i) { parent = p }) s

unfoldable pub set_left : ℕ → Option ℕ → Shape → Shape
unfolding put
set_left i l s = put i (record (s.nodes i) { left = l }) s

unfoldable pub set_right : ℕ → Option ℕ → Shape → Shape
unfolding put
set_right i r s = put i (record (s.nodes i) { right = r }) s

-- SetKey and SetObject
unfoldable pub set_entry : ℕ → ℕ → ℕ → Shape → Shape
unfolding put
set_entry i k v s = put i (record (s.nodes i) { key = k; object = v }) s

-- ResetRBNode: the links and the key; the color and the object stay.
unfoldable pub reset_node : ℕ → Shape → Shape
unfolding put
reset_node i s = put i (record (s.nodes i) { parent = none; left = none; right = none; key = 0 }) s

-- `if (NULL != p) p->SetParent(q)`, and the same for SetColor
unfoldable pub set_parent_of : Option ℕ → Option ℕ → Shape → Shape
unfolding set_parent
set_parent_of none q s = s
set_parent_of (some i) q s = set_parent i q s

unfoldable pub set_color_of : Option ℕ → Color → Shape → Shape
unfolding set_color
set_color_of none c s = s
set_color_of (some i) c s = set_color i c s

unfoldable pub is_red : Option ℕ → Shape → Bool
is_red none s = false
is_red (some i) s = elim (s.nodes i).color [ red ↦ true | black ↦ false ]

-- MinNode and MaxNode from node i, with fuel
unfoldable pub min_node : ℕ → ℕ → Shape → Option ℕ
min_node zero i s = none
min_node (suc n) i s = elim (s.nodes i).left [ none ↦ some i | some l ↦ min_node n l s ]

unfoldable pub max_node : ℕ → ℕ → Shape → Option ℕ
max_node zero i s = none
max_node (suc n) i s = elim (s.nodes i).right [ none ↦ some i | some r ↦ max_node n r s ]

-- The node that MinNode or MaxNode gave
unfoldable pub reached : Option ℕ → Option (Option ℕ)
reached none = none
reached (some i) = some (some i)

-- The inner `none` is the NULL that First and Last return of an empty tree.
unfoldable pub first : ℕ → Shape → Option (Option ℕ)
first n s = elim s.root [ none ↦ some none | some r ↦ reached (min_node n r s) ]

unfoldable pub last : ℕ → Shape → Option (Option ℕ)
last n s = elim s.root [ none ↦ some none | some r ↦ reached (max_node n r s) ]

-- The loops of Next and Prev from a node and its parent
unfoldable pub next_up : ℕ → ℕ → Option ℕ → Shape → Option (Option ℕ)
next_up zero i p s = none
next_up (suc n) i none s = some none
next_up (suc n) i (some p) s = elim (same_id (s.nodes p).right (some i)) [
  | false ↦ some (some p)
  | true ↦ next_up n p (s.nodes p).parent s
]

unfoldable pub prev_up : ℕ → ℕ → Option ℕ → Shape → Option (Option ℕ)
prev_up zero i p s = none
prev_up (suc n) i none s = some none
prev_up (suc n) i (some p) s = elim (same_id (s.nodes p).left (some i)) [
  | false ↦ some (some p)
  | true ↦ prev_up n p (s.nodes p).parent s
]

unfoldable pub next : ℕ → ℕ → Shape → Option (Option ℕ)
next n i s = elim (s.nodes i).right [
  | none ↦ next_up n i (s.nodes i).parent s
  | some r ↦ reached (min_node n r s)
]

unfoldable pub prev : ℕ → ℕ → Shape → Option (Option ℕ)
prev n i s = elim (s.nodes i).left [
  | none ↦ prev_up n i (s.nodes i).parent s
  | some l ↦ reached (max_node n l s)
]

-- FindNode's loop, from the node that it has come to
unfoldable pub find_loop : ℕ → ℕ → Option ℕ → Shape → Option (Option ℕ)
find_loop zero key o s = none
find_loop (suc n) key none s = some none
find_loop (suc n) key (some i) s = elim (ltb key (s.nodes i).key) [
  | true ↦ find_loop n key (s.nodes i).left s
  | false ↦ elim (ltb (s.nodes i).key key) [
    | true ↦ find_loop n key (s.nodes i).right s
    | false ↦ some (some i)
  ]
]

unfoldable pub find_node : ℕ → ℕ → Shape → Option (Option ℕ)
find_node n key s = find_loop n key s.root s

-- FindInsertPostion's loop: pParent, and pNode
unfoldable pub position_loop : ℕ → ℕ → Option ℕ → Option ℕ → Shape → Option (Option ℕ)
position_loop zero key p o s = none
position_loop (suc n) key p none s = some p
position_loop (suc n) key p (some i) s = elim (ltb key (s.nodes i).key) [
  | true ↦ position_loop n key (some i) (s.nodes i).left s
  | false ↦ position_loop n key (some i) (s.nodes i).right s
]

unfoldable pub find_insert_position : ℕ → ℕ → Shape → Option (Option ℕ)
find_insert_position n key s = position_loop n key none s.root s
