-- ===== src/RbTree/Rotate.antt =====
-- common/common_rbtree.h: RotateLeft, RotateRight, and the hanging of a node in another's place.
use lightframe.Common.{ℕ, Option, none, some, if◌then◌else◌}
use lightframe.Pool.{same_id}
use lightframe.RbTree.Nodes.{Shape, set_root, set_parent, set_left, set_right, set_parent_of}

-- Node i's place below the parent p (or as the root) given to `new`: the rotations ask first whether
-- i is the right child, Erase whether it is the left one.
unfoldable pub hang_right : ℕ → Option ℕ → Option ℕ → Shape → Shape
unfolding set_root set_left set_right same_id
hang_right i new none s = set_root new s
hang_right i new (some p) s =
    if same_id (s.nodes p).right (some i) then set_right p new s else set_left p new s

unfoldable pub hang_left : ℕ → Option ℕ → Option ℕ → Shape → Shape
unfolding set_root set_left set_right same_id
hang_left i new none s = set_root new s
hang_left i new (some p) s =
    if same_id (s.nodes p).left (some i) then set_left p new s else set_right p new s

-- RotateLeft of node i with the right child r
unfoldable pub turn_left : ℕ → ℕ → Shape → Shape
unfolding set_right set_parent_of set_left set_parent hang_right
turn_left i r s =
    let inner = (s.nodes r).left in
    let s1 = set_parent_of inner (some i) (set_right i inner s) in
    let s2 = set_left r (some i) s1 in
    let s3 = set_parent r (s2.nodes i).parent s2 in
    set_parent i (some r) (hang_right i (some r) (s3.nodes i).parent s3)

unfoldable pub turn_right : ℕ → ℕ → Shape → Shape
unfolding set_right set_parent_of set_left set_parent hang_right
turn_right i l s =
    let inner = (s.nodes l).right in
    let s1 = set_parent_of inner (some i) (set_left i inner s) in
    let s2 = set_right l (some i) s1 in
    let s3 = set_parent l (s2.nodes i).parent s2 in
    set_parent i (some l) (hang_right i (some l) (s3.nodes i).parent s3)

-- Without the child, the code reads through NULL.
unfoldable pub rotate_left : ℕ → Shape → Option Shape
unfolding turn_left
rotate_left i s = elim (s.nodes i).right [ none ↦ none | some r ↦ some (turn_left i r s) ]

unfoldable pub rotate_right : ℕ → Shape → Option Shape
unfolding turn_right
rotate_right i s = elim (s.nodes i).left [ none ↦ none | some l ↦ some (turn_right i l s) ]
