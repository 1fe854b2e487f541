-- ===== src/RbTree/Loop.antt =====
-- common/common_rbtree.h: InsertRebalance, whose loop ends and leaves a balanced tree.
use lightframe.Common.{ℕ, zero, suc, ◌+◌, ◌<◌, Option, arith, inl, inr}
use lightframe.RbTree.Nodes.{Shape}
use lightframe.RbTree.Insert.{insert_loop}
use lightframe.RbTree.Shapes.{Tree, node, Way, top, left_of, right_of, ids, close, height}
use lightframe.RbTree.Balance.{color_cases}
use lightframe.RbTree.Recolor.{recolored}
use lightframe.RbTree.Fixed.{Open, Fixed, stop}
use lightframe.RbTree.Cases.{outer_left, inner_left, outer_right, inner_right}

-- From an open place the loop ends, within the fuel, and the tree is balanced but for its root.
pub insert_loop_lem :
    (fuel : ℕ) (s : Shape) (q : Option ℕ) (i : ℕ) (l r : Tree) (up : Way) (n : ℕ)
    → height up < fuel
    → Open s q i l r up n
    → Fixed (insert_loop fuel i s) s (ids (close (node l i r) up))
insert_loop_lem zero s q i l r up n h o = absurd (omega arith)
insert_loop_lem (suc f) s q i l r top n h o = stop f s q i l r top n o tt
insert_loop_lem (suc f) s q i l r (left_of p b top) n h o = elim (color_cases (s.nodes p).color) [
  | inl e ↦ absurd (o.high.1 e).1
  | inr e ↦ stop f s q i l r (left_of p b top) n o e
]
insert_loop_lem (suc f) s q i l r (right_of b p top) n h o = elim (color_cases (s.nodes p).color) [
  | inl e ↦ absurd (o.high.1 e).1
  | inr e ↦ stop f s q i l r (right_of b p top) n o e
]
insert_loop_lem (suc zero) s q i l r (left_of p b (left_of g u up)) n h o = absurd (omega arith)
insert_loop_lem (suc (suc f)) s q i l r (left_of p b (left_of g u up)) n h o =
    elim (color_cases (s.nodes p).color) [
      | inr e ↦ stop (suc f) s q i l r (left_of p b (left_of g u up)) n o e
      | inl e ↦ outer_left f s q i l r p b g u up n o e (λ x.
          insert_loop_lem (suc f) (recolored s p g (s.nodes g).right) (s.nodes g).parent g
            (node (node l i r) p b) u up (n + 1) (omega arith) x)
    ]
insert_loop_lem (suc zero) s q i l r (right_of b p (left_of g u up)) n h o = absurd (omega arith)
insert_loop_lem (suc (suc f)) s q i l r (right_of b p (left_of g u up)) n h o =
    elim (color_cases (s.nodes p).color) [
      | inr e ↦ stop (suc f) s q i l r (right_of b p (left_of g u up)) n o e
      | inl e ↦ inner_left f s q i l r p b g u up n o e (λ x.
          insert_loop_lem (suc f) (recolored s p g (s.nodes g).right) (s.nodes g).parent g
            (node b p (node l i r)) u up (n + 1) (omega arith) x)
    ]
insert_loop_lem (suc zero) s q i l r (right_of b p (right_of u g up)) n h o = absurd (omega arith)
insert_loop_lem (suc (suc f)) s q i l r (right_of b p (right_of u g up)) n h o =
    elim (color_cases (s.nodes p).color) [
      | inr e ↦ stop (suc f) s q i l r (right_of b p (right_of u g up)) n o e
      | inl e ↦ outer_right f s q i l r p b g u up n o e (λ x.
          insert_loop_lem (suc f) (recolored s p g (s.nodes g).left) (s.nodes g).parent g u
            (node b p (node l i r)) up (n + 1) (omega arith) x)
    ]
insert_loop_lem (suc zero) s q i l r (left_of p b (right_of u g up)) n h o = absurd (omega arith)
insert_loop_lem (suc (suc f)) s q i l r (left_of p b (right_of u g up)) n h o =
    elim (color_cases (s.nodes p).color) [
      | inr e ↦ stop (suc f) s q i l r (left_of p b (right_of u g up)) n o e
      | inl e ↦ inner_right f s q i l r p b g u up n o e (λ x.
          insert_loop_lem (suc f) (recolored s p g (s.nodes g).left) (s.nodes g).parent g u
            (node (node l i r) p b) up (n + 1) (omega arith) x)
    ]
