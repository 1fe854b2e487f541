-- ===== src/RbTree/Cases.antt =====
-- common/common_rbtree.h: the rounds of InsertRebalance, from an open place whose way up is given.
use lightframe.Common.{ℕ, suc, ◌+◌, Option, some, ◌≡◌, refl, ◌∙◌, arith, bool_cases, inl, inr}
use mathlib.Core.Path.{subst}
use lightframe.RbTree.Nodes.{Color, red, black, Shape, is_red}
use lightframe.RbTree.Insert.{insert_loop}
use lightframe.RbTree.Shapes.{Tree, node, Way, left_of, right_of, IsTree, Once, ids, close}
use lightframe.RbTree.Balance.{Rb, RbWay, weight}
use lightframe.RbTree.Recolor.{recolored}
use lightframe.RbTree.Fixed.{Open, Fixed}
use lightframe.RbTree.RoundLeft
use lightframe.RbTree.RoundRight
use lightframe.RbTree.InnerLeft
use lightframe.RbTree.InnerRight

-- The black nodes above a red parent and its black parent
add_red : (c : Color) (n : ℕ) → c ≡ red → n + weight c ≡ n
add_red c n e = rw e (omega arith)

add_black : (c d : Color) (n : ℕ) → c ≡ red → d ≡ black → n + weight c + weight d ≡ n + 1
add_black c d n e h = rw (e, h) (omega arith)

module _ (f : ℕ) (s : Shape) (q : Option ℕ) (i : ℕ) (l r : Tree) (p : ℕ) (b : Tree) (g : ℕ)
    (u : Tree) (up : Way) (n : ℕ) (o : Open s q i l r (left_of p b (left_of g u up)) n)
    (e : (s.nodes p).color ≡ red)
    (next : Open
        (recolored s p g (s.nodes g).right)
        (s.nodes g).parent
        g
        (node (node l i r) p b)
        u
        up
        (n + 1)
      → Fixed
          (insert_loop (suc f) g (recolored s p g (s.nodes g).right))
          (recolored s p g (s.nodes g).right)
          (ids (close (node (node (node l i r) p b) g u) up))) where
  pub outer_left :
      Fixed (insert_loop (suc (suc f)) i s) s (ids (close (node (node (node l i r) p b) g u) up))
  outer_left =
      let w = o.way.3 in
      let y = o.high.2 in
      let k = o.high.1 e in
      let here : IsTree s.nodes (some p) (s.nodes p).left (node l i r) =
        rw o.way.1 (subst (λ x. IsTree s.nodes x (some i) (node l i r)) o.way.0 o.tree) in
      let tree : IsTree s.nodes (s.nodes g).parent (some g) (node (node (node l i r) p b) g u) =
        (refl, refl, (w.1, w.0, here, o.way.2), w.2) in
      let once : Once (node (node (node l i r) p b) g u) up = λ j. omega (arith, o.once j) in
      let ru = subst (λ x. Rb s.nodes u x) (add_red (s.nodes p).color n e) y.0 in
      let rc =
        subst (λ x. RbWay s.nodes x up) (add_black (s.nodes p).color (s.nodes g).color n e k.1)
          y.2 in
      elim (bool_cases (is_red (s.nodes g).right s)) [
        | inl t ↦
            RoundLeft.red_uncle f s (s.nodes g).parent p g (node l i r) b u up n tree w.3 once e rc
              ru i (o.tree.1 ∙ o.way.0) next t o.low o.high.0
        | inr t ↦
            RoundLeft.outer f s (s.nodes g).parent p g (node l i r) b u up n tree w.3 once e rc ru i
              (o.tree.1 ∙ o.way.0) next t o.low o.high.0 k.0 o.way.1
      ]

module _ (f : ℕ) (s : Shape) (q : Option ℕ) (i : ℕ) (l r : Tree) (p : ℕ) (b : Tree) (g : ℕ)
    (u : Tree) (up : Way) (n : ℕ) (o : Open s q i l r (right_of b p (left_of g u up)) n)
    (e : (s.nodes p).color ≡ red)
    (next : Open
        (recolored s p g (s.nodes g).right)
        (s.nodes g).parent
        g
        (node b p (node l i r))
        u
        up
        (n + 1)
      → Fixed
          (insert_loop (suc f) g (recolored s p g (s.nodes g).right))
          (recolored s p g (s.nodes g).right)
          (ids (close (node (node b p (node l i r)) g u) up))) where
  pub inner_left :
      Fixed (insert_loop (suc (suc f)) i s) s (ids (close (node (node b p (node l i r)) g u) up))
  inner_left =
      let w = o.way.3 in
      let y = o.high.2 in
      let k = o.high.1 e in
      let here : IsTree s.nodes (some p) (s.nodes p).right (node l i r) =
        rw o.way.1 (subst (λ x. IsTree s.nodes x (some i) (node l i r)) o.way.0 o.tree) in
      let tree : IsTree s.nodes (s.nodes g).parent (some g) (node (node b p (node l i r)) g u) =
        (refl, refl, (w.1, w.0, o.way.2, here), w.2) in
      let once : Once (node (node b p (node l i r)) g u) up = λ j. omega (arith, o.once j) in
      let ru = subst (λ x. Rb s.nodes u x) (add_red (s.nodes p).color n e) y.0 in
      let rc =
        subst (λ x. RbWay s.nodes x up) (add_black (s.nodes p).color (s.nodes g).color n e k.1)
          y.2 in
      elim (bool_cases (is_red (s.nodes g).right s)) [
        | inl t ↦
            RoundLeft.red_uncle f s (s.nodes g).parent p g b (node l i r) u up n tree w.3 once e rc
              ru i (o.tree.1 ∙ o.way.0) next t o.high.0 o.low
        | inr t ↦
            InnerLeft.inner f s (s.nodes g).parent p g i b l r u up n tree w.3 once
              (o.tree.1 ∙ o.way.0) e t o.high.0 k.0 o.is o.low rc ru
      ]

module _ (f : ℕ) (s : Shape) (q : Option ℕ) (i : ℕ) (l r : Tree) (p : ℕ) (b : Tree) (g : ℕ)
    (u : Tree) (up : Way) (n : ℕ) (o : Open s q i l r (right_of b p (right_of u g up)) n)
    (e : (s.nodes p).color ≡ red)
    (next : Open
        (recolored s p g (s.nodes g).left)
        (s.nodes g).parent
        g
        u
        (node b p (node l i r))
        up
        (n + 1)
      → Fixed
          (insert_loop (suc f) g (recolored s p g (s.nodes g).left))
          (recolored s p g (s.nodes g).left)
          (ids (close (node u g (node b p (node l i r))) up))) where
  pub outer_right :
      Fixed (insert_loop (suc (suc f)) i s) s (ids (close (node u g (node b p (node l i r))) up))
  outer_right =
      let w = o.way.3 in
      let y = o.high.2 in
      let k = o.high.1 e in
      let here : IsTree s.nodes (some p) (s.nodes p).right (node l i r) =
        rw o.way.1 (subst (λ x. IsTree s.nodes x (some i) (node l i r)) o.way.0 o.tree) in
      let tree : IsTree s.nodes (s.nodes g).parent (some g) (node u g (node b p (node l i r))) =
        (refl, refl, w.2, (w.1, w.0, o.way.2, here)) in
      let once : Once (node u g (node b p (node l i r))) up = λ j. omega (arith, o.once j) in
      let ru = subst (λ x. Rb s.nodes u x) (add_red (s.nodes p).color n e) y.0 in
      let rc =
        subst (λ x. RbWay s.nodes x up) (add_black (s.nodes p).color (s.nodes g).color n e k.1)
          y.2 in
      elim (bool_cases (is_red (s.nodes g).left s)) [
        | inl t ↦
            RoundRight.red_uncle f s (s.nodes g).parent p g (node l i r) b u up n tree w.3 once e rc
              ru i (o.tree.1 ∙ o.way.0) next t o.low o.high.0
        | inr t ↦
            RoundRight.outer f s (s.nodes g).parent p g (node l i r) b u up n tree w.3 once e rc ru
              i (o.tree.1 ∙ o.way.0) next t o.low o.high.0 k.0 o.way.1
      ]

module _ (f : ℕ) (s : Shape) (q : Option ℕ) (i : ℕ) (l r : Tree) (p : ℕ) (b : Tree) (g : ℕ)
    (u : Tree) (up : Way) (n : ℕ) (o : Open s q i l r (left_of p b (right_of u g up)) n)
    (e : (s.nodes p).color ≡ red)
    (next : Open
        (recolored s p g (s.nodes g).left)
        (s.nodes g).parent
        g
        u
        (node (node l i r) p b)
        up
        (n + 1)
      → Fixed
          (insert_loop (suc f) g (recolored s p g (s.nodes g).left))
          (recolored s p g (s.nodes g).left)
          (ids (close (node u g (node (node l i r) p b)) up))) where
  pub inner_right :
      Fixed (insert_loop (suc (suc f)) i s) s (ids (close (node u g (node (node l i r) p b)) up))
  inner_right =
      let w = o.way.3 in
      let y = o.high.2 in
      let k = o.high.1 e in
      let here : IsTree s.nodes (some p) (s.nodes p).left (node l i r) =
        rw o.way.1 (subst (λ x. IsTree s.nodes x (some i) (node l i r)) o.way.0 o.tree) in
      let tree : IsTree s.nodes (s.nodes g).parent (some g) (node u g (node (node l i r) p b)) =
        (refl, refl, w.2, (w.1, w.0, here, o.way.2)) in
      let once : Once (node u g (node (node l i r) p b)) up = λ j. omega (arith, o.once j) in
      let ru = subst (λ x. Rb s.nodes u x) (add_red (s.nodes p).color n e) y.0 in
      let rc =
        subst (λ x. RbWay s.nodes x up) (add_black (s.nodes p).color (s.nodes g).color n e k.1)
          y.2 in
      elim (bool_cases (is_red (s.nodes g).left s)) [
        | inl t ↦
            RoundRight.red_uncle f s (s.nodes g).parent p g b (node l i r) u up n tree w.3 once e rc
              ru i (o.tree.1 ∙ o.way.0) next t o.high.0 o.low
        | inr t ↦
            InnerRight.inner f s (s.nodes g).parent p g i b r l u up n tree w.3 once
              (o.tree.1 ∙ o.way.0) e t o.high.0 k.0 o.is o.low rc ru
      ]
