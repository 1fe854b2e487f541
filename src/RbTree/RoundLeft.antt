-- ===== src/RbTree/RoundLeft.antt =====
-- common/common_rbtree.h: a round of InsertRebalance whose red parent is a left child.
use lightframe.Common.{
  ℕ, suc, ◌+◌, ◌≡◌, ◌≢◌, refl, sym, ap, ◌∙◌, Option, some, true, false, arith, append_assoc, ◌∷◌,
}
use mathlib.Core.Path.{subst}
use lightframe.RbTree.Nodes.{red, Node, Shape, is_red}
use lightframe.RbTree.Insert.{insert_loop, insert_round, insert_left}
use lightframe.RbTree.Shapes.{
  Tree, leaf, node, Way, IsTree, IsWay, Once, ids, close, one_self, IsTree-frame, IsWay-frame,
}
use lightframe.RbTree.Balance.{Rb, RootBlack, RbWay, ids-close}
use lightframe.RbTree.Rounds.{
  insert_loop_step, insert_round_left, insert_left-recolor, insert_left_outer,
}
use lightframe.RbTree.Recolor.{
  recolored, recolor-recolored, recolored-Same, recolored-root, recolored-KeyKept, recolored_parent,
  recolored_grandparent, recolored_upper, recolored_lower, recolored_way, RootBlack-is_red,
}
use lightframe.RbTree.Turns.{count_root}
use lightframe.RbTree.LiftLeft.{
  lifted_left, lifted_left-IsTree, lifted_left-IsWay, lift_left-lifted, lifted_left-black,
  lifted_left-KeyKept, lifted_left-Rb, lifted_left-RbWay,
}
use lightframe.RbTree.Fixed.{Open, Fixed, Fixed-step, settle}

-- A subtree's root has the node above it as its parent, in two arrays that have the subtree.
top_parent :
    (m m' : ℕ → Node) (p p' o o' : Option ℕ) (i : ℕ) (t : Tree)
    → IsTree m p o t
    → IsTree m' p' o' t
    → o ≡ some i
    → (m' i).parent ≡ p'
top_parent m m' p p' o o' i leaf h h' e = cc
top_parent m m' p p' o o' i (node l j r) h h' e = let w : j ≡ i = ground arith in rw w at h'.1

-- The grandparent g of the round, with its left child p, the uncle u and what is above. `next` is
-- what the loop does after a round with a red uncle.
module _ (fuel : ℕ) (s : Shape) (q : Option ℕ) (p g : ℕ) (a c u : Tree) (up : Way) (n : ℕ)
    (tree : IsTree s.nodes q (some g) (node (node a p c) g u))
    (way : IsWay s.nodes s.root q (some g) up) (once : Once (node (node a p c) g u) up)
    (is : (s.nodes p).color ≡ red) (rc : RbWay s.nodes (n + 1) up) (ru : Rb s.nodes u n) where
  abbrev o : Option ℕ
  o = (s.nodes g).right

  abbrev s' : Shape
  s' = recolored s p g o

  apart : p ≢ g
  apart e = ground (arith, once p, one_self p)

  recolored-Open :
      is_red o s ≡ true → Rb s.nodes a n → Rb s.nodes c n → Open s' q g (node a p c) u up (n + 1)
  recolored-Open e ra rb =
      let w = recolored_lower s p g o a c u up n tree.3 e once ru in
      record {
        tree =
            IsTree-frame s.nodes s'.nodes q (some g) (node (node a p c) g u)
              (λ j h. recolored-Same s p g o j) tree;
        way =
            subst (λ x. IsWay s'.nodes x q (some g) up) (sym (recolored-root s p g o))
              (IsWay-frame s.nodes s'.nodes s.root q (some g) up (λ j h. recolored-Same s p g o j)
                way);
        once = once;
        is = recolored_grandparent s p g o;
        low = (
          λ h. (recolored_parent s p g o apart, w.1),
          n + 1,
          rw (recolored_grandparent s p g o) (omega arith),
          recolored_upper s p g o a c u up n tree.3 e once ra rb,
          w.0,
        );
        high = recolored_way s p g o a c u up n tree.3 e once rc;
      }

  -- The order of the nodes is that before the last rotation.
  turned : ids (close (node a p (node c g u)) up) ≡ ids (close (node (node a p c) g u) up)
  turned =
      ids-close (node a p (node c g u)) (node (node a p c) g u) up
        (sym (append_assoc (ids a) (p ∷ ids c) (g ∷ ids u)))

  module _ (i : ℕ) (e : (s.nodes i).parent ≡ some p)
      (next : Open s' q g (node a p c) u up (n + 1)
        → Fixed (insert_loop (suc fuel) g s') s' (ids (close (node (node a p c) g u) up))) where
    round : insert_round i p s ≡ insert_left i p g s
    round = insert_round_left s i p g tree.2.1 tree.2.0

    pub red_uncle :
        is_red o s ≡ true
        → Rb s.nodes a n
        → Rb s.nodes c n
        → Fixed (insert_loop (suc (suc fuel)) i s) s (ids (close (node (node a p c) g u) up))
    red_uncle h ra rb =
        Fixed-step (insert_loop (suc (suc fuel)) i s) (insert_loop (suc fuel) g s') s s'
          (ids (close (node (node a p c) g u) up)) (ids (close (node (node a p c) g u) up))
          (insert_loop_step (suc fuel) i s p g s' e is
            (round ∙ insert_left-recolor s i p g h ∙ ap some (recolor-recolored s p g o)))
          (recolored-KeyKept s p g o) refl (next (recolored-Open h ra rb))

    -- The node is the parent's left child, and the uncle is black.
    pub outer :
        is_red o s ≡ false
        → Rb s.nodes a n
        → Rb s.nodes c n
        → RootBlack s.nodes c
        → (s.nodes p).left ≡ some i
        → Fixed (insert_loop (suc (suc fuel)) i s) s (ids (close (node (node a p c) g u) up))
    outer h ra rb bc k =
        let l = lifted_left s p g q a c u up n tree way once in
        let new = lifted_left-IsTree s p g q a c u up n tree way once in
        let in_a =
          count_root s.nodes (some p) i a (subst (λ x. IsTree s.nodes (some p) x a) k tree.2.2) in
        let lone : (s.nodes p).right ≢ some i = λ w.
          (let in_c =
              count_root s.nodes (some p) i c
                (subst (λ x. IsTree s.nodes (some p) x c) w tree.2.3) in
            omega (arith, once i, in_a, in_c)) in
        let b = lifted_left-black s p g q a c u up n tree way once in
        Fixed-step (insert_loop (suc (suc fuel)) i s) (insert_loop (suc fuel) i l) s l
          (ids (close (node (node a p c) g u) up)) (ids (close (node a p (node c g u)) up))
          (insert_loop_step (suc fuel) i s p i l e is (
            round
            ∙ insert_left_outer s i p g h lone
            ∙ lift_left-lifted s p g q a c u up n tree way once i))
          (lifted_left-KeyKept s p g q a c u up n tree way once) turned
          (settle fuel l q p i (node a p (node c g u)) up (n + 1)
            (top_parent s.nodes l.nodes (some p) (some p) (s.nodes p).left (l.nodes p).left i a
              tree.2.2 new.2 k)
            b new (lifted_left-IsWay s p g q a c u up n tree way once)
            (lifted_left-Rb s p g q a c u up n tree way once ra rb ru bc
              (RootBlack-is_red s (some g) o u tree.3 h))
            b (lifted_left-RbWay s p g q a c u up n tree way once rc))
