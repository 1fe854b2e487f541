-- ===== src/RbTree/RoundRight.antt =====
-- common/common_rbtree.h: a round of InsertRebalance whose red parent is a right child.
use lightframe.Common.{
  ℕ, suc, ◌+◌, ◌≡◌, ◌≢◌, refl, sym, ap, ◌∙◌, Option, some, true, false, arith, append_assoc, ◌∷◌,
}
use mathlib.Core.Path.{subst}
use lightframe.RbTree.Nodes.{red, Node, Shape, is_red}
use lightframe.RbTree.Insert.{insert_loop, insert_round, insert_right}
use lightframe.RbTree.Shapes.{
  Tree, leaf, node, Way, IsTree, IsWay, Once, ids, close, one_self, IsTree-frame, IsWay-frame,
}
use lightframe.RbTree.Balance.{Rb, RootBlack, RbWay, ids-close}
use lightframe.RbTree.Rounds.{
  insert_loop_step, insert_round_right, insert_right-recolor, insert_right_outer,
}
use lightframe.RbTree.Recolor.{
  recolored, recolor-recolored, recolored-Same, recolored-root, recolored-KeyKept, recolored_parent,
  recolored_grandparent, recolored_upper, recolored_lower, recolored_way, RootBlack-is_red,
}
use lightframe.RbTree.Turns.{count_root}
use lightframe.RbTree.LiftRight.{
  lifted_right, lifted_right-IsTree, lifted_right-IsWay, lift_right-lifted, lifted_right-black,
  lifted_right-KeyKept, lifted_right-Rb, lifted_right-RbWay,
}
use lightframe.RbTree.Fixed.{Open, Fixed, Fixed-step, settle}

-- A subtree's root has the node above it as its parent, in two arrays that have the subtree.
top_parent :
    (m m' : ℕ → Node) (p p' o o' : Option ℕ) (i : ℕ) (t : Tree)
    → IsTree m p o t
    → IsTree m' p' o' t
    → o ≡ some i
    → (m' i).parent ≡ p'
top_parent m m' p p' o o' i leaf h h' e = cc
top_parent m m' p p' o o' i (node l j r) h h' e = let w : j ≡ i = ground arith in rw w at h'.1

-- The grandparent g of the round, with its right child p, the uncle u and what is above. `next` is
-- what the loop does after a round with a red uncle.
module _ (fuel : ℕ) (s : Shape) (q : Option ℕ) (p g : ℕ) (a c u : Tree) (up : Way) (n : ℕ)
    (tree : IsTree s.nodes q (some g) (node u g (node c p a)))
    (way : IsWay s.nodes s.root q (some g) up) (once : Once (node u g (node c p a)) up)
    (is : (s.nodes p).color ≡ red) (rc : RbWay s.nodes (n + 1) up) (ru : Rb s.nodes u n) where
  abbrev o : Option ℕ
  o = (s.nodes g).left

  abbrev s' : Shape
  s' = recolored s p g o

  once' : Once (node (node c p a) g u) up
  once' j = omega (arith, once j)

  beside : (s.nodes g).left ≢ some p
  beside w =
      let h = count_root s.nodes (some g) p u (subst (λ x. IsTree s.nodes (some g) x u) w tree.2) in
      omega (arith, once p, one_self p, h)

  apart : p ≢ g
  apart e = ground (arith, once p, one_self p)

  recolored-Open :
      is_red o s ≡ true → Rb s.nodes a n → Rb s.nodes c n → Open s' q g u (node c p a) up (n + 1)
  recolored-Open e ra rb =
      let w = recolored_lower s p g o c a u up n tree.2 e once' ru in
      record {
        tree =
            IsTree-frame s.nodes s'.nodes q (some g) (node u g (node c p a))
              (λ j h. recolored-Same s p g o j) tree;
        way =
            subst (λ x. IsWay s'.nodes x q (some g) up) (sym (recolored-root s p g o))
              (IsWay-frame s.nodes s'.nodes s.root q (some g) up (λ j h. recolored-Same s p g o j)
                way);
        once = once;
        is = recolored_grandparent s p g o;
        low = (
          λ h. (w.1, recolored_parent s p g o apart),
          n + 1,
          rw (recolored_grandparent s p g o) (omega arith),
          w.0,
          recolored_upper s p g o c a u up n tree.2 e once' rb ra,
        );
        high = recolored_way s p g o c a u up n tree.2 e once' rc;
      }

  -- The order of the nodes is that before the last rotation.
  turned : ids (close (node (node u g c) p a) up) ≡ ids (close (node u g (node c p a)) up)
  turned =
      ids-close (node (node u g c) p a) (node u g (node c p a)) up
        (append_assoc (ids u) (g ∷ ids c) (p ∷ ids a))

  module _ (i : ℕ) (e : (s.nodes i).parent ≡ some p)
      (next : Open s' q g u (node c p a) up (n + 1)
        → Fixed (insert_loop (suc fuel) g s') s' (ids (close (node u g (node c p a)) up))) where
    round : insert_round i p s ≡ insert_right i p g s
    round = insert_round_right s i p g tree.3.1 beside

    pub red_uncle :
        is_red o s ≡ true
        → Rb s.nodes a n
        → Rb s.nodes c n
        → Fixed (insert_loop (suc (suc fuel)) i s) s (ids (close (node u g (node c p a)) up))
    red_uncle h ra rb =
        Fixed-step (insert_loop (suc (suc fuel)) i s) (insert_loop (suc fuel) g s') s s'
          (ids (close (node u g (node c p a)) up)) (ids (close (node u g (node c p a)) up))
          (insert_loop_step (suc fuel) i s p g s' e is
            (round ∙ insert_right-recolor s i p g h ∙ ap some (recolor-recolored s p g o)))
          (recolored-KeyKept s p g o) refl (next (recolored-Open h ra rb))

    -- The node is the parent's right child, and the uncle is black.
    pub outer :
        is_red o s ≡ false
        → Rb s.nodes a n
        → Rb s.nodes c n
        → RootBlack s.nodes c
        → (s.nodes p).right ≡ some i
        → Fixed (insert_loop (suc (suc fuel)) i s) s (ids (close (node u g (node c p a)) up))
    outer h ra rb bc k =
        let l = lifted_right s p g q a c u up n tree way once in
        let new = lifted_right-IsTree s p g q a c u up n tree way once in
        let in_a =
          count_root s.nodes (some p) i a (subst (λ x. IsTree s.nodes (some p) x a) k tree.3.3) in
        let lone : (s.nodes p).left ≢ some i = λ w.
          (let in_c =
              count_root s.nodes (some p) i c
                (subst (λ x. IsTree s.nodes (some p) x c) w tree.3.2) in
            omega (arith, once i, in_a, in_c)) in
        let b = lifted_right-black s p g q a c u up n tree way once in
        Fixed-step (insert_loop (suc (suc fuel)) i s) (insert_loop (suc fuel) i l) s l
          (ids (close (node u g (node c p a)) up)) (ids (close (node (node u g c) p a) up))
          (insert_loop_step (suc fuel) i s p i l e is (
            round
            ∙ insert_right_outer s i p g h lone
            ∙ lift_right-lifted s p g q a c u up n tree way once i))
          (lifted_right-KeyKept s p g q a c u up n tree way once) turned
          (settle fuel l q p i (node (node u g c) p a) up (n + 1)
            (top_parent s.nodes l.nodes (some p) (some p) (s.nodes p).right (l.nodes p).right i a
              tree.3.3 new.3 k)
            b new (lifted_right-IsWay s p g q a c u up n tree way once)
            (lifted_right-Rb s p g q a c u up n tree way once ra rb ru bc
              (RootBlack-is_red s (some g) o u tree.2 h))
            b (lifted_right-RbWay s p g q a c u up n tree way once rc))
