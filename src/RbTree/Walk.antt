-- ===== src/RbTree/Walk.antt =====
-- common/common_rbtree.h: First, Last, Next and Prev, which go through the nodes in order.
use lightframe.Common.{
  ℕ, zero, suc, ◌≤◌, ◌<◌, ◌≡◌, ◌≢◌, refl, sym, ap, ◌∙◌, Option, none, some, List, [], ◌∷◌, ◌++◌,
  arith, append_assoc,
}
use mathlib.Core.Path.{subst}
use lightframe.Pool.{same_id}
use lightframe.Pool.Links.{first_or, last_or}
use lightframe.Pool.Links
use lightframe.RbTree.Nodes.{
  Node, Shape, min_node, max_node, reached, first, last, next_up, prev_up,
}
use lightframe.RbTree.Rounds.{same_id_ne, same_id_self}
use lightframe.RbTree.Shapes.{
  Tree, leaf, node, Way, top, left_of, right_of, IsTree, IsWay, ids, depth, height, count,
  count_way, one_self,
}
use lightframe.RbTree.Turns.{count_root}
use lightframe.RbTree.Place.{before, after}

pub first_front :
    (xs zs ys : List ℕ) (j : ℕ)
    → first_or none ((xs ++ (j ∷ zs)) ++ ys) ≡ first_or none (xs ++ (j ∷ zs))
first_front [] zs ys j = refl
first_front (x ∷ xs) zs ys j = refl

last_back_from : (x : ℕ) (xs ys : List ℕ) (j : ℕ) → Links.last x (xs ++ (j ∷ ys)) ≡ Links.last j ys
last_back_from x [] ys j = refl
last_back_from x (z ∷ xs) ys j = last_back_from z xs ys j

pub last_back : (xs ys : List ℕ) (j : ℕ) → last_or none (xs ++ (j ∷ ys)) ≡ last_or none (j ∷ ys)
last_back [] ys j = refl
last_back (x ∷ xs) ys j = ap some (last_back_from x xs ys j)

module _ (s : Shape) (n i : ℕ) where
  min_node_stop : (s.nodes i).left ≡ none → min_node (suc n) i s ≡ some i
  unfolding min_node
  min_node_stop e = rw (e, min_node) refl

  min_node_step : (l : ℕ) → (s.nodes i).left ≡ some l → min_node (suc n) i s ≡ min_node n l s
  unfolding min_node
  min_node_step l e = rw (e, min_node) refl

  max_node_stop : (s.nodes i).right ≡ none → max_node (suc n) i s ≡ some i
  unfolding max_node
  max_node_stop e = rw (e, max_node) refl

  max_node_step : (r : ℕ) → (s.nodes i).right ≡ some r → max_node (suc n) i s ≡ max_node n r s
  unfolding max_node
  max_node_step r e = rw (e, max_node) refl

-- MinNode and MaxNode of a subtree that is not empty give its first and its last node.
pub min_node_lem :
    (s : Shape) (fuel : ℕ) (p o : Option ℕ) (l : Tree) (i : ℕ) (r : Tree)
    → depth (node l i r) < fuel
    → IsTree s.nodes p o (node l i r)
    → min_node fuel i s ≡ first_or none (ids (node l i r))
min_node_lem s zero p o l i r f h = absurd (omega arith)
min_node_lem s (suc n) p o leaf i r f h = min_node_stop s n i h.2
min_node_lem s (suc n) p o (node a k b) i r f h =
    min_node_step s n i k h.2.0
    ∙ min_node_lem s n (some i) (s.nodes i).left a k b (omega arith) h.2
    ∙ sym (first_front (ids a) (ids b) (i ∷ ids r) k)

pub max_node_lem :
    (s : Shape) (fuel : ℕ) (p o : Option ℕ) (l : Tree) (i : ℕ) (r : Tree)
    → depth (node l i r) < fuel
    → IsTree s.nodes p o (node l i r)
    → max_node fuel i s ≡ last_or none (ids (node l i r))
max_node_lem s zero p o l i r f h = absurd (omega arith)
max_node_lem s (suc n) p o l i leaf f h = max_node_stop s n i h.3 ∙ sym (last_back (ids l) [] i)
max_node_lem s (suc n) p o l i (node a k b) f h =
    max_node_step s n i k h.3.0
    ∙ max_node_lem s n (some i) (s.nodes i).right a k b (omega arith) h.3
    ∙ last_back (ids a) (ids b) k
    ∙ sym
        (last_back (ids l) (ids a ++ (k ∷ ids b)) i ∙ ap some (last_back_from i (ids a) (ids b) k))

pub reached_first :
    (xs zs : List ℕ) (j : ℕ)
    → reached (first_or none (xs ++ (j ∷ zs))) ≡ some (first_or none (xs ++ (j ∷ zs)))
unfolding reached
reached_first [] zs j = refl
reached_first (x ∷ xs) zs j = refl

pub reached_last :
    (xs zs : List ℕ) (j : ℕ)
    → reached (last_or none (xs ++ (j ∷ zs))) ≡ some (last_or none (xs ++ (j ∷ zs)))
unfolding reached
reached_last [] zs j = refl
reached_last (x ∷ xs) zs j = refl

pub first_tree :
    (s : Shape) (fuel : ℕ) (t : Tree)
    → depth t < fuel
    → IsTree s.nodes none s.root t
    → first fuel s ≡ some (first_or none (ids t))
unfolding first
first_tree s fuel leaf f h = rw (h, first) refl
first_tree s fuel (node l i r) f h =
    rw (h.0, first)
      (ap reached (min_node_lem s fuel none s.root l i r f h) ∙ reached_first (ids l) (ids r) i)

pub last_tree :
    (s : Shape) (fuel : ℕ) (t : Tree)
    → depth t < fuel
    → IsTree s.nodes none s.root t
    → last fuel s ≡ some (last_or none (ids t))
unfolding last
last_tree s fuel leaf f h = rw (h, last) refl
last_tree s fuel (node l i r) f h =
    rw (h.0, last)
      (ap reached (max_node_lem s fuel none s.root l i r f h) ∙ reached_last (ids l) (ids r) i)

module _ (s : Shape) (n i p : ℕ) where
  next_up_stop : (s.nodes p).right ≢ some i → next_up (suc n) i (some p) s ≡ some (some p)
  unfolding next_up
  next_up_stop e = rw (same_id_ne (s.nodes p).right i e, next_up) refl

  next_up_step :
      (s.nodes p).right ≡ some i → next_up (suc n) i (some p) s ≡ next_up n p (s.nodes p).parent s
  unfolding next_up
  next_up_step e = rw (ap (λ o. same_id o (some i)) e ∙ same_id_self i, next_up) refl

  prev_up_stop : (s.nodes p).left ≢ some i → prev_up (suc n) i (some p) s ≡ some (some p)
  unfolding prev_up
  prev_up_stop e = rw (same_id_ne (s.nodes p).left i e, prev_up) refl

  prev_up_step :
      (s.nodes p).left ≡ some i → prev_up (suc n) i (some p) s ≡ prev_up n p (s.nodes p).parent s
  unfolding prev_up
  prev_up_step e = rw (ap (λ o. same_id o (some i)) e ∙ same_id_self i, prev_up) refl

next_up_end : (s : Shape) (n i : ℕ) → next_up (suc n) i none s ≡ some none
unfolding next_up
next_up_end s n i = refl

prev_up_end : (s : Shape) (n i : ℕ) → prev_up (suc n) i none s ≡ some none
unfolding prev_up
prev_up_end s n i = refl

-- A child whose subtree does not have node i is not node i.
not_child :
    (m : ℕ → Node) (p o : Option ℕ) (i : ℕ) (t : Tree) → IsTree m p o t → count i t ≡ 0 → o ≢ some i
not_child m p o i t h z e =
    let c = count_root m p i t (subst (λ x. IsTree m p x t) e h) in omega (arith, c, z)

-- The walk up from the root of a subtree comes to the first node behind it, or before it.
pub next_up_lem :
    (s : Shape) (fuel i : ℕ) (p : Option ℕ) (up : Way)
    → height up < fuel
    → IsWay s.nodes s.root p (some i) up
    → count_way i up ≡ 0
    → ((j : ℕ) → count_way j up ≤ 1)
    → next_up fuel i p s ≡ some (first_or none (after up))
next_up_lem s zero i p up f w z once = absurd (omega arith)
next_up_lem s (suc n) i p top f w z once = ap (λ x. next_up (suc n) i x s) w.0 ∙ next_up_end s n i
next_up_lem s (suc n) i p (left_of k r up) f w z once =
    ap (λ x. next_up (suc n) i x s) w.0
    ∙ next_up_stop s n i k (not_child s.nodes (some k) (s.nodes k).right i r w.2 (omega (arith, z)))
next_up_lem s (suc n) i p (right_of l k up) f w z once =
    ap (λ x. next_up (suc n) i x s) w.0
    ∙ next_up_step s n i k w.1
    ∙ next_up_lem s n k (s.nodes k).parent up (omega arith) w.3 (omega (arith, once k, one_self k))
        (λ j. omega (arith, once j))

pub prev_up_lem :
    (s : Shape) (fuel i : ℕ) (p : Option ℕ) (up : Way)
    → height up < fuel
    → IsWay s.nodes s.root p (some i) up
    → count_way i up ≡ 0
    → ((j : ℕ) → count_way j up ≤ 1)
    → prev_up fuel i p s ≡ some (last_or none (before up))
prev_up_lem s zero i p up f w z once = absurd (omega arith)
prev_up_lem s (suc n) i p top f w z once = ap (λ x. prev_up (suc n) i x s) w.0 ∙ prev_up_end s n i
prev_up_lem s (suc n) i p (right_of l k up) f w z once =
    ap (λ x. prev_up (suc n) i x s) w.0
    ∙ prev_up_stop s n i k (not_child s.nodes (some k) (s.nodes k).left i l w.2 (omega (arith, z)))
    ∙ ap some (
        sym (last_back (before up ++ ids l) [] k)
        ∙ ap (last_or none) (append_assoc (before up) (ids l) (k ∷ [])))
prev_up_lem s (suc n) i p (left_of k r up) f w z once =
    ap (λ x. prev_up (suc n) i x s) w.0
    ∙ prev_up_step s n i k w.1
    ∙ prev_up_lem s n k (s.nodes k).parent up (omega arith) w.3 (omega (arith, once k, one_self k))
        (λ j. omega (arith, once j))
