-- ===== src/RbTree/Balance.antt =====
-- common/common_rbtree.h: the colors of a red-black tree, and of a tree with one open place.
use lightframe.Common.{
  ℕ, ◌+◌, ◌≤◌, ◌≡◌, refl, sym, ap, ◌∙◌, Option, none, some, ◌++◌, ◌∷◌, arith, ◌⊎◌, inl, inr,
}
use mathlib.Core.Path.{subst}
use lightframe.RbTree.Nodes.{Color, red, black, Node}
use lightframe.RbTree.Shapes.{
  Tree, leaf, node, Way, top, left_of, right_of, IsTree, IsWay, ids, close, count, count_way,
  one_self,
}

abbrev pub weight : Color → ℕ
weight red = 0
weight black = 1

abbrev pub RootBlack : (ℕ → Node) → Tree → Type 0
RootBlack m leaf = Unit
RootBlack m (node l i r) = (m i).color ≡ black

-- No red node has a red child, and every way down passes n black nodes.
abbrev pub Rb : (ℕ → Node) → Tree → ℕ → Type 0
Rb m leaf n = n ≡ 0
Rb m (node l i r) n =
    ((m i).color ≡ red → RootBlack m l × RootBlack m r)
    × (k : ℕ) × (n ≡ k + weight (m i).color)
    × Rb m l k
    × Rb m r k

-- The node above is there and black.
abbrev pub BlackAbove : (ℕ → Node) → Way → Type 0
BlackAbove m top = ⊥
BlackAbove m (left_of i r up) = (m i).color ≡ black
BlackAbove m (right_of l i up) = (m i).color ≡ black

-- The node above is not red.
abbrev pub NotRed : (ℕ → Node) → Way → Type 0
NotRed m top = Unit
NotRed m (left_of i r up) = (m i).color ≡ black
NotRed m (right_of l i up) = (m i).color ≡ black

-- What is above an open place for a tree of n black nodes: only its root and the node above it may
-- both be red, and the root of the whole tree is not red.
abbrev pub RbWay : (ℕ → Node) → ℕ → Way → Type 0
RbWay m n top = Unit
RbWay m n (left_of i r up) =
    Rb m r n
    × ((m i).color ≡ red → RootBlack m r × BlackAbove m up)
    × RbWay m (n + weight (m i).color) up
RbWay m n (right_of l i up) =
    Rb m l n
    × ((m i).color ≡ red → RootBlack m l × BlackAbove m up)
    × RbWay m (n + weight (m i).color) up

module _ (m m' : ℕ → Node) where
  pub RootBlack-frame :
      (t : Tree)
      → ((j : ℕ) → 1 ≤ count j t → (m' j).color ≡ (m j).color)
      → RootBlack m t
      → RootBlack m' t
  RootBlack-frame leaf f h = tt
  RootBlack-frame (node l i r) f h = f i (omega (arith, one_self i)) ∙ h

  pub Rb-frame :
      (t : Tree) (n : ℕ)
      → ((j : ℕ) → 1 ≤ count j t → (m' j).color ≡ (m j).color)
      → Rb m t n
      → Rb m' t n
  Rb-frame leaf n f h = h
  Rb-frame (node l i r) n f (calm, k, e, a, b) =
      let c = f i (omega (arith, one_self i)) in
      let fl : (j : ℕ) → 1 ≤ count j l → (m' j).color ≡ (m j).color = λ j q. f j (omega arith) in
      let fr : (j : ℕ) → 1 ≤ count j r → (m' j).color ≡ (m j).color = λ j q. f j (omega arith) in
      (
        λ q. let w = calm (sym c ∙ q) in (RootBlack-frame l fl w.0, RootBlack-frame r fr w.1),
        k,
        e ∙ ap (λ x. k + weight x) (sym c),
        Rb-frame l k fl a,
        Rb-frame r k fr b,
      )

  BlackAbove-frame :
      (up : Way)
      → ((j : ℕ) → 1 ≤ count_way j up → (m' j).color ≡ (m j).color)
      → BlackAbove m up
      → BlackAbove m' up
  BlackAbove-frame top f h = h
  BlackAbove-frame (left_of i r up) f h = f i (omega (arith, one_self i)) ∙ h
  BlackAbove-frame (right_of l i up) f h = f i (omega (arith, one_self i)) ∙ h

  side-frame :
      (i n : ℕ) (t : Tree) (up : Way)
      → ((j : ℕ) → 1 ≤ count j t + count_way j up → (m' j).color ≡ (m j).color)
      → (m' i).color ≡ (m i).color
      → ((m i).color ≡ red → RootBlack m t × BlackAbove m up)
      → (m' i).color ≡ red
      → RootBlack m' t × BlackAbove m' up
  side-frame i n t up f c h q =
      let w = h (sym c ∙ q) in
      (
        RootBlack-frame t (λ j u. f j (omega arith)) w.0,
        BlackAbove-frame up (λ j u. f j (omega arith)) w.1,
      )

  pub RbWay-frame :
      (n : ℕ) (up : Way)
      → ((j : ℕ) → 1 ≤ count_way j up → (m' j).color ≡ (m j).color)
      → RbWay m n up
      → RbWay m' n up
  RbWay-frame n top f h = tt
  RbWay-frame n (left_of i r up) f h =
      let c = f i (omega (arith, one_self i)) in
      (
        Rb-frame r n (λ j q. f j (omega arith)) h.0,
        side-frame i n r up (λ j q. f j (omega arith)) c h.1,
        rw c (RbWay-frame (n + weight (m i).color) up (λ j q. f j (omega arith)) h.2),
      )
  RbWay-frame n (right_of l i up) f h =
      let c = f i (omega (arith, one_self i)) in
      (
        Rb-frame l n (λ j q. f j (omega arith)) h.0,
        side-frame i n l up (λ j q. f j (omega arith)) c h.1,
        rw c (RbWay-frame (n + weight (m i).color) up (λ j q. f j (omega arith)) h.2),
      )

pub color_cases : (c : Color) → (c ≡ red) ⊎ (c ≡ black)
color_cases red = inl refl
color_cases black = inr refl

module _ (m : ℕ → Node) where
  pub NotRed-BlackAbove : (up : Way) → BlackAbove m up → NotRed m up
  NotRed-BlackAbove top h = tt
  NotRed-BlackAbove (left_of i r up) h = h
  NotRed-BlackAbove (right_of l i up) h = h

  -- The place closed by a tree that is balanced, where its root and the node above are not both red.
  mutual
    pub Rb-close_black :
        (n : ℕ) (t : Tree) (up : Way)
        → Rb m t n
        → RootBlack m t
        → RbWay m n up
        → (k : ℕ) × Rb m (close t up) k
    Rb-close_black n t top h b w = (n, h)
    Rb-close_black n t (left_of i r up) h b w =
        let h' : Rb m (node t i r) (n + weight (m i).color) =
          (λ q. (b, (w.1 q).0), n, refl, h, w.0) in
        elim (color_cases (m i).color) [
          | inl q ↦ Rb-close _ (node t i r) up h' (NotRed-BlackAbove up (w.1 q).1) w.2
          | inr q ↦ Rb-close_black _ (node t i r) up h' q w.2
        ]
    Rb-close_black n t (right_of l i up) h b w =
        let h' : Rb m (node l i t) (n + weight (m i).color) =
          (λ q. ((w.1 q).0, b), n, refl, w.0, h) in
        elim (color_cases (m i).color) [
          | inl q ↦ Rb-close _ (node l i t) up h' (NotRed-BlackAbove up (w.1 q).1) w.2
          | inr q ↦ Rb-close_black _ (node l i t) up h' q w.2
        ]

    pub Rb-close :
        (n : ℕ) (t : Tree) (up : Way)
        → Rb m t n
        → NotRed m up
        → RbWay m n up
        → (k : ℕ) × Rb m (close t up) k
    Rb-close n t top h u w = (n, h)
    Rb-close n t (left_of i r up) h u w =
        Rb-close_black _ (node t i r) up (λ q. cc, n, refl, h, w.0) u w.2
    Rb-close n t (right_of l i up) h u w =
        Rb-close_black _ (node l i t) up (λ q. cc, n, refl, w.0, h) u w.2

pub IsTree-close :
    (m : ℕ → Node) (root p o : Option ℕ) (t : Tree) (up : Way)
    → IsTree m p o t
    → IsWay m root p o up
    → IsTree m none root (close t up)
IsTree-close m root p o t top h w =
    subst (λ x. IsTree m none x t) (sym w.1) (subst (λ x. IsTree m x o t) w.0 h)
IsTree-close m root p o t (left_of i r up) h w =
    IsTree-close m root (m i).parent (some i) (node t i r) up
      (refl, refl, rw w.1 (subst (λ x. IsTree m x o t) w.0 h), w.2) w.3
IsTree-close m root p o t (right_of l i up) h w =
    IsTree-close m root (m i).parent (some i) (node l i t) up
      (refl, refl, w.2, rw w.1 (subst (λ x. IsTree m x o t) w.0 h)) w.3

pub ids-close : (t u : Tree) (up : Way) → ids t ≡ ids u → ids (close t up) ≡ ids (close u up)
ids-close t u top e = e
ids-close t u (left_of i r up) e =
    ids-close (node t i r) (node u i r) up (ap (λ x. x ++ (i ∷ ids r)) e)
ids-close t u (right_of l i up) e =
    ids-close (node l i t) (node l i u) up (ap (λ x. ids l ++ (i ∷ x)) e)
