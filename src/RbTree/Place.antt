-- ===== src/RbTree/Place.antt =====
-- common/common_rbtree.h: where FindInsertPostion comes to in a tree.
use lightframe.Common.{
  ℕ, zero, suc, ◌+◌, ◌≤◌, ◌<◌, ◌≡◌, refl, sym, ap, ◌∙◌, Option, none, some, Bool, true, false, List,
  [], ◌∷◌, ◌++◌, arith, append_assoc, append-nil, ltb, ltb→lt, if◌then◌else◌, bool_cases, inl, inr,
}
use mathlib.Core.Path.{subst}
use lightframe.Pool.Links.{All, All-split, All-append, All-map}
use lightframe.RbTree.Nodes.{red, black, Node, Shape, position_loop}
use lightframe.RbTree.Shapes.{
  Tree, leaf, node, Way, top, left_of, right_of, IsTree, IsWay, ids, close, depth, height,
}
use lightframe.RbTree.Balance.{Rb, RootBlack, RbWay, BlackAbove, color_cases}

-- The node above an open place
abbrev pub above : Way → Option ℕ
above top = none
above (left_of i r up) = some i
above (right_of l i up) = some i

-- The nodes to the left and to the right of an open place
abbrev pub before : Way → List ℕ
before top = []
before (left_of i r up) = before up
before (right_of l i up) = before up ++ (ids l ++ (i ∷ []))

abbrev pub after : Way → List ℕ
after top = []
after (left_of i r up) = (i ∷ ids r) ++ after up
after (right_of l i up) = after up

-- The open place for a key, in the tree t below `up`
pub place : (ℕ → Node) → ℕ → Tree → Way → Way
place m key leaf up = up
place m key (node l i r) up =
    if ltb key (m i).key then place m key l (left_of i r up) else place m key r (right_of l i up)

-- The code's last comparison, which it makes again to hang the node
abbrev pub Toward : (ℕ → Node) → ℕ → Way → Type 0
Toward m key top = Unit
Toward m key (left_of i r up) = ltb key (m i).key ≡ true
Toward m key (right_of l i up) = ltb key (m i).key ≡ false

-- The keys do not fall.
abbrev pub Sorted : (ℕ → Node) → List ℕ → Type 0
Sorted m [] = Unit
Sorted m (i ∷ xs) = All (λ j. (m i).key ≤ (m j).key) xs × Sorted m xs

pub ids-close_around : (t : Tree) (up : Way) → ids (close t up) ≡ before up ++ (ids t ++ after up)
ids-close_around t top = sym (append-nil (ids t))
ids-close_around t (left_of i r up) = ids-close_around (node t i r) up ∙ simp (append_assoc)
ids-close_around t (right_of l i up) = ids-close_around (node l i t) up ∙ simp (append_assoc)

pub Sorted-split :
    (m : ℕ → Node) (xs ys : List ℕ)
    → Sorted m (xs ++ ys)
    → Sorted m xs × Sorted m ys × All (λ x. All (λ y. (m x).key ≤ (m y).key) ys) xs
Sorted-split m [] ys h = (tt, h, tt)
Sorted-split m (x ∷ xs) ys h =
    let r = Sorted-split m xs ys h.1 in
    let s = All-split _ xs ys h.0 in ((s.0, r.0), r.1, (s.1, r.2))

pub Sorted-append :
    (m : ℕ → Node) (xs ys : List ℕ)
    → Sorted m xs
    → Sorted m ys
    → All (λ x. All (λ y. (m x).key ≤ (m y).key) ys) xs
    → Sorted m (xs ++ ys)
Sorted-append m [] ys d e a = e
Sorted-append m (x ∷ xs) ys d e a = (All-append _ xs ys d.0 a.0, Sorted-append m xs ys d.1 e a.1)

module _ (m : ℕ → Node) (key : ℕ) where
  abbrev pub Red : Tree → Way → Type 0
  Red leaf up = Unit
  Red (node l i r) up = (m i).color ≡ red → BlackAbove m up

  pub place-close : (t : Tree) (up : Way) → close leaf (place m key t up) ≡ close t up
  unfolding place
  place-close leaf up = refl
  place-close (node l i r) up =
      ground (arith, place-close l (left_of i r up), place-close r (right_of l i up))

  pub place-Toward : (t : Tree) (up : Way) → Toward m key up → Toward m key (place m key t up)
  unfolding place
  place-Toward leaf up h = h
  place-Toward (node l i r) up h = elim (bool_cases (ltb key (m i).key)) [
    | inl e ↦ rw e (place-Toward l (left_of i r up) e)
    | inr e ↦ rw e (place-Toward r (right_of l i up) e)
  ]

  way_above : (root p o : Option ℕ) (up : Way) → IsWay m root p o up → p ≡ above up
  way_above root p o top w = w.0
  way_above root p o (left_of i r up) w = w.0
  way_above root p o (right_of l i up) w = w.0

  pub place-IsWay :
      (root p o : Option ℕ) (t : Tree) (up : Way)
      → IsTree m p o t
      → IsWay m root p o up
      → IsWay m root (above (place m key t up)) none (place m key t up)
  unfolding place
  place-IsWay root p o leaf up h w =
      subst (λ x. IsWay m root x none up) (way_above root p o up w)
        (subst (λ x. IsWay m root p x up) h w)
  place-IsWay root p o (node l i r) up h w =
      let w' =
        subst (λ x. IsWay m root x (some i) up) (sym h.1)
          (subst (λ x. IsWay m root p x up) h.0 w) in
      elim (bool_cases (ltb key (m i).key)) [
        | inl e ↦
            rw e (place-IsWay root (some i) (m i).left l (left_of i r up) h.2 (refl, refl, h.3, w'))
        | inr e ↦
            rw e
              (place-IsWay root (some i) (m i).right r (right_of l i up) h.3 (refl, refl, h.2, w'))
      ]

  -- A node is red only below a black one.
  pub black_above :
      (t : Tree) (i : ℕ) (up : Way)
      → ((m i).color ≡ red → RootBlack m t)
      → ((m i).color ≡ black → BlackAbove m up)
      → Red t up
  black_above leaf i up f g = tt
  black_above (node l j r) i up f g =
      λ q. elim (color_cases (m i).color) [ inl c ↦ (let z = f c in cc) | inr c ↦ g c ]

  pub place-RbWay :
      (t : Tree) (up : Way) (n : ℕ)
      → Rb m t n
      → Red t up
      → RbWay m n up
      → RbWay m 0 (place m key t up)
  unfolding place
  place-RbWay leaf up n h b w = subst (λ x. RbWay m x up) h w
  place-RbWay (node l i r) up n (calm, k, e, bl, br) b w = elim (bool_cases (ltb key (m i).key)) [
    | inl q ↦ rw q (
        place-RbWay l (left_of i r up) k bl
          (black_above l i (left_of i r up) (λ c. (calm c).0) (λ c. c))
          (br, (λ c. ((calm c).1, b c)), subst (λ x. RbWay m x up) e w))
    | inr q ↦ rw q (
        place-RbWay r (right_of l i up) k br
          (black_above r i (right_of l i up) (λ c. (calm c).1) (λ c. c))
          (bl, (λ c. ((calm c).0, b c)), subst (λ x. RbWay m x up) e w))
  ]

  pub place_order :
      (t : Tree) (up : Way)
      → Sorted m (ids t)
      → All (λ j. (m j).key ≤ key) (before up)
      → All (λ j. key < (m j).key) (after up)
      → All (λ j. (m j).key ≤ key) (before (place m key t up))
        × All (λ j. key < (m j).key) (after (place m key t up))
  unfolding place
  place_order leaf up s b a = (b, a)
  place_order (node l i r) up s b a =
      let w = Sorted-split m (ids l) (i ∷ ids r) s in
      elim (bool_cases (ltb key (m i).key)) [
        | inl e ↦ rw e (
            place_order l (left_of i r up) w.0 b (
              ltb→lt key (m i).key e,
              All-append (λ j. key < (m j).key) (ids r) (after up)
                  (All-map (ids r) (λ j (q : (m i).key ≤ (m j).key). ground (arith)) w.1.0) a,
            ))
        | inr e ↦ rw e (
            place_order r (right_of l i up) w.1.1
              (All-append (λ j. (m j).key ≤ key) (before up) (ids l ++ (i ∷ [])) b
                (All-append (λ j. (m j).key ≤ key) (ids l) (i ∷ [])
                  (All-map (ids l)
                    (λ j (q : All (λ y. (m j).key ≤ (m y).key) (i ∷ ids r)). ground (arith)) w.2)
                  (ground arith, tt)))
              a)
      ]

  pub place_height : (t : Tree) (up : Way) → height (place m key t up) ≤ height up + depth t
  unfolding place
  place_height leaf up = omega arith
  place_height (node l i r) up =
      ground (arith, place_height l (left_of i r up), place_height r (right_of l i up))

  pub Red-top : (t : Tree) → RootBlack m t → Red t top
  Red-top leaf h = tt
  Red-top (node l i r) h = λ q. cc

module _ (s : Shape) (key n i : ℕ) (p : Option ℕ) where
  position_loop_left :
      ltb key (s.nodes i).key ≡ true
      → position_loop (suc n) key p (some i) s ≡ position_loop n key (some i) (s.nodes i).left s
  unfolding position_loop
  position_loop_left q = rw (q, position_loop) refl

  position_loop_right :
      ltb key (s.nodes i).key ≡ false
      → position_loop (suc n) key p (some i) s ≡ position_loop n key (some i) (s.nodes i).right s
  unfolding position_loop
  position_loop_right q = rw (q, position_loop) refl

position_loop_end :
    (s : Shape) (key n : ℕ) (p : Option ℕ) → position_loop (suc n) key p none s ≡ some p
unfolding position_loop
position_loop_end s key n p = refl

-- The loop of FindInsertPostion ends, and gives the node above that place.
pub position_loop-place :
    (s : Shape) (key fuel : ℕ) (p o : Option ℕ) (t : Tree) (up : Way)
    → depth t < fuel
    → IsTree s.nodes p o t
    → p ≡ above up
    → position_loop fuel key p o s ≡ some (above (place s.nodes key t up))
unfolding place
position_loop-place s key zero p o t up f h e = absurd (omega arith)
position_loop-place s key (suc n) p o leaf up f h e =
    ap (λ x. position_loop (suc n) key p x s) h ∙ position_loop_end s key n p ∙ ap some e
position_loop-place s key (suc n) p o (node l i r) up f h e =
    elim (bool_cases (ltb key (s.nodes i).key)) [
      | inl q ↦
          ap (λ x. position_loop (suc n) key p x s) h.0
          ∙ position_loop_left s key n i p q
          ∙ position_loop-place s key n (some i) (s.nodes i).left l (left_of i r up) (omega arith)
              h.2 refl
          ∙ ap
              (λ (b : Bool). some (
                above (
                  if b
                  then place s.nodes key l (left_of i r up)
                  else place s.nodes key r (right_of l i up))))
              (sym q)
      | inr q ↦
          ap (λ x. position_loop (suc n) key p x s) h.0
          ∙ position_loop_right s key n i p q
          ∙ position_loop-place s key n (some i) (s.nodes i).right r (right_of l i up) (omega arith)
              h.3 refl
          ∙ ap
              (λ (b : Bool). some (
                above (
                  if b
                  then place s.nodes key l (left_of i r up)
                  else place s.nodes key r (right_of l i up))))
              (sym q)
    ]
