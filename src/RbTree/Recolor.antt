-- ===== src/RbTree/Recolor.antt =====
-- common/common_rbtree.h: the round of InsertRebalance with a red uncle.
use lightframe.Common.{ℕ, ◌+◌, ◌≤◌, ◌≡◌, ◌≢◌, refl, ◌∙◌, Option, some, true, false, arith}
use mathlib.Core.Path.{subst}
use lightframe.RbTree.Nodes.{red, black, Shape, set_color, set_color_of, is_red}
use lightframe.RbTree.Insert.{recolor}
use lightframe.RbTree.Shapes.{Tree, leaf, node, Way, IsTree, Same, Once, count, count_way, one_self}
use lightframe.RbTree.Balance.{Rb, RootBlack, RbWay, Rb-frame, RbWay-frame}
use lightframe.RbTree.Paint.{
  set_color_of-Same, set_color_of-KeyKept, set_color_of_self, set_color_of_ne, set_color_of-root,
  KeyKept, KeyKept-trans, paint, paint-Same, paint_upper, paint_lower, paint_other, paint-KeyKept,
}
use lightframe.RbTree.Turns.{count_root}

-- What the code's test for a red child says of the subtree.
pub RootBlack-is_red :
    (s : Shape) (p o : Option ℕ) (t : Tree)
    → IsTree s.nodes p o t
    → is_red o s ≡ false
    → RootBlack s.nodes t
unfolding is_red
RootBlack-is_red s p o leaf h e = tt
RootBlack-is_red s p o (node l i r) h e = ground arith

-- A red root made black adds one black node.
Rb-blacken :
    (s s' : Shape) (p o : Option ℕ) (t : Tree) (n : ℕ)
    → IsTree s.nodes p o t
    → is_red o s ≡ true
    → ((j : ℕ) → count j t ≤ 1)
    → ((j : ℕ) → 1 ≤ count j t → o ≢ some j → (s'.nodes j).color ≡ (s.nodes j).color)
    → ((j : ℕ) → o ≡ some j → (s'.nodes j).color ≡ black)
    → Rb s.nodes t n
    → Rb s'.nodes t (n + 1) × RootBlack s'.nodes t
unfolding is_red
Rb-blacken s s' p o leaf n h e once f g b = cc
Rb-blacken s s' p o (node l i r) n h e once f g (calm, k, w, bl, br) =
    let c = g i h.0 in
    let was : (s.nodes i).color ≡ red = ground arith in
    let spare : (j : ℕ) → 1 ≤ count j l + count j r → (s'.nodes j).color ≡ (s.nodes j).color =
      λ j u. f j (omega arith) (λ v. ground (arith, once j)) in
    (
      (
        λ q. cc,
        k,
        rw c (let z = rw was at w in omega arith),
        Rb-frame s.nodes s'.nodes l k (λ j u. spare j (omega arith)) bl,
        Rb-frame s.nodes s'.nodes r k (λ j u. spare j (omega arith)) br,
      ),
      c,
    )

module _ (s : Shape) (p g : ℕ) (o : Option ℕ) where
  -- both generations recolored
  abbrev pub recolored : Shape
  recolored = paint p g (set_color_of o black s)

  pub recolor-recolored : recolor p g o s ≡ (g, recolored)
  unfolding recolor
  recolor-recolored = refl

  pub recolored-Same : (j : ℕ) → Same s.nodes recolored.nodes j
  recolored-Same j =
      let a = set_color_of-Same black s j o in
      let b = paint-Same p g (set_color_of o black s) j in (b.0 ∙ a.0, b.1 ∙ a.1, b.2 ∙ a.2)

  pub recolored-root : recolored.root ≡ s.root
  unfolding set_color
  recolored-root = set_color_of-root black s 0 o

  pub recolored-KeyKept : (j : ℕ) → KeyKept s.nodes recolored.nodes j
  recolored-KeyKept j =
      KeyKept-trans s.nodes (set_color_of o black s).nodes recolored.nodes j
        (set_color_of-KeyKept black s j o) (paint-KeyKept p g (set_color_of o black s) j)

  pub recolored_parent : p ≢ g → (recolored.nodes p).color ≡ black
  recolored_parent n = paint_upper p g (set_color_of o black s) n

  pub recolored_grandparent : (recolored.nodes g).color ≡ red
  recolored_grandparent = paint_lower p g (set_color_of o black s)

  recolored_uncle : (j : ℕ) → j ≢ p → j ≢ g → o ≡ some j → (recolored.nodes j).color ≡ black
  recolored_uncle j h k e =
      paint_other p g (set_color_of o black s) j h k ∙ set_color_of_self black s j o e

  recolored_other :
      (j : ℕ) → j ≢ p → j ≢ g → o ≢ some j → (recolored.nodes j).color ≡ (s.nodes j).color
  recolored_other j h k n =
      paint_other p g (set_color_of o black s) j h k ∙ set_color_of_ne black s j o n

  module _ (a b u : Tree) (up : Way) (n : ℕ) (uncle : IsTree s.nodes (some g) o u)
      (is : is_red o s ≡ true) (once : Once (node (node a p b) g u) up) where
    apart : p ≢ g
    apart e = ground (arith, once p, one_self p)

    inside : (j : ℕ) → o ≡ some j → 1 ≤ count j u
    inside j e = count_root s.nodes (some g) j u (subst (λ x. IsTree s.nodes (some g) x u) e uncle)

    rest :
        (j : ℕ)
        → 1 ≤ count j a + count j b + count_way j up
        → (recolored.nodes j).color ≡ (s.nodes j).color
    rest j h =
        recolored_other j (λ e. ground (arith, once j, one_self p))
          (λ e. ground (arith, once j, one_self g)) (λ e. omega (arith, once j, inside j e))

    -- The parent's subtree, as a black one
    pub recolored_upper : Rb s.nodes a n → Rb s.nodes b n → Rb recolored.nodes (node a p b) (n + 1)
    recolored_upper ra rb =
        let c = recolored_parent apart in
        (
          λ q. cc,
          n,
          rw c refl,
          Rb-frame s.nodes recolored.nodes a n (λ j h. rest j (omega arith)) ra,
          Rb-frame s.nodes recolored.nodes b n (λ j h. rest j (omega arith)) rb,
        )

    pub recolored_lower :
        Rb s.nodes u n → Rb recolored.nodes u (n + 1) × RootBlack recolored.nodes u
    recolored_lower =
        Rb-blacken s recolored (some g) o u n uncle is (λ j. omega (arith, once j))
          (λ j h v.
            recolored_other j (λ e. ground (arith, once j, one_self p))
              (λ e. ground (arith, once j, one_self g)) v)
          (λ j e.
            recolored_uncle j (λ v. ground (arith, once j, one_self p, inside j e))
              (λ v. ground (arith, once j, one_self g, inside j e)) e)

    pub recolored_way : RbWay s.nodes (n + 1) up → RbWay recolored.nodes (n + 1) up
    recolored_way w = RbWay-frame s.nodes recolored.nodes (n + 1) up (λ j h. rest j (omega arith)) w
