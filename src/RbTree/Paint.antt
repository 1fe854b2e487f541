-- ===== src/RbTree/Paint.antt =====
-- common/common_rbtree.h: SetColor of two nodes, which leaves links, keys and objects alone.
use lightframe.Common.{ℕ, ◌≡◌, ◌≢◌, refl, sym, ap, Option, none, some, arith, ◌∙◌}
use lightframe.RbTree.Nodes.{Color, red, black, Node, Shape, put, set_color, set_color_of}
use lightframe.RbTree.Shapes.{Same}

abbrev pub KeyKept : (ℕ → Node) → (ℕ → Node) → ℕ → Type 0
KeyKept m m' j = ((m' j).key ≡ (m j).key) × ((m' j).object ≡ (m j).object)

pub KeyKept-trans :
    (m m' m'' : ℕ → Node) (j : ℕ) → KeyKept m m' j → KeyKept m' m'' j → KeyKept m m'' j
KeyKept-trans m m' m'' j a b = (b.0 ∙ a.0, b.1 ∙ a.1)

module _ (i : ℕ) (c : Color) (s : Shape) (j : ℕ) where
  pub set_color-Same : Same s.nodes (set_color i c s).nodes j
  unfolding set_color put
  set_color-Same = ground arith

  pub set_color-KeyKept : KeyKept s.nodes (set_color i c s).nodes j
  unfolding set_color put
  set_color-KeyKept = ground arith

  pub set_color_self : j ≡ i → ((set_color i c s).nodes j).color ≡ c
  unfolding set_color put
  set_color_self e = ground arith

  pub set_color_ne : j ≢ i → ((set_color i c s).nodes j).color ≡ (s.nodes j).color
  unfolding set_color put
  set_color_ne e = ground arith

module _ (c : Color) (s : Shape) (j : ℕ) where
  pub set_color_of-Same : (o : Option ℕ) → Same s.nodes (set_color_of o c s).nodes j
  unfolding set_color_of
  set_color_of-Same none = (refl, refl, refl)
  set_color_of-Same (some i) = set_color-Same i c s j

  pub set_color_of-KeyKept : (o : Option ℕ) → KeyKept s.nodes (set_color_of o c s).nodes j
  unfolding set_color_of
  set_color_of-KeyKept none = (refl, refl)
  set_color_of-KeyKept (some i) = set_color-KeyKept i c s j

  pub set_color_of_self : (o : Option ℕ) → o ≡ some j → ((set_color_of o c s).nodes j).color ≡ c
  unfolding set_color_of
  set_color_of_self none e = cc
  set_color_of_self (some i) e = set_color_self i c s j (ground arith)

  pub set_color_of_ne :
      (o : Option ℕ) → o ≢ some j → ((set_color_of o c s).nodes j).color ≡ (s.nodes j).color
  unfolding set_color_of
  set_color_of_ne none n = refl
  set_color_of_ne (some i) n = set_color_ne i c s j (λ e. n (ap some (sym e)))

  pub set_color_of-root : (o : Option ℕ) → (set_color_of o c s).root ≡ s.root
  unfolding set_color_of set_color put
  set_color_of-root none = refl
  set_color_of-root (some i) = refl

module _ (p g : ℕ) (s : Shape) where
  -- the parent black and the grandparent red
  abbrev pub paint : Shape
  paint = set_color g red (set_color p black s)

  pub paint-Same : (j : ℕ) → Same s.nodes paint.nodes j
  paint-Same j =
      let a = set_color-Same p black s j in
      let b = set_color-Same g red (set_color p black s) j in (b.0 ∙ a.0, b.1 ∙ a.1, b.2 ∙ a.2)

  pub paint-KeyKept : (j : ℕ) → KeyKept s.nodes paint.nodes j
  paint-KeyKept j =
      KeyKept-trans s.nodes (set_color p black s).nodes paint.nodes j
        (set_color-KeyKept p black s j) (set_color-KeyKept g red (set_color p black s) j)

  pub paint_upper : p ≢ g → (paint.nodes p).color ≡ black
  paint_upper n = set_color_ne g red (set_color p black s) p n ∙ set_color_self p black s p refl

  pub paint_lower : (paint.nodes g).color ≡ red
  paint_lower = set_color_self g red (set_color p black s) g refl

  pub paint_other : (j : ℕ) → j ≢ p → j ≢ g → (paint.nodes j).color ≡ (s.nodes j).color
  paint_other j h k = set_color_ne g red (set_color p black s) j k ∙ set_color_ne p black s j h
