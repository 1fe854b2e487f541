-- ===== src/RbTree/Fixed.antt =====
-- common/common_rbtree.h: what InsertRebalance's loop starts from and what it leaves, and how it
-- ends.
use lightframe.Common.{ℕ, suc, ◌≡◌, refl, ◌∙◌, Option, none, some, false, List}
use lightframe.RbTree.Nodes.{red, black, Shape, is_red}
use lightframe.RbTree.Insert.{insert_loop}
use lightframe.RbTree.Shapes.{
  Tree, node, Way, top, left_of, right_of, IsTree, IsWay, Once, ids, close,
}
use lightframe.RbTree.Balance.{Rb, RootBlack, RbWay, NotRed, Rb-close, Rb-close_black, IsTree-close}
use lightframe.RbTree.Paint.{KeyKept, KeyKept-trans}
use lightframe.RbTree.Rounds.{insert_loop_stop, is_red-black}

-- A balanced tree with the red root i hangs below q; it and the node above may both be red.
pub record Open (s : Shape) (q : Option ℕ) (i : ℕ) (l r : Tree) (up : Way) (n : ℕ) : Type 0 where
  pub tree : IsTree s.nodes q (some i) (node l i r)
  pub way : IsWay s.nodes s.root q (some i) up
  pub once : Once (node l i r) up
  pub is : (s.nodes i).color ≡ red
  pub low : Rb s.nodes (node l i r) n
  pub high : RbWay s.nodes n up

-- The result is a shape whose tree is balanced, but for the color of its root, and has the nodes xs
-- in order; keys and objects are those of s.
pub record Fixed (result : Option Shape) (s : Shape) (xs : List ℕ) : Type 0 where
  pub shape : Shape
  pub returns : result ≡ some shape
  pub tree : Tree
  pub links : IsTree shape.nodes none shape.root tree
  pub order : ids tree ≡ xs
  pub height : ℕ
  pub balanced : Rb shape.nodes tree height
  pub kept : (j : ℕ) → KeyKept s.nodes shape.nodes j

-- A round before it.
pub Fixed-step :
    (result result' : Option Shape) (s s' : Shape) (xs ys : List ℕ)
    → result ≡ result'
    → ((j : ℕ) → KeyKept s.nodes s'.nodes j)
    → ys ≡ xs
    → Fixed result' s' ys
    → Fixed result s xs
Fixed-step result result' s s' xs ys e k o f = record {
  shape = f.shape;
  returns = e ∙ f.returns;
  tree = f.tree;
  links = f.links;
  order = f.order ∙ o;
  height = f.height;
  balanced = f.balanced;
  kept = λ j. KeyKept-trans s.nodes s'.nodes f.shape.nodes j (k j) (f.kept j);
}

NotRed-is_red :
    (s : Shape) (q o : Option ℕ) (up : Way)
    → IsWay s.nodes s.root q o up
    → NotRed s.nodes up
    → is_red q s ≡ false
unfolding is_red
NotRed-is_red s q o top w h = rw (w.0, is_red) refl
NotRed-is_red s q o (left_of k r up) w h = rw w.0 (is_red-black s k h)
NotRed-is_red s q o (right_of l k up) w h = rw w.0 (is_red-black s k h)

-- Below a node that is not red, the loop is done.
pub stop :
    (fuel : ℕ) (s : Shape) (q : Option ℕ) (i : ℕ) (l r : Tree) (up : Way) (n : ℕ)
    → Open s q i l r up n
    → NotRed s.nodes up
    → Fixed (insert_loop (suc fuel) i s) s (ids (close (node l i r) up))
stop fuel s q i l r up n o h =
    let b = Rb-close s.nodes n (node l i r) up o.low h o.high in
    record {
      shape = s;
      returns = insert_loop_stop fuel i s (rw o.tree.1 (NotRed-is_red s q (some i) up o.way h));
      tree = close (node l i r) up;
      links = IsTree-close s.nodes s.root q (some i) (node l i r) up o.tree o.way;
      order = refl;
      height = b.0;
      balanced = b.1;
      kept = λ j. (refl, refl);
    }

-- After the last rotation: the black node p has node j below it.
pub settle :
    (fuel : ℕ) (s : Shape) (q : Option ℕ) (p j : ℕ) (t : Tree) (up : Way) (n : ℕ)
    → (s.nodes j).parent ≡ some p
    → (s.nodes p).color ≡ black
    → IsTree s.nodes q (some p) t
    → IsWay s.nodes s.root q (some p) up
    → Rb s.nodes t n
    → RootBlack s.nodes t
    → RbWay s.nodes n up
    → Fixed (insert_loop (suc fuel) j s) s (ids (close t up))
settle fuel s q p j t up n e c tree way low b high =
    let d = Rb-close_black s.nodes n t up low b high in
    record {
      shape = s;
      returns = insert_loop_stop fuel j s (rw e (is_red-black s p c));
      tree = close t up;
      links = IsTree-close s.nodes s.root q (some p) t up tree way;
      order = refl;
      height = d.0;
      balanced = d.1;
      kept = λ j. (refl, refl);
    }
