-- ===== src/RbTree/Blacken.antt =====
-- common/common_rbtree.h: the root made black, and InsertRebalance as a whole.
use lightframe.Common.{ℕ, ◌+◌, ◌≤◌, ◌≡◌, refl, ap, Option, none, some, List, arith}
use lightframe.RbTree.Nodes.{black, Shape, set_color}
use lightframe.RbTree.Insert.{insert_loop, blacken_root, insert_rebalance}
use lightframe.RbTree.Shapes.{Tree, leaf, node, IsTree, ids, count, IsTree-frame, one_self}
use lightframe.RbTree.Balance.{Rb, RootBlack, Rb-frame}
use lightframe.RbTree.Paint.{
  KeyKept, KeyKept-trans, set_color-Same, set_color-KeyKept, set_color_self, set_color_ne,
}
use lightframe.RbTree.Fixed.{Fixed}

-- The result is a shape whose tree is balanced, with a black root, and has the nodes xs in order.
pub record Finished (result : Option Shape) (s : Shape) (xs : List ℕ) : Type 0 where
  pub shape : Shape
  pub returns : result ≡ some shape
  pub tree : Tree
  pub links : IsTree shape.nodes none shape.root tree
  pub order : ids tree ≡ xs
  pub height : ℕ
  pub balanced : Rb shape.nodes tree height
  pub black_root : RootBlack shape.nodes tree
  pub kept : (j : ℕ) → KeyKept s.nodes shape.nodes j

Rb-set_color :
    (s : Shape) (l : Tree) (i : ℕ) (r : Tree) (n : ℕ)
    → count i l + count i r ≡ 0
    → Rb s.nodes (node l i r) n
    → (k : ℕ) × Rb (set_color i black s).nodes (node l i r) k
Rb-set_color s l i r n z (calm, k, e, bl, br) =
    let m = (set_color i black s).nodes in
    let b = set_color_self i black s i refl in
    let same : (j : ℕ) → 1 ≤ count j l + count j r → (m j).color ≡ (s.nodes j).color =
      λ j q. set_color_ne i black s j (λ v. ground (arith, z)) in
    (
      k + 1,
      (
        λ q. cc,
        k,
        rw b refl,
        Rb-frame s.nodes m l k (λ j q. same j (omega arith)) bl,
        Rb-frame s.nodes m r k (λ j q. same j (omega arith)) br,
      ),
    )

blacken_root_lem :
    (s : Shape) (r : ℕ) → s.root ≡ some r → blacken_root s ≡ some (set_color r black s)
unfolding blacken_root
blacken_root_lem s r h =
    ap
      (λ (o : Option ℕ). elim o as (λ (x : Option ℕ). Option Shape) [
        | none ↦ none
        | some k ↦ some (set_color k black s)
      ])
      h

set_color-IsTree :
    (s : Shape) (r : ℕ) (t : Tree)
    → IsTree s.nodes none s.root t
    → IsTree (set_color r black s).nodes none (set_color r black s).root t
unfolding set_color
set_color-IsTree s r t h =
    IsTree-frame s.nodes (set_color r black s).nodes none s.root t
      (λ j q. set_color-Same r black s j) h

finish :
    (fuel i : ℕ) (s s' : Shape) (xs : List ℕ) (t : Tree) (n : ℕ)
    → insert_loop fuel i s ≡ some s'
    → IsTree s'.nodes none s'.root t
    → ids t ≡ xs
    → Rb s'.nodes t n
    → ((j : ℕ) → KeyKept s.nodes s'.nodes j)
    → 1 ≤ count i t
    → ((j : ℕ) → count j t ≤ 1)
    → Finished (insert_rebalance fuel i s) s xs
unfolding insert_rebalance
finish fuel i s s' xs leaf n e h o b k c once = absurd (omega arith)
finish fuel i s s' xs (node l r t) n e h o b k c once =
    let w = set_color r black s' in
    let d = Rb-set_color s' l r t n (omega (arith, once r, one_self r)) b in
    record {
      shape = w;
      returns = rw (e, insert_rebalance) (blacken_root_lem s' r h.0);
      tree = node l r t;
      links = set_color-IsTree s' r (node l r t) h;
      order = o;
      height = d.0;
      balanced = d.1;
      black_root = set_color_self r black s' r refl;
      kept = λ j. KeyKept-trans s.nodes s'.nodes w.nodes j (k j) (set_color-KeyKept r black s' j);
    }

-- The loop's result with its root made black
pub Fixed-finish :
    (fuel i : ℕ) (s : Shape) (xs : List ℕ) (f : Fixed (insert_loop fuel i s) s xs)
    → 1 ≤ count i f.tree
    → ((j : ℕ) → count j f.tree ≤ 1)
    → Finished (insert_rebalance fuel i s) s xs
Fixed-finish fuel i s xs f c once =
    finish fuel i s f.shape xs f.tree f.height f.returns f.links f.order f.balanced f.kept c once
