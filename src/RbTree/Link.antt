-- ===== src/RbTree/Link.antt =====
-- common/common_rbtree.h: the linking of a new node at the place that FindInsertPostion found.
use lightframe.Common.{
  ℕ, ◌+◌, ◌≤◌, ◌≡◌, ◌≢◌, refl, sym, Option, none, some, true, false, arith, ltb, bool_cases, ◌==◌,
  inl, inr,
}
use mathlib.Core.Path.{subst}
use lightframe.RbTree.Nodes.{
  red, Shape, put, set_root, set_color, set_parent, set_left, set_right, set_entry,
}
use lightframe.RbTree.Insert.{link_node}
use lightframe.RbTree.Shapes.{
  leaf, node, Way, top, left_of, right_of, IsWay, Same, Once, count, count_way, one_self,
  IsTree-frame, IsWay-frame,
}
use lightframe.RbTree.Balance.{RbWay, RbWay-frame}
use lightframe.RbTree.Paint.{KeyKept}
use lightframe.RbTree.Place.{above, Toward}
use lightframe.RbTree.Fixed.{Open}

new-Once :
    (i : ℕ) (up : Way)
    → count_way i up ≡ 0
    → ((j : ℕ) → count_way j up ≤ 1)
    → Once (node leaf i leaf) up
new-Once i up f once j = elim (bool_cases (j == i)) [
  | inl e ↦ (let q : j ≡ i = ground arith in rw q (omega (arith, f, one_self i)))
  | inr e ↦ rw e (omega (arith, once j))
]

module _ (s : Shape) (i key object : ℕ) where
  abbrev linked : Option ℕ → Shape
  linked p = link_node i p key object s

  -- The new node
  linked_new :
      (p : Option ℕ)
      → p ≢ some i
      → let m = (linked p).nodes in
        ((m i).color ≡ red)
        × ((m i).parent ≡ p)
        × ((m i).left ≡ none)
        × ((m i).right ≡ none)
        × ((m i).key ≡ key)
        × ((m i).object ≡ object)
  unfolding link_node set_root set_color set_parent set_left set_right set_entry put
  linked_new none n = ground arith
  linked_new (some k) n = ground arith

  -- The others keep all but a link down.
  linked_other :
      (p : Option ℕ) (j : ℕ)
      → j ≢ i
      → let m = (linked p).nodes in
        ((m j).color ≡ (s.nodes j).color)
        × KeyKept s.nodes m j
        × ((m j).parent ≡ (s.nodes j).parent)
  unfolding link_node set_root set_color set_parent set_left set_right set_entry put
  linked_other none j n = ground arith
  linked_other (some k) j n = ground arith

  linked-Same : (p : Option ℕ) (j : ℕ) → j ≢ i → p ≢ some j → Same s.nodes (linked p).nodes j
  unfolding link_node set_root set_color set_parent set_left set_right set_entry put
  linked-Same none j n h = ground arith
  linked-Same (some k) j n h = ground arith

  linked_root : (linked none).root ≡ some i
  unfolding link_node set_root
  linked_root = refl

  linked_below :
      (k : ℕ)
      → k ≢ i
      → let m = (linked (some k)).nodes in
        (ltb key (s.nodes k).key ≡ true → ((m k).left ≡ some i) × ((m k).right ≡ (s.nodes k).right))
        × (ltb key (s.nodes k).key ≡ false
            → ((m k).right ≡ some i) × ((m k).left ≡ (s.nodes k).left))
        × ((linked (some k)).root ≡ s.root)
  unfolding link_node set_root set_color set_parent set_left set_right set_entry put
  linked_below k n = ground arith

  linked_way :
      (up : Way)
      → count_way i up ≡ 0
      → ((j : ℕ) → count_way j up ≤ 1)
      → IsWay s.nodes s.root (above up) none up
      → Toward s.nodes key up
      → IsWay (linked (above up)).nodes (linked (above up)).root (above up) (some i) up
  linked_way top f once w t = (refl, linked_root)
  linked_way (left_of k r up) f once w t =
      let n : k ≢ i = λ e. ground (arith, one_self k) in
      let b = (linked_below k n).0 t in
      let m = (linked (some k)).nodes in
      let keep : (j : ℕ) → 1 ≤ count j r + count_way j up → Same s.nodes (linked (some k)).nodes j =
        λ j h. linked-Same (some k) j (λ e. ground (arith, f)) (λ e. ground (arith, once j)) in
      (
        refl,
        b.0,
        rw b.1
            (IsTree-frame s.nodes m (some k) (s.nodes k).right r (λ j h. keep j (omega arith)) w.2),
        rw (linked_other (some k) k n).2 (
            subst (λ x. IsWay m x (s.nodes k).parent (some k) up) (sym (linked_below k n).2)
              (IsWay-frame s.nodes m s.root (s.nodes k).parent (some k) up
                (λ j h. keep j (omega arith)) w.3)),
      )
  linked_way (right_of l k up) f once w t =
      let n : k ≢ i = λ e. ground (arith, one_self k) in
      let b = (linked_below k n).1 t in
      let m = (linked (some k)).nodes in
      let keep : (j : ℕ) → 1 ≤ count j l + count_way j up → Same s.nodes (linked (some k)).nodes j =
        λ j h. linked-Same (some k) j (λ e. ground (arith, f)) (λ e. ground (arith, once j)) in
      (
        refl,
        b.0,
        rw b.1
            (IsTree-frame s.nodes m (some k) (s.nodes k).left l (λ j h. keep j (omega arith)) w.2),
        rw (linked_other (some k) k n).2 (
            subst (λ x. IsWay m x (s.nodes k).parent (some k) up) (sym (linked_below k n).2)
              (IsWay-frame s.nodes m s.root (s.nodes k).parent (some k) up
                (λ j h. keep j (omega arith)) w.3)),
      )

  above_in : (k : ℕ) (up : Way) → above up ≡ some k → 1 ≤ count_way k up
  above_in k top e = cc
  above_in k (left_of j r up) e = ground (arith, one_self j)
  above_in k (right_of l j up) e = ground (arith, one_self j)

  -- The new node, red and without children, hangs at its place.
  pub link_node-Open :
      (up : Way)
      → count_way i up ≡ 0
      → ((j : ℕ) → count_way j up ≤ 1)
      → IsWay s.nodes s.root (above up) none up
      → Toward s.nodes key up
      → RbWay s.nodes 0 up
      → Open (link_node i (above up) key object s) (above up) i leaf leaf up 0
  link_node-Open up f once w t b =
      let new = linked_new (above up) (λ e. omega (arith, above_in i up e, f)) in
      let m = (linked (above up)).nodes in
      record {
        tree = (refl, new.1, new.2, new.3);
        way = linked_way up f once w t;
        once = new-Once i up f once;
        is = new.0;
        low = (λ q. (tt, tt), 0, rw new.0 refl, refl, refl);
        high =
            RbWay-frame s.nodes m 0 up
              (λ j h. (linked_other (above up) j (λ e. ground (arith, f))).0) b;
      }

  pub link_node_new :
      (up : Way)
      → count_way i up ≡ 0
      → let m = (link_node i (above up) key object s).nodes in
        ((m i).key ≡ key) × ((m i).object ≡ object)
  link_node_new up f =
      let new = linked_new (above up) (λ e. omega (arith, above_in i up e, f)) in (new.4, new.5)

  pub link_node_other :
      (p : Option ℕ) (j : ℕ) → j ≢ i → KeyKept s.nodes (link_node i p key object s).nodes j
  link_node_other p j n = (linked_other p j n).1
