-- ===== src/RbTree/Find.antt =====
-- common/common_rbtree.h: FindNode, First and Last on a sound tree.
use lightframe.Common.{
  ℕ, zero, suc, ◌≤◌, ◌<◌, ◌≡◌, ◌≢◌, refl, ap, ◌∙◌, Option, none, some, true, false, List, ◌∷◌, ◌++◌,
  arith, ltb, ltb→lt, bool_cases, inl, inr,
}
use lightframe.Pool.{Index}
use lightframe.Pool.Links.{All, All-append, All-map}
use lightframe.RbTree.{RbTree}
use lightframe.RbTree.Nodes.{Node, Shape, find_loop, find_node}
use lightframe.RbTree.Shapes.{Tree, leaf, node, IsTree, ids, depth, one_self}
use lightframe.RbTree.Place.{Sorted, Sorted-split}
use lightframe.RbTree.Entries.{times, times-append}
use lightframe.RbTree.Holds.{IsRbTree}

-- What FindNode gives: a node of the tree with the key, or NULL where no node has it.
abbrev pub Found : (ℕ → Node) → ℕ → List ℕ → Option ℕ → Type 0
Found m key xs none = All (λ j. (m j).key ≢ key) xs
Found m key xs (some i) = (1 ≤ times i xs) × ((m i).key ≡ key)

module _ (s : Shape) (key n i : ℕ) where
  find_loop_left :
      ltb key (s.nodes i).key ≡ true
      → find_loop (suc n) key (some i) s ≡ find_loop n key (s.nodes i).left s
  unfolding find_loop
  find_loop_left q = rw (q, find_loop) refl

  find_loop_right :
      ltb key (s.nodes i).key ≡ false
      → ltb (s.nodes i).key key ≡ true
      → find_loop (suc n) key (some i) s ≡ find_loop n key (s.nodes i).right s
  unfolding find_loop
  find_loop_right q r = rw (q, find_loop, r) refl

  find_loop_here :
      ltb key (s.nodes i).key ≡ false
      → ltb (s.nodes i).key key ≡ false
      → find_loop (suc n) key (some i) s ≡ some (some i)
  unfolding find_loop
  find_loop_here q r = rw (q, find_loop, r) refl

find_loop_end : (s : Shape) (key n : ℕ) → find_loop (suc n) key none s ≡ some none
unfolding find_loop
find_loop_end s key n = refl

-- What is found on the left or on the right is found in the whole.
module _ (m : ℕ → Node) (key : ℕ) (l : List ℕ) (i : ℕ) (r : List ℕ) where
  Found-left :
      key < (m i).key
      → All (λ j. (m i).key ≤ (m j).key) r
      → (o : Option ℕ) → Found m key l o
      → Found m key (l ++ (i ∷ r)) o
  Found-left h a none f =
      All-append (λ j. (m j).key ≢ key) l (i ∷ r) f
        (
          λ e. omega (arith, h, e),
          All-map r (λ j (q : (m i).key ≤ (m j).key) e. omega (arith, q, h, e)) a,
        )
  Found-left h a (some j) f = (omega (arith, f.0, times-append j l (i ∷ r)), f.1)

  Found-right :
      (m i).key < key
      → All (λ j. (m j).key ≤ (m i).key) l
      → (o : Option ℕ) → Found m key r o
      → Found m key (l ++ (i ∷ r)) o
  Found-right h a none f =
      All-append (λ j. (m j).key ≢ key) l (i ∷ r)
        (All-map l (λ j (q : (m j).key ≤ (m i).key) e. omega (arith, q, h, e)) a)
        (λ e. omega (arith, h, e), f)
  Found-right h a (some j) f = (omega (arith, f.0, times-append j l (i ∷ r)), f.1)

find_loop_lem :
    (s : Shape) (key fuel : ℕ) (p o : Option ℕ) (t : Tree)
    → depth t < fuel
    → IsTree s.nodes p o t
    → Sorted s.nodes (ids t)
    → (r : Option ℕ) × (find_loop fuel key o s ≡ some r) × Found s.nodes key (ids t) r
find_loop_lem s key zero p o t f h w = absurd (omega arith)
find_loop_lem s key (suc n) p o leaf f h w =
    (none, ap (λ x. find_loop (suc n) key x s) h ∙ find_loop_end s key n, tt)
find_loop_lem s key (suc n) p o (node l i r) f h w =
    let sp = Sorted-split s.nodes (ids l) (i ∷ ids r) w in
    let here = ap (λ x. find_loop (suc n) key x s) h.0 in
    elim (bool_cases (ltb key (s.nodes i).key)) [
      | inl q ↦
          let z = find_loop_lem s key n (some i) (s.nodes i).left l (omega arith) h.2 sp.0 in
          (
            z.0,
            here ∙ find_loop_left s key n i q ∙ z.1,
            Found-left s.nodes key (ids l) i (ids r) (ltb→lt key (s.nodes i).key q) sp.1.0 z.0 z.2,
          )
      | inr q ↦ elim (bool_cases (ltb (s.nodes i).key key)) [
        | inl u ↦
            let z = find_loop_lem s key n (some i) (s.nodes i).right r (omega arith) h.3 sp.1.1 in
            (
              z.0,
              here ∙ find_loop_right s key n i q u ∙ z.1,
              Found-right s.nodes key (ids l) i (ids r) (ltb→lt (s.nodes i).key key u)
                  (All-map (ids l)
                    (λ j (g : All (λ y. (s.nodes j).key ≤ (s.nodes y).key) (i ∷ ids r)). g.0) sp.2)
                  z.0 z.2,
            )
        | inr u ↦ (
          some i,
          here ∙ find_loop_here s key n i q u,
          (omega (arith, times-append i (ids l) (i ∷ ids r), one_self i), ground arith),
        )
      ]
    ]

module _ (past : Index) (cap : ℕ) (t : RbTree) (tree : Tree) (fs us : List ℕ)
    (v : IsRbTree past cap t tree fs us) where
  -- FindNode of a sound red-black tree ends, with a node of the tree that has the key, or with NULL
  -- where no node has it.
  pub find_node_lem :
      (key : ℕ)
      → (r : Option ℕ) × (find_node (suc cap) key t.shape ≡ some r)
        × Found t.shape.nodes key (ids tree) r
  unfolding find_node
  find_node_lem key =
      find_loop_lem t.shape key (suc cap) none t.shape.root tree
        (omega (arith, v.sizes, v.pool.whole)) v.links v.sorted
