-- ===== src/RbTree/Fill.antt =====
-- common/common_rbtree.h: Initialize, Insert into a full tree, and a run of Insert calls on a new
-- tree.
use lightframe.Common.{
  ℕ, zero, suc, ◌+◌, ◌^◌, ◌≤◌, ◌<◌, ◌≡◌, refl, ap, ◌∙◌, Option, none, some, true, List, [], ◌∷◌,
  ◌++◌, arith, length,
}
use lightframe.Pool.{Index}
use lightframe.Pool.Create.{create_full}
use lightframe.Pool.Fresh.{initialize-Holds, count}
use lightframe.RbTree.{RbTree, initialize, insert, insert_at}
use lightframe.RbTree.Nodes.{find_insert_position}
use lightframe.RbTree.Shapes.{Tree, leaf, top, ids}
use lightframe.RbTree.Place.{position_loop-place}
use lightframe.RbTree.Entries.{Entry, entries, entries-nil, put_entry}
use lightframe.RbTree.Holds.{IsRbTree}
use lightframe.RbTree.Grow.{insert-put_entry}

module _ (past : Index) (cap : ℕ) where
  -- Initialize gives a sound tree without entries, in which every node is free.
  pub initialize-IsRbTree :
      0 < cap → cap < 2 ^ 31 → IsRbTree past cap (initialize past cap) leaf (count 0 cap) []
  unfolding initialize
  initialize-IsRbTree h k = record {
    pool = (initialize-Holds past cap true h k).1;
    links = refl;
    members = λ j. refl;
    sizes = refl;
    height = 0;
    balanced = refl;
    black_root = tt;
    sorted = tt;
  }

  -- Insert into a sound tree without a free node gives NULL and changes nothing.
  pub insert_full :
      (t : RbTree) (tree : Tree) (us : List ℕ) (key object : ℕ)
      → IsRbTree past cap t tree [] us
      → insert past cap key object t ≡ some (none, t)
  unfolding insert find_insert_position insert_at
  insert_full t tree us key object v =
      rw
        (
          position_loop-place t.shape key (suc cap) none t.shape.root tree top
              (omega (arith, v.sizes, v.pool.whole)) v.links refl,
          find_insert_position,
          insert,
          create_full past cap true t.pool us v.pool,
        )
        refl

  -- Insert calls, one after the other
  pub insert_all : List (ℕ × ℕ) → RbTree → Option RbTree
  insert_all [] t = some t
  insert_all ((key, object) ∷ es) t = elim (insert past cap key object t) [
    | none ↦ none
    | some (o, t') ↦ insert_all es t'
  ]

  insert_all_step :
      (key object : ℕ) (es : List (ℕ × ℕ)) (t t' : RbTree) (o : Option ℕ)
      → insert past cap key object t ≡ some (o, t')
      → insert_all ((key, object) ∷ es) t ≡ insert_all es t'
  unfolding insert_all
  insert_all_step key object es t t' o e = rw (e, insert_all) refl

-- The same on a sorted list: the nodes are handed out from k on.
pub put_all : ℕ → List (ℕ × ℕ) → List Entry → List Entry
put_all k [] xs = xs
put_all k ((key, object) ∷ es) xs = put_all (k + 1) es (put_entry (k, key, object) xs)

module _ (past : Index) (cap : ℕ) where
  insert_all_from :
      (k n : ℕ) (es : List (ℕ × ℕ)) (t : RbTree) (tree : Tree) (us : List ℕ)
      → length es ≤ n
      → IsRbTree past cap t tree (count k n) us
      → (t' : RbTree) × (tree' : Tree) × (fs : List ℕ) × (us' : List ℕ) × (insert_all past cap es t
          ≡ some t')
        × IsRbTree past cap t' tree' fs us'
        × (entries t'.shape.nodes (ids tree') ≡ put_all k es (entries t.shape.nodes (ids tree)))
  unfolding put_all insert_all
  insert_all_from k n [] t tree us h v = (t, tree, count k n, us, refl, v, refl)
  insert_all_from k zero (e ∷ es) t tree us h v = absurd (omega arith)
  insert_all_from k (suc n) ((key, object) ∷ es) t tree us h v =
      let a = insert-put_entry past cap t tree k (count (k + 1) n) us key object v in
      let b = insert_all_from (k + 1) n es a.0 a.1 (us ++ (k ∷ [])) (omega arith) a.3 in
      (
        b.0,
        b.1,
        b.2,
        b.3,
        insert_all_step past cap key object es t a.0 (some k) a.2 ∙ b.4,
        b.5,
        b.6 ∙ ap (put_all (k + 1) es) a.4,
      )

  -- Any run of Insert calls on an initialised CRBTree, of no more entries than the tree has nodes,
  -- returns, and leaves a sound red-black tree whose entries from left to right are those of a list
  -- into which each entry was put behind those whose key is not greater.
  pub insert_all-put_all :
      (es : List (ℕ × ℕ))
      → 0 < cap
      → cap < 2 ^ 31
      → length es ≤ cap
      → (t' : RbTree) × (tree' : Tree) × (fs : List ℕ) × (us' : List ℕ) × (insert_all past cap es
            (initialize past cap)
          ≡ some t')
        × IsRbTree past cap t' tree' fs us'
        × (entries t'.shape.nodes (ids tree') ≡ put_all 0 es [])
  insert_all-put_all es h k l =
      let new = initialize past cap in
      let a = insert_all_from 0 cap es new leaf [] l (initialize-IsRbTree past cap h k) in
      (a.0, a.1, a.2, a.3, a.4, a.5, a.6 ∙ ap (put_all 0 es) (entries-nil new.shape.nodes))
