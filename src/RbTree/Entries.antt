-- ===== src/RbTree/Entries.antt =====
-- common/common_rbtree.h: the entries of a tree from left to right, and the sorted list that an
-- insertion stands for.
use lightframe.Common.{
  ℕ, ◌+◌, ◌≤◌, ◌<◌, ◌≡◌, ◌≢◌, refl, sym, ap, ap₂, ◌∙◌, List, [], ◌∷◌, ◌++◌, arith, ltb,
  if◌then◌else◌, length, length-append, ◌==◌, bool_cases, inl, inr,
}
use mathlib.Core.Path.{subst}
use lightframe.Pool.Links.{All, Distinct}
use lightframe.RbTree.Nodes.{Node}
use lightframe.RbTree.Shapes.{Tree, leaf, node, ids, one, count, one_self, depth}
use lightframe.RbTree.Paint.{KeyKept}
use lightframe.RbTree.Place.{Sorted, Sorted-split, Sorted-append}

-- a node's place, key and object
abbrev pub Entry : Type 0
Entry = ℕ × ℕ × ℕ

pub entries : (ℕ → Node) → List ℕ → List Entry
entries m [] = []
entries m (i ∷ xs) = (i, (m i).key, (m i).object) ∷ entries m xs

pub entries-nil : (m : ℕ → Node) → entries m [] ≡ []
unfolding entries
entries-nil m = refl

-- The entry goes behind those whose key is not greater.
pub put_entry : Entry → List Entry → List Entry
put_entry e [] = e ∷ []
put_entry e (f ∷ xs) = if ltb e.1 f.1 then e ∷ f ∷ xs else f ∷ put_entry e xs

abbrev pub times : ℕ → List ℕ → ℕ
times j [] = 0
times j (x ∷ xs) = one j x + times j xs

pub times-append : (j : ℕ) (xs ys : List ℕ) → times j (xs ++ ys) ≡ times j xs + times j ys
times-append j [] ys = omega arith
times-append j (x ∷ xs) ys = omega (arith, times-append j xs ys)

pub count-times : (j : ℕ) (t : Tree) → count j t ≡ times j (ids t)
count-times j leaf = refl
count-times j (node l i r) =
    omega (arith, count-times j l, count-times j r, times-append j (ids l) (i ∷ ids r))

pub depth-length : (t : Tree) → depth t ≡ length (ids t)
depth-length leaf = refl
depth-length (node l i r) =
    omega (arith, depth-length l, depth-length r, length-append (ids l) (i ∷ ids r))

pub times_none : (j : ℕ) (xs : List ℕ) → All (λ y. j ≢ y) xs → times j xs ≡ 0
times_none j [] a = refl
times_none j (x ∷ xs) a = let h = times_none j xs a.1 in ground (arith, a.0)

pub Distinct-times : (j : ℕ) (xs : List ℕ) → Distinct xs → times j xs ≤ 1
Distinct-times j [] d = omega arith
Distinct-times j (x ∷ xs) d =
    let z = times_none x xs d.0 in
    let h = Distinct-times j xs d.1 in
    elim (bool_cases (j == x)) [
      | inl e ↦
          (let q : j ≡ x = ground arith in
            subst (λ k. one k x + times k xs ≤ 1) (sym q) (omega (arith, z, one_self x)))
      | inr e ↦ rw e (omega (arith, h))
    ]

All-times :
    {P Q : ℕ → Type 0} (xs : List ℕ) → ((j : ℕ) → 1 ≤ times j xs → P j → Q j) → All P xs → All Q xs
All-times [] f h = tt
All-times (x ∷ xs) f h =
    (f x (omega (arith, one_self x)) h.0, All-times xs (λ j q. f j (omega arith)) h.1)

module _ (m m' : ℕ → Node) where
  pub entries-kept :
      (xs : List ℕ) → ((j : ℕ) → 1 ≤ times j xs → KeyKept m m' j) → entries m' xs ≡ entries m xs
  unfolding entries
  entries-kept [] f = refl
  entries-kept (x ∷ xs) f =
      let e = f x (omega (arith, one_self x)) in
      let r = entries-kept xs (λ j q. f j (omega arith)) in rw (e.0, e.1, r) refl

  pub Sorted-kept :
      (xs : List ℕ) → ((j : ℕ) → 1 ≤ times j xs → KeyKept m m' j) → Sorted m xs → Sorted m' xs
  Sorted-kept [] f h = tt
  Sorted-kept (x ∷ xs) f h =
      let e = (f x (omega (arith, one_self x))).0 in
      (
        All-times xs (λ j q (w : (m x).key ≤ (m j).key). omega (arith, (f j (omega arith)).0, e))
            h.0,
        Sorted-kept xs (λ j q. f j (omega arith)) h.1,
      )

entries-append :
    (m : ℕ → Node) (xs ys : List ℕ) → entries m (xs ++ ys) ≡ entries m xs ++ entries m ys
unfolding entries
entries-append m [] ys = refl
entries-append m (x ∷ xs) ys = ap (◌∷◌ (x, (m x).key, (m x).object)) (entries-append m xs ys)

put_entry-middle :
    (m : ℕ → Node) (e : Entry) (xs ys : List ℕ)
    → All (λ j. (m j).key ≤ e.1) xs
    → All (λ j. e.1 < (m j).key) ys
    → put_entry e (entries m xs ++ entries m ys) ≡ entries m xs ++ (e ∷ entries m ys)
unfolding put_entry entries
put_entry-middle m e [] [] a b = refl
put_entry-middle m e [] (y ∷ ys) a b = ground arith
put_entry-middle m e (x ∷ xs) ys a b = ground (arith, put_entry-middle m e xs ys a.1 b)

-- A list of nodes split where a new key belongs, before and after node i is put there: m' differs
-- from m in node i, which has the new entry.
module _ (m m' : ℕ → Node) (i : ℕ) (e : ℕ × ℕ) (xs ys : List ℕ)
    (kept : (j : ℕ) → 1 ≤ times j xs + times j ys → KeyKept m m' j)
    (new : ((m' i).key ≡ e.0) × ((m' i).object ≡ e.1)) (low : All (λ j. (m j).key ≤ e.0) xs)
    (high : All (λ j. e.0 < (m j).key) ys) where
  pub entries-middle : entries m' (xs ++ (i ∷ ys)) ≡ put_entry (i, e.0, e.1) (entries m (xs ++ ys))
  unfolding entries
  entries-middle =
      entries-append m' xs (i ∷ ys)
      ∙ ap₂ ◌++◌ (entries-kept m m' xs (λ j q. kept j (omega arith)))
          (ap₂ ◌∷◌ (rw (new.0, new.1) refl) (entries-kept m m' ys (λ j q. kept j (omega arith))))
      ∙ sym (put_entry-middle m (i, e.0, e.1) xs ys low high)
      ∙ ap (put_entry (i, e.0, e.1)) (sym (entries-append m xs ys))

  pub Sorted-middle : Sorted m (xs ++ ys) → Sorted m' (xs ++ (i ∷ ys))
  Sorted-middle s =
      let w = Sorted-split m xs ys s in
      let low' : All (λ j. (m' j).key ≤ (m' i).key) xs =
        All-times xs
          (λ j q (h : (m j).key ≤ e.0). omega (arith, (kept j (omega arith)).0, new.0, h)) low in
      let high' : All (λ j. (m' i).key ≤ (m' j).key) ys =
        All-times ys
          (λ j q (h : e.0 < (m j).key). omega (arith, (kept j (omega arith)).0, new.0, h)) high in
      Sorted-append m' xs (i ∷ ys) (Sorted-kept m m' xs (λ j q. kept j (omega arith)) w.0)
        (high', Sorted-kept m m' ys (λ j q. kept j (omega arith)) w.1)
        (All-times xs
          (λ j q (h : (m' j).key ≤ (m' i).key).
            (h, All-times ys (λ k r (g : (m' i).key ≤ (m' k).key). omega (arith, h, g)) high'))
          low')
