-- ===== src/Pool/Moves.antt =====
-- common/common_pool.h: a node joins or leaves a list: what it does to that list and to the others.
use lightframe.Common.{
  ℕ, ◌<◌, ◌≡◌, ◌≢◌, refl, ◌∙◌, Option, none, some, List, [], ◌∷◌, ◌++◌, arith, length, length-set,
}
use lightframe.Pool.{
  Index, at, set_next, set_prev, set_next_of, set_prev_of, append_node, prepend_node, detach,
}
use lightframe.Pool.Links.{
  All, Distinct, first_or, last_or, Apart, keeps, Linked, Linked-append, relink_prev, relink_next,
  Linked-set_prev_of, Linked-set_next_of, Linked-split, Distinct-split, All-split, All-map,
  apart_last, apart_first, apart_head, apart_tail,
}

module _ (past : Index) where
  -- A field besides the links.
  pub kept-set_prev_of :
      {A : Type 0} (field : Index → A)
      → ((m : Index) (p : Option ℕ) → field (record m { prev = p }) ≡ field m)
      → (i p : Option ℕ) (arr : List Index) (j : ℕ)
      → field (at past (set_prev_of past i p arr) j) ≡ field (at past arr j)
  unfolding set_prev_of set_prev
  kept-set_prev_of field h none p arr j = refl
  kept-set_prev_of field h (some i) p arr j = keeps past field arr i _ j (h _ p)

  kept-set_next_of :
      {A : Type 0} (field : Index → A)
      → ((m : Index) (n : Option ℕ) → field (record m { next = n }) ≡ field m)
      → (i n : Option ℕ) (arr : List Index) (j : ℕ)
      → field (at past (set_next_of past i n arr) j) ≡ field (at past arr j)
  unfolding set_next_of set_next
  kept-set_next_of field h none n arr j = refl
  kept-set_next_of field h (some i) n arr j = keeps past field arr i _ j (h _ n)

  pub length-set_prev_of :
      (i p : Option ℕ) (arr : List Index) → length (set_prev_of past i p arr) ≡ length arr
  unfolding set_prev_of set_prev
  length-set_prev_of none p arr = refl
  length-set_prev_of (some i) p arr = length-set arr i _

  length-set_next_of :
      (i n : Option ℕ) (arr : List Index) → length (set_next_of past i n arr) ≡ length arr
  unfolding set_next_of set_next
  length-set_next_of none n arr = refl
  length-set_next_of (some i) n arr = length-set arr i _

  -- append_node as three calls that may each meet enmInvalidObjectID
  append_node_calls :
      (i : ℕ) (tail id : Option ℕ) (arr : List Index)
      → append_node past i tail id arr
        ≡ set_next_of past tail id
            (set_next_of past (some i) none (set_prev_of past (some i) tail arr))
  unfolding append_node set_next_of set_prev_of
  append_node_calls i tail id arr = refl

  pub length-append_node :
      (i : ℕ) (tail id : Option ℕ) (arr : List Index)
      → length (append_node past i tail id arr) ≡ length arr
  length-append_node i tail id arr =
      rw (append_node_calls i tail id arr)
        (length-set_next_of tail id _ ∙ length-set_next_of _ _ _ ∙ length-set_prev_of _ _ arr)

  pub append_node_apart :
      (i : ℕ) (tail id : Option ℕ) (arr : List Index) (p : Option ℕ) (xs : List ℕ) (q : Option ℕ)
      → Apart (some i) xs
      → Apart tail xs
      → Linked past arr p xs q
      → Linked past (append_node past i tail id arr) p xs q
  append_node_apart i tail id arr p xs q a b h = rw (append_node_calls i tail id arr) (
      Linked-set_next_of past _ tail id p xs q b (
        Linked-set_next_of past _ (some i) none p xs q a
          (Linked-set_prev_of past arr (some i) tail p xs q a h)))

  -- The node joins the list at its end.
  pub append_node_links :
      (i : ℕ) (arr : List Index) (xs : List ℕ)
      → Distinct xs
      → All (λ j. j < length arr) xs
      → i < length arr
      → Apart (some i) xs
      → Apart (last_or none xs) (i ∷ [])
      → Linked past arr none xs none
      → Linked past (append_node past i (last_or none xs) (some i) arr) none (xs ++ i ∷ []) none
  append_node_links i arr xs d b r a a' h =
      let tail = last_or none xs in
      let arr1 = set_prev_of past (some i) tail arr in
      let arr2 = set_next_of past (some i) none arr1 in
      let one : Linked past arr (at past arr i).prev (i ∷ []) (at past arr i).next =
        (refl, refl, tt) in
      let one1 = relink_prev past arr _ tail (i ∷ []) _ (tt, tt) (r, tt) one in
      let r1 : i < length arr1 = omega (arith, length-set_prev_of (some i) tail arr) in
      let one2 = relink_next past arr1 tail (i ∷ []) _ none (tt, tt) (r1, tt) one1 in
      let h2 =
        Linked-set_next_of past arr1 (some i) none none xs none a
          (Linked-set_prev_of past arr (some i) tail none xs none a h) in
      let l : length arr2 ≡ length arr =
        length-set_next_of (some i) none arr1 ∙ length-set_prev_of (some i) tail arr in
      rw (append_node_calls i tail (some i) arr) (
        Linked-append past _ none xs (i ∷ []) none
          (relink_next past arr2 none xs none (some i) d (rw l b) h2)
          (Linked-set_next_of past arr2 tail (some i) tail (i ∷ []) none a' one2))

  prepend_node_calls :
      (i : ℕ) (head id : Option ℕ) (arr : List Index)
      → prepend_node past i head id arr
        ≡ set_prev_of past head id
            (set_prev_of past (some i) none (set_next_of past (some i) head arr))
  unfolding prepend_node set_next_of set_prev_of
  prepend_node_calls i head id arr = refl

  pub length-prepend_node :
      (i : ℕ) (head id : Option ℕ) (arr : List Index)
      → length (prepend_node past i head id arr) ≡ length arr
  length-prepend_node i head id arr =
      rw (prepend_node_calls i head id arr)
        (length-set_prev_of head id _ ∙ length-set_prev_of _ _ _ ∙ length-set_next_of _ _ arr)

  pub prepend_node_apart :
      (i : ℕ) (head id : Option ℕ) (arr : List Index) (p : Option ℕ) (xs : List ℕ) (q : Option ℕ)
      → Apart (some i) xs
      → Apart head xs
      → Linked past arr p xs q
      → Linked past (prepend_node past i head id arr) p xs q
  prepend_node_apart i head id arr p xs q a b h = rw (prepend_node_calls i head id arr) (
      Linked-set_prev_of past _ head id p xs q b (
        Linked-set_prev_of past _ (some i) none p xs q a
          (Linked-set_next_of past arr (some i) head p xs q a h)))

  -- The node joins the list at its start.
  pub prepend_node_links :
      (i : ℕ) (arr : List Index) (xs : List ℕ)
      → Distinct xs
      → All (λ j. j < length arr) xs
      → i < length arr
      → Apart (some i) xs
      → Apart (first_or none xs) (i ∷ [])
      → Linked past arr none xs none
      → Linked past (prepend_node past i (first_or none xs) (some i) arr) none (i ∷ xs) none
  unfolding prepend_node set_prev_of set_prev set_next set_next_of
  prepend_node_links i arr xs d b r a a' h =
      let head = first_or none xs in
      let arr1 = set_next_of past (some i) head arr in
      let arr2 = set_prev_of past (some i) none arr1 in
      let one : Linked past arr (at past arr i).prev (i ∷ []) (at past arr i).next =
        (refl, refl, tt) in
      let one1 = relink_next past arr _ (i ∷ []) _ head (tt, tt) (r, tt) one in
      let r1 : i < length arr1 = omega (arith, length-set_next_of (some i) head arr) in
      let one2 = relink_prev past arr1 _ none (i ∷ []) head (tt, tt) (r1, tt) one1 in
      let h2 =
        Linked-set_prev_of past arr1 (some i) none none xs none a
          (Linked-set_next_of past arr (some i) head none xs none a h) in
      let l : length arr2 ≡ length arr =
        length-set_prev_of (some i) none arr1 ∙ length-set_next_of (some i) head arr in
      rw (prepend_node_calls i head (some i) arr) (
        Linked-append past _ none (i ∷ []) xs none
          (Linked-set_prev_of past arr2 head (some i) none (i ∷ []) head a' one2)
          (relink_prev past arr2 none (some i) xs none d (rw l b) h2))

  pub length-detach : (i : ℕ) (arr : List Index) → length (detach past i arr) ≡ length arr
  unfolding detach
  length-detach i arr = length-set_prev_of _ _ _ ∙ length-set_next_of _ _ arr

  -- A node between `xs` and `ys` leaves: what the two calls of detach are.
  pub detach_calls :
      (i : ℕ) (arr : List Index) (xs ys : List ℕ)
      → Apart (last_or none xs) (i ∷ [])
      → Linked past arr none (xs ++ i ∷ ys) none
      → detach past i arr
        ≡ set_prev_of past
            (first_or none ys)
            (last_or none xs)
            (set_next_of past (last_or none xs) (first_or none ys) arr)
  unfolding detach
  detach_calls i arr xs ys a h =
      let here = (Linked-split past arr none xs (i ∷ ys) none h).1 in
      let alone : Linked past arr (last_or none xs) (i ∷ []) (first_or none ys) =
        (here.0, here.1, tt) in
      let there =
        Linked-set_next_of past arr (last_or none xs) (first_or none ys) _ (i ∷ []) _ a alone in
      rw (here.0, here.1) (rw (there.0, there.1) refl)

  pub detach_links :
      (i : ℕ) (arr : List Index) (xs ys : List ℕ)
      → Distinct (xs ++ i ∷ ys)
      → All (λ j. j < length arr) (xs ++ i ∷ ys)
      → Linked past arr none (xs ++ i ∷ ys) none
      → Linked past (detach past i arr) none (xs ++ ys) none
  detach_links i arr xs ys d b h =
      let parts = Linked-split past arr none xs (i ∷ ys) none h in
      let ds = Distinct-split xs (i ∷ ys) d in
      let bs = All-split _ xs (i ∷ ys) b in
      let before = last_or none xs in
      let after = first_or none ys in
      let arr1 = set_next_of past before after arr in
      let off : Apart before (i ∷ ys) = apart_last xs (i ∷ ys) ds.2 in
      let off' : Apart after xs =
        apart_first xs ys (All-map xs (λ x (q : All (λ y. x ≢ y) (i ∷ ys)). q.1) ds.2) in
      let l : length arr1 ≡ length arr = length-set_next_of before after arr in
      rw (detach_calls i arr xs ys (apart_head before i ys off) h) (
        Linked-append past _ none xs ys none
          (Linked-set_prev_of past arr1 after before none xs after off'
            (relink_next past arr none xs (some i) after ds.0 bs.0 parts.0))
          (relink_prev past arr1 (some i) before ys none ds.1.1 (rw l bs.1.1) (
            Linked-set_next_of past arr before after (some i) ys none (apart_tail before i ys off)
              parts.1.2)))

  -- A field besides the links, through the joining and the leaving of a node.
  module _ {A : Type 0} (field : Index → A)
      (hp : (m : Index) (p : Option ℕ) → field (record m { prev = p }) ≡ field m)
      (hn : (m : Index) (n : Option ℕ) → field (record m { next = n }) ≡ field m) where
    pub kept-append_node :
        (i : ℕ) (tail id : Option ℕ) (arr : List Index) (j : ℕ)
        → field (at past (append_node past i tail id arr) j) ≡ field (at past arr j)
    kept-append_node i tail id arr j = rw (append_node_calls i tail id arr) (
        kept-set_next_of field hn tail id _ j
        ∙ kept-set_next_of field hn (some i) none _ j
        ∙ kept-set_prev_of field hp (some i) tail arr j)

    pub kept-prepend_node :
        (i : ℕ) (head id : Option ℕ) (arr : List Index) (j : ℕ)
        → field (at past (prepend_node past i head id arr) j) ≡ field (at past arr j)
    kept-prepend_node i head id arr j = rw (prepend_node_calls i head id arr) (
        kept-set_prev_of field hp head id _ j
        ∙ kept-set_prev_of field hp (some i) none _ j
        ∙ kept-set_next_of field hn (some i) head arr j)

    pub kept-detach :
        (i : ℕ) (arr : List Index) (j : ℕ)
        → field (at past (detach past i arr) j) ≡ field (at past arr j)
    unfolding detach
    kept-detach i arr j = kept-set_prev_of field hp _ _ _ j ∙ kept-set_next_of field hn _ _ arr j
