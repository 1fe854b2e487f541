-- ===== src/Pool/Links.antt =====
-- common/common_pool.h: runs of nodes that are linked both ways, and what the setters do to them.
use lightframe.Common.{
  ℕ, zero, suc, ◌<◌, ◌≤◌, ◌≡◌, ◌≢◌, refl, sym, ap, ◌∙◌, Bool, Option, none, some, List, [], ◌∷◌,
  ◌++◌, arith, length, set, get_or-set_ne,
}
use lightframe.Pool.{Index, at, set_next, set_prev, set_used, set_next_of, set_prev_of}

abbrev pub All : (ℕ → Type 0) → List ℕ → Type 0
All P [] = Unit
All P (x ∷ xs) = P x × All P xs

abbrev pub Distinct : List ℕ → Type 0
Distinct [] = Unit
Distinct (x ∷ xs) = All (λ y. x ≢ y) xs × Distinct xs

abbrev pub first_or : Option ℕ → List ℕ → Option ℕ
first_or q [] = q
first_or q (x ∷ xs) = some x

abbrev pub last : ℕ → List ℕ → ℕ
last x [] = x
last x (y ∷ ys) = last y ys

abbrev pub last_or : Option ℕ → List ℕ → Option ℕ
last_or p [] = p
last_or p (x ∷ xs) = some (last x xs)

abbrev pub Apart : Option ℕ → List ℕ → Type 0
Apart none xs = Unit
Apart (some i) xs = All (λ y. i ≢ y) xs

pub All-map : {P Q : ℕ → Type 0} (xs : List ℕ) → ((i : ℕ) → P i → Q i) → All P xs → All Q xs
All-map [] f h = tt
All-map (x ∷ xs) f h = (f x h.0, All-map xs f h.1)

pub All-last : (P : ℕ → Type 0) (x : ℕ) (xs : List ℕ) → All P (x ∷ xs) → P (last x xs)
All-last P x [] h = h.0
All-last P x (y ∷ ys) h = All-last P y ys h.1

pub All-split : (P : ℕ → Type 0) (xs ys : List ℕ) → All P (xs ++ ys) → All P xs × All P ys
All-split P [] ys h = (tt, h)
All-split P (x ∷ xs) ys h = let r = All-split P xs ys h.1 in ((h.0, r.0), r.1)

pub All-append : (P : ℕ → Type 0) (xs ys : List ℕ) → All P xs → All P ys → All P (xs ++ ys)
All-append P [] ys h k = k
All-append P (x ∷ xs) ys h k = (h.0, All-append P xs ys h.1 k)

pub Distinct-split :
    (xs ys : List ℕ)
    → Distinct (xs ++ ys)
    → Distinct xs × Distinct ys × All (λ x. All (λ y. x ≢ y) ys) xs
Distinct-split [] ys d = (tt, d, tt)
Distinct-split (x ∷ xs) ys d =
    let r = Distinct-split xs ys d.1 in
    let s = All-split _ xs ys d.0 in ((s.0, r.0), r.1, (s.1, r.2))

pub Distinct-append :
    (xs ys : List ℕ)
    → Distinct xs
    → Distinct ys
    → All (λ x. All (λ y. x ≢ y) ys) xs
    → Distinct (xs ++ ys)
Distinct-append [] ys d e a = e
Distinct-append (x ∷ xs) ys d e a = (All-append _ xs ys d.0 a.0, Distinct-append xs ys d.1 e a.1)

pub apart_last : (xs ys : List ℕ) → All (λ x. All (λ y. x ≢ y) ys) xs → Apart (last_or none xs) ys
apart_last [] ys a = tt
apart_last (x ∷ xs) ys a = All-last _ x xs a

pub apart_first : (xs ys : List ℕ) → All (λ x. All (λ y. x ≢ y) ys) xs → Apart (first_or none ys) xs
apart_first xs [] a = tt
apart_first xs (y ∷ ys) a = All-map xs (λ x (q : All (λ z. x ≢ z) (y ∷ ys)) e. q.0 (sym e)) a

pub apart_head : (o : Option ℕ) (i : ℕ) (xs : List ℕ) → Apart o (i ∷ xs) → Apart o (i ∷ [])
apart_head none i xs a = tt
apart_head (some j) i xs a = (a.0, tt)

pub apart_tail : (o : Option ℕ) (i : ℕ) (xs : List ℕ) → Apart o (i ∷ xs) → Apart o xs
apart_tail none i xs a = tt
apart_tail (some j) i xs a = a.1

-- A field that the new node shares with the old one is kept everywhere.
pub keeps :
    {A : Type 0} (past : Index) (field : Index → A) (arr : List Index) (i : ℕ) (v : Index) (j : ℕ)
    → field v ≡ field (at past arr i)
    → field (at past (set arr i v) j) ≡ field (at past arr j)
unfolding at
keeps past field [] i v j e = refl
keeps past field (x ∷ xs) zero v zero e = e
keeps past field (x ∷ xs) zero v (suc j) e = refl
keeps past field (x ∷ xs) (suc i) v zero e = refl
keeps past field (x ∷ xs) (suc i) v (suc j) e = keeps past field xs i v j e

module _ (past : Index) where
  -- A node read at a place past the array.
  pub at_out : (arr : List Index) (i : ℕ) → length arr ≤ i → at past arr i ≡ past
  unfolding at
  at_out [] i h = refl
  at_out (x ∷ xs) zero h = absurd (omega arith)
  at_out (x ∷ xs) (suc i) h = at_out xs i (omega arith)

  pub at-set : (arr : List Index) (i : ℕ) (v : Index) → i < length arr → at past (set arr i v) i ≡ v
  unfolding at
  at-set [] i v h = absurd (omega arith)
  at-set (x ∷ xs) zero v h = refl
  at-set (x ∷ xs) (suc i) v h = at-set xs i v (omega arith)

  pub at-set_ne :
      (arr : List Index) (i j : ℕ) (v : Index) → i ≢ j → at past (set arr i v) j ≡ at past arr j
  unfolding at
  at-set_ne arr i j v h = get_or-set_ne arr i j v past h

  -- `xs` are linked in this order; the first follows `p`, and `q` follows the last.
  abbrev pub Linked : List Index → Option ℕ → List ℕ → Option ℕ → Type 0
  Linked arr p [] q = Unit
  Linked arr p (x ∷ xs) q =
      ((at past arr x).prev ≡ p) × ((at past arr x).next ≡ first_or q xs) × Linked arr (some x) xs q

  -- Two arrays whose nodes at `i` have the same links.
  abbrev Same : List Index → List Index → ℕ → Type 0
  Same arr arr' i =
      ((at past arr' i).prev ≡ (at past arr i).prev)
      × ((at past arr' i).next ≡ (at past arr i).next)

  Linked-Same :
      (arr arr' : List Index) (p : Option ℕ) (xs : List ℕ) (q : Option ℕ)
      → All (Same arr arr') xs
      → Linked arr p xs q
      → Linked arr' p xs q
  Linked-Same arr arr' p [] q s h = tt
  Linked-Same arr arr' p (x ∷ xs) q s h =
      (s.0.0 ∙ h.0, s.0.1 ∙ h.1, Linked-Same arr arr' (some x) xs q s.1 h.2)

  Linked-set_ne :
      (arr : List Index) (i : ℕ) (v : Index) (p : Option ℕ) (xs : List ℕ) (q : Option ℕ)
      → All (λ y. i ≢ y) xs
      → Linked arr p xs q
      → Linked (set arr i v) p xs q
  Linked-set_ne arr i v p xs q a h =
      Linked-Same arr (set arr i v) p xs q
        (All-map xs
          (λ j n.
            let e = at-set_ne arr i j v n in
            (ap (λ (m : Index). m.prev) e, ap (λ (m : Index). m.next) e))
          a)
        h

  pub Linked-append :
      (arr : List Index) (p : Option ℕ) (xs ys : List ℕ) (q : Option ℕ)
      → Linked arr p xs (first_or q ys)
      → Linked arr (last_or p xs) ys q
      → Linked arr p (xs ++ ys) q
  Linked-append arr p [] ys q h k = k
  Linked-append arr p (x ∷ []) ys q h k = (h.0, h.1, k)
  Linked-append arr p (x ∷ y ∷ zs) ys q h k =
      (h.0, h.1, Linked-append arr (some x) (y ∷ zs) ys q h.2 k)

  pub Linked-split :
      (arr : List Index) (p : Option ℕ) (xs ys : List ℕ) (q : Option ℕ)
      → Linked arr p (xs ++ ys) q
      → Linked arr p xs (first_or q ys) × Linked arr (last_or p xs) ys q
  Linked-split arr p [] ys q h = (tt, h)
  Linked-split arr p (x ∷ []) ys q h = ((h.0, h.1, tt), h.2)
  Linked-split arr p (x ∷ y ∷ zs) ys q h =
      let r = Linked-split arr (some x) (y ∷ zs) ys q h.2 in ((h.0, h.1, r.0), r.1)

  -- A run entered from another node, and a run left to another node.
  pub relink_prev :
      (arr : List Index) (p p' : Option ℕ) (xs : List ℕ) (q : Option ℕ)
      → Distinct xs
      → All (λ i. i < length arr) xs
      → Linked arr p xs q
      → Linked (set_prev_of past (first_or none xs) p' arr) p' xs q
  unfolding set_prev_of set_prev
  relink_prev arr p p' [] q d b h = tt
  relink_prev arr p p' (x ∷ xs) q d b h =
      let v = record (at past arr x) { prev = p' } in
      let e = at-set arr x v b.0 in
      (
        ap (λ (m : Index). m.prev) e,
        ap (λ (m : Index). m.next) e ∙ h.1,
        Linked-set_ne arr x v (some x) xs q d.0 h.2,
      )

  pub relink_next :
      (arr : List Index) (p : Option ℕ) (xs : List ℕ) (q q' : Option ℕ)
      → Distinct xs
      → All (λ i. i < length arr) xs
      → Linked arr p xs q
      → Linked (set_next_of past (last_or none xs) q' arr) p xs q'
  unfolding set_next_of set_next
  relink_next arr p [] q q' d b h = tt
  relink_next arr p (x ∷ []) q q' d b h =
      let e = at-set arr x (record (at past arr x) { next = q' }) b.0 in
      (ap (λ (m : Index). m.prev) e ∙ h.0, ap (λ (m : Index). m.next) e, tt)
  relink_next arr p (x ∷ y ∷ ys) q q' d b h =
      let l = last y ys in
      let e =
        at-set_ne arr l x (record (at past arr l) { next = q' })
          (λ r. All-last _ y ys d.0 (sym r)) in
      (
        ap (λ (m : Index). m.prev) e ∙ h.0,
        ap (λ (m : Index). m.next) e ∙ h.1,
        relink_next arr (some x) (y ∷ ys) q q' d.1 b.1 h.2,
      )

  -- Storing into a node off the run, and setting a flag, change no run.
  pub Linked-set_prev_of :
      (arr : List Index) (i n : Option ℕ) (p : Option ℕ) (xs : List ℕ) (q : Option ℕ)
      → Apart i xs
      → Linked arr p xs q
      → Linked (set_prev_of past i n arr) p xs q
  unfolding set_prev_of set_prev
  Linked-set_prev_of arr none n p xs q a h = h
  Linked-set_prev_of arr (some i) n p xs q a h = Linked-set_ne arr i _ p xs q a h

  pub Linked-set_next_of :
      (arr : List Index) (i n : Option ℕ) (p : Option ℕ) (xs : List ℕ) (q : Option ℕ)
      → Apart i xs
      → Linked arr p xs q
      → Linked (set_next_of past i n arr) p xs q
  unfolding set_next_of set_next
  Linked-set_next_of arr none n p xs q a h = h
  Linked-set_next_of arr (some i) n p xs q a h = Linked-set_ne arr i _ p xs q a h

  pub Linked-set_used :
      (arr : List Index) (i : ℕ) (b : Bool) (p : Option ℕ) (xs : List ℕ) (q : Option ℕ)
      → Linked arr p xs q
      → Linked (set_used past i b arr) p xs q
  unfolding set_used
  Linked-set_used arr i b p [] q h = tt
  Linked-set_used arr i b p (x ∷ xs) q h = (
    keeps past (λ (m : Index). m.prev) arr i _ x refl ∙ h.0,
    keeps past (λ (m : Index). m.next) arr i _ x refl ∙ h.1,
    Linked-set_used arr i b (some x) xs q h.2,
  )
