-- ===== src/Heap/Holds.antt =====
-- common/common_heap.h: what a sound heap holds, and a node stored into the first slot that is free.
use lightframe.Common.{
  bool_cases, ℕ, ◌+◌, ◌<◌, ◌≡◌, ◌≢◌, refl, ◌∙◌, some, none, List, [], ◌∷◌, ◌++◌, arith, length, set,
  length-set, get_or-set, ◌==◌, if◌then◌else◌, ◌⊎◌, inl, inr,
}
use lightframe.Pool.{Index}
use lightframe.Pool.Links.{All}
use lightframe.Pool.Holds.{Holds}
use lightframe.Heap.{Heap, Slots, slot, heap_index, rank, place}
use lightframe.Heap.Swap.{In, Placed}
use lightframe.Heap.Up.{Ordered}

-- The used nodes `us` of the pool fill the slots, in heap order.
pub record IsHeap (past : Index) (cap : ℕ) (h : Heap) (fs us : List ℕ) : Type 0 where
  pub pool_in : Holds past cap h.pool fs us
  pub keyed : length h.keys ≡ cap
  pub placed : Placed cap (length us) h.slots us
  pub ordered : Ordered h.keys (length us) h.slots

pub In-All : (P : ℕ → Type 0) (x : ℕ) (xs : List ℕ) → All P xs → In x xs → P x
In-All P x [] a h = elim h [ ]
In-All P x (y ∷ ys) a (inl e) = rw e a.0
In-All P x (y ∷ ys) a (inr h) = In-All P x ys a.1 h

pub In-append_left : (x : ℕ) (xs ys : List ℕ) → In x xs → In x (xs ++ ys)
In-append_left x [] ys h = elim h [ ]
In-append_left x (y ∷ xs) ys (inl e) = inl e
In-append_left x (y ∷ xs) ys (inr h) = inr (In-append_left x xs ys h)

pub In-append_right : (x : ℕ) (xs ys : List ℕ) → In x ys → In x (xs ++ ys)
In-append_right x [] ys h = h
In-append_right x (y ∷ xs) ys h = inr (In-append_right x xs ys h)

pub In-append : (x : ℕ) (xs ys : List ℕ) → In x (xs ++ ys) → In x xs ⊎ In x ys
In-append x [] ys h = inr h
In-append x (y ∷ xs) ys (inl e) = inl (inl e)
In-append x (y ∷ xs) ys (inr h) = elim (In-append x xs ys h) [ inl a ↦ inl (inr a) | inr b ↦ inr b ]

module _ (s : Slots) (i x : ℕ) where
  pub slot-place :
      i < length s.node_at → (c : ℕ) → slot (place i x s) c ≡ (if i == c then x else slot s c)
  unfolding place
  slot-place h c = get_or-set s.node_at i c x 0 h

  pub index-place :
      x < length s.index_of
      → (y : ℕ) → heap_index (place i x s) y ≡ (if x == y then some i else heap_index s y)
  unfolding place
  index-place h y = get_or-set s.index_of x y (some i) none h

  pub length-place :
      (length (place i x s).node_at ≡ length s.node_at)
      × (length (place i x s).index_of ≡ length s.index_of)
  unfolding place
  length-place = (length-set s.node_at i x, length-set s.index_of x (some i))

-- A node of another key keeps its rank.
pub rank-set :
    (keys : List ℕ) (x key : ℕ) (s : Slots) (c : ℕ)
    → x < length keys
    → rank (set keys x key) s c ≡ (if x == slot s c then key else rank keys s c)
rank-set keys x key s c h = get_or-set keys x (slot s c) key 0 h

-- A new node in the slot after the last.
pub place-Placed :
    (cap n : ℕ) (s : Slots) (xs : List ℕ) (x : ℕ)
    → Placed cap n s xs
    → n < cap
    → x < cap
    → (In x xs → ⊥)
    → Placed cap (n + 1) (place n x s) (xs ++ x ∷ [])
place-Placed cap n s xs x v a b new =
    let p : n < length s.node_at = omega (arith, v.slotted) in
    let at = slot-place s n x p in
    let ix = index-place s n x (omega (arith, v.indexed)) in
    let len = length-place s n x in
    let other : (c : ℕ) → c < n → x ≢ slot s c = λ c h e. new (rw e (v.held c h)) in
    record {
      slotted = len.0 ∙ v.slotted;
      indexed = len.1 ∙ v.indexed;
      room = omega arith;
      inside = λ c h. ground (arith, at c, v.inside c);
      back = λ c h. ground (arith, at c, ix x, ix (slot s c), v.back c, other c);
      held = λ c h. elim (bool_cases (n == c)) [
        | inl q ↦
            let e : slot (place n x s) c ≡ x = ground (arith, at c) in
            rw e (In-append_right x xs (x ∷ []) (inl refl))
        | inr q ↦
            let e : slot (place n x s) c ≡ slot s c = ground (arith, at c) in
            rw e (In-append_left (slot s c) xs (x ∷ []) (v.held c (ground arith)))
      ];
      found = λ y m. elim (In-append y xs (x ∷ []) m) [
        | inl k ↦ let f = v.found y k in (f.0, omega (arith, f.1), ground (arith, at f.0, f.1, f.2))
        | inr k ↦ (n, omega arith, elim k [ inl e ↦ ground (arith, at n) | inr z ↦ elim z [ ] ])
      ];
    }
