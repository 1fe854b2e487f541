-- ===== src/Heap/Swap.antt =====
-- common/common_heap.h: the slots and the back links to them, under Swap and under a single store.
use native.Mathlib.Decide.{ℕ_discrete}
use lightframe.Common.{
  ℕ, ◌<◌, ◌≤◌, ◌≡◌, ◌≢◌, sym, ap, ◌∙◌, none, some, List, [], ◌∷◌, arith, length, set, length-set,
  get_or-set, ◌==◌, if◌then◌else◌, ◌⊎◌,
}
use lightframe.Heap.{Slots, slot, heap_index, swap}

-- `x` is one of `xs`
abbrev pub In : ℕ → List ℕ → Type 0
In x [] = ⊥
In x (y ∷ ys) = (x ≡ y) ⊎ In x ys

-- Of `cap` nodes those in `xs` fill the first n slots, each once, and know their slots.
pub record Placed (cap n : ℕ) (s : Slots) (xs : List ℕ) : Type 0 where
  pub slotted : length s.node_at ≡ cap
  pub indexed : length s.index_of ≡ cap
  pub room : n ≤ cap
  pub inside : (i : ℕ) → i < n → slot s i < cap
  pub back : (i : ℕ) → i < n → heap_index s (slot s i) ≡ some i
  pub held : (i : ℕ) → i < n → In (slot s i) xs
  pub found : (x : ℕ) → In x xs → (i : ℕ) × (i < n) × (slot s i ≡ x)

pub some_injective : (i j : ℕ) → some i ≡ some j → i ≡ j
some_injective i j e = cc

-- Two slots do not hold one node.
pub slot_injective :
    {cap n : ℕ} {s : Slots} {xs : List ℕ}
    → Placed cap n s xs
    → (i j : ℕ) → i < n
    → j < n
    → slot s i ≡ slot s j
    → i ≡ j
slot_injective {s = s} v i j a b e =
    some_injective i j (sym (v.back i a) ∙ ap (heap_index s) e ∙ v.back j b)

module _ (s : Slots) (i j : ℕ) (a : i < length s.node_at) (b : j < length s.node_at) where
  pub slot-swap :
      (c : ℕ)
      → slot (swap i j s) c ≡ (if i == c then slot s j else if j == c then slot s i else slot s c)
  unfolding swap
  slot-swap c =
      let len = length-set s.node_at j (slot s i) in
      ground (
        arith,
        get_or-set (set s.node_at j (slot s i)) i c (slot s j) 0,
        get_or-set s.node_at j c (slot s i) 0,
        len,
      )

  pub index-swap :
      slot s i < length s.index_of
      → slot s j < length s.index_of
      → (x : ℕ)
      → heap_index (swap i j s) x ≡ (
          if slot s i == x
          then heap_index s (slot s j)
          else if slot s j == x
          then heap_index s (slot s i)
          else heap_index s x)
  unfolding swap
  index-swap p q x =
      let len = length-set s.index_of (slot s j) (heap_index s (slot s i)) in
      ground (
        arith,
        get_or-set (set s.index_of (slot s j) (heap_index s (slot s i))) (slot s i) x
            (heap_index s (slot s j)) none,
        get_or-set s.index_of (slot s j) x (heap_index s (slot s i)) none,
        len,
      )

-- A node is found after the swap as well.
swapped_found :
    (n i j : ℕ) (s : Slots) (x : ℕ)
    → i < length s.node_at
    → j < length s.node_at
    → i < n
    → j < n
    → (c : ℕ) × (c < n) × (slot s c ≡ x)
    → (c : ℕ) × (c < n) × (slot (swap i j s) c ≡ x)
swapped_found n i j s x p q a b (c, h, e) =
    let at = slot-swap s i j p q in
    elim (ℕ_discrete c i) [
      | yes t ↦ (j, b, ground (arith, at j))
      | no t ↦ elim (ℕ_discrete c j) [
        | yes u ↦ (i, a, ground (arith, at i))
        | no u ↦ (c, h, ground (arith, at c))
      ]
    ]

length-swap :
    (i j : ℕ) (s : Slots)
    → (length (swap i j s).node_at ≡ length s.node_at)
      × (length (swap i j s).index_of ≡ length s.index_of)
unfolding swap
length-swap i j s = (
  length-set _ i (slot s j) ∙ length-set s.node_at j _,
  length-set _ (slot s i) _ ∙ length-set s.index_of (slot s j) _,
)

pub swap-Placed :
    (cap n i j : ℕ) (s : Slots) (xs : List ℕ)
    → i < n
    → j < n
    → i ≢ j
    → Placed cap n s xs
    → Placed cap n (swap i j s) xs
swap-Placed cap n i j s xs a b d v =
    let p : i < length s.node_at = omega (arith, v.slotted, v.room) in
    let q : j < length s.node_at = omega (arith, v.slotted, v.room) in
    let at = slot-swap s i j p q in
    let ix = index-swap s i j p q (rw v.indexed (v.inside i a)) (rw v.indexed (v.inside j b)) in
    record {
      slotted = (length-swap i j s).0 ∙ v.slotted;
      indexed = (length-swap i j s).1 ∙ v.indexed;
      room = v.room;
      inside = λ c h. ground (arith, at c, v.inside i, v.inside j, v.inside c);
      back = λ c h. ground (
        arith,
        at c,
        ix (slot s i),
        ix (slot s j),
        ix (slot s c),
        v.back i a,
        v.back j b,
        v.back c h,
        slot_injective v i j a b,
        slot_injective v i c a h,
        slot_injective v j c b h,
      );
      held = λ c h. elim (ℕ_discrete i c) [
        | yes q ↦ let e : slot (swap i j s) c ≡ slot s j = ground (arith, at c) in rw e (v.held j b)
        | no q ↦ elim (ℕ_discrete j c) [
          | yes r ↦
              let e : slot (swap i j s) c ≡ slot s i = ground (arith, at c) in rw e (v.held i a)
          | no r ↦
              let e : slot (swap i j s) c ≡ slot s c = ground (arith, at c) in rw e (v.held c h)
        ]
      ];
      found = λ x m. swapped_found n i j s x p q a b (v.found x m);
    }
