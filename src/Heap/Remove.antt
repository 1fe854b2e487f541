-- ===== src/Heap/Remove.antt =====
-- common/common_heap.h: the last node is stored into the slot of a node that leaves.
use native.Mathlib.Decide.{ℕ_discrete}
use lightframe.Common.{
  bool_cases, ℕ, ◌+◌, ◌-◌, ◌/◌, ◌<◌, ◌≤◌, ◌≡◌, ◌≢◌, sym, ap, ◌∙◌, some, List, [], ◌∷◌, ◌++◌, arith,
  ◌==◌, if◌then◌else◌, inl, inr,
}
use lightframe.Heap.{Slots, slot, heap_index, rank, place}
use lightframe.Heap.Swap.{In, Placed, slot_injective}
use lightframe.Heap.Up.{Ordered}
use lightframe.Heap.Down.{Sinking}
use lightframe.Heap.Holds.{slot-place, index-place, length-place}

pub In-middle : (z x : ℕ) (us ws : List ℕ) → In z (us ++ x ∷ ws) → z ≢ x → In z (us ++ ws)
In-middle z x [] ws (inl e) n = absurd (n e)
In-middle z x [] ws (inr h) n = h
In-middle z x (u ∷ us) ws (inl e) n = inl e
In-middle z x (u ∷ us) ws (inr h) n = inr (In-middle z x us ws h n)

pub In-besides : (z x : ℕ) (us ws : List ℕ) → In z (us ++ ws) → In z (us ++ x ∷ ws)
In-besides z x [] ws h = inr h
In-besides z x (u ∷ us) ws (inl e) = inl e
In-besides z x (u ∷ us) ws (inr h) = inr (In-besides z x us ws h)

-- Where a member stands in a list.
pub In-split : (x : ℕ) (xs : List ℕ) → In x xs → (us : List ℕ) × (ws : List ℕ) × (xs ≡ us ++ x ∷ ws)
In-split x [] h = elim h [ ]
In-split x (y ∷ ys) (inl e) = ([], ys, ap (λ k. k ∷ ys) (sym e))
In-split x (y ∷ ys) (inr h) = let r = In-split x ys h in (y ∷ r.0, r.1, ap (◌∷◌ y) r.2)

module _ (cap m i : ℕ) (s : Slots) (us ws : List ℕ) (x : ℕ)
    (v : Placed cap (m + 1) s (us ++ x ∷ ws)) (a : i < m + 1) (e : slot s i ≡ x)
    (new : In x (us ++ ws) → ⊥) where
  pub slot_after : (c : ℕ) → slot (place i (slot s m) s) c ≡ (if i == c then slot s m else slot s c)
  slot_after = slot-place s i (slot s m) (omega (arith, v.slotted, v.room))

  index_after :
      (y : ℕ)
      → heap_index (place i (slot s m) s) y ≡ (if slot s m == y then some i else heap_index s y)
  index_after = index-place s i (slot s m) (rw v.indexed (v.inside m (omega arith)))

  -- no slot but i held x
  elsewhere : (c : ℕ) → c < m + 1 → c ≢ i → slot s c ≢ x
  elsewhere c h n q = n (slot_injective v c i h a (q ∙ sym e))

  last_alone : (c : ℕ) → c < m → slot s m ≢ slot s c
  last_alone c h q =
      let k = slot_injective v m c (omega arith) (omega arith) q in absurd (omega (arith, k))

  found_after : (z : ℕ) → In z (us ++ ws) → (k : ℕ) × (k < m) × (slot (place i (slot s m) s) k ≡ z)
  found_after z h =
      let f = v.found z (In-besides z x us ws h) in
      let k = f.0 in
      let zx : z ≢ x = λ q. new (rw q at h) in
      let ki : k ≢ i = λ q. zx (sym f.2 ∙ ap (slot s) q ∙ e) in
      elim (ℕ_discrete k m) [
        | yes q ↦
            let same : slot s m ≡ z = ap (slot s) (sym q) ∙ f.2 in
            (i, omega (arith, f.1, ki), ground (arith, slot_after i, same))
        | no q ↦ (k, omega (arith, f.1), ground (arith, slot_after k, f.2, ki))
      ]

  pub remove-Placed : Placed cap m (place i (slot s m) s) (us ++ ws)
  remove-Placed =
      let len = length-place s i (slot s m) in
      record {
        slotted = len.0 ∙ v.slotted;
        indexed = len.1 ∙ v.indexed;
        room = omega (arith, v.room);
        inside = λ c h. ground (arith, slot_after c, v.inside c, v.inside m);
        back = λ c h. ground (
          arith,
          slot_after c,
          index_after (slot s m),
          index_after (slot s c),
          v.back c,
          last_alone c h,
        );
        held = λ c h. elim (bool_cases (i == c)) [
          | inl q ↦
              let t : slot (place i (slot s m) s) c ≡ slot s m = ground (arith, slot_after c) in
              rw t (
                In-middle (slot s m) x us ws (v.held m (omega arith))
                  (elsewhere m (omega arith) (ground arith)))
          | inr q ↦
              let t : slot (place i (slot s m) s) c ≡ slot s c = ground (arith, slot_after c) in
              rw t (
                In-middle (slot s c) x us ws (v.held c (omega arith))
                  (elsewhere c (omega arith) (ground arith)))
        ];
        found = found_after;
      }

  pub rank_after :
      (keys : List ℕ) (c : ℕ)
      → rank keys (place i (slot s m) s) c ≡ (if i == c then rank keys s m else rank keys s c)
  rank_after keys c = let t = slot_after c in ground (arith, t)

  -- Unless the last key is below that of the parent of slot i, only the edges below i can be wrong.
  pub remove-Sinking :
      (keys : List ℕ)
      → Ordered keys (m + 1) s
      → (0 < i → rank keys s ((i - 1) / 2) ≤ rank keys s m)
      → Sinking keys m (place i (slot s m) s) i
  remove-Sinking keys o w =
      let at = rank_after keys in
      record {
        edges = λ c z l n. ground (arith, at c, at ((c - 1) / 2), o c, w);
        above = λ c z l n q. ground (arith, at c, at ((i - 1) / 2), o c, o i);
      }
