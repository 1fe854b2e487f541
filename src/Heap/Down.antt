-- ===== src/Heap/Down.antt =====
-- common/common_heap.h: ShiftDown puts a heap in order that is out of order below one slot only.
use native.Mathlib.Decide.{ℕ_discrete}
use lightframe.Common.{
  bool_cases, ℕ, zero, suc, ◌+◌, ◌-◌, ◌*◌, ◌/◌, ◌<◌, ◌≤◌, ◌≡◌, ◌≢◌, refl, true, some, List, [],
  arith, length, ◌==◌, leb, inl, inr, ◌⊎◌,
}
use lightframe.Heap.{Slots, rank, swap, smallest, down_loop, shift_down}
use lightframe.Heap.Swap.{Placed, swap-Placed}
use lightframe.Heap.Up.{Settled, rank-swap}

-- Only the edges below slot c may be out of order.
pub record Sinking (keys : List ℕ) (n : ℕ) (s : Slots) (c : ℕ) : Type 0 where
  pub edges : (e : ℕ) → 0 < e → e < n → (e - 1) / 2 ≢ c → rank keys s ((e - 1) / 2) ≤ rank keys s e
  pub above :
      (e : ℕ) → 0 < e → e < n → (e - 1) / 2 ≡ c → 0 < c → rank keys s ((c - 1) / 2) ≤ rank keys s e

-- The slot of the least key among slot c and its children.
record Least (keys : List ℕ) (n : ℕ) (s : Slots) (c m : ℕ) : Type 0 where
  child : c ≢ m → (m < n) × (0 < m) × ((m - 1) / 2 ≡ c) × (rank keys s m < rank keys s c)
  least : (e : ℕ) → 0 < e → e < n → (e - 1) / 2 ≡ c → rank keys s m ≤ rank keys s e

module _ (keys : List ℕ) (cap n : ℕ) (xs : List ℕ) where
  smallest-Least : (c : ℕ) (s : Slots) → Least keys n s c (smallest keys n c c s)
  unfolding smallest
  smallest-Least c s = record {
    child = λ q. ground arith;
    least =
        λ e z l p. let two : (e ≡ 2 * c + 1) ⊎ (e ≡ 2 * c + 2) = omega arith in ground (arith, two);
  }

  swap-Sinking :
      (c m : ℕ) (s : Slots)
      → Placed cap n s xs
      → Sinking keys n s c
      → Least keys n s c m
      → c ≢ m
      → c < n
      → Sinking keys n (swap c m s) m
  swap-Sinking c m s v u t d h =
      let k = t.child d in
      let a : c < length s.node_at = omega (arith, v.slotted, v.room) in
      let b : m < length s.node_at = omega (arith, v.slotted, v.room, k) in
      let at = rank-swap keys s c m a b in
      record {
        edges =
            λ e y l q. ground (arith, at e, at ((e - 1) / 2), u.edges e, u.above m, t.least e, k);
        above = λ e y l q w. ground (arith, at e, at ((m - 1) / 2), u.edges e, k);
      }

  pub down_loop_settles :
      (k c : ℕ) (s : Slots)
      → n - c < k
      → c < n
      → Placed cap n s xs
      → Sinking keys n s c
      → Settled keys cap n xs (down_loop keys n k c c s)
  unfolding down_loop
  down_loop_settles zero c s f l v u = absurd (omega arith)
  down_loop_settles (suc k) c s f l v u =
      let m = smallest keys n c c s in
      let t = smallest-Least c s in
      elim (bool_cases (c == m)) [
        | inl q ↦
            rw (q, down_loop)
              (
                s,
                refl,
                v,
                λ e y z. elim (ℕ_discrete ((e - 1) / 2) c) [
                  | yes p ↦ ground (arith, t.least e, p)
                  | no p ↦ u.edges e y z p
                ],
              )
        | inr q ↦
            let d : c ≢ m = ground arith in
            let ch = t.child d in
            rw (q, down_loop)
              (down_loop_settles k m (swap c m s) (omega (arith, ch)) ch.0
                (swap-Placed cap n c m s xs l ch.0 d v) (swap-Sinking c m s v u t d l))
      ]

  pub shift_down_settles :
      (c : ℕ) (s : Slots)
      → Placed cap n s xs
      → Sinking keys n s c
      → Settled keys cap n xs (shift_down keys n c s)
  unfolding shift_down
  shift_down_settles c s v u = elim (bool_cases (leb n c)) [
    | inl q ↦ rw q (s, refl, v, λ e y l. u.edges e y l (λ p. ground arith))
    | inr q ↦ rw q (down_loop_settles (n + 1) c s (omega arith) (ground arith) v u)
  ]

-- A node that no child's key is below stays where it is.
pub shift_down_stays :
    (keys : List ℕ) (n c : ℕ) (s : Slots)
    → ((e : ℕ) → 0 < e → e < n → (e - 1) / 2 ≡ c → rank keys s c ≤ rank keys s e)
    → shift_down keys n c s ≡ some s
unfolding shift_down down_loop
shift_down_stays keys n c s h =
    let m = smallest keys n c c s in
    let t = smallest-Least keys 0 n [] c s in
    let same : (c == m) ≡ true = elim (ℕ_discrete c m) [
      | yes q ↦ ground (arith, q)
      | no q ↦ let k = t.child q in absurd (omega (arith, k, h m k.1 k.0 k.2))
    ] in
    elim (bool_cases (leb n c)) [
      | inl q ↦ rw q refl
      | inr q ↦ let e : n + 1 ≡ suc n = omega arith in rw (q, e) (rw (same, down_loop) refl)
    ]
