-- ===== src/Heap/Up.antt =====
-- common/common_heap.h: ShiftUp puts a heap in order that is out of order above one slot only.
use native.Mathlib.Decide.{ℕ_discrete}
use lightframe.Common.{
  bool_cases, ℕ, zero, suc, ◌+◌, ◌-◌, ◌/◌, ◌<◌, ◌≤◌, ◌≡◌, ◌≢◌, refl, false, Option, some, List,
  arith, length, ◌==◌, leb, if◌then◌else◌, inl, inr,
}
use lightframe.Heap.{Slots, rank, swap, up_loop, shift_up}
use lightframe.Heap.Swap.{Placed, slot-swap, swap-Placed}

-- No key in the first n slots is below its parent's.
abbrev pub Ordered : List ℕ → ℕ → Slots → Type 0
Ordered keys n s = (c : ℕ) → 0 < c → c < n → rank keys s ((c - 1) / 2) ≤ rank keys s c

pub rank-swap :
    (keys : List ℕ) (s : Slots) (i j : ℕ)
    → i < length s.node_at
    → j < length s.node_at
    → (c : ℕ)
    → rank keys (swap i j s) c
      ≡ (if i == c then rank keys s j else if j == c then rank keys s i else rank keys s c)
rank-swap keys s i j a b c = let e = slot-swap s i j a b c in ground (arith, e)

-- Only the edge above slot c may be out of order.
pub record Rising (keys : List ℕ) (n : ℕ) (s : Slots) (c : ℕ) : Type 0 where
  pub inside : c < n
  pub edges : (e : ℕ) → 0 < e → e < n → e ≢ c → rank keys s ((e - 1) / 2) ≤ rank keys s e
  pub below :
      (e : ℕ) → 0 < e → e < n → (e - 1) / 2 ≡ c → 0 < c → rank keys s ((c - 1) / 2) ≤ rank keys s e

module _ (keys : List ℕ) (cap n : ℕ) (xs : List ℕ) where
  -- What a shift that ends well returns.
  abbrev pub Settled : Option Slots → Type 0
  Settled r = (s : Slots) × (r ≡ some s) × Placed cap n s xs × Ordered keys n s

  swap-Rising :
      (c : ℕ) (s : Slots)
      → Placed cap n s xs
      → Rising keys n s c
      → 0 < c
      → rank keys s c < rank keys s ((c - 1) / 2)
      → Rising keys n (swap ((c - 1) / 2) c s) ((c - 1) / 2)
  swap-Rising c s v u z h =
      let p = (c - 1) / 2 in
      let a : p < length s.node_at = omega (arith, v.slotted, v.room, u.inside) in
      let b : c < length s.node_at = omega (arith, v.slotted, v.room, u.inside) in
      let at = rank-swap keys s p c a b in
      record {
        inside = omega (arith, u.inside);
        edges = λ e y l q. ground (arith, at e, at ((e - 1) / 2), u.edges e, u.below e);
        below =
            λ e y l q w. ground (arith, at e, at ((p - 1) / 2), u.edges e, u.edges p, u.edges c);
      }

  pub up_loop_settles :
      (k c : ℕ) (s : Slots)
      → c < k
      → Placed cap n s xs
      → Rising keys n s c
      → Settled (up_loop keys n k c s)
  unfolding up_loop
  up_loop_settles zero c s f v u = absurd (omega arith)
  up_loop_settles (suc k) c s f v u = elim (bool_cases (c == 0)) [
    | inl z ↦ rw (z, up_loop) (s, refl, v, λ e y l. ground (arith, u.edges e))
    | inr z ↦
        let p = (c - 1) / 2 in
        elim (bool_cases (leb (rank keys s p) (rank keys s c))) [
          | inl h ↦
              rw (z, h, up_loop)
                (
                  s,
                  refl,
                  v,
                  λ e y l. elim (ℕ_discrete e c) [
                    | yes q ↦ rw q (ground arith)
                    | no q ↦ u.edges e y l q
                  ],
                )
          | inr h ↦
              rw (z, h, up_loop)
                (up_loop_settles k p (swap p c s) (ground arith)
                  (swap-Placed cap n p c s xs (ground (arith, u.inside)) u.inside (ground arith) v)
                  (swap-Rising c s v u (ground arith) (ground arith)))
        ]
  ]

  pub shift_up_settles :
      (c : ℕ) (s : Slots) → Placed cap n s xs → Rising keys n s c → Settled (shift_up keys n c s)
  unfolding shift_up
  shift_up_settles c s v u = elim (ℕ_discrete c 0) [
    | yes q ↦ rw q (s, refl, v, λ e y l. u.edges e y l (omega arith))
    | no q ↦
        let a : leb c 0 ≡ false = ground arith in
        let b : leb n c ≡ false = ground (arith, u.inside) in
        rw (a, b) (up_loop_settles (c + 1) c s (omega arith) v u)
  ]
