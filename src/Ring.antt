-- ===== src/Ring.antt =====
-- Bytes laid round an array of `cap` bytes: the view that common/common_codequeue.h and
-- common/common_cyclebuffer.h share.
pub mod Blocks
use native.Mathlib.Nat.{mod-eq_of_lt, mod-eq-sub-mod}
use native.Mathlib.Decide.{dec_lt}
use lightframe.Common.{
  ℕ, zero, suc, ◌+◌, ◌-◌, ◌%◌, ◌≤◌, ◌<◌, ◌≡◌, ◌≢◌, refl, sym, ap, ap₂, ◌∙◌, List, [], ◌∷◌, ◌++◌,
  append-nil, append_assoc, arith, length, get_or, set, ltb, if◌then◌else◌, array_ext,
  length-append, length-set, get_or-set_ne, get_or-set, ◌==◌, get_or-append_left,
  get_or-append_right, read, write, take, drop, take-append, drop-append,
}

-- One turn of a modulus.
pub mod_once : (x cap : ℕ) → x < cap + cap → x % cap ≡ (if ltb x cap then x else x - cap)
mod_once x cap h = elim (dec_lt x cap) [
  | yes p ↦ ground (arith, mod-eq_of_lt p)
  | no p ↦
      let q : cap ≤ x = omega arith in
      let r : x - cap < cap = omega arith in ground (arith, mod-eq-sub-mod q, mod-eq_of_lt r)
]

module _ (cap : ℕ) where
  -- The n bytes from place h on, going round at `cap`.
  abbrev pub ring : List ℕ → ℕ → ℕ → List ℕ
  ring buf h zero = []
  ring buf h (suc n) = get_or buf h 0 ∷ ring buf ((h + 1) % cap) n

  -- Bytes stored one by one from place t on, going round at `cap`.
  abbrev pub put_ring : List ℕ → ℕ → List ℕ → List ℕ
  put_ring buf t [] = buf
  put_ring buf t (w ∷ ws) = put_ring (set buf t w) ((t + 1) % cap) ws

  pub length-ring : (buf : List ℕ) (h n : ℕ) → length (ring buf h n) ≡ n
  length-ring buf h zero = refl
  length-ring buf h (suc n) = ap suc (length-ring buf ((h + 1) % cap) n)

  pub length-put_ring :
      (buf : List ℕ) (t : ℕ) (ws : List ℕ) → length (put_ring buf t ws) ≡ length buf
  length-put_ring buf t [] = refl
  length-put_ring buf t (w ∷ ws) =
      length-put_ring (set buf t w) ((t + 1) % cap) ws ∙ length-set buf t w

  -- The place k steps after h.
  pub step : (h k : ℕ) → h < cap → k < cap → ((h + 1) % cap + k) % cap ≡ (h + suc k) % cap
  step h k p q =
      let r : (h + 1) % cap < cap = ground (arith, mod_once (h + 1) cap) in
      ground
        (arith, mod_once (h + 1) cap, mod_once ((h + 1) % cap + k) cap, mod_once (h + suc k) cap)

  pub get_or-ring :
      (buf : List ℕ) (h n i : ℕ)
      → h < cap
      → n ≤ cap
      → i < n
      → get_or (ring buf h n) i 0 ≡ get_or buf ((h + i) % cap) 0
  get_or-ring buf h zero i p q r = absurd (omega arith)
  get_or-ring buf h (suc n) zero p q r =
      let e : (h + zero) % cap ≡ h = ground (arith, mod_once (h + zero) cap) in rw e
  get_or-ring buf h (suc n) (suc i) p q r =
      let b : (h + 1) % cap < cap = ground (arith, mod_once (h + 1) cap) in
      get_or-ring buf ((h + 1) % cap) n i b (omega arith) (omega arith)
      ∙ rw (step h i p (omega arith))

  -- Bytes that do not pass the end are read in one block, and written in one block.
  pub ring-read : (buf : List ℕ) (h n : ℕ) → h + n ≤ cap → ring buf h n ≡ read buf h n
  unfolding read
  ring-read buf h zero p = refl
  ring-read buf h (suc zero) p = refl
  ring-read buf h (suc (suc n)) p =
      let e : (h + 1) % cap ≡ h + 1 = ground (arith, mod_once (h + 1) cap) in
      ap (◌∷◌ (get_or buf h 0)) (rw e (ring-read buf (h + 1) (suc n) (omega arith)))

  pub put_ring-write :
      (buf : List ℕ) (t : ℕ) (ws : List ℕ)
      → t + length ws ≤ cap
      → put_ring buf t ws ≡ write buf t ws
  unfolding write
  put_ring-write buf t [] p = refl
  put_ring-write buf t (w ∷ []) p = refl
  put_ring-write buf t (w ∷ v ∷ ws) p =
      let e : (t + 1) % cap ≡ t + 1 = ground (arith, mod_once (t + 1) cap) in
      rw e (put_ring-write (set buf t w) (t + 1) (v ∷ ws) (omega arith))

  pub ring-add :
      (buf : List ℕ) (h n m : ℕ)
      → h < cap
      → n ≤ cap
      → ring buf h (n + m) ≡ ring buf h n ++ ring buf ((h + n) % cap) m
  ring-add buf h zero m p q =
      let e : zero + m ≡ m = omega arith in
      let f : (h + zero) % cap ≡ h = ground (arith, mod_once (h + zero) cap) in rw (e, f)
  ring-add buf h (suc n) m p q =
      let e : suc n + m ≡ suc (n + m) = omega arith in
      let b : (h + 1) % cap < cap = ground (arith, mod_once (h + 1) cap) in
      rw e (
        ap (◌∷◌ (get_or buf h 0))
          (ring-add buf ((h + 1) % cap) n m b (omega arith) ∙ rw (step h n p (omega arith))))

  pub put_ring-append :
      (buf : List ℕ) (t : ℕ) (xs ys : List ℕ)
      → t < cap
      → length xs ≤ cap
      → put_ring buf t (xs ++ ys) ≡ put_ring (put_ring buf t xs) ((t + length xs) % cap) ys
  put_ring-append buf t [] ys p q =
      let f : (t + 0) % cap ≡ t = ground (arith, mod_once (t + 0) cap) in rw f
  put_ring-append buf t (x ∷ xs) ys p q =
      let b : (t + 1) % cap < cap = ground (arith, mod_once (t + 1) cap) in
      put_ring-append (set buf t x) ((t + 1) % cap) xs ys b (omega arith)
      ∙ rw (step t (length xs) p (omega arith))

  -- One byte stored just past n others extends them by that byte.
  ring-set :
      (buf : List ℕ) (h n x : ℕ)
      → cap ≤ length buf
      → h < cap
      → n < cap
      → ring (set buf ((h + n) % cap) x) h (n + 1) ≡ ring buf h n ++ x ∷ []
  ring-set buf h n x a p q =
      let t = (h + n) % cap in
      let tb : t < cap = ground (arith, mod_once (h + n) cap) in
      let buf' = set buf t x in
      array_ext _ _ 0
        (omega (
          arith,
          length-ring buf' h (n + 1),
          length-append (ring buf h n) (x ∷ []),
          length-ring buf h n,
        ))
        λ i r.
          let l = length-ring buf h n in
          let i' : i < n + 1 = omega (arith, length-ring buf' h (n + 1)) in
          get_or-ring buf' h (n + 1) i p (omega arith) i' ∙ (elim (dec_lt i n) [
            | yes lt ↦
                let apart : t ≢ (h + i) % cap =
                  λ e. absurd (ground (arith, mod_once (h + n) cap, mod_once (h + i) cap)) in
                get_or-set_ne buf t ((h + i) % cap) x 0 apart
                ∙ sym (
                    get_or-append_left (ring buf h n) (x ∷ []) i 0 (omega (arith, l))
                    ∙ get_or-ring buf h n i p (omega arith) lt)
            | no ge ↦
                let e : i ≡ n = omega arith in
                rw e (
                  ground (arith, get_or-set buf t t x 0)
                  ∙ sym (get_or-append_right (ring buf h n) (x ∷ []) n 0 0 (omega (arith, l))))
          ])

  -- A block stored just past n bytes extends them by that block.
  pub ring-put_ring :
      (buf : List ℕ) (h n : ℕ) (ws : List ℕ)
      → cap ≤ length buf
      → h < cap
      → n + length ws ≤ cap
      → ring (put_ring buf ((h + n) % cap) ws) h (n + length ws) ≡ ring buf h n ++ ws
  ring-put_ring buf h n [] a p q = let e : n + 0 ≡ n = omega arith in rw (e, append-nil)
  ring-put_ring buf h n (w ∷ ws) a p q =
      let t = (h + n) % cap in
      let buf' = set buf t w in
      let e : n + suc (length ws) ≡ n + 1 + length ws = omega arith in
      let f : (t + 1) % cap ≡ (h + (n + 1)) % cap =
        ground (arith, mod_once (h + n) cap, mod_once (t + 1) cap, mod_once (h + (n + 1)) cap) in
      rw (e, f)
        (ring-put_ring buf' h (n + 1) ws (omega (arith, length-set buf t w)) p (omega arith)
          ∙ ap (λ bytes. bytes ++ ws) (ring-set buf h n w a p (omega arith))
          ∙ append_assoc (ring buf h n) (w ∷ []) ws)

  -- A stretch of the ring in two parts.
  pub ring_split :
      (buf : List ℕ) (h n m : ℕ) (xs ys : List ℕ)
      → h < cap
      → n ≤ cap
      → n ≡ length xs
      → ring buf h (n + m) ≡ xs ++ ys
      → (ring buf h n ≡ xs) × (ring buf ((h + n) % cap) m ≡ ys)
  ring_split buf h n m xs ys p q e r =
      let l = length-ring buf h n in
      let rest = ring buf ((h + n) % cap) m in
      let whole = sym (ring-add buf h n m p q) ∙ r in
      (
        sym (take-append (ring buf h n) rest n (sym l)) ∙ ap (take n) whole ∙ take-append xs ys n e,
        sym (drop-append (ring buf h n) rest n (sym l)) ∙ ap (drop n) whole ∙ drop-append xs ys n e,
      )
