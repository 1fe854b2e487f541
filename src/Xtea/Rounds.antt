-- ===== src/Xtea/Rounds.antt =====
-- common/common_crypt.cpp: the loops of xtea end, and the one takes back what the other does.
use lightframe.Common.{
  ◌&&◌, ◌∙◌, ℕ, zero, suc, ◌+◌, ◌*◌, ◌%◌, ◌^◌, ◌<◌, ◌≡◌, refl, ap, true, false, some, List, arith,
  ltb, ◌==◌, add32, sub32,
}
use lightframe.Xtea.{delta, mix, mix_low, mix_high, encode_loop, decode_loop, xtea, negate}

-- The sum before round i.
abbrev sum_at : ℕ → ℕ
sum_at i = delta * i % 2 ^ 32

sum_next : (i : ℕ) → add32 (sum_at i) delta ≡ sum_at (suc i)
sum_next i = omega arith

sum_back : (i : ℕ) → sub32 (sum_at (suc i)) delta ≡ sum_at i
sum_back i = omega arith

-- DELTA is odd, so the sum does not come back within 2 ^ 32 rounds.
sum_apart : (i n : ℕ) → i < n → n < 2 ^ 32 → (sum_at i == sum_at n) ≡ false
sum_apart i n l b = ground arith

-- Two words of 32 bits.
abbrev pub Words : ℕ × ℕ → Type 0
Words (y, z) = (y < 2 ^ 32) × (z < 2 ^ 32)

module _ (key : List ℕ) where
  small_mix : (z sum i : ℕ) → mix key z sum i < 2 ^ 32
  unfolding mix
  small_mix z sum i = omega arith

  small_low : (z sum : ℕ) → mix_low key z sum < 2 ^ 32
  unfolding mix_low
  small_low z sum = small_mix z sum _

  small_high : (y sum : ℕ) → mix_high key y sum < 2 ^ 32
  unfolding mix_high
  small_high y sum = small_mix y sum _

  -- The words after i rounds.
  abbrev pub after : ℕ → ℕ × ℕ → ℕ × ℕ
  after zero v = v
  after (suc i) v =
      let (y, z) = after i v in
      let y' = add32 y (mix_low key z (sum_at i)) in
      (y', add32 z (mix_high key y' (sum_at (suc i))))

  after-Words : (i : ℕ) (v : ℕ × ℕ) → Words v → Words (after i v)
  after-Words zero v h = h
  after-Words (suc i) v h = (omega arith, omega arith)

  add-sub : (a m : ℕ) → a < 2 ^ 32 → m < 2 ^ 32 → sub32 (add32 a m) m ≡ a
  add-sub a m h l = omega arith

  -- From the words after i rounds on, encoding stops after round n.
  encodes :
      (r i n : ℕ) (v : ℕ × ℕ)
      → i + r ≡ n
      → n < 2 ^ 32
      → encode_loop key (r + 1) (sum_at n) (sum_at i) (after i v) ≡ some (after n v)
  unfolding encode_loop
  encodes zero i n v e b =
      let z : i ≡ n = omega arith in
      let t : (sum_at i == sum_at n) ≡ true = ground arith in rw t (ap (λ k. some (after k v)) z)
  encodes (suc r) i n v e b =
      let f : suc r + 1 ≡ suc (r + 1) = omega arith in
      rw (f, sum_apart i n (omega arith) b, sum_next i) (encodes r (suc i) n v (omega arith) b)

  -- From the words after i rounds on, decoding stops at the words before the first.
  decodes :
      (i : ℕ) (v : ℕ × ℕ)
      → Words v
      → i < 2 ^ 32
      → decode_loop key (i + 1) (sum_at i) (after i v) ≡ some v
  unfolding decode_loop
  decodes zero v h b = refl
  decodes (suc i) v h b =
      let f : suc i + 1 ≡ suc (i + 1) = omega arith in
      let t : (sum_at (suc i) == 0) ≡ false = ground arith in
      let w = after-Words i v h in
      let (y, z) = after i v in
      let y' = add32 y (mix_low key z (sum_at i)) in
      rw
        (
          f,
          t,
          sum_back i,
          add-sub z (mix_high key y' (sum_at (suc i))) w.1 (small_high y' (sum_at (suc i))),
          add-sub y (mix_low key z (sum_at i)) w.0 (small_low z (sum_at i)),
        )
        (decodes i v h (omega arith))

-- A positive number of rounds encodes, and its negation decodes in as many rounds.
xtea-encode_loop :
    (key : List ℕ) (n : ℕ) (v : ℕ × ℕ)
    → 0 < n
    → n < 2 ^ 31
    → xtea key n v ≡ encode_loop key (n + 1) (sum_at n) 0 v
unfolding xtea
xtea-encode_loop key n v p b = let t : ltb 0 n && ltb n (2 ^ 31) ≡ true = ground arith in rw t refl

xtea-decode_loop :
    (key : List ℕ) (n : ℕ) (v : ℕ × ℕ)
    → 0 < n
    → n < 2 ^ 31
    → xtea key (negate n) v ≡ decode_loop key (n + 1) (sum_at n) v
unfolding xtea negate
xtea-decode_loop key n v p b =
    let t : ltb 0 (negate n) && ltb (negate n) (2 ^ 31) ≡ false = ground arith in
    let e : negate (negate n) ≡ n = omega arith in rw (t, e) refl

-- For every key, every two words of 32 bits and every number of rounds from 1 to 2 ^ 31 - 1, the
-- positive values of the int32_t, xtea ends, its result are two words of 32 bits, and xtea with the
-- number of rounds negated ends on them with the words that were encoded.
pub xtea-xtea :
    (key : List ℕ) (n : ℕ) (v : ℕ × ℕ)
    → Words v
    → 0 < n
    → n < 2 ^ 31
    → (w : ℕ × ℕ) × (xtea key n v ≡ some w) × (xtea key (negate n) w ≡ some v) × Words w
xtea-xtea key n v h p b = (
  after key n v,
  xtea-encode_loop key n v p b ∙ encodes key n 0 n v (omega arith) (omega arith),
  xtea-decode_loop key n (after key n v) p b ∙ decodes key n v h (omega arith),
  after-Words key n v h,
)
