-- ===== src/Xtea/Bits.antt =====
-- Bytes under exclusive or, and the low three bits of a byte: facts checked on every byte.
use Prim.Native.Nat.{bit_and, bit_or, bit_xor}
use lightframe.Common.{
  bool_cases, ℕ, zero, suc, ◌<◌, ◌≡◌, refl, ap, ◌∙◌, inl, inr, Bool, true, false, ltb, ◌&&◌, ◌==◌,
  if◌then◌else◌, arith,
}

-- A test that every number below the bound passes.
passes : (ℕ → Bool) → ℕ → Bool
passes test zero = true
passes test (suc bound) = if test bound then passes test bound else false

passed :
    (test : ℕ → Bool) (bound : ℕ) → passes test bound ≡ true → (v : ℕ) → v < bound → test v ≡ true
unfolding passes
passed test zero all v below = absurd (omega arith)
passed test (suc bound) all v below = elim (bool_cases (test bound)) [
  | inl here ↦ elim (bool_cases (v == bound)) [
    | inl top ↦ ap test (ground arith) ∙ here
    | inr under ↦ passed test bound (rw here at all) v (ground arith)
  ]
  | inr here ↦ absurd (ground arith)
]

byte_xor : ℕ → ℕ → Bool
byte_xor v w = bit_xor (bit_xor v w) w == v && ltb (bit_xor v w) 256

every_byte_xor : passes (λ v. passes (byte_xor v) 256) 256 ≡ true
unfolding passes byte_xor
every_byte_xor = refl

pub xor_bytes : (v w : ℕ) → v < 256 → w < 256 → (bit_xor (bit_xor v w) w ≡ v) × (bit_xor v w < 256)
unfolding byte_xor
xor_bytes v w a b =
    let row = passed (λ u. passes (byte_xor u) 256) 256 every_byte_xor v a in
    ground (arith, passed (byte_xor v) 256 row w b)

byte_head : ℕ → ℕ → Bool
byte_head noise pad =
    let head = bit_or (bit_and noise 0xf8) pad in bit_and head 7 == pad && ltb head 256

every_byte_head : passes (λ noise. passes (byte_head noise) 8) 256 ≡ true
unfolding passes byte_head
every_byte_head = refl

-- The first byte of a plain text holds the number of pad bytes in its low three bits.
pub head_byte :
    (noise pad : ℕ)
    → noise < 256
    → pad < 8
    → (bit_and (bit_or (bit_and noise 0xf8) pad) 7 ≡ pad) × (bit_or (bit_and noise 0xf8) pad < 256)
unfolding byte_head
head_byte noise pad a b =
    let row = passed (λ u. passes (byte_head u) 8) 256 every_byte_head noise a in
    ground (arith, passed (byte_head noise) 8 row pad b)
