-- ===== src/Xtea.antt =====
-- common/common_crypt.cpp: the cipher xtea, on two words of 32 bits. An int32_t is taken as its bit
-- pattern, as the conversions to uint32_t do.
pub mod Rounds
pub mod Bits
pub mod Cipher
pub mod Blocks
pub mod Chain
pub mod Trips
mod Tests
use Prim.Native.Nat.{bit_and, bit_xor}
use lightframe.Common.{
  ℕ, zero, suc, ◌+◌, ◌-◌, ◌*◌, ◌/◌, ◌%◌, ◌^◌, Bool, true, false, not, ◌&&◌, Option, none, some,
  List, ltb, ◌==◌, if◌then◌else◌, get_or, add32, sub32,
}

-- DELTA
abbrev pub delta : ℕ
delta = 0x9e37_79b9

-- `-N` of an int32_t N, as its bit pattern
unfoldable pub negate : ℕ → ℕ
negate n = sub32 0 n

-- The key is four words.
module _ (key : List ℕ) where
  -- `(z<<4 ^ z>>5) + z ^ sum + k[...]`, where the sum binds before the last ^
  unfoldable pub mix : ℕ → ℕ → ℕ → ℕ
  mix z sum i =
      bit_xor (add32 (bit_xor (z * 2 ^ 4 % 2 ^ 32) (z / 2 ^ 5)) z) (add32 sum (get_or key i 0))
      % 2 ^ 32

  -- the two halves of a round
  unfoldable pub mix_low : ℕ → ℕ → ℕ
  mix_low z sum = mix z sum (bit_and sum 3)

  unfoldable pub mix_high : ℕ → ℕ → ℕ
  mix_high y sum = mix y sum (bit_and (sum / 2 ^ 11) 3)

  -- The loops give `none` where the fuel ends before they do.
  unfoldable pub encode_loop : ℕ → ℕ → ℕ → ℕ × ℕ → Option (ℕ × ℕ)
  encode_loop zero limit sum (y, z) = none
  encode_loop (suc n) limit sum (y, z) =
      let y' = add32 y (mix_low z sum) in
      let sum' = add32 sum delta in
      let z' = add32 z (mix_high y' sum') in
      let rest = encode_loop n limit sum' (y', z') in if sum == limit then some (y, z) else rest

  unfoldable pub decode_loop : ℕ → ℕ → ℕ × ℕ → Option (ℕ × ℕ)
  decode_loop zero sum (y, z) = none
  decode_loop (suc n) sum (y, z) =
      let z' = sub32 z (mix_high y sum) in
      let sum' = sub32 sum delta in
      let y' = sub32 y (mix_low z' sum') in
      let rest = decode_loop n sum' (y', z') in if sum == 0 then some (y, z) else rest

  -- xtea(v, o, k, N) at the bit pattern of the int32_t N, which is below 2 ^ 32
  unfoldable pub xtea : ℕ → ℕ × ℕ → Option (ℕ × ℕ)
  xtea n v =
      if ltb 0 n && ltb n (2 ^ 31)
      then encode_loop (n + 1) (delta * n % 2 ^ 32) 0 v
      else let rounds = negate n in decode_loop (rounds + 1) (delta * rounds % 2 ^ 32) v
