-- ===== src/Codec/Bytes.antt =====
-- The bytes of a number, in either order, give the number back.
use mathlib.Core.List.{reverse-reverse}
use native.Mathlib.Nat.{pow-suc}
use lightframe.Common.{ℕ, zero, suc, ◌/◌, ◌^◌, ◌<◌, ◌≡◌, refl, ap, Bool, true, false, arith, length}
use lightframe.Codec.{little, from_little, memory, value}

pub length-little : (w v : ℕ) → length (little w v) ≡ w
unfolding little
length-little zero v = refl
length-little (suc w) v = ap suc (length-little w (v / 256))

pub from_little-little : (w v : ℕ) → v < 256 ^ w → from_little (little w v) ≡ v
unfolding little from_little
from_little-little zero v h = omega arith
from_little-little (suc w) v h =
    let rest : v / 256 < 256 ^ w = omega (arith, pow-suc 256 w) in
    omega (arith, from_little-little w (v / 256) rest)

pub value-memory : (big : Bool) (w v : ℕ) → v < 256 ^ w → value big (memory big w v) ≡ v
unfolding value memory
value-memory true w v h = rw reverse-reverse (from_little-little w v h)
value-memory false w v h = from_little-little w v h
