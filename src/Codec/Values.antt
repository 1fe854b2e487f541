-- ===== src/Codec/Values.antt =====
-- common/common_codeengine.cpp: bytes as numbers, and back.
use mathlib.Core.List.{reverse, reverse-reverse, reverse-cons}
use lightframe.Common.{
  ℕ, zero, suc, ◌+◌, ◌*◌, ◌/◌, ◌%◌, ◌^◌, ◌<◌, ◌≡◌, refl, ap, ◌∙◌, Bool, true, false, List, [], ◌∷◌,
  arith, length, length-reverse,
}
use lightframe.Codec.{memory, value, little, from_little}
use lightframe.Pool.Links.{All, All-append}

abbrev pub Bytes : List ℕ → Type 0
Bytes bs = All (λ b. b < 256) bs

little-Bytes : (w v : ℕ) → Bytes (little w v)
unfolding little
little-Bytes zero v = tt
little-Bytes (suc w) v = (omega arith, little-Bytes w (v / 256))

little-from_little :
    (w : ℕ) (bs : List ℕ) → length bs ≡ w → Bytes bs → little w (from_little bs) ≡ bs
unfolding little from_little
little-from_little zero [] e h = refl
little-from_little (suc w) [] e h = absurd (omega arith)
little-from_little zero (b ∷ bs) e h = absurd (omega arith)
little-from_little (suc w) (b ∷ bs) e h =
    let r : (b + 256 * from_little bs) % 256 ≡ b = omega (arith, h.0) in
    let q : (b + 256 * from_little bs) / 256 ≡ from_little bs = omega (arith, h.0) in
    rw (r, q) (ap (◌∷◌ b) (little-from_little w bs (omega arith) h.1))

from_little-small : (bs : List ℕ) → length bs ≡ 4 → Bytes bs → from_little bs < 2 ^ 32
unfolding from_little
from_little-small (a ∷ b ∷ c ∷ d ∷ []) e h = omega (arith, h.0, h.1.0, h.1.1.0, h.1.1.1.0)
from_little-small _ e h = absurd (omega arith)

reverse-Bytes : (bs : List ℕ) → Bytes bs → Bytes (reverse bs)
reverse-Bytes [] h = tt
reverse-Bytes (b ∷ bs) h =
    rw (reverse-cons b bs) (All-append _ (reverse bs) (b ∷ []) (reverse-Bytes bs h.1) (h.0, tt))

-- The number that four bytes stand for, and the bytes in memory that stand for it.
pub value-small : (big : Bool) (bs : List ℕ) → length bs ≡ 4 → Bytes bs → value big bs < 2 ^ 32
unfolding value
value-small true bs e h =
    from_little-small (reverse bs) (length-reverse bs ∙ e) (reverse-Bytes bs h)
value-small false bs e h = from_little-small bs e h

pub memory-value :
    (big : Bool) (bs : List ℕ) → length bs ≡ 4 → Bytes bs → memory big 4 (value big bs) ≡ bs
unfolding memory value
memory-value true bs e h =
    ap reverse (little-from_little 4 (reverse bs) (length-reverse bs ∙ e) (reverse-Bytes bs h))
    ∙ reverse-reverse bs
memory-value false bs e h = little-from_little 4 bs e h

pub memory-Bytes : (big : Bool) (w v : ℕ) → Bytes (memory big w v)
unfolding memory
memory-Bytes true w v = reverse-Bytes (little w v) (little-Bytes w v)
memory-Bytes false w v = little-Bytes w v
