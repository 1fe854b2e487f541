-- ===== src/Codec/Words.antt =====
-- common/common_codeengine.cpp: what ENCODE writes and what DECODE reads, on either kind of machine.
use mathlib.Core.List.{reverse, reverse-reverse}
use lightframe.Common.{
  ℕ, zero, suc, ◌+◌, ◌-◌, ◌%◌, ◌^◌, ◌≤◌, ◌<◌, ◌≡◌, refl, sym, ap, ◌∙◌, Bool, true, false, some,
  List, [], ◌∷◌, arith, length, get_or, set, get_or-reverse, length-reverse, array_ext, write, ok,
  if◌then◌else◌,
}
use lightframe.Codec.{
  Stream, little, from_little, bump, memory, value, place, encode_loop, encode_word,
}
use lightframe.Codec.Bytes.{length-little, from_little-little}

abbrev pub stream : List ℕ → ℕ → ℕ → Stream
stream buf size offset = record { buf = some buf; size = size; offset = offset }

-- The next w bytes lie inside the declared size, which lies inside the allocated array.
pub record Fits (buf : List ℕ) (size offset w : ℕ) : Type 0 where
  pub nonempty : 0 < size
  pub room : offset + w ≤ size
  pub allocated : size ≤ length buf
  pub small : size < 2 ^ 32

-- The bytes of a number on the wire, the highest first.
abbrev pub wire : ℕ → ℕ → List ℕ
wire w v = reverse (little w v)

-- The number that wire bytes stand for.
abbrev pub from_wire : List ℕ → ℕ
from_wire bytes = from_little (reverse bytes)

pub length-wire : (w v : ℕ) → length (wire w v) ≡ w
length-wire w v = length-reverse (little w v) ∙ length-little w v

pub from_wire-wire : (w v : ℕ) → v < 256 ^ w → from_wire (wire w v) ≡ v
from_wire-wire w v h = rw (reverse-reverse (little w v)) (from_little-little w v h)

-- Wire bytes as they lie in the machine's memory.
abbrev pub arrange : Bool → List ℕ → List ℕ
arrange big bytes = if big then bytes else reverse bytes

pub length-arrange : (big : Bool) (bytes : List ℕ) → length (arrange big bytes) ≡ length bytes
length-arrange true bytes = refl
length-arrange false bytes = length-reverse bytes

pub memory-arrange : (big : Bool) (w v : ℕ) → memory big w v ≡ arrange big (wire w v)
unfolding memory
memory-arrange true w v = refl
memory-arrange false w v = sym (reverse-reverse (little w v))

pub value-arrange : (big : Bool) (bytes : List ℕ) → value big (arrange big bytes) ≡ from_wire bytes
unfolding value
value-arrange true bytes = refl
value-arrange false bytes = refl

pub get_or-arrange :
    (big : Bool) (bytes : List ℕ) (w k : ℕ)
    → length bytes ≡ w
    → k < w
    → get_or (arrange big bytes) (place big w k) 0 ≡ get_or bytes k 0
unfolding place
get_or-arrange true bytes w k e h = refl
get_or-arrange false bytes w k e h = get_or-reverse bytes (w - k - 1) k 0 (omega arith)

pub place-place :
    (big : Bool) (w k : ℕ) → k < w → (place big w k < w) × (place big w (place big w k) ≡ k)
unfolding place
place-place true w k h = (h, refl)
place-place false w k h = omega arith

-- ENCODE's loop is one write of the bytes it picks.
picks : Bool → ℕ → List ℕ → ℕ → ℕ → List ℕ
picks big w p zero i = []
picks big w p (suc n) i = get_or p (place big w i) 0 ∷ picks big w p n (i + 1)

length-picks : (big : Bool) (w : ℕ) (p : List ℕ) (n i : ℕ) → length (picks big w p n i) ≡ n
unfolding picks
length-picks big w p zero i = refl
length-picks big w p (suc n) i = ap suc (length-picks big w p n (i + 1))

get_or-picks :
    (big : Bool) (w : ℕ) (p : List ℕ) (n i k : ℕ)
    → k < n
    → get_or (picks big w p n i) k 0 ≡ get_or p (place big w (i + k)) 0
unfolding picks
get_or-picks big w p zero i k h = absurd (omega arith)
get_or-picks big w p (suc n) i zero h = let e : i + zero ≡ i = omega arith in rw e
get_or-picks big w p (suc n) i (suc k) h =
    let e : i + suc k ≡ i + 1 + k = omega arith in
    rw e (get_or-picks big w p n (i + 1) k (omega arith))

picks-memory : (big : Bool) (w v : ℕ) → picks big w (memory big w v) w 0 ≡ wire w v
picks-memory big w v = array_ext _ _ 0 (length-picks big w _ w 0 ∙ sym (length-wire w v)) λ k h.
    let h' : k < w = omega (arith, length-picks big w (memory big w v) w 0) in
    get_or-picks big w (memory big w v) w 0 k h'
    ∙ (let e : 0 + k ≡ k = omega arith in
        rw (e, memory-arrange big w v) (get_or-arrange big (wire w v) w k (length-wire w v) h'))

encode_loop-write :
    (big : Bool) (w : ℕ) (p : List ℕ) (n i : ℕ) (buf : List ℕ) (offset : ℕ)
    → offset + n < 2 ^ 32
    → encode_loop big w p n i buf offset ≡ (write buf offset (picks big w p n i), offset + n)
unfolding encode_loop picks write bump
encode_loop-write big w p zero i buf offset h = let e : offset + 0 ≡ offset = omega arith in rw e
encode_loop-write big w p (suc n) i buf offset h =
    let e : (offset + 1) % 2 ^ 32 ≡ offset + 1 = omega arith in
    let f : offset + suc n ≡ offset + 1 + n = omega arith in
    rw (e, f)
      (encode_loop-write big w p n (i + 1) (set buf offset (get_or p (place big w i) 0))
        (offset + 1) (omega arith))

-- Encode at an integer type of w bytes succeeds where they fit, and writes the wire bytes of the
-- value at the offset, on a big-endian machine as on a little-endian one; the offset moves past them.
pub encode_word_lem :
    (big : Bool) (w v : ℕ) (buf : List ℕ) (size offset : ℕ)
    → Fits buf size offset w
    → encode_word big w v (stream buf size offset)
      ≡ (ok, stream (write buf offset (wire w v)) size (offset + w))
unfolding encode_word
encode_word_lem big w v buf size offset f =
    let loop = encode_loop-write big w (memory big w v) w 0 buf offset (omega arith) in
    ground (arith, loop, picks-memory big w v)
