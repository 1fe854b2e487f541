-- ===== src/Codec.antt =====
-- common/common_codeengine.cpp: the encoder and decoder of integers, byte blocks and strings.
-- `buf`, `size` and `offset` are the three arguments that every overload takes; `none` is NULL. What
-- a call writes through its reference arguments is returned beside its status.
pub mod Bytes
pub mod Values
pub mod Words
pub mod Read
pub mod Blocks
pub mod Strings
mod Tests
use mathlib.Core.List.{reverse}
use lightframe.Common.{
  ℕ, zero, suc, ◌+◌, ◌-◌, ◌*◌, ◌/◌, ◌%◌, ◌^◌, Bool, ◌||◌, Option, none, some, List, [], ◌∷◌, ltb,
  leb, ◌==◌, if◌then◌else◌, get_or, set, write, read, replicate, Status, ok, err, next, ◌>>◌,
}
use lightframe.Common.{invalid_argument, encode_buf_length, decode_buf_length, max_length}

pub record Stream : Type 0 where
  pub buf : Option (List ℕ)
  pub size : ℕ
  pub offset : ℕ

-- The w bytes of an unsigned number, the lowest first. A signed integer is its bit pattern.
unfoldable pub little : ℕ → ℕ → List ℕ
little zero v = []
little (suc w) v = (v % 256) ∷ little w (v / 256)

pub from_little : List ℕ → ℕ
from_little [] = 0
from_little (b ∷ bs) = b + 256 * from_little bs

-- `offset++` on a uint32_t
pub bump : ℕ → ℕ
bump offset = (offset + 1) % 2 ^ 32

-- `big` is `ms_endian.IsBigEndian()`, which the constructor of CEndian finds out from the machine.
module _ (big : Bool) where
  -- the w bytes at `(uint8_t*)&data`, and the value that they hold
  unfoldable pub memory : ℕ → ℕ → List ℕ
  memory w v = if big then reverse (little w v) else little w v

  pub value : List ℕ → ℕ
  value p = from_little (if big then reverse p else p)

  -- the index of `p` that round i of either loop reads or writes
  pub place : ℕ → ℕ → ℕ
  place w i = if big then i else w - i - 1

  -- the n rounds left of ENCODE's loop
  pub encode_loop : ℕ → List ℕ → ℕ → ℕ → List ℕ → ℕ → List ℕ × ℕ
  encode_loop w p zero i buf offset = (buf, offset)
  encode_loop w p (suc n) i buf offset =
      encode_loop w p n (i + 1) (set buf offset (get_or p (place w i) 0)) (bump offset)

  -- ENCODE at a type of w bytes. `offset + sizeof(type)` is a size_t, and does not wrap.
  pub encode_word : ℕ → ℕ → Stream → Status × Stream
  encode_word w v s = elim s.buf [
    | none ↦ (err invalid_argument, s)
    | some buf ↦
        if s.size == 0
        then (err invalid_argument, s)
        else if ltb s.size (s.offset + w)
        then (err encode_buf_length, s)
        else let (buf', offset') = encode_loop w (memory w v) w 0 buf s.offset in
          (ok, record s { buf = some buf'; offset = offset' })
  ]

  abbrev pub encode_int8 : ℕ → Stream → Status × Stream
  encode_int8 = encode_word 1

  abbrev pub encode_int16 : ℕ → Stream → Status × Stream
  encode_int16 = encode_word 2

  abbrev pub encode_int32 : ℕ → Stream → Status × Stream
  encode_int32 = encode_word 4

  abbrev pub encode_int64 : ℕ → Stream → Status × Stream
  encode_int64 = encode_word 8

  abbrev pub encode_uint8 : ℕ → Stream → Status × Stream
  encode_uint8 = encode_word 1

  abbrev pub encode_uint16 : ℕ → Stream → Status × Stream
  encode_uint16 = encode_word 2

  abbrev pub encode_uint32 : ℕ → Stream → Status × Stream
  encode_uint32 = encode_word 4

  abbrev pub encode_uint64 : ℕ → Stream → Status × Stream
  encode_uint64 = encode_word 8

  unfoldable pub encode_bool : Bool → Stream → Status × Stream
  encode_bool b = encode_uint8 (if b then 1 else 0)

  -- the n rounds left of DECODE's loop
  pub decode_loop : ℕ → List ℕ → ℕ → ℕ → List ℕ → ℕ → List ℕ × ℕ
  decode_loop w buf zero i p offset = (p, offset)
  decode_loop w buf (suc n) i p offset =
      decode_loop w buf n (i + 1) (set p (place w i) (get_or buf offset 0)) (bump offset)

  -- DECODE at a type of w bytes, over the variable `data` and the stream.
  pub decode_word : ℕ → ℕ × Stream → Status × (ℕ × Stream)
  decode_word w (v, s) = elim s.buf [
    | none ↦ (err invalid_argument, (v, s))
    | some buf ↦
        if s.size == 0
        then (err invalid_argument, (v, s))
        else if ltb s.size (s.offset + w)
        then (err decode_buf_length, (v, s))
        else let (p, offset') = decode_loop w buf w 0 (memory w v) s.offset in
          (ok, (value p, record s { offset = offset' }))
  ]

  abbrev pub decode_int8 : ℕ × Stream → Status × (ℕ × Stream)
  decode_int8 = decode_word 1

  abbrev pub decode_int16 : ℕ × Stream → Status × (ℕ × Stream)
  decode_int16 = decode_word 2

  abbrev pub decode_int32 : ℕ × Stream → Status × (ℕ × Stream)
  decode_int32 = decode_word 4

  abbrev pub decode_int64 : ℕ × Stream → Status × (ℕ × Stream)
  decode_int64 = decode_word 8

  abbrev pub decode_uint8 : ℕ × Stream → Status × (ℕ × Stream)
  decode_uint8 = decode_word 1

  abbrev pub decode_uint16 : ℕ × Stream → Status × (ℕ × Stream)
  decode_uint16 = decode_word 2

  abbrev pub decode_uint32 : ℕ × Stream → Status × (ℕ × Stream)
  decode_uint32 = decode_word 4

  abbrev pub decode_uint64 : ℕ × Stream → Status × (ℕ × Stream)
  decode_uint64 = decode_word 8

  -- Decode(..., bool&): the flag is written only if the byte was decoded.
  unfoldable pub decode_bool : Bool × Stream → Status × (Bool × Stream)
  decode_bool (b, s) =
      let (ret, (v, s')) = decode_uint8 (0, s) in
      elim ret [
        | ok ↦ (ok, (if v == 0 then Bool.false else Bool.true, s'))
        | err e ↦ (err e, (b, s'))
      ]
