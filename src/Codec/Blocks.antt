-- ===== src/Codec/Blocks.antt =====
-- common/common_codeengine.cpp: byte blocks and strings.
use lightframe.Common.{
  ℕ, suc, ◌+◌, ◌%◌, ◌^◌, Bool, Option, none, some, List, [], ◌∷◌, ltb, ◌==◌, if◌then◌else◌, set,
  write, read, Status, ok, err, ◌>>◌, invalid_argument, encode_buf_length, decode_buf_length,
  max_length,
}
use lightframe.Codec.{Stream, encode_uint16, decode_uint16}

-- Encode(..., const uint8_t*, length, maxLength). `offset + length` is a uint32_t, and wraps.
unfoldable pub encode_block : Option (List ℕ) → ℕ → ℕ → Stream → Status × Stream
encode_block bytes len limit s = elim s.buf [
  | none ↦ (err invalid_argument, s)
  | some buf ↦ if s.size == 0 then (err invalid_argument, s) else elim bytes [
    | none ↦ (ok, s)
    | some src ↦
        if len == 0
        then (ok, s)
        else if ltb s.size ((s.offset + len) % 2 ^ 32)
        then (err encode_buf_length, s)
        else if ltb limit len
        then (err max_length, s)
        else (
          ok,
          record s {
            buf = some (write buf s.offset (read src 0 len));
            offset = (s.offset + len) % 2 ^ 32;
          },
        )
  ]
]

-- Decode(..., uint8_t*, length, maxLength), over the destination and the stream.
unfoldable pub decode_block : ℕ → ℕ → Option (List ℕ) × Stream → Status × (Option (List ℕ) × Stream)
decode_block len limit (dst, s) = elim s.buf [
  | none ↦ (err invalid_argument, (dst, s))
  | some buf ↦ if s.size == 0 then (err invalid_argument, (dst, s)) else elim dst [
    | none ↦ (ok, (none, s))
    | some bytes ↦
        if len == 0
        then (ok, (some bytes, s))
        else if ltb s.size ((s.offset + len) % 2 ^ 32)
        then (err decode_buf_length, (some bytes, s))
        else if ltb limit len
        then (err max_length, (some bytes, s))
        else (
          ok,
          (
            some (write bytes 0 (read buf s.offset len)),
            record s { offset = (s.offset + len) % 2 ^ 32 },
          ),
        )
  ]
]

-- strlen: the characters before the first NUL.
unfoldable pub strlen : List ℕ → ℕ
strlen [] = 0
strlen (c ∷ cs) = elim (c == 0) [ Bool.true ↦ 0 | Bool.false ↦ suc (strlen cs) ]

module _ (big : Bool) where
  -- Encode(..., const char*, maxLength): a 16-bit length, and the characters.
  unfoldable pub encode_string : Option (List ℕ) → ℕ → Stream → Status × Stream
  encode_string str limit s = elim s.buf [
    | none ↦ (err invalid_argument, s)
    | some _ ↦ if s.size == 0 then (err invalid_argument, s) else elim str [
      | none ↦ (err invalid_argument, s)
      | some chars ↦
          if limit == 0
          then (err max_length, s)
          else let len = strlen chars % 2 ^ 16 in
            (encode_uint16 big len >> encode_block (some chars) len limit) s
    ]
  ]

  -- Decode(..., char*, maxLength), over the destination array and the stream. The NUL is stored behind
  -- the characters: past the destination, which is undefined in the code, it changes nothing here.
  unfoldable pub decode_string : ℕ → List ℕ × Stream → Status × (List ℕ × Stream)
  decode_string limit (chars, s) =
      if limit == 0
      then (err max_length, (chars, s))
      else let (ret, (len, s')) = decode_uint16 big (0, s) in
        elim ret [
          | err e ↦ (err e, (chars, s'))
          | ok ↦
              if len == 0
              then (ok, (set chars 0 0, s'))
              else let (ret', (dst, s'')) = decode_block len limit (some chars, s') in
                let chars' : List ℕ = elim dst [ some c ↦ c | none ↦ chars ] in
                elim ret' [ err e ↦ (err e, (chars', s'')) | ok ↦ (ok, (set chars' len 0, s'')) ]
        ]
