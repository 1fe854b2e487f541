-- ===== src/Codec/Strings.antt =====
-- common/common_codeengine.cpp: the round trip of a string, and two inputs that the checks let pass.
use lightframe.Common.{
  ℕ, zero, ◌+◌, ◌-◌, ◌%◌, ◌^◌, ◌≤◌, ◌<◌, ◌≡◌, ◌≢◌, refl, sym, ap, ◌∙◌, Bool, some, List, [], ◌∷◌,
  ◌++◌, arith, length, write, read, length-write, length-append, write-append, read-write,
  read_split, write_whole, set_out, read_prefix, write_text, drop, suc, set-write, ok,
}
use lightframe.Codec.Blocks.{encode_block, decode_block, strlen, encode_string, decode_string}
use lightframe.Codec.Words.{
  Fits, stream, wire, from_wire, length-wire, from_wire-wire, encode_word_lem,
}
use lightframe.Codec.Read.{decode_word_lem}

-- No character of a C string is NUL.
abbrev pub NoNul : List ℕ → Type 0
NoNul [] = Unit
NoNul (c ∷ cs) = (c ≢ 0) × NoNul cs

pub strlen_terminated : (str junk : List ℕ) → NoNul str → strlen (str ++ 0 ∷ junk) ≡ length str
unfolding strlen
strlen_terminated [] junk h = refl
strlen_terminated (c ∷ cs) junk h = ground (arith, strlen_terminated cs junk h.1)

encode_block_lem :
    (src buf : List ℕ) (len limit size offset : ℕ)
    → Fits buf size offset len
    → len ≤ limit
    → encode_block (some src) len limit (stream buf size offset)
      ≡ (ok, stream (write buf offset (read src 0 len)) size (offset + len))
unfolding encode_block read write
encode_block_lem src buf zero limit size offset f h = ground arith
encode_block_lem src buf len limit size offset f h = ground arith

decode_block_lem :
    (dst buf : List ℕ) (len limit size offset : ℕ)
    → Fits buf size offset len
    → len ≤ limit
    → decode_block len limit (some dst, stream buf size offset)
      ≡ (ok, (some (write dst 0 (read buf offset len)), stream buf size (offset + len)))
unfolding decode_block read write
decode_block_lem dst buf zero limit size offset f h = ground arith
decode_block_lem dst buf len limit size offset f h = ground arith

-- A string on the wire: its length in two bytes, and its characters.
abbrev pub wire_string : List ℕ → List ℕ
wire_string str = wire 2 (length str) ++ str

module _ (big : Bool) (str : List ℕ) (limit size offset : ℕ) where
  -- Encode at a C string writes its length and its characters, without the NUL, where they fit.
  pub encode_string_lem :
      (junk buf : List ℕ)
      → NoNul str
      → 0 < limit
      → length str ≤ limit
      → length str < 2 ^ 16
      → Fits buf size offset (2 + length str)
      → encode_string big (some (str ++ 0 ∷ junk)) limit (stream buf size offset)
        ≡ (ok, stream (write buf offset (wire_string str)) size (offset + 2 + length str))
  unfolding encode_string
  encode_string_lem junk buf n z l s f =
      let len = length str in
      let short : strlen (str ++ 0 ∷ junk) % 2 ^ 16 ≡ len =
        omega (arith, strlen_terminated str junk n) in
      let buf' = write buf offset (wire 2 len) in
      let head : Fits buf size offset 2 = omega arith in
      let rest : Fits buf' size (offset + 2) len =
        omega (arith, length-write buf offset (wire 2 len)) in
      let tail = encode_block_lem (str ++ 0 ∷ junk) buf' len limit size (offset + 2) rest l in
      ground (
        arith,
        short,
        encode_word_lem big 2 len buf size offset head,
        tail,
        read_prefix str (0 ∷ junk) len,
        write-append buf offset (wire 2 len) str,
        length-wire 2 len,
      )

empty_of_length : (str : List ℕ) → length str ≡ 0 → str ≡ []
empty_of_length [] e = refl
empty_of_length (c ∷ cs) e = absurd (omega arith)

-- Decode at a C string reads back what the wire holds, and writes a NUL behind it, which an array
-- without room for it does not keep.
pub decode_string_lem :
    (big : Bool) (str : List ℕ) (limit size offset : ℕ) (dst buf : List ℕ)
    → 0 < limit
    → length str ≤ limit
    → length str < 2 ^ 16
    → Fits buf size offset (2 + length str)
    → read buf offset (2 + length str) ≡ wire_string str
    → decode_string big limit (dst, stream buf size offset)
      ≡ (ok, (write dst 0 (str ++ 0 ∷ []), stream buf size (offset + 2 + length str)))
unfolding decode_string write
decode_string_lem big str limit size offset dst buf z l s f e =
    let len = length str in
    let parts = read_split buf offset 2 len (wire 2 len) str (sym (length-wire 2 len)) e in
    let head =
      decode_word_lem big 2 0 buf size offset (omega arith)
      ∙ ap (λ v. (ok, (v, stream buf size (offset + 2))))
          (ap from_wire parts.0 ∙ from_wire-wire 2 len (omega arith)) in
    let tail = decode_block_lem dst buf len limit size (offset + 2) (omega arith) l in
    ground (
      arith,
      head,
      tail,
      parts.1,
      empty_of_length str,
      set-write dst 0 len str 0,
      write-append dst 0 str (0 ∷ []),
    )

-- A C string with no more characters than the limit and fewer than 2 ^ 16, which fits the buffer,
-- comes back: encoded on one machine and decoded on another into an array with room for it and its
-- NUL, it stands at the start of that array with its NUL, the rest of which stays, and both offsets
-- end in the same place.
pub decode_string-encode_string :
    (big big' : Bool) (str junk dst buf : List ℕ) (limit size offset : ℕ)
    → NoNul str
    → 0 < limit
    → length str ≤ limit
    → length str < 2 ^ 16
    → length str < length dst
    → Fits buf size offset (2 + length str)
    → let (ret, s) = encode_string big (some (str ++ 0 ∷ junk)) limit (stream buf size offset) in
      (ret ≡ ok)
      × (decode_string big' limit (dst, record s { offset = offset })
          ≡ (ok, (str ++ 0 ∷ drop (suc (length str)) dst, s)))
decode_string-encode_string big big' str junk dst buf limit size offset n z l s room f =
    let bytes = wire_string str in
    let buf' = write buf offset bytes in
    let len : length bytes ≡ 2 + length str =
      length-append (wire 2 (length str)) str
      ∙ ap (λ k. k + length str) (length-wire 2 (length str)) in
    let f' : Fits buf' size offset (2 + length str) = record {
      nonempty = f.nonempty;
      room = f.room;
      allocated = omega (arith, length-write buf offset bytes, f.allocated);
      small = f.small;
    } in
    rw (encode_string_lem big str limit size offset junk buf n z l s f) (
      refl,
      decode_string_lem big' str limit size offset dst buf' z l s f'
            (read-write buf offset bytes (2 + length str) (sym len) (omega arith))
          ∙ ap (λ xs. (ok, (xs, stream buf' size (offset + 2 + length str))))
              (write_text dst str room),
    )

-- The length of a string is cast to 16 bits before it is compared with the limit: a string of at
-- least 2 ^ 16 characters is not refused. Exactly its length modulo 2 ^ 16 is encoded, with as many
-- of its first characters, and the call reports success.
pub encode_string_truncates :
    (big : Bool) (str junk buf : List ℕ) (limit size offset : ℕ)
    → NoNul str
    → 2 ^ 16 ≤ length str
    → 0 < limit
    → length str % 2 ^ 16 ≤ limit
    → Fits buf size offset (2 + length str % 2 ^ 16)
    → encode_string big (some (str ++ 0 ∷ junk)) limit (stream buf size offset) ≡ (
      ok,
      stream
          (write
            (write buf offset (wire 2 (length str % 2 ^ 16)))
            (offset + 2)
            (read (str ++ 0 ∷ junk) 0 (length str % 2 ^ 16)))
          size
          (offset + 2 + length str % 2 ^ 16),
    )
unfolding encode_string
encode_string_truncates big str junk buf limit size offset n long z l f =
    let len = length str % 2 ^ 16 in
    let cast : strlen (str ++ 0 ∷ junk) % 2 ^ 16 ≡ len =
      ap (λ k. k % 2 ^ 16) (strlen_terminated str junk n) in
    let buf' = write buf offset (wire 2 len) in
    let rest : Fits buf' size (offset + 2) len =
      omega (arith, length-write buf offset (wire 2 len)) in
    ground (
      arith,
      cast,
      encode_word_lem big 2 len buf size offset (omega arith),
      encode_block_lem (str ++ 0 ∷ junk) buf' len limit size (offset + 2) rest l,
    )

-- The sum of offset and length is a uint32_t: where it wraps to at most the size, encoding and
-- decoding a block that does not fit pass the check. What the copy past the array does is undefined
-- in the code; here it changes nothing, and the offset then moves back.
pub block_check_wraps :
    (src dst buf : List ℕ) (len limit size offset : ℕ)
    → 0 < size
    → offset < 2 ^ 32
    → len < 2 ^ 32
    → len ≤ limit
    → 2 ^ 32 ≤ offset + len
    → offset + len - 2 ^ 32 ≤ size
    → let (ret, s) = encode_block (some src) len limit (stream buf size offset) in
      let (ret', (dst', s')) = decode_block len limit (some dst, stream buf size offset) in
      (ret ≡ ok)
      × (s.offset ≡ offset + len - 2 ^ 32)
      × (ret' ≡ ok)
      × (s'.offset ≡ offset + len - 2 ^ 32)
unfolding encode_block decode_block
block_check_wraps src dst buf len limit size offset z o k l w h = ground arith

-- A string on the wire that is as long as the limit is accepted, and its NUL is written one place past
-- a destination of that many characters (as both callers of this overload pass it, with sizeof): the
-- array itself ends up holding the characters alone.
pub decode_string_unterminated :
    (big : Bool) (str dst buf : List ℕ) (limit size offset : ℕ)
    → 0 < limit
    → limit ≡ length str
    → limit ≡ length dst
    → length str < 2 ^ 16
    → Fits buf size offset (2 + length str)
    → read buf offset (2 + length str) ≡ wire_string str
    → decode_string big limit (dst, stream buf size offset)
      ≡ (ok, (str, stream buf size (offset + 2 + length str)))
decode_string_unterminated big str dst buf limit size offset z l d s f e =
    let whole = write_whole dst str (sym d ∙ l) in
    decode_string_lem big str limit size offset dst buf z (omega arith) s f e
    ∙ rw (
      ← set-write dst 0 (length str) str 0 (omega arith),
      whole,
      set_out str (length str) 0 (omega arith),
    )
