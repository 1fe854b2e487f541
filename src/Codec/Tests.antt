-- ===== src/Codec/Tests.antt =====
-- Runs of the encoder, and the theorems about it at concrete inputs.
use lightframe.Common.{
  ℕ, zero, suc, ◌+◌, ◌^◌, ◌%◌, ◌≡◌, refl, true, false, some, none, List, [], ◌∷◌, ◌++◌, arith,
  replicate, length, length-replicate, read, write, ok, err, invalid_argument,
}
use lightframe.Codec.{
  little, memory, place, bump, encode_word, decode_word, encode_loop, encode_int32,
}
use lightframe.Codec.Blocks.{encode_block, encode_string, decode_string, strlen}
use lightframe.Codec.Words.{Fits, stream, wire}
use lightframe.Codec.Read.{decode_word-encode_word}
use lightframe.Codec.Strings.{
  NoNul, decode_string-encode_string, encode_string_truncates, decode_string_unterminated,
}

abbrev room : List ℕ
room = replicate 8 0

abbrev word : ℕ
word = 0x0102_0304

abbrev hi : List ℕ
hi = b'h' ∷ b'i' ∷ []

-- The same bytes go out on either machine.
big_endian_wire :
    encode_int32 true word (stream room 8 2) ≡ encode_int32 false word (stream room 8 2)
unfolding encode_word memory little encode_loop place
big_endian_wire = refl

int_wire :
    encode_int32 false word (stream room 8 2)
    ≡ (ok, stream (0 ∷ 0 ∷ 1 ∷ 2 ∷ 3 ∷ 4 ∷ 0 ∷ 0 ∷ []) 8 6)
unfolding encode_word memory little encode_loop place bump
int_wire = refl

null_buffer :
    encode_int32 false word (record { buf = none; size = 8; offset = 0 })
    ≡ (err invalid_argument, record { buf = none; size = 8; offset = 0 })
unfolding encode_word
null_buffer = refl

string_wire :
    encode_string false (some (b'h' ∷ b'i' ∷ 0 ∷ [])) 4 (stream room 8 0)
    ≡ (ok, stream (0 ∷ 2 ∷ b'h' ∷ b'i' ∷ 0 ∷ 0 ∷ 0 ∷ 0 ∷ []) 8 4)
unfolding encode_string encode_word encode_block strlen encode_loop bump write read memory little
    place
string_wire = refl

room-Fits : Fits room 8 2 4
room-Fits = omega arith

decode_word-encode_word_example :
    let (ret, s) = encode_word true 4 word (stream room 8 2) in
    (ret ≡ ok)
    × (decode_word false 4 (9, record s { offset = 2 })
        ≡ (ok, (word, stream (write room 2 (wire 4 word)) 8 6)))
decode_word-encode_word_example =
    decode_word-encode_word true false 4 word 9 room 8 2 room-Fits (omega arith)

hi-NoNul : NoNul hi
hi-NoNul = omega arith

decode_string-encode_string_example :
    let (ret, s) = encode_string true (some (hi ++ 0 ∷ 7 ∷ [])) 4 (stream room 8 1) in
    (ret ≡ ok)
    × (decode_string false 4 (replicate 4 1, record s { offset = 1 }) ≡ (ok, (hi ++ 0 ∷ 1 ∷ [], s)))
decode_string-encode_string_example =
    decode_string-encode_string true false hi (7 ∷ []) (replicate 4 1) room 4 8 1 hi-NoNul
      (omega arith) (omega arith) (omega arith) (omega arith) (omega arith)

decode_string_unterminated_example :
    decode_string true 2 (1 ∷ 1 ∷ [], stream (0 ∷ 2 ∷ b'h' ∷ b'i' ∷ []) 4 0)
    ≡ (ok, (hi, stream (0 ∷ 2 ∷ b'h' ∷ b'i' ∷ []) 4 4))
unfolding little read
decode_string_unterminated_example =
    decode_string_unterminated true hi (1 ∷ 1 ∷ []) (0 ∷ 2 ∷ b'h' ∷ b'i' ∷ []) 2 4 0 (omega arith)
      refl refl (omega arith) (omega arith) refl

-- A string of n characters, shut so that a long one is not written out.
filled : ℕ → List ℕ
filled n = replicate n 1

length-filled : (n : ℕ) → length (filled n) ≡ n
unfolding filled
length-filled n = length-replicate n 1

filled-NoNul : (n : ℕ) → NoNul (filled n)
unfolding filled
filled-NoNul zero = tt
filled-NoNul (suc n) = (omega arith, filled-NoNul n)

-- The length on the wire is 2.
encode_string_truncates_example :
    encode_string true (some (filled (2 ^ 16 + 2) ++ 0 ∷ [])) 100 (stream room 8 0) ≡ (
      ok,
      stream
          (write
            (write room 0 (wire 2 (length (filled (2 ^ 16 + 2)) % 2 ^ 16)))
            (0 + 2)
            (read (filled (2 ^ 16 + 2) ++ 0 ∷ []) 0 (length (filled (2 ^ 16 + 2)) % 2 ^ 16)))
          8
          (0 + 2 + length (filled (2 ^ 16 + 2)) % 2 ^ 16),
    )
encode_string_truncates_example =
    encode_string_truncates true (filled (2 ^ 16 + 2)) [] room 100 8 0 (filled-NoNul (2 ^ 16 + 2))
      (omega (arith, length-filled (2 ^ 16 + 2))) (omega arith)
      (omega (arith, length-filled (2 ^ 16 + 2))) (omega (arith, length-filled (2 ^ 16 + 2)))
