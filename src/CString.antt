-- ===== src/CString.antt =====
-- common/common_string.h: CString<SIZE>, a text in an array of SIZE + 1 characters, with its length.
-- strlen, strncpy, strcat, strncat and strcmp are those of the C library. The overloads for `char*` and
-- `const char*` do the same, and are one function here.
pub mod Text
pub mod Copies
pub mod Joins
pub mod Wire
mod Tests
use lightframe.Common.{
  ℕ, zero, suc, ◌+◌, ◌-◌, ◌%◌, ◌^◌, Bool, true, false, ◌&&◌, Option, none, some, List, [], ◌∷◌,
  ◌++◌, ltb, leb, ◌==◌, if◌then◌else◌, length, set, replicate, write, Status, ok, err,
}
use lightframe.Codec.{Stream, encode_uint16}
use lightframe.Codec.Blocks.{strlen, encode_string, decode_string}

pub record CString : Type 0 where
  pub curlen : ℕ
  pub chars : List ℕ

-- the characters before the first NUL, at most n of them
unfoldable pub leading : ℕ → List ℕ → List ℕ
leading zero src = []
leading (suc n) [] = []
leading (suc n) (c ∷ cs) = if c == 0 then [] else c ∷ leading n cs

unfoldable pub strncpy : List ℕ → List ℕ → ℕ → List ℕ
strncpy dst src n = let text = leading n src in write dst 0 (text ++ replicate (n - length text) 0)

unfoldable pub strncat : List ℕ → List ℕ → ℕ → List ℕ
strncat dst src n = write dst (strlen dst) (leading n src ++ 0 ∷ [])

unfoldable pub strcat : List ℕ → List ℕ → List ℕ
strcat dst src = strncat dst src (strlen src)

-- strcmp(a, b) == 0
unfoldable pub str_eq : List ℕ → List ℕ → Bool
str_eq [] [] = true
str_eq [] (d ∷ ds) = d == 0
str_eq (c ∷ cs) [] = c == 0
str_eq (c ∷ cs) (d ∷ ds) = if c == 0 then d == 0 else c == d && str_eq cs ds

unfoldable pub equal : CString → CString → Bool
equal s ob = str_eq s.chars ob.chars

unfoldable pub length_of : CString → ℕ
length_of s = s.curlen

unfoldable pub str_empty : CString → Bool
str_empty s = s.curlen == 0

unfoldable pub message_encode : Bool → CString → Stream → Status × Stream
message_encode big s =
    if ltb 0 s.curlen then encode_string big (some s.chars) s.curlen else encode_uint16 big s.curlen

-- `size` is SIZE; what the array of a new object holds is `old`.
module _ (size : ℕ) where
  -- memset(m_char, 0, sizeof(m_char))
  abbrev pub zeros : List ℕ
  zeros = replicate (size + 1) 0

  unfoldable pub from_chars : List ℕ → List ℕ → CString
  from_chars old init =
      if ltb (strlen init) size
      then record {
        curlen = strlen init % 2 ^ 16;
        chars = set (strncpy zeros init (strlen init)) (strlen init) 0;
      }
      else record { curlen = size; chars = set (strncpy old init size) size 0 }

  -- the copy constructor
  unfoldable pub from_string : CString → CString
  from_string ob =
      if ltb ob.curlen size
      then record { curlen = ob.curlen; chars = strncpy zeros ob.chars ob.curlen }
      else record { curlen = size; chars = strncpy zeros ob.chars size }

  -- Initialize, Resume, Uninitialize and Clear
  unfoldable pub clear : CString
  clear = record { curlen = 0; chars = zeros }

  unfoldable pub assign : CString → CString → CString
  assign ob s =
      let n = if ltb ob.curlen size then ob.curlen else size in
      record { curlen = n; chars = set (strncpy s.chars ob.chars n) n 0 }

  -- SetString, and the assignments from characters
  unfoldable pub set_string : List ℕ → CString
  set_string str =
      if ltb (strlen str) size
      then record { curlen = strlen str % 2 ^ 16; chars = strncpy zeros str (strlen str) }
      else record { curlen = size; chars = strncpy zeros str size }

  -- operator+ of two objects
  unfoldable pub plus : CString → CString → CString
  plus s ob =
      if leb size (ob.curlen + s.curlen)
      then record {
        curlen = size;
        chars = strncat (strncpy zeros s.chars s.curlen) ob.chars (size - s.curlen);
      }
      else record {
        curlen = ob.curlen + s.curlen;
        chars = strcat (strncpy zeros s.chars s.curlen) ob.chars;
      }

  -- operator+ of an object and characters
  unfoldable pub plus_chars : CString → List ℕ → CString
  plus_chars s str =
      if leb size (strlen str + s.curlen)
      then record {
        curlen = size;
        chars = strncat (strncpy zeros s.chars s.curlen) str (size - s.curlen);
      }
      else record {
        curlen = strlen str + s.curlen;
        chars = strcat (strncpy zeros s.chars s.curlen) str;
      }

  -- MessageDecode, over the object and the stream; sizeof(m_char) becomes a uint16_t.
  unfoldable pub message_decode : Bool → CString × Stream → Status × (CString × Stream)
  message_decode big (s, t) =
      let (ret, (chars, t')) = decode_string big ((size + 1) % 2 ^ 16) (set s.chars size 0, t) in
      elim ret [
        | err e ↦ (err e, (record s { chars = chars }, t'))
        | ok ↦ (ok, (record { curlen = strlen chars % 2 ^ 16; chars = chars }, t'))
      ]
