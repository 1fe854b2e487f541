-- ===== src/CString/Tests.antt =====
-- Runs of the string's operations, and the theorems about them at concrete inputs.
use lightframe.Common.{
  ℕ, ◌≡◌, refl, true, false, List, [], ◌∷◌, ◌++◌, arith, take, replicate, write, ok,
}
use lightframe.Codec.Blocks.{strlen}
use lightframe.Codec.Words.{Fits, stream}
use lightframe.Codec.Strings.{NoNul}
use lightframe.CString.{
  CString, leading, strncpy, strncat, assign, set_string, plus, equal, message_encode,
  message_decode, clear,
}
use lightframe.CString.Text.{Text}
use lightframe.CString.Copies.{set_string_lem, assign_lem}
use lightframe.CString.Wire.{message_decode-message_encode}

abbrev hi : List ℕ
hi = b'h' ∷ b'i' ∷ []

abbrev hiya : List ℕ
hiya = b'h' ∷ b'i' ∷ b'y' ∷ b'a' ∷ []

-- An object of three characters at most, left with more in its array than its text.
abbrev hi_string : CString
hi_string = record { curlen = 2; chars = b'h' ∷ b'i' ∷ 0 ∷ b'x' ∷ [] }

hi-NoNul : NoNul hi
hi-NoNul = (omega arith, (omega arith, tt))

hi-Text : Text 3 hi_string hi
hi-Text = record {
  no_nul = hi-NoNul;
  counted = refl;
  room = omega arith;
  junk = b'x' ∷ [];
  held = refl;
  whole = refl;
}

hiya-NoNul : NoNul hiya
hiya-NoNul = (omega arith, (omega arith, (omega arith, (omega arith, tt))))

cut_run : set_string 3 (hiya ++ 0 ∷ []) ≡ record { curlen = 3; chars = b'h' ∷ b'i' ∷ b'y' ∷ 0 ∷ [] }
unfolding set_string strncpy leading write strlen
cut_run = refl

plus_run : plus 3 hi_string hi_string ≡ record { curlen = 3; chars = b'h' ∷ b'i' ∷ b'h' ∷ 0 ∷ [] }
unfolding plus strncpy strncat leading write strlen
plus_run = refl

set_string_lem_example : Text 3 (set_string 3 (hiya ++ 0 ∷ [])) (take 3 hiya)
set_string_lem_example = set_string_lem 3 hiya [] hiya-NoNul (omega arith)

assign_lem_example : Text 3 (assign 3 hi_string (clear 3)) hi
unfolding clear
assign_lem_example = assign_lem 3 hi_string (clear 3) hi hi-Text refl

hi-Fits : Fits (replicate 8 0) 8 1 4
hi-Fits = omega arith

message_decode-message_encode_example :
    let (ret, t) = message_encode false hi_string (stream (replicate 8 0) 8 1) in
    let (ret', (d', t')) = message_decode 3 true (clear 3, record t { offset = 1 }) in
    (ret ≡ ok) × (ret' ≡ ok) × Text 3 d' hi × (equal d' hi_string ≡ true) × (t' ≡ t)
unfolding clear
message_decode-message_encode_example =
    message_decode-message_encode false true 3 8 1 hi_string (clear 3) hi (replicate 8 0) hi-Text
      (omega arith) refl hi-Fits
