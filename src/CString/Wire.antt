-- ===== src/CString/Wire.antt =====
-- common/common_string.h: comparison, MessageEncode and MessageDecode.
use lightframe.Common.{
  ℕ, suc, write_text, ◌%◌, ◌+◌, ◌^◌, ◌≤◌, ◌<◌, ◌≡◌, ◌↔◌, refl, sym, ap, ap₂, ◌∙◌, Bool, true, List,
  [], ◌∷◌, ◌++◌, arith, length, append-nil, drop, set, write, read, length-append, length-write,
  length-set, length-drop, read-write, ok,
}
use lightframe.Codec.Words.{Fits, stream, wire, length-wire, encode_word_lem}
use lightframe.Codec.Strings.{
  NoNul, strlen_terminated, wire_string, encode_string_lem, decode_string_lem,
}
use lightframe.CString.{CString, str_eq, equal, message_encode, message_decode}
use lightframe.CString.Text.{Text}

str_eq_same : (xs junk junk' : List ℕ) → str_eq (xs ++ 0 ∷ junk) (xs ++ 0 ∷ junk') ≡ true
unfolding str_eq
str_eq_same [] junk junk' = refl
str_eq_same (x ∷ xs) junk junk' = ground (arith, str_eq_same xs junk junk')

same-str_eq :
    (xs ys junk junk' : List ℕ)
    → NoNul xs
    → NoNul ys
    → str_eq (xs ++ 0 ∷ junk) (ys ++ 0 ∷ junk') ≡ true
    → xs ≡ ys
unfolding str_eq
same-str_eq [] [] junk junk' h h' e = refl
same-str_eq [] (y ∷ ys) junk junk' h h' e = absurd (ground arith)
same-str_eq (x ∷ xs) [] junk junk' h h' e = absurd (ground arith)
same-str_eq (x ∷ xs) (y ∷ ys) junk junk' h h' e =
    ap₂ ◌∷◌ (ground arith) (same-str_eq xs ys junk junk' h.1 h'.1 (ground arith))

-- operator== holds exactly of objects with the same text, whatever follows the NUL.
pub equal_lem :
    (size : ℕ) (s ob : CString) (str str' : List ℕ)
    → Text size s str
    → Text size ob str'
    → (equal s ob ≡ true) ↔ (str ≡ str')
unfolding equal
equal_lem size s ob str str' t t' =
    rw (t.held, t'.held)
      (
        same-str_eq str str' t.junk t'.junk t.no_nul t'.no_nul,
        λ e. rw (sym e) (str_eq_same str t.junk t'.junk),
      )

-- An object is encoded as the length of its text and its characters, where they fit.
message_encode_lem :
    (big : Bool) (n size offset : ℕ) (s : CString) (str buf : List ℕ)
    → Text n s str
    → n < 2 ^ 16
    → Fits buf size offset (2 + length str)
    → message_encode big s (stream buf size offset)
      ≡ (ok, stream (write buf offset (wire_string str)) size (offset + 2 + length str))
unfolding message_encode
message_encode_lem big n size offset s [] buf t b f =
    ground (
      arith,
      t.counted,
      encode_word_lem big 2 0 buf size offset (omega arith),
      append-nil (wire 2 0),
    )
message_encode_lem big n size offset s (c ∷ cs) buf t b f =
    let encoded =
      encode_string_lem big (c ∷ cs) (length (c ∷ cs)) size offset t.junk buf t.no_nul (omega arith)
        (omega arith) (omega (arith, t.room)) f in
    ground (arith, t.counted, t.held, encoded)

-- MessageDecode of a text on the wire puts it into the array, over what was there.
message_decode_lem :
    (big : Bool) (n size offset : ℕ) (s : CString) (str buf : List ℕ)
    → NoNul str
    → length str ≤ n
    → n + 1 < 2 ^ 16
    → length s.chars ≡ n + 1
    → Fits buf size offset (2 + length str)
    → read buf offset (2 + length str) ≡ wire_string str
    → message_decode n big (s, stream buf size offset) ≡ (
      ok,
      (
        record {
          curlen = length str;
          chars = str ++ 0 ∷ drop (suc (length str)) (set s.chars n 0);
        },
        stream buf size (offset + 2 + length str),
      ),
    )
unfolding message_decode
message_decode_lem big n size offset s str buf h l b d f e =
    let dst = set s.chars n 0 in
    let rest = drop (suc (length str)) dst in
    let filled : write dst 0 (str ++ 0 ∷ []) ≡ str ++ 0 ∷ rest =
      write_text dst str (omega (arith, length-set s.chars n 0)) in
    let decoded =
      decode_string_lem big str (n + 1) size offset dst buf (omega arith) (omega arith)
        (omega arith) f e in
    let limit : (n + 1) % 2 ^ 16 ≡ n + 1 = omega arith in
    ground (arith, limit, decoded, filled, strlen_terminated str rest h)

-- An object of a SIZE below 65535 that is encoded on one machine and decoded on another, where its
-- message fits, comes back:
-- both calls succeed, the object that is decoded into holds the same text, the two are equal, and both
-- offsets end in the same place.
pub message_decode-message_encode :
    (big big' : Bool) (n size offset : ℕ) (s d : CString) (str buf : List ℕ)
    → Text n s str
    → n + 1 < 2 ^ 16
    → length d.chars ≡ n + 1
    → Fits buf size offset (2 + length str)
    → let (ret, t) = message_encode big s (stream buf size offset) in
      let (ret', (d', t')) = message_decode n big' (d, record t { offset = offset }) in
      (ret ≡ ok) × (ret' ≡ ok) × Text n d' str × (equal d' s ≡ true) × (t' ≡ t)
message_decode-message_encode big big' n size offset s d str buf t b l f =
    let bytes = wire_string str in
    let buf' = write buf offset bytes in
    let dst = set d.chars n 0 in
    let len : length bytes ≡ 2 + length str =
      length-append (wire 2 (length str)) str
      ∙ ap (λ k. k + length str) (length-wire 2 (length str)) in
    let f' : Fits buf' size offset (2 + length str) = record {
      nonempty = f.nonempty;
      room = f.room;
      allocated = omega (arith, length-write buf offset bytes, f.allocated);
      small = f.small;
    } in
    let back = read-write buf offset bytes (2 + length str) (sym len) (omega arith) in
    let d' : CString = record {
      curlen = length str;
      chars = str ++ 0 ∷ drop (suc (length str)) dst;
    } in
    let held : Text n d' str = record {
      no_nul = t.no_nul;
      counted = refl;
      room = t.room;
      junk = drop (suc (length str)) dst;
      held = refl;
      whole = omega (arith, length-drop (suc (length str)) dst, length-set d.chars n 0, t.room);
    } in
    rw
      (
        message_encode_lem big n size offset s str buf t (omega arith) f,
        message_decode_lem big' n size offset d str buf' t.no_nul t.room b l f' back,
      )
      (refl, refl, held, (equal_lem n d' s str str held t).1 refl, refl)
