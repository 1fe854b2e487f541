-- ===== src/Heads/Trips.antt =====
-- frame_protocolhead.h: the round trip of a head, and what happens in a buffer that is too short.
use native.Mathlib.Decide.{dec_lt}
use lightframe.Common.{
  ℕ, ◌+◌, ◌^◌, ◌≤◌, ◌<◌, ◌≡◌, refl, sym, ◌∙◌, Bool, some, List, [], ◌∷◌, arith, length, get_or,
  length-write, read-write, write, ok, err, encode_buf_length, decode_buf_length,
  get_or-write_before, get_or-write_after,
}
use lightframe.Codec.{Stream}
use lightframe.Codec.Words.{Fits, stream, wire, length-wire, encode_word_lem}
use lightframe.Codec.Read.{decode_word_lem, words_refuse}
use lightframe.Heads.Fields.{
  Field, decode_field, encode_fields, decode_fields, total, wire_fields, length-wire_fields,
  InRange, fill, encode_fields_lem, decode_fields_lem,
}

-- The stream that a call leaves: only bytes from the old offset up to the size are written, and the
-- offset stays within the size.
pub record Inside (buf : List ℕ) (size offset : ℕ) (s : Stream) : Type 0 where
  pub after : List ℕ
  pub buffer : s.buf ≡ some after
  same_length : length after ≡ length buf
  same_before : (j : ℕ) → j < offset → get_or after j 0 ≡ get_or buf j 0
  same_after : (j : ℕ) → size ≤ j → get_or after j 0 ≡ get_or buf j 0
  offset_in : s.offset ≤ size

module _ {H : Type 0} where
  -- What one machine encodes another decodes, and both offsets end in the same place.
  pub decode_fields-encode_fields :
      (big big' : Bool) (fs : List (Field H)) (h old : H) (buf : List ℕ) (size offset : ℕ)
      → Fits buf size offset (total fs)
      → InRange fs h
      → let (ret, s) = encode_fields big fs h (stream buf size offset) in
        (ret ≡ ok)
        × (decode_fields big' fs (old, record s { offset = offset }) ≡ (ok, (fill fs h old, s)))
  decode_fields-encode_fields big big' fs h old buf size offset f r =
      let bytes = wire_fields fs h in
      let buf' = write buf offset bytes in
      let f' : Fits buf' size offset (total fs) = record {
        nonempty = f.nonempty;
        room = f.room;
        allocated = omega (arith, length-write buf offset bytes, f.allocated);
        small = f.small;
      } in
      rw (encode_fields_lem big fs h buf size offset f) (
        refl,
        decode_fields_lem big' fs h old buf' size offset f' r
            (read-write buf offset bytes (total fs) (sym (length-wire_fields fs h)) (omega arith)),
      )

  -- A buffer too short for the head is reported by both directions.
  pub fields_short :
      (big : Bool) (fs : List (Field H)) (h : H) (buf : List ℕ) (size offset : ℕ)
      → 0 < size
      → size ≤ length buf
      → size < 2 ^ 32
      → offset ≤ size
      → size < offset + total fs
      → ((encode_fields big fs h (stream buf size offset)).0 ≡ err encode_buf_length)
        × ((decode_fields big fs (h, stream buf size offset)).0 ≡ err decode_buf_length)
  unfolding encode_fields decode_fields decode_field
  fields_short big [] h buf size offset z a s o t = absurd (omega arith)
  fields_short big (f ∷ fs) h buf size offset z a s o t = elim (dec_lt size (offset + f.width)) [
    | yes short ↦
        rw
          (
            (words_refuse big f.width (f.get h) buf size offset z short).0,
            (words_refuse big f.width (f.get h) buf size offset z short).1,
          )
          (refl, refl)
    | no long ↦
        let ws = wire f.width (f.get h) in
        let fits : Fits buf size offset f.width = omega arith in
        let rest = λ (h' : H) (buf' : List ℕ) (a' : size ≤ length buf').
          fields_short big fs h' buf' size (offset + f.width) z a' s (omega arith) (omega arith) in
        rw
          (
            encode_word_lem big f.width (f.get h) buf size offset fits,
            decode_word_lem big f.width (f.get h) buf size offset fits,
          )
          (
            (rest h (write buf offset ws) (omega (arith, length-write buf offset ws))).0,
            (rest (f.put _ h) buf a).1,
          )
  ]

  -- Whatever its outcome, encoding stays inside the buffer.
  pub encode_fields-Inside :
      (big : Bool) (fs : List (Field H)) (h : H) (buf : List ℕ) (size offset : ℕ)
      → 0 < size
      → size ≤ length buf
      → size < 2 ^ 32
      → offset ≤ size
      → Inside buf size offset (encode_fields big fs h (stream buf size offset)).1
  unfolding encode_fields
  encode_fields-Inside big [] h buf size offset z a s o = record {
    after = buf;
    buffer = refl;
    same_length = refl;
    same_before = λ j p. refl;
    same_after = λ j p. refl;
    offset_in = o;
  }
  encode_fields-Inside big (f ∷ fs) h buf size offset z a s o =
      elim (dec_lt size (offset + f.width)) [
        | yes short ↦ rw (words_refuse big f.width (f.get h) buf size offset z short).0 (record {
          after = buf;
          buffer = refl;
          same_length = refl;
          same_before = λ j p. refl;
          same_after = λ j p. refl;
          offset_in = o;
        })
        | no long ↦
            let ws = wire f.width (f.get h) in
            let l = length-write buf offset ws in
            let k = length-wire f.width (f.get h) in
            let rest =
              encode_fields-Inside big fs h (write buf offset ws) size (offset + f.width) z
                (omega (arith, l)) s (omega arith) in
            rw (encode_word_lem big f.width (f.get h) buf size offset (omega arith)) (record {
              after = rest.after;
              buffer = rest.buffer;
              same_length = rest.same_length ∙ l;
              same_before =
                  λ j p. rest.same_before j (omega arith) ∙ get_or-write_before buf offset ws j p;
              same_after = λ j p.
                  rest.same_after j p ∙ get_or-write_after buf offset ws j (omega (arith, k));
              offset_in = rest.offset_in;
            })
      ]
