-- ===== src/Heads/Fields.antt =====
-- frame_protocolhead.h: what the MessageEncode and MessageDecode of every head have in common. A head
-- is encoded field by field, and the first call that fails ends the message.
use lightframe.Common.{
  ℕ, ◌+◌, ◌^◌, ◌<◌, ◌≡◌, refl, sym, ap₂, ◌∙◌, Bool, List, [], ◌∷◌, ◌++◌, arith, length,
  length-append, length-write, read, read_split, write, write-append, Status, ok, ◌>>◌,
}
use lightframe.Codec.{Stream, encode_word, decode_word}
use lightframe.Codec.Words.{Fits, stream, wire, length-wire, from_wire-wire, encode_word_lem}
use lightframe.Codec.Read.{decode_word_lem}

pub record Field (H : Type 0) : Type 0 where
  pub width : ℕ
  pub get : H → ℕ
  pub put : ℕ → H → H

-- return S_OK
abbrev pub done {ℓ} : {S : Type ℓ} → S → Status × S
done s = (ok, s)

-- Decode(buf, size, offset, h.field): the call gets a reference to the field.
unfoldable pub decode_field :
    {H : Type 0} → Bool → ℕ → (H → ℕ) → (ℕ → H → H) → H × Stream → Status × (H × Stream)
decode_field big w get put (h, s) =
    let (ret, (v, s')) = decode_word big w (get h, s) in (ret, (put v h, s'))

module _ {H : Type 0} (big : Bool) where
  unfoldable pub encode_fields : List (Field H) → H → Stream → Status × Stream
  encode_fields [] h = done
  encode_fields (f ∷ fs) h = encode_word big f.width (f.get h) >> encode_fields fs h

  unfoldable pub decode_fields : List (Field H) → H × Stream → Status × (H × Stream)
  decode_fields [] = done
  decode_fields (f ∷ fs) = decode_field big f.width f.get f.put >> decode_fields fs

module _ {H : Type 0} where
  -- The bytes of all fields.
  abbrev pub total : List (Field H) → ℕ
  total [] = 0
  total (f ∷ fs) = f.width + total fs

  -- The wire form of a head: its fields in order, each with its highest byte first.
  abbrev pub wire_fields : List (Field H) → H → List ℕ
  wire_fields [] h = []
  wire_fields (f ∷ fs) h = wire f.width (f.get h) ++ wire_fields fs h

  -- Every field's value fits its type.
  abbrev pub InRange : List (Field H) → H → Type 0
  InRange [] h = Unit
  InRange (f ∷ fs) h = (f.get h < 256 ^ f.width) × InRange fs h

  -- The old head with every encoded field replaced.
  abbrev pub fill : List (Field H) → H → H → H
  fill [] h old = old
  fill (f ∷ fs) h old = fill fs h (f.put (f.get h) old)

  pub length-wire_fields : (fs : List (Field H)) (h : H) → length (wire_fields fs h) ≡ total fs
  length-wire_fields [] h = refl
  length-wire_fields (f ∷ fs) h =
      length-append (wire f.width (f.get h)) (wire_fields fs h)
      ∙ ap₂ ◌+◌ (length-wire f.width (f.get h)) (length-wire_fields fs h)

  -- Encoding a head that fits writes its wire form at the offset.
  pub encode_fields_lem :
      (big : Bool) (fs : List (Field H)) (h : H) (buf : List ℕ) (size offset : ℕ)
      → Fits buf size offset (total fs)
      → encode_fields big fs h (stream buf size offset)
        ≡ (ok, stream (write buf offset (wire_fields fs h)) size (offset + total fs))
  unfolding encode_fields write
  encode_fields_lem big [] h buf size offset f = let e : offset + 0 ≡ offset = omega arith in rw e
  encode_fields_lem big (f ∷ fs) h buf size offset fits =
      let ws = wire f.width (f.get h) in
      let l = length-write buf offset ws in
      let e : offset + (f.width + total fs) ≡ offset + f.width + total fs = omega arith in
      rw
        (
          encode_word_lem big f.width (f.get h) buf size offset (omega arith),
          write-append buf offset ws (wire_fields fs h),
          length-wire f.width (f.get h),
          e,
        )
        (encode_fields_lem big fs h (write buf offset ws) size (offset + f.width)
          (omega (arith, l)))

  -- Decoding the wire form of a head fills in its fields.
  pub decode_fields_lem :
      (big : Bool) (fs : List (Field H)) (h old : H) (buf : List ℕ) (size offset : ℕ)
      → Fits buf size offset (total fs)
      → InRange fs h
      → read buf offset (total fs) ≡ wire_fields fs h
      → decode_fields big fs (old, stream buf size offset)
        ≡ (ok, (fill fs h old, stream buf size (offset + total fs)))
  unfolding decode_fields decode_field
  decode_fields_lem big [] h old buf size offset f r e =
      let z : offset + 0 ≡ offset = omega arith in rw z
  decode_fields_lem big (f ∷ fs) h old buf size offset fits r e =
      let w = f.width in
      let parts =
        read_split buf offset w (total fs) (wire w (f.get h)) (wire_fields fs h)
          (sym (length-wire w (f.get h))) e in
      let z : offset + (w + total fs) ≡ offset + w + total fs = omega arith in
      rw
        (
          decode_word_lem big w (f.get old) buf size offset (omega arith),
          parts.0,
          from_wire-wire w (f.get h) r.0,
          z,
        )
        (decode_fields_lem big fs h (f.put (f.get h) old) buf size (offset + w) (omega arith) r.1
          parts.1)
