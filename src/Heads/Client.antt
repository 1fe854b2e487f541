-- ===== src/Heads/Client.antt =====
-- frame_protocolhead.h, MessageHeadCS: the head between client and server.
use lightframe.Common.{
  ℕ, ◌+◌, ◌<◌, ◌≡◌, refl, ap, ok, err, ◌≤◌, ◌^◌, length, encode_buf_length, decode_buf_length, Bool,
  List, [], ◌∷◌, Status, ◌>>◌,
}
use lightframe.Codec.{Stream, encode_int32, encode_uint16, encode_uint32}
use lightframe.Heads.Fields.{
  Field, done, decode_field, encode_fields, decode_fields, encode_fields_lem, InRange,
}
use lightframe.Heads.Trips.{decode_fields-encode_fields, fields_short, Inside, encode_fields-Inside}
use lightframe.Codec.Words.{Fits, stream}

pub record MessageHeadCs : Type 0 where
  pub total_size : ℕ
  pub version : ℕ
  pub message_id : ℕ
  pub role_id : ℕ
  pub room_id : ℕ
  pub sequence : ℕ
  pub option : ℕ

-- The fields in the order of the code, each with the bytes of its type.
unfoldable pub head_cs_fields : List (Field MessageHeadCs)
head_cs_fields =
    (record { width = 2; get = λ h. h.total_size; put = λ v h. record h { total_size = v } })
    ∷ (record { width = 2; get = λ h. h.version; put = λ v h. record h { version = v } })
    ∷ (record { width = 4; get = λ h. h.message_id; put = λ v h. record h { message_id = v } })
    ∷ (record { width = 4; get = λ h. h.role_id; put = λ v h. record h { role_id = v } })
    ∷ (record { width = 4; get = λ h. h.room_id; put = λ v h. record h { room_id = v } })
    ∷ (record { width = 4; get = λ h. h.sequence; put = λ v h. record h { sequence = v } })
    ∷ (record { width = 4; get = λ h. h.option; put = λ v h. record h { option = v } })
    ∷ []

-- MessageEncode
pub encode_head_cs : Bool → MessageHeadCs → Stream → Status × Stream
encode_head_cs big h = do
  encode_uint16 big h.total_size
  encode_uint16 big h.version
  encode_uint32 big h.message_id
  encode_int32 big h.role_id
  encode_uint32 big h.room_id
  encode_uint32 big h.sequence
  encode_uint32 big h.option
  done

-- MessageDecode, over the head and the stream.
pub decode_head_cs : Bool → MessageHeadCs × Stream → Status × (MessageHeadCs × Stream)
decode_head_cs big = do
  decode_field big 2 (λ h. h.total_size) (λ v h. record h { total_size = v })
  decode_field big 2 (λ h. h.version) (λ v h. record h { version = v })
  decode_field big 4 (λ h. h.message_id) (λ v h. record h { message_id = v })
  decode_field big 4 (λ h. h.role_id) (λ v h. record h { role_id = v })
  decode_field big 4 (λ h. h.room_id) (λ v h. record h { room_id = v })
  decode_field big 4 (λ h. h.sequence) (λ v h. record h { sequence = v })
  decode_field big 4 (λ h. h.option) (λ v h. record h { option = v })
  done

-- The two are the chains over the list of fields.
encode_head_cs-fields :
    (big : Bool) (h : MessageHeadCs) → encode_head_cs big h ≡ encode_fields big head_cs_fields h
unfolding encode_head_cs head_cs_fields encode_fields
encode_head_cs-fields big h = refl

decode_head_cs-fields : (big : Bool) → decode_head_cs big ≡ decode_fields big head_cs_fields
unfolding decode_head_cs head_cs_fields decode_fields
decode_head_cs-fields big = refl

-- Where 24 bytes fit, MessageEncode of a MessageHeadCS whose values fit their types succeeds and
-- writes 24 bytes; MessageDecode from the same place, on a machine of either byte order, succeeds,
-- gives the head back and ends at the same offset.
pub decode_head_cs-encode_head_cs :
    (big big' : Bool) (h old : MessageHeadCs) (buf : List ℕ) (size offset : ℕ)
    → Fits buf size offset 24
    → InRange head_cs_fields h
    → let (ret, s) = encode_head_cs big h (stream buf size offset) in
      (ret ≡ ok)
      × (s.offset ≡ offset + 24)
      × (decode_head_cs big' (old, record s { offset = offset }) ≡ (ok, (h, s)))
unfolding head_cs_fields
decode_head_cs-encode_head_cs big big' h old buf size offset f r =
    let trip = decode_fields-encode_fields big big' head_cs_fields h old buf size offset f r in
    rw (encode_head_cs-fields, decode_head_cs-fields)
      (
        trip.0,
        ap (λ (p : Status × Stream). p.1.offset)
            (encode_fields_lem big head_cs_fields h buf size offset f),
        trip.1,
      )

-- MessageEncode of a MessageHeadCS never writes before the offset nor at or past the size, keeps the
-- array's length, and leaves an offset within the size, whether it succeeds or runs out of space.
pub encode_head_cs-Inside :
    (big : Bool) (h : MessageHeadCs) (buf : List ℕ) (size offset : ℕ)
    → 0 < size
    → size ≤ length buf
    → size < 2 ^ 32
    → offset ≤ size
    → Inside buf size offset (encode_head_cs big h (stream buf size offset)).1
encode_head_cs-Inside big h buf size offset z a s o =
    rw encode_head_cs-fields (encode_fields-Inside big head_cs_fields h buf size offset z a s o)

-- Where fewer than 24 bytes are left, MessageEncode and MessageDecode of a MessageHeadCS return their
-- length errors.
pub head_cs_short :
    (big : Bool) (h : MessageHeadCs) (buf : List ℕ) (size offset : ℕ)
    → 0 < size
    → size ≤ length buf
    → size < 2 ^ 32
    → offset ≤ size
    → size < offset + 24
    → ((encode_head_cs big h (stream buf size offset)).0 ≡ err encode_buf_length)
      × ((decode_head_cs big (h, stream buf size offset)).0 ≡ err decode_buf_length)
unfolding head_cs_fields
head_cs_short big h buf size offset z a s o t =
    rw (encode_head_cs-fields, decode_head_cs-fields)
      (fields_short big head_cs_fields h buf size offset z a s o t)
