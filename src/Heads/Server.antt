-- ===== src/Heads/Server.antt =====
-- frame_protocolhead.h, MessageHeadSS: the head between servers.
use lightframe.Common.{
  ℕ, ◌+◌, ◌<◌, ◌≡◌, refl, ap, ok, err, ◌≤◌, ◌^◌, length, encode_buf_length, decode_buf_length, Bool,
  List, [], ◌∷◌, Status, ◌>>◌,
}
use lightframe.Codec.{Stream, encode_int32, encode_uint16, encode_uint32, encode_uint8}
use lightframe.Heads.Fields.{
  Field, done, decode_field, encode_fields, decode_fields, encode_fields_lem, InRange,
}
use lightframe.Heads.Trips.{decode_fields-encode_fields, fields_short, Inside, encode_fields-Inside}
use lightframe.Codec.Words.{Fits, stream}

pub record MessageHeadSs : Type 0 where
  pub total_size : ℕ
  pub message_id : ℕ
  pub head_size : ℕ
  pub message_type : ℕ
  pub source_type : ℕ
  pub dest_type : ℕ
  pub source_id : ℕ
  pub dest_id : ℕ
  pub role_id : ℕ
  pub sequence : ℕ
  pub trans_type : ℕ
  pub session_index : ℕ
  pub room_id : ℕ
  pub zone_id : ℕ
  pub router_index : ℕ

-- The fields in the order of the code, each with the bytes of its type.
unfoldable pub head_ss_fields : List (Field MessageHeadSs)
head_ss_fields =
    (record { width = 4; get = λ h. h.total_size; put = λ v h. record h { total_size = v } })
    ∷ (record { width = 4; get = λ h. h.message_id; put = λ v h. record h { message_id = v } })
    ∷ (record { width = 2; get = λ h. h.head_size; put = λ v h. record h { head_size = v } })
    ∷ (record { width = 1; get = λ h. h.message_type; put = λ v h. record h { message_type = v } })
    ∷ (record { width = 1; get = λ h. h.source_type; put = λ v h. record h { source_type = v } })
    ∷ (record { width = 1; get = λ h. h.dest_type; put = λ v h. record h { dest_type = v } })
    ∷ (record { width = 4; get = λ h. h.source_id; put = λ v h. record h { source_id = v } })
    ∷ (record { width = 4; get = λ h. h.dest_id; put = λ v h. record h { dest_id = v } })
    ∷ (record { width = 4; get = λ h. h.role_id; put = λ v h. record h { role_id = v } })
    ∷ (record { width = 4; get = λ h. h.sequence; put = λ v h. record h { sequence = v } })
    ∷ (record { width = 1; get = λ h. h.trans_type; put = λ v h. record h { trans_type = v } })
    ∷ (record {
      width = 4;
      get = λ h. h.session_index;
      put = λ v h. record h { session_index = v };
    })
    ∷ (record { width = 4; get = λ h. h.room_id; put = λ v h. record h { room_id = v } })
    ∷ (record { width = 4; get = λ h. h.zone_id; put = λ v h. record h { zone_id = v } })
    ∷ (record { width = 2; get = λ h. h.router_index; put = λ v h. record h { router_index = v } })
    ∷ []

-- MessageEncode
unfoldable pub encode_head_ss : Bool → MessageHeadSs → Stream → Status × Stream
encode_head_ss big h = do
  encode_uint32 big h.total_size
  encode_uint32 big h.message_id
  encode_uint16 big h.head_size
  encode_uint8 big h.message_type
  encode_uint8 big h.source_type
  encode_uint8 big h.dest_type
  encode_int32 big h.source_id
  encode_int32 big h.dest_id
  encode_int32 big h.role_id
  encode_uint32 big h.sequence
  encode_uint8 big h.trans_type
  encode_int32 big h.session_index
  encode_uint32 big h.room_id
  encode_int32 big h.zone_id
  encode_uint16 big h.router_index
  done

-- MessageDecode, over the head and the stream.
unfoldable pub decode_head_ss : Bool → MessageHeadSs × Stream → Status × (MessageHeadSs × Stream)
decode_head_ss big = do
  decode_field big 4 (λ h. h.total_size) (λ v h. record h { total_size = v })
  decode_field big 4 (λ h. h.message_id) (λ v h. record h { message_id = v })
  decode_field big 2 (λ h. h.head_size) (λ v h. record h { head_size = v })
  decode_field big 1 (λ h. h.message_type) (λ v h. record h { message_type = v })
  decode_field big 1 (λ h. h.source_type) (λ v h. record h { source_type = v })
  decode_field big 1 (λ h. h.dest_type) (λ v h. record h { dest_type = v })
  decode_field big 4 (λ h. h.source_id) (λ v h. record h { source_id = v })
  decode_field big 4 (λ h. h.dest_id) (λ v h. record h { dest_id = v })
  decode_field big 4 (λ h. h.role_id) (λ v h. record h { role_id = v })
  decode_field big 4 (λ h. h.sequence) (λ v h. record h { sequence = v })
  decode_field big 1 (λ h. h.trans_type) (λ v h. record h { trans_type = v })
  decode_field big 4 (λ h. h.session_index) (λ v h. record h { session_index = v })
  decode_field big 4 (λ h. h.room_id) (λ v h. record h { room_id = v })
  decode_field big 4 (λ h. h.zone_id) (λ v h. record h { zone_id = v })
  decode_field big 2 (λ h. h.router_index) (λ v h. record h { router_index = v })
  done

-- The two are the chains over the list of fields.
encode_head_ss-fields :
    (big : Bool) (h : MessageHeadSs) → encode_head_ss big h ≡ encode_fields big head_ss_fields h
unfolding encode_head_ss head_ss_fields encode_fields
encode_head_ss-fields big h = refl

decode_head_ss-fields : (big : Bool) → decode_head_ss big ≡ decode_fields big head_ss_fields
unfolding decode_head_ss head_ss_fields decode_fields
decode_head_ss-fields big = refl

-- Where 44 bytes fit, MessageEncode of a MessageHeadSS whose values fit their types succeeds and
-- writes 44 bytes; MessageDecode from the same place, on a machine of either byte order, succeeds,
-- gives the head back and ends at the same offset.
pub decode_head_ss-encode_head_ss :
    (big big' : Bool) (h old : MessageHeadSs) (buf : List ℕ) (size offset : ℕ)
    → Fits buf size offset 44
    → InRange head_ss_fields h
    → let (ret, s) = encode_head_ss big h (stream buf size offset) in
      (ret ≡ ok)
      × (s.offset ≡ offset + 44)
      × (decode_head_ss big' (old, record s { offset = offset }) ≡ (ok, (h, s)))
unfolding head_ss_fields
decode_head_ss-encode_head_ss big big' h old buf size offset f r =
    let trip = decode_fields-encode_fields big big' head_ss_fields h old buf size offset f r in
    rw (encode_head_ss-fields, decode_head_ss-fields)
      (
        trip.0,
        ap (λ (p : Status × Stream). p.1.offset)
            (encode_fields_lem big head_ss_fields h buf size offset f),
        trip.1,
      )

-- MessageEncode of a MessageHeadSS never writes before the offset nor at or past the size, keeps the
-- array's length, and leaves an offset within the size, whether it succeeds or runs out of space.
pub encode_head_ss-Inside :
    (big : Bool) (h : MessageHeadSs) (buf : List ℕ) (size offset : ℕ)
    → 0 < size
    → size ≤ length buf
    → size < 2 ^ 32
    → offset ≤ size
    → Inside buf size offset (encode_head_ss big h (stream buf size offset)).1
encode_head_ss-Inside big h buf size offset z a s o =
    rw encode_head_ss-fields (encode_fields-Inside big head_ss_fields h buf size offset z a s o)

-- Where fewer than 44 bytes are left, MessageEncode and MessageDecode of a MessageHeadSS return their
-- length errors.
pub head_ss_short :
    (big : Bool) (h : MessageHeadSs) (buf : List ℕ) (size offset : ℕ)
    → 0 < size
    → size ≤ length buf
    → size < 2 ^ 32
    → offset ≤ size
    → size < offset + 44
    → ((encode_head_ss big h (stream buf size offset)).0 ≡ err encode_buf_length)
      × ((decode_head_ss big (h, stream buf size offset)).0 ≡ err decode_buf_length)
unfolding head_ss_fields
head_ss_short big h buf size offset z a s o t =
    rw (encode_head_ss-fields, decode_head_ss-fields)
      (fields_short big head_ss_fields h buf size offset z a s o t)
