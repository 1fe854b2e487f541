-- ===== src/Heads/Conn.antt =====
-- frame_protocolhead.h, ConnHead: the head that a connector adds.
use lightframe.Common.{ℕ, ◌+◌, ◌≡◌, refl, ap, ok, Bool, List, [], ◌∷◌, Status, ◌>>◌}
use lightframe.Codec.{Stream, encode_int32, encode_uint16, encode_uint32, encode_uint8}
use lightframe.Heads.Fields.{
  Field, done, decode_field, encode_fields, decode_fields, encode_fields_lem, InRange,
}
use lightframe.Heads.Trips.{decode_fields-encode_fields}
use lightframe.Codec.Words.{Fits, stream}

pub record ConnHead : Type 0 where
  pub role_id : ℕ
  pub conn_index : ℕ
  pub control_type : ℕ
  pub control_param : ℕ
  pub client_address : ℕ
  pub client_port : ℕ

-- The fields in the order of the code, each with the bytes of its type.
unfoldable pub conn_head_fields : List (Field ConnHead)
conn_head_fields =
    (record { width = 4; get = λ h. h.role_id; put = λ v h. record h { role_id = v } })
    ∷ (record { width = 2; get = λ h. h.conn_index; put = λ v h. record h { conn_index = v } })
    ∷ (record { width = 1; get = λ h. h.control_type; put = λ v h. record h { control_type = v } })
    ∷ (record {
      width = 4;
      get = λ h. h.control_param;
      put = λ v h. record h { control_param = v };
    })
    ∷ (record {
      width = 4;
      get = λ h. h.client_address;
      put = λ v h. record h { client_address = v };
    })
    ∷ (record { width = 2; get = λ h. h.client_port; put = λ v h. record h { client_port = v } })
    ∷ []

-- MessageEncode
unfoldable pub encode_conn_head : Bool → ConnHead → Stream → Status × Stream
encode_conn_head big h = do
  encode_int32 big h.role_id
  encode_uint16 big h.conn_index
  encode_uint8 big h.control_type
  encode_uint32 big h.control_param
  encode_uint32 big h.client_address
  encode_uint16 big h.client_port
  done

-- MessageDecode, over the head and the stream.
unfoldable pub decode_conn_head : Bool → ConnHead × Stream → Status × (ConnHead × Stream)
decode_conn_head big = do
  decode_field big 4 (λ h. h.role_id) (λ v h. record h { role_id = v })
  decode_field big 2 (λ h. h.conn_index) (λ v h. record h { conn_index = v })
  decode_field big 1 (λ h. h.control_type) (λ v h. record h { control_type = v })
  decode_field big 4 (λ h. h.control_param) (λ v h. record h { control_param = v })
  decode_field big 4 (λ h. h.client_address) (λ v h. record h { client_address = v })
  decode_field big 2 (λ h. h.client_port) (λ v h. record h { client_port = v })
  done

-- The two are the chains over the list of fields.
encode_conn_head-fields :
    (big : Bool) (h : ConnHead) → encode_conn_head big h ≡ encode_fields big conn_head_fields h
unfolding encode_conn_head conn_head_fields encode_fields
encode_conn_head-fields big h = refl

decode_conn_head-fields : (big : Bool) → decode_conn_head big ≡ decode_fields big conn_head_fields
unfolding decode_conn_head conn_head_fields decode_fields
decode_conn_head-fields big = refl

-- Where 17 bytes fit, MessageEncode of a ConnHead whose values fit their types succeeds and
-- writes 17 bytes; MessageDecode from the same place, on a machine of either byte order, succeeds,
-- gives the head back and ends at the same offset.
pub decode_conn_head-encode_conn_head :
    (big big' : Bool) (h old : ConnHead) (buf : List ℕ) (size offset : ℕ)
    → Fits buf size offset 17
    → InRange conn_head_fields h
    → let (ret, s) = encode_conn_head big h (stream buf size offset) in
      (ret ≡ ok)
      × (s.offset ≡ offset + 17)
      × (decode_conn_head big' (old, record s { offset = offset }) ≡ (ok, (h, s)))
unfolding conn_head_fields
decode_conn_head-encode_conn_head big big' h old buf size offset f r =
    let trip = decode_fields-encode_fields big big' conn_head_fields h old buf size offset f r in
    rw (encode_conn_head-fields, decode_conn_head-fields)
      (
        trip.0,
        ap (λ (p : Status × Stream). p.1.offset)
            (encode_fields_lem big conn_head_fields h buf size offset f),
        trip.1,
      )
