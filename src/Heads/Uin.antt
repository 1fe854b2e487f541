-- ===== src/Heads/Uin.antt =====
-- frame_protocolhead.h, ConnUin: the identity of a client connection.
use lightframe.Common.{ℕ, ◌+◌, ◌≡◌, refl, ap, ok, Bool, List, [], ◌∷◌, Status, ◌>>◌}
use lightframe.Codec.{Stream, encode_int32, encode_uint16, encode_uint32, encode_uint8}
use lightframe.Heads.Fields.{
  Field, done, decode_field, encode_fields, decode_fields, encode_fields_lem, InRange,
}
use lightframe.Heads.Trips.{decode_fields-encode_fields}
use lightframe.Codec.Words.{Fits, stream}

pub record ConnUin : Type 0 where
  pub version : ℕ
  pub server_id : ℕ
  pub tunnel_index : ℕ
  pub role_id : ℕ
  pub create_time : ℕ
  pub isn : ℕ
  pub address : ℕ
  pub port : ℕ
  pub net_type : ℕ
  pub account_type : ℕ
  pub router_address : ℕ
  pub router_port : ℕ
  pub error_code : ℕ

-- The fields in the order of the code, each with the bytes of its type.
unfoldable pub conn_uin_fields : List (Field ConnUin)
conn_uin_fields =
    (record { width = 1; get = λ h. h.version; put = λ v h. record h { version = v } })
    ∷ (record { width = 1; get = λ h. h.server_id; put = λ v h. record h { server_id = v } })
    ∷ (record { width = 2; get = λ h. h.tunnel_index; put = λ v h. record h { tunnel_index = v } })
    ∷ (record { width = 4; get = λ h. h.role_id; put = λ v h. record h { role_id = v } })
    ∷ (record { width = 4; get = λ h. h.create_time; put = λ v h. record h { create_time = v } })
    ∷ (record { width = 4; get = λ h. h.isn; put = λ v h. record h { isn = v } })
    ∷ (record { width = 4; get = λ h. h.address; put = λ v h. record h { address = v } })
    ∷ (record { width = 2; get = λ h. h.port; put = λ v h. record h { port = v } })
    ∷ (record { width = 1; get = λ h. h.net_type; put = λ v h. record h { net_type = v } })
    ∷ (record { width = 1; get = λ h. h.account_type; put = λ v h. record h { account_type = v } })
    ∷ (record {
      width = 4;
      get = λ h. h.router_address;
      put = λ v h. record h { router_address = v };
    })
    ∷ (record { width = 2; get = λ h. h.router_port; put = λ v h. record h { router_port = v } })
    ∷ []

-- MessageEncode
unfoldable pub encode_conn_uin : Bool → ConnUin → Stream → Status × Stream
encode_conn_uin big h = do
  encode_uint8 big h.version
  encode_uint8 big h.server_id
  encode_uint16 big h.tunnel_index
  encode_int32 big h.role_id
  encode_int32 big h.create_time
  encode_uint32 big h.isn
  encode_uint32 big h.address
  encode_uint16 big h.port
  encode_uint8 big h.net_type
  encode_uint8 big h.account_type
  encode_uint32 big h.router_address
  encode_uint16 big h.router_port
  done

-- MessageDecode, over the head and the stream.
unfoldable pub decode_conn_uin : Bool → ConnUin × Stream → Status × (ConnUin × Stream)
decode_conn_uin big = do
  decode_field big 1 (λ h. h.version) (λ v h. record h { version = v })
  decode_field big 1 (λ h. h.server_id) (λ v h. record h { server_id = v })
  decode_field big 2 (λ h. h.tunnel_index) (λ v h. record h { tunnel_index = v })
  decode_field big 4 (λ h. h.role_id) (λ v h. record h { role_id = v })
  decode_field big 4 (λ h. h.create_time) (λ v h. record h { create_time = v })
  decode_field big 4 (λ h. h.isn) (λ v h. record h { isn = v })
  decode_field big 4 (λ h. h.address) (λ v h. record h { address = v })
  decode_field big 2 (λ h. h.port) (λ v h. record h { port = v })
  decode_field big 1 (λ h. h.net_type) (λ v h. record h { net_type = v })
  decode_field big 1 (λ h. h.account_type) (λ v h. record h { account_type = v })
  decode_field big 4 (λ h. h.router_address) (λ v h. record h { router_address = v })
  decode_field big 2 (λ h. h.router_port) (λ v h. record h { router_port = v })
  done

-- The two are the chains over the list of fields.
encode_conn_uin-fields :
    (big : Bool) (h : ConnUin) → encode_conn_uin big h ≡ encode_fields big conn_uin_fields h
unfolding encode_conn_uin conn_uin_fields encode_fields
encode_conn_uin-fields big h = refl

decode_conn_uin-fields : (big : Bool) → decode_conn_uin big ≡ decode_fields big conn_uin_fields
unfolding decode_conn_uin conn_uin_fields decode_fields
decode_conn_uin-fields big = refl

-- Where 30 bytes fit, MessageEncode of a ConnUin whose values fit their types succeeds and
-- writes 30 bytes; MessageDecode from the same place, on a machine of either byte order, succeeds,
-- gives the head back and ends at the same offset. The error code is not on the wire, and stays as it was.
pub decode_conn_uin-encode_conn_uin :
    (big big' : Bool) (h old : ConnUin) (buf : List ℕ) (size offset : ℕ)
    → Fits buf size offset 30
    → InRange conn_uin_fields h
    → let (ret, s) = encode_conn_uin big h (stream buf size offset) in
      (ret ≡ ok)
      × (s.offset ≡ offset + 30)
      × (decode_conn_uin big' (old, record s { offset = offset })
          ≡ (ok, (record h { error_code = old.error_code }, s)))
unfolding conn_uin_fields
decode_conn_uin-encode_conn_uin big big' h old buf size offset f r =
    let trip = decode_fields-encode_fields big big' conn_uin_fields h old buf size offset f r in
    rw (encode_conn_uin-fields, decode_conn_uin-fields)
      (
        trip.0,
        ap (λ (p : Status × Stream). p.1.offset)
            (encode_fields_lem big conn_uin_fields h buf size offset f),
        trip.1,
      )
