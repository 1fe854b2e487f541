-- ===== src/Heads/Dal.antt =====
-- frame/dal/frame_common_codeengine.cpp: CFrameCodeEngine encodes and decodes the same heads from outside
-- their classes.
use lightframe.Common.{◌≡◌, refl, Bool, Status, ◌>>◌}
use lightframe.Codec.{Stream, encode_int32, encode_uint32, encode_uint16, encode_uint8}
use lightframe.Heads.Fields.{done, decode_field}
use lightframe.Heads.Conn.{ConnHead, encode_conn_head, decode_conn_head}
use lightframe.Heads.Server.{MessageHeadSs, encode_head_ss, decode_head_ss}
use lightframe.Heads.Uin.{ConnUin, encode_conn_uin, decode_conn_uin}

pub dal_encode_conn_head : Bool → ConnHead → Stream → Status × Stream
dal_encode_conn_head big h = do
  encode_int32 big h.role_id
  encode_uint16 big h.conn_index
  encode_uint8 big h.control_type
  encode_uint32 big h.control_param
  encode_uint32 big h.client_address
  encode_uint16 big h.client_port
  done

pub dal_decode_conn_head : Bool → ConnHead × Stream → Status × (ConnHead × Stream)
dal_decode_conn_head big = do
  decode_field big 4 (λ h. h.role_id) (λ v h. record h { role_id = v })
  decode_field big 2 (λ h. h.conn_index) (λ v h. record h { conn_index = v })
  decode_field big 1 (λ h. h.control_type) (λ v h. record h { control_type = v })
  decode_field big 4 (λ h. h.control_param) (λ v h. record h { control_param = v })
  decode_field big 4 (λ h. h.client_address) (λ v h. record h { client_address = v })
  decode_field big 2 (λ h. h.client_port) (λ v h. record h { client_port = v })
  done

pub dal_encode_head_ss : Bool → MessageHeadSs → Stream → Status × Stream
dal_encode_head_ss big h = do
  encode_uint32 big h.total_size
  encode_uint32 big h.message_id
  encode_uint16 big h.head_size
  encode_uint8 big h.message_type
  encode_uint8 big h.source_type
  encode_uint8 big h.dest_type
  encode_int32 big h.source_id
  encode_int32 big h.dest_id
  encode_int32 big h.role_id
  encode_uint32 big h.sequence
  encode_uint8 big h.trans_type
  encode_int32 big h.session_index
  encode_uint32 big h.room_id
  encode_int32 big h.zone_id
  encode_uint16 big h.router_index
  done

pub dal_decode_head_ss : Bool → MessageHeadSs × Stream → Status × (MessageHeadSs × Stream)
dal_decode_head_ss big = do
  decode_field big 4 (λ h. h.total_size) (λ v h. record h { total_size = v })
  decode_field big 4 (λ h. h.message_id) (λ v h. record h { message_id = v })
  decode_field big 2 (λ h. h.head_size) (λ v h. record h { head_size = v })
  decode_field big 1 (λ h. h.message_type) (λ v h. record h { message_type = v })
  decode_field big 1 (λ h. h.source_type) (λ v h. record h { source_type = v })
  decode_field big 1 (λ h. h.dest_type) (λ v h. record h { dest_type = v })
  decode_field big 4 (λ h. h.source_id) (λ v h. record h { source_id = v })
  decode_field big 4 (λ h. h.dest_id) (λ v h. record h { dest_id = v })
  decode_field big 4 (λ h. h.role_id) (λ v h. record h { role_id = v })
  decode_field big 4 (λ h. h.sequence) (λ v h. record h { sequence = v })
  decode_field big 1 (λ h. h.trans_type) (λ v h. record h { trans_type = v })
  decode_field big 4 (λ h. h.session_index) (λ v h. record h { session_index = v })
  decode_field big 4 (λ h. h.room_id) (λ v h. record h { room_id = v })
  decode_field big 4 (λ h. h.zone_id) (λ v h. record h { zone_id = v })
  decode_field big 2 (λ h. h.router_index) (λ v h. record h { router_index = v })
  done

pub dal_encode_conn_uin : Bool → ConnUin → Stream → Status × Stream
dal_encode_conn_uin big h = do
  encode_uint8 big h.version
  encode_uint8 big h.server_id
  encode_uint16 big h.tunnel_index
  encode_int32 big h.role_id
  encode_int32 big h.create_time
  encode_uint32 big h.isn
  encode_uint32 big h.address
  encode_uint16 big h.port
  encode_uint8 big h.net_type
  encode_uint8 big h.account_type
  encode_uint32 big h.router_address
  encode_uint16 big h.router_port
  done

pub dal_decode_conn_uin : Bool → ConnUin × Stream → Status × (ConnUin × Stream)
dal_decode_conn_uin big = do
  decode_field big 1 (λ h. h.version) (λ v h. record h { version = v })
  decode_field big 1 (λ h. h.server_id) (λ v h. record h { server_id = v })
  decode_field big 2 (λ h. h.tunnel_index) (λ v h. record h { tunnel_index = v })
  decode_field big 4 (λ h. h.role_id) (λ v h. record h { role_id = v })
  decode_field big 4 (λ h. h.create_time) (λ v h. record h { create_time = v })
  decode_field big 4 (λ h. h.isn) (λ v h. record h { isn = v })
  decode_field big 4 (λ h. h.address) (λ v h. record h { address = v })
  decode_field big 2 (λ h. h.port) (λ v h. record h { port = v })
  decode_field big 1 (λ h. h.net_type) (λ v h. record h { net_type = v })
  decode_field big 1 (λ h. h.account_type) (λ v h. record h { account_type = v })
  decode_field big 4 (λ h. h.router_address) (λ v h. record h { router_address = v })
  decode_field big 2 (λ h. h.router_port) (λ v h. record h { router_port = v })
  done

-- CFrameCodeEngine and the heads' own methods agree in both directions, on ConnHead, MessageHeadSS and
-- ConnUin: on every head, stream and byte order, errors included.
pub dal_agrees :
    (big : Bool)
    → ((h : ConnHead) → dal_encode_conn_head big h ≡ encode_conn_head big h)
      × (dal_decode_conn_head big ≡ decode_conn_head big)
      × ((h : MessageHeadSs) → dal_encode_head_ss big h ≡ encode_head_ss big h)
      × (dal_decode_head_ss big ≡ decode_head_ss big)
      × ((h : ConnUin) → dal_encode_conn_uin big h ≡ encode_conn_uin big h)
      × (dal_decode_conn_uin big ≡ decode_conn_uin big)
unfolding dal_encode_conn_head dal_decode_conn_head dal_encode_head_ss dal_decode_head_ss
    dal_encode_conn_uin dal_decode_conn_uin encode_conn_head decode_conn_head encode_head_ss
    decode_head_ss encode_conn_uin decode_conn_uin
dal_agrees big = (λ h. refl, refl, λ h. refl, refl, λ h. refl, refl)
