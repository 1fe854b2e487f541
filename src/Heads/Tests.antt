-- ===== src/Heads/Tests.antt =====
-- The theorems about the heads at concrete heads.
use lightframe.Common.{ℕ, ◌+◌, ◌≡◌, true, false, List, arith, replicate, ok}
use lightframe.Codec.Words.{stream}
use lightframe.Heads.Fields.{InRange}
use lightframe.Heads.Trips.{Inside}
use lightframe.Heads.Dal.{
  dal_encode_conn_head, dal_decode_conn_head, dal_encode_head_ss, dal_decode_head_ss,
  dal_encode_conn_uin, dal_decode_conn_uin, dal_agrees,
}
use lightframe.Heads.Conn.{ConnHead, conn_head_fields, encode_conn_head, decode_conn_head}
use lightframe.Heads.Client.{MessageHeadCs, head_cs_fields}
use lightframe.Heads.Server.{
  MessageHeadSs, head_ss_fields, encode_head_ss, decode_head_ss, decode_head_ss-encode_head_ss,
  encode_head_ss-Inside,
}
use lightframe.Heads.Uin.{ConnUin, conn_uin_fields, encode_conn_uin, decode_conn_uin}

abbrev room : List ℕ
room = replicate 48 0

abbrev some_conn_head : ConnHead
some_conn_head = record {
  role_id = 1;
  conn_index = 2;
  control_type = 3;
  control_param = 4;
  client_address = 5;
  client_port = 6;
}

abbrev old_conn_head : ConnHead
old_conn_head = record {
  role_id = 101;
  conn_index = 102;
  control_type = 103;
  control_param = 104;
  client_address = 105;
  client_port = 106;
}

some_conn_head-InRange : InRange conn_head_fields some_conn_head
unfolding conn_head_fields
some_conn_head-InRange = omega arith

abbrev some_head_cs : MessageHeadCs
some_head_cs = record {
  total_size = 1;
  version = 2;
  message_id = 3;
  role_id = 4;
  room_id = 5;
  sequence = 6;
  option = 7;
}

abbrev old_head_cs : MessageHeadCs
old_head_cs = record {
  total_size = 101;
  version = 102;
  message_id = 103;
  role_id = 104;
  room_id = 105;
  sequence = 106;
  option = 107;
}

some_head_cs-InRange : InRange head_cs_fields some_head_cs
unfolding head_cs_fields
some_head_cs-InRange = omega arith

abbrev some_head_ss : MessageHeadSs
some_head_ss = record {
  total_size = 1;
  message_id = 2;
  head_size = 3;
  message_type = 4;
  source_type = 5;
  dest_type = 6;
  source_id = 7;
  dest_id = 8;
  role_id = 9;
  sequence = 10;
  trans_type = 11;
  session_index = 12;
  room_id = 13;
  zone_id = 14;
  router_index = 15;
}

abbrev old_head_ss : MessageHeadSs
old_head_ss = record {
  total_size = 101;
  message_id = 102;
  head_size = 103;
  message_type = 104;
  source_type = 105;
  dest_type = 106;
  source_id = 107;
  dest_id = 108;
  role_id = 109;
  sequence = 110;
  trans_type = 111;
  session_index = 112;
  room_id = 113;
  zone_id = 114;
  router_index = 115;
}

some_head_ss-InRange : InRange head_ss_fields some_head_ss
unfolding head_ss_fields
some_head_ss-InRange = omega arith

decode_head_ss-encode_head_ss_example :
    let (ret, s) = encode_head_ss true some_head_ss (stream room 48 3) in
    (ret ≡ ok)
    × (s.offset ≡ 3 + 44)
    × (decode_head_ss false (old_head_ss, record s { offset = 3 }) ≡ (ok, (some_head_ss, s)))
decode_head_ss-encode_head_ss_example =
    decode_head_ss-encode_head_ss true false some_head_ss old_head_ss room 48 3 (omega arith)
      some_head_ss-InRange

encode_head_ss-Inside_example :
    Inside room 12 3 (encode_head_ss true some_head_ss (stream room 12 3)).1
encode_head_ss-Inside_example =
    encode_head_ss-Inside true some_head_ss room 12 3 (omega arith) (omega arith) (omega arith)
      (omega arith)

abbrev some_conn_uin : ConnUin
some_conn_uin = record {
  version = 1;
  server_id = 2;
  tunnel_index = 3;
  role_id = 4;
  create_time = 5;
  isn = 6;
  address = 7;
  port = 8;
  net_type = 9;
  account_type = 10;
  router_address = 11;
  router_port = 12;
  error_code = 200;
}

abbrev old_conn_uin : ConnUin
old_conn_uin = record {
  version = 101;
  server_id = 102;
  tunnel_index = 103;
  role_id = 104;
  create_time = 105;
  isn = 106;
  address = 107;
  port = 108;
  net_type = 109;
  account_type = 110;
  router_address = 111;
  router_port = 112;
  error_code = 200;
}

some_conn_uin-InRange : InRange conn_uin_fields some_conn_uin
unfolding conn_uin_fields
some_conn_uin-InRange = omega arith

dal_agrees_example :
    ((h : ConnHead) → dal_encode_conn_head true h ≡ encode_conn_head true h)
    × (dal_decode_conn_head true ≡ decode_conn_head true)
    × ((h : MessageHeadSs) → dal_encode_head_ss true h ≡ encode_head_ss true h)
    × (dal_decode_head_ss true ≡ decode_head_ss true)
    × ((h : ConnUin) → dal_encode_conn_uin true h ≡ encode_conn_uin true h)
    × (dal_decode_conn_uin true ≡ decode_conn_uin true)
dal_agrees_example = dal_agrees true
