-- ===== src/Api/Fields.antt =====
-- src/firehose/api/api_common.cpp: between the structs of the nodes and the messages of the wire.
use firehose.Base.{
  ℕ, ◌+◌, ◌-◌, ◌%◌, ◌^◌, ◌<◌, ◌≡◌, refl, some, arith, ltb, if◌then◌else◌, u32_mod, u64_mod,
}
use firehose.Api.{Telemetry, RequestHeader, ResponseHeader}
use firehose.Api.Proto.{TelemetryProto, RequestHeaderProto, ResponseHeaderProto, num, text}

-- An `int` stored in an int64 field keeps its sign.
abbrev pub int_to_int64 : ℕ → ℕ
int_to_int64 x = if ltb x (2 ^ 31) then x else x + (u64_mod - u32_mod)

-- An int64 field read into an `int`.
abbrev pub int64_to_int : ℕ → ℕ
int64_to_int x = x % u32_mod

unfoldable pub set_header : RequestHeader → RequestHeaderProto → RequestHeaderProto
set_header h proto = record proto {
  sender_id = some h.sender_id;
  sender_request_id = some (int_to_int64 h.sender_request_id);
  baggage = some h.baggage;
}

unfoldable pub set_response_header : ResponseHeader → ResponseHeaderProto → ResponseHeaderProto
set_response_header h proto = record proto {
  sender_request_id = some (int_to_int64 h.sender_request_id);
  status = some h.status;
  message = some h.message;
  baggage = some h.baggage;
}

unfoldable pub get_header : RequestHeader → RequestHeaderProto → RequestHeader
get_header h proto = record h {
  sender_id = num proto.sender_id;
  sender_request_id = int64_to_int (num proto.sender_request_id);
  baggage = text proto.baggage;
}

unfoldable pub get_response_header : ResponseHeader → ResponseHeaderProto → ResponseHeader
get_response_header h proto = record h {
  sender_request_id = int64_to_int (num proto.sender_request_id);
  status = num proto.status;
  message = text proto.message;
  baggage = text proto.baggage;
}

-- It sets no `pump_id`.
unfoldable pub set_telemetry : Telemetry → TelemetryProto → TelemetryProto
set_telemetry t proto = record proto {
  publisher_id = some t.publisher_id;
  global_id = some t.global_id;
  topic_id = some t.topic_id;
  nuzzle_id = some t.nuzzle_id;
  consumer_id = some t.consumer_id;
  publisher_sent_publish = some t.publisher_sent_publish;
  pump_received_publish = some t.pump_received_publish;
  pump_sent_prepare = some t.pump_sent_prepare;
  engine_received_prepare = some t.engine_received_prepare;
  engine_sent_accept = some t.engine_sent_accept;
  pump_received_accept = some t.pump_received_accept;
  publisher_received_ack = some t.publisher_received_ack;
  engine_sent_to_nuzzle = some t.engine_sent_to_nuzzle;
  nuzzle_received_publish = some t.nuzzle_received_publish;
  nuzzle_sent_publish = some t.nuzzle_sent_publish;
  consumer_received_publish = some t.consumer_received_publish;
}

-- It reads neither `pump_id` nor `nuzzle_received_publish`.
unfoldable pub get_telemetry : Telemetry → TelemetryProto → Telemetry
get_telemetry t proto = record t {
  publisher_id = num proto.publisher_id;
  global_id = num proto.global_id;
  topic_id = num proto.topic_id;
  nuzzle_id = num proto.nuzzle_id;
  consumer_id = num proto.consumer_id;
  publisher_sent_publish = num proto.publisher_sent_publish;
  pump_received_publish = num proto.pump_received_publish;
  pump_sent_prepare = num proto.pump_sent_prepare;
  engine_received_prepare = num proto.engine_received_prepare;
  engine_sent_accept = num proto.engine_sent_accept;
  pump_received_accept = num proto.pump_received_accept;
  publisher_received_ack = num proto.publisher_received_ack;
  engine_sent_to_nuzzle = num proto.engine_sent_to_nuzzle;
  nuzzle_sent_publish = num proto.nuzzle_sent_publish;
  consumer_received_publish = num proto.consumer_received_publish;
}

-- A header that went over the wire is the header that was sent, if its `int` field is in range.
pub get-set_header :
    (h : RequestHeader) (old : RequestHeader) (proto : RequestHeaderProto)
    → h.sender_request_id < u32_mod
    → get_header old (set_header h proto) ≡ h
unfolding get_header set_header
get-set_header h old proto r = ground arith

pub get-set_response_header :
    (h : ResponseHeader) (old : ResponseHeader) (proto : ResponseHeaderProto)
    → h.sender_request_id < u32_mod
    → get_response_header old (set_response_header h proto) ≡ h
unfolding get_response_header set_response_header
get-set_response_header h old proto r = ground arith

-- What the receiver's telemetry holds: two fields stay as the receiver's object was made.
abbrev pub carried : Telemetry → Telemetry → Telemetry
carried old t = record t {
  pump_id = old.pump_id;
  nuzzle_received_publish = old.nuzzle_received_publish;
}

-- Telemetry that went over the wire is what was sent but for `pump_id` and
-- `nuzzle_received_publish`, which stay as the receiver had them.
pub get-set_telemetry :
    (t old : Telemetry) (proto : TelemetryProto)
    → get_telemetry old (set_telemetry t proto) ≡ carried old t
unfolding get_telemetry set_telemetry
get-set_telemetry t old proto = refl
