-- ===== src/Api/Proto.antt =====
-- src/include/firehose.proto: the messages on the wire. A field that is not set is `none`; an int64
-- is its 64-bit pattern and an int32 its 32-bit pattern. The accessors are those that the proto2
-- language guide documents: a getter of an unset field gives zero or the empty string.
use firehose.Base.{ℕ, List, [], Option, none, some}
use firehose.Api.{Bytes}

-- enum RequestType, as far as the nodes use it
abbrev pub m_req_publish : ℕ
m_req_publish = 3

abbrev pub m_rsp_publish : ℕ
m_rsp_publish = 4

abbrev pub m_req_accept : ℕ
m_req_accept = 7

abbrev pub m_req_prepare : ℕ
m_req_prepare = 9

abbrev pub m_rsp_prepare : ℕ
m_rsp_prepare = 10

abbrev pub m_req_update_subscription : ℕ
m_req_update_subscription = 11

abbrev pub m_rsp_update_subscription : ℕ
m_rsp_update_subscription = 12

abbrev pub num : Option ℕ → ℕ
num none = 0
num (some n) = n

abbrev pub text : Option Bytes → Bytes
text none = []
text (some s) = s

pub record TelemetryProto : Type 0 where
  pub publisher_id : Option ℕ
  pub topic_id : Option ℕ
  pub global_id : Option ℕ
  pub pump_id : Option ℕ
  pub nuzzle_id : Option ℕ
  pub engine_ids : List ℕ
  pub consumer_id : Option ℕ
  pub publisher_sent_publish : Option ℕ
  pub pump_received_publish : Option ℕ
  pub pump_sent_prepare : Option ℕ
  pub engine_received_prepare : Option ℕ
  pub engine_sent_accept : Option ℕ
  pub pump_received_accept : Option ℕ
  pub publisher_received_ack : Option ℕ
  pub engine_sent_to_nuzzle : Option ℕ
  pub nuzzle_received_publish : Option ℕ
  pub nuzzle_sent_publish : Option ℕ
  pub consumer_received_publish : Option ℕ

pub record RequestHeaderProto : Type 0 where
  pub sender_id : Option ℕ
  pub sender_request_id : Option ℕ
  pub baggage : Option Bytes

pub record ResponseHeaderProto : Type 0 where
  pub sender_request_id : Option ℕ
  pub status : Option ℕ
  pub message : Option Bytes
  pub baggage : Option Bytes

abbrev pub no_telemetry : TelemetryProto
no_telemetry = record {
  publisher_id = none;
  topic_id = none;
  global_id = none;
  pump_id = none;
  nuzzle_id = none;
  engine_ids = [];
  consumer_id = none;
  publisher_sent_publish = none;
  pump_received_publish = none;
  pump_sent_prepare = none;
  engine_received_prepare = none;
  engine_sent_accept = none;
  pump_received_accept = none;
  publisher_received_ack = none;
  engine_sent_to_nuzzle = none;
  nuzzle_received_publish = none;
  nuzzle_sent_publish = none;
  consumer_received_publish = none;
}

abbrev pub no_request_header : RequestHeaderProto
no_request_header = record { sender_id = none; sender_request_id = none; baggage = none }

abbrev pub no_response_header : ResponseHeaderProto
no_response_header = record {
  sender_request_id = none;
  status = none;
  message = none;
  baggage = none;
}

-- RequestPublishProto and RequestPrepareProto have the same fields.
pub record PayloadProto : Type 0 where
  pub header : RequestHeaderProto
  pub telemetry : TelemetryProto
  pub timestamp : Option ℕ
  pub global_id : Option ℕ
  pub topic_id : Option ℕ
  pub message : Option Bytes

-- ResponsePublishProto and ResponsePrepareProto
pub record AckProto : Type 0 where
  pub header : ResponseHeaderProto
  pub telemetry : TelemetryProto
  pub timestamp : Option ℕ
  pub global_id : Option ℕ
  pub topic_id : Option ℕ

pub record RequestAcceptProto : Type 0 where
  pub header : RequestHeaderProto
  pub telemetry : TelemetryProto
  pub timestamp : Option ℕ
  pub global_id : Option ℕ
  pub topic_id : Option ℕ

pub record RequestUpdateSubscriptionProto : Type 0 where
  pub header : RequestHeaderProto
  pub telemetry : TelemetryProto
  pub timestamp : Option ℕ
  pub topic_id : Option ℕ
  pub action : Option ℕ

pub record ResponseUpdateSubscriptionProto : Type 0 where
  pub header : ResponseHeaderProto
  pub telemetry : TelemetryProto
  pub timestamp : Option ℕ
  pub topic_id : Option ℕ
  pub action : Option ℕ

-- the message of a transmit object that has just been made: no field is set
abbrev pub no_payload : PayloadProto
no_payload = record {
  header = no_request_header;
  telemetry = no_telemetry;
  timestamp = none;
  global_id = none;
  topic_id = none;
  message = none;
}

abbrev pub no_ack : AckProto
no_ack = record {
  header = no_response_header;
  telemetry = no_telemetry;
  timestamp = none;
  global_id = none;
  topic_id = none;
}

abbrev pub no_accept : RequestAcceptProto
no_accept = record {
  header = no_request_header;
  telemetry = no_telemetry;
  timestamp = none;
  global_id = none;
  topic_id = none;
}

abbrev pub no_update_subscription : RequestUpdateSubscriptionProto
no_update_subscription = record {
  header = no_request_header;
  telemetry = no_telemetry;
  timestamp = none;
  topic_id = none;
  action = none;
}

abbrev pub no_update_response : ResponseUpdateSubscriptionProto
no_update_response = record {
  header = no_response_header;
  telemetry = no_telemetry;
  timestamp = none;
  topic_id = none;
  action = none;
}
