-- ===== src/Api.antt =====
-- src/firehose/api/api_common.h and src/include/common.h: the status code of success and the
-- structs that the nodes pass to each other. An unsigned field is a number below two to its width;
-- an `int` is its 32-bit pattern; a `std::string` is the list of its bytes.
pub mod Proto
pub mod Fields
use firehose.Base.{ℕ, List, []}

abbrev pub firehose_success : ℕ
firehose_success = 0

-- `std::string`
abbrev pub Bytes : Type 0
Bytes = List ℕ

pub record Telemetry : Type 0 where
  pub publisher_id : ℕ
  pub topic_id : ℕ
  pub global_id : ℕ
  pub pump_id : ℕ
  pub nuzzle_id : ℕ
  pub consumer_id : ℕ
  pub publisher_sent_publish : ℕ
  pub pump_received_publish : ℕ
  pub pump_sent_prepare : ℕ
  pub engine_received_prepare : ℕ
  pub engine_sent_accept : ℕ
  pub pump_received_accept : ℕ
  pub publisher_received_ack : ℕ
  pub engine_sent_to_nuzzle : ℕ
  pub nuzzle_received_publish : ℕ
  pub nuzzle_sent_publish : ℕ
  pub consumer_received_publish : ℕ

pub record RequestHeader : Type 0 where
  pub sender_id : ℕ
  pub sender_request_id : ℕ
  pub baggage : Bytes

pub record ResponseHeader : Type 0 where
  pub sender_request_id : ℕ
  pub status : ℕ
  pub message : Bytes
  pub baggage : Bytes

pub record RequestPublish : Type 0 where
  pub header : RequestHeader
  pub telemetry : Telemetry
  pub timestamp : ℕ
  pub global_id : ℕ
  pub topic_id : ℕ
  pub message : Bytes

pub record ResponsePublish : Type 0 where
  pub header : ResponseHeader
  pub telemetry : Telemetry
  pub global_id : ℕ
  pub topic_id : ℕ
  pub timestamp : ℕ

pub record RequestUpdateSubscription : Type 0 where
  pub header : RequestHeader
  pub telemetry : Telemetry
  pub timestamp : ℕ
  pub topic_id : ℕ
  pub action : ℕ

pub record ResponseUpdateSubscription : Type 0 where
  pub header : ResponseHeader
  pub telemetry : Telemetry
  pub timestamp : ℕ
  pub topic_id : ℕ
  pub action : ℕ

pub record RequestPrepare : Type 0 where
  pub header : RequestHeader
  pub telemetry : Telemetry
  pub timestamp : ℕ
  pub global_id : ℕ
  pub topic_id : ℕ
  pub message : Bytes

pub record ResponsePrepare : Type 0 where
  pub header : ResponseHeader
  pub telemetry : Telemetry
  pub global_id : ℕ
  pub timestamp : ℕ
  pub topic_id : ℕ

pub record RequestAccept : Type 0 where
  pub header : RequestHeader
  pub telemetry : Telemetry
  pub timestamp : ℕ
  pub topic_id : ℕ
  pub global_id : ℕ
  pub message : Bytes

-- What `std::make_shared<…>()` gives: zeros, empty strings, and the initialisers of `Telemetry`.
abbrev pub blank_telemetry : Telemetry
blank_telemetry = record {
  publisher_id = 0;
  topic_id = 0;
  global_id = 0;
  pump_id = 0;
  nuzzle_id = 0;
  consumer_id = 0;
  publisher_sent_publish = 8;
  pump_received_publish = 9;
  pump_sent_prepare = 10;
  engine_received_prepare = 11;
  engine_sent_accept = 12;
  pump_received_accept = 13;
  publisher_received_ack = 14;
  engine_sent_to_nuzzle = 15;
  nuzzle_received_publish = 16;
  nuzzle_sent_publish = 17;
  consumer_received_publish = 18;
}

abbrev pub blank_request_header : RequestHeader
blank_request_header = record { sender_id = 0; sender_request_id = 0; baggage = [] }

abbrev pub blank_response_header : ResponseHeader
blank_response_header = record { sender_request_id = 0; status = 0; message = []; baggage = [] }

abbrev pub blank_request_publish : RequestPublish
blank_request_publish = record {
  header = blank_request_header;
  telemetry = blank_telemetry;
  timestamp = 0;
  global_id = 0;
  topic_id = 0;
  message = [];
}

abbrev pub blank_response_publish : ResponsePublish
blank_response_publish = record {
  header = blank_response_header;
  telemetry = blank_telemetry;
  global_id = 0;
  topic_id = 0;
  timestamp = 0;
}

abbrev pub blank_request_update_subscription : RequestUpdateSubscription
blank_request_update_subscription = record {
  header = blank_request_header;
  telemetry = blank_telemetry;
  timestamp = 0;
  topic_id = 0;
  action = 0;
}

abbrev pub blank_request_prepare : RequestPrepare
blank_request_prepare = record {
  header = blank_request_header;
  telemetry = blank_telemetry;
  timestamp = 0;
  global_id = 0;
  topic_id = 0;
  message = [];
}

abbrev pub blank_response_prepare : ResponsePrepare
blank_response_prepare = record {
  header = blank_response_header;
  telemetry = blank_telemetry;
  global_id = 0;
  timestamp = 0;
  topic_id = 0;
}

abbrev pub blank_request_accept : RequestAccept
blank_request_accept = record {
  header = blank_request_header;
  telemetry = blank_telemetry;
  timestamp = 0;
  topic_id = 0;
  global_id = 0;
  message = [];
}
