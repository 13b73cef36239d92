-- ===== src/Pump/Messages.antt =====
-- src/firehose/api/pump_api.cpp: the messages of a pump, and what its connections do with a message
-- type and with a received message.
use firehose.Base.{ℕ, Option, none, some, if◌then◌else◌, nat_beq}
use firehose.Api.{
  RequestPublish, ResponsePublish, RequestPrepare, ResponsePrepare, RequestAccept,
  blank_request_publish, blank_response_prepare,
}
use firehose.Api.Proto.{
  PayloadProto, AckProto, RequestAcceptProto, num, text, m_req_publish, m_rsp_prepare,
}
use firehose.Api.Fields.{
  set_header, set_response_header, get_header, get_response_header, set_telemetry, get_telemetry,
}

unfoldable pub msg_publish_req_rx_get : PayloadProto → RequestPublish → RequestPublish
unfolding get_header get_telemetry
msg_publish_req_rx_get msg request = record request {
  header = get_header request.header msg.header;
  telemetry = get_telemetry request.telemetry msg.telemetry;
  topic_id = num msg.topic_id;
  global_id = num msg.global_id;
  message = text msg.message;
  timestamp = num msg.timestamp;
}

unfoldable pub msg_publish_rsp_tx_set : ResponsePublish → AckProto → AckProto
unfolding set_response_header set_telemetry
msg_publish_rsp_tx_set response msg = record msg {
  header = set_response_header response.header msg.header;
  telemetry = set_telemetry response.telemetry msg.telemetry;
  timestamp = some response.timestamp;
  global_id = some response.global_id;
  topic_id = some response.topic_id;
}

unfoldable pub msg_prepare_req_tx_set : RequestPrepare → PayloadProto → PayloadProto
unfolding set_header set_telemetry
msg_prepare_req_tx_set request msg = record msg {
  header = set_header request.header msg.header;
  telemetry = set_telemetry request.telemetry msg.telemetry;
  global_id = some request.global_id;
  topic_id = some request.topic_id;
  timestamp = some request.timestamp;
  message = some request.message;
}

unfoldable pub msg_prepare_rsp_rx_get : AckProto → ResponsePrepare → ResponsePrepare
unfolding get_response_header get_telemetry
msg_prepare_rsp_rx_get msg response = record response {
  header = get_response_header response.header msg.header;
  telemetry = get_telemetry response.telemetry msg.telemetry;
  timestamp = num msg.timestamp;
  global_id = num msg.global_id;
  topic_id = num msg.topic_id;
}

-- `message` is not put on the wire.
unfoldable pub msg_accept_req_tx_set : RequestAccept → RequestAcceptProto → RequestAcceptProto
unfolding set_header set_telemetry
msg_accept_req_tx_set request msg = record msg {
  header = set_header request.header msg.header;
  telemetry = set_telemetry request.telemetry msg.telemetry;
  global_id = some request.global_id;
  topic_id = some request.topic_id;
  timestamp = some request.timestamp;
}

pub data Rx : Type 0 where
  publish_req : PayloadProto → Rx
  prepare_rsp : AckProto → Rx

pub data RxClass : Type 0 where
  msg_publish_req_rx msg_prepare_rsp_rx : RxClass

-- PublisherConnection::new_rx_message; `none` is nullptr.
unfoldable pub publisher_new_rx_message : ℕ → Option RxClass
publisher_new_rx_message msg_type =
    if nat_beq msg_type m_req_publish then some msg_publish_req_rx else none

-- EngineConnection::new_rx_message
unfoldable pub engine_new_rx_message : ℕ → Option RxClass
engine_new_rx_message msg_type =
    if nat_beq msg_type m_rsp_prepare then some msg_prepare_rsp_rx else none

pub data Call : Type 0 where
  on_publish_receive : RequestPublish → Call
  on_prepare_ack_receive : ResponsePrepare → Call

-- PublisherConnection::completed_receive; `none` is "Received an unsupported message type".
unfoldable pub publisher_completed_receive : Rx → Option Call
unfolding msg_publish_req_rx_get
publisher_completed_receive (publish_req msg) =
    some (on_publish_receive (msg_publish_req_rx_get msg blank_request_publish))
publisher_completed_receive (prepare_rsp msg) = none

-- EngineConnection::completed_receive
unfoldable pub engine_completed_receive : Rx → Option Call
unfolding msg_prepare_rsp_rx_get
engine_completed_receive (prepare_rsp msg) =
    some (on_prepare_ack_receive (msg_prepare_rsp_rx_get msg blank_response_prepare))
engine_completed_receive (publish_req msg) = none
