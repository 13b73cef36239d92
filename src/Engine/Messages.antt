-- ===== src/Engine/Messages.antt =====
-- src/firehose/api/engine_api.cpp: the messages of an engine, and what its connections do with a
-- message type and with a received message.
use firehose.Base.{ℕ, Option, none, some, if◌then◌else◌, nat_beq}
use firehose.Base.{◌%◌, u8_mod}
use firehose.Api.{
  RequestPublish, RequestPrepare, ResponsePrepare, RequestAccept, RequestUpdateSubscription,
  blank_request_prepare, blank_request_accept, blank_request_update_subscription,
}
use firehose.Api.Proto.{
  PayloadProto, AckProto, RequestAcceptProto, RequestUpdateSubscriptionProto, num, text,
  m_req_accept, m_req_prepare, m_req_update_subscription,
}
use firehose.Api.Fields.{set_header, set_response_header, get_header, set_telemetry, get_telemetry}

unfoldable pub msg_prepare_req_rx_get : PayloadProto → RequestPrepare → RequestPrepare
unfolding get_header get_telemetry
msg_prepare_req_rx_get msg request = record request {
  header = get_header request.header msg.header;
  telemetry = get_telemetry request.telemetry msg.telemetry;
  topic_id = num msg.topic_id;
  global_id = num msg.global_id;
  timestamp = num msg.timestamp;
  message = text msg.message;
}

unfoldable pub msg_prepare_rsp_tx_set : ResponsePrepare → AckProto → AckProto
unfolding set_response_header set_telemetry
msg_prepare_rsp_tx_set response msg = record msg {
  header = set_response_header response.header msg.header;
  telemetry = set_telemetry response.telemetry msg.telemetry;
  global_id = some response.global_id;
  topic_id = some response.topic_id;
  timestamp = some response.timestamp;
}

-- `message` is not on the wire.
unfoldable pub msg_accept_req_rx_get : RequestAcceptProto → RequestAccept → RequestAccept
unfolding get_header get_telemetry
msg_accept_req_rx_get msg request = record request {
  header = get_header request.header msg.header;
  telemetry = get_telemetry request.telemetry msg.telemetry;
  topic_id = num msg.topic_id;
  global_id = num msg.global_id;
  timestamp = num msg.timestamp;
}

unfoldable pub msg_publish_req_tx_set : RequestPublish → PayloadProto → PayloadProto
unfolding set_header set_telemetry
msg_publish_req_tx_set request msg = record msg {
  header = set_header request.header msg.header;
  telemetry = set_telemetry request.telemetry msg.telemetry;
  topic_id = some request.topic_id;
  global_id = some request.global_id;
  timestamp = some request.timestamp;
  message = some request.message;
}

-- A uint32 is read into a uint8_t; telemetry is not read.
unfoldable pub msg_update_subscription_req_rx_get :
    RequestUpdateSubscriptionProto → RequestUpdateSubscription → RequestUpdateSubscription
unfolding get_header
msg_update_subscription_req_rx_get msg request = record request {
  header = get_header request.header msg.header;
  timestamp = num msg.timestamp;
  topic_id = num msg.topic_id;
  action = num msg.action % u8_mod;
}

-- The message objects that the connections of an engine make for what they receive.
pub data Rx : Type 0 where
  prepare_req : PayloadProto → Rx
  accept_req : RequestAcceptProto → Rx
  update_subscription_req : RequestUpdateSubscriptionProto → Rx

-- The classes of those objects.
pub data RxClass : Type 0 where
  msg_prepare_req_rx msg_accept_req_rx msg_update_subscription_req_rx : RxClass

-- PumpConnection::new_rx_message; `none` is nullptr.
unfoldable pub pump_new_rx_message : ℕ → Option RxClass
pump_new_rx_message msg_type =
    if nat_beq msg_type m_req_prepare
    then some msg_prepare_req_rx
    else if nat_beq msg_type m_req_accept
    then some msg_accept_req_rx
    else none

-- NuzzleConnection::new_rx_message
unfoldable pub nuzzle_new_rx_message : ℕ → Option RxClass
nuzzle_new_rx_message msg_type =
    if nat_beq msg_type m_req_update_subscription then some msg_update_subscription_req_rx else none

-- EngineConnection::new_rx_message
unfoldable pub engine_new_rx_message : ℕ → Option RxClass
engine_new_rx_message msg_type = none

-- What a received message makes the engine do.
pub data Call : Type 0 where
  on_prepare_receive : RequestPrepare → Call
  on_accept_receive : RequestAccept → Call
  on_update_subscription_receive : RequestUpdateSubscription → Call

-- PumpConnection::completed_receive; `none` is "Received an unsupported message type".
unfoldable pub pump_completed_receive : Rx → Option Call
unfolding msg_prepare_req_rx_get msg_accept_req_rx_get
pump_completed_receive (prepare_req msg) =
    some (on_prepare_receive (msg_prepare_req_rx_get msg blank_request_prepare))
pump_completed_receive (accept_req msg) =
    some (on_accept_receive (msg_accept_req_rx_get msg blank_request_accept))
pump_completed_receive (update_subscription_req msg) = none

-- NuzzleConnection::completed_receive
unfoldable pub nuzzle_completed_receive : Rx → Option Call
unfolding msg_update_subscription_req_rx_get
nuzzle_completed_receive (update_subscription_req msg) = some (
    on_update_subscription_receive
      (msg_update_subscription_req_rx_get msg blank_request_update_subscription))
nuzzle_completed_receive _ = none

-- EngineConnection::completed_receive; it knows a message to prepare, and calls nothing for it.
unfoldable pub engine_completed_receive : Rx → Option (Option Call)
engine_completed_receive (prepare_req msg) = some none
engine_completed_receive _ = none
