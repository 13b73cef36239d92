-- ===== src/Nuzzle/Messages.antt =====
-- src/firehose/api/nuzzle_api.cpp: the messages of a nuzzle, and what its connections do with a
-- message type and with a received message.
use firehose.Base.{ℕ, Option, none, some, if◌then◌else◌, nat_beq, ◌%◌, u8_mod}
use firehose.Api.{
  RequestPublish, ResponsePublish, RequestUpdateSubscription, ResponseUpdateSubscription,
  blank_request_publish, blank_response_publish, blank_request_update_subscription,
}
use firehose.Api.Proto.{
  PayloadProto, AckProto, RequestUpdateSubscriptionProto, ResponseUpdateSubscriptionProto, num,
  text, m_req_publish, m_rsp_publish, m_req_update_subscription,
}
use firehose.Api.Fields.{
  set_header, set_response_header, get_header, get_response_header, set_telemetry, get_telemetry,
}

unfoldable pub msg_publish_req_tx_set : RequestPublish → PayloadProto → PayloadProto
unfolding set_header set_telemetry
msg_publish_req_tx_set request msg = record msg {
  header = set_header request.header msg.header;
  telemetry = set_telemetry request.telemetry msg.telemetry;
  topic_id = some request.topic_id;
  timestamp = some request.timestamp;
  global_id = some request.global_id;
  message = some request.message;
}

unfoldable pub msg_publish_req_rx_get : PayloadProto → RequestPublish → RequestPublish
unfolding get_header get_telemetry
msg_publish_req_rx_get msg request = record request {
  header = get_header request.header msg.header;
  telemetry = get_telemetry request.telemetry msg.telemetry;
  topic_id = num msg.topic_id;
  timestamp = num msg.timestamp;
  global_id = num msg.global_id;
  message = text msg.message;
}

unfoldable pub msg_publish_rsp_tx_set : ResponsePublish → AckProto → AckProto
unfolding set_response_header set_telemetry
msg_publish_rsp_tx_set response msg = record msg {
  header = set_response_header response.header msg.header;
  telemetry = set_telemetry response.telemetry msg.telemetry;
  timestamp = some response.timestamp;
  global_id = some response.global_id;
  topic_id = some response.topic_id;
}

unfoldable pub msg_publish_rsp_rx_get : AckProto → ResponsePublish → ResponsePublish
unfolding get_response_header get_telemetry
msg_publish_rsp_rx_get msg response = record response {
  header = get_response_header response.header msg.header;
  telemetry = get_telemetry response.telemetry msg.telemetry;
  global_id = num msg.global_id;
  topic_id = num msg.topic_id;
  timestamp = num msg.timestamp;
}

-- Telemetry is not put on the wire.
unfoldable pub msg_update_subscription_req_tx_set :
    RequestUpdateSubscription → RequestUpdateSubscriptionProto → RequestUpdateSubscriptionProto
unfolding set_header
msg_update_subscription_req_tx_set request msg = record msg {
  header = set_header request.header msg.header;
  topic_id = some request.topic_id;
  timestamp = some request.timestamp;
  action = some request.action;
}

-- A uint32 is read into a uint8_t; telemetry is not read.
unfoldable pub msg_update_subscription_req_rx_get :
    RequestUpdateSubscriptionProto → RequestUpdateSubscription → RequestUpdateSubscription
unfolding get_header
msg_update_subscription_req_rx_get msg request = record request {
  header = get_header request.header msg.header;
  topic_id = num msg.topic_id;
  timestamp = num msg.timestamp;
  action = num msg.action % u8_mod;
}

-- No code makes an object of msg_update_subscription_rsp_tx or _rx.
unfoldable pub msg_update_subscription_rsp_tx_set :
    ResponseUpdateSubscription → ResponseUpdateSubscriptionProto → ResponseUpdateSubscriptionProto
unfolding set_response_header
msg_update_subscription_rsp_tx_set response msg = record msg {
  header = set_response_header response.header msg.header;
  topic_id = some response.topic_id;
  timestamp = some response.timestamp;
  action = some response.action;
}

unfoldable pub msg_update_subscription_rsp_rx_get :
    ResponseUpdateSubscriptionProto → ResponseUpdateSubscription → ResponseUpdateSubscription
unfolding get_response_header
msg_update_subscription_rsp_rx_get msg response = record response {
  header = get_response_header response.header msg.header;
  topic_id = num msg.topic_id;
  timestamp = num msg.timestamp;
  action = num msg.action % u8_mod;
}

pub data Rx : Type 0 where
  publish_req : PayloadProto → Rx
  publish_rsp : AckProto → Rx
  update_subscription_req : RequestUpdateSubscriptionProto → Rx

pub data RxClass : Type 0 where
  msg_publish_req_rx msg_publish_rsp_rx msg_update_subscription_req_rx : RxClass

-- ConsumerConnection::new_rx_message; `none` is nullptr.
unfoldable pub consumer_new_rx_message : ℕ → Option RxClass
consumer_new_rx_message msg_type =
    if nat_beq msg_type m_rsp_publish
    then some msg_publish_rsp_rx
    else if nat_beq msg_type m_req_update_subscription
    then some msg_update_subscription_req_rx
    else none

-- EngineConnection::new_rx_message
unfoldable pub engine_new_rx_message : ℕ → Option RxClass
engine_new_rx_message msg_type =
    if nat_beq msg_type m_req_publish then some msg_publish_req_rx else none

pub data Call : Type 0 where
  on_publish_receive : RequestPublish → Call
  on_publish_response_receive : ResponsePublish → Call
  on_update_subscription_receive : RequestUpdateSubscription → Call

-- ConsumerConnection::completed_receive; `none` is "Received an unsupported message type".
unfoldable pub consumer_completed_receive : Rx → Option Call
unfolding msg_update_subscription_req_rx_get msg_publish_rsp_rx_get
consumer_completed_receive (update_subscription_req msg) = some (
    on_update_subscription_receive
      (msg_update_subscription_req_rx_get msg blank_request_update_subscription))
consumer_completed_receive (publish_rsp msg) =
    some (on_publish_response_receive (msg_publish_rsp_rx_get msg blank_response_publish))
consumer_completed_receive (publish_req msg) = none

-- EngineConnection::completed_receive
unfoldable pub engine_completed_receive : Rx → Option Call
unfolding msg_publish_req_rx_get
engine_completed_receive (publish_req msg) =
    some (on_publish_receive (msg_publish_req_rx_get msg blank_request_publish))
engine_completed_receive _ = none
