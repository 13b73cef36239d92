-- ===== src/Consumer/Messages.antt =====
-- src/firehose/api/consumer_api.cpp: the messages of a consumer.
use firehose.Base.{ℕ, Option, none, some, if◌then◌else◌, nat_beq}
use firehose.Api.{RequestPublish, ResponsePublish, RequestUpdateSubscription, blank_request_publish}
use firehose.Api.Proto.{
  PayloadProto, AckProto, RequestUpdateSubscriptionProto, num, text, m_req_publish,
}
use firehose.Api.Fields.{set_header, set_response_header, get_header, set_telemetry, get_telemetry}

unfoldable pub msg_publish_req_rx_get : PayloadProto → RequestPublish → RequestPublish
unfolding get_header get_telemetry
msg_publish_req_rx_get msg request = record request {
  header = get_header request.header msg.header;
  telemetry = get_telemetry request.telemetry msg.telemetry;
  topic_id = num msg.topic_id;
  global_id = num msg.global_id;
  timestamp = num msg.timestamp;
  message = text msg.message;
}

unfoldable pub msg_publish_rsp_tx_set : ResponsePublish → AckProto → AckProto
unfolding set_response_header set_telemetry
msg_publish_rsp_tx_set response msg = record msg {
  header = set_response_header response.header msg.header;
  telemetry = set_telemetry response.telemetry msg.telemetry;
  timestamp = some response.timestamp;
  topic_id = some response.topic_id;
  global_id = some response.global_id;
}

unfoldable pub msg_update_subscription_req_tx_set :
    RequestUpdateSubscription → RequestUpdateSubscriptionProto → RequestUpdateSubscriptionProto
unfolding set_header set_telemetry
msg_update_subscription_req_tx_set request msg = record msg {
  header = set_header request.header msg.header;
  telemetry = set_telemetry request.telemetry msg.telemetry;
  topic_id = some request.topic_id;
  timestamp = some request.timestamp;
  action = some request.action;
}

pub data RxClass : Type 0 where
  msg_publish_req_rx : RxClass

-- NuzzleConnection::new_rx_message; `none` is nullptr.
unfoldable pub nuzzle_new_rx_message : ℕ → Option RxClass
nuzzle_new_rx_message msg_type =
    if nat_beq msg_type m_req_publish then some msg_publish_req_rx else none

-- NuzzleConnection::completed_receive, on the one class that its new_rx_message makes: what
-- Consumer::on_publish_receive is called with.
unfoldable pub nuzzle_completed_receive : PayloadProto → RequestPublish
unfolding msg_publish_req_rx_get
nuzzle_completed_receive msg = msg_publish_req_rx_get msg blank_request_publish
