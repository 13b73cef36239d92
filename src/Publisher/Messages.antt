-- ===== src/Publisher/Messages.antt =====
-- src/firehose/api/publisher_api.cpp: the messages of a publisher.
use firehose.Base.{ℕ, Option, none, some, if◌then◌else◌, nat_beq}
use firehose.Api.{RequestPublish, ResponsePublish, blank_response_publish}
use firehose.Api.Proto.{PayloadProto, AckProto, num, m_rsp_publish}
use firehose.Api.Fields.{set_header, get_response_header, set_telemetry, get_telemetry}

unfoldable pub msg_publish_req_tx_set : RequestPublish → PayloadProto → PayloadProto
unfolding set_header set_telemetry
msg_publish_req_tx_set request msg = record msg {
  header = set_header request.header msg.header;
  telemetry = set_telemetry request.telemetry msg.telemetry;
  topic_id = some request.topic_id;
  global_id = some request.global_id;
  timestamp = some request.timestamp;
  message = some request.message;
}

unfoldable pub msg_publish_rsp_rx_get : AckProto → ResponsePublish → ResponsePublish
unfolding get_response_header get_telemetry
msg_publish_rsp_rx_get msg response = record response {
  header = get_response_header response.header msg.header;
  telemetry = get_telemetry response.telemetry msg.telemetry;
  timestamp = num msg.timestamp;
  topic_id = num msg.topic_id;
  global_id = num msg.global_id;
}

pub data RxClass : Type 0 where
  msg_publish_rsp_rx : RxClass

-- PumpConnection::new_rx_message; `none` is nullptr.
unfoldable pub pump_new_rx_message : ℕ → Option RxClass
pump_new_rx_message msg_type =
    if nat_beq msg_type m_rsp_publish then some msg_publish_rsp_rx else none

-- PumpConnection::completed_receive, on the one class that its new_rx_message makes: what
-- Publisher::on_publish_response_receive is called with.
unfoldable pub pump_completed_receive : AckProto → ResponsePublish
unfolding msg_publish_rsp_rx_get
pump_completed_receive msg = msg_publish_rsp_rx_get msg blank_response_publish
