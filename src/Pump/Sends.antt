-- ===== src/Pump/Sends.antt =====
-- The functions of the connections of src/firehose/api/pump_api.cpp that send a message.
use firehose.Api.{Bytes, RequestAccept, RequestPrepare, ResponsePublish}
use firehose.Api.Proto.{
  AckProto, PayloadProto, RequestAcceptProto, m_req_accept, m_req_prepare, m_rsp_publish, no_accept,
  no_ack, no_payload,
}
use firehose.Network.Sender.{Sender, send_message}
use firehose.Network.Protobuf.{protobuf_tx}
use firehose.Pump.Messages.{msg_accept_req_tx_set, msg_prepare_req_tx_set, msg_publish_rsp_tx_set}

-- PublisherConnection::ack_publish
unfoldable pub ack_publish : (AckProto → Bytes) → Sender → ResponsePublish → Sender
unfolding send_message
ack_publish serialize s request =
    send_message s (protobuf_tx serialize m_rsp_publish (msg_publish_rsp_tx_set request no_ack))

-- EngineConnection::prepare
unfoldable pub prepare : (PayloadProto → Bytes) → Sender → RequestPrepare → Sender
unfolding send_message
prepare serialize s request =
    send_message s (protobuf_tx serialize m_req_prepare (msg_prepare_req_tx_set request no_payload))

-- EngineConnection::accept
unfoldable pub accept : (RequestAcceptProto → Bytes) → Sender → RequestAccept → Sender
unfolding send_message
accept serialize s request =
    send_message s (protobuf_tx serialize m_req_accept (msg_accept_req_tx_set request no_accept))
