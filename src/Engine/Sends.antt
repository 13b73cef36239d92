-- ===== src/Engine/Sends.antt =====
-- The functions of the connections of src/firehose/api/engine_api.cpp that send a message.
use firehose.Api.{Bytes, RequestPublish, ResponsePrepare}
use firehose.Api.Proto.{AckProto, PayloadProto, m_req_publish, m_rsp_prepare, no_ack, no_payload}
use firehose.Network.Sender.{Sender, send_message}
use firehose.Network.Protobuf.{protobuf_tx}
use firehose.Engine.Messages.{msg_prepare_rsp_tx_set, msg_publish_req_tx_set}

-- PumpConnection::prepare_ack
unfoldable pub prepare_ack : (AckProto → Bytes) → Sender → ResponsePrepare → Sender
unfolding send_message
prepare_ack serialize s request =
    send_message s (protobuf_tx serialize m_rsp_prepare (msg_prepare_rsp_tx_set request no_ack))

-- NuzzleConnection::publish
unfoldable pub publish : (PayloadProto → Bytes) → Sender → RequestPublish → Sender
unfolding send_message
publish serialize s request =
    send_message s (protobuf_tx serialize m_req_publish (msg_publish_req_tx_set request no_payload))
