-- ===== src/Publisher/Sends.antt =====
-- The functions of the connections of src/firehose/api/publisher_api.cpp that send a message.
use firehose.Api.{Bytes, RequestPublish}
use firehose.Api.Proto.{PayloadProto, m_req_publish, no_payload}
use firehose.Network.Sender.{Sender, send_message}
use firehose.Network.Protobuf.{protobuf_tx}
use firehose.Publisher.Messages.{msg_publish_req_tx_set}

-- PumpConnection::publish
unfoldable pub publish : (PayloadProto → Bytes) → Sender → RequestPublish → Sender
unfolding send_message
publish serialize s request =
    send_message s (protobuf_tx serialize m_req_publish (msg_publish_req_tx_set request no_payload))
