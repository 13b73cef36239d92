-- ===== src/Nuzzle/Sends.antt =====
-- The functions of the connections of src/firehose/api/nuzzle_api.cpp that send a message.
use firehose.Api.{Bytes, RequestPublish, RequestUpdateSubscription, ResponsePublish}
use firehose.Api.Proto.{
  AckProto, PayloadProto, RequestUpdateSubscriptionProto, m_req_publish, m_req_update_subscription,
  m_rsp_publish, no_ack, no_payload, no_update_subscription,
}
use firehose.Network.Sender.{Sender, send_message}
use firehose.Network.Protobuf.{protobuf_tx}
use firehose.Nuzzle.Messages.{
  msg_publish_req_tx_set, msg_publish_rsp_tx_set, msg_update_subscription_req_tx_set,
}

-- ConsumerConnection::deliver
unfoldable pub deliver : (PayloadProto → Bytes) → Sender → RequestPublish → Sender
unfolding send_message
deliver serialize s request =
    send_message s (protobuf_tx serialize m_req_publish (msg_publish_req_tx_set request no_payload))

-- EngineConnection::update_subscription
unfoldable pub update_subscription :
    (RequestUpdateSubscriptionProto → Bytes) → Sender → RequestUpdateSubscription → Sender
unfolding send_message
update_subscription serialize s request = send_message s (
    protobuf_tx serialize m_req_update_subscription
      (msg_update_subscription_req_tx_set request no_update_subscription))

-- EngineConnection::deliver_ack
unfoldable pub deliver_ack : (AckProto → Bytes) → Sender → ResponsePublish → Sender
unfolding send_message
deliver_ack serialize s request =
    send_message s (protobuf_tx serialize m_rsp_publish (msg_publish_rsp_tx_set request no_ack))
