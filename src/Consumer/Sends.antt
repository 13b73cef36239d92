-- ===== src/Consumer/Sends.antt =====
-- The functions of the connections of src/firehose/api/consumer_api.cpp that send a message.
use firehose.Api.{Bytes, RequestUpdateSubscription}
use firehose.Api.Proto.{
  RequestUpdateSubscriptionProto, m_req_update_subscription, no_update_subscription,
}
use firehose.Network.Sender.{Sender, send_message}
use firehose.Network.Protobuf.{protobuf_tx}
use firehose.Consumer.Messages.{msg_update_subscription_req_tx_set}

-- NuzzleConnection::update_subscription
unfoldable pub update_subscription :
    (RequestUpdateSubscriptionProto → Bytes) → Sender → RequestUpdateSubscription → Sender
unfolding send_message
update_subscription serialize s request = send_message s (
    protobuf_tx serialize m_req_update_subscription
      (msg_update_subscription_req_tx_set request no_update_subscription))
