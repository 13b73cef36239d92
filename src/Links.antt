-- ===== src/Links.antt =====
-- What one node puts into a message and the next node reads out of it, for each link of the system.
-- A message object is new on both sides: no field of the wire message is set before the sender's
-- `set`, and the receiver's `get` starts from the struct that `std::make_shared` gives.
pub mod Together
pub mod Streams
pub mod Types
use firehose.Base.{[], ◌<◌, ◌%◌, ◌≡◌, some, arith, u32_mod, u8_mod}
use firehose.Api.{
  RequestPublish, ResponsePublish, RequestPrepare, ResponsePrepare, RequestAccept,
  RequestUpdateSubscription, ResponseUpdateSubscription, blank_telemetry, blank_request_header,
  blank_response_header,
}
use firehose.Api.Proto.{
  no_payload, no_ack, no_accept, no_update_subscription, no_update_response, no_request_header,
  no_response_header, no_telemetry,
}
use firehose.Api.Fields.{get-set_header, get-set_response_header, get-set_telemetry, carried}
use firehose.Publisher.Messages as PublisherMessages
use firehose.Pump.Messages as PumpMessages
use firehose.Engine.Messages as EngineMessages
use firehose.Nuzzle.Messages as NuzzleMessages
use firehose.Consumer.Messages as ConsumerMessages

-- A publication that a publisher sends reaches the handler of the pump with every field as it was
-- sent but the two of telemetry that `carried` names, when its `int` field is in range.
pub publish_to_pump :
    (r : RequestPublish)
    → r.header.sender_request_id < u32_mod
    → PumpMessages.publisher_completed_receive
        (PumpMessages.publish_req (PublisherMessages.msg_publish_req_tx_set r no_payload))
      ≡ some (
          PumpMessages.on_publish_receive
            (record r { telemetry = carried blank_telemetry r.telemetry }))
unfolding PumpMessages.publisher_completed_receive PumpMessages.msg_publish_req_rx_get
    PublisherMessages.msg_publish_req_tx_set
publish_to_pump r h = λ i. some (
    PumpMessages.on_publish_receive (record r {
      header = get-set_header r.header blank_request_header no_request_header h i;
      telemetry = get-set_telemetry r.telemetry blank_telemetry no_telemetry i;
    }))

-- A message to prepare that a pump sends reaches the handler of the engine with every field as it
-- was sent but the two of telemetry that `carried` names, when its `int` field is in range.
pub prepare_to_engine :
    (r : RequestPrepare)
    → r.header.sender_request_id < u32_mod
    → EngineMessages.pump_completed_receive
        (EngineMessages.prepare_req (PumpMessages.msg_prepare_req_tx_set r no_payload))
      ≡ some (
          EngineMessages.on_prepare_receive
            (record r { telemetry = carried blank_telemetry r.telemetry }))
unfolding EngineMessages.pump_completed_receive EngineMessages.msg_prepare_req_rx_get
    PumpMessages.msg_prepare_req_tx_set
prepare_to_engine r h = λ i. some (
    EngineMessages.on_prepare_receive (record r {
      header = get-set_header r.header blank_request_header no_request_header h i;
      telemetry = get-set_telemetry r.telemetry blank_telemetry no_telemetry i;
    }))

-- The acknowledgement that an engine sends reaches the handler of the pump with every field as it
-- was sent but the two of telemetry that `carried` names, when its `int` field is in range.
pub prepare_ack_to_pump :
    (r : ResponsePrepare)
    → r.header.sender_request_id < u32_mod
    → PumpMessages.engine_completed_receive
        (PumpMessages.prepare_rsp (EngineMessages.msg_prepare_rsp_tx_set r no_ack))
      ≡ some (
          PumpMessages.on_prepare_ack_receive
            (record r { telemetry = carried blank_telemetry r.telemetry }))
unfolding PumpMessages.engine_completed_receive PumpMessages.msg_prepare_rsp_rx_get
    EngineMessages.msg_prepare_rsp_tx_set
prepare_ack_to_pump r h = λ i. some (
    PumpMessages.on_prepare_ack_receive (record r {
      header = get-set_response_header r.header blank_response_header no_response_header h i;
      telemetry = get-set_telemetry r.telemetry blank_telemetry no_telemetry i;
    }))

-- A message to accept that a pump sends reaches the handler of the engine with its `message` empty,
-- whatever it was, and every other field as it was sent but the two of telemetry that `carried`
-- names, when its `int` field is in range.
accept_to_engine :
    (r : RequestAccept)
    → r.header.sender_request_id < u32_mod
    → EngineMessages.pump_completed_receive
        (EngineMessages.accept_req (PumpMessages.msg_accept_req_tx_set r no_accept))
      ≡ some (
          EngineMessages.on_accept_receive
            (record r { telemetry = carried blank_telemetry r.telemetry; message = [] }))
unfolding EngineMessages.pump_completed_receive EngineMessages.msg_accept_req_rx_get
    PumpMessages.msg_accept_req_tx_set
accept_to_engine r h = λ i. some (
    EngineMessages.on_accept_receive (record r {
      header = get-set_header r.header blank_request_header no_request_header h i;
      telemetry = get-set_telemetry r.telemetry blank_telemetry no_telemetry i;
      message = [];
    }))

-- A publication that an engine forwards reaches the handler of the nuzzle with every field as it was
-- sent but the two of telemetry that `carried` names, when its `int` field is in range.
pub publish_to_nuzzle :
    (r : RequestPublish)
    → r.header.sender_request_id < u32_mod
    → NuzzleMessages.engine_completed_receive
        (NuzzleMessages.publish_req (EngineMessages.msg_publish_req_tx_set r no_payload))
      ≡ some (
          NuzzleMessages.on_publish_receive
            (record r { telemetry = carried blank_telemetry r.telemetry }))
unfolding NuzzleMessages.engine_completed_receive NuzzleMessages.msg_publish_req_rx_get
    EngineMessages.msg_publish_req_tx_set
publish_to_nuzzle r h = λ i. some (
    NuzzleMessages.on_publish_receive (record r {
      header = get-set_header r.header blank_request_header no_request_header h i;
      telemetry = get-set_telemetry r.telemetry blank_telemetry no_telemetry i;
    }))

-- A publication that a nuzzle delivers reaches the handler of the consumer with every field as it
-- was sent but the two of telemetry that `carried` names, when its `int` field is in range.
pub publish_to_consumer :
    (r : RequestPublish)
    → r.header.sender_request_id < u32_mod
    → ConsumerMessages.nuzzle_completed_receive (NuzzleMessages.msg_publish_req_tx_set r no_payload)
      ≡ record r { telemetry = carried blank_telemetry r.telemetry }
unfolding ConsumerMessages.nuzzle_completed_receive ConsumerMessages.msg_publish_req_rx_get
    NuzzleMessages.msg_publish_req_tx_set
publish_to_consumer r h = λ i. record r {
  header = get-set_header r.header blank_request_header no_request_header h i;
  telemetry = get-set_telemetry r.telemetry blank_telemetry no_telemetry i;
}

-- A subscription update that a consumer sends reaches the handler of the nuzzle as it was sent, with
-- the telemetry of a new object, when its `int` field and its action, a `uint8_t`, are in range.
pub update_to_nuzzle :
    (r : RequestUpdateSubscription)
    → r.header.sender_request_id < u32_mod
    → r.action < u8_mod
    → NuzzleMessages.consumer_completed_receive (
        NuzzleMessages.update_subscription_req
          (ConsumerMessages.msg_update_subscription_req_tx_set r no_update_subscription))
      ≡ some
          (NuzzleMessages.on_update_subscription_receive (record r { telemetry = blank_telemetry }))
unfolding NuzzleMessages.consumer_completed_receive
    NuzzleMessages.msg_update_subscription_req_rx_get
    ConsumerMessages.msg_update_subscription_req_tx_set
update_to_nuzzle r h small =
    let kept : r.action % u8_mod ≡ r.action = omega arith in
    λ i. some (
      NuzzleMessages.on_update_subscription_receive (record r {
        header = get-set_header r.header blank_request_header no_request_header h i;
        telemetry = blank_telemetry;
        action = kept i;
      }))

-- A subscription update that a nuzzle sends reaches the handler of the engine as it was sent, with
-- the telemetry of a new object, when its `int` field and its action, a `uint8_t`, are in range.
pub update_to_engine :
    (r : RequestUpdateSubscription)
    → r.header.sender_request_id < u32_mod
    → r.action < u8_mod
    → EngineMessages.nuzzle_completed_receive (
        EngineMessages.update_subscription_req
          (NuzzleMessages.msg_update_subscription_req_tx_set r no_update_subscription))
      ≡ some
          (EngineMessages.on_update_subscription_receive (record r { telemetry = blank_telemetry }))
unfolding EngineMessages.nuzzle_completed_receive EngineMessages.msg_update_subscription_req_rx_get
    NuzzleMessages.msg_update_subscription_req_tx_set
update_to_engine r h small =
    let kept : r.action % u8_mod ≡ r.action = omega arith in
    λ i. some (
      EngineMessages.on_update_subscription_receive (record r {
        header = get-set_header r.header blank_request_header no_request_header h i;
        telemetry = blank_telemetry;
        action = kept i;
      }))

-- The answer to a publication that a pump sends reaches the handler of the publisher with every
-- field as it was sent but the two of telemetry that `carried` names, when its `int` field is in
-- range.
pub publish_response_to_publisher :
    (r : ResponsePublish)
    → r.header.sender_request_id < u32_mod
    → PublisherMessages.pump_completed_receive (PumpMessages.msg_publish_rsp_tx_set r no_ack)
      ≡ record r { telemetry = carried blank_telemetry r.telemetry }
unfolding PublisherMessages.pump_completed_receive PublisherMessages.msg_publish_rsp_rx_get
    PumpMessages.msg_publish_rsp_tx_set
publish_response_to_publisher r h = λ i. record r {
  header = get-set_response_header r.header blank_response_header no_response_header h i;
  telemetry = get-set_telemetry r.telemetry blank_telemetry no_telemetry i;
}

-- A nuzzle's response to an update, if it were sent and read by the message classes of the nuzzle,
-- would keep every field but telemetry, when its `int` field and its action are in range.
update_response_kept :
    (r q : ResponseUpdateSubscription)
    → r.header.sender_request_id < u32_mod
    → r.action < u8_mod
    → NuzzleMessages.msg_update_subscription_rsp_rx_get
        (NuzzleMessages.msg_update_subscription_rsp_tx_set r no_update_response)
        q
      ≡ record r { telemetry = q.telemetry }
unfolding NuzzleMessages.msg_update_subscription_rsp_rx_get
    NuzzleMessages.msg_update_subscription_rsp_tx_set
update_response_kept r q h small =
    let kept : r.action % u8_mod ≡ r.action = omega arith in
    λ i. record r {
      header = get-set_response_header r.header q.header no_response_header h i;
      telemetry = q.telemetry;
      action = kept i;
    }
