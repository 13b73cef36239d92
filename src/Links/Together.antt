-- ===== src/Links/Together.antt =====
-- The links together: the messages that carry publications, those that answer them, and the updates
-- of subscriptions.
use firehose.Base.{
  ℕ, ◌<◌, ◌≡◌, refl, sym, ap, ap₂, ◌∙◌, List, [], ◌∷◌, map, Option, some, u32_mod, u8_mod, nat_beq,
  if◌then◌else◌, arith,
}
use firehose.Api.{
  RequestPublish, ResponsePublish, RequestPrepare, ResponsePrepare, RequestUpdateSubscription,
  blank_telemetry,
}
use firehose.Api.Proto.{no_payload, no_ack, no_update_subscription}
use firehose.Api.Fields.{carried}
use firehose.Nuzzle as NuzzleNode
use firehose.Nuzzle.{Nuzzle}
use firehose.Publisher.Messages as PublisherMessages
use firehose.Pump.Messages as PumpMessages
use firehose.Engine.Messages as EngineMessages
use firehose.Nuzzle.Messages as NuzzleMessages
use firehose.Consumer.Messages as ConsumerMessages
use firehose.Links.{
  publish_to_pump, prepare_to_engine, publish_to_nuzzle, publish_to_consumer, prepare_ack_to_pump,
  publish_response_to_publisher, update_to_nuzzle, update_to_engine,
}

-- A publication reaches the handler of the pump, the nuzzle and the consumer, a message to prepare that
-- of the engine, an acknowledgement that of the pump, and an answer that of the publisher, with every
-- field as it was sent but the two of telemetry that `carried` names, when their `int` fields are in
-- range.
pub messages_arrive :
    (r : RequestPublish) (q : RequestPrepare) (a : ResponsePrepare) (b : ResponsePublish)
    → r.header.sender_request_id < u32_mod
    → q.header.sender_request_id < u32_mod
    → a.header.sender_request_id < u32_mod
    → b.header.sender_request_id < u32_mod
    → (PumpMessages.publisher_completed_receive
          (PumpMessages.publish_req (PublisherMessages.msg_publish_req_tx_set r no_payload))
        ≡ some (
            PumpMessages.on_publish_receive
              (record r { telemetry = carried blank_telemetry r.telemetry })))
      × (EngineMessages.pump_completed_receive
            (EngineMessages.prepare_req (PumpMessages.msg_prepare_req_tx_set q no_payload))
          ≡ some (
              EngineMessages.on_prepare_receive
                (record q { telemetry = carried blank_telemetry q.telemetry })))
      × (NuzzleMessages.engine_completed_receive
            (NuzzleMessages.publish_req (EngineMessages.msg_publish_req_tx_set r no_payload))
          ≡ some (
              NuzzleMessages.on_publish_receive
                (record r { telemetry = carried blank_telemetry r.telemetry })))
      × (ConsumerMessages.nuzzle_completed_receive
            (NuzzleMessages.msg_publish_req_tx_set r no_payload)
          ≡ record r { telemetry = carried blank_telemetry r.telemetry })
      × (PumpMessages.engine_completed_receive
            (PumpMessages.prepare_rsp (EngineMessages.msg_prepare_rsp_tx_set a no_ack))
          ≡ some (
              PumpMessages.on_prepare_ack_receive
                (record a { telemetry = carried blank_telemetry a.telemetry })))
      × (PublisherMessages.pump_completed_receive (PumpMessages.msg_publish_rsp_tx_set b no_ack)
          ≡ record b { telemetry = carried blank_telemetry b.telemetry })
messages_arrive r q a b h k m n = (
  publish_to_pump r h,
  prepare_to_engine q k,
  publish_to_nuzzle r h,
  publish_to_consumer r h,
  prepare_ack_to_pump a m,
  publish_response_to_publisher b n,
)

-- What the engines make of what a nuzzle sends them, each with the engine.
abbrev pub arrived : List NuzzleNode.Sent → List (ℕ × Option EngineMessages.Call)
arrived [] = []
arrived (NuzzleNode.deliver c r ∷ rest) = arrived rest
arrived (NuzzleNode.update_subscription e r ∷ rest) =
    (
      e,
      EngineMessages.nuzzle_completed_receive (
          EngineMessages.update_subscription_req
            (NuzzleMessages.msg_update_subscription_req_tx_set r no_update_subscription)),
    )
    ∷ arrived rest

-- What an engine is told of a topic by a nuzzle whose local variable holds the request.
abbrev pub told : ℕ → ℕ → RequestUpdateSubscription → EngineMessages.Call
told topic action r =
    EngineMessages.on_update_subscription_receive
      (record r { topic_id = topic; action = action; telemetry = blank_telemetry })

arrived-tell :
    (l : NuzzleNode.Locals) (topic action : ℕ) (es : List ℕ)
    → ((e : ℕ) → (l e).header.sender_request_id < u32_mod)
    → action < u8_mod
    → arrived (
        map
          (λ e.
            NuzzleNode.update_subscription e (record (l e) { topic_id = topic; action = action }))
          es)
      ≡ map (λ e. (e, some (told topic action (l e)))) es
arrived-tell l topic action [] h small = refl
arrived-tell l topic action (e ∷ es) h small =
    ap₂ (λ c rest. (e, c) ∷ rest)
      (update_to_engine (record (l e) { topic_id = topic; action = action }) (h e) small)
      (arrived-tell l topic action es h small)

-- What a nuzzle sends for an update.
update-sent :
    (l : NuzzleNode.Locals) (n : Nuzzle) (consumer : ℕ) (r : RequestUpdateSubscription)
    {n' : Nuzzle} {sent : List NuzzleNode.Sent}
    → NuzzleNode.on_update_subscription_receive l n consumer r ≡ some (n', sent)
    → NuzzleNode.tell_engines l n r.topic_id (if nat_beq r.action 1 then 1 else 0) ≡ sent
unfolding NuzzleNode.on_update_subscription_receive
update-sent l n consumer r h = ground arith

-- A subscription update of a consumer, whose `int` field and whose action, a `uint8_t`, are in range,
-- reaches the handler of the nuzzle as it was sent, with the telemetry of a new object. If that handler
-- meets no undefined behaviour, and the `int` fields of the local variables that it sends are in range,
-- each engine of the nuzzle, in the order of its connections, handles one update in turn: it has the
-- topic of the consumer's, the action 1 if that of the consumer's is 1 and else 0, the telemetry of a
-- new object, and the header that the nuzzle's variable for that engine had, not the consumer's.
pub updates_arrive :
    (l : NuzzleNode.Locals) (n : Nuzzle) (consumer : ℕ) (r : RequestUpdateSubscription)
    {n' : Nuzzle} {sent : List NuzzleNode.Sent}
    → r.header.sender_request_id < u32_mod
    → r.action < u8_mod
    → ((e : ℕ) → (l e).header.sender_request_id < u32_mod)
    → NuzzleNode.on_update_subscription_receive l n consumer
        (record r { telemetry = blank_telemetry })
      ≡ some (n', sent)
    → (NuzzleMessages.consumer_completed_receive (
          NuzzleMessages.update_subscription_req
            (ConsumerMessages.msg_update_subscription_req_tx_set r no_update_subscription))
        ≡ some (
            NuzzleMessages.on_update_subscription_receive
              (record r { telemetry = blank_telemetry })))
      × (arrived sent
          ≡ map
              (λ e. (e, some (told r.topic_id (if nat_beq r.action 1 then 1 else 0) (l e))))
              n.engine_connections)
updates_arrive l n consumer r h small blank handled =
    let action : ℕ = if nat_beq r.action 1 then 1 else 0 in
    let fits : action < u8_mod = ground arith in
    (
      update_to_nuzzle r h small,
      ap arrived (sym (update-sent l n consumer (record r { telemetry = blank_telemetry }) handled))
          ∙ arrived-tell l r.topic_id action n.engine_connections blank fits,
    )
