-- ===== src/Tests/LinkTests.antt =====
-- One message of each kind over its link.
use firehose.Base.{ℕ, ◌≡◌, ◌≢◌, ◌↔◌, refl, List, [], ◌∷◌, map, Option, some, none, arith}
use firehose.Api.{
  Bytes, RequestPublish, blank_telemetry, blank_request_update_subscription, blank_request_header,
}
use firehose.Api.Proto.{num, PayloadProto, no_payload, no_ack, no_update_subscription}
use firehose.Api.Fields.{carried}
use firehose.Nuzzle as NuzzleNode
use firehose.Nuzzle.{Nuzzle}
use firehose.Publisher.Messages as PublisherMessages
use firehose.Pump.Messages as PumpMessages
use firehose.Engine.Messages as EngineMessages
use firehose.Nuzzle.Messages as NuzzleMessages
use firehose.Consumer.Messages as ConsumerMessages
use firehose.Links.Types.{engine_class, nuzzle_class, pump_class, handled_exactly}
use firehose.Links.Together.{messages_arrive, updates_arrive, arrived, told}
use firehose.Links.Streams.{
  IsSendable, handled, requests, timed_publication_tx, publications_reach_nuzzle,
}
use firehose.Network.Sender as Sending
use firehose.Network.Sender.{Clock, posted}
use firehose.Network.Sender.Drain.{writes}
use firehose.Network.Receiver as Receiving
use firehose.Network.Receiver.Frames.{protobuf_handler}
use firehose.Network.Transfer.{bytes_of}
use firehose.Network.Exchange.{send_all, parsed_of, IsClock}
use firehose.Engine.Sends as EngineSends
use firehose.Tests.Data.{publication, publication_ack, preparation, preparation_ack, subscription}

messages_arrive_example :
    (PumpMessages.publisher_completed_receive (
        PumpMessages.publish_req
          (PublisherMessages.msg_publish_req_tx_set (publication 5) no_payload))
      ≡ some (
          PumpMessages.on_publish_receive (record (publication 5) {
            telemetry = carried blank_telemetry (publication 5).telemetry;
          })))
    × (EngineMessages.pump_completed_receive (
          EngineMessages.prepare_req
            (PumpMessages.msg_prepare_req_tx_set (preparation 5) no_payload))
        ≡ some (
            EngineMessages.on_prepare_receive (record (preparation 5) {
              telemetry = carried blank_telemetry (preparation 5).telemetry;
            })))
    × (NuzzleMessages.engine_completed_receive (
          NuzzleMessages.publish_req
            (EngineMessages.msg_publish_req_tx_set (publication 5) no_payload))
        ≡ some (
            NuzzleMessages.on_publish_receive (record (publication 5) {
              telemetry = carried blank_telemetry (publication 5).telemetry;
            })))
    × (ConsumerMessages.nuzzle_completed_receive
          (NuzzleMessages.msg_publish_req_tx_set (publication 5) no_payload)
        ≡ record (publication 5) { telemetry = carried blank_telemetry (publication 5).telemetry })
    × (PumpMessages.engine_completed_receive
          (PumpMessages.prepare_rsp (EngineMessages.msg_prepare_rsp_tx_set preparation_ack no_ack))
        ≡ some (
            PumpMessages.on_prepare_ack_receive (record preparation_ack {
              telemetry = carried blank_telemetry preparation_ack.telemetry;
            })))
    × (PublisherMessages.pump_completed_receive
          (PumpMessages.msg_publish_rsp_tx_set publication_ack no_ack)
        ≡ record publication_ack { telemetry = carried blank_telemetry publication_ack.telemetry })
messages_arrive_example =
    messages_arrive (publication 5) (preparation 5) preparation_ack publication_ack (omega arith)
      (omega arith) (omega arith) (omega arith)

-- Nuzzle 41 with the engines 31 and 32, and consumer 51, who subscribes.
abbrev nuzzle : Nuzzle
nuzzle = NuzzleNode.connect_to_engine (NuzzleNode.connect_to_engine (NuzzleNode.init 41 3) 31) 32

abbrev locals : NuzzleNode.Locals
locals e = record blank_request_update_subscription {
  header = record blank_request_header { sender_id = e };
}

updates_arrive_example :
    (NuzzleMessages.consumer_completed_receive (
        NuzzleMessages.update_subscription_req (
          ConsumerMessages.msg_update_subscription_req_tx_set
            (subscription 1)
            no_update_subscription))
      ≡ some (
          NuzzleMessages.on_update_subscription_receive
            (record (subscription 1) { telemetry = blank_telemetry })))
    × (arrived (
          NuzzleNode.update_subscription 31 (record (locals 31) { topic_id = 3; action = 1 })
          ∷ NuzzleNode.update_subscription 32 (record (locals 32) { topic_id = 3; action = 1 })
          ∷ [])
        ≡ (31, some (told 3 1 (locals 31))) ∷ (32, some (told 3 1 (locals 32))) ∷ [])
unfolding NuzzleNode.on_update_subscription_receive NuzzleNode.subscribe
    NuzzleNode.connect_to_engine
updates_arrive_example =
    updates_arrive locals nuzzle 51 (subscription 1) (omega arith) (omega arith) (λ e. omega arith)
      refl

-- The only messages here are `publication 5` and `publication 6`, and their bytes are their global id.
abbrev serialize : PayloadProto → Bytes
serialize m = num m.global_id ∷ []

abbrev parse : NuzzleMessages.RxClass → Bytes → Option NuzzleMessages.Rx
parse class [] = none
parse class (id ∷ rest) =
    some (
      NuzzleMessages.publish_req
        (EngineMessages.msg_publish_req_tx_set (publication id) no_payload))

abbrev clock : Clock
clock = record { now = 1000; local_delta = 0 }

clock-IsClock : IsClock clock
clock-IsClock = record { now = omega arith; local_delta = omega arith }

-- The clock when the second message is started.
abbrev later_clock : Clock
later_clock = record { now = 1700; local_delta = 5 }

later_clock-IsClock : IsClock later_clock
later_clock-IsClock = record { now = omega arith; local_delta = omega arith }

abbrev stream : List (Clock × RequestPublish)
stream = (clock, publication 5) ∷ (later_clock, publication 6) ∷ []

publication-IsSendable :
    (t : Clock) (id : ℕ) → IsClock t → IsSendable serialize parse (t, publication id)
unfolding EngineMessages.msg_publish_req_tx_set
publication-IsSendable t id v = record {
  small = omega arith;
  parses = refl;
  short = omega arith;
  words = v;
}

publications_reach_nuzzle_example :
    (arriving : List Receiving.Read) × (bytes_of arriving
      ≡ (Sending.run
          (send_all (EngineSends.publish serialize) Sending.init (requests stream))
          (posted clock ∷ writes (map (timed_publication_tx serialize parse) stream))).wire)
    × (handled NuzzleMessages.engine_completed_receive (
          map parsed_of
            (Receiving.run
              (protobuf_handler NuzzleMessages.engine_new_rx_message parse)
              Receiving.init
              arriving).completed)
        ≡ map
            (λ r. some (
              NuzzleMessages.on_publish_receive
                (record r { telemetry = carried blank_telemetry r.telemetry })))
            (requests stream))
publications_reach_nuzzle_example = publications_reach_nuzzle serialize parse clock stream (
  publication-IsSendable clock 5 clock-IsClock,
  (publication-IsSendable later_clock 6 later_clock-IsClock, tt),
)

handled_exactly_example :
    (((t : ℕ) × (EngineMessages.pump_new_rx_message t
          ≡ some (engine_class (EngineMessages.prepare_req no_payload))))
      ↔ (EngineMessages.pump_completed_receive (EngineMessages.prepare_req no_payload) ≢ none))
    × (((t : ℕ) × (EngineMessages.nuzzle_new_rx_message t
            ≡ some (engine_class (EngineMessages.prepare_req no_payload))))
        ↔ (EngineMessages.nuzzle_completed_receive (EngineMessages.prepare_req no_payload) ≢ none))
    × (((t : ℕ) × (NuzzleMessages.consumer_new_rx_message t
            ≡ some (nuzzle_class (NuzzleMessages.publish_req no_payload))))
        ↔ (NuzzleMessages.consumer_completed_receive (NuzzleMessages.publish_req no_payload)
            ≢ none))
    × (((t : ℕ) × (NuzzleMessages.engine_new_rx_message t
            ≡ some (nuzzle_class (NuzzleMessages.publish_req no_payload))))
        ↔ (NuzzleMessages.engine_completed_receive (NuzzleMessages.publish_req no_payload) ≢ none))
    × (((t : ℕ) × (PumpMessages.publisher_new_rx_message t
            ≡ some (pump_class (PumpMessages.prepare_rsp no_ack))))
        ↔ (PumpMessages.publisher_completed_receive (PumpMessages.prepare_rsp no_ack) ≢ none))
    × (((t : ℕ) × (PumpMessages.engine_new_rx_message t
            ≡ some (pump_class (PumpMessages.prepare_rsp no_ack))))
        ↔ (PumpMessages.engine_completed_receive (PumpMessages.prepare_rsp no_ack) ≢ none))
    × (EngineMessages.engine_new_rx_message 3 ≡ none)
handled_exactly_example =
    handled_exactly (EngineMessages.prepare_req no_payload) (NuzzleMessages.publish_req no_payload)
      (PumpMessages.prepare_rsp no_ack) 3
