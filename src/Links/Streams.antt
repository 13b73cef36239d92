-- ===== src/Links/Streams.antt =====
-- The link from an engine to a nuzzle, from NuzzleConnection::publish of
-- src/firehose/api/engine_api.cpp to EngineConnection::completed_receive of nuzzle_api.cpp, over the
-- bytes of the connection.
use firehose.Base.{
  ◌≤◌, ◌<◌, ◌≡◌, refl, ap, ap₂, ◌∙◌, List, [], ◌∷◌, map, Option, none, some, length, All, All-mono,
  u32_mod, arith,
}
use firehose.Api.{Bytes, RequestPublish, blank_telemetry}
use firehose.Api.Proto.{PayloadProto, no_payload, m_req_publish}
use firehose.Api.Fields.{carried}
use firehose.Network.Sender as Sending
use firehose.Network.Sender.{Sender, Tx, Clock, posted}
use firehose.Network.Sender.Drain.{Timed, next_clock, writes}
use firehose.Network.Receiver as Receiving
use firehose.Network.Wire.{max_header_len}
use firehose.Network.Receiver.Frames.{protobuf_handler}
use firehose.Network.Transfer.{bytes_of}
use firehose.Network.Protobuf.{protobuf_tx}
use firehose.Network.Exchange.{send_all, parsed_of, IsClock, exchange}
use firehose.Engine.Messages as EngineMessages
use firehose.Engine.Sends as EngineSends
use firehose.Nuzzle.Messages as NuzzleMessages
use firehose.Links.{publish_to_nuzzle}

abbrev pub requests : {R : Type 0} → List (Clock × R) → List R
requests ps = map (λ p. p.1) ps

-- `completed_receive` of the message objects.
abbrev pub handled : {M K : Type 0} → (M → Option K) → List (Option M) → List (Option K)
handled completed [] = []
handled completed (none ∷ ms) = none ∷ handled completed ms
handled completed (some m ∷ ms) = completed m ∷ handled completed ms

handled-map :
    {P R M K : Type 0} (completed : M → Option K) (msg : R → M) (call : R → K) (of : P → R)
    (ok : P → Type 0) (ps : List P)
    → ((p : P) → ok p → completed (msg (of p)) ≡ some (call (of p)))
    → All ok ps
    → handled completed (map (λ r. some (msg r)) (map of ps)) ≡ map (λ r. some (call r)) (map of ps)
handled-map completed msg call of ok [] h all = refl
handled-map completed msg call of ok (p ∷ ps) h (a, all) =
    ap₂ (λ k ks. k ∷ ks) (h p a) (handled-map completed msg call of ok ps h all)

module _ (serialize : PayloadProto → Bytes)
    (parse : NuzzleMessages.RxClass → Bytes → Option NuzzleMessages.Rx) where
  abbrev pub bytes_of_publication : RequestPublish → Bytes
  bytes_of_publication r = serialize (EngineMessages.msg_publish_req_tx_set r no_payload)

  abbrev pub publication_tx : RequestPublish → Tx
  publication_tx r =
      protobuf_tx serialize m_req_publish (EngineMessages.msg_publish_req_tx_set r no_payload)

  -- A publication, and what the clock shows when its message is started.
  abbrev pub timed_publication_tx : Clock × RequestPublish → Timed
  timed_publication_tx (t, r) = (t, publication_tx r)

  -- A publication whose `int` field is in range, and whose bytes are no more than a header may be and
  -- are parsed into what was serialized, with a clock of 64-bit numbers.
  pub record IsSendable (p : Clock × RequestPublish) : Type 0 where
    pub small : p.1.header.sender_request_id < u32_mod
    pub parses :
        parse NuzzleMessages.msg_publish_req_rx (bytes_of_publication p.1)
        ≡ some (NuzzleMessages.publish_req (EngineMessages.msg_publish_req_tx_set p.1 no_payload))
    pub short : length (bytes_of_publication p.1) ≤ max_header_len
    pub words : IsClock p.0

  -- If protobuf parses what it has serialized of them, publications that an engine sends one after the
  -- other on a connection at rest, where the clock shows any 64-bit time when the message of each is
  -- started, and whose writes all succeed, reach the nuzzle: the bytes that go out can be read as
  -- pre-headers and headers in turn, and a receiver that reads them so makes the nuzzle handle each
  -- publication, in order, with every field as it was sent but the two of telemetry that `carried`
  -- names, when the `int` fields are in range and each message is no longer than a header may be.
  pub publications_reach_nuzzle :
      (now : Clock) (ps : List (Clock × RequestPublish))
      → All IsSendable ps
      → (arriving : List Receiving.Read) × (bytes_of arriving
          ≡ (Sending.run (send_all (EngineSends.publish serialize) Sending.init (requests ps)) (
              posted (next_clock now (map timed_publication_tx ps))
              ∷ writes (map timed_publication_tx ps))).wire)
        × (handled NuzzleMessages.engine_completed_receive (
              map parsed_of
                (Receiving.run
                  (protobuf_handler NuzzleMessages.engine_new_rx_message parse)
                  Receiving.init
                  arriving).completed)
            ≡ map
                (λ r. some (
                  NuzzleMessages.on_publish_receive
                    (record r { telemetry = carried blank_telemetry r.telemetry })))
                (requests ps))
  unfolding EngineSends.publish NuzzleMessages.engine_new_rx_message
  publications_reach_nuzzle now ps ok =
      let msg : RequestPublish → NuzzleMessages.Rx =
        λ r. NuzzleMessages.publish_req (EngineMessages.msg_publish_req_tx_set r no_payload) in
      let (bytes, done) =
        exchange NuzzleMessages.engine_new_rx_message parse (λ x. now.now)
          (NuzzleMessages.publish_req no_payload) m_req_publish NuzzleMessages.msg_publish_req_rx
          bytes_of_publication msg now ps refl (omega arith)
          (All-mono _ _ ps (λ p s. record { parses = s.parses; short = s.short; words = s.words })
            ok) in
      (
        _,
        bytes,
        ap (handled NuzzleMessages.engine_completed_receive) done
            ∙ handled-map NuzzleMessages.engine_completed_receive msg _
                (λ (p : Clock × RequestPublish). p.1) IsSendable ps
                (λ p s. publish_to_nuzzle p.1 s.small) ok,
      )
