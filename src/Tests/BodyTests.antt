-- ===== src/Tests/BodyTests.antt =====
-- A message with a body from a sender to a receiver, and one whose body comes in two parts.
use firehose.Base.{ℕ, ◌≡◌, refl, List, [], ◌∷◌, some, none, Option, arith, push_back, total}
use firehose.Api.{Bytes}
use firehose.Api.Proto.{m_req_prepare}
use firehose.Engine.Messages as EngineMessages
use firehose.Network.Wire.{PreHeader, pre_header_bytes}
use firehose.Network.Sender as Sending
use firehose.Network.Sender.{Clock}
use firehose.Network.Sender.Drain.{pre_of}
use firehose.Network.Receiver as Receiving
use firehose.Network.Transfer.{bytes_of, waiting}
use firehose.Network.Bodies.{body_handler, read, BodyRx}
use firehose.Network.Bodies.Parts.{IsTaken, rx, last_part_kept}
use firehose.Network.Bodies.Whole.{tx, three_writes, body_transfer}

abbrev clock : Clock
clock = record { now = 1000; local_delta = 0 }

abbrev header : Bytes
header = 1 ∷ 2 ∷ []

abbrev body : Bytes
body = 7 ∷ 8 ∷ 9 ∷ []

abbrev parse : EngineMessages.RxClass → Bytes → Option Bytes
parse class bytes = some bytes

-- The connection passes on the announced length.
abbrev announced : EngineMessages.RxClass → ℕ → ℕ
announced class n = n

abbrev pre : PreHeader
pre = pre_of clock (tx clock header body m_req_prepare)

taken :
    IsTaken EngineMessages.pump_new_rx_message parse announced pre header
      EngineMessages.msg_prepare_req_rx header
unfolding EngineMessages.pump_new_rx_message
taken = record {
  words = omega arith;
  hdr_len = refl;
  short = omega arith;
  known = refl;
  parses = refl;
}

body_transfer_example :
    (bytes_of (read 1100 (pre_header_bytes pre) ∷ read 1100 header ∷ read 1100 body ∷ [])
      ≡ (Sending.run
          (waiting (tx clock header body m_req_prepare ∷ []))
          (three_writes clock header body m_req_prepare)).wire)
    × ((Sending.run
          (waiting (tx clock header body m_req_prepare ∷ []))
          (three_writes clock header body m_req_prepare)).req
        ≡ none)
    × ((Receiving.run
          (body_handler EngineMessages.pump_new_rx_message parse announced)
          Receiving.init
          (read 1100 (pre_header_bytes pre) ∷ read 1100 header ∷ read 1100 body ∷ [])).completed
        ≡ (
          pre,
          rx EngineMessages.pump_new_rx_message parse announced pre header
              EngineMessages.msg_prepare_req_rx header body,
        )
          ∷ [])
body_transfer_example =
    body_transfer clock header body m_req_prepare EngineMessages.pump_new_rx_message parse announced
      EngineMessages.msg_prepare_req_rx header 1100 taken refl (omega arith)

-- A buffer of two bytes for a body of four.
abbrev two_bytes : EngineMessages.RxClass → ℕ → ℕ
two_bytes class n = 2

abbrev long_pre : PreHeader
long_pre = record pre { body_len = 4 }

long_taken :
    IsTaken EngineMessages.pump_new_rx_message parse two_bytes long_pre header
      EngineMessages.msg_prepare_req_rx header
unfolding EngineMessages.pump_new_rx_message
long_taken = record {
  words = omega arith;
  hdr_len = refl;
  short = omega arith;
  known = refl;
  parses = refl;
}

abbrev long_reads : List Receiving.Read
long_reads =
    read 1100 (pre_header_bytes long_pre)
    ∷ read 1100 header
    ∷ read 1100 (5 ∷ 6 ∷ [])
    ∷ read 1100 (7 ∷ 8 ∷ [])
    ∷ []

abbrev long_handler : Receiving.Handler (BodyRx EngineMessages.RxClass Bytes)
long_handler = body_handler EngineMessages.pump_new_rx_message parse two_bytes

last_part_kept_example :
    ((Receiving.run long_handler Receiving.init long_reads).phase ≡ Receiving.prehdr)
    × ((Receiving.run long_handler Receiving.init long_reads).completed
        ≡ push_back [] (
          long_pre,
          rx EngineMessages.pump_new_rx_message parse two_bytes long_pre header
              EngineMessages.msg_prepare_req_rx header
              (7 ∷ 8 ∷ []),
        ))
unfolding total
last_part_kept_example =
    last_part_kept EngineMessages.pump_new_rx_message parse two_bytes long_pre header
      EngineMessages.msg_prepare_req_rx header Receiving.init 1100 (5 ∷ 6 ∷ []) ((7 ∷ 8 ∷ []) ∷ [])
      refl long_taken (omega arith) (refl, (refl, tt)) refl
