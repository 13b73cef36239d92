-- ===== src/Tests/TransferTests.antt =====
-- Two messages from a sender to a receiver.
use firehose.Base.{ℕ, ◌≡◌, refl, List, [], ◌∷◌, ◌++◌, map, some, Option, arith}
use firehose.Api.{Bytes}
use firehose.Api.Proto.{m_req_prepare}
use firehose.Engine.Messages as EngineMessages
use firehose.Network.Sender as Sending
use firehose.Network.Sender.{Tx, Clock, posted}
use firehose.Network.Sender.Drain.{
  Timed, messages, frames, writes, done_of, AllBare, nil, cons, IsAt, run-writes,
}
use firehose.Network.Receiver as Receiving
use firehose.Network.Receiver.Frames as Frames
use firehose.Network.Receiver.Frames.{
  Frame, protobuf_handler, reads, received, IsSupported, AllSupported,
}
use firehose.Network.Transfer.{bytes_of, waiting, frame_of, transfer}

abbrev clock : Clock
clock = record { now = 1000; local_delta = 0 }

abbrev bare : ℕ → Tx
bare id = record {
  msg_type = m_req_prepare;
  req_id = id;
  header = 1 ∷ 2 ∷ [];
  body_len = 0;
  taken = [];
  left = [];
}

-- The clock when the second message is started.
abbrev later_clock : Clock
later_clock = record { now = 1700; local_delta = 5 }

abbrev two : List Timed
two = (clock, bare 1) ∷ (later_clock, bare 2) ∷ []

two-AllBare : AllBare (messages two)
two-AllBare =
    cons (bare 1) (bare 2 ∷ []) refl (omega arith) (cons (bare 2) [] refl (omega arith) nil)

waiting-IsAt : IsAt (waiting (messages two)) (messages two) [] []
waiting-IsAt = record {
  queue_is = refl;
  req_is = refl;
  phase_is = refl;
  wire_is = refl;
  completed_is = refl;
}

run-writes_example :
    IsAt
      (Sending.run (waiting (messages two)) (posted clock ∷ writes two))
      []
      ([] ++ frames two)
      ([] ++ done_of two)
run-writes_example = run-writes clock (waiting (messages two)) two [] [] waiting-IsAt two-AllBare

abbrev class_at : Tx → EngineMessages.RxClass
class_at r = EngineMessages.msg_prepare_req_rx

abbrev header_at : Tx → Bytes
header_at r = r.header

abbrev read_at : Tx → ℕ
read_at r = 1100

-- A parser that takes the bytes for the message.
abbrev parse : EngineMessages.RxClass → Bytes → Option Bytes
parse class bytes = some bytes

abbrev sent_frame : Clock → ℕ → Frame EngineMessages.RxClass Bytes
sent_frame t id = frame_of class_at header_at read_at (t, bare id)

frame_1-IsSupported : IsSupported EngineMessages.pump_new_rx_message parse (sent_frame clock 1)
unfolding EngineMessages.pump_new_rx_message
frame_1-IsSupported = record {
  words = omega arith;
  hdr_len = refl;
  short = omega arith;
  no_body = refl;
  known = refl;
  parses = refl;
}

frame_2-IsSupported :
    IsSupported EngineMessages.pump_new_rx_message parse (sent_frame later_clock 2)
unfolding EngineMessages.pump_new_rx_message
frame_2-IsSupported = record {
  words = omega arith;
  hdr_len = refl;
  short = omega arith;
  no_body = refl;
  known = refl;
  parses = refl;
}

two-AllSupported :
    AllSupported EngineMessages.pump_new_rx_message parse
      (map (frame_of class_at header_at read_at) two)
two-AllSupported =
    Frames.cons (sent_frame clock 1) (sent_frame later_clock 2 ∷ []) frame_1-IsSupported
      (Frames.cons (sent_frame later_clock 2) [] frame_2-IsSupported Frames.nil)

transfer_example :
    (bytes_of (reads (map (frame_of class_at header_at read_at) two))
      ≡ (Sending.run (waiting (messages two)) (posted clock ∷ writes two)).wire)
    × ((Receiving.run
          (protobuf_handler EngineMessages.pump_new_rx_message parse)
          Receiving.init
          (reads (map (frame_of class_at header_at read_at) two))).completed
        ≡ map received (map (frame_of class_at header_at read_at) two))
transfer_example =
    transfer class_at header_at read_at EngineMessages.pump_new_rx_message parse clock two
      two-AllBare two-AllSupported
