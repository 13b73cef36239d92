-- ===== src/Tests/NetworkTests.antt =====
-- Bytes on a connection.
use firehose.Base.{
  ℕ, ◌≡◌, refl, false, true, inl, inr, List, [], ◌∷◌, ◌++◌, map, Option, none, some, arith,
}
use firehose.Api.{Bytes}
use firehose.Api.Proto.{m_req_prepare, m_req_publish}
use firehose.Engine.Messages as EngineMessages
use firehose.Network.Stats.{ConnectionStats, add_assign, sub_assign, add_assign-sub_assign}
use firehose.Network.Wire.{PreHeader, IsWords}
use firehose.Network.Sender as SenderSide
use firehose.Network.Sender.Aborted.{failed_write_stops}
use firehose.Network.Sender.Order.{all_messages, handed_over, all_messages-run}
use firehose.Network.Receiver.{Receiver, header, prehdr, run, init}
use firehose.Network.Receiver.Frames.{
  ProtobufRx, protobuf_handler, Frame, reads, received, IsSupported, nil, cons, completed-run,
}

-- The pre-header of a message of three bytes.
abbrev pre : PreHeader
pre = record {
  header_len = 3;
  body_len = 0;
  msg_type = m_req_prepare;
  msg_id = 4;
  sent_at = 1000;
  local_delta = 70000;
}

pre-IsWords : IsWords pre
pre-IsWords = omega arith

abbrev tx : ℕ → SenderSide.Tx
tx id = record {
  msg_type = m_req_prepare;
  req_id = id;
  header = 1 ∷ 2 ∷ 3 ∷ [];
  body_len = 2;
  taken = [];
  left = (8 ∷ 9 ∷ []) ∷ [];
}

abbrev clock : SenderSide.Clock
clock = record { now = 1000; local_delta = 0 }

abbrev events : List SenderSide.Event
events =
    SenderSide.message (tx 1)
    ∷ SenderSide.posted clock
    ∷ SenderSide.message (tx 2)
    ∷ SenderSide.completion clock false 48
    ∷ SenderSide.completion clock false 3
    ∷ SenderSide.completion clock false 2
    ∷ []

all_messages-run_example :
    all_messages (SenderSide.run SenderSide.init events)
    ≡ all_messages SenderSide.init ++ handed_over events
unfolding SenderSide.run SenderSide.step SenderSide.send_message SenderSide.try_send
    SenderSide.send_unless SenderSide.send_next_message SenderSide.pop_next SenderSide.start_send
    SenderSide.complete SenderSide.written SenderSide.handle_prehdr_sent SenderSide.handle_hdr_sent
    SenderSide.handle_body_seg_sent SenderSide.next_body_seg SenderSide.next_segment
all_messages-run_example = all_messages-run SenderSide.init events (λ h. absurd cc)

-- A parser that takes the bytes for the message.
abbrev parse : EngineMessages.RxClass → Bytes → Option Bytes
parse class bytes = some bytes

abbrev frame : Frame EngineMessages.RxClass Bytes
frame = record {
  pre = pre;
  hdr = 1 ∷ 2 ∷ 3 ∷ [];
  first_read = 1100;
  second_read = 1200;
  class = EngineMessages.msg_prepare_req_rx;
  msg = 1 ∷ 2 ∷ 3 ∷ [];
}

frame-IsSupported : IsSupported EngineMessages.pump_new_rx_message parse frame
unfolding EngineMessages.pump_new_rx_message
frame-IsSupported = record {
  words = pre-IsWords;
  hdr_len = refl;
  short = omega arith;
  no_body = refl;
  known = refl;
  parses = refl;
}

completed-run_example :
    ((run
        (protobuf_handler EngineMessages.pump_new_rx_message parse)
        init
        (reads (frame ∷ []))).phase
      ≡ prehdr)
    × ((run
          (protobuf_handler EngineMessages.pump_new_rx_message parse)
          init
          (reads (frame ∷ []))).completed
        ≡ [] ++ map received (frame ∷ []))
completed-run_example =
    completed-run EngineMessages.pump_new_rx_message parse (frame ∷ []) init refl
      (cons frame [] frame-IsSupported nil)

-- A receiver on a pump's connection that has read the pre-header of a publication.
abbrev waiting : Receiver (ProtobufRx EngineMessages.RxClass Bytes)
waiting = record init {
  phase = header;
  read_len = 3;
  pre_header = record pre { msg_type = m_req_publish };
}

publication_is_unknown : EngineMessages.pump_new_rx_message m_req_publish ≡ none
unfolding EngineMessages.pump_new_rx_message
publication_is_unknown = refl

-- What wrapped comes back.
abbrev few : ConnectionStats
few = record { bytes_sent = 5; bytes_received = 6; messages_sent = 7; messages_received = 8 }

abbrev more : ConnectionStats
more = record { bytes_sent = 9; bytes_received = 9; messages_sent = 9; messages_received = 9 }

add_assign-sub_assign_example : add_assign more (sub_assign few more) ≡ few
add_assign-sub_assign_example = add_assign-sub_assign few more (omega arith) (omega arith)

-- The header of the first message is in flight, and its write fails.
abbrev in_header : SenderSide.Sender
in_header = SenderSide.run SenderSide.init (
    SenderSide.message (tx 1) ∷ SenderSide.posted clock ∷ SenderSide.completion clock false 48 ∷ [])

failed_write_stops_example :
    ((SenderSide.run in_header (SenderSide.completion clock true 3 ∷ events)).req ≡ some (tx 1))
    × ((SenderSide.run in_header (SenderSide.completion clock true 3 ∷ events)).wire
        ≡ in_header.wire)
    × ((SenderSide.run in_header (SenderSide.completion clock true 3 ∷ events)).completed
        ≡ in_header.completed)
unfolding SenderSide.run SenderSide.step SenderSide.send_message SenderSide.try_send
    SenderSide.send_unless SenderSide.send_next_message SenderSide.pop_next SenderSide.start_send
    SenderSide.complete SenderSide.written SenderSide.handle_prehdr_sent
failed_write_stops_example =
    failed_write_stops in_header (tx 1) clock 3 events refl (inr (inl refl))
