-- ===== src/Network/Receiver.antt =====
-- class message_receiver of src/include/network.h and network.cpp, and the classes message_rx and
-- msg_protobuf_rx of src/include/message.h that it drives. A step is one handler, run when the
-- asio::async_read that is pending ends; the event holds the bytes that were read and the time.
-- What a failed read leaves in a buffer is not modelled, as the connection is closed then.
pub mod Frames
use firehose.Base.{
  ℕ, ◌+◌, ◌-◌, ◌*◌, min, List, [], ◌∷◌, Option, none, some, Bool, if◌then◌else◌, ltb, nat_beq,
  length, push_back, sub_u64,
}
use firehose.Api.{Bytes}
use firehose.Network.Stats.{ConnectionStats, zero_stats, message_received}
use firehose.Network.Wire.{PreHeader, read_pre_header, max_header_len}
use firehose.Network.Sender.{blank_pre_header}

-- What the receiver calls of message_handler and message_rx. `none` is nullptr for new_rx_message
-- and an exception for the others; next_body_rx_buf gives the size of the buffer.
pub record Handler (R : Type 0) : Type 0 where
  pub new_rx_message : ℕ → ℕ → ℕ → ℕ → Option R
  pub header_received : R → Bytes → Option R
  pub next_body_rx_buf : R → Option ℕ
  pub body_buf_received : R → Bytes → Option R

-- The handler whose read is pending, of `read_len` bytes. `faulted` is an exception that leaves the handler, or a call
-- through nullptr.
pub data Phase : Type 0 where
  prehdr header body aborted faulted : Phase

pub record Receiver (R : Type 0) : Type 0 where
  pub pre_header : PreHeader
  pub req : Option R
  pub body_left : ℕ
  pub rx_begin : ℕ
  pub stats : ConnectionStats
  pub phase : Phase
  pub read_len : ℕ
  pub synchronized : List (ℕ × ℕ)
  pub completed : List (PreHeader × R)

-- After the constructor and `start`.
abbrev pub init : {R : Type 0} → Receiver R
init = record {
  pre_header = blank_pre_header;
  req = none;
  body_left = 0;
  rx_begin = 0;
  stats = zero_stats;
  phase = prehdr;
  read_len = 48;
  synchronized = [];
  completed = [];
}

module _ {R : Type 0} (handler : Handler R) where
  unfoldable pub abort_connection : Receiver R → Receiver R
  abort_connection s = record s { phase = aborted }

  unfoldable pub fault : Receiver R → Receiver R
  fault s = record s { phase = faulted }

  unfoldable pub take_pre_header : ℕ → PreHeader → Receiver R → Receiver R
  unfolding abort_connection
  take_pre_header now p s =
      if ltb max_header_len p.header_len
      then abort_connection (record s { pre_header = p })
      else record s {
        pre_header = p;
        rx_begin = now;
        stats = message_received s.stats (p.header_len + p.body_len + 48);
        phase = header;
        read_len = p.header_len;
      }

  unfoldable pub handle_pre_read : ℕ → Bool → Bytes → Receiver R → Receiver R
  unfolding abort_connection take_pre_header
  handle_pre_read now error bytes s =
      if error
      then abort_connection s
      else if nat_beq (length bytes) 48
      then take_pre_header now (read_pre_header bytes) s
      else abort_connection s

  unfoldable pub next_body_seg : Receiver R → R → Receiver R
  unfolding fault
  next_body_seg s req =
      if ltb 0 s.body_left
      then elim (handler.next_body_rx_buf req) [
        | none ↦ fault s
        | some size ↦ record s { phase = body; read_len = min size s.body_left }
      ]
      else record s {
        completed = push_back s.completed (s.pre_header, req);
        req = none;
        phase = prehdr;
        read_len = 48;
      }

  -- `delta` and `pre_header[5]`, as handler_.synchronize is called with them.
  abbrev pub synchronize : Receiver R → Receiver R
  synchronize s = record s {
    synchronized =
        push_back s.synchronized
          (sub_u64 s.rx_begin s.pre_header.sent_at, s.pre_header.local_delta);
  }

  unfoldable pub receive_header : Bytes → Receiver R → Option R → Receiver R
  unfolding fault next_body_seg
  receive_header bytes s none = fault s
  receive_header bytes s (some req) = elim (handler.header_received req bytes) [
    | none ↦ fault (record s { req = some req })
    | some req' ↦
        next_body_seg (record s { req = some req'; body_left = s.pre_header.body_len }) req'
  ]

  unfoldable pub handle_header_read : Bool → Bytes → Receiver R → Receiver R
  unfolding abort_connection receive_header
  handle_header_read error bytes s =
      if error
      then abort_connection s
      else if nat_beq (length bytes) s.pre_header.header_len
      then receive_header bytes (synchronize s) (
          handler.new_rx_message s.pre_header.header_len s.pre_header.body_len s.pre_header.msg_type
            s.pre_header.msg_id)
      else abort_connection s

  unfoldable pub receive_body : Bytes → Receiver R → Option R → Receiver R
  unfolding fault next_body_seg
  receive_body bytes s none = fault s
  receive_body bytes s (some req) = elim (handler.body_buf_received req bytes) [
    | none ↦ fault s
    | some req' ↦
        next_body_seg (record s { req = some req'; body_left = s.body_left - length bytes }) req'
  ]

  unfoldable pub handle_body_seg_read : Bool → Bytes → Receiver R → Receiver R
  unfolding abort_connection receive_body
  handle_body_seg_read error bytes s =
      if error then abort_connection s else receive_body bytes s s.req

  unfoldable pub after_read : Phase → ℕ → Bool → Bytes → Receiver R → Receiver R
  unfolding handle_pre_read handle_header_read handle_body_seg_read
  after_read prehdr now error bytes s = handle_pre_read now error bytes s
  after_read header now error bytes s = handle_header_read error bytes s
  after_read body now error bytes s = handle_body_seg_read error bytes s
  after_read aborted now error bytes s = s
  after_read faulted now error bytes s = s

-- A read that ended: the time, whether it failed, and the bytes.
pub record Read : Type 0 where
  pub now : ℕ
  pub error : Bool
  pub bytes : Bytes

unfoldable pub step : {R : Type 0} → Handler R → Receiver R → Read → Receiver R
unfolding after_read
step handler s r = after_read handler s.phase r.now r.error r.bytes s

unfoldable pub run : {R : Type 0} → Handler R → Receiver R → List Read → Receiver R
run handler s [] = s
run handler s (r ∷ rs) = run handler (step handler s r) rs
