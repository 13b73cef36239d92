-- ===== src/Network/Sender.antt =====
-- class message_sender of src/include/network.h and network.cpp. A step is one handler, run when its
-- event comes; `wire` is all that was handed to asio::async_write so far, and `completed` all that
-- was handed to completed_transmit, each message with the pre-header that it went out under.
pub mod Order
pub mod Drain
pub mod Aborted
use firehose.Base.{
  ℕ, ◌+◌, ◌-◌, List, [], ◌∷◌, ◌++◌, Option, none, some, Bool, true, false, if◌then◌else◌, ltb, leb,
  nat_beq, length, push_back,
}
use firehose.Api.{Bytes}
use firehose.Network.Stats.{ConnectionStats, zero_stats, message_sent}
use firehose.Network.Wire.{PreHeader, pre_header_bytes, max_header_len}

-- message_tx: what its virtual functions return. The body comes in the segments that
-- next_tx_body_buf returns one after the other; `taken` of them have been returned.
pub record Tx : Type 0 where
  pub msg_type : ℕ
  pub req_id : ℕ
  pub header : Bytes
  pub body_len : ℕ
  pub taken : List Bytes
  pub left : List Bytes

-- The handler that the pending asio::async_write will call. `aborted` is a connection that was
-- closed, `faulted` a failed assertion, a call of next_tx_body_buf with no segment left, or a header
-- that does not fit.
pub data Phase : Type 0 where
  idle prehdr hdr body aborted faulted : Phase

pub record Sender : Type 0 where
  pub pre_header : PreHeader
  pub req : Option Tx
  pub body_left : ℕ
  pub body_seg_sent : ℕ
  pub tx_queue : List Tx
  pub stats : ConnectionStats
  pub phase : Phase
  pub wire : Bytes
  pub completed : List (PreHeader × Tx)

abbrev pub blank_pre_header : PreHeader
blank_pre_header = record {
  header_len = 0;
  body_len = 0;
  msg_type = 0;
  msg_id = 0;
  sent_at = 0;
  local_delta = 0;
}

abbrev pub init : Sender
init = record {
  pre_header = blank_pre_header;
  req = none;
  body_left = 0;
  body_seg_sent = 0;
  tx_queue = [];
  stats = zero_stats;
  phase = idle;
  wire = [];
  completed = [];
}

-- What start_send reads besides the message: util::now() and handler_.local_delta_.
pub record Clock : Type 0 where
  pub now : ℕ
  pub local_delta : ℕ

-- A header that is longer than `header_buf` is written past its end, which is undefined behaviour.
unfoldable pub start_send : Clock → Sender → Tx → Sender
start_send t s req =
    let p : PreHeader = record {
      header_len = length req.header;
      body_len = req.body_len;
      msg_type = req.msg_type;
      msg_id = req.req_id;
      sent_at = t.now;
      local_delta = t.local_delta;
    } in
    if leb (length req.header) max_header_len
    then record s {
      pre_header = p;
      stats = message_sent s.stats (length req.header + req.body_len + 48);
      req = some req;
      phase = prehdr;
      wire = s.wire ++ pre_header_bytes p;
    }
    else record s { pre_header = p; req = some req; phase = faulted }

unfoldable pub pop_next : Clock → Sender → List Tx → Sender
unfolding start_send
pop_next t s [] = s
pop_next t s (req ∷ rest) = start_send t (record s { tx_queue = rest }) req

unfoldable pub send_next_message : Clock → Sender → Sender
unfolding pop_next
send_next_message t s = pop_next t s s.tx_queue

-- send_message queues the message, and posts a try_send.
unfoldable pub send_message : Sender → Tx → Sender
send_message s req = record s { tx_queue = push_back s.tx_queue req }

unfoldable pub send_unless : Clock → Sender → Option Tx → Sender
unfolding send_next_message
send_unless t s none = send_next_message t s
send_unless t s (some req) = s

-- A message is started only if none is in flight.
unfoldable pub try_send : Clock → Sender → Sender
unfolding send_unless
try_send t s = send_unless t s s.req

unfoldable pub abort_connection : Sender → Sender
abort_connection s = record s { phase = aborted }

-- the segments that are left to next_tx_body_buf
unfoldable pub next_segment : Sender → Tx → List Bytes → Sender
next_segment s req [] = record s { phase = faulted }
next_segment s req (seg ∷ rest) =
    if leb (length seg) s.body_left
    then record s {
      req = some (record req { taken = push_back req.taken seg; left = rest });
      body_seg_sent = length seg;
      phase = body;
      wire = s.wire ++ seg;
    }
    else record s { phase = faulted }

unfoldable pub next_body_seg : Clock → Sender → Tx → Sender
unfolding next_segment send_next_message
next_body_seg t s req =
    if ltb 0 s.body_left
    then next_segment s req req.left
    else send_next_message t (record s {
      completed = push_back s.completed (s.pre_header, req);
      req = none;
      phase = idle;
    })

unfoldable pub handle_prehdr_sent : Bool → ℕ → Sender → Tx → Sender
unfolding abort_connection
handle_prehdr_sent error n s req =
    if error
    then abort_connection s
    else if nat_beq n 48
    then record s { phase = hdr; wire = s.wire ++ req.header }
    else abort_connection s

unfoldable pub handle_hdr_sent : Clock → Bool → ℕ → Sender → Tx → Sender
unfolding abort_connection next_body_seg
handle_hdr_sent t error n s req =
    if error
    then abort_connection s
    else if nat_beq n (length req.header)
    then next_body_seg t (record s { body_left = req.body_len }) req
    else abort_connection s

unfoldable pub handle_body_seg_sent : Clock → Bool → ℕ → Sender → Tx → Sender
unfolding abort_connection next_body_seg
handle_body_seg_sent t error n s req =
    if error
    then abort_connection s
    else if nat_beq n s.body_seg_sent
    then next_body_seg t (record s { body_left = s.body_left - n }) req
    else abort_connection s

-- The handler that a completed write calls; without a pending write there is none.
unfoldable pub written : Phase → Clock → Bool → ℕ → Sender → Tx → Sender
unfolding handle_prehdr_sent handle_hdr_sent handle_body_seg_sent
written prehdr t error n s req = handle_prehdr_sent error n s req
written hdr t error n s req = handle_hdr_sent t error n s req
written body t error n s req = handle_body_seg_sent t error n s req
written idle t error n s req = s
written aborted t error n s req = s
written faulted t error n s req = s

unfoldable pub complete : Clock → Bool → ℕ → Sender → Option Tx → Sender
unfolding written
complete t error n s none = s
complete t error n s (some req) = written s.phase t error n s req

pub data Event : Type 0 where
  message : Tx → Event
  posted : Clock → Event
  completion : Clock → Bool → ℕ → Event

unfoldable pub step : Sender → Event → Sender
unfolding send_message try_send complete
step s (message req) = send_message s req
step s (posted t) = try_send t s
step s (completion t error n) = complete t error n s s.req

unfoldable pub run : Sender → List Event → Sender
run s [] = s
run s (e ∷ es) = run (step s e) es
