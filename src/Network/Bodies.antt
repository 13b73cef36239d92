-- ===== src/Network/Bodies.antt =====
-- msg_protobuf_tx_with_body and msg_protobuf_rx_with_body of src/include/message.h: messages that have a
-- body behind their protobuf message. No message of src/firehose is one, so that what a connection
-- would pass to set_body_len is a parameter.
pub mod Parts
pub mod Whole
use firehose.Base.{
  ℕ, ◌+◌, ◌-◌, ◌≤◌, ◌<◌, ◌≡◌, refl, ap, sym, ◌∙◌, List, [], ◌∷◌, ◌++◌, Option, none, some, Bool,
  false, arith, length, push_back, append_assoc, append-nil, if◌then◌else◌, nat_beq, map, All,
  total,
}
use firehose.Api.{Bytes}
use firehose.Network.Wire.{
  PreHeader, IsWords, pre_header_bytes, read_pre_header-pre_header_bytes, length-pre_header_bytes,
}
use firehose.Network.Sender as Sending
use firehose.Network.Sender.{
  Tx, Clock, posted, completion, try_send, send_unless, send_next_message, pop_next, start_send,
  complete, written, handle_prehdr_sent, handle_hdr_sent, handle_body_seg_sent, next_segment,
}
use firehose.Network.Sender.Drain.{pre_of}
use firehose.Network.Transfer.{waiting, bytes_of}
use firehose.Network.Receiver as Receiving
use firehose.Network.Receiver.{
  Handler, Receiver, Read, after_read, handle_pre_read, take_pre_header, handle_header_read,
  receive_header, handle_body_seg_read, receive_body,
}
use firehose.Network.Wire.{max_header_len}

-- next_tx_body_buf gives the whole body.
abbrev pub body_tx : {M : Type 0} → (M → Bytes) → ℕ → M → Bytes → Tx
body_tx serialize msg_type msg body = record {
  msg_type = msg_type;
  req_id = 0;
  header = serialize msg;
  body_len = length body;
  taken = [];
  left = body ∷ [];
}

-- `body` is what body_ points to.
pub record BodyRx (C M : Type 0) : Type 0 where
  pub class : C
  pub req_id : ℕ
  pub parsed : Option M
  pub body_len : ℕ
  pub body : Bytes

-- next_body_rx_buf gives the whole buffer each time; body_buf_received throws on any other length.
unfoldable pub body_handler :
    {C M : Type 0} → (ℕ → Option C) → (C → Bytes → Option M) → (C → ℕ → ℕ) → Handler (BodyRx C M)
body_handler class_of parse size_of = record {
  new_rx_message = λ header_len body_len msg_type msg_id. elim (class_of msg_type) [
    | none ↦ none
    | some c ↦ some (record {
      class = c;
      req_id = msg_id;
      parsed = none;
      body_len = size_of c body_len;
      body = [];
    })
  ];
  header_received = λ rx bytes. elim (parse rx.class bytes) [
    | none ↦ none
    | some m ↦ some (record rx { parsed = some m })
  ];
  next_body_rx_buf = λ rx. some rx.body_len;
  body_buf_received = λ rx bytes.
      if nat_beq (length bytes) rx.body_len then some (record rx { body = bytes }) else none;
}

-- A read that ends well.
abbrev pub read : ℕ → Bytes → Read
read now bytes = record { now = now; error = false; bytes = bytes }
