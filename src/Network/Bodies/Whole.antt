-- ===== src/Network/Bodies/Whole.antt =====
-- A message with a body from a sender to a receiver.
use firehose.Base.{
  ℕ, ◌+◌, ◌≤◌, ◌<◌, ◌≡◌, refl, ap, sym, ◌∙◌, List, [], ◌∷◌, ◌++◌, Option, none, some, false, arith,
  length, append_assoc, append-nil, total,
}
use firehose.Api.{Bytes}
use firehose.Network.Wire.{pre_header_bytes}
use firehose.Network.Stats.{message_sent}
use firehose.Network.Sender as Sending
use firehose.Network.Sender.{
  Tx, Clock, posted, completion, try_send, send_unless, send_next_message, pop_next, start_send,
  complete, written, handle_prehdr_sent, handle_hdr_sent, handle_body_seg_sent, next_segment,
}
use firehose.Network.Sender.Drain.{pre_of}
use firehose.Network.Transfer.{waiting, bytes_of}
use firehose.Network.Receiver as Receiving
use firehose.Network.Receiver.{
  Handler, Receiver, Read, after_read, handle_pre_read, take_pre_header, handle_header_read,
  receive_header, handle_body_seg_read, receive_body,
}
use firehose.Network.Wire.{max_header_len}
use firehose.Network.Bodies.{body_tx, body_handler, read}
use firehose.Network.Bodies.Parts.{IsTaken, rx, last_part_kept}

-- A message with a body that waits alone at a sender at rest, and the try_send that starts it.
module _ (t : Clock) (header body : Bytes) (msg_type : ℕ) where
  abbrev pub tx : Tx
  tx = body_tx (λ (bytes : Bytes). bytes) msg_type header body

  abbrev started : Sending.Sender
  started = record Sending.init {
    pre_header = pre_of t tx;
    stats = message_sent Sending.init.stats (length header + length body + 48);
    req = some tx;
    phase = Sending.prehdr;
    wire = pre_header_bytes (pre_of t tx);
  }

  abbrev pub three_writes : List Sending.Event
  three_writes =
      posted t
      ∷ completion t false 48
      ∷ completion t false (length header)
      ∷ completion t false (length body)
      ∷ []

  header_written : Sending.Sender
  header_written = record started { phase = Sending.hdr; wire = started.wire ++ header }

  step_prehdr : Sending.step started (completion t false 48) ≡ header_written
  unfolding Sending.step complete written handle_prehdr_sent header_written
  step_prehdr = refl

  body_started : Sending.Sender
  body_started = record header_written {
    req = some (record tx { taken = body ∷ []; left = [] });
    body_left = length body;
    body_seg_sent = length body;
    phase = Sending.body;
    wire = header_written.wire ++ body;
  }

  step_header :
      0 < length body
      → Sending.step header_written (completion t false (length header)) ≡ body_started
  unfolding Sending.step complete written handle_hdr_sent Sending.next_body_seg next_segment
      header_written body_started
  step_header some_body = ground arith

  body_written : Sending.Sender
  body_written = record body_started {
    req = none;
    body_left = 0;
    phase = Sending.idle;
    completed = (pre_of t tx, record tx { taken = body ∷ []; left = [] }) ∷ [];
  }

  step_body : Sending.step body_started (completion t false (length body)) ≡ body_written
  unfolding Sending.step complete written handle_body_seg_sent Sending.next_body_seg
      send_next_message pop_next header_written body_started body_written
  step_body = ground arith

  step_posted :
      length header ≤ max_header_len → Sending.step (waiting (tx ∷ [])) (posted t) ≡ started
  unfolding Sending.step try_send send_unless send_next_message pop_next start_send
  step_posted short = ground arith

  written_wire : body_written.wire ≡ (pre_header_bytes (pre_of t tx) ++ header) ++ body
  unfolding body_written body_started header_written
  written_wire = refl

  body_sent :
      length header ≤ max_header_len
      → 0 < length body
      → Sending.run (waiting (tx ∷ [])) three_writes ≡ body_written
  unfolding Sending.run
  body_sent short some_body =
      let second = completion t false (length header) in
      let third = completion t false (length body) in
      ap (λ x. Sending.step (Sending.step (Sending.step x (completion t false 48)) second) third)
        (step_posted short)
      ∙ ap (λ x. Sending.step (Sending.step x second) third) step_prehdr
      ∙ ap (λ x. Sending.step x third) (step_header some_body)
      ∙ step_body

  -- A message with a body that waits alone at a new sender, of a type that the receiver takes and
  -- with a header that its class parses, where the connection of the receiver sets the announced
  -- length and the body is not empty: if the three writes of the sender succeed, its bytes are those
  -- of the three reads of a new receiver, which hands over the message with its body, while the
  -- sender has completed it and has none in flight.
  pub body_transfer :
      {C M : Type 0} (class_of : ℕ → Option C) (parse : C → Bytes → Option M) (size_of : C → ℕ → ℕ)
      (c : C) (msg : M) (now : ℕ)
      → IsTaken class_of parse size_of (pre_of t tx) header c msg
      → size_of c (length body) ≡ length body
      → 0 < length body
      → (bytes_of (read now (pre_header_bytes (pre_of t tx)) ∷ read now header ∷ read now body ∷ [])
          ≡ (Sending.run (waiting (tx ∷ [])) three_writes).wire)
        × ((Sending.run (waiting (tx ∷ [])) three_writes).req ≡ none)
        × ((Receiving.run (body_handler class_of parse size_of) Receiving.init (
              read now (pre_header_bytes (pre_of t tx))
              ∷ read now header
              ∷ read now body
              ∷ [])).completed
            ≡ (pre_of t tx, rx class_of parse size_of (pre_of t tx) header c msg body) ∷ [])
  unfolding bytes_of
  body_transfer class_of parse size_of c msg now v sized some_body =
      let sent = body_sent (omega (arith, v.short, v.hdr_len)) some_body in
      let kept =
        last_part_kept class_of parse size_of (pre_of t tx) header c msg Receiving.init now body []
          refl v (omega (arith, sized, some_body)) (sym sized, tt) (unfold total in omega arith) in
      (
        ap (λ x. pre_header_bytes (pre_of t tx) ++ (header ++ x)) (append-nil body)
            ∙ sym (append_assoc (pre_header_bytes (pre_of t tx)) header body)
            ∙ sym written_wire
            ∙ sym (ap (λ x. x.wire) sent),
        ap (λ x. x.req) sent ∙ unfold body_written in refl,
        kept.1,
      )
