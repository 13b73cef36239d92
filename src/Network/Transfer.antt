-- ===== src/Network/Transfer.antt =====
-- From message_sender to message_receiver of src/include/network.cpp, over one stream of bytes.
use firehose.Base.{ℕ, ◌≡◌, refl, sym, ap, ◌∙◌, List, [], ◌∷◌, ◌++◌, map, Option}
use firehose.Api.{Bytes}
use firehose.Network.Wire.{pre_header_bytes}
use firehose.Network.Sender as Sending
use firehose.Network.Sender.{Tx, Clock, posted}
use firehose.Network.Sender.Drain.{
  pre_of, Timed, messages, next_clock, frames, writes, AllBare, IsAt, run-writes,
}
use firehose.Network.Receiver as Receiving
use firehose.Network.Receiver.{Read}
use firehose.Network.Receiver.Frames.{
  protobuf_handler, Frame, reads, received, AllSupported, completed-run,
}

-- The bytes of the reads, one after the other.
unfoldable pub bytes_of : List Read → Bytes
bytes_of [] = []
bytes_of (r ∷ rs) = r.bytes ++ bytes_of rs

-- A sender at rest with messages that wait.
abbrev pub waiting : List Tx → Sending.Sender
waiting rs = record Sending.init { tx_queue = rs }

module _ {C M : Type 0} (class_at : Tx → C) (msg_at : Tx → M) (read_at : Tx → ℕ) where
  -- What the receiver takes a message for, and when.
  abbrev pub frame_of : Timed → Frame C M
  frame_of (t, r) = record {
    pre = pre_of t r;
    hdr = r.header;
    first_read = read_at r;
    second_read = read_at r;
    class = class_at r;
    msg = msg_at r;
  }

  bytes_of-reads : (rs : List Timed) → bytes_of (reads (map frame_of rs)) ≡ frames rs
  unfolding bytes_of reads frames
  bytes_of-reads [] = refl
  bytes_of-reads ((t, r) ∷ rs) =
      ap (λ x. pre_header_bytes (pre_of t r) ++ (r.header ++ x)) (bytes_of-reads rs)

  -- Messages without a body that wait at a sender, each of a type that the receiver supports and with a
  -- header that fits the buffer and that its class parses into the given message, where the clock shows
  -- any 64-bit time when each is started: if all writes of the sender succeed, its bytes are those of
  -- the reads of the receiver, and the receiver, after these reads, has handed over the message of
  -- each, in the order of the queue, with the pre-header that it went out under and the time of its
  -- own start in it.
  pub transfer :
      (class_of : ℕ → Option C) (parse : C → Bytes → Option M) (now : Clock) (rs : List Timed)
      → AllBare (messages rs)
      → AllSupported class_of parse (map frame_of rs)
      → (bytes_of (reads (map frame_of rs))
          ≡ (Sending.run (waiting (messages rs)) (posted (next_clock now rs) ∷ writes rs)).wire)
        × ((Receiving.run
              (protobuf_handler class_of parse)
              Receiving.init
              (reads (map frame_of rs))).completed
            ≡ map received (map frame_of rs))
  transfer class_of parse now rs bare supported =
      let at : IsAt (waiting (messages rs)) (messages rs) [] [] = record {
        queue_is = refl;
        req_is = refl;
        phase_is = refl;
        wire_is = refl;
        completed_is = refl;
      } in
      let sent = run-writes now (waiting (messages rs)) rs [] [] at bare in
      let (_, done) =
        completed-run class_of parse (map frame_of rs) Receiving.init refl supported in
      (bytes_of-reads rs ∙ sym sent.wire_is, done)
