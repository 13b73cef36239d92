-- ===== src/Network/Exchange.antt =====
-- Messages of one class from one node to the next: they are sent one after the other on a connection
-- at rest, their bytes go through the sender and the receiver, and the receiver's messages come out.
-- `serialize` and ParseFromArray are in `tx` and `parse`.
use firehose.Base.{
  ℕ, ◌≤◌, ◌<◌, ◌≡◌, refl, sym, ap, ap₂, ◌∙◌, List, [], ◌∷◌, ◌++◌, map, Option, none, some, length,
  All, append_assoc, append-nil, u64_mod, arith,
}
use firehose.Api.{Bytes}
use firehose.Network.Wire.{PreHeader}
use firehose.Network.Sender as Sending
use firehose.Network.Sender.{Sender, Tx, Clock, posted, send_message}
use firehose.Network.Sender.Drain as Drain
use firehose.Network.Sender.Drain.{Timed, messages, next_clock, writes, AllBare}
use firehose.Network.Receiver as Receiving
use firehose.Network.Wire.{max_header_len}
use firehose.Network.Receiver.Frames as Frames
use firehose.Network.Receiver.Frames.{
  protobuf_handler, ProtobufRx, Frame, reads, received, IsSupported, AllSupported,
}
use firehose.Network.Transfer.{bytes_of, frame_of, waiting, transfer}

-- The requests are sent in turn.
abbrev pub send_all : {R : Type 0} → (Sender → R → Sender) → Sender → List R → Sender
send_all send s [] = s
send_all send s (r ∷ rs) = send_all send (send s r) rs

-- What the handler takes out of the message object.
abbrev pub parsed_of : {C M : Type 0} → PreHeader × ProtobufRx C M → Option M
parsed_of (pre, rx) = rx.parsed

-- The words of the clock that go into the pre-header.
pub record IsClock (t : Clock) : Type 0 where
  pub now : t.now < u64_mod
  pub local_delta : t.local_delta < u64_mod

module _ {R C M : Type 0} (class_of : ℕ → Option C) (parse : C → Bytes → Option M)
    (read_at : Tx → ℕ) (other : M) (msg_type : ℕ) (class : C) (serialize : R → Bytes)
    (msg : R → M) where
  abbrev pub tx : R → Tx
  tx r = record {
    msg_type = msg_type;
    req_id = 0;
    header = serialize r;
    body_len = 0;
    taken = [];
    left = [];
  }

  -- What the receiver makes of the bytes.
  abbrev pub msg_at : Tx → M
  msg_at x = elim (parse class x.header) [ none ↦ other | some m ↦ m ]

  -- A request with the clock at the start of its message.
  abbrev pub timed_tx : Clock × R → Timed
  timed_tx (t, r) = (t, tx r)

  abbrev pub frame : Clock × R → Frame C M
  frame p = frame_of (λ x. class) msg_at read_at (timed_tx p)

  abbrev pub requests : List (Clock × R) → List R
  requests ps = map (λ (p : Clock × R). p.1) ps

  -- A request whose bytes are parsed into its message, and are not too many, and a clock whose words
  -- go into the pre-header.
  pub record Fits (p : Clock × R) : Type 0 where
    pub parses : parse class (serialize p.1) ≡ some (msg p.1)
    pub short : length (serialize p.1) ≤ max_header_len
    pub words : IsClock p.0

  msg_at-tx : (p : Clock × R) → Fits p → msg_at (tx p.1) ≡ msg p.1
  msg_at-tx p f = rw (f.parses, msg_at) refl

  txs-AllBare : (ps : List (Clock × R)) → All Fits ps → AllBare (messages (map timed_tx ps))
  txs-AllBare [] fit = Drain.nil
  txs-AllBare ((t, r) ∷ ps) (f, fit) =
      Drain.cons (tx r) (messages (map timed_tx ps)) refl f.short (txs-AllBare ps fit)

  messages-timed : (ps : List (Clock × R)) → messages (map timed_tx ps) ≡ map tx (requests ps)
  messages-timed [] = refl
  messages-timed ((t, r) ∷ ps) = ap (λ l. tx r ∷ l) (messages-timed ps)

  frames-AllSupported :
      (ps : List (Clock × R))
      → class_of msg_type ≡ some class
      → msg_type < u64_mod
      → All Fits ps
      → AllSupported class_of parse (map (frame_of (λ x. class) msg_at read_at) (map timed_tx ps))
  frames-AllSupported [] known word fit = Frames.nil
  frames-AllSupported (p ∷ ps) known word (f, fit) =
      Frames.cons (frame p) _
        (record {
          words = record {
            header_len = omega (arith, f.short);
            body_len = omega arith;
            msg_type = word;
            msg_id = omega arith;
            sent_at = f.words.now;
            local_delta = f.words.local_delta;
          };
          hdr_len = refl;
          short = f.short;
          no_body = refl;
          known = known;
          parses = f.parses ∙ ap some (sym (msg_at-tx p f));
        })
        (frames-AllSupported ps known word fit)

  parsed-frames :
      (ps : List (Clock × R))
      → All Fits ps
      → map parsed_of (map received (map (frame_of (λ x. class) msg_at read_at) (map timed_tx ps)))
        ≡ map (λ r. some (msg r)) (requests ps)
  parsed-frames [] fit = refl
  parsed-frames (p ∷ ps) (f, fit) =
      ap₂ (λ (m : M) ms. some m ∷ ms) (msg_at-tx p f) (parsed-frames ps fit)

  send_all-queues :
      (s : Sender) (rs : List R)
      → send_all (λ s r. send_message s (tx r)) s rs
        ≡ record s { tx_queue = s.tx_queue ++ map tx rs }
  unfolding send_message
  send_all-queues s [] = ap (λ q. record s { tx_queue = q }) (sym (append-nil s.tx_queue))
  send_all-queues s (r ∷ rs) =
      send_all-queues (send_message s (tx r)) rs
      ∙ ap (λ q. record s { tx_queue = q }) (append_assoc s.tx_queue (tx r ∷ []) (map tx rs))

  -- Requests that are sent one after the other on a connection at rest, of a type that the receiver
  -- knows, where the clock shows any 64-bit time when the message of each is started: if all writes
  -- succeed, the bytes that go out are those of the reads of the receiver, which then has handed over
  -- the message of each request, in order.
  pub exchange :
      (now : Clock) (ps : List (Clock × R))
      → class_of msg_type ≡ some class
      → msg_type < u64_mod
      → All Fits ps
      → (bytes_of (reads (map (frame_of (λ x. class) msg_at read_at) (map timed_tx ps)))
          ≡ (Sending.run
              (send_all (λ s r. send_message s (tx r)) Sending.init (requests ps))
              (posted (next_clock now (map timed_tx ps)) ∷ writes (map timed_tx ps))).wire)
        × (map parsed_of
              (Receiving.run
                (protobuf_handler class_of parse)
                Receiving.init
                (reads (map (frame_of (λ x. class) msg_at read_at) (map timed_tx ps)))).completed
            ≡ map (λ r. some (msg r)) (requests ps))
  exchange now ps known word fit =
      let timed = map timed_tx ps in
      let (bytes, done) =
        transfer (λ x. class) msg_at read_at class_of parse now timed (txs-AllBare ps fit)
          (frames-AllSupported ps known word fit) in
      (
        bytes
            ∙ ap
                (λ (s : Sender).
                  (Sending.run s (posted (next_clock now timed) ∷ writes timed)).wire)
                (ap waiting (messages-timed ps) ∙ sym (send_all-queues Sending.init (requests ps))),
        ap (map parsed_of) done ∙ parsed-frames ps fit,
      )
