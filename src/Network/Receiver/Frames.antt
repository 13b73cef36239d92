-- ===== src/Network/Receiver/Frames.antt =====
-- message_receiver of src/include/network.cpp, with the message classes of src/include/message.h, which
-- have no body.
use firehose.Base.{
  ℕ, ◌≤◌, ◌≡◌, refl, ap, sym, ◌∙◌, List, [], ◌∷◌, ◌++◌, map, Option, none, some, false, arith,
  length, push_back, append_assoc, append-nil,
}
use firehose.Api.{Bytes}
use firehose.Network.Wire.{
  PreHeader, IsWords, pre_header_bytes, read_pre_header-pre_header_bytes, length-pre_header_bytes,
}
use firehose.Network.Receiver.{
  Handler, Receiver, prehdr, header, faulted, Read, run, step, after_read, handle_pre_read,
  take_pre_header, handle_header_read, receive_header, next_body_seg,
}
use firehose.Network.Wire.{max_header_len}

-- msg_protobuf_rx: `class` is its MsgType and TMsg, `parsed` its `msg`.
pub record ProtobufRx (C M : Type 0) : Type 0 where
  pub class : C
  pub req_id : ℕ
  pub parsed : Option M

-- new_rx_message and the functions of msg_protobuf_rx. `class_of` is the choice by message type that
-- each connection makes, `parse` is ParseFromArray.
unfoldable pub protobuf_handler :
    {C M : Type 0} → (ℕ → Option C) → (C → Bytes → Option M) → Handler (ProtobufRx C M)
protobuf_handler class_of parse = record {
  new_rx_message = λ header_len body_len msg_type msg_id. elim (class_of msg_type) [
    | none ↦ none
    | some c ↦ some (record { class = c; req_id = msg_id; parsed = none })
  ];
  header_received = λ rx bytes. elim (parse rx.class bytes) [
    | none ↦ none
    | some m ↦ some (record rx { parsed = some m })
  ];
  next_body_rx_buf = λ rx. none;
  body_buf_received = λ rx bytes. none;
}

-- A message on the wire, the times at which its two reads end, and what it is read as.
pub record Frame (C M : Type 0) : Type 0 where
  pub pre : PreHeader
  pub hdr : Bytes
  pub first_read : ℕ
  pub second_read : ℕ
  pub class : C
  pub msg : M

-- The pre-header and the header of each frame, each by one read.
unfoldable pub reads : {C M : Type 0} → List (Frame C M) → List Read
reads [] = []
reads (f ∷ fs) =
    record { now = f.first_read; error = false; bytes = pre_header_bytes f.pre }
    ∷ record { now = f.second_read; error = false; bytes = f.hdr }
    ∷ reads fs

-- The message object that the handler is given.
abbrev pub received : {C M : Type 0} → Frame C M → PreHeader × ProtobufRx C M
received f = (f.pre, record { class = f.class; req_id = f.pre.msg_id; parsed = some f.msg })

module _ {C M : Type 0} (class_of : ℕ → Option C) (parse : C → Bytes → Option M) where
  -- A frame of a supported type without a body, whose header the class parses.
  pub record IsSupported (f : Frame C M) : Type 0 where
    pub words : IsWords f.pre
    pub hdr_len : f.pre.header_len ≡ length f.hdr
    pub short : f.pre.header_len ≤ max_header_len
    pub no_body : f.pre.body_len ≡ 0
    pub known : class_of f.pre.msg_type ≡ some f.class
    pub parses : parse f.class f.hdr ≡ some f.msg

  pre_header_read :
      (s : Receiver (ProtobufRx C M)) (f : Frame C M)
      → s.phase ≡ prehdr
      → IsSupported f
      → (s' : Receiver (ProtobufRx C M)) × (step
            (protobuf_handler class_of parse)
            s
            (record { now = f.first_read; error = false; bytes = pre_header_bytes f.pre })
          ≡ s')
        × (s'.phase ≡ header)
        × (s'.pre_header ≡ f.pre)
        × (s'.completed ≡ s.completed)
  unfolding step handle_pre_read take_pre_header after_read
  pre_header_read s f at v =
      let bytes = read_pre_header-pre_header_bytes f.pre v.words in
      let len = length-pre_header_bytes f.pre in
      (_, refl, ground (arith, bytes, len), ground (arith, bytes, len), ground (arith, bytes, len))

  header_read :
      (s : Receiver (ProtobufRx C M)) (f : Frame C M)
      → s.phase ≡ header
      → s.pre_header ≡ f.pre
      → IsSupported f
      → (s' : Receiver (ProtobufRx C M)) × (step
            (protobuf_handler class_of parse)
            s
            (record { now = f.second_read; error = false; bytes = f.hdr })
          ≡ s')
        × (s'.phase ≡ prehdr)
        × (s'.completed ≡ push_back s.completed (received f))
  unfolding step after_read handle_header_read receive_header next_body_seg protobuf_handler
  header_read s f at pre v = (_, refl, ground arith, ground arith)

  -- All of the frames are supported.
  pub data AllSupported : List (Frame C M) → Type 0 where
    nil : AllSupported []
    cons :
        (f : Frame C M) (fs : List (Frame C M))
        → IsSupported f
        → AllSupported fs
        → AllSupported (f ∷ fs)

  -- A receiver that waits for a pre-header, and reads frames that are all of a supported type, with
  -- no body, a header no longer than the maximum that the class can parse, and fields of 64 bits,
  -- hands the handler the message of every frame, once and in order, and waits for a pre-header again.
  pub completed-run :
      (fs : List (Frame C M)) (s : Receiver (ProtobufRx C M))
      → s.phase ≡ prehdr
      → AllSupported fs
      → ((run (protobuf_handler class_of parse) s (reads fs)).phase ≡ prehdr)
        × ((run (protobuf_handler class_of parse) s (reads fs)).completed
            ≡ s.completed ++ map received fs)
  unfolding run reads
  completed-run [] s at v = (at, sym (append-nil s.completed))
  completed-run (f ∷ fs) s at (cons _ _ v vs) =
      let (s₁, e₁, at₁, pre₁, done₁) = pre_header_read s f at v in
      let (s₂, e₂, at₂, done₂) = header_read s₁ f at₁ pre₁ v in
      let (phase, done) = completed-run fs s₂ at₂ vs in
      let h = protobuf_handler class_of parse in
      let second : Read = record { now = f.second_read; error = false; bytes = f.hdr } in
      let to_rest : run h s (reads (f ∷ fs)) ≡ run h s₂ (reads fs) =
        ap (λ x. run h (step h x second) (reads fs)) e₁ ∙ ap (λ x. run h x (reads fs)) e₂ in
      (
        ap (λ x. x.phase) to_rest ∙ phase,
        ap (λ x. x.completed) to_rest
            ∙ done
            ∙ ap (λ x. x ++ map received fs) (done₂ ∙ ap (λ x. push_back x (received f)) done₁)
            ∙ append_assoc s.completed (received f ∷ []) (map received fs),
      )

  -- A message of a type that the connection does not know makes new_rx_message return nullptr, and the
  -- receiver calls through it: whatever the header, if its length is the announced one.
  unknown_type_faults :
      (s : Receiver (ProtobufRx C M)) (now : ℕ) (bytes : Bytes)
      → s.phase ≡ header
      → s.pre_header.header_len ≡ length bytes
      → class_of s.pre_header.msg_type ≡ none
      → (step
          (protobuf_handler class_of parse)
          s
          (record { now = now; error = false; bytes = bytes })).phase
        ≡ faulted
  unfolding step after_read handle_header_read receive_header protobuf_handler
  unknown_type_faults s now bytes at len unknown = ground arith
