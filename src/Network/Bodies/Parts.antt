-- ===== src/Network/Bodies/Parts.antt =====
-- How a message_receiver reads a message with a body.
use firehose.Base.{
  ℕ, ◌+◌, ◌-◌, ◌≤◌, ◌<◌, ◌≡◌, refl, ap, sym, ◌∙◌, List, [], ◌∷◌, Option, some, arith, length,
  push_back, map, All, total,
}
use firehose.Api.{Bytes}
use firehose.Network.Wire.{
  PreHeader, IsWords, pre_header_bytes, read_pre_header-pre_header_bytes, length-pre_header_bytes,
}
use firehose.Network.Receiver as Receiving
use firehose.Network.Receiver.{
  Handler, Receiver, Read, after_read, handle_pre_read, take_pre_header, handle_header_read,
  receive_header, handle_body_seg_read, receive_body,
}
use firehose.Network.Wire.{max_header_len}
use firehose.Network.Bodies.{BodyRx, body_handler, read}

module _ {C M : Type 0} (class_of : ℕ → Option C) (parse : C → Bytes → Option M)
    (size_of : C → ℕ → ℕ) (p : PreHeader) (hdr : Bytes) (c : C) (msg : M) where
  -- A pre-header and a header that a connection takes for a message of class `c`.
  pub record IsTaken : Type 0 where
    pub words : IsWords p
    pub hdr_len : p.header_len ≡ length hdr
    pub short : p.header_len ≤ max_header_len
    pub known : class_of p.msg_type ≡ some c
    pub parses : parse c hdr ≡ some msg

  abbrev h : Handler (BodyRx C M)
  h = body_handler class_of parse size_of

  -- The message object after the header.
  abbrev pub rx : Bytes → BodyRx C M
  rx body = record {
    class = c;
    req_id = p.msg_id;
    parsed = some msg;
    body_len = size_of c p.body_len;
    body = body;
  }

  -- The state in which the reads of a body have come so far.
  record AtBody (s : Receiver (BodyRx C M)) (completed : List (PreHeader × BodyRx C M))
      (body : Bytes) (left : ℕ) : Type 0 where
    phase_is : s.phase ≡ Receiving.body
    pre_is : s.pre_header ≡ p
    req_is : s.req ≡ some (rx body)
    left_is : s.body_left ≡ left
    completed_is : s.completed ≡ completed

  pre_header_read :
      (s : Receiver (BodyRx C M)) (now : ℕ)
      → s.phase ≡ Receiving.prehdr
      → IsTaken
      → (s' : Receiver (BodyRx C M)) × (Receiving.step h s (read now (pre_header_bytes p)) ≡ s')
        × (s'.phase ≡ Receiving.header)
        × (s'.pre_header ≡ p)
        × (s'.completed ≡ s.completed)
  unfolding Receiving.step handle_pre_read take_pre_header after_read
  pre_header_read s now at v =
      let bytes = read_pre_header-pre_header_bytes p v.words in
      let len = length-pre_header_bytes p in
      (_, refl, ground (arith, bytes, len), ground (arith, bytes, len), ground (arith, bytes, len))

  header_read :
      (s : Receiver (BodyRx C M)) (now : ℕ)
      → s.phase ≡ Receiving.header
      → s.pre_header ≡ p
      → IsTaken
      → 0 < p.body_len
      → AtBody (Receiving.step h s (read now hdr)) s.completed [] p.body_len
  unfolding Receiving.step after_read handle_header_read receive_header Receiving.next_body_seg
      body_handler
  header_read s now at pre v some_body = record {
    phase_is = ground (arith, v.hdr_len, v.known, v.parses);
    pre_is = ground (arith, v.hdr_len, v.known, v.parses);
    req_is = ground (arith, v.hdr_len, v.known, v.parses);
    left_is = ground (arith, v.hdr_len, v.known, v.parses);
    completed_is = ground (arith, v.hdr_len, v.known, v.parses);
  }

  -- A part of the body that fills the buffer, with more to come.
  part_read :
      (s : Receiver (BodyRx C M)) (now : ℕ) (completed : List (PreHeader × BodyRx C M))
      (old bytes : Bytes) (left : ℕ)
      → AtBody s completed old left
      → length bytes ≡ size_of c p.body_len
      → length bytes < left
      → AtBody (Receiving.step h s (read now bytes)) completed bytes (left - length bytes)
  unfolding Receiving.step after_read handle_body_seg_read receive_body Receiving.next_body_seg
      body_handler
  part_read s now completed old bytes left at full more = record {
    phase_is = ground (arith, at.phase_is, at.req_is, at.left_is);
    pre_is = ground (arith, at.phase_is, at.req_is, at.left_is, at.pre_is);
    req_is = ground (arith, at.phase_is, at.req_is, at.left_is);
    left_is = ground (arith, at.phase_is, at.req_is, at.left_is);
    completed_is = ground (arith, at.phase_is, at.req_is, at.left_is, at.completed_is);
  }

  -- The last part of the body.
  last_read :
      (s : Receiver (BodyRx C M)) (now : ℕ) (completed : List (PreHeader × BodyRx C M))
      (old bytes : Bytes)
      → AtBody s completed old (length bytes)
      → length bytes ≡ size_of c p.body_len
      → ((Receiving.step h s (read now bytes)).phase ≡ Receiving.prehdr)
        × ((Receiving.step h s (read now bytes)).completed ≡ push_back completed (p, rx bytes))
  unfolding Receiving.step after_read handle_body_seg_read receive_body Receiving.next_body_seg
      body_handler
  last_read s now completed old bytes at full = (
    ground (arith, at.phase_is, at.req_is, at.left_is),
    ground (arith, at.phase_is, at.req_is, at.left_is, at.pre_is, at.completed_is),
  )

  abbrev pub last_of : Bytes → List Bytes → Bytes
  last_of part [] = part
  last_of part (next ∷ rest) = last_of next rest

  -- All parts fill the buffer.
  abbrev pub AllFull : List Bytes → Type 0
  AllFull parts = All (λ (part : Bytes). length part ≡ size_of c p.body_len) parts

  parts_read :
      (now : ℕ) (completed : List (PreHeader × BodyRx C M)) (part : Bytes) (rest : List Bytes)
      (s : Receiver (BodyRx C M)) (old : Bytes)
      → 0 < size_of c p.body_len
      → AllFull (part ∷ rest)
      → AtBody s completed old (length part + total length rest)
      → ((Receiving.run h s (map (read now) (part ∷ rest))).phase ≡ Receiving.prehdr)
        × ((Receiving.run h s (map (read now) (part ∷ rest))).completed
            ≡ push_back completed (p, rx (last_of part rest)))
  unfolding Receiving.run total
  parts_read now completed part [] s old some_size full at =
      let all : length part + 0 ≡ length part = omega arith in
      last_read s now completed old part (rw (all) at at) full.0
  parts_read now completed part (next ∷ rest) s old some_size full at =
      let more : length part < length part + (length next + total length rest) =
        omega (arith, some_size, full.1.0) in
      let left : length part + (length next + total length rest) - length part
          ≡ length next + total length rest =
        omega arith in
      let now_at = part_read s now completed old part _ at full.0 more in
      parts_read now completed next rest (Receiving.step h s (read now part)) part some_size full.1
        (rw (left) at now_at)

  -- A receiver that waits for a pre-header, and reads those of a message with a body and then the
  -- body, which comes in one or more parts that each fill the buffer of the message object, hands
  -- over the object with the last part as its body, whatever the others, and waits for a pre-header.
  pub last_part_kept :
      (s : Receiver (BodyRx C M)) (now : ℕ) (part : Bytes) (rest : List Bytes)
      → s.phase ≡ Receiving.prehdr
      → IsTaken
      → 0 < size_of c p.body_len
      → AllFull (part ∷ rest)
      → p.body_len ≡ length part + total length rest
      → ((Receiving.run h s
            (read now (pre_header_bytes p) ∷ read now hdr ∷ map (read now) (part ∷ rest))).phase
          ≡ Receiving.prehdr)
        × ((Receiving.run h s (
              read now (pre_header_bytes p)
              ∷ read now hdr
              ∷ map (read now) (part ∷ rest))).completed
            ≡ push_back s.completed (p, rx (last_of part rest)))
  unfolding Receiving.run
  last_part_kept s now part rest at v some_size full whole =
      let (s₁, e₁, at₁, pre₁, done₁) = pre_header_read s now at v in
      let some_body : 0 < p.body_len = omega (arith, whole, some_size, full.0) in
      let at₂ = header_read s₁ now at₁ pre₁ v some_body in
      let at₂' : AtBody (Receiving.step h s₁ (read now hdr)) s₁.completed []
          (length part + total length rest) =
        rw (sym whole) at₂ in
      let (phase, done) =
        parts_read now s₁.completed part rest (Receiving.step h s₁ (read now hdr)) [] some_size full
          at₂' in
      let to_rest : Receiving.run h s
            (read now (pre_header_bytes p) ∷ read now hdr ∷ map (read now) (part ∷ rest))
          ≡ Receiving.run h (Receiving.step h s₁ (read now hdr)) (map (read now) (part ∷ rest)) =
        ap (λ x. Receiving.run h (Receiving.step h x (read now hdr)) (map (read now) (part ∷ rest)))
          e₁ in
      (
        ap (λ x. x.phase) to_rest ∙ phase,
        ap (λ x. x.completed) to_rest
            ∙ done
            ∙ ap (λ x. push_back x (p, rx (last_of part rest))) done₁,
      )
