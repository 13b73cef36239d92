-- ===== src/Network/Sender/Drain.antt =====
-- message_sender of src/include/network.cpp, while its writes succeed.
use firehose.Base.{
  ◌≡◌, refl, sym, ap, subst, ◌∙◌, List, [], ◌∷◌, ◌++◌, map, append_assoc, append-nil, none, some,
  false, true, arith, length, push_back, ◌≤◌, ◌+◌, leb,
}
use firehose.Api.{Bytes}
use firehose.Network.Wire.{PreHeader, pre_header_bytes, max_header_len}
use firehose.Network.Stats.{message_sent}
use firehose.Network.Sender.{
  Sender, Tx, idle, prehdr, Clock, Event, posted, completion, start_send, pop_next,
  send_next_message, try_send, send_unless, next_body_seg, handle_prehdr_sent, handle_hdr_sent,
  written, complete, step, run,
}

-- The pre-header that a message goes out under.
abbrev pub pre_of : Clock → Tx → PreHeader
pre_of t r = record {
  header_len = length r.header;
  body_len = r.body_len;
  msg_type = r.msg_type;
  msg_id = r.req_id;
  sent_at = t.now;
  local_delta = t.local_delta;
}

-- A message, and what the clock shows when it is started.
abbrev pub Timed : Type 0
Timed = Clock × Tx

abbrev pub messages : List Timed → List Tx
messages rs = map (λ (p : Timed). p.1) rs

-- What the clock shows when the next message is started, if there is one.
abbrev pub next_clock : Clock → List Timed → Clock
next_clock t [] = t
next_clock t ((u, r) ∷ rs) = u

-- The bytes of the messages, each by its pre-header and its header.
unfoldable pub frames : List Timed → Bytes
frames [] = []
frames ((t, r) ∷ rs) = pre_header_bytes (pre_of t r) ++ (r.header ++ frames rs)

-- The completions of the two writes of each message; at the second, the next message is started.
unfoldable pub writes : List Timed → List Event
writes [] = []
writes ((t, r) ∷ rs) =
    completion t false 48 ∷ completion (next_clock t rs) false (length r.header) ∷ writes rs

-- None of the messages has a body, or a header that is longer than the buffer.
pub data AllBare : List Tx → Type 0 where
  nil : AllBare []
  cons :
      (r : Tx) (rs : List Tx)
      → r.body_len ≡ 0
      → length r.header ≤ max_header_len
      → AllBare rs
      → AllBare (r ∷ rs)

-- The sender is at rest, and has sent some bytes and completed some messages.
pub record IsAt (s : Sender) (queue : List Tx) (wire : Bytes) (completed : List (PreHeader × Tx))
    : Type 0 where
  pub queue_is : s.tx_queue ≡ queue
  pub req_is : s.req ≡ none
  pub phase_is : s.phase ≡ idle
  pub wire_is : s.wire ≡ wire
  pub completed_is : s.completed ≡ completed

-- The completions of the two writes of the message in flight.
two_writes :
    (t u : Clock) (s : Sender) (r : Tx)
    → r.body_len ≡ 0
    → s.phase ≡ prehdr
    → s.req ≡ some r
    → (s' : Sender) × (step (step s (completion t false 48)) (completion u false (length r.header))
        ≡ send_next_message u s')
      × IsAt s' s.tx_queue (s.wire ++ r.header) (push_back s.completed (s.pre_header, r))
unfolding step complete written handle_prehdr_sent handle_hdr_sent next_body_seg
two_writes t u s r bare at has = (
  record s {
    req = none;
    phase = idle;
    body_left = 0;
    wire = s.wire ++ r.header;
    completed = push_back s.completed (s.pre_header, r);
  },
  ground arith,
  record { queue_is = refl; req_is = refl; phase_is = refl; wire_is = refl; completed_is = refl },
)

-- The message is in flight.
abbrev started : Clock → Sender → Tx → Sender
started t s r = record s {
  pre_header = pre_of t r;
  stats = message_sent s.stats (length r.header + r.body_len + 48);
  req = some r;
  phase = prehdr;
  wire = s.wire ++ pre_header_bytes (pre_of t r);
}

send_next-start :
    (t : Clock) (s : Sender) (r : Tx) (rs : List Tx)
    → length r.header ≤ max_header_len
    → s.tx_queue ≡ r ∷ rs
    → send_next_message t s ≡ started t (record s { tx_queue = rs }) r
unfolding send_next_message pop_next start_send
send_next-start t s r rs short e =
    let fits : leb (length r.header) max_header_len ≡ true = ground arith in rw (e, fits)

send_next-rest : (t : Clock) (s : Sender) → s.tx_queue ≡ [] → send_next_message t s ≡ s
unfolding send_next_message pop_next
send_next-rest t s e = ap (pop_next t s) e

abbrev pub done_of : List Timed → List (PreHeader × Tx)
done_of rs = map (λ (p : Timed). (pre_of p.0 p.1, p.1)) rs

drain :
    (now : Clock) (rs : List Timed) (s : Sender) (wire : Bytes) (completed : List (PreHeader × Tx))
    → IsAt s (messages rs) wire completed
    → AllBare (messages rs)
    → IsAt
        (run (send_next_message (next_clock now rs) s) (writes rs))
        []
        (wire ++ frames rs)
        (completed ++ done_of rs)
unfolding run writes frames
drain now [] s wire completed at bare =
    let same = send_next-rest now s at.queue_is in
    record {
      queue_is = ap (λ x. x.tx_queue) same ∙ at.queue_is;
      req_is = ap (λ x. x.req) same ∙ at.req_is;
      phase_is = ap (λ x. x.phase) same ∙ at.phase_is;
      wire_is = ap (λ x. x.wire) same ∙ at.wire_is ∙ sym (append-nil wire);
      completed_is = ap (λ x. x.completed) same ∙ at.completed_is ∙ sym (append-nil completed);
    }
drain now ((t, r) ∷ rs) s wire completed at (cons _ _ no_body short bare) =
    let s₁ : Sender = started t (record s { tx_queue = messages rs }) r in
    let begun : send_next_message t s ≡ s₁ =
      send_next-start t s r (messages rs) short at.queue_is in
    let u = next_clock t rs in
    let (s₂, moved, at₂) = two_writes t u s₁ r no_body refl refl in
    let first = completion t false 48 in
    let second = completion u false (length r.header) in
    let wire₂ = (wire ++ pre_header_bytes (pre_of t r)) ++ r.header in
    let at₂' : IsAt s₂ (messages rs) wire₂ (push_back completed (pre_of t r, r)) = record {
      queue_is = at₂.queue_is;
      req_is = at₂.req_is;
      phase_is = at₂.phase_is;
      wire_is = at₂.wire_is ∙ ap (λ w. (w ++ pre_header_bytes (pre_of t r)) ++ r.header) at.wire_is;
      completed_is = at₂.completed_is ∙ ap (λ c. push_back c (pre_of t r, r)) at.completed_is;
    } in
    let later = drain t rs s₂ wire₂ (push_back completed (pre_of t r, r)) at₂' bare in
    let whole : run (send_next_message t s) (writes ((t, r) ∷ rs))
        ≡ run (send_next_message u s₂) (writes rs) =
      ap (λ x. run (step (step x first) second) (writes rs)) begun
      ∙ ap (λ x. run x (writes rs)) moved in
    record {
      queue_is = ap (λ x. x.tx_queue) whole ∙ later.queue_is;
      req_is = ap (λ x. x.req) whole ∙ later.req_is;
      phase_is = ap (λ x. x.phase) whole ∙ later.phase_is;
      wire_is =
          ap (λ x. x.wire) whole
          ∙ later.wire_is
          ∙ append_assoc (wire ++ pre_header_bytes (pre_of t r)) r.header (frames rs)
          ∙ append_assoc wire (pre_header_bytes (pre_of t r)) (r.header ++ frames rs);
      completed_is =
          ap (λ x. x.completed) whole
          ∙ later.completed_is
          ∙ append_assoc completed ((pre_of t r, r) ∷ []) (done_of rs);
    }

-- A sender at rest, whose waiting messages have no body and a header that fits its buffer, and whose
-- two writes for each message both succeed after one try_send, where the clock shows any time when
-- each message is started: it completes every message, in the order of the queue, each with the time
-- of its own start, ends at rest with an empty queue, and has written, after its earlier bytes, the
-- frames of the messages.
pub run-writes :
    (now : Clock) (s : Sender) (rs : List Timed) (wire : Bytes) (completed : List (PreHeader × Tx))
    → IsAt s (messages rs) wire completed
    → AllBare (messages rs)
    → IsAt
        (run s (posted (next_clock now rs) ∷ writes rs))
        []
        (wire ++ frames rs)
        (completed ++ done_of rs)
unfolding run step try_send send_unless
run-writes now s rs wire completed at bare =
    let t = next_clock now rs in
    let tried : send_unless t s s.req ≡ send_next_message t s = ap (send_unless t s) at.req_is in
    subst (λ x. IsAt (run x (writes rs)) [] (wire ++ frames rs) (completed ++ done_of rs))
      (sym tried) (drain now rs s wire completed at bare)
