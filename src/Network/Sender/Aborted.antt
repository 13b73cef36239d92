-- ===== src/Network/Sender/Aborted.antt =====
-- message_sender of src/include/network.cpp after a write that failed.
use firehose.Base.{ℕ, ◌≡◌, ◌⊎◌, ◌∙◌, List, [], ◌∷◌, some, true, arith}
use firehose.Network.Sender.{
  Sender, Tx, prehdr, hdr, body, aborted, Clock, Event, message, posted, completion, send_message,
  try_send, send_unless, complete, abort_connection, handle_prehdr_sent, handle_hdr_sent,
  handle_body_seg_sent, written, step, run,
}

-- What no later event changes.
record Stuck (s t : Sender) : Type 0 where
  phase_is : t.phase ≡ aborted
  req_is : t.req ≡ s.req
  wire_is : t.wire ≡ s.wire
  completed_is : t.completed ≡ s.completed

step-Stuck : (r : Tx) (s t : Sender) (v : Event) → s.req ≡ some r → Stuck s t → Stuck s (step t v)
unfolding step send_message try_send send_unless complete written
step-Stuck r s t (message q) has k = record {
  phase_is = k.phase_is;
  req_is = k.req_is;
  wire_is = k.wire_is;
  completed_is = k.completed_is;
}
step-Stuck r s t (posted c) has k = record {
  phase_is = ground (arith, k.req_is, k.phase_is);
  req_is = ground (arith, k.req_is, k.phase_is);
  wire_is = ground (arith, k.req_is, k.wire_is);
  completed_is = ground (arith, k.req_is, k.completed_is);
}
step-Stuck r s t (completion c e n) has k = record {
  phase_is = ground (arith, k.req_is, k.phase_is);
  req_is = ground (arith, k.req_is, k.phase_is);
  wire_is = ground (arith, k.req_is, k.phase_is, k.wire_is);
  completed_is = ground (arith, k.req_is, k.phase_is, k.completed_is);
}

run-Stuck :
    (r : Tx) (s : Sender) (es : List Event) (t : Sender)
    → s.req ≡ some r
    → Stuck s t
    → Stuck s (run t es)
unfolding run
run-Stuck r s [] t has k = k
run-Stuck r s (v ∷ es) t has k = run-Stuck r s es (step t v) has (step-Stuck r s t v has k)

failed-Stuck :
    (s : Sender) (r : Tx) (t : Clock) (n : ℕ)
    → s.req ≡ some r
    → (s.phase ≡ prehdr) ⊎ ((s.phase ≡ hdr) ⊎ (s.phase ≡ body))
    → Stuck s (step s (completion t true n))
unfolding step complete written handle_prehdr_sent handle_hdr_sent handle_body_seg_sent
    abort_connection
failed-Stuck s r t n has at = record {
  phase_is = ground arith;
  req_is = ground arith;
  wire_is = ground arith;
  completed_is = ground arith;
}

-- When a write of the message in flight fails, then whatever events follow, the sender keeps that
-- message in flight, writes nothing more, and completes no further message.
pub failed_write_stops :
    (s : Sender) (r : Tx) (t : Clock) (n : ℕ) (es : List Event)
    → s.req ≡ some r
    → (s.phase ≡ prehdr) ⊎ ((s.phase ≡ hdr) ⊎ (s.phase ≡ body))
    → ((run s (completion t true n ∷ es)).req ≡ some r)
      × ((run s (completion t true n ∷ es)).wire ≡ s.wire)
      × ((run s (completion t true n ∷ es)).completed ≡ s.completed)
unfolding run
failed_write_stops s r t n es has at =
    let k = run-Stuck r s es (step s (completion t true n)) has (failed-Stuck s r t n has at) in
    (k.req_is ∙ has, k.wire_is, k.completed_is)
