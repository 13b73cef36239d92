-- ===== src/Network/Sender/Order.antt =====
-- message_sender of src/include/network.cpp: the messages that it holds, over any events.
use firehose.Base.{
  ℕ, ◌-◌, ◌≡◌, refl, sym, ap, ◌∙◌, List, [], ◌∷◌, ◌++◌, map, append_assoc, append-nil, Option, none,
  some, Bool, true, false, inl, inr, ◌≢◌, Bool-cases, leb, ltb, length, nat_beq, push_back,
}
use firehose.Api.{Bytes}
use firehose.Network.Wire.{PreHeader, max_header_len}
use firehose.Network.Sender.{
  Sender, Tx, Phase, idle, prehdr, hdr, body, aborted, faulted, Clock, Event, message, posted,
  completion, pop_next, start_send, send_next_message, send_message, try_send, send_unless,
  complete, abort_connection, next_segment, next_body_seg, handle_prehdr_sent, handle_hdr_sent,
  handle_body_seg_sent, written, step, run,
}

-- What a message is, whatever of its body has been taken.
pub record Ident : Type 0 where
  pub msg_type : ℕ
  pub req_id : ℕ
  pub header : Bytes
  pub body_len : ℕ
  pub segments : List Bytes

abbrev pub ident : Tx → Ident
ident req = record {
  msg_type = req.msg_type;
  req_id = req.req_id;
  header = req.header;
  body_len = req.body_len;
  segments = req.taken ++ req.left;
}

abbrev in_flight : Option Tx → List Ident
in_flight none = []
in_flight (some req) = ident req ∷ []

-- The messages that are sent, the one that is being sent, and those that wait.
abbrev pub all_messages : Sender → List Ident
all_messages s = map (λ c. ident c.1) s.completed ++ (in_flight s.req ++ map ident s.tx_queue)

abbrev pub handed_over : List Event → List Ident
handed_over [] = []
handed_over (message req ∷ es) = ident req ∷ handed_over es
handed_over (posted t ∷ es) = handed_over es
handed_over (completion t e n ∷ es) = handed_over es

map-push_back {ℓ κ} :
    {A : Type ℓ} {B : Type κ} (f : A → B) (xs : List A) (x : A)
    → map f (push_back xs x) ≡ push_back (map f xs) (f x)
map-push_back f [] x = refl
map-push_back f (y ∷ xs) x = ap (◌∷◌ (f y)) (map-push_back f xs x)

pop_next-all_messages :
    (t : Clock) (s : Sender) (q : List Tx)
    → s.req ≡ none
    → s.tx_queue ≡ q
    → all_messages (pop_next t s q) ≡ all_messages s
unfolding pop_next start_send
pop_next-all_messages t s [] e h = refl
pop_next-all_messages t s (r ∷ rest) e h =
    elim (Bool-cases (leb (length r.header) max_header_len)) [
      | inl q ↦ rw (q, e, h)
      | inr q ↦ rw (q, e, h)
    ]

send_unless-all_messages :
    (t : Clock) (s : Sender) (q : Option Tx)
    → s.req ≡ q
    → all_messages (send_unless t s q) ≡ all_messages s
unfolding send_unless send_next_message
send_unless-all_messages t s none e = pop_next-all_messages t s s.tx_queue e refl
send_unless-all_messages t s (some r) e = refl

-- A segment that is taken is still part of the message.
ident-take :
    (r : Tx) (seg : Bytes) (rest : List Bytes)
    → r.left ≡ seg ∷ rest
    → ident (record r { taken = push_back r.taken seg; left = rest }) ≡ ident r
ident-take r seg rest h = λ i. record {
  msg_type = r.msg_type;
  req_id = r.req_id;
  header = r.header;
  body_len = r.body_len;
  segments = (append_assoc r.taken (seg ∷ []) rest ∙ ap (◌++◌ r.taken) (sym h)) i;
}

next_segment-all_messages :
    (s : Sender) (r : Tx) (left : List Bytes)
    → s.req ≡ some r
    → r.left ≡ left
    → all_messages (next_segment s r left) ≡ all_messages s
unfolding next_segment
next_segment-all_messages s r [] e h = refl
next_segment-all_messages s r (seg ∷ rest) e h = elim (Bool-cases (leb (length seg) s.body_left)) [
  | inl q ↦ rw (q, e) (rw (ident-take r seg rest h))
  | inr q ↦ rw q
]

next_body_seg-all_messages :
    (t : Clock) (s : Sender) (r : Tx)
    → s.req ≡ some r
    → all_messages (next_body_seg t s r) ≡ all_messages s
unfolding next_body_seg send_next_message
next_body_seg-all_messages t s r e = elim (Bool-cases (ltb 0 s.body_left)) [
  | inl q ↦ rw q (next_segment-all_messages s r r.left e refl)
  | inr q ↦ rw q (pop_next-all_messages t done s.tx_queue refl refl ∙ finished)
]
  where
    done : Sender
    done = record s {
      completed = push_back s.completed (s.pre_header, r);
      req = none;
      phase = idle;
    }

    finished : all_messages done ≡ all_messages s
    finished =
        rw (map-push_back (λ (c : PreHeader × Tx). ident c.1) s.completed (s.pre_header, r), e)
          (append_assoc (map (λ (c : PreHeader × Tx). ident c.1) s.completed) (ident r ∷ [])
            (map ident s.tx_queue))

written-all_messages :
    (p : Phase) (t : Clock) (error : Bool) (n : ℕ) (s : Sender) (r : Tx)
    → s.req ≡ some r
    → all_messages (written p t error n s r) ≡ all_messages s
unfolding written handle_prehdr_sent handle_hdr_sent handle_body_seg_sent abort_connection
written-all_messages prehdr t true n s r e = refl
written-all_messages prehdr t false n s r e = elim (Bool-cases (nat_beq n 48)) [
  | inl q ↦ rw q
  | inr q ↦ rw q
]
written-all_messages hdr t true n s r e = refl
written-all_messages hdr t false n s r e = elim (Bool-cases (nat_beq n (length r.header))) [
  | inl q ↦ rw q (next_body_seg-all_messages t (record s { body_left = r.body_len }) r e)
  | inr q ↦ rw q
]
written-all_messages body t true n s r e = refl
written-all_messages body t false n s r e = elim (Bool-cases (nat_beq n s.body_seg_sent)) [
  | inl q ↦ rw q (next_body_seg-all_messages t (record s { body_left = s.body_left - n }) r e)
  | inr q ↦ rw q
]
written-all_messages idle t error n s r e = refl
written-all_messages aborted t error n s r e = refl
written-all_messages faulted t error n s r e = refl

complete-all_messages :
    (t : Clock) (error : Bool) (n : ℕ) (s : Sender) (q : Option Tx)
    → s.req ≡ q
    → all_messages (complete t error n s q) ≡ all_messages s
unfolding complete
complete-all_messages t error n s none e = refl
complete-all_messages t error n s (some r) e = written-all_messages s.phase t error n s r e

step-all_messages :
    (s : Sender) (v : Event) → all_messages (step s v) ≡ all_messages s ++ handed_over (v ∷ [])
unfolding step send_message try_send
step-all_messages s (message req) = simp (map-push_back, append_assoc)
step-all_messages s (posted t) =
    send_unless-all_messages t s s.req refl ∙ sym (append-nil (all_messages s))
step-all_messages s (completion t error n) =
    complete-all_messages t error n s s.req refl ∙ sym (append-nil (all_messages s))

handed_over-cons :
    (v : Event) (es : List Event) → handed_over (v ∷ es) ≡ handed_over (v ∷ []) ++ handed_over es
handed_over-cons (message req) es = refl
handed_over-cons (posted t) es = refl
handed_over-cons (completion t e n) es = refl

all_messages-steps :
    (s : Sender) (es : List Event) → all_messages (run s es) ≡ all_messages s ++ handed_over es
unfolding run
all_messages-steps s [] = sym (append-nil (all_messages s))
all_messages-steps s (v ∷ es) =
    all_messages-steps (step s v) es
    ∙ ap (λ l. l ++ handed_over es) (step-all_messages s v)
    ∙ append_assoc (all_messages s) (handed_over (v ∷ [])) (handed_over es)
    ∙ ap (◌++◌ (all_messages s)) (sym (handed_over-cons v es))

-- From any state and whatever the events, unless they lead to undefined behaviour, as a header does
-- that is longer than the buffer: the messages that are completed, in flight and waiting are, in this
-- order, those that were there and then those that were handed over, in the order of hand-over.
pub all_messages-run :
    (s : Sender) (es : List Event)
    → (run s es).phase ≢ faulted
    → all_messages (run s es) ≡ all_messages s ++ handed_over es
all_messages-run s es defined = all_messages-steps s es
