-- ===== src/Engine/Durable.antt =====
-- The message buffer and the acknowledgements of an engine of src/firehose/engine.cpp over a history.
use firehose.Base.{
  ℕ, ◌≡◌, ◌≢◌, refl, sym, ap, ◌∙◌, List, [], ◌∷◌, ◌++◌, map, Option, none, some, arith,
  if◌then◌else◌, Key, key_beq, key_beq_iff, get, get_or, key_eq, nat_eq, ap₂, inl, inr, true,
  Bool-cases,
}
use firehose.Api.{RequestPublish, RequestPrepare, RequestUpdateSubscription}
use firehose.Api.{firehose_success}
use firehose.Engine.{
  Engine, Locals, Sent, prepare_ack, publish, response_of, forward_of, on_prepare_receive,
  on_accept_receive, on_update_subscription_receive, leave_topic, set_clients, make_entries,
}
use firehose.Engine.Prepare.{message_buffer-on_prepare_receive}
use firehose.Engine.History.{Event, prepare, accept, update, step, run, run-cons}

-- The last request with a key among some events, or what was there before them.
abbrev pub latest : Key → List Event → Option RequestPrepare → Option RequestPrepare
latest k [] old = old
latest k (prepare c r ∷ vs) old =
    latest k vs (if key_beq (r.topic_id, r.global_id) k then some r else old)
latest k (accept c r ∷ vs) old = latest k vs old
latest k (update c r ∷ vs) old = latest k vs old

pub message_buffer-update :
    (e e' : Engine) (c : ℕ) (r : RequestUpdateSubscription)
    → on_update_subscription_receive e c r ≡ some e'
    → e'.message_buffer ≡ e.message_buffer
unfolding on_update_subscription_receive leave_topic set_clients make_entries
message_buffer-update e e' c r h = ground arith

message_buffer-step :
    (l : Locals) (e : Engine) (v : Event) {e' : Engine} {sent : List Sent} (k : Key)
    → step l e v ≡ some (e', sent)
    → get e'.message_buffer k ≡ latest k (v ∷ []) (get e.message_buffer k)
unfolding step on_accept_receive
message_buffer-step l e (prepare c r) k h =
    ground (arith, message_buffer-on_prepare_receive l e c r k)
message_buffer-step l e (accept c r) k h = ground arith
message_buffer-step l e (update c r) {e'} k h = ground (arith, message_buffer-update e e' c r)

latest-cons :
    (k : Key) (v : Event) (vs : List Event) (old : Option RequestPrepare)
    → latest k (v ∷ vs) old ≡ latest k vs (latest k (v ∷ []) old)
latest-cons k (prepare c r) vs old = refl
latest-cons k (accept c r) vs old = refl
latest-cons k (update c r) vs old = refl

-- After a history that meets no undefined behaviour the buffer holds, under each key, the last request
-- that was prepared with it, or what it held before if there is none.
pub message_buffer-run :
    (l : Locals) (e : Engine) (vs : List Event) {e' : Engine} {sent : List Sent} (k : Key)
    → run l e vs ≡ some (e', sent)
    → get e'.message_buffer k ≡ latest k vs (get e.message_buffer k)
message_buffer-run l e [] k h = unfold run in ground arith
message_buffer-run l e (v ∷ vs) k h =
    let (e₁, first, rest, s, r, _) = run-cons l e v vs h in
    message_buffer-run l e₁ vs k r
    ∙ ap (latest k vs) (message_buffer-step l e v k s)
    ∙ sym (latest-cons k v vs (get e.message_buffer k))

-- The acknowledgements among what an engine sends: the connection, the topic and the global id that
-- the answer names, and its status.
abbrev pub acks : List Sent → List (ℕ × Key × ℕ)
acks [] = []
acks (prepare_ack c r ∷ rest) = (c, (r.topic_id, r.global_id), r.header.status) ∷ acks rest
acks (publish c r ∷ rest) = acks rest

-- The answer that is due to each prepare of a history: success, for its topic and global id, on the
-- connection that it came on.
abbrev pub answers : List Event → List (ℕ × Key × ℕ)
answers [] = []
answers (prepare c r ∷ vs) = (c, (r.topic_id, r.global_id), firehose_success) ∷ answers vs
answers (accept c r ∷ vs) = answers vs
answers (update c r ∷ vs) = answers vs

-- No two prepares have the same topic and global id.
abbrev pub AreApart : List Event → Type 0
AreApart [] = Unit
AreApart (prepare c r ∷ vs) = (latest (r.topic_id, r.global_id) vs none ≡ none) × AreApart vs
AreApart (accept c r ∷ vs) = AreApart vs
AreApart (update c r ∷ vs) = AreApart vs

-- The buffer holds the request of every prepare, under its topic and global id.
abbrev pub AreStored : Engine → List Event → Type 0
AreStored e [] = Unit
AreStored e (prepare c r ∷ vs) =
    (get e.message_buffer (r.topic_id, r.global_id) ≡ some r) × AreStored e vs
AreStored e (accept c r ∷ vs) = AreStored e vs
AreStored e (update c r ∷ vs) = AreStored e vs

latest-ne-none :
    (k : Key) (vs : List Event) (old : Option RequestPrepare) → old ≢ none → latest k vs old ≢ none
latest-ne-none k [] old h = h
latest-ne-none k (prepare c r ∷ vs) old h = latest-ne-none k vs _ (ground (arith, h))
latest-ne-none k (accept c r ∷ vs) old h = latest-ne-none k vs old h
latest-ne-none k (update c r ∷ vs) old h = latest-ne-none k vs old h

latest-none :
    (k : Key) (vs : List Event) (old : Option RequestPrepare)
    → latest k vs none ≡ none
    → latest k vs old ≡ old
latest-none k [] old h = refl
latest-none k (prepare c r ∷ vs) old h = elim (Bool-cases (key_beq (r.topic_id, r.global_id) k)) [
  | inl same ↦ absurd (latest-ne-none k vs (some r) (λ no. absurd cc) (rw (same) at h))
  | inr other ↦ rw (other) (latest-none k vs old (rw (other) at h))
]
latest-none k (accept c r ∷ vs) old h = latest-none k vs old h
latest-none k (update c r ∷ vs) old h = latest-none k vs old h

acks-append : (xs ys : List Sent) → acks (xs ++ ys) ≡ acks xs ++ acks ys
acks-append [] ys = refl
acks-append (prepare_ack c r ∷ xs) ys =
    ap (λ l. (c, (r.topic_id, r.global_id), r.header.status) ∷ l) (acks-append xs ys)
acks-append (publish c r ∷ xs) ys = acks-append xs ys

acks-publish : (r : RequestPublish) (ns : List ℕ) → acks (map (λ n. publish n r) ns) ≡ []
acks-publish r [] = refl
acks-publish r (n ∷ ns) = acks-publish r ns

acks-step :
    (l : Locals) (e : Engine) (v : Event) (e' : Engine) (sent : List Sent)
    → step l e v ≡ some (e', sent)
    → acks sent ≡ answers (v ∷ [])
unfolding step on_prepare_receive
acks-step l e (prepare c r) e' sent h =
    let nuzzles = get_or e.subscriptions r.topic_id [] in
    let is : prepare_ack c (response_of l r) ∷ map (λ n. publish n (forward_of l r)) nuzzles
        ≡ sent =
      cc in
    ap acks (sym is)
    ∙ ap (λ xs. (c, (r.topic_id, r.global_id), firehose_success) ∷ xs)
        (acks-publish (forward_of l r) nuzzles)
acks-step l e (accept c r) e' sent h =
    let nothing : [] ≡ sent = ground arith in ap acks (sym nothing)
acks-step l e (update c r) e' sent h =
    let nothing : [] ≡ sent = ground arith in ap acks (sym nothing)

answers-cons : (v : Event) (vs : List Event) → answers (v ∷ vs) ≡ answers (v ∷ []) ++ answers vs
answers-cons (prepare c r) vs = refl
answers-cons (accept c r) vs = refl
answers-cons (update c r) vs = refl

acks-run :
    (l : Locals) (e : Engine) (vs : List Event) {e' : Engine} {sent : List Sent}
    → run l e vs ≡ some (e', sent)
    → acks sent ≡ answers vs
acks-run l e [] {sent = sent} h =
    let nothing : [] ≡ sent = unfold run in ground arith in ap acks (sym nothing)
acks-run l e (v ∷ vs) h =
    let (e₁, first, rest, s, r, eq) = run-cons l e v vs h in
    ap acks eq
    ∙ acks-append first rest
    ∙ ap₂ (λ xs ys. xs ++ ys) (acks-step l e v e₁ first s) (acks-run l e₁ vs r)
    ∙ sym (answers-cons v vs)

-- What is stored by the last prepare of its key is there at the end.
stored-last :
    (l : Locals) (e e' : Engine) (c : ℕ) (r : RequestPrepare) (vs : List Event) (sent : List Sent)
    → latest (r.topic_id, r.global_id) vs none ≡ none
    → run l e (prepare c r ∷ vs) ≡ some (e', sent)
    → get e'.message_buffer (r.topic_id, r.global_id) ≡ some r
stored-last l e e' c r vs sent last h =
    let k : Key = (r.topic_id, r.global_id) in
    let own : key_beq k k ≡ true = (key_beq_iff k k).1 refl in
    message_buffer-run l e (prepare c r ∷ vs) k h ∙ latest-none k vs _ last ∙ rw (own) refl

run-AreStored :
    (l : Locals) (e : Engine) (vs : List Event) (e' : Engine) (sent : List Sent)
    → AreApart vs
    → run l e vs ≡ some (e', sent)
    → AreStored e' vs
run-AreStored l e [] e' sent apart h = tt
run-AreStored l e (prepare c r ∷ vs) e' sent apart h =
    let (e₁, first, rest, s, later, eq) = run-cons l e (prepare c r) vs h in
    (stored-last l e e' c r vs sent apart.0 h, run-AreStored l e₁ vs e' rest apart.1 later)
run-AreStored l e (accept c r ∷ vs) e' sent apart h =
    let (e₁, first, rest, s, later, eq) = run-cons l e (accept c r) vs h in
    run-AreStored l e₁ vs e' rest apart later
run-AreStored l e (update c r ∷ vs) e' sent apart h =
    let (e₁, first, rest, s, later, eq) = run-cons l e (update c r) vs h in
    run-AreStored l e₁ vs e' rest apart later

-- After a history that meets no undefined behaviour, and in which no two prepares have the same topic
-- and global id, the engine has acknowledged each prepare once, in order, with success, on the
-- connection that it came on and with its topic and its global id, and its message buffer holds the
-- request of each, as it came, under that topic and global id.
pub acknowledged-AreStored :
    (l : Locals) (e : Engine) (vs : List Event) {e' : Engine} {sent : List Sent}
    → AreApart vs
    → run l e vs ≡ some (e', sent)
    → (acks sent ≡ answers vs) × AreStored e' vs
acknowledged-AreStored l e vs {e'} {sent} apart h =
    (acks-run l e vs h, run-AreStored l e vs e' sent apart h)
