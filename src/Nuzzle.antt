-- ===== src/Nuzzle.antt =====
-- src/firehose/nuzzle.cpp and class Nuzzle of src/firehose/api/nuzzle_api.h: a nuzzle counts the
-- copies of a message that reach it from the engines, delivers the message to its consumers when the
-- copies are a majority of the group, and forgets the message when the group is complete.
-- A connection is a number, its address. A handler returns the new nuzzle with what it sends.
pub mod Receive
pub mod Delivery
pub mod Subscribe
pub mod Messages
pub mod Sends
use firehose.Base.{
  ℕ, ◌+◌, ◌/◌, ◌%◌, List, [], ◌∷◌, map, Option, none, some, Bool, ◌||◌, if◌then◌else◌, nat_beq, Key,
  push_back, erase_found, length, u16_mod, Map, empty, get, put, erase, get_or, nat_eq, key_eq,
}
use firehose.Api.{RequestPublish, ResponsePublish, RequestUpdateSubscription}

pub record Nuzzle : Type 0 where
  pub node_id : ℕ
  pub group_size : ℕ
  pub subscriptions : Map ℕ (List ℕ)
  pub engine_connections : List ℕ
  pub message_buffer : Map Key (List ℕ)

-- Nuzzle::Nuzzle
abbrev pub init : ℕ → ℕ → Nuzzle
init node_id group_size = record {
  node_id = node_id;
  group_size = group_size;
  subscriptions = empty;
  engine_connections = [];
  message_buffer = empty;
}

-- The connection to an engine, once it is established.
unfoldable pub connect_to_engine : Nuzzle → ℕ → Nuzzle
connect_to_engine n engine = record n { engine_connections = push_back n.engine_connections engine }

pub data Sent : Type 0 where
  deliver : ℕ → RequestPublish → Sent
  update_subscription : ℕ → RequestUpdateSubscription → Sent

-- floor(1 + group_size / 2), where `/` is the division of integers
abbrev pub quorum : ℕ → ℕ
quorum group_size = 1 + group_size / 2

abbrev pub key_of : RequestPublish → Key
key_of request = (request.topic_id, request.global_id)

unfoldable pub make_key : Map Key (List ℕ) → Key → Map Key (List ℕ)
make_key buffer k = elim (get buffer k) [ none ↦ put buffer k [] | some _ ↦ buffer ]

-- The buffer after the copy has been noted.
unfoldable pub note_copy : Map Key (List ℕ) → Key → ℕ → Map Key (List ℕ)
unfolding make_key
note_copy buffer k connection =
    let made = make_key buffer k in put made k (push_back (get_or made k []) connection)

-- received_requests_num, a uint16_t
unfoldable pub received : Map Key (List ℕ) → Key → ℕ
received buffer k = length (get_or buffer k []) % u16_mod

-- `subscriptions[topic_id]` in the loop adds an empty entry for a topic that has none.
unfoldable pub deliver_all : Nuzzle → RequestPublish → Nuzzle × List Sent
deliver_all n request =
    let consumers = get_or n.subscriptions request.topic_id [] in
    (
      record n { subscriptions = put n.subscriptions request.topic_id consumers },
      map (λ consumer. deliver consumer request) consumers,
    )

unfoldable pub on_publish_receive : Nuzzle → ℕ → RequestPublish → Nuzzle × List Sent
unfolding note_copy received deliver_all
on_publish_receive n connection request =
    let k = key_of request in
    let noted = record n { message_buffer = note_copy n.message_buffer k connection } in
    let count = received noted.message_buffer k in
    let (after, sent) =
      if nat_beq count (quorum n.group_size) then deliver_all noted request else (noted, []) in
    (
      (if nat_beq count n.group_size
          then record after { message_buffer = erase after.message_buffer k }
          else after),
      sent,
    )

-- The body is empty.
unfoldable pub on_publish_response_receive : Nuzzle → ResponsePublish → Nuzzle
on_publish_response_receive n response = n

-- What the local `req` of a round of the loop holds before it is assigned to.
abbrev pub Locals : Type 0
Locals = ℕ → RequestUpdateSubscription

abbrev pub tell_engines : Locals → Nuzzle → ℕ → ℕ → List Sent
tell_engines l n topic action =
    map
      (λ engine.
        update_subscription engine (record (l engine) { topic_id = topic; action = action }))
      n.engine_connections

unfoldable pub make_topic : Map ℕ (List ℕ) → ℕ → Map ℕ (List ℕ)
make_topic topics topic = elim (get_or topics topic []) [
  | [] ↦ put topics topic []
  | _ ∷ _ ↦ topics
]

unfoldable pub subscribe : Nuzzle → ℕ → ℕ → Nuzzle
unfolding make_topic
subscribe n connection topic =
    let made = make_topic n.subscriptions topic in
    record n { subscriptions = put made topic (push_back (get_or made topic []) connection) }

unfoldable pub unsubscribe : Nuzzle → ℕ → ℕ → Option Nuzzle
unsubscribe n connection topic = elim (erase_found connection (get_or n.subscriptions topic [])) [
  | none ↦ none
  | some left ↦ some (record n { subscriptions = put n.subscriptions topic left })
]

-- `none` is undefined behaviour: `erase` of what `find` did not find.
unfoldable pub on_update_subscription_receive :
    Locals → Nuzzle → ℕ → RequestUpdateSubscription → Option (Nuzzle × List Sent)
unfolding subscribe unsubscribe
on_update_subscription_receive l n connection request =
    let topic = request.topic_id in
    if nat_beq request.action 1
    then some (subscribe n connection topic, tell_engines l n topic 1)
    else elim (unsubscribe n connection topic) [
      | none ↦ none
      | some n' ↦ some (n', tell_engines l n topic 0)
    ]
