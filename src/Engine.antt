-- ===== src/Engine.antt =====
-- src/firehose/engine.cpp and class Engine of src/firehose/api/engine_api.h: an engine stores each
-- prepared message and forwards it to the nuzzles that subscribe to its topic. A connection is a
-- number, its address. A handler returns the new engine with the messages that it sends, in order.
-- `add_nvm_latency` only sleeps, and is left out.
pub mod Entries
pub mod Subscribe
pub mod Prepare
pub mod History
pub mod Durable
pub mod Stale
pub mod Messages
pub mod Sends
use firehose.Base.{
  ℕ, Bool, List, [], ◌∷◌, ◌++◌, map, Option, none, some, if◌then◌else◌, nat_beq, Key, push_back,
  erase_found, Map, empty, get, put, get_or, nat_eq, key_eq,
}
use firehose.Api.{
  firehose_success, RequestPublish, RequestPrepare, ResponsePrepare, RequestAccept,
  RequestUpdateSubscription,
}

pub record Engine : Type 0 where
  pub node_id : ℕ
  pub group_size : ℕ
  pub subscriptions : Map ℕ (List ℕ)
  pub client_subscriptions : Map ℕ (Map ℕ (List ℕ))
  pub message_buffer : Map Key RequestPrepare

-- Engine::Engine
abbrev pub init : ℕ → ℕ → Engine
init node_id group_size = record {
  node_id = node_id;
  group_size = group_size;
  subscriptions = empty;
  client_subscriptions = empty;
  message_buffer = empty;
}

-- A message that a handler hands to a connection.
pub data Sent : Type 0 where
  prepare_ack : ℕ → ResponsePrepare → Sent
  publish : ℕ → RequestPublish → Sent

-- What the local variables `response` and `req` hold before they are assigned to.
pub record Locals : Type 0 where
  pub response : ResponsePrepare
  pub req : RequestPublish

abbrev pub response_of : Locals → RequestPrepare → ResponsePrepare
response_of l request = record l.response {
  header = record l.response.header { status = firehose_success };
  global_id = request.global_id;
  topic_id = request.topic_id;
}

abbrev pub forward_of : Locals → RequestPrepare → RequestPublish
forward_of l request = record l.req {
  topic_id = request.topic_id;
  global_id = request.global_id;
  timestamp = request.timestamp;
  message = request.message;
}

-- `subscriptions[topic_id]` in the loop adds an empty entry for a topic that has none.
unfoldable pub on_prepare_receive : Locals → Engine → ℕ → RequestPrepare → Engine × List Sent
on_prepare_receive l e connection request =
    let nuzzles = get_or e.subscriptions request.topic_id [] in
    (
      record e {
        message_buffer = put e.message_buffer (request.topic_id, request.global_id) request;
        subscriptions = put e.subscriptions request.topic_id nuzzles;
      },
      prepare_ack connection (response_of l request)
          ∷ map (λ nuzzle. publish nuzzle (forward_of l request)) nuzzles,
    )

-- The body is empty.
unfoldable pub on_accept_receive : Engine → ℕ → RequestAccept → Engine
on_accept_receive e connection request = e

-- The first subscription to a topic makes its entries.
unfoldable pub make_entries : Engine → ℕ → ℕ → Engine
make_entries e connection topic = elim (get e.subscriptions topic) [
  | some _ ↦ e
  | none ↦ record e {
    subscriptions = put e.subscriptions topic [];
    client_subscriptions = put e.client_subscriptions topic (put empty connection []);
  }
]

-- client_subscriptions[topic][connection]
unfoldable pub clients : Engine → ℕ → ℕ → List ℕ
clients e topic connection = get_or (get_or e.client_subscriptions topic empty) connection []

unfoldable pub set_clients : Engine → ℕ → ℕ → List ℕ → Engine
set_clients e topic connection now = record e {
  client_subscriptions =
      put e.client_subscriptions topic
        (put (get_or e.client_subscriptions topic empty) connection now);
}

unfoldable pub add_subscription : Engine → ℕ → ℕ → ℕ → Engine
unfolding set_clients clients
add_subscription e connection topic client =
    set_clients
      (record e {
        subscriptions =
            put e.subscriptions topic (push_back (get_or e.subscriptions topic []) connection);
      })
      topic connection (push_back (clients e topic connection) client)

unfoldable pub subscribe : Engine → ℕ → ℕ → ℕ → Engine
unfolding make_entries add_subscription
subscribe e connection topic client =
    add_subscription (make_entries e connection topic) connection topic client

-- With no client left on the connection, one entry of it leaves the topic.
unfoldable pub leave_topic : Engine → ℕ → ℕ → List ℕ → Option Engine
leave_topic e connection topic (client ∷ rest) = some e
leave_topic e connection topic [] =
    elim (erase_found connection (get_or e.subscriptions topic [])) [
      | none ↦ none
      | some left ↦ some (record e { subscriptions = put e.subscriptions topic left })
    ]

unfoldable pub unsubscribe : Engine → ℕ → ℕ → ℕ → Option Engine
unfolding leave_topic set_clients clients
unsubscribe e connection topic client = elim (erase_found client (clients e topic connection)) [
  | none ↦ none
  | some left ↦ leave_topic (set_clients e topic connection left) connection topic left
]

-- `none` is undefined behaviour: `erase` of what `find` did not find.
unfoldable pub on_update_subscription_receive :
    Engine → ℕ → RequestUpdateSubscription → Option Engine
unfolding subscribe unsubscribe
on_update_subscription_receive e connection request =
    if nat_beq request.action 1
    then some (subscribe e connection request.topic_id request.header.sender_id)
    else unsubscribe e connection request.topic_id request.header.sender_id
