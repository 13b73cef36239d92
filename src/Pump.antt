-- ===== src/Pump.antt =====
-- src/firehose/pump.cpp and class Pump of src/firehose/api/pump_api.h: a pump gives each published
-- message a global id and sends it to all engines to be prepared. The maps `topic_request_id_seed`,
-- `topic_ballot` and `request_state` and the queue `prepare_queue` are never used, and are left out.
pub mod Publish
pub mod Printer
pub mod Messages
pub mod Sends
use firehose.Base.{ℕ, ◌+◌, List, [], ◌∷◌, ◌++◌, map, push_back, add_u64}
use firehose.Api.{RequestPublish, RequestPrepare, ResponsePrepare}

pub record Pump : Type 0 where
  pub node_id : ℕ
  pub group_size : ℕ
  pub global_request_id_seed : ℕ
  pub publisher_connections : List ℕ
  pub engine_connections : List ℕ

-- Pump::Pump
abbrev pub init : ℕ → ℕ → Pump
init node_id group_size = record {
  node_id = node_id;
  group_size = group_size;
  global_request_id_seed = 0;
  publisher_connections = [];
  engine_connections = [];
}

-- The connection to an engine, once it is established.
unfoldable pub connect_to_engine : Pump → ℕ → Pump
connect_to_engine p engine = record p { engine_connections = push_back p.engine_connections engine }

pub data Sent : Type 0 where
  prepare : ℕ → RequestPrepare → Sent

-- The argument is what the local variable `req` holds before it is assigned to.
abbrev pub prepare_of : RequestPrepare → ℕ → RequestPublish → RequestPrepare
prepare_of req global_id request = record req {
  global_id = global_id;
  topic_id = request.topic_id;
  timestamp = request.timestamp;
  message = request.message;
}

unfoldable pub on_publish_receive : RequestPrepare → Pump → ℕ → RequestPublish → Pump × List Sent
on_publish_receive req p connection request = (
  record p { global_request_id_seed = add_u64 p.global_request_id_seed 1 },
  map (λ engine. prepare engine (prepare_of req p.global_request_id_seed request))
      p.engine_connections,
)

-- The body is empty.
unfoldable pub on_prepare_ack_receive : Pump → ResponsePrepare → Pump
on_prepare_ack_receive p response = p
