-- ===== src/Publisher.antt =====
-- src/firehose/publisher.cpp and class Publisher of src/firehose/api/publisher_api.h: a publisher
-- hands its messages to its pumps in turn. `pump_index` is an int32, and is kept below the number of
-- pumps, which is taken to be below 2^31.
pub mod Messages
pub mod Sends
pub mod Rotation
use firehose.Base.{ℕ, ◌+◌, ◌%◌, List, [], ◌∷◌, Option, none, some, push_back, get_elem?, length}
use firehose.Api.{RequestPublish, ResponsePublish}

pub record Publisher : Type 0 where
  pub node_id : ℕ
  pub pump_connections : List ℕ
  pub pump_index : ℕ

-- Publisher::Publisher
abbrev pub init : ℕ → Publisher
init node_id = record { node_id = node_id; pump_connections = []; pump_index = 0 }

-- The connection to a pump, once it is established.
unfoldable pub connect_to_pump : Publisher → ℕ → Publisher
connect_to_pump p pump = record p { pump_connections = push_back p.pump_connections pump }

pub data Sent : Type 0 where
  publish_to : ℕ → RequestPublish → Sent

-- `now` is util::now(). `none` is undefined behaviour: the index is outside the vector of pumps.
unfoldable pub publish : ℕ → Publisher → RequestPublish → Option (Publisher × Sent)
publish now p request = elim (get_elem? p.pump_connections p.pump_index) [
  | none ↦ none
  | some pump ↦ some (
    record p { pump_index = (p.pump_index + 1) % length p.pump_connections },
    publish_to pump (record request { timestamp = now }),
  )
]

-- The body is empty.
unfoldable pub on_publish_response_receive : Publisher → ResponsePublish → Publisher
on_publish_response_receive p response = p
