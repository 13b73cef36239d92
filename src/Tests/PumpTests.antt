-- ===== src/Tests/PumpTests.antt =====
-- A pump with two engines, a publisher with two pumps and a consumer.
use firehose.Base.{
  ℕ, ◌+◌, ◌%◌, ◌≡◌, ◌≢◌, refl, List, [], ◌∷◌, some, arith, count, get_elem?, map, push_back, nat_eq,
}
use firehose.Api.{Bytes, RequestPublish, RequestPrepare, blank_request_prepare}
use firehose.Pump.{Pump, prepare_of, on_publish_receive}
use firehose.Pump.Publish.{
  publish_all, prepared_for, numbered, prepared_for-publish_all, ids_differ,
}
use firehose.Publisher as PublisherNode
use firehose.Publisher.Rotation as Rotation
use firehose.Consumer as ConsumerNode
use firehose.Consumer.Log.{value_from, split-on_publish_receive}
use firehose.Util.Split.{split}
use firehose.Tests.Data.{publication}

abbrev pump : Pump
pump = record {
  node_id = 1;
  group_size = 2;
  global_request_id_seed = 100;
  publisher_connections = 20 ∷ [];
  engine_connections = 31 ∷ 32 ∷ [];
}

abbrev published : List (ℕ × RequestPublish)
published = (20, publication 0) ∷ (20, publication 0) ∷ []

connected_once : count 32 pump.engine_connections ≡ 1
unfolding count
connected_once = refl

prepared_for-publish_all_example :
    prepared_for 32 (publish_all blank_request_prepare pump published).1
    ≡ numbered blank_request_prepare 100 published
prepared_for-publish_all_example =
    prepared_for-publish_all blank_request_prepare pump published 32 connected_once

abbrev message_at : ℕ → RequestPrepare
message_at id = prepare_of blank_request_prepare id (publication 0)

message_at_0 :
    get_elem? (prepared_for 32 (publish_all blank_request_prepare pump published).1) 0
    ≡ some (message_at 100)
unfolding prepared_for publish_all on_publish_receive
message_at_0 = refl

message_at_1 :
    get_elem? (prepared_for 32 (publish_all blank_request_prepare pump published).1) 1
    ≡ some (message_at 101)
unfolding prepared_for publish_all on_publish_receive
message_at_1 = refl

ids_differ_example : (message_at 100).global_id ≢ (message_at 101).global_id
ids_differ_example =
    ids_differ blank_request_prepare pump published 32 0 1 (omega arith) connected_once message_at_0
      message_at_1 (omega arith) (omega arith)

abbrev publisher : PublisherNode.Publisher
publisher = record { node_id = 1; pump_connections = 61 ∷ 62 ∷ []; pump_index = 1 }

abbrev requests : List (ℕ × RequestPublish)
requests = (700, publication 0) ∷ (800, publication 0) ∷ []

publish_all_rotates_example :
    (p' : PublisherNode.Publisher) × (sent : List PublisherNode.Sent) × (Rotation.publish_all
        publisher requests
      ≡ some (p', sent))
    × Rotation.IsReady p'
    × (p'.pump_connections ≡ publisher.pump_connections)
    × (map Rotation.message_of sent ≡ map Rotation.stamped requests)
    × ((i pump : ℕ) (r : RequestPublish)
        → get_elem? sent i ≡ some (PublisherNode.publish_to pump r)
        → get_elem? publisher.pump_connections ((1 + i) % 2) ≡ some pump)
publish_all_rotates_example =
    Rotation.publish_all_rotates publisher requests (record { inside = omega arith })

abbrev consumer : ConsumerNode.Consumer
consumer = ConsumerNode.init 1

split-on_publish_receive_example :
    (line : Bytes) × (parts : List Bytes) × ((ConsumerNode.on_publish_receive 900 901 consumer
        (publication 5)).log_buffer
      ≡ push_back [] line)
    × (split line ConsumerNode.comma ≡ some parts)
    × (map (value_from 0) parts ≡ 900 ∷ 3 ∷ 5 ∷ 401 ∷ [])
split-on_publish_receive_example = split-on_publish_receive 900 901 consumer (publication 5)
