-- ===== src/Consumer.antt =====
-- src/firehose/consumer.cpp and class Consumer of src/firehose/api/consumer_api.h: a consumer logs
-- what it receives, a line of four numbers with commas between them.
pub mod Messages
pub mod Sends
pub mod Log
use firehose.Base.{
  ℕ, zero, suc, ◌+◌, ◌/◌, ◌%◌, List, [], ◌∷◌, ◌++◌, Option, none, some, if◌then◌else◌, ltb,
  push_back, sub_u64,
}
use firehose.Api.{Bytes, RequestPublish, RequestUpdateSubscription}

pub record Consumer : Type 0 where
  pub node_id : ℕ
  pub nuzzle_connection : Option ℕ
  pub log_buffer : List Bytes

-- Consumer::Consumer
abbrev pub init : ℕ → Consumer
init node_id = record { node_id = node_id; nuzzle_connection = none; log_buffer = [] }

-- The decimal digits, on fuel.
unfoldable pub digits : ℕ → ℕ → Bytes
digits zero n = []
digits (suc fuel) n =
    let higher = digits fuel (n / 10) in
    if ltb n 10 then (48 + n) ∷ [] else higher ++ (48 + n % 10) ∷ []

-- std::to_string of an unsigned number: a number has at most as many digits as itself and one.
unfoldable pub to_string : ℕ → Bytes
unfolding digits
to_string n = digits (n + 1) n

abbrev pub comma : ℕ
comma = 44

-- `now` and `later` are the two calls of util::now().
unfoldable pub on_publish_receive : ℕ → ℕ → Consumer → RequestPublish → Consumer
unfolding to_string
on_publish_receive now later c request = record c {
  log_buffer = push_back c.log_buffer (
      to_string now
      ++ comma
        ∷ (to_string request.topic_id
            ++ comma
              ∷ (to_string request.global_id
                  ++ comma ∷ to_string (sub_u64 later request.timestamp))));
}

-- The connection to the nuzzle, once it is established.
unfoldable pub connect_to_nuzzle : Consumer → ℕ → Consumer
connect_to_nuzzle c nuzzle = record c { nuzzle_connection = some nuzzle }

-- The connection that the request is sent on; `none` is a call through a pointer that was not set.
unfoldable pub update_subscribtion :
    Consumer → RequestUpdateSubscription → Option (ℕ × RequestUpdateSubscription)
update_subscribtion c request = elim c.nuzzle_connection [
  | none ↦ none
  | some nuzzle ↦ some (nuzzle, request)
]
