-- ===== src/System/Invariant.antt =====
-- What holds in every reachable state of the system.
pub mod Contents
pub mod AtPump
pub mod AtEngine
pub mod AtNuzzle
pub mod Changes
pub mod Reached
use firehose.Base.{
  ℕ, ◌+◌, ◌%◌, ◌≤◌, ◌≡◌, List, [], some, length, get_elem?, count, Key, get, All, u64_mod, nat_eq,
  key_eq,
}
use firehose.Api.{Bytes, RequestPublish, RequestPrepare}
use firehose.Engine.{Engine}
use firehose.Nuzzle.{key_of, quorum}
use firehose.System.{System, Prepare, Copy, Delivery, IsSingle}
use firehose.System.Copies.{prepare_key, prepares_to, copies_on, holds, sources}

-- The request of the given number has this content.
pub record Publishes (rs : List RequestPublish) (number topic timestamp : ℕ) (message : Bytes)
    : Type 0 where
  pub request : RequestPublish
  pub numbered : get_elem? rs number ≡ some request
  pub topic_is : request.topic_id ≡ topic
  pub timestamp_is : request.timestamp ≡ timestamp
  pub message_is : request.message ≡ message

abbrev pub IsPrepared : List RequestPublish → RequestPrepare → Type 0
IsPrepared rs m = Publishes rs m.global_id m.topic_id m.timestamp m.message

abbrev pub IsPublished : List RequestPublish → RequestPublish → Type 0
IsPublished rs m = Publishes rs m.global_id m.topic_id m.timestamp m.message

-- A quorum of different engines, all of which store a message under the key.
pub record IsHeld (group_size : ℕ) (engines : ℕ → Engine) (k : Key) : Type 0 where
  pub storing : List ℕ
  pub enough : quorum group_size ≤ length storing
  pub once : (e : ℕ) → count e storing ≤ 1
  pub stored : (e : ℕ) → count e storing ≤ holds (engines e) k

-- What an engine stores under the key of a message is that message.
abbrev pub Stores : (ℕ → Engine) → RequestPublish → ℕ → Type 0
Stores engines d e =
    (m : RequestPrepare) × (get (engines e).message_buffer (key_of d) ≡ some m)
    × (m.topic_id ≡ d.topic_id)
    × (m.global_id ≡ d.global_id)
    × (m.timestamp ≡ d.timestamp)
    × (m.message ≡ d.message)

-- A quorum of different engines, all of which store the message.
pub record IsDurable (group_size : ℕ) (engines : ℕ → Engine) (d : RequestPublish) : Type 0 where
  pub storing : List ℕ
  pub enough : quorum group_size ≤ length storing
  pub once : (e : ℕ) → count e storing ≤ 1
  pub stored : All (Stores engines d) storing

pub record Inv (group_size : ℕ) (s : System) : Type 0 where
  -- the pump numbers the requests
  pub seed : s.pump.global_request_id_seed ≡ length s.published % u64_mod
  pub linked : (e : ℕ) → count e s.pump.engine_connections ≤ 1
  pub group : (n : ℕ) → (s.nuzzles n).group_size ≡ group_size
  pub single : (e : ℕ) → IsSingle (s.engines e)
  -- whatever is on the way, stored or delivered is the request of its number
  pub prepares_ok : All (λ (m : Prepare). IsPrepared s.published m.message) s.prepares
  pub stored_ok :
      (e : ℕ) (k : Key) (m : RequestPrepare)
      → get (s.engines e).message_buffer k ≡ some m
      → IsPrepared s.published m
  pub keyed :
      (e : ℕ) (k : Key) (m : RequestPrepare)
      → get (s.engines e).message_buffer k ≡ some m
      → prepare_key m ≡ k
  pub copies_ok : All (λ (m : Copy). IsPublished s.published m.message) s.copies
  pub deliveries_ok : All (λ (d : Delivery). IsPublished s.published d.message) s.deliveries
  -- an engine gets a message once, and sends each nuzzle one copy, which the nuzzle notes once
  pub once : (e : ℕ) (k : Key) → prepares_to e k s.prepares + holds (s.engines e) k ≤ 1
  pub fresh :
      (e : ℕ) (k : Key)
      → length s.published ≤ k.1
      → prepares_to e k s.prepares + holds (s.engines e) k ≡ 0
  pub counted :
      (e n : ℕ) (k : Key)
      → copies_on e n k s.copies + count e (sources (s.nuzzles n) k) ≤ holds (s.engines e) k
  pub durable : All (λ (d : Delivery). IsHeld group_size s.engines (key_of d.message)) s.deliveries
