-- ===== src/Tests/NuzzleTests.antt =====
-- A nuzzle of a group of three engines, with one consumer, on connection 50.
use firehose.Base.{
  ℕ, ◌*◌, ◌≡◌, refl, List, [], ◌∷◌, arith, count, empty, get, put, get_or, find_in, nat_eq, key_eq,
}
use firehose.Api.{RequestPublish}
use firehose.Nuzzle.{Nuzzle, Locals, init}
use firehose.Nuzzle.Receive.{pending, consumers, IsBounded}
use firehose.Nuzzle.Delivery.{receive_all, copies, delivered, quorums, delivered-receive_all}
use firehose.Tests.Data.{publication, subscription}

abbrev nuzzle : Nuzzle
nuzzle = record (init 1 3) {
  subscriptions = put empty 3 (50 ∷ []);
  engine_connections = 41 ∷ 42 ∷ 43 ∷ [];
}

nuzzle-IsBounded : IsBounded nuzzle
unfolding pending get_or get find_in empty
nuzzle-IsBounded = record {
  some_engine = omega arith;
  in_range = omega arith;
  below = λ k. omega arith;
}

none_yet : pending nuzzle (3, 5) ≡ 0
unfolding pending get_or get find_in empty
none_yet = refl

-- Copies of two messages, from the three engines.
abbrev arrivals : List (ℕ × RequestPublish)
arrivals =
    (41, publication 5) ∷ (41, publication 6) ∷ (42, publication 5) ∷ (43, publication 5) ∷ []

delivered-receive_all_example :
    delivered 50 (3, 5) (receive_all nuzzle arrivals).1
    ≡ quorums 3 (copies (3, 5) arrivals) * count 50 (consumers nuzzle 3)
delivered-receive_all_example =
    delivered-receive_all nuzzle arrivals 50 (3, 5) nuzzle-IsBounded none_yet

abbrev locals : Locals
locals engine = subscription 7
