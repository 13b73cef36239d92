-- ===== src/Tests/ProgramTests.antt =====
-- The command lines of the programs. Numbers are read as decimal digits, after a minus sign or not.
use firehose.Base.{
  ℕ, ◌+◌, ◌-◌, ◌*◌, ◌%◌, ◌^◌, ◌≡◌, ◌≢◌, ◌↔◌, ◌≤◌, refl, arith, List, [], ◌∷◌, map, some, length,
  count, get_elem?, All, push_back, nat_eq, nat_beq, if◌then◌else◌,
}
use firehose.Api.{Bytes, blank_request_update_subscription, blank_request_publish, RequestPublish}
use firehose.Util.Split.{split, split_loop, getline}
use firehose.Consumer.{Consumer}
use firehose.Publisher.{Sent, publish_to}
use firehose.Publisher.Rotation.{message_of, stamped}
use firehose.Programs.{
  Conversions, no_fuel, goes_on, Address, comma, colon, two_parts, address, addresses, address_list,
}
use firehose.Programs.Addresses.{address_list_defined}
use firehose.Programs.ConsumerMain as ConsumerMain
use firehose.Programs.ConsumerMain.{main_subscribes, main_endless}
use firehose.Programs.PublisherMain as PublisherMain
use firehose.Programs.PublisherMain.Rounds.{plan, main_publishes}

abbrev decimal : ℕ → Bytes → ℕ
decimal n [] = n
decimal n (c ∷ cs) = decimal (10 * n + (c - 48)) cs

abbrev signed : ℕ → Bytes → ℕ
signed bits [] = 0
signed bits (c ∷ cs) =
    if nat_beq c 45 then (2 ^ bits - decimal 0 cs) % 2 ^ bits else decimal 0 (c ∷ cs) % 2 ^ bits

abbrev conversions : Conversions
conversions = record { atoi = signed 32; atol = signed 64; atoll = signed 64 }

-- "a:1,b:2"
abbrev list : Bytes
list = 97 ∷ 58 ∷ 49 ∷ 44 ∷ 98 ∷ 58 ∷ 50 ∷ []

abbrev found : List Address
found = (97 ∷ [], 1) ∷ (98 ∷ [], 2) ∷ []

abbrev connect : Address → ℕ
connect (host, port) = 100 + port

read : address_list conversions list ≡ some found
unfolding address_list addresses address two_parts split split_loop getline
read = refl

-- "5:7" and "0:-1"
abbrev topics : Bytes
topics = 53 ∷ 58 ∷ 55 ∷ []

abbrev all_topics : Bytes
all_topics = 48 ∷ 58 ∷ 45 ∷ 49 ∷ []

range : two_parts topics ≡ some (53 ∷ [], 55 ∷ [])
unfolding two_parts split split_loop getline
range = refl

whole_range : two_parts all_topics ≡ some (48 ∷ [], 45 ∷ 49 ∷ [])
unfolding two_parts split split_loop getline
whole_range = refl

-- "7"
abbrev seven : Bytes
seven = 55 ∷ []

address_list_defined_example :
    (parts : List Bytes) × (split list comma ≡ some parts)
    × (((found : List Address) × (address_list conversions list ≡ some found))
        ↔ All (λ s. count colon s ≢ 0) parts)
    × ((found : List Address)
        → address_list conversions list ≡ some found
        → (length found ≡ length parts) × (1 ≤ length found))
address_list_defined_example = address_list_defined conversions list

main_subscribes_example :
    (others : List ℕ) × (nuzzle : ℕ) × (c : Consumer) × (map connect found
      ≡ push_back others nuzzle)
    × (c.node_id ≡ 7)
    × (c.nuzzle_connection ≡ some nuzzle)
    × (ConsumerMain.main conversions connect blank_request_update_subscription 4
          ([] ∷ seven ∷ list ∷ topics ∷ [])
        ≡ goes_on (c, ConsumerMain.subscriptions blank_request_update_subscription nuzzle 3 0))
main_subscribes_example =
    main_subscribes conversions connect blank_request_update_subscription 4 [] seven list topics []
      found (53 ∷ []) (55 ∷ []) read range (omega arith) (omega arith)

main_endless_example :
    ConsumerMain.main conversions connect blank_request_update_subscription 1000
      ([] ∷ seven ∷ list ∷ all_topics ∷ [])
    ≡ no_fuel
main_endless_example =
    main_endless conversions connect blank_request_update_subscription 1000 [] seven list all_topics
      [] found (48 ∷ []) (45 ∷ 49 ∷ []) read whole_range refl (omega arith)

abbrev clock : ℕ → ℕ
clock i = 1000 + i

main_publishes_example :
    (s : PublisherMain.State) × (sent : List Sent) × (PublisherMain.main conversions connect clock
        blank_request_publish 4 2
        ([] ∷ seven ∷ list ∷ topics ∷ seven ∷ [])
      ≡ goes_on (s, sent))
    × (map message_of sent ≡ map stamped (plan clock blank_request_publish 2 3 5 0))
    × ((i pump : ℕ) (r : RequestPublish)
        → get_elem? sent i ≡ some (publish_to pump r)
        → get_elem? (map connect found) (i % length (map connect found)) ≡ some pump)
main_publishes_example =
    main_publishes conversions connect clock blank_request_publish 4 2 [] seven list topics seven []
      found (53 ∷ []) (55 ∷ []) read range (omega arith) (omega arith)
