-- ===== src/Programs/ConsumerMain.antt =====
-- `main` of src/consumer.cpp. `connect` gives the connection that the network makes to an address.
use firehose.Base.{
  ℕ, zero, suc, ◌+◌, ◌-◌, ◌≤◌, ◌<◌, ◌≡◌, refl, ap, ◌∙◌, List, [], ◌∷◌, map, none, some, arith,
  if◌then◌else◌, leb, length, add_u64, u64_mod, push_back,
}
use firehose.Api.{Bytes, RequestUpdateSubscription}
use firehose.Consumer.{Consumer, init, connect_to_nuzzle, update_subscribtion}
use firehose.Programs.{
  Conversions, Run, usage, undefined, no_fuel, goes_on, continue_with, Address, two_parts,
  address_list,
}
use firehose.Programs.Addresses.{connections_found}

-- The loop over the nuzzles: each connection replaces the one before.
abbrev pub connect_all : Consumer → List ℕ → Consumer
connect_all c [] = c
connect_all c (n ∷ ns) = connect_all (connect_to_nuzzle c n) ns

-- What goes out on the connection of the consumer.
abbrev pub Update : Type 0
Update = ℕ × RequestUpdateSubscription

abbrev pub next : RequestUpdateSubscription → RequestUpdateSubscription
next request = record request { topic_id = add_u64 request.topic_id 1 }

-- The loop over the topics from `i` on, on fuel.
unfoldable pub subscribe_loop : ℕ → Consumer → ℕ → ℕ → RequestUpdateSubscription → Run (List Update)
unfolding continue_with
subscribe_loop zero c i last request = no_fuel
subscribe_loop (suc fuel) c i last request =
    let rest = subscribe_loop fuel c (add_u64 i 1) last (next request) in
    if leb i last
    then elim (update_subscribtion c request) [
      | none ↦ undefined
      | some sent ↦ continue_with (λ more. sent ∷ more) rest
    ]
    else goes_on []

-- The first request, in the memory that `blank` describes.
abbrev pub first_request : RequestUpdateSubscription → RequestUpdateSubscription
first_request blank = record blank { topic_id = 0; action = 1 }

-- The consumer, when it waits, and what it has sent.
unfoldable pub main :
    Conversions
    → (Address → ℕ)
    → RequestUpdateSubscription
    → ℕ
    → List Bytes
    → Run (Consumer × List Update)
unfolding continue_with subscribe_loop
main l connect blank fuel (_ ∷ node_id ∷ nuzzles ∷ topic_range ∷ _) =
    elim (address_list l nuzzles) [
      | none ↦ undefined
      | some found ↦
          let c = connect_all (init (l.atol node_id)) (map connect found) in
          elim (two_parts topic_range) [
            | none ↦ undefined
            | some (first, last) ↦
                continue_with (λ sent. (c, sent))
                  (subscribe_loop fuel c (l.atoll first) (l.atoll last) (first_request blank))
          ]
    ]
main l connect blank fuel arguments = usage

-- Subscriptions to `n` topics from `topic` on.
abbrev pub subscriptions : RequestUpdateSubscription → ℕ → ℕ → ℕ → List Update
subscriptions blank nuzzle zero topic = []
subscriptions blank nuzzle (suc n) topic =
    (nuzzle, record blank { topic_id = topic; action = 1 })
    ∷ subscriptions blank nuzzle n (topic + 1)

module _ (blank : RequestUpdateSubscription) (c : Consumer) (nuzzle : ℕ)
    (connected : c.nuzzle_connection ≡ some nuzzle) where
  subscribe_loop_lem :
      (n fuel i last topic : ℕ)
      → last + 1 < u64_mod
      → n ≡ last + 1 - i
      → topic + n < u64_mod
      → n < fuel
      → subscribe_loop fuel c i last (record blank { topic_id = topic; action = 1 })
        ≡ goes_on (subscriptions blank nuzzle n topic)
  unfolding subscribe_loop continue_with update_subscribtion
  subscribe_loop_lem n zero i last topic h k few enough = absurd (omega arith)
  subscribe_loop_lem zero (suc fuel) i last topic h k few enough = ground arith
  subscribe_loop_lem (suc n) (suc fuel) i last topic h k few enough =
      let later =
        subscribe_loop_lem n fuel (i + 1) last (topic + 1) h (omega arith) (omega arith)
          (omega arith) in
      let one : add_u64 i 1 ≡ i + 1 = omega arith in
      let up : add_u64 topic 1 ≡ topic + 1 = omega arith in ground arith

  -- A range whose end is the last number of 64 bits, as -1 is, has no end: the loop goes on for ever.
  subscribe_loop_endless :
      (fuel i last : ℕ) (request : RequestUpdateSubscription)
      → last + 1 ≡ u64_mod
      → i < u64_mod
      → subscribe_loop fuel c i last request ≡ no_fuel
  unfolding subscribe_loop continue_with update_subscribtion
  subscribe_loop_endless zero i last request h k = refl
  subscribe_loop_endless (suc fuel) i last request h k =
      let later = subscribe_loop_endless fuel (add_u64 i 1) last (next request) h (omega arith) in
      ground arith

-- The consumer after its connections: it has the last of them.
connect_all-keeps :
    (c : Consumer) (ns : List ℕ) (n : ℕ)
    → ((connect_all c (push_back ns n)).nuzzle_connection ≡ some n)
      × ((connect_all c (push_back ns n)).node_id ≡ c.node_id)
unfolding connect_to_nuzzle
connect_all-keeps c [] n = (refl, refl)
connect_all-keeps c (m ∷ ns) n = connect_all-keeps (connect_to_nuzzle c m) ns n

last_item {ℓ} :
    {A : Type ℓ} (xs : List A) → 1 ≤ length xs → (ys : List A) × (y : A) × (xs ≡ push_back ys y)
last_item [] h = absurd (omega arith)
last_item (x ∷ []) h = ([], x, refl)
last_item (x ∷ y ∷ xs) h =
    let (ys, z, e) = last_item (y ∷ xs) (omega arith) in (x ∷ ys, z, ap (λ (t : List _). x ∷ t) e)

-- The consumer that the program makes of arguments that it can read.
connected :
    (l : Conversions) (connect : Address → ℕ) (node_id : ℕ) (nuzzles : Bytes) (found : List Address)
    → address_list l nuzzles ≡ some found
    → (others : List ℕ) × (nuzzle : ℕ) × (map connect found ≡ push_back others nuzzle)
      × ((connect_all (init node_id) (map connect found)).nuzzle_connection ≡ some nuzzle)
      × ((connect_all (init node_id) (map connect found)).node_id ≡ node_id)
connected l connect node_id nuzzles found read =
    let (others, nuzzle, is) =
      last_item (map connect found) (connections_found l connect nuzzles found read) in
    let (c, id) = connect_all-keeps (init node_id) others nuzzle in
    (
      others,
      nuzzle,
      is,
      ap (λ ns. (connect_all (init node_id) ns).nuzzle_connection) is ∙ c,
      ap (λ ns. (connect_all (init node_id) ns).node_id) is ∙ id,
    )

module _ (l : Conversions) (connect : Address → ℕ) (blank : RequestUpdateSubscription) (fuel : ℕ)
    (program node_id nuzzles topic_range : Bytes) (more : List Bytes) (found : List Address)
    (first last : Bytes) (read : address_list l nuzzles ≡ some found)
    (range : two_parts topic_range ≡ some (first, last)) where
  abbrev arguments : List Bytes
  arguments = program ∷ node_id ∷ nuzzles ∷ topic_range ∷ more

  -- If the addresses and the range of topics can be read, and the range does not end at 2^64 - 1, then
  -- on fuel for the numbers of the range and one more round the consumer is connected to the last of
  -- its nuzzles and has subscribed there to as many topics as the range has, from topic 0 on.
  pub main_subscribes :
      l.atoll last + 1 < u64_mod
      → l.atoll last + 1 - l.atoll first < fuel
      → (others : List ℕ) × (nuzzle : ℕ) × (c : Consumer) × (map connect found
          ≡ push_back others nuzzle)
        × (c.node_id ≡ l.atol node_id)
        × (c.nuzzle_connection ≡ some nuzzle)
        × (main l connect blank fuel arguments
            ≡ goes_on (c, subscriptions blank nuzzle (l.atoll last + 1 - l.atoll first) 0))
  unfolding main continue_with
  main_subscribes ends enough =
      let (others, nuzzle, is, at, id) = connected l connect (l.atol node_id) nuzzles found read in
      let c = connect_all (init (l.atol node_id)) (map connect found) in
      let loop =
        subscribe_loop_lem blank c nuzzle at (l.atoll last + 1 - l.atoll first) fuel (l.atoll first)
          (l.atoll last) 0 ends refl (omega arith) enough in
      (others, nuzzle, c, is, id, at, rw (read, main, range, loop, continue_with) refl)

  -- If the addresses and the range of topics can be read, and the range ends at 2^64 - 1, as for -1,
  -- then no fuel is enough: the loop over the topics goes on for ever.
  pub main_endless :
      l.atoll last + 1 ≡ u64_mod
      → l.atoll first < u64_mod
      → main l connect blank fuel arguments ≡ no_fuel
  unfolding main continue_with
  main_endless ends word =
      let (others, nuzzle, is, at, id) = connected l connect (l.atol node_id) nuzzles found read in
      let c = connect_all (init (l.atol node_id)) (map connect found) in
      let loop =
        subscribe_loop_endless blank c nuzzle at fuel (l.atoll first) (l.atoll last)
          (first_request blank) ends word in
      rw (read, main, range, loop, continue_with) refl
