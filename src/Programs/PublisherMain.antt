-- ===== src/Programs/PublisherMain.antt =====
-- `main` of src/publisher.cpp. `connect` gives the connection that the network makes to an address,
-- and `clock` the time of each publication, by its number. The sleep between two publications, for
-- which the rate is read, is left out. The program never ends; its outer loop is run for some rounds.
pub mod Rounds
use firehose.Base.{
  ℕ, zero, suc, ◌+◌, List, [], ◌∷◌, ◌++◌, map, Option, none, some, true, false, leb, add_u64,
  replicate,
}
use firehose.Api.{Bytes, RequestPublish}
use firehose.Publisher.{Publisher, Sent, init, connect_to_pump, publish}
use firehose.Programs.{
  Conversions, Run, usage, undefined, no_fuel, goes_on, Address, two_parts, address_list,
}

-- The loop over the pumps.
abbrev pub connect_all : Publisher → List ℕ → Publisher
connect_all p [] = p
connect_all p (n ∷ ns) = connect_all (connect_to_pump p n) ns

-- The variables of `main`; `calls` is how often util::now() has been called.
pub record State : Type 0 where
  pub publisher : Publisher
  pub request : RequestPublish
  pub calls : ℕ

unfoldable pub after : List Sent → Run (State × List Sent) → Run (State × List Sent)
after before usage = usage
after before undefined = undefined
after before no_fuel = no_fuel
after before (goes_on (s, sent)) = goes_on (s, before ++ sent)

-- The request is passed by reference, and keeps the time that `publish` puts into it.
abbrev pub next_request : State → ℕ → RequestPublish
next_request s topic = record s.request {
  topic_id = topic;
  global_id = add_u64 s.request.global_id 1;
}

-- The loop over the topics from `i` on, on fuel.
unfoldable pub publish_loop : (ℕ → ℕ) → ℕ → State → ℕ → ℕ → Run (State × List Sent)
unfolding after
publish_loop clock zero s i last = no_fuel
publish_loop clock (suc fuel) s i last = elim (leb i last) [
  | false ↦ goes_on (s, [])
  | true ↦
      let now = clock s.calls in
      let request = next_request s i in
      elim (publish now s.publisher request) [
        | none ↦ undefined
        | some (p, sent) ↦ after (sent ∷ []) (
            publish_loop clock fuel
              (record {
                publisher = p;
                request = record request { timestamp = now };
                calls = s.calls + 1;
              })
              (add_u64 i 1) last)
      ]
]

-- Rounds of `while (true)`.
unfoldable pub publish_rounds : (ℕ → ℕ) → ℕ → ℕ → State → ℕ → ℕ → Run (State × List Sent)
unfolding after publish_loop
publish_rounds clock fuel zero s first last = goes_on (s, [])
publish_rounds clock fuel (suc rounds) s first last = elim (publish_loop clock fuel s first last) [
  | usage ↦ usage
  | undefined ↦ undefined
  | no_fuel ↦ no_fuel
  | goes_on (s', sent) ↦ after sent (publish_rounds clock fuel rounds s' first last)
]

-- 1024 times 'x'
abbrev pub payload : Bytes
payload = replicate 1024 120

-- The first request, in the memory that `blank` describes.
abbrev pub first_request : RequestPublish → RequestPublish
first_request blank = record blank { global_id = 0; topic_id = 0; message = payload }

unfoldable pub main :
    Conversions
    → (Address → ℕ)
    → (ℕ → ℕ)
    → RequestPublish
    → ℕ
    → ℕ
    → List Bytes
    → Run (State × List Sent)
unfolding publish_rounds
main l connect clock blank fuel rounds (_ ∷ node_id ∷ pumps ∷ topics_range ∷ publish_rate ∷ _) =
    elim (address_list l pumps) [
      | none ↦ undefined
      | some found ↦ elim (two_parts topics_range) [
        | none ↦ undefined
        | some (first, last) ↦
            publish_rounds clock fuel rounds
              (record {
                publisher = connect_all (init (l.atol node_id)) (map connect found);
                request = first_request blank;
                calls = 0;
              })
              (l.atoll first) (l.atoll last)
      ]
    ]
main l connect clock blank fuel rounds arguments = usage
