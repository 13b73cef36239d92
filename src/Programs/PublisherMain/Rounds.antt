-- ===== src/Programs/PublisherMain/Rounds.antt =====
-- What the publisher program publishes in its rounds.
use firehose.Base.{
  ℕ, zero, suc, ◌+◌, ◌-◌, ◌%◌, ◌<◌, ◌≡◌, refl, sym, ap, ◌∙◌, List, [], ◌∷◌, ◌++◌, map, some, arith,
  leb, add_u64, u64_mod, true, length, get_elem?, append_assoc, append-nil,
}
use native.Mathlib.Nat.{mod-lt}
use firehose.Api.{Bytes, RequestPublish}
use firehose.Publisher.{Publisher, Sent, publish_to, init, connect_to_pump, publish}
use firehose.Publisher.Rotation.{
  publish_all, publish_all-append, get_elem?-some, IsReady, publish_all_rotates, message_of,
  stamped,
}
use firehose.Programs.{Conversions, goes_on, Address, two_parts, address_list}
use firehose.Programs.Addresses.{connections_found}
use firehose.Programs.PublisherMain.{
  State, after, publish_loop, publish_rounds, connect_all, next_request, payload, main,
}

module _ (clock : ℕ → ℕ) (blank : RequestPublish) where
  -- The `count`-th publication.
  abbrev pub publication : ℕ → ℕ → ℕ → RequestPublish
  publication topic count time = record blank {
    topic_id = topic;
    global_id = count % u64_mod;
    timestamp = time;
    message = payload;
  }

  -- The publications of a round on `n` topics, with their times; `count` are before them.
  abbrev pub round_plan : ℕ → ℕ → ℕ → List (ℕ × RequestPublish)
  round_plan zero topic count = []
  round_plan (suc n) topic count =
      (clock count, publication topic (count + 1) (clock count))
      ∷ round_plan n (topic + 1) (count + 1)

  -- The publications of some rounds.
  abbrev pub plan : ℕ → ℕ → ℕ → ℕ → List (ℕ × RequestPublish)
  plan zero n topic count = []
  plan (suc rounds) n topic count = round_plan n topic count ++ plan rounds n topic (count + n)

  -- The variables after `count` publications.
  abbrev pub state : Publisher → ℕ → ℕ → ℕ → State
  state p count topic time = record {
    publisher = p;
    request = publication topic count time;
    calls = count;
  }

  -- One publication of a publisher that is ready, whatever the time of the request was.
  publish-IsReady :
      (p : Publisher) (now topic count : ℕ)
      → IsReady p
      → (p' : Publisher) × (sent : Sent) × ((time : ℕ)
          → publish now p (publication topic count time) ≡ some (p', sent))
        × IsReady p'
  unfolding publish
  publish-IsReady p now topic count v =
      let pumps = p.pump_connections in
      let (pump, at) = get_elem?-some pumps p.pump_index v.inside in
      (
        record p { pump_index = (p.pump_index + 1) % length pumps },
        publish_to pump (publication topic count now),
        λ time. ground arith,
        record { inside = mod-lt (p.pump_index + 1) (omega (arith, v.inside)) },
      )

  next_request-state :
      (p : Publisher) (count topic time i : ℕ)
      → next_request (state p count topic time) i ≡ publication i (count + 1) time
  next_request-state p count topic time i =
      let up : add_u64 (count % u64_mod) 1 ≡ (count + 1) % u64_mod = omega arith in
      ap (λ (n : ℕ). record (publication i (count + 1) time) { global_id = n }) up

  -- One round of the loop that goes on.
  publish_loop-step :
      (fuel : ℕ) (p p' : Publisher) (first : Sent) (topic time i last count : ℕ)
      → leb i last ≡ true
      → publish (clock count) p (publication i (count + 1) time) ≡ some (p', first)
      → publish_loop clock (suc fuel) (state p count topic time) i last
        ≡ after
            (first ∷ [])
            (publish_loop clock fuel (state p' (count + 1) i (clock count)) (add_u64 i 1) last)
  unfolding publish_loop
  publish_loop-step fuel p p' first topic time i last count go e =
      let q = next_request-state p count topic time i in
      let up : add_u64 (count % u64_mod) 1 ≡ (count + 1) % u64_mod = omega arith in
      rw (go, publish_loop, q, e) (rw (up) refl)

  publish_loop_lem :
      (n fuel : ℕ) (p : Publisher) (topic time i last count : ℕ)
      → IsReady p
      → last + 1 < u64_mod
      → n ≡ last + 1 - i
      → n < fuel
      → (p' : Publisher) × (topic' : ℕ) × (time' : ℕ) × (sent : List Sent) × (publish_loop clock
            fuel
            (state p count topic time)
            i
            last
          ≡ goes_on (state p' (count + n) topic' time', sent))
        × (publish_all p (round_plan n i count) ≡ some (p', sent))
        × IsReady p'
  unfolding publish_loop after publish_all publish
  publish_loop_lem n zero p topic time i last count v ends many enough = absurd (omega arith)
  publish_loop_lem zero (suc fuel) p topic time i last count v ends many enough =
      let same : count + 0 ≡ count = omega arith in
      (p, topic, time, [], rw (same) (ground arith), refl, v)
  publish_loop_lem (suc n) (suc fuel) p topic time i last count v ends many enough =
      let now = clock count in
      let (p₁, first, e, v₁) = publish-IsReady p now i (count + 1) v in
      let (p', topic', time', rest, looped, planned, v') =
        publish_loop_lem n fuel p₁ i now (i + 1) last (count + 1) v₁ ends (omega arith)
          (omega arith) in
      let step =
        publish_loop-step fuel p p₁ first topic time i last count (ground arith) (e time) in
      let one : add_u64 i 1 ≡ i + 1 = omega arith in
      let all : count + 1 + n ≡ count + suc n = omega arith in
      (
        p',
        topic',
        time',
        first ∷ rest,
        step ∙ rw (one, looped, all, after) refl,
        rw (e now, planned, publish_all) refl,
        v',
      )

  publish_rounds_lem :
      (rounds n fuel : ℕ) (p : Publisher) (topic time first last count : ℕ)
      → IsReady p
      → last + 1 < u64_mod
      → n ≡ last + 1 - first
      → n < fuel
      → (s : State) × (sent : List Sent) × (publish_rounds clock fuel rounds
            (state p count topic time)
            first
            last
          ≡ goes_on (s, sent))
        × (publish_all p (plan rounds n first count) ≡ some (s.publisher, sent))
  unfolding publish_rounds after
  publish_rounds_lem zero n fuel p topic time first last count v ends many enough =
      (state p count topic time, [], refl, unfold publish_all in refl)
  publish_rounds_lem (suc rounds) n fuel p topic time first last count v ends many enough =
      let (p', topic', time', sent, looped, planned, v') =
        publish_loop_lem n fuel p topic time first last count v ends many enough in
      let (s, more, later, all) =
        publish_rounds_lem rounds n fuel p' topic' time' first last (count + n) v' ends many
          enough in
      (
        s,
        sent ++ more,
        rw (looped, publish_rounds, later, after) refl,
        publish_all-append p p' s.publisher (round_plan n first count) _ sent more planned all,
      )

connect_all-connects :
    (p : Publisher) (ns : List ℕ)
    → ((connect_all p ns).pump_connections ≡ p.pump_connections ++ ns)
      × ((connect_all p ns).pump_index ≡ p.pump_index)
unfolding connect_to_pump
connect_all-connects p [] = (sym (append-nil p.pump_connections), refl)
connect_all-connects p (n ∷ ns) =
    let (all, index) = connect_all-connects (connect_to_pump p n) ns in
    (all ∙ append_assoc p.pump_connections (n ∷ []) ns, index)

module _ (l : Conversions) (connect : Address → ℕ) (clock : ℕ → ℕ) (blank : RequestPublish)
    (fuel rounds : ℕ) (program node_id pumps topics_range publish_rate : Bytes) (more : List Bytes)
    (found : List Address) (first last : Bytes) (read : address_list l pumps ≡ some found)
    (range : two_parts topics_range ≡ some (first, last)) where
  -- If the addresses and the range of topics can be read, and the range does not end at 2^64 - 1, then
  -- on fuel for the numbers of the range and one more round each number of rounds of the outer loop
  -- ends, without undefined behaviour, and publishes what `plan` says: in each round a message of 1024
  -- bytes on each topic of the range, in order, the global ids counting all messages from 1 on; and
  -- message `i`, counted from 0, goes to the pump that stands `i` places after the first, around the end of the list.
  pub main_publishes :
      l.atoll last + 1 < u64_mod
      → l.atoll last + 1 - l.atoll first < fuel
      → (s : State) × (sent : List Sent) × (main l connect clock blank fuel rounds
            (program ∷ node_id ∷ pumps ∷ topics_range ∷ publish_rate ∷ more)
          ≡ goes_on (s, sent))
        × (map message_of sent
            ≡ map stamped
                (plan clock blank rounds (l.atoll last + 1 - l.atoll first) (l.atoll first) 0))
        × ((i pump : ℕ) (r : RequestPublish)
            → get_elem? sent i ≡ some (publish_to pump r)
            → get_elem? (map connect found) (i % length (map connect found)) ≡ some pump)
  unfolding main
  main_publishes ends enough =
      let p = connect_all (init (l.atol node_id)) (map connect found) in
      let (same, index) = connect_all-connects (init (l.atol node_id)) (map connect found) in
      let inside : p.pump_index < length p.pump_connections =
        rw (same, index) (omega (arith, connections_found l connect pumps found read)) in
      let v : IsReady p = record { inside = inside } in
      let (s, sent, goes, planned) =
        publish_rounds_lem clock blank rounds (l.atoll last + 1 - l.atoll first) fuel p 0
          blank.timestamp (l.atoll first) (l.atoll last) 0 v ends refl enough in
      let (p', sent', all, v', kept, messages, turns) =
        publish_all_rotates p
          (plan clock blank rounds (l.atoll last + 1 - l.atoll first) (l.atoll first) 0) v in
      let is : sent' ≡ sent = ground arith in
      (
        s,
        sent,
        rw (read, main, range) goes,
        sym (ap (λ (xs : List Sent). map message_of xs) is) ∙ messages,
        λ i pump r h.
            let turn = turns i pump r (ap (λ (xs : List Sent). get_elem? xs i) is ∙ h) in
            let shift : i ≡ 0 + i = omega arith in
            ap (λ (k : ℕ). get_elem? (map connect found) (k % length (map connect found))) shift
            ∙ rw (same, index) at turn,
      )
