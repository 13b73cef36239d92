-- ===== src/Tests/SystemTests.antt =====
-- Three engines, a nuzzle and a consumer: one publication reaches the consumer.
use firehose.Base.{
  ℕ, if◌then◌else◌, nat_beq, count-nil, count-cons, ◌≤◌, ◌≡◌, refl, List, [], ◌∷◌, some, arith,
  count, length, get_elem?, nat_eq, key_eq, update, get, get_or, put, empty, find_in, drop_from,
  u64_mod,
}
use firehose.Api.{
  RequestPrepare, blank_request_prepare, blank_request_update_subscription, blank_response_prepare,
  blank_request_publish,
}
use firehose.Pump as PumpNode
use firehose.Engine as EngineNode
use firehose.Engine.{Engine}
use firehose.Engine.Entries.{entries-subscribe}
use firehose.Nuzzle as NuzzleNode
use firehose.Nuzzle.Receive.{pending, consumers, IsBounded, consumers-on_publish_receive}
use firehose.Nuzzle.Subscribe.{consumers-subscribe}
use firehose.System.Once.{IsListed, AllListed, delivered_to}
use firehose.System.Once.Bound.{delivered_at_most}
use firehose.Nuzzle.{Nuzzle, key_of}
use firehose.System.{
  System, Prepare, Copy, Delivery, IsSingle, init, after_publish, after_prepare, after_copy,
  to_pump, to_engine, to_nuzzle, to_consumer, prepares_of, copies_of, deliveries_of, Reach, start,
  later, update_engine, update_nuzzle, publish, prepare, copy,
}
use firehose.System.Invariant.{IsPublished, IsDurable}
use firehose.System.Invariant.Reached.{entries-init}
use firehose.System.Safety.{delivered-IsPublished, delivered-IsDurable}
use firehose.Tests.Data.{publication, subscription}

abbrev pub three : List ℕ
three = 31 ∷ 32 ∷ 33 ∷ []

abbrev s₀ : System
s₀ = init 3 three

pub three_distinct : (e : ℕ) → count e three ≤ 1
unfolding count
three_distinct e = ground arith

-- Nuzzle 41 subscribes at two of the engines, and consumers 51 and 52 at the nuzzle.
abbrev subscribed : ℕ → Engine
subscribed e = EngineNode.subscribe (EngineNode.init e 3) 41 3 21

subscribed-IsSingle : (e : ℕ) → IsSingle (subscribed e)
subscribed-IsSingle e t n =
    ground (arith, entries-subscribe (EngineNode.init e 3) 41 3 21 t n, entries-init e 3 t n)

abbrev s₁ : System
s₁ = record s₀ { engines = update s₀.engines 31 (subscribed 31) }

abbrev s₂ : System
s₂ = record s₁ { engines = update s₁.engines 32 (subscribed 32) }

abbrev pub s₃ : System
s₃ = record s₂ {
  nuzzles =
      update (update s₂.nuzzles 41 (NuzzleNode.subscribe (NuzzleNode.init 41 3) 51 3)) 41
        (NuzzleNode.subscribe (NuzzleNode.subscribe (NuzzleNode.init 41 3) 51 3) 52 3);
}

abbrev pub s₄ : System
s₄ = after_publish blank_request_prepare 20 (publication 0) s₃

abbrev pub message : RequestPrepare
message = to_engine (PumpNode.prepare_of blank_request_prepare 0 (to_pump (publication 0)))

abbrev pub to : ℕ → Prepare
to e = record { engine = e; message = message }

abbrev pub locals : EngineNode.Locals
locals = record { response = blank_response_prepare; req = blank_request_publish }

abbrev pub s₅ : System
s₅ = after_prepare locals 30 (to 31) (record s₄ { prepares = to 32 ∷ to 33 ∷ [] })

abbrev pub s₆ : System
s₆ = after_prepare locals 30 (to 32) (record s₅ { prepares = to 33 ∷ [] })

abbrev pub from : ℕ → Copy
from e = record {
  engine = e;
  nuzzle = 41;
  message = to_nuzzle (EngineNode.forward_of locals message);
}

abbrev pub s₇ : System
s₇ = after_copy (from 32) (record s₆ { copies = from 31 ∷ [] })

abbrev pub s₈ : System
s₈ = after_copy (from 31) (record s₇ { copies = [] })

pub reached₃ : Reach 3 three s₃
unfolding EngineNode.on_update_subscription_receive NuzzleNode.on_update_subscription_receive
reached₃ =
    later
      (later
        (later
          (later start
            (update_engine 31 41 (subscription 1) (subscribed 31) refl (subscribed-IsSingle 31)))
          (update_engine 32 41 (subscription 1) (subscribed 32) refl (subscribed-IsSingle 32)))
        (update_nuzzle (λ e. blank_request_update_subscription) 41 51 (subscription 1) _ _ refl))
      (update_nuzzle (λ e. blank_request_update_subscription) 41 52 (subscription 1) _ _ refl)

reached₄ : Reach 3 three s₄
reached₄ = later reached₃ (publish blank_request_prepare 20 (publication 0))

reached₅ : Reach 3 three s₅
unfolding after_publish PumpNode.on_publish_receive prepares_of PumpNode.connect_to_engine
reached₅ = later reached₄ (prepare locals 30 [] (to 31) (to 32 ∷ to 33 ∷ []) refl)

reached₆ : Reach 3 three s₆
unfolding after_publish PumpNode.on_publish_receive prepares_of PumpNode.connect_to_engine
    after_prepare EngineNode.on_prepare_receive copies_of EngineNode.subscribe
    EngineNode.make_entries EngineNode.add_subscription EngineNode.set_clients get_or get put
    find_in drop_from empty to_engine to_nuzzle to_pump
reached₆ = later reached₅ (prepare locals 30 [] (to 32) (to 33 ∷ []) refl)

-- The copies arrive in the other order, and the third message is still on its way.
reached₇ : Reach 3 three s₇
unfolding after_publish PumpNode.on_publish_receive prepares_of PumpNode.connect_to_engine
    after_prepare EngineNode.on_prepare_receive copies_of EngineNode.subscribe
    EngineNode.make_entries EngineNode.add_subscription EngineNode.set_clients get_or get put
    find_in drop_from empty to_engine to_nuzzle to_pump
reached₇ = later reached₆ (copy (from 31 ∷ []) (from 32) [] refl)

reached₈ : Reach 3 three s₈
unfolding after_publish PumpNode.on_publish_receive prepares_of PumpNode.connect_to_engine
    after_prepare EngineNode.on_prepare_receive copies_of EngineNode.subscribe
    EngineNode.make_entries EngineNode.add_subscription EngineNode.set_clients get_or get put
    find_in drop_from empty to_engine to_nuzzle to_pump after_copy
reached₈ = later reached₇ (copy [] (from 31) [] refl)

delivery : ℕ → Delivery
delivery c = record { nuzzle = 41; consumer = c; message = to_consumer (from 31).message }

delivered₀ : get_elem? s₈.deliveries 0 ≡ some (delivery 51)
unfolding delivery after_publish PumpNode.on_publish_receive prepares_of PumpNode.connect_to_engine
    after_prepare EngineNode.on_prepare_receive copies_of EngineNode.subscribe
    EngineNode.make_entries EngineNode.add_subscription EngineNode.set_clients get_or get put
    find_in drop_from empty to_engine to_nuzzle to_pump after_copy NuzzleNode.on_publish_receive
    NuzzleNode.deliver_all deliveries_of to_consumer NuzzleNode.subscribe NuzzleNode.make_topic
    NuzzleNode.note_copy NuzzleNode.make_key NuzzleNode.received
delivered₀ = refl

delivered₁ : get_elem? s₈.deliveries 1 ≡ some (delivery 52)
unfolding delivery after_publish PumpNode.on_publish_receive prepares_of PumpNode.connect_to_engine
    after_prepare EngineNode.on_prepare_receive copies_of EngineNode.subscribe
    EngineNode.make_entries EngineNode.add_subscription EngineNode.set_clients get_or get put
    find_in drop_from empty to_engine to_nuzzle to_pump after_copy NuzzleNode.on_publish_receive
    NuzzleNode.deliver_all deliveries_of to_consumer NuzzleNode.subscribe NuzzleNode.make_topic
    NuzzleNode.note_copy NuzzleNode.make_key NuzzleNode.received
delivered₁ = refl

one_published : length s₈.published ≤ u64_mod
unfolding after_publish PumpNode.on_publish_receive prepares_of PumpNode.connect_to_engine
    after_prepare EngineNode.on_prepare_receive copies_of EngineNode.subscribe
    EngineNode.make_entries EngineNode.add_subscription EngineNode.set_clients get_or get put
    find_in drop_from empty to_engine to_nuzzle to_pump after_copy
one_published = omega arith

delivered-IsPublished_example : IsPublished s₈.published (delivery 52).message
delivered-IsPublished_example =
    delivered-IsPublished 3 three s₈ three_distinct reached₈ one_published 1 (delivery 52)
      delivered₁

delivered-IsDurable_example : IsDurable 3 s₈.engines (delivery 52).message
delivered-IsDurable_example =
    delivered-IsDurable 3 three s₈ three_distinct reached₈ one_published 1 (delivery 52) delivered₁

-- Each consumer is listed once, in all of these states.
listed_nowhere : (n c t : ℕ) → count c (consumers (NuzzleNode.init n 3) t) ≤ 1
unfolding get_or get empty find_in
listed_nowhere n c t = omega (arith, count-nil c)

abbrev with_one : Nuzzle
with_one = NuzzleNode.subscribe (NuzzleNode.init 41 3) 51 3

abbrev with_both : Nuzzle
with_both = NuzzleNode.subscribe with_one 52 3

no_consumers : (t : ℕ) → consumers (NuzzleNode.init 41 3) t ≡ []
unfolding get_or get empty find_in
no_consumers t = refl

one_consumer : (t : ℕ) → consumers with_one t ≡ (if nat_beq 3 t then 51 ∷ [] else [])
one_consumer t =
    ground
      (arith, consumers-subscribe (NuzzleNode.init 41 3) 51 3 t, no_consumers t, no_consumers 3)

both_consumers : (t : ℕ) → consumers with_both t ≡ (if nat_beq 3 t then 51 ∷ 52 ∷ [] else [])
both_consumers t =
    ground (arith, consumers-subscribe with_one 52 3 t, one_consumer t, one_consumer 3)

one-IsListed : (c t : ℕ) → count c (consumers with_one t) ≤ 1
one-IsListed c t = rw (one_consumer t) (ground (arith, count-nil c, count-cons c 51 []))

both-IsListed : (c t : ℕ) → count c (consumers with_both t) ≤ 1
both-IsListed c t =
    rw (both_consumers t)
      (ground (arith, count-nil c, count-cons c 51 (52 ∷ []), count-cons c 52 []))

with_both-IsBounded : IsBounded with_both
unfolding NuzzleNode.subscribe pending get_or get empty find_in
with_both-IsBounded = record {
  some_engine = omega arith;
  in_range = omega arith;
  below = λ k. omega arith;
}

received-IsListed :
    (c t : ℕ)
    → count c (consumers (NuzzleNode.on_publish_receive with_both 32 (from 32).message).0 t) ≤ 1
received-IsListed c t =
    rw (consumers-on_publish_receive with_both 32 (from 32).message with_both-IsBounded t)
      (both-IsListed c t)

-- The states before, between and after the subscriptions, and after the first copy.
IsListed-before : IsListed 1 s₂
IsListed-before n c t = listed_nowhere n c t

abbrev s_between : System
s_between = record s₂ { nuzzles = update s₂.nuzzles 41 with_one }

IsListed-between : IsListed 1 s_between
IsListed-between n c t = ground (arith, one-IsListed c t, listed_nowhere n c t)

IsListed-after : IsListed 1 s₃
IsListed-after n c t = ground (arith, both-IsListed c t, one-IsListed c t, listed_nowhere n c t)

IsListed-later : IsListed 1 s₇
unfolding after_copy after_prepare after_publish PumpNode.on_publish_receive
    EngineNode.on_prepare_receive
IsListed-later n c t =
    ground (arith, received-IsListed c t, both-IsListed c t, one-IsListed c t, listed_nowhere n c t)

all_listed : AllListed 1 3 three reached₈
unfolding reached₈ reached₇ reached₆ reached₅ reached₄ reached₃ after_prepare after_publish
    PumpNode.on_publish_receive EngineNode.on_prepare_receive
all_listed = (
  (
    (
      (
        (
          ((((tt, IsListed-before), IsListed-before), IsListed-before), IsListed-between),
          IsListed-after,
        ),
        IsListed-after,
      ),
      IsListed-after,
    ),
    IsListed-after,
  ),
  IsListed-later,
)

delivered_at_most_example : delivered_to 41 52 (3, 0) s₈.deliveries ≤ 1
delivered_at_most_example =
    delivered_at_most 3 three (omega arith) (omega arith) (omega arith) 1 s₈ 41 52 (3, 0)
      three_distinct reached₈ all_listed one_published
