-- ===== src/Tests/CalmTests.antt =====
-- The run of the three engines to its end, without a loss.
use firehose.Base.{
  ◌≤◌, ◌≡◌, ◌↔◌, refl, [], ◌∷◌, some, if◌then◌else◌, leb, arith, count, length, get_elem?, nat_eq,
  key_eq, get, get_or, put, empty, find_in, drop_from, u64_mod,
}
use firehose.Api.{blank_request_prepare}
use firehose.Pump as PumpNode
use firehose.Engine as EngineNode
use firehose.Engine.Entries.{entries}
use firehose.Nuzzle.{quorum}
use firehose.Nuzzle.Receive.{consumers}
use firehose.System.{
  System, after_publish, after_prepare, after_copy, to_pump, to_engine, to_nuzzle, prepares_of,
  copies_of,
}
use firehose.System.Once.{delivered_to}
use firehose.System.Calm.{
  Run, stay, then_published, then_arrived, arrive_prepare, arrive_copy, Arrivals, none_yet,
  one_more, IsSettled,
}
use firehose.System.Calm.Work.{work, messages_run_out}
use firehose.System.Calm.Settled.{subscribed_engines, delivered_exactly}
use firehose.Tests.Data.{publication}
use firehose.Tests.SystemTests.{three, three_distinct, reached₃, s₃, s₄, s₈, to, locals, from}

-- The third message arrives as well.
abbrev s₉ : System
s₉ = after_prepare locals 30 (to 33) (record s₈ { prepares = [] })

run₉ : Run s₃ s₉
unfolding after_publish PumpNode.on_publish_receive prepares_of PumpNode.connect_to_engine
    after_prepare EngineNode.on_prepare_receive copies_of EngineNode.subscribe
    EngineNode.make_entries EngineNode.add_subscription EngineNode.set_clients get_or get put
    find_in drop_from empty to_engine to_nuzzle to_pump after_copy
run₉ =
    then_arrived
      (then_arrived
        (then_arrived
          (then_arrived
            (then_arrived (then_published blank_request_prepare 20 (publication 0) stay)
              (arrive_prepare locals 30 [] (to 31) (to 32 ∷ to 33 ∷ []) refl))
            (arrive_prepare locals 30 [] (to 32) (to 33 ∷ []) refl))
          (arrive_copy (from 31 ∷ []) (from 32) [] refl))
        (arrive_copy [] (from 31) [] refl))
      (arrive_prepare locals 30 [] (to 33) [] refl)

settled₉ : IsSettled s₉
unfolding after_publish PumpNode.on_publish_receive prepares_of PumpNode.connect_to_engine
    after_prepare EngineNode.on_prepare_receive copies_of EngineNode.subscribe
    EngineNode.make_entries EngineNode.add_subscription EngineNode.set_clients get_or get put
    find_in drop_from empty to_engine to_nuzzle to_pump after_copy
settled₉ = record { no_prepare = refl; no_copy = refl }

room₉ : length s₉.published ≤ u64_mod
unfolding after_publish after_prepare after_copy
room₉ = omega arith

at₉ : get_elem? s₉.published 0 ≡ some (publication 0)
unfolding after_publish after_prepare after_copy
at₉ = refl

delivered_exactly_example : delivered_to 41 52 (3, 0) s₉.deliveries ≡ (
    if leb (quorum 3) (length (subscribed_engines s₃ 41 3 three))
    then count 52 (consumers (s₃.nuzzles 41) 3)
    else 0)
delivered_exactly_example =
    delivered_exactly 3 three (omega arith) (omega arith) (omega arith) three_distinct 41 52 0
      (publication 0) reached₃ run₉ room₉ settled₉ (omega arith) at₉

-- It is once: two of the engines list the nuzzle.
two_listing : length (subscribed_engines s₃ 41 3 three) ≡ 2
unfolding after_publish PumpNode.on_publish_receive prepares_of PumpNode.connect_to_engine
    after_prepare EngineNode.on_prepare_receive copies_of EngineNode.subscribe
    EngineNode.make_entries EngineNode.add_subscription EngineNode.set_clients get_or get put
    find_in drop_from empty to_engine to_nuzzle to_pump after_copy subscribed_engines entries count
two_listing = refl

arrivals₉ : Arrivals s₄ 5 s₉
unfolding after_publish PumpNode.on_publish_receive prepares_of PumpNode.connect_to_engine
    after_prepare EngineNode.on_prepare_receive copies_of EngineNode.subscribe
    EngineNode.make_entries EngineNode.add_subscription EngineNode.set_clients get_or get put
    find_in drop_from empty to_engine to_nuzzle to_pump after_copy
arrivals₉ =
    one_more
      (one_more
        (one_more
          (one_more
            (one_more none_yet (arrive_prepare locals 30 [] (to 31) (to 32 ∷ to 33 ∷ []) refl))
            (arrive_prepare locals 30 [] (to 32) (to 33 ∷ []) refl))
          (arrive_copy (from 31 ∷ []) (from 32) [] refl))
        (arrive_copy [] (from 31) [] refl))
      (arrive_prepare locals 30 [] (to 33) [] refl)

messages_run_out_example : (5 ≤ work s₄) × ((5 ≡ work s₄) ↔ IsSettled s₉)
messages_run_out_example = messages_run_out 5 arrivals₉
