-- ===== src/Tests/EngineTests.antt =====
-- An engine with one nuzzle, on connection 40, and one pump, on connection 30.
use firehose.Base.{
  ◌+◌, ◌≡◌, ◌↔◌, refl, List, [], ◌∷◌, none, some, arith, count, erase_found, empty, get, put,
  get_or, find_in, drop_from, replicate, nat_eq, key_eq,
}
use firehose.Api.{blank_response_prepare, blank_request_publish}
use firehose.Engine.{
  Engine, Locals, Sent, init, clients, unsubscribe, on_prepare_receive,
  on_update_subscription_receive, on_accept_receive, subscribe, make_entries, add_subscription,
  set_clients, leave_topic,
}
use firehose.Engine.Entries.{entries, IsConsistent}
use firehose.Engine.Subscribe.{unsubscribe_defined}
use firehose.Engine.History.{Event, prepare, accept, update, step, run, run-IsConsistent}
use firehose.Engine.Durable.{
  latest, message_buffer-run, acks, answers, AreStored, acknowledged-AreStored,
}
use firehose.Engine.Stale.{updates, stale_entries}
use firehose.Engine.Prepare.{published_to}
use firehose.Nuzzle as NuzzleNode
use firehose.Nuzzle.{Nuzzle}
use firehose.Nuzzle.Receive.{pending, IsBounded}
use firehose.Nuzzle.Delivery.{receive_all, delivered}
use firehose.System.Alone.{arriving, lone_engine_delivers}
use firehose.Tests.Data.{preparation, acceptance, subscription}

abbrev locals : Locals
locals = record { response = blank_response_prepare; req = blank_request_publish }

abbrev fresh : Engine
fresh = init 1 3

abbrev history : List Event
history =
    update 40 (subscription 1)
    ∷ prepare 30 (preparation 5)
    ∷ accept 30 acceptance
    ∷ prepare 30 (preparation 6)
    ∷ update 40 (subscription 0)
    ∷ []

fresh-IsConsistent : IsConsistent fresh
unfolding clients entries get_or get find_in empty count
fresh-IsConsistent = record { matched = λ t c. omega arith }

abbrev final : Engine × List Sent
final = elim (run locals fresh history) [ none ↦ (fresh, []) | some r ↦ r ]

history_runs : run locals fresh history ≡ some final
unfolding run step on_update_subscription_receive on_prepare_receive on_accept_receive subscribe
    make_entries add_subscription set_clients clients unsubscribe leave_topic erase_found get_or get
    put find_in drop_from empty
history_runs = refl

run-IsConsistent_example : IsConsistent final.0
run-IsConsistent_example = run-IsConsistent locals fresh history history_runs fresh-IsConsistent

acknowledged-AreStored_example : (acks final.1 ≡ answers history) × AreStored final.0 history
acknowledged-AreStored_example =
    acknowledged-AreStored locals fresh history (refl, (refl, tt)) history_runs

message_buffer-run_example :
    get final.0.message_buffer (3, 5) ≡ latest (3, 5) history (get fresh.message_buffer (3, 5))
message_buffer-run_example = message_buffer-run locals fresh history (3, 5) history_runs

unsubscribe_defined_example :
    (unsubscribe fresh 40 3 21 ≡ none) ↔ (count 21 (clients fresh 3 40) ≡ 0)
unsubscribe_defined_example = unsubscribe_defined fresh 40 3 21 fresh-IsConsistent

no_clients : clients fresh 3 40 ≡ []
unfolding clients get_or get find_in empty
no_clients = refl

stale_entries_example :
    (e₁ : Engine) × (e₂ : Engine) × (updates fresh 40 (replicate 3 (subscription 1)) ≡ some e₁)
    × (updates e₁ 40 (replicate 3 (subscription 0)) ≡ some e₂)
    × (clients e₂ 3 40 ≡ [])
    × (entries e₂ 3 40 ≡ entries fresh 3 40 + 2)
stale_entries_example =
    stale_entries 40 0 (subscription 1) refl (λ e. omega arith) fresh 2 fresh-IsConsistent
      no_clients

-- Client 21 subscribes five times through nuzzle 40, which has three engines and one consumer.
abbrev nuzzle : Nuzzle
nuzzle = record (NuzzleNode.init 40 3) { subscriptions = put empty 3 (50 ∷ []) }

nuzzle-IsBounded : IsBounded nuzzle
unfolding pending get_or get find_in empty
nuzzle-IsBounded = record {
  some_engine = omega arith;
  in_range = omega arith;
  below = λ k. omega arith;
}

no_copy : pending nuzzle (3, 5) ≡ 0
unfolding pending get_or get find_in empty
no_copy = refl

no_entry : entries fresh 3 40 ≡ 0
unfolding entries get_or get find_in empty count
no_entry = refl

-- Five copies of one engine are counted as two quorums.
lone_engine_delivers_example :
    (e' : Engine) × (updates fresh 40 (replicate 5 (subscription 1)) ≡ some e')
    × (delivered 50
          (3, 5)
          (receive_all nuzzle
            (arriving 31 (published_to 40 (on_prepare_receive locals e' 30 (preparation 5)).1))).1
        ≡ 2)
unfolding get_or get put find_in empty count drop_from
lone_engine_delivers_example =
    lone_engine_delivers 40 (subscription 1) 5 fresh locals 30 (preparation 5) nuzzle 31 50 refl
      fresh-IsConsistent no_clients no_entry refl nuzzle-IsBounded no_copy
