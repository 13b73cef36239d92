-- ===== src/Tests/ServerTests.antt =====
-- A server that accepts a connection and is shut down, and one that accepts before it is made.
use firehose.Base.{◌≡◌, refl, [], ◌∷◌, none, some, Option, ℕ, true, false, All}
use firehose.Servers.{
  engine_nuzzle, pump_publisher, nuzzle_consumer, alive, io_service, network_thread, owner, Server,
  before, members, listens, initialise, run_begin, start_accept, handle_accept, shutdown, joined,
  constructs, begins, accepts, stops, Reach, here, later,
}
use firehose.Servers.Owner.{connections_owned}
use firehose.Servers.Unowned.{connection_unowned, publishers_unowned}
use firehose.Servers.Lifetime.{serving_accepts, shutdown_joins}

-- The server of engine 7 for the nuzzles.
abbrev made : Server
made =
    initialise 7 network_thread
      (record (initialise 7 io_service
        (record (initialise 7 alive
          (record (initialise 7 owner
            (record (before engine_nuzzle) { left = alive ∷ io_service ∷ network_thread ∷ [] })) {
              left = io_service ∷ network_thread ∷ [];
            })) { left = network_thread ∷ [] })) { left = [] })

abbrev listening : Server
listening = run_begin engine_nuzzle false made

abbrev accepted : Server
accepted = handle_accept engine_nuzzle false (some 7) listening

abbrev closing : Server
closing = shutdown engine_nuzzle accepted

made_reached : Reach engine_nuzzle 7 (before engine_nuzzle) made
unfolding members initialise
made_reached =
    later
      (later
        (later (later here refl (constructs owner (alive ∷ io_service ∷ network_thread ∷ []) refl))
          refl (constructs alive (io_service ∷ network_thread ∷ []) refl))
        refl (constructs io_service (network_thread ∷ []) refl))
      refl (constructs network_thread [] refl)

closing_reached : Reach engine_nuzzle 7 (before engine_nuzzle) closing
unfolding members initialise run_begin start_accept handle_accept listens
closing_reached =
    later
      (later (later made_reached refl (begins false refl)) refl (accepts false (some 7) refl refl))
      refl (stops refl)

connections_owned_example : All (λ (o : Option ℕ). o ≡ some 7) closing.connections
unfolding members listens
connections_owned_example = connections_owned engine_nuzzle 7 refl closing_reached

serving_accepts_example : (o : Option ℕ) × (closing.waiting ≡ some o)
unfolding listens run_begin start_accept handle_accept shutdown initialise
serving_accepts_example = serving_accepts engine_nuzzle 7 refl closing_reached refl refl

shutdown_joins_example :
    (t : Server) × Reach engine_nuzzle 7 closing t
    × (joined engine_nuzzle t ≡ true)
    × (t.exited ≡ none)
unfolding listens run_begin start_accept handle_accept shutdown initialise
shutdown_joins_example = shutdown_joins engine_nuzzle 7 closing_reached refl refl

connection_unowned_example :
    (s : Server) × Reach nuzzle_consumer 9 (before nuzzle_consumer) s
    × (s.connections ≡ none ∷ [])
    × (s.exited ≡ none)
unfolding members listens
connection_unowned_example = connection_unowned nuzzle_consumer 9 refl

-- The server of pump 3 for the publishers, complete, after one connection.
abbrev pump_made : Server
pump_made =
    initialise 3 network_thread
      (record (initialise 3 io_service
        (record (initialise 3 alive
          (record (before pump_publisher) { left = io_service ∷ network_thread ∷ [] })) {
            left = network_thread ∷ [];
          })) { left = [] })

abbrev pump_accepted : Server
pump_accepted = handle_accept pump_publisher false none (run_begin pump_publisher false pump_made)

pump_reached : Reach pump_publisher 3 (before pump_publisher) pump_accepted
unfolding members initialise run_begin start_accept handle_accept listens
pump_reached =
    later
      (later
        (later
          (later (later here refl (constructs alive (io_service ∷ network_thread ∷ []) refl)) refl
            (constructs io_service (network_thread ∷ []) refl))
          refl (constructs network_thread [] refl))
        refl (begins false refl))
      refl (accepts false none refl refl)

publishers_unowned_example :
    All (λ (o : Option ℕ). o ≡ none) pump_accepted.connections
    × (pump_accepted.noted ≡ pump_accepted.connections)
publishers_unowned_example = publishers_unowned 3 pump_reached
