-- ===== src/Servers/Unowned.antt =====
-- The servers whose threads can make connections with a pointer that is not initialised.
use firehose.Base.{
  ℕ, ◌≡◌, refl, ap, List, [], ◌∷◌, none, some, Option, true, false, All, All-append, push_back,
  arith,
}
use firehose.Servers.{
  Member, alive, io_service, network_thread, owner, ServerClass, engine_pump, engine_nuzzle,
  engine_engine, nuzzle_consumer, pump_publisher, nuzzle_engine, pump_engine, consumer_nuzzle,
  publisher_pump, members, listens, Server, before, initialise, fail, start_accept, run_begin,
  handle_accept, run_end, shutdown, Step, constructs, begins, accepts, throws, stops, connects,
  ends, Reach, here, later,
}
use firehose.Servers.Owner.{has_owner, in_time}

members_late :
    (c : ServerClass)
    → in_time c ≡ false
    → (listens c ≡ true)
      × (rest : List Member) × (members c ≡ alive ∷ io_service ∷ network_thread ∷ rest)
unfolding members listens
members_late engine_pump h = (refl, owner ∷ [], refl)
members_late engine_nuzzle h = absurd cc
members_late engine_engine h = (refl, owner ∷ [], refl)
members_late nuzzle_consumer h = (refl, owner ∷ [], refl)
members_late pump_publisher h = (refl, [], refl)
members_late nuzzle_engine h = absurd cc
members_late pump_engine h = absurd cc
members_late consumer_nuzzle h = absurd cc
members_late publisher_pump h = absurd cc

module _ (c : ServerClass) (this : ℕ) where
  -- In each other server, which listens and does not initialise its pointer to the node before it
  -- makes its thread, the threads reach a state in which the process has not ended and the one
  -- connection has a pointer that has not been initialised.
  pub connection_unowned :
      in_time c ≡ false
      → (s : Server) × Reach c this (before c) s × (s.connections ≡ none ∷ []) × (s.exited ≡ none)
  unfolding run_begin start_accept handle_accept initialise
  connection_unowned h =
      let (l, rest, is) = members_late c h in
      let s₁ =
        initialise this alive (record (before c) { left = io_service ∷ network_thread ∷ rest }) in
      let s₂ = initialise this io_service (record s₁ { left = network_thread ∷ rest }) in
      let s₃ = initialise this network_thread (record s₂ { left = rest }) in
      let s₄ = run_begin c false s₃ in
      let reached : Reach c this (before c) s₄ =
        later
          (later
            (later (later here refl (constructs alive (io_service ∷ network_thread ∷ rest) is)) refl
              (constructs io_service (network_thread ∷ rest) refl))
            refl (constructs network_thread rest refl))
          refl (begins false refl) in
      (
        handle_accept c false none (record s₄ { waiting = none }),
        later reached (ground (arith, l))
            (accepts false none (ground (arith, l)) (ground (arith, l))),
        ground (arith, l),
        ground (arith, l),
      )

-- What the server of the pump for the publishers reaches.
record Unowned (s : Server) : Type 0 where
  no_owner : has_owner s.left ≡ false
  none_yet : s.owned_by ≡ none
  awaited : (o : Option ℕ) → s.waiting ≡ some o → o ≡ none
  all : All (λ (o : Option ℕ). o ≡ none) s.connections
  noted : s.noted ≡ s.connections

module _ (this : ℕ) where
  initialise-Unowned :
      (s : Server) (m : Member) (rest : List Member)
      → s.left ≡ m ∷ rest
      → Unowned s
      → Unowned (initialise this m (record s { left = rest }))
  unfolding initialise
  initialise-Unowned s alive rest at v = record {
    no_owner = ground (arith, v.no_owner);
    none_yet = v.none_yet;
    awaited = v.awaited;
    all = v.all;
    noted = v.noted;
  }
  initialise-Unowned s io_service rest at v = record {
    no_owner = ground (arith, v.no_owner);
    none_yet = v.none_yet;
    awaited = v.awaited;
    all = v.all;
    noted = v.noted;
  }
  initialise-Unowned s network_thread rest at v = record {
    no_owner = ground (arith, v.no_owner);
    none_yet = v.none_yet;
    awaited = v.awaited;
    all = v.all;
    noted = v.noted;
  }
  initialise-Unowned s owner rest at v = absurd (ground (arith, v.no_owner))

  step-Unowned : {s t : Server} → Step pump_publisher this s t → Unowned s → Unowned t
  unfolding run_begin fail start_accept handle_accept run_end shutdown listens
  step-Unowned {s = s} (constructs m rest at) v = initialise-Unowned s m rest at v
  step-Unowned {s = s} (begins true at) v = record {
    no_owner = v.no_owner;
    none_yet = v.none_yet;
    awaited = v.awaited;
    all = v.all;
    noted = v.noted;
  }
  step-Unowned {s = s} (begins false at) v = record {
    no_owner = v.no_owner;
    none_yet = v.none_yet;
    awaited = λ o w. ground (arith, v.none_yet);
    all = v.all;
    noted = v.noted;
  }
  step-Unowned {s = s} (accepts true o at w) v = record {
    no_owner = v.no_owner;
    none_yet = v.none_yet;
    awaited = λ p q. absurd cc;
    all = v.all;
    noted = v.noted;
  }
  step-Unowned {s = s} (accepts false o at w) v = record {
    no_owner = v.no_owner;
    none_yet = v.none_yet;
    awaited = λ p w'. ground (arith, v.none_yet);
    all = All-append _ s.connections (o ∷ []) v.all (v.awaited o w, tt);
    noted = ap (λ xs. push_back xs o) v.noted;
  }
  step-Unowned {s = s} (throws at) v = record {
    no_owner = v.no_owner;
    none_yet = v.none_yet;
    awaited = v.awaited;
    all = v.all;
    noted = v.noted;
  }
  step-Unowned {s = s} (stops at) v = record {
    no_owner = v.no_owner;
    none_yet = v.none_yet;
    awaited = v.awaited;
    all = v.all;
    noted = v.noted;
  }
  step-Unowned {s = s} (connects error at quiet) v = absurd cc
  step-Unowned {s = s} (ends at stopped) v = record {
    no_owner = v.no_owner;
    none_yet = v.none_yet;
    awaited = v.awaited;
    all = v.all;
    noted = v.noted;
  }

  reach-Unowned : {s : Server} → Reach pump_publisher this (before pump_publisher) s → Unowned s
  unfolding members
  reach-Unowned here = record {
    no_owner = refl;
    none_yet = refl;
    awaited = λ o w. absurd cc;
    all = tt;
    noted = refl;
  }
  reach-Unowned (later r going step) = step-Unowned step (reach-Unowned r)

  -- In every state that the threads of the server of a pump for its publishers reach, no connection
  -- has an initialised pointer to the pump, and the pump has noted just the accepted connections, in
  -- order.
  pub publishers_unowned :
      {s : Server}
      → Reach pump_publisher this (before pump_publisher) s
      → All (λ (o : Option ℕ). o ≡ none) s.connections × (s.noted ≡ s.connections)
  publishers_unowned r = let v = reach-Unowned r in (v.all, v.noted)
