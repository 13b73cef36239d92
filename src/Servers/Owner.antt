-- ===== src/Servers/Owner.antt =====
-- The pointer from a server to its node: which connections are made with it.
use firehose.Base.{
  ℕ, ◌≡◌, ◌⊎◌, inl, inr, refl, List, [], ◌∷◌, none, some, Option, Bool, true, false, not, ◌||◌, All,
  All-append, push_back, arith, ◌≢◌, Bool-cases,
}
use firehose.Servers.{
  Member, alive, io_service, network_thread, owner, ServerClass, engine_pump, engine_nuzzle,
  engine_engine, nuzzle_consumer, pump_publisher, nuzzle_engine, pump_engine, consumer_nuzzle,
  publisher_pump, members, listens, Place, not_made, starting, serving, Server, before, initialise,
  fail, start_accept, run_begin, handle_accept, run_end, shutdown, connect, Step, constructs,
  begins, accepts, throws, stops, connects, ends, Reach, here, later,
}

abbrev is_owner : Member → Bool
is_owner owner = true
is_owner _ = false

abbrev pub has_owner : List Member → Bool
has_owner [] = false
has_owner (owner ∷ rest) = true
has_owner (_ ∷ rest) = has_owner rest

-- The owner is to be initialised, and before the thread is made.
abbrev owner_first : List Member → Bool
owner_first [] = false
owner_first (owner ∷ rest) = true
owner_first (network_thread ∷ rest) = false
owner_first (_ ∷ rest) = owner_first rest

-- The thread reads the owner only if it listens.
abbrev pub in_time : ServerClass → Bool
in_time c = not (listens c) || owner_first (members c)

record Owned (c : ServerClass) (this : ℕ) (s : Server) : Type 0 where
  known :
      ((has_owner s.left ≡ true)
        × ((listens c ≡ false) ⊎ ((owner_first s.left ≡ true) × (s.thread ≡ not_made))))
      ⊎ (s.owned_by ≡ some this)
  quiet : listens c ≡ false → s.waiting ≡ none
  awaited : (o : Option ℕ) → s.waiting ≡ some o → o ≡ some this
  all : All (λ (o : Option ℕ). o ≡ some this) s.connections

start-known :
    (c : ServerClass)
    → in_time c ≡ true
    → (has_owner (members c) ≡ true) × ((listens c ≡ false) ⊎ (owner_first (members c) ≡ true))
unfolding members listens
start-known engine_pump h = absurd cc
start-known engine_nuzzle h = (refl, inr refl)
start-known engine_engine h = absurd cc
start-known nuzzle_consumer h = absurd cc
start-known pump_publisher h = absurd cc
start-known nuzzle_engine h = (refl, inl refl)
start-known pump_engine h = (refl, inl refl)
start-known consumer_nuzzle h = (refl, inl refl)
start-known publisher_pump h = (refl, inl refl)

-- The first half of `known`.
abbrev IsToBe : ServerClass → Server → Type 0
IsToBe c s =
    (has_owner s.left ≡ true)
    × ((listens c ≡ false) ⊎ ((owner_first s.left ≡ true) × (s.thread ≡ not_made)))

module _ (c : ServerClass) (this : ℕ) where
  start-Owned : in_time c ≡ true → Owned c this (before c)
  start-Owned h = record {
    known = inl (ground (arith, start-known c h));
    quiet = λ q. refl;
    awaited = λ o q. absurd cc;
    all = tt;
  }

  constructs-Owned :
      (s : Server) (m : Member) (rest : List Member)
      → s.left ≡ m ∷ rest
      → Owned c this s
      → Owned c this (initialise this m (record s { left = rest }))
  unfolding initialise
  constructs-Owned s alive rest at v = record {
    known = ground arith;
    quiet = v.quiet;
    awaited = v.awaited;
    all = v.all;
  }
  constructs-Owned s io_service rest at v = record {
    known = ground arith;
    quiet = v.quiet;
    awaited = v.awaited;
    all = v.all;
  }
  constructs-Owned s network_thread rest at v = record {
    known = ground arith;
    quiet = v.quiet;
    awaited = v.awaited;
    all = v.all;
  }
  constructs-Owned s owner rest at v = record {
    known = inr refl;
    quiet = v.quiet;
    awaited = v.awaited;
    all = v.all;
  }

  -- Once the thread is made, the owner is known if the server listens.
  moved :
      {s : Server}
      → Owned c this s
      → s.thread ≢ not_made
      → ((has_owner s.left ≡ true) × (listens c ≡ false)) ⊎ (s.owned_by ≡ some this)
  moved v begun = ground (arith, v.known)

  -- What a step of the network thread must show.
  served-Owned :
      (s t : Server)
      → Owned c this s
      → s.thread ≢ not_made
      → t.left ≡ s.left
      → t.owned_by ≡ s.owned_by
      → (t.waiting ≡ s.waiting) ⊎ ((listens c ≡ true) × (t.waiting ≡ some s.owned_by))
      → (t.connections ≡ s.connections)
        ⊎ ((o : Option ℕ) × (t.connections ≡ push_back s.connections o) × (o ≡ some this))
      → Owned c this t
  served-Owned s t v begun left by waiting added = record {
    known = ground (arith, moved v begun);
    quiet = λ q. ground (arith, v.quiet q);
    awaited = λ o w. ground (arith, v.awaited o, moved v begun);
    all = elim added [
      | inl same ↦ rw (same) v.all
      | inr (o, more, is) ↦ rw (more) (All-append _ s.connections (o ∷ []) v.all (is, tt))
    ];
  }

  begun_starting : (p : Place) → p ≡ starting → p ≢ not_made
  begun_starting p at h = absurd cc

  begun_serving : (p : Place) → p ≡ serving → p ≢ not_made
  begun_serving p at h = absurd cc

  accepting : {s : Server} (o : Option ℕ) → Owned c this s → s.waiting ≡ some o → listens c ≡ true
  accepting o v w = elim (Bool-cases (listens c)) [
    | inl l ↦ l
    | inr l ↦ absurd (let quiet = v.quiet l in cc)
  ]

  step-Owned : {s t : Server} → Step c this s t → Owned c this s → Owned c this t
  unfolding run_begin fail start_accept handle_accept run_end shutdown connect
  step-Owned {s = s} (constructs m rest at) v = constructs-Owned s m rest at v
  step-Owned {s = s} (begins error at) v =
      served-Owned s (run_begin c error s) v (begun_starting s.thread at) (ground arith)
        (ground arith) (ground arith) (inl (ground arith))
  step-Owned {s = s} (accepts true o at w) v = record {
    known = v.known;
    quiet = λ q. refl;
    awaited = λ p q. absurd cc;
    all = v.all;
  }
  step-Owned {s = s} (accepts false o at w) v =
      served-Owned s (handle_accept c false o (record s { waiting = none })) v
        (begun_serving s.thread at) refl refl (inr (accepting o v w, refl))
        (inr (o, refl, v.awaited o w))
  step-Owned (throws at) v = record {
    known = v.known;
    quiet = v.quiet;
    awaited = v.awaited;
    all = v.all;
  }
  step-Owned (stops at) v = record {
    known = v.known;
    quiet = v.quiet;
    awaited = v.awaited;
    all = v.all;
  }
  step-Owned {s = s} (connects true at quiet) v = record {
    known = v.known;
    quiet = v.quiet;
    awaited = v.awaited;
    all = v.all;
  }
  step-Owned {s = s} (connects false at quiet) v = record {
    known = v.known;
    quiet = v.quiet;
    awaited = v.awaited;
    all = All-append _ s.connections (s.owned_by ∷ []) v.all (ground (arith, v.known), tt);
  }
  step-Owned {s = s} (ends at stopped) v =
      served-Owned s (run_end c s) v (begun_serving s.thread at) (ground arith) (ground arith)
        (inl (ground arith)) (inl (ground arith))

  reach-Owned : {s : Server} → in_time c ≡ true → Reach c this (before c) s → Owned c this s
  reach-Owned h here = start-Owned h
  reach-Owned h (later r going step) = step-Owned step (reach-Owned h r)

  -- In a server that does not listen, or initialises its pointer to the node before it makes its
  -- thread, as of those that listen only that of an engine for the nuzzles does, every connection of
  -- a state that the threads reach, in any order of their steps, has the pointer to the node that the
  -- server was made with.
  pub connections_owned :
      {s : Server}
      → in_time c ≡ true
      → Reach c this (before c) s
      → All (λ (o : Option ℕ). o ≡ some this) s.connections
  connections_owned h r = (reach-Owned h r).all
