-- ===== src/Servers/Lifetime.antt =====
-- From the first accept of a server to the return of its `join`.
use firehose.Base.{
  ℕ, ◌≡◌, ◌≢◌, ◌⊎◌, inl, inr, refl, List, [], ◌∷◌, none, some, Option, Bool, true, false, arith,
  Bool-cases,
}
use firehose.Servers.{
  Member, alive, io_service, network_thread, owner, ServerClass, engine_pump, engine_nuzzle,
  engine_engine, nuzzle_consumer, pump_publisher, nuzzle_engine, pump_engine, consumer_nuzzle,
  publisher_pump, members, listens, Place, not_made, starting, serving, returned, Server, before,
  initialise, fail, start_accept, run_begin, handle_accept, run_end, shutdown, connect, joined,
  is_false, is_publisher, Step, constructs, begins, accepts, throws, stops, connects, ends, Reach,
  here, later,
}

module _ (c : ServerClass) (this : ℕ) where
  step-accepting :
      {s t : Server}
      → listens c ≡ true
      → Step c this s t
      → (s.thread ≡ serving → (o : Option ℕ) × (s.waiting ≡ some o))
      → t.exited ≡ none
      → t.thread ≡ serving
      → (o : Option ℕ) × (t.waiting ≡ some o)
  unfolding initialise run_begin fail start_accept handle_accept run_end shutdown connect
  step-accepting l (constructs alive rest at) v goes h = v h
  step-accepting l (constructs io_service rest at) v goes h = v h
  step-accepting l (constructs network_thread rest at) v goes h = absurd cc
  step-accepting l (constructs owner rest at) v goes h = v h
  step-accepting {s = s} l (begins true at) v goes h = absurd (ground arith)
  step-accepting {s = s} l (begins false at) v goes h = (s.owned_by, ground (arith, l))
  step-accepting l (accepts true o at w) v goes h = absurd cc
  step-accepting {s = s} l (accepts false o at w) v goes h = (s.owned_by, refl)
  step-accepting l (throws at) v goes h = v h
  step-accepting l (stops at) v goes h = v h
  step-accepting l (connects true at quiet) v goes h = v h
  step-accepting l (connects false at quiet) v goes h = v h
  step-accepting {s = s} l (ends at stopped) v goes h = let (o, w) = v at in (o, ground (arith, w))

  -- While the thread of a server that listens is in io_service.run(), and the process has not ended, an
  -- accept is asked for, however many connections have been accepted: an accept that has been
  -- answered is followed by the next.
  pub serving_accepts :
      {s : Server}
      → listens c ≡ true
      → Reach c this (before c) s
      → s.exited ≡ none
      → s.thread ≡ serving
      → (o : Option ℕ) × (s.waiting ≡ some o)
  serving_accepts l here goes h = absurd cc
  serving_accepts l (later r going step) goes h =
      step-accepting l step (serving_accepts l r going) goes h

abbrev has_thread : List Member → Bool
has_thread [] = false
has_thread (network_thread ∷ rest) = true
has_thread (_ ∷ rest) = has_thread rest

Place-cases : (p : Place) → (p ≡ not_made) ⊎ ((p ≡ starting) ⊎ ((p ≡ serving) ⊎ (p ≡ returned)))
Place-cases not_made = inl refl
Place-cases starting = inr (inl refl)
Place-cases serving = inr (inr (inl refl))
Place-cases returned = inr (inr (inr refl))

record Life (c : ServerClass) (s : Server) : Type 0 where
  closed :
      is_false s.is_alive ≡ true
      → s.exited ≡ none
      → (s.stopped ≡ true) × ((is_publisher c ≡ true) ⊎ (s.thread ≡ returned))
  over : s.thread ≡ returned → (s.stopped ≡ true) × (is_false s.is_alive ≡ true)
  made : (has_thread s.left ≡ true) ⊎ (s.thread ≢ not_made)
  whole : s.stopped ≡ true → s.left ≡ []
  cleared : s.stopped ≡ true → is_publisher c ≡ true → is_false s.is_alive ≡ true

has_thread-members : (c : ServerClass) → has_thread (members c) ≡ true
unfolding members
has_thread-members engine_pump = refl
has_thread-members engine_nuzzle = refl
has_thread-members engine_engine = refl
has_thread-members nuzzle_consumer = refl
has_thread-members pump_publisher = refl
has_thread-members nuzzle_engine = refl
has_thread-members pump_engine = refl
has_thread-members consumer_nuzzle = refl
has_thread-members publisher_pump = refl

module _ (c : ServerClass) (this : ℕ) where
  start-Life : Life c (before c)
  start-Life = record {
    closed = λ h e. absurd cc;
    over = λ h. absurd cc;
    made = inl (has_thread-members c);
    whole = λ h. absurd cc;
    cleared = λ h p. absurd cc;
  }

  initialise-Life :
      (s : Server) (m : Member) (rest : List Member)
      → s.left ≡ m ∷ rest
      → s.stopped ≡ false
      → Life c s
      → Life c (initialise this m (record s { left = rest }))
  unfolding initialise
  initialise-Life s alive rest at fresh v = record {
    closed = λ h e. absurd cc;
    over = λ h. absurd (ground (arith, v.over));
    made = ground (arith, v.made);
    whole = λ h. absurd (ground arith);
    cleared = λ h p. absurd (ground arith);
  }
  initialise-Life s io_service rest at fresh v = record {
    closed = λ h e. absurd (ground (arith, v.closed));
    over = λ h. absurd (ground (arith, v.over));
    made = ground (arith, v.made);
    whole = λ h. absurd (ground arith);
    cleared = λ h p. absurd (ground arith);
  }
  initialise-Life s network_thread rest at fresh v = record {
    closed = λ h e. absurd (ground (arith, v.closed));
    over = λ h. absurd (ground (arith, v.over));
    made = inr (λ h. absurd cc);
    whole = λ h. absurd (ground arith);
    cleared = λ h p. absurd (ground arith);
  }
  initialise-Life s owner rest at fresh v = record {
    closed = λ h e. absurd (ground (arith, v.closed));
    over = λ h. absurd (ground (arith, v.over));
    made = ground (arith, v.made);
    whole = λ h. absurd (ground arith);
    cleared = λ h p. absurd (ground arith);
  }

  unstopped :
      {s : Server} (m : Member) (rest : List Member)
      → s.left ≡ m ∷ rest
      → Life c s
      → s.stopped ≡ false
  unstopped {s = s} m rest at v = elim (Bool-cases s.stopped) [
    | inr going ↦ going
    | inl stopped ↦ absurd (let whole = v.whole stopped in cc)
  ]

  step-Life : {s t : Server} → s.exited ≡ none → Step c this s t → Life c s → Life c t
  unfolding run_begin fail start_accept handle_accept run_end shutdown connect
  step-Life {s = s} going (constructs m rest at) v =
      initialise-Life s m rest at (unstopped m rest at v) v
  step-Life {s = s} going (begins error at) v = record {
    closed = λ h e. ground (arith, v.closed);
    over = λ h. absurd (ground arith);
    made = inr (λ h. ground arith);
    whole = λ h. ground (arith, v.whole);
    cleared = λ h p. ground (arith, v.cleared);
  }
  step-Life {s = s} going (accepts error o at w) v = record {
    closed = λ h e. ground (arith, v.closed);
    over = λ h. absurd (ground arith);
    made = inr (λ h. ground arith);
    whole = λ h. ground (arith, v.whole);
    cleared = λ h p. ground (arith, v.cleared);
  }
  step-Life {s = s} going (throws at) v = record {
    closed = λ h e. absurd cc;
    over = v.over;
    made = v.made;
    whole = v.whole;
    cleared = v.cleared;
  }
  step-Life {s = s} going (stops at) v = record {
    closed = λ h e. ground (arith, v.closed);
    over = λ h. ground (arith, v.over);
    made = v.made;
    whole = λ h. at;
    cleared = λ h p. ground arith;
  }
  step-Life {s = s} going (connects true at quiet) v = record {
    closed = λ h e. absurd cc;
    over = λ h. (refl, refl);
    made = v.made;
    whole = λ h. at;
    cleared = λ h p. refl;
  }
  step-Life {s = s} going (connects false at quiet) v = record {
    closed = v.closed;
    over = v.over;
    made = v.made;
    whole = v.whole;
    cleared = v.cleared;
  }
  step-Life {s = s} going (ends at stopped) v = record {
    closed = λ h e. ground (arith, v.closed);
    over = λ h. ground (arith, v.over);
    made = inr (λ h. ground arith);
    whole = λ h. ground (arith, v.whole);
    cleared = λ h p. ground (arith, v.cleared);
  }

  reach-Life : {s : Server} → Reach c this (before c) s → Life c s
  reach-Life here = start-Life
  reach-Life (later r going step) = step-Life going step (reach-Life r)

  -- If `join` returns in a process that has not ended, `shutdown` has been called, and the network
  -- thread has returned from `run`.
  joined_returned :
      {s : Server}
      → Reach c this (before c) s
      → s.exited ≡ none
      → joined c s ≡ true
      → (s.stopped ≡ true) × (s.thread ≡ returned)
  unfolding joined
  joined_returned {s = s} r going h = let v = reach-Life r in ground (arith, v.closed, v.over)

  joins-serving :
      {s t : Server}
      → Reach c this s t
      → Life c t
      → t.exited ≡ none
      → t.stopped ≡ true
      → t.thread ≡ serving
      → (u : Server) × Reach c this s u × (joined c u ≡ true) × (u.exited ≡ none)
  unfolding joined run_end
  joins-serving {t = t} r v going stopped at = (
    run_end c t,
    later r going (ends at stopped),
    ground (arith, v.cleared stopped),
    ground (arith, going),
  )

  -- From each state that the threads reach in which `shutdown` has been called and the process has
  -- not ended, they can go on to a state in which `join` returns and the process has not ended.
  pub shutdown_joins :
      {s : Server}
      → Reach c this (before c) s
      → s.exited ≡ none
      → s.stopped ≡ true
      → (t : Server) × Reach c this s t × (joined c t ≡ true) × (t.exited ≡ none)
  unfolding joined run_begin start_accept fail
  shutdown_joins {s = s} r going stopped =
      let v = reach-Life r in
      elim (Place-cases s.thread) [
        | inl at ↦ absurd (ground (arith, v.made, v.whole stopped))
        | inr (inl at) ↦
            let t = run_begin c false s in
            let begun : Step c this s t = begins false at in
            joins-serving (later here going begun) (step-Life going begun v) (ground (arith, going))
              (ground (arith, stopped)) (ground arith)
        | inr (inr (inl at)) ↦ joins-serving here v going stopped at
        | inr (inr (inr at)) ↦ (s, here, ground (arith, v.over), going)
      ]
