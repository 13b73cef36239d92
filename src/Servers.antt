-- ===== src/Servers.antt =====
-- The servers of src/firehose/api: engine_api.cpp, nuzzle_api.cpp, pump_api.cpp, consumer_api.cpp and
-- publisher_api.cpp have a class for each kind of peer, with a thread that runs an asio::io_service.
-- One thread is in the constructor and calls the other functions, the network thread is in `run`, and
-- a step is what one of them does next. A pointer is a number, and `none` before it is initialised.
-- What a connection does is in Network/Connection; asio decides which calls throw.
pub mod Owner
pub mod Unowned
pub mod Lifetime
use firehose.Base.{
  ℕ, List, [], ◌∷◌, ◌≡◌, Option, none, some, Bool, true, false, ◌&&◌, if◌then◌else◌, push_back,
}

-- The members of a server, less the order of the class.
pub data Member : Type 0 where
  alive io_service network_thread owner : Member

-- engine::PumpServer, engine::NuzzleServer, engine::EngineServer, nuzzle::ConsumerServer,
-- pump::PublisherServer, which accept connections, and nuzzle::EngineServer, pump::EngineServer,
-- consumer::NuzzleServer, publisher::PumpServer, which make them.
pub data ServerClass : Type 0 where
  engine_pump engine_nuzzle engine_engine nuzzle_consumer pump_publisher : ServerClass
  nuzzle_engine pump_engine consumer_nuzzle publisher_pump : ServerClass

-- Members are initialised in the order of their declarations, whatever the order of the constructor's
-- list is. The list of pump::PublisherServer does not name the pump.
abbrev engine_pump_members : List Member
engine_pump_members = alive ∷ io_service ∷ network_thread ∷ owner ∷ []

abbrev engine_nuzzle_members : List Member
engine_nuzzle_members = owner ∷ alive ∷ io_service ∷ network_thread ∷ []

abbrev engine_engine_members : List Member
engine_engine_members = alive ∷ io_service ∷ network_thread ∷ owner ∷ []

abbrev nuzzle_consumer_members : List Member
nuzzle_consumer_members = alive ∷ io_service ∷ network_thread ∷ owner ∷ []

abbrev nuzzle_engine_members : List Member
nuzzle_engine_members = alive ∷ io_service ∷ network_thread ∷ owner ∷ []

abbrev pump_publisher_members : List Member
pump_publisher_members = alive ∷ io_service ∷ network_thread ∷ []

abbrev pump_engine_members : List Member
pump_engine_members = alive ∷ io_service ∷ network_thread ∷ owner ∷ []

abbrev consumer_nuzzle_members : List Member
consumer_nuzzle_members = alive ∷ io_service ∷ network_thread ∷ owner ∷ []

abbrev publisher_pump_members : List Member
publisher_pump_members = alive ∷ io_service ∷ network_thread ∷ owner ∷ []

unfoldable pub members : ServerClass → List Member
members engine_pump = engine_pump_members
members engine_nuzzle = engine_nuzzle_members
members engine_engine = engine_engine_members
members nuzzle_consumer = nuzzle_consumer_members
members pump_publisher = pump_publisher_members
members nuzzle_engine = nuzzle_engine_members
members pump_engine = pump_engine_members
members consumer_nuzzle = consumer_nuzzle_members
members publisher_pump = publisher_pump_members

unfoldable pub listens : ServerClass → Bool
listens engine_pump = true
listens engine_nuzzle = true
listens engine_engine = true
listens nuzzle_consumer = true
listens pump_publisher = true
listens _ = false

-- Where the network thread is: not made yet, before its first accept, in io_service.run(), returned.
pub data Place : Type 0 where
  not_made starting serving returned : Place

-- `left` are the members that the constructor has still to initialise; `waiting` is the connection that
-- the acceptor is to fill; a connection is the owner that it was made with.
pub record Server : Type 0 where
  pub left : List Member
  pub is_alive : Option Bool
  pub owned_by : Option ℕ
  pub thread : Place
  pub stopped : Bool
  pub waiting : Option (Option ℕ)
  pub connections : List (Option ℕ)
  pub noted : List (Option ℕ)
  pub exited : Option ℕ

abbrev pub before : ServerClass → Server
before c = record {
  left = members c;
  is_alive = none;
  owned_by = none;
  thread = not_made;
  stopped = false;
  waiting = none;
  connections = [];
  noted = [];
  exited = none;
}

-- The constructor initialises the next member.
unfoldable pub initialise : ℕ → Member → Server → Server
initialise this alive s = record s { is_alive = some true }
initialise this io_service s = s
initialise this network_thread s = record s { thread = starting }
initialise this owner s = record s { owned_by = some this }

-- The handlers of `run` print, and end the process with status 0.
unfoldable pub fail : Server → Server
fail s = record s { exited = some 0 }

unfoldable pub start_accept : Server → Server
start_accept s = record s { waiting = some s.owned_by }

-- `run` as far as io_service.run(): a server that listens makes an acceptor, which may throw.
unfoldable pub run_begin : ServerClass → Bool → Server → Server
unfolding fail start_accept
run_begin c throws s =
    if listens c
    then if throws then fail s else start_accept (record s { thread = serving })
    else record s { thread = serving }

abbrev pub is_pump : ServerClass → Bool
is_pump pump_publisher = true
is_pump _ = false

-- The server of the publisher is the one whose thread `join` joins.
abbrev pub is_publisher : ServerClass → Bool
is_publisher publisher_pump = true
is_publisher _ = false

-- What handle_accept throws leaves io_service.run(). The pump notes the connection as well.
unfoldable pub handle_accept : ServerClass → Bool → Option ℕ → Server → Server
unfolding fail start_accept
handle_accept c error connection s =
    if error
    then fail s
    else start_accept (record s {
      connections = push_back s.connections connection;
      noted = if is_pump c then push_back s.noted connection else s.noted;
    })

abbrev pub is_false : Option Bool → Bool
is_false (some false) = true
is_false _ = false

abbrev pub is_returned : Place → Bool
is_returned returned = true
is_returned _ = false

-- `run` when io_service.run() has returned. That of the publisher runs it again while alive.
unfoldable pub run_end : ServerClass → Server → Server
run_end c s =
    if is_publisher c
    then if is_false s.is_alive then record s { thread = returned } else s
    else record s { thread = returned; is_alive = some false }

unfoldable pub shutdown : ServerClass → Server → Server
shutdown c s = record s {
  is_alive = if is_publisher c then some false else s.is_alive;
  stopped = true;
}

-- `join` returns: the loop on `alive` ends, or the thread that the publisher joins has ended.
unfoldable pub joined : ServerClass → Server → Bool
joined c s = if is_publisher c then is_returned s.thread else is_false s.is_alive

-- `connect`, up to its loop; what it catches ends the process as well.
unfoldable pub connect : Bool → Server → Server
unfolding fail
connect throws s =
    if throws
    then fail (record s { is_alive = some false; stopped = true })
    else record s { connections = push_back s.connections s.owned_by }

-- What asio has answered is no longer waited for.
pub data Step (c : ServerClass) (this : ℕ) (s : Server) : Server → Type 0 where
  constructs :
      (m : Member) (rest : List Member)
      → s.left ≡ m ∷ rest
      → Step c this s (initialise this m (record s { left = rest }))
  begins : (throws : Bool) → s.thread ≡ starting → Step c this s (run_begin c throws s)
  accepts :
      (error : Bool) (connection : Option ℕ)
      → s.thread ≡ serving
      → s.waiting ≡ some connection
      → Step c this s (handle_accept c error connection (record s { waiting = none }))
  throws : s.thread ≡ serving → Step c this s (fail s)
  stops : s.left ≡ [] → Step c this s (shutdown c s)
  connects : (error : Bool) → s.left ≡ [] → listens c ≡ false → Step c this s (connect error s)
  ends : s.thread ≡ serving → s.stopped ≡ true → Step c this s (run_end c s)

-- Nothing happens after the process has ended.
pub data Reach (c : ServerClass) (this : ℕ) (s : Server) : Server → Type 0 where
  here : Reach c this s s
  later : {t u : Server} → Reach c this s t → t.exited ≡ none → Step c this t u → Reach c this s u
