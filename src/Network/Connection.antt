-- ===== src/Network/Connection.antt =====
-- class message_connection of src/include/network.h and network.cpp, for one connection, with the
-- functions `ready` and `closed` of the classes that inherit from it in src/firehose/api: `connected`
-- is their flag, and `alive` that of their server. asio calls the handlers; whether a call of the
-- socket in `close` throws is its choice. The socket's options and the output are left out.
pub mod Once
use firehose.Base.{ℕ, ◌+◌, ◌≡◌, Bool, true, false, not, ◌&&◌, ◌||◌, if◌then◌else◌}

-- The operation that asio has been asked for and has not answered.
pub data Pending : Type 0 where
  nothing : Pending
  accepting : Pending
  resolving : Pending
  connecting : Pending

-- `receivers` counts the calls of msg_rx_.start(), `closings` those of closed().
pub record Connection : Type 0 where
  pub is_closed : Bool
  pub connected : Bool
  pub alive : Bool
  pub pending : Pending
  pub receivers : ℕ
  pub closings : ℕ

-- message_connection::message_connection
abbrev pub init : Connection
init = record {
  is_closed = false;
  connected = false;
  alive = true;
  pending = nothing;
  receivers = 0;
  closings = 0;
}

-- `thrown` is an exception, which ends the process in `run` of each server.
pub data Outcome : Type 0 where
  returned : Connection → Outcome
  thrown : Connection → Outcome

unfoldable pub connect : Connection → Connection
connect c = record c { pending = resolving }

-- start_accept of a server
unfoldable pub start_accept : Connection → Connection
start_accept c = record c { pending = accepting }

abbrev pub ready : Connection → Connection
ready c = record c { connected = true }

unfoldable pub established : Connection → Connection
established c = ready (record c { receivers = c.receivers + 1 })

-- `test_and_set`, and then the calls of the socket, of which one may throw.
unfoldable pub close : Bool → Connection → Outcome
close throws c =
    if c.is_closed
    then returned c
    else if throws
    then thrown (record c { is_closed = true })
    else returned (record c { is_closed = true; closings = c.closings + 1 })

unfoldable pub handle_resolved : Bool → Bool → Connection → Outcome
unfolding close
handle_resolved throws error c =
    if error then close throws c else returned (record c { pending = connecting })

unfoldable pub handle_established : Bool → Bool → Connection → Outcome
unfolding close established
handle_established throws error c = if error then close throws c else returned (established c)

-- handle_accept of a server, for the connection that it has made
unfoldable pub handle_accept : Bool → Connection → Outcome
unfolding established
handle_accept error c = if error then thrown c else returned (established c)

-- The loop in `connect` of a server goes on.
abbrev pub waits : Connection → Bool
waits c = c.alive && not c.connected

-- `run` of the server, when io_service.run() has returned after `shutdown`.
unfoldable pub finish_run : Connection → Connection
finish_run c = record c { alive = false }

-- What asio answers, with no error or with one, a call of abort_connection by the sender or the
-- receiver of the connection, and the end of the server's `run`, as long as nothing is thrown.
pub data Step (c d : Connection) : Type 0 where
  resolved :
      (throws error : Bool)
      → c.pending ≡ resolving
      → handle_resolved throws error (record c { pending = nothing }) ≡ returned d
      → Step c d
  linked :
      (throws error : Bool)
      → c.pending ≡ connecting
      → handle_established throws error (record c { pending = nothing }) ≡ returned d
      → Step c d
  accepted :
      (error : Bool)
      → c.pending ≡ accepting
      → handle_accept error (record c { pending = nothing }) ≡ returned d
      → Step c d
  aborted : (throws : Bool) → close throws c ≡ returned d → Step c d
  ended : finish_run c ≡ d → Step c d

pub data Reach (c : Connection) : Connection → Type 0 where
  here : Reach c c
  later : {d e : Connection} → Reach c d → Step d e → Reach c e

abbrev pub is_ended : {c d : Connection} → Step c d → Bool
is_ended (resolved throws error p h) = false
is_ended (linked throws error p h) = false
is_ended (accepted error p h) = false
is_ended (aborted throws h) = false
is_ended (ended h) = true

-- The server's `run` has ended on the way.
abbrev pub has_ended : {c d : Connection} → Reach c d → Bool
has_ended here = false
has_ended (later r s) = is_ended s || has_ended r
