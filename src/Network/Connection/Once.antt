-- ===== src/Network/Connection/Once.antt =====
-- What happens at most once to a connection, and the wait for it.
use firehose.Base.{ℕ, ◌+◌, ◌≤◌, ◌≡◌, ◌⊎◌, inl, inr, refl, Bool, arith, if◌then◌else◌}
use firehose.Network.Connection.{
  Pending, nothing, accepting, resolving, connecting, Connection, init, returned, connect,
  start_accept, established, close, handle_resolved, handle_established, handle_accept, Step,
  resolved, linked, accepted, aborted, ended, finish_run, Reach, here, later,
}

-- One for an operation that may still establish the connection.
abbrev pub chances : Pending → ℕ
chances nothing = 0
chances accepting = 1
chances resolving = 1
chances connecting = 1

-- The receiver is started at most once, and with it the flag is set; the connection is closed at most
-- once.
pub record Inv (c : Connection) : Type 0 where
  pub once : c.receivers + chances c.pending ≤ 1
  pub flag : c.receivers ≡ (if c.connected then 1 else 0)
  pub closed_once : c.closings ≤ (if c.is_closed then 1 else 0)

close-Inv : (c d : Connection) (throws : Bool) → Inv c → close throws c ≡ returned d → Inv d
unfolding close
close-Inv c d throws v h = record {
  once = ground (arith, v.once);
  flag = ground (arith, v.flag);
  closed_once = ground (arith, v.closed_once);
}

Step-Inv : (c d : Connection) → Inv c → Step c d → Inv d
unfolding handle_resolved handle_established handle_accept established close finish_run
Step-Inv c d v (resolved throws error p h) = record {
  once = ground (arith, v.once);
  flag = ground (arith, v.flag);
  closed_once = ground (arith, v.closed_once);
}
Step-Inv c d v (linked throws error p h) = record {
  once = ground (arith, v.once);
  flag = ground (arith, v.flag);
  closed_once = ground (arith, v.closed_once);
}
Step-Inv c d v (accepted error p h) = record {
  once = ground (arith, v.once);
  flag = ground (arith, v.flag);
  closed_once = ground (arith, v.closed_once);
}
Step-Inv c d v (aborted throws h) = close-Inv c d throws v h
Step-Inv c d v (ended h) = record {
  once = ground (arith, v.once);
  flag = ground (arith, v.flag);
  closed_once = ground (arith, v.closed_once);
}

Reach-Inv : (c d : Connection) → Inv c → Reach c d → Inv d
Reach-Inv c d v here = v
Reach-Inv c d v (later {d = m} r s) = Step-Inv m d (Reach-Inv c m v r) s

-- A connection that a node makes or accepts starts its receiver at most once, whatever asio answers
-- and however often the sender and the receiver abort, is marked as connected exactly if it has
-- started its receiver, and runs its handler `closed` at most once, and only after it has been closed.
pub connection_once :
    (c : Connection)
    → Reach (connect init) c ⊎ Reach (start_accept init) c
    → (c.receivers ≡ (if c.connected then 1 else 0))
      × (c.receivers ≤ 1)
      × (c.closings ≤ (if c.is_closed then 1 else 0))
unfolding connect start_accept
connection_once c r =
    let v : Inv c = elim r [
      | inl made ↦
          Reach-Inv (connect init) c
            (record { once = omega arith; flag = refl; closed_once = omega arith }) made
      | inr taken ↦
          Reach-Inv (start_accept init) c
            (record { once = omega arith; flag = refl; closed_once = omega arith }) taken
    ] in
    (v.flag, omega (arith, v.once), v.closed_once)
