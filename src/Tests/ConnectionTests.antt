-- ===== src/Tests/ConnectionTests.antt =====
-- A connection that is made, one that fails, and the clocks of two nodes.
use firehose.Base.{ℕ, ◌+◌, ◌-◌, ◌*◌, ◌≡◌, ◌≤◌, inl, refl, arith, some, true, false, if◌then◌else◌}
use firehose.Network.Connection.{
  Connection, init, connect, established, close, handle_resolved, handle_established, resolved,
  linked, aborted, ended, finish_run, Reach, here, later, connecting,
}
use firehose.Network.Connection.Once.{connection_once}
use firehose.Network.Clock as Clocks
use firehose.Network.Clock.{Clock, bias, synchronize_all, estimate_rtt, estimate_clock_delta}
use firehose.Network.Clock.Estimate.{estimates_near}

abbrev linking : Connection
linking = record init { pending = connecting }

abbrev linked_one : Connection
linked_one = record init { connected = true; receivers = 1 }

abbrev closed_one : Connection
closed_one = record linked_one { is_closed = true; closings = 1 }

made : Reach (connect init) closed_one
unfolding connect handle_resolved handle_established established close
made =
    later
      (later (later {d = connect init} {e = linking} here (resolved false false refl refl))
        (linked false false refl refl))
      (aborted false refl)

connection_once_example :
    (closed_one.receivers ≡ (if closed_one.connected then 1 else 0))
    × (closed_one.receivers ≤ 1)
    × (closed_one.closings ≤ (if closed_one.is_closed then 1 else 0))
connection_once_example = connection_once closed_one (inl made)

abbrev failed_one : Connection
failed_one = record init { is_closed = true; closings = 1 }

failed_later : Reach failed_one failed_one
unfolding close
failed_later = later here (aborted true refl)

abbrev ended_one : Connection
ended_one = record failed_one { alive = false }

failed_ended : Reach failed_one ended_one
unfolding finish_run
failed_ended = later failed_later (ended refl)

-- The local clock is 500 ahead, and the delays are 20 and 31.
abbrev measured : Clock
measured = record Clocks.init { local_delta = bias + 520; remote_delta = bias - 469 }

estimates_near_example :
    (delta : ℕ) × (estimate_rtt measured ≡ some (bias + 20 + 31))
    × (estimate_clock_delta measured ≡ some delta)
    × (2 * delta + 2 * 0 ≤ 2 * bias + 2 * 500 + 20 + 31 + 1)
    × (2 * bias + 2 * 500 ≤ 2 * delta + 2 * 0 + 20 + 31 + 1)
estimates_near_example =
    estimates_near measured 500 0 20 31 refl refl (λ e. omega arith) (omega arith) (omega arith)
      (omega arith)
