-- ===== src/UdpMulticast/Timers.antt =====
-- `deadline_timer` of Boost.Asio, with no clock: its waits, and its handlers that are ready to run.
-- A wait that ends, because the time is there or because it is cancelled, makes its handler ready.
use asio_kcp.Prelude.{ℕ, ◌+◌, ◌-◌}

pub record Timer : Type 0 where
  pub waiting : ℕ
  pub ready : ℕ

unfoldable pub idle : Timer
idle = record { waiting = 0; ready = 0 }

unfoldable pub cancel : Timer → Timer
cancel t = record { waiting = 0; ready = t.ready + t.waiting }

-- The time is there.
unfoldable pub expire : Timer → Timer
expire t = record { waiting = 0; ready = t.ready + t.waiting }

-- A new time cancels the waits for the old one.
unfoldable pub expires_from_now : Timer → Timer
unfolding cancel
expires_from_now t = cancel t

unfoldable pub async_wait : Timer → Timer
async_wait t = record t { waiting = t.waiting + 1 }

-- The event loop takes a handler that is ready.
unfoldable pub take_handler : Timer → Timer
take_handler t = record t { ready = t.ready - 1 }
