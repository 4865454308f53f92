-- ===== src/Connection/Idle.antt =====
-- The idle timer: `startIdleTimer`, `testIdle` and `bumpIdle`. Times are milliseconds; a clock that is
-- set back is left out, as is a negative wait, which is none.
pub mod Deadlines
use ilp_protocol_stream.Base.{
  ℕ, ◌+◌, ◌-◌, leb, ◌==◌, if◌then◌else◌, List, [], ◌∷◌, Option, none, some,
}

-- `timer` is when the callback is due; `destroyed` is when the connection was destroyed for inactivity.
pub record Idle : Type 0 where
  pub idle_timeout : ℕ
  pub last_active : ℕ
  pub timer : Option ℕ
  pub destroyed : Option ℕ

-- 60 seconds.
abbrev pub default_idle_timeout : ℕ
default_idle_timeout = 60000

-- `opts.idleTimeout || DEFAULT_IDLE_TIMEOUT`
unfoldable pub idle_timeout_of : Option ℕ → ℕ
idle_timeout_of none = default_idle_timeout
idle_timeout_of (some timeout) = if timeout == 0 then default_idle_timeout else timeout

pub new_idle : Option ℕ → ℕ → Idle
unfolding idle_timeout_of
new_idle timeout now = record {
  idle_timeout = idle_timeout_of timeout;
  last_active = now;
  timer = none;
  destroyed = none;
}

pub start_idle_timer : ℕ → Idle → Idle
start_idle_timer now s =
    if s.idle_timeout == 0
    then s
    else record s { timer = some (now + (s.idle_timeout - (now - s.last_active))) }

pub test_idle : ℕ → Idle → Idle
unfolding start_idle_timer
test_idle now s =
    if leb s.idle_timeout (now - s.last_active)
    then record s { timer = none; destroyed = some now }
    else start_idle_timer now s

pub bump_idle : ℕ → Idle → Idle
bump_idle now s = record s { last_active = now }

-- A packet is sent or received, or the event loop looks for timers that are due.
pub data IdleEvent : Type 0 where
  bumps looks : (now : ℕ) → IdleEvent

test_due : ℕ → Option ℕ → Idle → Idle
unfolding test_idle
test_due now none s = s
test_due now (some due) s = if leb due now then test_idle now s else s

-- A destroyed connection is left alone.
event_for : Option ℕ → IdleEvent → Idle → Idle
unfolding bump_idle test_due
event_for (some at) e s = s
event_for none (bumps now) s = bump_idle now s
event_for none (looks now) s = test_due now s.timer s

pub run_idle_event : IdleEvent → Idle → Idle
unfolding event_for
run_idle_event e s = event_for s.destroyed e s

pub run_idle : List IdleEvent → Idle → Idle
unfolding run_idle_event
run_idle [] s = s
run_idle (e ∷ es) s = run_idle es (run_idle_event e s)
