-- ===== src/Connection/Idle/Deadlines.antt =====
-- When an idle connection is destroyed.
use ilp_protocol_stream.Base.{ℕ, ◌+◌, ◌≤◌, ◌<◌, ◌≡◌, ◌⊎◌, List, [], ◌∷◌, none, some}
use ilp_protocol_stream.Connection.Idle.{Idle, IdleEvent, bumps, looks}

-- When an event happens.
abbrev pub time_of : IdleEvent → ℕ
time_of (bumps now) = now
time_of (looks now) = now

-- Events in the order of their times, from `now` on.
abbrev pub InOrder : ℕ → List IdleEvent → Type 0
InOrder now [] = Unit {0}
InOrder now (e ∷ es) = (now ≤ time_of e) × InOrder (time_of e) es

-- When the last of the events was.
abbrev pub last_time : ℕ → List IdleEvent → ℕ
last_time now [] = now
last_time now (e ∷ es) = last_time (time_of e) es

-- The connection is alive, and its timer is due when it has been idle for the timeout, if not sooner;
-- or it was destroyed when it had been idle for the timeout.
pub record IsAlive (now : ℕ) (s : Idle) : Type 0 where
  pub alive : s.destroyed ≡ none
  pub due : ℕ
  pub armed : s.timer ≡ some due
  pub soon : due ≤ s.last_active + s.idle_timeout
  pub past : s.last_active ≤ now
  pub positive : 0 < s.idle_timeout

pub record IsExpired (s : Idle) : Type 0 where
  pub at : ℕ
  pub expired : s.destroyed ≡ some at
  pub idle : s.last_active + s.idle_timeout ≤ at

abbrev pub IsTimed : ℕ → Idle → Type 0
IsTimed now s = IsAlive now s ⊎ IsExpired s
