-- ===== src/Stream/Waiting.antt =====
-- `sendTotal` and `receiveTotal`: a promise that waits for a total. Its listeners are called with the
-- total at that moment.
pub mod Deciding
use ilp_protocol_stream.Base.{
  ℕ, leb, ◌||◌, if◌then◌else◌, List, [], ◌∷◌, Option, none, some, Bool, true, false, Error, Result,
  ok, throw,
}
use ilp_protocol_stream.Stream.{Stream}
use ilp_protocol_stream.Stream.Money.{set_send_max, set_receive_max}

-- How the promise is settled.
pub data Outcome : Type 0 where
  resolved closed_early stream_failed timed_out : Outcome

-- The timer counts as a listener. The end of the stream leaves the listeners until the next turn of the
-- event loop, for which `is_cleaning` stands.
pub record Wait : Type 0 where
  pub limit : ℕ
  pub outcome : Option Outcome
  pub is_listening : Bool
  pub is_cleaning : Bool

pub data WaitEvent : Type 0 where
  moved ended : (total : ℕ) → WaitEvent
  errors expires cleans : WaitEvent

pub new_wait : ℕ → Wait
new_wait limit = record { limit = limit; outcome = none; is_listening = true; is_cleaning = false }

-- A promise is settled once.
abbrev first_of : Option Outcome → Outcome → Option Outcome
first_of none outcome = some outcome
first_of (some earlier) outcome = some earlier

settle_once : Outcome → Wait → Wait
settle_once outcome w = record w { outcome = first_of w.outcome outcome }

cleanup : Wait → Wait
cleanup w = record w { is_listening = false }

-- `outgoingHandler`, and `moneyHandler` of `receiveTotal`.
money_handler : ℕ → Wait → Wait
unfolding settle_once cleanup
money_handler total w = if leb w.limit total then settle_once resolved (cleanup w) else w

end_handler : ℕ → Wait → Wait
unfolding settle_once
end_handler total w =
    settle_once (if leb w.limit total then resolved else closed_early)
      (record w { is_cleaning = true })

error_handler : Wait → Wait
unfolding settle_once cleanup
error_handler w = settle_once stream_failed (cleanup w)

timer_handler : Wait → Wait
unfolding settle_once cleanup
timer_handler w = settle_once timed_out (cleanup w)

listen : WaitEvent → Wait → Wait
unfolding money_handler end_handler error_handler timer_handler
listen (moved total) w = money_handler total w
listen (ended total) w = end_handler total w
listen errors w = error_handler w
listen expires w = timer_handler w
listen cleans w = w

pub wait_event : WaitEvent → Wait → Wait
unfolding listen cleanup
wait_event cleans w = if w.is_cleaning then cleanup w else w
wait_event (moved total) w = if w.is_listening then listen (moved total) w else w
wait_event (ended total) w = if w.is_listening then listen (ended total) w else w
wait_event errors w = if w.is_listening then listen errors w else w
wait_event expires w = if w.is_listening then listen expires w else w

pub wait_events : List WaitEvent → Wait → Wait
unfolding wait_event
wait_events [] w = w
wait_events (e ∷ es) w = wait_events es (wait_event e w)

-- What a call does at once: it resolves, or rejects with what setting the limit throws, or waits.
pub data Started : Type 0 where
  at_once : Started
  fails : Error → Started
  waits : Stream → Wait → Started

abbrev waits_for : ℕ → Result Stream → Started
waits_for limit (throw e) = fails e
waits_for limit (ok s) = waits s (new_wait limit)

pub send_total : Stream → ℕ → Started
unfolding new_wait
send_total s limit =
    if leb limit s.total_sent then at_once else waits_for limit (set_send_max s limit)

pub receive_total : Stream → ℕ → Started
unfolding new_wait
receive_total s limit =
    if leb limit s.total_received then at_once else waits_for limit (set_receive_max s limit)
