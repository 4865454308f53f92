-- ===== src/Tests/Lifetimes.antt =====
-- Examples of the send loop, the end of connections and streams, and what waits for totals or time.
use ilp_protocol_stream.Base.{
  ◌≤◌, ◌≡◌, ◌⊎◌, refl, inl, leb, if◌then◌else◌, List, [], ◌∷◌, lookup, some, none, true, false,
  arith,
}
use ilp_protocol_stream.Long.{count_digits, min_long, min_longs}
use ilp_protocol_stream.Rational.{new_rational}
use ilp_protocol_stream.Congestion.{
  new_congestion_controller, set_maximum_amounts, maximum_packet_amount,
}
use ilp_protocol_stream.Crypto.{decrypt}
use ilp_protocol_stream.Packet.{deserialize, connection_max_data}
use ilp_protocol_stream.Packet.Padding.{decrypt_and_deserialize}
use ilp_protocol_stream.Stream.{Stream, new_stream}
use ilp_protocol_stream.Stream.Waiting.{
  WaitEvent, moved, ended, cleans, resolved, send_total, receive_total,
}
use ilp_protocol_stream.Stream.Waiting.Deciding.{decides, outcome_of, send_total-receive_total}
use ilp_protocol_stream.Stream.Ending.{new_ending, call_back}
use ilp_protocol_stream.Stream.Ending.Events.{
  EndingStep, finals, destroys, calls_back, run_steps, ends_in, closes_in, run_steps-once,
}
use ilp_protocol_stream.Connection.{new_connection}
use ilp_protocol_stream.Connection.Totals.{get_next_packet_sequence}
use ilp_protocol_stream.Connection.Control.{handle_control_frames}
use ilp_protocol_stream.Connection.Rejects.{same_code}
use ilp_protocol_stream.Connection.Responses.{match_response}
use ilp_protocol_stream.Connection.Discovery.{send_test_packet_volley}
use ilp_protocol_stream.Connection.Discovery.Rates.{
  find_best, max_packet_amounts, next_amounts, setup_exchange_rate,
}
use ilp_protocol_stream.Connection.Filling.{account_frames}
use ilp_protocol_stream.Connection.SendLoop.{
  Event, starts, receives, discovers, ticks, new_loop, start_loop, run_events,
}
use ilp_protocol_stream.Connection.SendLoop.Single.{IsSingle, run_events-IsSingle}
use ilp_protocol_stream.Connection.SendLoop.Turns.{WillLoad}
use ilp_protocol_stream.Connection.SendLoop.Waking.{run_events-WillLoad}
use ilp_protocol_stream.Connection.Closing.{Session}
use ilp_protocol_stream.Connection.Closing.Calls.{Call, ends, ends_rejected}
use ilp_protocol_stream.Connection.Closing.Calls
use ilp_protocol_stream.Connection.Idle.{IdleEvent, bumps, looks}
use ilp_protocol_stream.Tests.{long, oer, crypto}
use ilp_protocol_stream.Tests.Packets.{buffers}
use ilp_protocol_stream.Tests.Discovery.{number, psk_key, network, client}

abbrev events : List Event
events = starts ∷ starts ∷ discovers 0 network ∷ ticks 0 ∷ ticks 1 ∷ starts ∷ []

run_events-IsSingle_example : IsSingle (run_events buffers psk_key 3 events (new_loop client))
run_events-IsSingle_example = run_events-IsSingle buffers psk_key 3 events client

abbrev before : List Event
before = starts ∷ discovers 0 network ∷ []

abbrev later : List Event
later = receives (connection_max_data 70000 ∷ []) ∷ starts ∷ []

running : (run_events buffers psk_key 3 before (new_loop client)).is_looping ≡ true
unfolding run_events new_loop setup_exchange_rate new_connection new_congestion_controller
    send_test_packet_volley get_next_packet_sequence account_frames same_code match_response
    decrypt_and_deserialize decrypt deserialize handle_control_frames find_best new_rational
    count_digits max_packet_amounts set_maximum_amounts maximum_packet_amount min_long min_longs
    next_amounts lookup
running = refl

run_events-WillLoad_example : WillLoad (
    run_events buffers psk_key 3 later
      (start_loop (run_events buffers psk_key 3 before (new_loop client))))
run_events-WillLoad_example =
    run_events-WillLoad buffers psk_key 3 before later client (inl running) (tt, (tt, tt))

abbrev session : Session
session = record { connection = client; is_done = false; emitted = []; sent = [] }

abbrev calls : List Call
calls = ends_rejected ∷ ends ∷ Calls.destroys none ∷ ends ∷ []

abbrev stream : Stream
stream = record (new_stream 1 false) { total_sent = 40; send_max = 40 }

abbrev waited : List WaitEvent
waited = moved 60 ∷ cleans ∷ moved 100 ∷ ended 100 ∷ []

send_total-receive_total_example :
    (outcome_of (send_total stream 100) waited
      ≡ (if leb 100 40 then some resolved else decides 100 waited))
    × (outcome_of (receive_total stream 100) waited
        ≡ (if leb 100 0 then some resolved else decides 100 waited))
unfolding new_stream
send_total-receive_total_example = send_total-receive_total stream 100 waited refl (omega arith)

abbrev steps : List EndingStep
steps = finals ∷ destroys (some (104 ∷ [])) ∷ calls_back ∷ []

run_steps-once_example :
    (ends_in (run_steps steps (new_ending stream)).emitted ≤ 1)
    × (closes_in (run_steps steps (new_ending stream)).emitted ≤ 1)
    × (((run_steps steps (new_ending stream)).callbacks ≡ 0)
        ⊎ (((call_back (run_steps steps (new_ending stream))).emitted_end ≡ true)
            × ((call_back (run_steps steps (new_ending stream))).emitted_close ≡ true)))
run_steps-once_example = run_steps-once steps stream

abbrev activity : List IdleEvent
activity = bumps 1200 ∷ looks 1900 ∷ bumps 2000 ∷ looks 2200 ∷ []
