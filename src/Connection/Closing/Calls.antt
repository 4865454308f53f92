-- ===== src/Connection/Closing/Calls.antt =====
-- Several calls of `end` and `destroy`, one behind the other and one during the other.
use ilp_protocol_stream.Base.{
  ℕ, ◌+◌, ◌≤◌, ◌≡◌, refl, List, [], ◌∷◌, ◌++◌, length, Option, some, Bool, true, false,
}
use ilp_protocol_stream.Connection.SendLoop.{is_remote_closed}
use ilp_protocol_stream.Connection.Closing.{
  error_event, close_event, Session, CloseError, close_packet, start_close, finish_close,
  stop_timers, emit, destroyed_streams, start_destroy, finish_destroy, destroy, start_end,
  close_end,
}

-- An `end` completes, or an 'error' that is emitted while it waits rejects it.
pub data Call : Type 0 where
  destroys : Option CloseError → Call
  ends ends_rejected : Call

-- Calls that do not overlap.
pub run_call : Call → Session → Session
run_call (destroys err) s = destroy err s
run_call ends s = close_end (start_end s)
run_call ends_rejected s = start_end s

pub run_calls : List Call → Session → Session
unfolding run_call
run_calls [] s = s
run_calls (k ∷ rest) s = run_calls rest (run_call k s)

pub run_destroys : List (Option CloseError) → Session → Session
run_destroys [] s = s
run_destroys (err ∷ rest) s = run_destroys rest (destroy err s)

-- How many close packets a session may still send.
abbrev left_where : Bool → ℕ
left_where true = 0
left_where false = 1

abbrev left : Session → ℕ
left s = left_where (is_remote_closed s.connection.remote_state)

-- The calls that run to their end.
abbrev pub Completes : Call → Type 0
Completes (destroys err) = Unit {0}
Completes ends = Unit {0}
Completes ends_rejected = ⊥

-- A call that completes leaves nothing to send, and the connection done.
record Ended (s t : Session) : Type 0 where
  sent : length t.sent + left t ≤ length s.sent + left s
  done : t.is_done ≡ true

-- A call of `destroy` with an error, while another one with an error waits for its packet to be sent,
-- on a connection that is not closed: the peer is sent both errors, with two numbers, and an 'error' is
-- emitted in both calls and a 'close' in both.
pub destroy_overlapping :
    (first second : CloseError) (s : Session)
    → is_remote_closed s.connection.remote_state ≡ false
    → s.is_done ≡ false
    → (let one = start_destroy (some first) s in
        let last = finish_destroy (finish_destroy (start_destroy (some second) one)) in
        let begun = error_event ∷ destroyed_streams s.connection.streams in
        let n = s.connection.next_packet_sequence in
        (one.is_done ≡ false)
        × (last.emitted ≡ (((s.emitted ++ begun) ++ begun) ++ close_event ∷ []) ++ close_event ∷ [])
        × (last.sent
            ≡ (s.sent ++ close_packet (some first) s.connection ∷ [])
              ++ record (close_packet (some second) s.connection) { sequence = n + 1 } ∷ []))
unfolding start_destroy finish_destroy finish_close stop_timers emit start_close destroyed_streams
    close_packet
destroy_overlapping first second s open_peer fresh =
    rw (open_peer, start_destroy, open_peer) (fresh, refl, refl)
