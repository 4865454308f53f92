-- ===== src/Connection/Closing.antt =====
-- `sendConnectionClose`, `stopTimers`, `end` and `destroy`: the end of a connection. The code between two
-- awaits is a function; events and the calls of streams' methods are recorded in their order.
pub mod Calls
use ilp_protocol_stream.Base.{
  ℕ, ◌+◌, if◌then◌else◌, List, [], ◌∷◌, ◌++◌, Option, none, some, Bool, true, false, not,
}
use ilp_protocol_stream.Oer.{Bytes}
use ilp_protocol_stream.Stream.{Stream}
use ilp_protocol_stream.Packet.{Packet, connection_close}
use ilp_protocol_stream.Connection.{Connection, RemoteState}
use ilp_protocol_stream.Connection.SendLoop.{is_remote_closed}

pub data Emitted : Type 0 where
  error_event end_event close_event : Emitted
  ended_stream destroyed_stream : ℕ → Emitted

-- `done` of the source is `is_done`; `sent` are the packets with which the connection told its end.
pub record Session : Type 0 where
  pub connection : Connection
  pub is_done : Bool
  pub emitted : List Emitted
  pub sent : List Packet

-- A ConnectionError has a code; any other error has only a message.
pub data CloseError : Type 0 where
  connection_error : (code : ℕ) (message : Bytes) → CloseError
  other_error : (message : Bytes) → CloseError

error_code : Option CloseError → ℕ
error_code none = 0x01
error_code (some (connection_error code message)) = code
error_code (some (other_error message)) = 0x02

error_message : Option CloseError → Bytes
error_message none = []
error_message (some (connection_error code message)) = message
error_message (some (other_error message)) = message

pub close_packet : Option CloseError → Connection → Packet
unfolding error_code error_message
close_packet err c = record {
  sequence = c.next_packet_sequence;
  ilp_packet_type = 12;
  prepare_amount = 0;
  frames = connection_close (error_code err) (error_message err) ∷ [];
}

-- `sendConnectionClose` up to the sending of its packet. It takes the next number without a test.
pub start_close : Option CloseError → Session → Session
unfolding close_packet
start_close err s = if is_remote_closed s.connection.remote_state then s else record s {
  connection = record s.connection { next_packet_sequence = s.connection.next_packet_sequence + 1 };
  sent = s.sent ++ close_packet err s.connection ∷ [];
}

-- The rest of it, whether the packet could be sent or not. It changes nothing where none was sent.
pub finish_close : Session → Session
finish_close s = record s { connection = record s.connection { remote_state = RemoteState.closed } }

pub stop_timers : Session → Session
stop_timers s = record s { is_done = true }

emit : List Emitted → Session → Session
emit events s = record s { emitted = s.emitted ++ events }

pub destroyed_streams : List (ℕ × Stream) → List Emitted
destroyed_streams [] = []
destroyed_streams ((k, s) ∷ rest) = destroyed_stream s.id ∷ destroyed_streams rest

ended_streams : List (ℕ × Stream) → List Emitted
ended_streams [] = []
ended_streams ((k, s) ∷ rest) =
    let others = ended_streams rest in if not s.closed then ended_stream s.id ∷ others else others

abbrev error_events : Option CloseError → List Emitted
error_events none = []
error_events (some err) = error_event ∷ []

-- 'Connection destroyed'
abbrev destroyed_message : Bytes
destroyed_message =
    67 ∷ 111 ∷ 110 ∷ 110 ∷ 101 ∷ 99 ∷ 116 ∷ 105 ∷ 111 ∷ 110 ∷ 32 ∷ 100 ∷ 101 ∷ 115 ∷ 116 ∷ 114 ∷ 111
    ∷ 121 ∷ 101 ∷ 100 ∷ []

abbrev error_or_destroyed : Option CloseError → CloseError
error_or_destroyed none = connection_error 0x09 destroyed_message
error_or_destroyed (some err) = err

-- `destroy` up to where it waits, for a connection that is not done.
pub start_destroy : Option CloseError → Session → Session
unfolding start_close emit destroyed_streams
start_destroy err s =
    start_close (some (error_or_destroyed err))
      (emit (error_events err ++ destroyed_streams s.connection.streams) s)

-- The rest of it, once the packet is sent and the streams are closed.
pub finish_destroy : Session → Session
unfolding finish_close stop_timers emit
finish_destroy s = stop_timers (emit (close_event ∷ []) (finish_close s))

-- A `destroy` that nothing happens in the middle of.
pub destroy : Option CloseError → Session → Session
unfolding start_destroy finish_destroy
destroy err s = if s.is_done then s else finish_destroy (start_destroy err s)

-- `end`: its start, and what follows once the send loop has finished and the streams have ended.
pub start_end : Session → Session
unfolding emit ended_streams
start_end s = emit (ended_streams s.connection.streams) s

pub close_end : Session → Session
unfolding start_close finish_close stop_timers emit
close_end s =
    let closed = record s { connection = record s.connection { is_closed = true } } in
    stop_timers (emit (end_event ∷ close_event ∷ []) (finish_close (start_close none closed)))
