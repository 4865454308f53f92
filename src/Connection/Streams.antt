-- ===== src/Connection/Streams.antt =====
-- The streams of a connection: `createStream`, `handleNewStream` and `removeStreamRecord`. The events
-- that they emit and the send loop that they start are not part of the state. A call that throws may
-- queue a frame first, so an outcome has the connection in any case.
pub mod Identifiers
pub mod Opening
pub mod Fresh
pub mod Same
use ilp_protocol_stream.Base.{
  ℕ, ◌≡◌, ◌+◌, ◌*◌, ◌%◌, ltb, ◌==◌, if◌then◌else◌, not, ◌&&◌, ◌||◌, List, [], ◌∷◌, ◌++◌, Option,
  none, some, Bool, true, false, lookup, assign, remove, Error, no_stream_left, wrong_parity,
  too_many_streams,
}
use ilp_protocol_stream.Stream
use ilp_protocol_stream.Stream.{Stream}
use ilp_protocol_stream.Packet.{
  Frame, connection_close, connection_max_stream_id, connection_stream_id_blocked, stream_close,
}
use ilp_protocol_stream.Connection.{Connection}

-- What a handler leaves: the connection, and what it threw, if it did.
pub record Outcome : Type 0 where
  pub connection : Connection
  pub thrown : Option Error

pub done : Connection → Outcome
done c = record { connection = c; thrown = none }

queue : Frame → Connection → Connection
queue frame c = record c { queued_frames = c.queued_frames ++ frame ∷ [] }

add_stream : ℕ → Connection → Connection
add_stream stream_id c = record c {
  streams = assign stream_id (Stream.new_stream stream_id c.is_server) c.streams;
}

pub member : ℕ → List ℕ → Bool
member k [] = false
member k (x ∷ xs) = (x == k) || member k xs

abbrev pub has : Option Stream → Bool
has none = false
has (some s) = true

unfoldable pub create_stream : Connection → Outcome
unfolding queue add_stream done
create_stream c =
    if ltb c.remote_max_stream_id c.next_stream_id
    then record {
      connection = queue (connection_stream_id_blocked c.next_stream_id) c;
      thrown = some no_stream_left;
    }
    else done (record (add_stream c.next_stream_id c) { next_stream_id = c.next_stream_id + 2 })

-- Numbers of the enumeration ErrorCode.
abbrev no_error : ℕ
no_error = 0x01

abbrev stream_id_error : ℕ
stream_id_error = 0x05

abbrev protocol_violation : ℕ
protocol_violation = 0x08

abbrev application_error : ℕ
application_error = 0x09

pub is_known : ℕ → Connection → Bool
unfolding member
is_known stream_id c = has (lookup stream_id c.streams) || member stream_id c.closed_streams

-- The texts of the error messages, for the stream and, in the last one, the largest stream allowed.
pub record Texts : Type 0 where
  pub must_be_odd : ℕ → List ℕ
  pub must_be_even : ℕ → List ℕ
  pub limit_exceeded : ℕ → ℕ → List ℕ

refuse : Frame → Error → Connection → Outcome
unfolding queue
refuse frame e c = record { connection = queue frame c; thrown = some e }

-- `this.maxStreamId * .75 < streamId`, then the new stream.
accept_stream : ℕ → Connection → Connection
unfolding queue add_stream
accept_stream stream_id c =
    let warned =
      if ltb (3 * c.max_stream_id) (4 * stream_id)
      then queue (connection_max_stream_id c.max_stream_id) c
      else c in
    add_stream stream_id warned

pub handle_new_stream : Texts → ℕ → Connection → Outcome
unfolding is_known refuse accept_stream done
handle_new_stream texts stream_id c =
    if is_known stream_id c
    then done c
    else if c.is_server && (stream_id % 2 == 0)
    then refuse (connection_close protocol_violation (texts.must_be_odd stream_id)) wrong_parity c
    else if not c.is_server && (stream_id % 2 == 1)
    then refuse (connection_close protocol_violation (texts.must_be_even stream_id)) wrong_parity c
    else if ltb c.max_stream_id stream_id
    then refuse (connection_close stream_id_error (texts.limit_exceeded stream_id c.max_stream_id))
        too_many_streams c
    else done (accept_stream stream_id c)

-- The frame for a message, of which the empty one counts as none.
stream_end_frame : ℕ → Option (List ℕ) → Frame
stream_end_frame stream_id none = stream_close stream_id no_error []
stream_end_frame stream_id (some []) = stream_close stream_id no_error []
stream_end_frame stream_id (some (x ∷ xs)) = stream_close stream_id application_error (x ∷ xs)

-- The connection, and the stream object, which its owner still has.
pub remove_stream_record : Stream → Connection → Connection × Stream
unfolding queue stream_end_frame
remove_stream_record s c =
    let closed = record c {
      streams = remove s.id c.streams;
      closed_streams = s.id ∷ c.closed_streams;
    } in
    if s.sent_end
    then (closed, s)
    else (queue (stream_end_frame s.id s.error_message) closed, record s { sent_end = true })
