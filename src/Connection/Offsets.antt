-- ===== src/Connection/Offsets.antt =====
-- The windows for data: `getOutgoingOffsets`, `getIncomingOffsets`, and what the frames
-- ConnectionMaxData, ConnectionMaxStreamId, StreamMaxMoney and StreamMaxData of `handleControlFrames`
-- change. The send loop that two of them start is not part of the state.
pub mod Windows
use ilp_protocol_stream.Base.{
  ℕ, Bool, ◌+◌, ◌-◌, max, ltb, ◌==◌, not, if◌then◌else◌, List, [], ◌∷◌, Option, none, some, lookup,
  assign,
}
use ilp_protocol_stream.Long.{max_long}
use ilp_protocol_stream.Long.Interface.{max_unsigned}
use ilp_protocol_stream.Stream.{Stream}
use ilp_protocol_stream.Stream.Data.{outgoing_max}
use ilp_protocol_stream.Connection.{Connection}
use ilp_protocol_stream.Connection.Updating.{update_stream}

-- The sums over the streams.
pub record OutgoingOffsets : Type 0 where
  pub current_offset : ℕ
  pub max_offset : ℕ

unfoldable pub get_outgoing_offsets : List (ℕ × Stream) → OutgoingOffsets
get_outgoing_offsets [] = record { current_offset = 0; max_offset = 0 }
get_outgoing_offsets ((_, s) ∷ rest) =
    let sums = get_outgoing_offsets rest in
    record {
      current_offset = s.outgoing_offset + sums.current_offset;
      max_offset = outgoing_max s + sums.max_offset;
    }

-- The bytes that Node's buffer of a readable stream has are a parameter of `getIncomingOffsets`.
pub record IncomingOffsets : Type 0 where
  pub current : ℕ
  pub max_seen : ℕ
  pub buffered : ℕ

incoming_sums : (Stream → ℕ) → List (ℕ × Stream) → IncomingOffsets
incoming_sums readable_length [] = record { current = 0; max_seen = 0; buffered = 0 }
incoming_sums readable_length ((_, s) ∷ rest) =
    let sums = incoming_sums readable_length rest in
    record {
      current = s.incoming_data.read_offset + sums.current;
      max_seen = s.incoming_data.max_offset + sums.max_seen;
      buffered = readable_length s + sums.buffered;
    }

-- `totalReadOffset - totalBufferedData + this.maxBufferedData`; what is buffered was read before.
pub max_acceptable : (Stream → ℕ) → Connection → ℕ
unfolding incoming_sums
max_acceptable readable_length c =
    let sums = incoming_sums readable_length c.streams in
    sums.current + c.max_buffered_data - sums.buffered

-- The test of `handlePrepare` for a peer that exceeds the window.
pub exceeds_window : (Stream → ℕ) → Connection → Bool
unfolding max_acceptable incoming_sums
exceeds_window readable_length c =
    ltb (max_acceptable readable_length c) (incoming_sums readable_length c.streams).max_seen

unfoldable pub handle_connection_max_data : ℕ → Connection → Connection
handle_connection_max_data max_offset c =
    if not (max_offset == c.max_buffered_data)
    then record c { remote_max_offset = max max_offset c.remote_max_offset }
    else record c { remote_max_offset = max_offset }

unfoldable pub handle_connection_max_stream_id : ℕ → Connection → Connection
handle_connection_max_stream_id max_stream_id c = record c { remote_max_stream_id = max_stream_id }

unfoldable pub raise_receive_max : ℕ → ℕ → Stream → Stream
raise_receive_max receive_max total_received s = record s {
  remote_received = max_long s.remote_received total_received;
  remote_receive_max =
      if not (s.remote_receive_max == max_unsigned)
      then max_long s.remote_receive_max receive_max
      else receive_max;
}

unfoldable pub handle_stream_max_money : ℕ → ℕ → ℕ → Connection → Connection
unfolding raise_receive_max
handle_stream_max_money stream_id receive_max total_received c =
    update_stream stream_id (raise_receive_max receive_max total_received) c

unfoldable pub raise_offset : ℕ → Stream → Stream
raise_offset max_offset s =
    if ltb s.remote_max_offset max_offset then record s { remote_max_offset = max_offset } else s

unfoldable pub handle_stream_max_data : ℕ → ℕ → Connection → Connection
unfolding raise_offset
handle_stream_max_data stream_id max_offset c = update_stream stream_id (raise_offset max_offset) c
