-- ===== src/Connection/Filling/Windows.antt =====
-- The data of a packet against the window of the connection.
use ilp_protocol_stream.Base.{
  ℕ, ◌+◌, ◌-◌, ◌≤◌, inl, inr, ltb, leb, ltb→ge, max, Bool-cases, List, [], ◌∷◌, Option, none, some,
  length, arith,
}
use ilp_protocol_stream.Oer.{OerApi}
use ilp_protocol_stream.DataQueue.Contents.{IsCounted}
use ilp_protocol_stream.Stream.{Stream}
use ilp_protocol_stream.Stream.Data.{get_available_data_to_send}
use ilp_protocol_stream.Stream.Data.Pending.{taken_bytes, get_available-Sends, get_available-offset}
use ilp_protocol_stream.Packet.{Packet}
use ilp_protocol_stream.Packet.RoundTrip.{length-write_stream_data}
use ilp_protocol_stream.Connection.{Connection}
use ilp_protocol_stream.Connection.Offsets.{get_outgoing_offsets}
use ilp_protocol_stream.Connection.Filling.{
  data_frames, frames_length, fill_streams, is_window_smaller, max_data_size, bytes_left, fill_data,
  packet_byte_length,
}

-- The queues of all streams count their chunks.
abbrev pub AllCounted : List (ℕ × Stream) → Type 0
AllCounted [] = Unit {0}
AllCounted ((_, s) ∷ rest) = IsCounted s.outgoing_data × AllCounted rest

module _ ⦃oer : OerApi⦄ where
  taken-covered :
      (i o : ℕ) (bytes : Option (List ℕ)) (called : List ℕ) (s : Stream)
      → length (taken_bytes bytes)
        ≤ frames_length
            (data_frames i (record { bytes = bytes; offset = o; called = called; stream = s }))
  unfolding frames_length data_frames
  taken-covered i o none called s = omega arith
  taken-covered i o (some []) called s = omega arith
  taken-covered i o (some (b ∷ bytes)) called s =
      omega (arith, length-write_stream_data i o (b ∷ bytes))

  fill_streams-current :
      (left : ℕ) (streams : List (ℕ × Stream))
      → AllCounted streams
      → (get_outgoing_offsets (fill_streams left streams).streams).current_offset
        ≤ (get_outgoing_offsets streams).current_offset + left
  unfolding fill_streams get_outgoing_offsets
  fill_streams-current left [] counted = omega arith
  fill_streams-current left ((k, s) ∷ rest) (w, counted) =
      let r = get_available_data_to_send s (left - 20) in
      let later = fill_streams-current (left - frames_length (data_frames s.id r)) rest counted in
      let (_, small, _, _) = get_available-Sends s (left - 20) w in
      let moved = get_available-offset s (left - 20) in
      let cover = taken-covered s.id r.offset r.bytes r.called r.stream in
      elim (Bool-cases (leb left 20)) [
        | inl stop ↦ rw stop (omega arith)
        | inr go ↦ rw go (omega (arith, later, small, moved, cover))
      ]

  -- Where the queues count right, the data of a packet does not take what was sent past the peer's
  -- window for the connection: the offsets of all streams together stay at or below the peer's
  -- limit, or where they were if that is already above it. This holds for data that is sent for
  -- the first time; data that is sent again moves no offset.
  pub fill_data-window :
      (p : Packet) (c : Connection)
      → AllCounted c.streams
      → (get_outgoing_offsets (fill_data p c).streams).current_offset
        ≤ max c.remote_max_offset (get_outgoing_offsets c.streams).current_offset
  unfolding fill_data bytes_left is_window_smaller
  fill_data-window p c counted =
      let current = (get_outgoing_offsets c.streams).current_offset in
      let size = packet_byte_length p in
      elim (Bool-cases (ltb (size + c.remote_max_offset) (max_data_size + current))) [
        | inl less ↦
            let grown = fill_streams-current (c.remote_max_offset - current) c.streams counted in
            rw less (omega (arith, grown))
        | inr more ↦
            let grown = fill_streams-current (max_data_size - size) c.streams counted in
            let room = ltb→ge (size + c.remote_max_offset) (max_data_size + current) more in
            rw more (omega (arith, grown, room))
      ]
