-- ===== src/Connection/Totals.antt =====
-- The totals of a connection: `addIncomingHold` and the methods behind it, and `getNextPacketSequence`.
-- A call that throws also destroys the connection, which is outside this state.
pub mod Holding
use ilp_protocol_stream.Base.{
  ℕ, zero, suc, ◌+◌, ◌^◌, leb, if◌then◌else◌, Result, ok, throw, ◌>>=◌, total_overflow,
  too_many_packets,
}
use ilp_protocol_stream.Long.{checked_add, checked_subtract}
use ilp_protocol_stream.Long.Interface.{LongApi}
use ilp_protocol_stream.Connection.{Connection}

module _ ⦃api : LongApi⦄ where
  pub add_incoming_hold : ℕ → Connection → Result Connection
  add_incoming_hold value c =
      let result = checked_add c.total_received c.incoming_hold in
      let result' = checked_add result.value value in
      if result'.wrapped
      then throw total_overflow
      else ok (record c { incoming_hold = result'.value })

  pub remove_incoming_hold : ℕ → Connection → Connection
  remove_incoming_hold value c = record c {
    incoming_hold = (checked_subtract c.incoming_hold value).value;
  }

  unfoldable pub add_total_received : ℕ → Connection → Connection
  add_total_received value c = record c {
    total_received = (checked_add c.total_received value).value;
  }

  unfoldable pub add_total_sent : ℕ → Connection → Result Connection
  add_total_sent value c =
      let result = checked_add c.total_sent value in
      if result.wrapped then throw total_overflow else ok (record c { total_sent = result.value })

  unfoldable pub add_total_delivered : ℕ → Connection → Result Connection
  add_total_delivered value c =
      let result = checked_add c.total_delivered value in
      if result.wrapped
      then throw total_overflow
      else ok (record c { total_delivered = result.value })

  -- What `handlePrepare` does to the hold and the total for a packet that it fulfills: the hold before
  -- the application is asked, and its removal and the total at the end.
  pub receive_packet : ℕ → Connection → Result Connection
  unfolding add_incoming_hold remove_incoming_hold add_total_received
  receive_packet value c = do
    held ← add_incoming_hold value c
    ok (add_total_received value (remove_incoming_hold value held))

  pub receive_packets : ℕ → ℕ → Connection → Result Connection
  unfolding receive_packet
  receive_packets zero value c = ok c
  receive_packets (suc n) value c = receive_packet value c >>= receive_packets n value

-- The sequence number, and the connection behind the call. The call that throws destroys the connection.
unfoldable pub get_next_packet_sequence : Connection → Result (ℕ × Connection)
get_next_packet_sequence c =
    if leb (2 ^ 31) c.next_packet_sequence
    then throw too_many_packets
    else ok (c.next_packet_sequence, record c { next_packet_sequence = c.next_packet_sequence + 1 })
