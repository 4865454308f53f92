-- ===== src/Stream/Money/Limits.antt =====
-- What the receive limit and the send limit of a stream allow.
use ilp_protocol_stream.Base.{
  ℕ, ◌+◌, ◌-◌, ◌≤◌, ◌<◌, ◌≡◌, ◌⊎◌, true, false, ok, throw, stream_closed, send_max_below_total_sent,
  receive_max_below_total_received, receive_max_decreased, arith,
}
use ilp_protocol_stream.Long.{checked_add}
use ilp_protocol_stream.Long.Bounds.{checked_subtract-ge, checked_add_lem}
use ilp_protocol_stream.Long.Interface.{LongApi, IsLong}
use ilp_protocol_stream.Stream.{Stream}
use ilp_protocol_stream.Stream.Money.{
  set_send_max, set_receive_max, get_amount_stream_can_receive, add_to_incoming,
}

-- The send limit of an open stream can be set to exactly the amounts that are not below what was
-- sent; it becomes the limit, and nothing else changes. A closed stream refuses every limit.
pub set_send_max_lem :
    (s : Stream) (limit : ℕ)
    → ((s.closed ≡ true) × (set_send_max s limit ≡ throw stream_closed))
      ⊎ ((s.closed ≡ false)
          × (limit < s.total_sent)
          × (set_send_max s limit ≡ throw send_max_below_total_sent))
      ⊎ ((s.closed ≡ false)
          × (s.total_sent ≤ limit)
          × (set_send_max s limit ≡ ok (record s { send_max = limit })))
unfolding set_send_max
set_send_max_lem s limit = ground arith

-- The receive limit only rises: a call that succeeds was made on an open stream, sets the limit it
-- was given, which is neither below the old one nor below what was received, and changes nothing
-- else; any other call throws.
pub set_receive_max_lem :
    (s : Stream) (limit : ℕ)
    → ((s.closed ≡ true) × (set_receive_max s limit ≡ throw stream_closed))
      ⊎ ((s.closed ≡ false)
          × (limit < s.total_received)
          × (set_receive_max s limit ≡ throw receive_max_below_total_received))
      ⊎ ((s.closed ≡ false)
          × (s.total_received ≤ limit)
          × (limit < s.receive_max)
          × (set_receive_max s limit ≡ throw receive_max_decreased))
      ⊎ ((s.closed ≡ false)
          × (s.total_received ≤ limit)
          × (s.receive_max ≤ limit)
          × (set_receive_max s limit ≡ ok (record s { receive_max = limit })))
unfolding set_receive_max
set_receive_max_lem s limit = ground arith

module _ ⦃api : LongApi⦄ where
  pub can_receive :
      (s : Stream)
      → IsLong s.receive_max
      → get_amount_stream_can_receive s ≡ s.receive_max - s.total_received
  unfolding get_amount_stream_can_receive
  can_receive s h = ground (arith, checked_subtract-ge s.receive_max s.total_received h)

  -- A stream within its receive limit, a Long, that takes in no more than it says it can receive
  -- stays within that limit, with an exact total, and can then receive exactly that much less.
  pub add_to_incoming_lem :
      (s : Stream) (amount : ℕ)
      → IsLong s.receive_max
      → s.total_received ≤ s.receive_max
      → amount ≤ get_amount_stream_can_receive s
      → let t = add_to_incoming s amount in
        (t.total_received ≡ s.total_received + amount)
        × (t.total_received ≤ s.receive_max)
        × (get_amount_stream_can_receive s ≡ get_amount_stream_can_receive t + amount)
  unfolding add_to_incoming
  add_to_incoming_lem s amount h le fits =
      let room = can_receive s h in
      let sum : (checked_add s.total_received amount).value ≡ s.total_received + amount =
        ground (arith, checked_add_lem s.total_received amount, room) in
      let after = can_receive (add_to_incoming s amount) h in
      (sum, omega (arith, sum, room), omega (arith, sum, room, after))
