-- ===== src/Connection/Offsets/Windows.antt =====
-- How the peer's announcements move the windows.
use ilp_protocol_stream.Base.{
  ℕ, ◌⊎◌, ◌≤◌, ◌<◌, ◌≡◌, inl, inr, ltb, ◌==◌, some, lookup, Bool-cases, arith,
}
use ilp_protocol_stream.Long.Bounds.{max_long-max}
use ilp_protocol_stream.Long.Interface.{max_unsigned}
use ilp_protocol_stream.Stream.{Stream}
use ilp_protocol_stream.Connection.{Connection}
use ilp_protocol_stream.Connection.Updating.{update_stream, lookup-update}
use ilp_protocol_stream.Connection.Offsets.{
  handle_connection_max_data, handle_stream_max_money, handle_stream_max_data, raise_receive_max,
  raise_offset,
}

-- While the peer's window is the one assumed at first, the connection's own buffer size, a smaller
-- window that the peer announces is not heeded.
pub handle_connection_max_data-smaller :
    (max_offset : ℕ) (c : Connection)
    → c.remote_max_offset ≡ c.max_buffered_data
    → max_offset < c.max_buffered_data
    → (handle_connection_max_data max_offset c).remote_max_offset ≡ c.max_buffered_data
unfolding handle_connection_max_data
handle_connection_max_data-smaller max_offset c assumed small = ground arith

-- A peer's announcements of a stream's windows, in any order: the bytes and the amount received never
-- shrink, and the amount that the stream may send to it never shrinks either once one is told.
pub record Grows (s t : Stream) : Type 0 where
  pub offset : s.remote_max_offset ≤ t.remote_max_offset
  pub received : s.remote_received ≤ t.remote_received
  pub limit : (s.remote_receive_max ≡ max_unsigned) ⊎ (s.remote_receive_max ≤ t.remote_receive_max)

raise_receive_max-Grows : (m r : ℕ) (s : Stream) → Grows s (raise_receive_max m r s)
unfolding raise_receive_max
raise_receive_max-Grows m r s = record {
  offset = omega arith;
  received = omega (arith, max_long-max s.remote_received r);
  limit = ground (arith, max_long-max s.remote_receive_max m);
}

raise_offset-Grows : (m : ℕ) (s : Stream) → Grows s (raise_offset m s)
unfolding raise_offset
raise_offset-Grows m s = elim (Bool-cases (ltb s.remote_max_offset m)) [
  | inl e ↦
      rw e (record { offset = ground arith; received = omega arith; limit = inr (omega arith) })
  | inr e ↦
      rw e (record { offset = omega arith; received = omega arith; limit = inr (omega arith) })
]

-- The frames by which the peer announces what a stream can receive there.
pub data Announcement : Type 0 where
  money : (stream_id receive_max total_received : ℕ) → Announcement
  bytes : (stream_id max_offset : ℕ) → Announcement

pub announce : Announcement → Connection → Connection
announce (money i m r) c = handle_stream_max_money i m r c
announce (bytes i m) c = handle_stream_max_data i m c

same-Grows : (s : Stream) → Grows s s
same-Grows s = record { offset = omega arith; received = omega arith; limit = inr (omega arith) }

update-Grows :
    (k i : ℕ) (f : Stream → Stream) (c : Connection) (s : Stream)
    → ((s : Stream) → Grows s (f s))
    → lookup k c.streams ≡ some s
    → (t : Stream) × (lookup k (update_stream i f c).streams ≡ some t) × Grows s t
update-Grows k i f c s grow found = elim (Bool-cases (i == k)) [
  | inl e ↦ (f s, rw (lookup-update k i f c, found, e), grow s)
  | inr e ↦ (s, rw (lookup-update k i f c, found, e), same-Grows s)
]

-- Whatever the peer announces, and for whichever stream: of each stream of the connection, the
-- byte offset that it may send up to and the amount that the peer has received never shrink, and
-- neither does the amount that the peer receives at most, once it is below 2 ^ 64 - 1.
pub announce-Grows :
    (a : Announcement) (k : ℕ) (c : Connection) (s : Stream)
    → lookup k c.streams ≡ some s
    → (t : Stream) × (lookup k (announce a c).streams ≡ some t) × Grows s t
unfolding announce handle_stream_max_money handle_stream_max_data
announce-Grows (money i m r) k c s found =
    update-Grows k i (raise_receive_max m r) c s (raise_receive_max-Grows m r) found
announce-Grows (bytes i m) k c s found =
    update-Grows k i (raise_offset m) c s (raise_offset-Grows m) found
