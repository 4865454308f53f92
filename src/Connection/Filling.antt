-- ===== src/Connection/Filling.antt =====
-- `loadAndSendPacket` up to the call that sends the packet: the frames of the packet in their order, the
-- data of the streams, and the test that ends the send loop. What Node's buffer of a readable stream
-- has is a parameter.
pub mod Windows
pub mod Shares
pub mod Loop
pub mod Keys
use ilp_protocol_stream.Base.{
  ℕ, ◌+◌, ◌-◌, ltb, leb, ◌==◌, ◌&&◌, ◌||◌, not, if◌then◌else◌, List, [], ◌∷◌, ◌++◌, Option, none,
  some, Bool, true, false, length, Result, ok, throw, ◌>>=◌, no_exchange_rate,
}
use ilp_protocol_stream.Long.Interface.{LongApi}
use ilp_protocol_stream.Oer.{Bytes, OerApi}
use ilp_protocol_stream.Crypto.{encryption_overhead}
use ilp_protocol_stream.Rational.{Rational, complement, multiply_by_long}
use ilp_protocol_stream.Stream.{Stream}
use ilp_protocol_stream.Stream.Data.{Available, get_available_data_to_send, is_data_blocked}
use ilp_protocol_stream.Packet.{
  Frame, Packet, write_frame, serialize, frame_type, connection_close, connection_new_address,
  connection_asset_details, connection_data_blocked, stream_data, stream_data_blocked,
  stream_max_money, stream_max_data,
}
use ilp_protocol_stream.Connection.{Connection, RemoteState}
use ilp_protocol_stream.Connection.Totals.{get_next_packet_sequence}
use ilp_protocol_stream.Connection.Offsets.{get_outgoing_offsets}
use ilp_protocol_stream.Connection.Sending.{Loaded, load_money}

abbrev pub max_data_size : ℕ
max_data_size = 32767

-- The length of Node's buffer for a stream, and the mark from which it takes no more.
pub record Buffers : Type 0 where
  pub readable_length : Stream → ℕ
  pub readable_high_water_mark : ℕ

unfoldable pub account_frames : Connection → List Frame
account_frames c =
    if not c.remote_knows_our_account
    then connection_new_address c.source_account
      ∷ connection_asset_details c.source_asset_code c.source_asset_scale
      ∷ []
    else []

-- `_getIncomingOffsets().maxAcceptable`; what is in the buffer was read before.
pub stream_max_acceptable : Buffers → Stream → ℕ
stream_max_acceptable buffers s =
    s.incoming_data.read_offset + buffers.readable_high_water_mark - buffers.readable_length s

limit_frames : Buffers → List (ℕ × Stream) → List Frame
unfolding stream_max_acceptable
limit_frames buffers [] = []
limit_frames buffers ((_, s) ∷ rest) =
    if not s.closed
    then stream_max_money s.id s.receive_max s.total_received
      ∷ stream_max_data s.id (stream_max_acceptable buffers s)
      ∷ limit_frames buffers rest
    else limit_frames buffers rest

abbrev is_connected_state : RemoteState → Bool
is_connected_state RemoteState.connected = true
is_connected_state _ = false

is_closing : Connection → Bool
is_closing c = c.is_closed && is_connected_state c.remote_state

close_frames : Connection → List Frame
unfolding is_closing
close_frames c = if is_closing c then connection_close 0x01 [] ∷ [] else []

after_close_frames : Connection → Connection
unfolding is_closing
after_close_frames c = record c {
  remote_state = if is_closing c then RemoteState.closed else c.remote_state;
}

pub control_frames : Buffers → Connection → List Frame
unfolding account_frames limit_frames close_frames
control_frames buffers c =
    c.queued_frames ++ (account_frames c ++ (limit_frames buffers c.streams ++ close_frames c))

-- The data of the streams: the frames, the write callbacks that run, and the streams.
pub record Filled : Type 0 where
  pub frames : List Frame
  pub called : List ℕ
  pub streams : List (ℕ × Stream)

data_frames : ℕ → Available → List Frame
data_frames stream_id r = elim r.bytes [
  | none ↦ []
  | some bytes ↦ elim bytes [ [] ↦ [] | b ∷ rest ↦ stream_data stream_id r.offset (b ∷ rest) ∷ [] ]
]

data_blocked_frames : Stream → List Frame
data_blocked_frames s = elim (is_data_blocked s) [
  | none ↦ []
  | some max_offset ↦ stream_data_blocked s.id max_offset ∷ []
]

module _ ⦃oer : OerApi⦄ where
  frames_length : List Frame → ℕ
  frames_length [] = 0
  frames_length (f ∷ rest) = length (write_frame f) + frames_length rest

  packet_byte_length : Packet → ℕ
  packet_byte_length p = length (serialize p) + encryption_overhead

  -- The bytes left, where the source can go below 0: that ends the loop as 0 does.
  pub fill_streams : ℕ → List (ℕ × Stream) → Filled
  unfolding data_frames data_blocked_frames frames_length
  fill_streams left [] = record { frames = []; called = []; streams = [] }
  fill_streams left ((k, s) ∷ rest) =
      let r = get_available_data_to_send s (left - 20) in
      let frames = data_frames s.id r in
      let more = fill_streams (left - frames_length frames) rest in
      if leb left 20 then record { frames = []; called = []; streams = (k, s) ∷ rest } else record {
        frames = frames ++ (data_blocked_frames r.stream ++ more.frames);
        called = r.called ++ more.called;
        streams = (k, r.stream) ∷ more.streams;
      }

  -- The test for a connection that is blocked, as sums, since the source's differences can be negative.
  is_window_smaller : Packet → Connection → Bool
  unfolding packet_byte_length
  is_window_smaller p c =
      ltb (packet_byte_length p + c.remote_max_offset)
        (max_data_size + (get_outgoing_offsets c.streams).current_offset)

  bytes_left : Packet → Connection → ℕ
  unfolding is_window_smaller packet_byte_length
  bytes_left p c =
      if is_window_smaller p c
      then c.remote_max_offset - (get_outgoing_offsets c.streams).current_offset
      else max_data_size - packet_byte_length p

  -- The data part of the packet, behind the frames that it has already.
  pub fill_data : Packet → Connection → Filled
  unfolding is_window_smaller bytes_left fill_streams
  fill_data p c =
      let filled = fill_streams (bytes_left p c) c.streams in
      let outgoing_max_offset = (get_outgoing_offsets c.streams).max_offset in
      record filled {
        frames =
            (if is_window_smaller p c then connection_data_blocked outgoing_max_offset ∷ [] else [])
            ++ filled.frames;
      }

-- The frames that keep the send loop going: StreamClose, StreamData and StreamMoney.
pub keeps_sending : List Frame → Bool
keeps_sending [] = false
keeps_sending (f ∷ rest) =
    (frame_type f == 0x10) || (frame_type f == 0x14) || (frame_type f == 0x11) || keeps_sending rest

abbrev has_no_frames : List Frame → Bool
has_no_frames [] = true
has_no_frames (f ∷ rest) = false

-- `this.sending` behind "Check if we can stop sending".
pub is_still_sending : Bool → ℕ → List Frame → Bool
unfolding keeps_sending
is_still_sending sending amount frames =
    if amount == 0 then sending && keeps_sending frames else sending

-- A packet to send, with what the handling of its response needs, or nothing to send.
pub data Prepared : Type 0 where
  nothing : Connection → Prepared
  packet :
      (p : Packet) (amount_to_send : ℕ) (sent_from : List ℕ) (called : List ℕ)
      → Connection
      → Prepared

module _ ⦃api : LongApi⦄ where
  -- The amount that the receiver has to get: the exchange rate less the slippage.
  pub minimum_destination_amount : Rational → Rational → ℕ → Result ℕ
  minimum_destination_amount slippage rate amount = do
    rest ← complement slippage
    destination ← multiply_by_long rate amount
    multiply_by_long rest destination

module _ ⦃api : LongApi⦄ ⦃oer : OerApi⦄ where
  -- What is left once the money is loaded.
  fill_packet : Rational → Packet → Loaded → Connection → Result Prepared
  unfolding fill_data is_still_sending minimum_destination_amount
  fill_packet rate p l c =
      let filled = fill_data p c in
      let frames = p.frames ++ filled.frames in
      let sending = is_still_sending c.sending l.amount_to_send frames in
      let d = record c { streams = filled.streams; sending = sending } in
      if (l.amount_to_send == 0) && has_no_frames frames then ok (nothing d) else (do
        minimum ← minimum_destination_amount c.slippage rate l.amount_to_send
        ok (
            packet (record p { frames = frames; prepare_amount = minimum }) l.amount_to_send
              l.sent_from filled.called d))

  -- `this.exchangeRate!` throws where there is none.
  load_at : Option Rational → Buffers → ℕ → Connection → Result Prepared
  unfolding fill_packet after_close_frames
  load_at none buffers sequence c = throw no_exchange_rate
  load_at (some rate) buffers sequence c = do
    let d = after_close_frames (record c { queued_frames = [] })
    l ← load_money sequence rate d
    let start : Packet = record {
      sequence = sequence;
      ilp_packet_type = 12;
      prepare_amount = 0;
      frames = control_frames buffers c ++ l.frames;
    }
    fill_packet rate start l (record d { streams = l.streams })

  pub load_packet : Buffers → Connection → Result Prepared
  unfolding load_at
  load_packet buffers c = do
    (sequence, d) ← get_next_packet_sequence c
    load_at d.exchange_rate buffers sequence d
