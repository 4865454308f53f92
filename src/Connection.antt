-- ===== src/Connection.antt =====
-- connection.ts: the state of a Connection that its handlers of streams, packets and totals read and
-- write, and its constructor. Amounts are values of unsigned Longs, sequence numbers and offsets are
-- numbers.
pub mod Updating
pub mod Totals
pub mod Shares
pub mod Streams
pub mod Rejects
pub mod Offsets
pub mod Sending
pub mod Filling
pub mod Control
pub mod Prepare
pub mod Responses
pub mod Discovery
pub mod SendLoop
pub mod Closing
pub mod Idle
pub mod Reaching
use ilp_protocol_stream.Base.{
  ℕ, ◌+◌, ◌*◌, List, [], Option, none, some, Bool, true, false, not, if◌then◌else◌, ltb, ◌==◌,
  Result, ok, throw, guard, ◌>>◌, above_one, receipt_incomplete,
}
use ilp_protocol_stream.Long.Interface.{max_unsigned}
use ilp_protocol_stream.Oer.{Bytes}
use ilp_protocol_stream.Rational.{Rational, greater_than_one}
use ilp_protocol_stream.Stream.{Stream}
use ilp_protocol_stream.Packet.{Frame}
use ilp_protocol_stream.Congestion.{CongestionController, new_congestion_controller}

pub data RemoteState : Type 0 where
  init connected closed : RemoteState

pub record Connection : Type 0 where
  pub is_server : Bool
  pub source_account : Bytes
  pub source_asset_code : Bytes
  pub source_asset_scale : ℕ
  pub destination_account : Option Bytes
  pub destination_asset : Option (Bytes × ℕ)
  pub slippage : Rational
  pub allowable_receive_extra : Rational
  pub receipt_nonce : Option Bytes
  pub receipt_secret : Option Bytes
  pub exchange_rate : Option Rational
  pub last_packet_exchange_rate : Rational
  pub next_packet_sequence : ℕ
  pub streams : List (ℕ × Stream)
  pub closed_streams : List ℕ
  pub next_stream_id : ℕ
  pub max_stream_id : ℕ
  pub remote_max_stream_id : ℕ
  pub sending : Bool
  pub is_connected : Bool
  pub is_closed : Bool
  pub remote_state : RemoteState
  pub remote_knows_our_account : Bool
  pub congestion : CongestionController
  pub retry_delay : ℕ
  pub queued_frames : List Frame
  pub max_buffered_data : ℕ
  pub remote_max_offset : ℕ
  pub incoming_hold : ℕ
  pub total_received : ℕ
  pub total_sent : ℕ
  pub total_delivered : ℕ

abbrev pub retry_delay_start : ℕ
retry_delay_start = 100

abbrev pub retry_delay_max : ℕ
retry_delay_max = 43200000

-- The options of the constructor, with the defaults filled in (10 streams of the peer, a buffer of
-- 65534 bytes). The fractions are what `Rational.fromNumber` makes of its numbers.
pub record Options : Type 0 where
  pub is_server : Bool
  pub source_account : Bytes
  pub asset_code : Bytes
  pub asset_scale : ℕ
  pub destination_account : Option Bytes
  pub slippage : Rational
  pub allowable_receive_extra : Rational
  pub exchange_rate : Option Rational
  pub receipt_nonce : Option Bytes
  pub receipt_secret : Option Bytes
  pub max_remote_streams : ℕ
  pub connection_buffer_size : ℕ
  pub maximum_packet_amount : Option ℕ

-- The state that the constructor sets up.
unfoldable pub new_connection : Options → Connection
new_connection opts = record {
  is_server = opts.is_server;
  source_account = opts.source_account;
  source_asset_code = opts.asset_code;
  source_asset_scale = opts.asset_scale;
  destination_account = opts.destination_account;
  destination_asset = none;
  slippage = opts.slippage;
  allowable_receive_extra = opts.allowable_receive_extra;
  receipt_nonce = opts.receipt_nonce;
  receipt_secret = opts.receipt_secret;
  exchange_rate = opts.exchange_rate;
  last_packet_exchange_rate = record { a = 0; b = 1 };
  next_packet_sequence = 1;
  streams = [];
  closed_streams = [];
  next_stream_id = if opts.is_server then 2 else 1;
  max_stream_id = 2 * opts.max_remote_streams;
  remote_max_stream_id = 2 * 10;
  sending = false;
  is_connected = false;
  is_closed = true;
  remote_state = RemoteState.init;
  remote_knows_our_account = opts.is_server;
  congestion = new_congestion_controller opts.maximum_packet_amount;
  retry_delay = retry_delay_start;
  queued_frames = [];
  max_buffered_data = opts.connection_buffer_size;
  remote_max_offset = opts.connection_buffer_size;
  incoming_hold = 0;
  total_received = 0;
  total_sent = 0;
  total_delivered = 0;
}

abbrev pub given : Option Bytes → Bool
given none = false
given (some bytes) = true

abbrev pub same : Bool → Bool → Bool
same true b = b
same false b = not b

-- The constructor with its two checks.
unfoldable pub construct : Options → Result Connection
unfolding new_connection
construct opts =
    guard (not (greater_than_one opts.slippage)) above_one
    >> guard (same (given opts.receipt_nonce) (given opts.receipt_secret)) receipt_incomplete
    >> ok (new_connection opts)
