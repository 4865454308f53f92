-- ===== src/Tests/Connections.antt =====
-- Examples of connections: shares, streams, totals, rejected packets and windows.
use ilp_protocol_stream.Base.{
  ℕ, Bool, ◌+◌, ◌≤◌, ◌<◌, ◌≡◌, refl, List, [], ◌∷◌, ◌++◌, length, lookup, some, none, true, false,
  ok, arith,
}
use ilp_protocol_stream.Long.Interface.{IsLong}
use ilp_protocol_stream.Congestion.{new_congestion_controller}
use ilp_protocol_stream.Stream.{new_stream}
use ilp_protocol_stream.Packet.{Frame, Packet, stream_money, stream_data, stream_close}
use ilp_protocol_stream.Connection.{Connection, Options, new_connection}
use ilp_protocol_stream.Connection.Shares.{money_frames, amounts_to_receive}
use ilp_protocol_stream.Connection.Shares.Distribution.{total, portions, amounts_to_receive_lem}
use ilp_protocol_stream.Connection.Streams.{Texts, create_stream, handle_new_stream, is_known}
use ilp_protocol_stream.Connection.Reaching.{fresh, opened, numbered}
use ilp_protocol_stream.Connection.Streams.Opening.{create_stream-accepted}
use ilp_protocol_stream.Connection.Totals.{receive_packet}
use ilp_protocol_stream.Connection.Totals.Holding.{receive_packet_lem}
use ilp_protocol_stream.Connection.Updating.{map_option}
use ilp_protocol_stream.Connection.Rejects.{Reject, t04, is_temporary, undo_rejected_packet}
use ilp_protocol_stream.Connection.Rejects.Undoing.{undone, closing, undo_rejected_packet_lem}
use ilp_protocol_stream.Connection.Rejects.Waiting.{
  handle_errors, delays_from, handle_errors-delays,
}
use ilp_protocol_stream.Tests.{long, oer, crypto}

abbrev paid : List Frame
paid = stream_money 1 3 ∷ stream_data 1 0 (7 ∷ []) ∷ stream_money 3 4 ∷ []

amounts_to_receive_lem_example :
    let shares = money_frames paid in
    let amounts = portions 1000 (total shares) shares in
    (amounts_to_receive 1000 paid ≡ ok amounts)
    × (total amounts ≤ 1000)
    × (1000 < total amounts + length shares)
unfolding money_frames
amounts_to_receive_lem_example =
    amounts_to_receive_lem 1000 paid (omega arith) (omega arith) (omega arith)

abbrev pub options : Bool → Options
options is_server = record {
  is_server = is_server;
  source_account = 97 ∷ [];
  asset_code = 88 ∷ [];
  asset_scale = 9;
  destination_account = some (98 ∷ []);
  slippage = record { a = 1; b = 100 };
  allowable_receive_extra = record { a = 101; b = 100 };
  exchange_rate = some (record { a = 1; b = 2 });
  receipt_nonce = none;
  receipt_secret = none;
  max_remote_streams = 10;
  connection_buffer_size = 65534;
  maximum_packet_amount = none;
}

abbrev pub client : Connection
client = new_connection (options false)

abbrev server : Connection
server = new_connection (options true)

abbrev pub texts : Texts
texts = record {
  must_be_odd = λ i. i ∷ [];
  must_be_even = λ i. i ∷ [];
  limit_exceeded = λ i m. i ∷ m ∷ [];
}

-- A client with a stream that has sent a packet.
abbrev used : Connection
used = record (create_stream client).connection { next_packet_sequence = 2 }

opens_again : (create_stream used).thrown ≡ none
unfolding create_stream new_connection
opens_again = refl

create_stream-accepted_example :
    (is_known used.next_stream_id used ≡ false)
    × ((handle_new_stream texts used.next_stream_id server).thrown ≡ none)
unfolding create_stream new_connection
create_stream-accepted_example =
    create_stream-accepted texts server (numbered (opened (fresh (options false)))) opens_again refl
      (omega arith)

receive_packet_lem_example :
    receive_packet 500 server
    ≡ ok (record server {
      total_received = server.total_received + 500;
      incoming_hold = server.total_received + server.incoming_hold;
    })
unfolding new_connection
receive_packet_lem_example = receive_packet_lem 500 server (omega arith) (omega arith)

abbrev rejected : Packet
rejected = record {
  sequence = 5;
  ilp_packet_type = 12;
  prepare_amount = 0;
  frames = stream_money 1 3 ∷ stream_data 1 0 (7 ∷ []) ∷ stream_close 3 1 [] ∷ [];
}

abbrev with_stream : Connection
unfolding new_connection new_stream
with_stream = record client { streams = (1, new_stream 1 false) ∷ [] }

undo_rejected_packet_lem_example :
    let d = undo_rejected_packet rejected with_stream in
    (lookup 1 d.streams
      ≡ map_option (undone 1 rejected.sequence rejected.frames) (lookup 1 with_stream.streams))
    × (d.queued_frames ≡ with_stream.queued_frames ++ closing rejected.frames)
undo_rejected_packet_lem_example = undo_rejected_packet_lem rejected with_stream 1

abbrev errors : List (Reject × ℕ)
errors =
    (record { code = t04; bytes = [] }, 100)
    ∷ (record { code = 84 ∷ 48 ∷ 48 ∷ []; bytes = [] }, 90)
    ∷ []

client_size : IsLong client.congestion.test_maximum_packet_amount
unfolding new_connection new_congestion_controller
client_size = omega arith

handle_errors-delays_example :
    (last : Connection) × (handle_errors errors client
      ≡ ok (delays_from (length errors) client.retry_delay, last))
unfolding is_temporary
handle_errors-delays_example = handle_errors-delays errors client (refl, (refl, tt)) client_size
