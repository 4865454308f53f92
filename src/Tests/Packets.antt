-- ===== src/Tests/Packets.antt =====
-- Examples of whole packets: loaded, answered, and settled by their responses.
use ilp_protocol_stream.Base.{
  ℕ, ◌+◌, ◌*◌, ◌≤◌, ◌<◌, ◌≡◌, refl, ◌⊎◌, List, [], ◌∷◌, lookup, replicate, max, none, some, false,
  ok, arith,
}
use ilp_protocol_stream.Long.{
  min_long, checked_add, multiply_divide_floor, multiply_divide, multiply_divide_loop, add_bit,
  carry, double, multiply_divide_ceil, checked_subtract,
}
use ilp_protocol_stream.Rational.{Rational, multiply_by_long_ceil}
use ilp_protocol_stream.Rational.Arithmetic.{IsRational}
use ilp_protocol_stream.Congestion.{new_congestion_controller, maximum_packet_amount}
use ilp_protocol_stream.Stream.{Stream, new_stream}
use ilp_protocol_stream.Stream.Money.{get_amount_available_to_send, get_amount_stream_can_receive}
use ilp_protocol_stream.Stream.Reading.{read}
use ilp_protocol_stream.Stream.Reading.Draining.{Drains, read-Drains}
use ilp_protocol_stream.Packet.{Packet, stream_money, stream_max_money}
use ilp_protocol_stream.Packet.Padding.{serialize_and_encrypt, decrypt_and_deserialize}
use ilp_protocol_stream.Connection.{Connection, new_connection, retry_delay_start}
use ilp_protocol_stream.Connection.Updating.{map_option}
use ilp_protocol_stream.Connection.Shares.{money_frames, sum_shares, total_money_shares}
use ilp_protocol_stream.Connection.Shares.Distribution.{total}
use ilp_protocol_stream.Connection.Offsets.{get_outgoing_offsets}
use ilp_protocol_stream.Connection.Rejects.{undo_rejected_packet}
use ilp_protocol_stream.Connection.Sending.{
  Loaded, amount_to_send_from_stream, load_money, execute_holds,
}
use ilp_protocol_stream.Connection.Sending.Amounts.{Ready, amount_to_send_from_stream_lem}
use ilp_protocol_stream.Connection.Sending.Holding.{moves_of}
use ilp_protocol_stream.Connection.Sending.Settled.{load_money-rejected, load_money-fulfilled}
use ilp_protocol_stream.Connection.Filling.{Buffers, Prepared, fill_data, load_packet}
use ilp_protocol_stream.Connection.Filling.Windows.{fill_data-window}
use ilp_protocol_stream.Connection.Filling.Loop.{Promised, load_packet_lem}
use ilp_protocol_stream.Connection.Control.{Effect}
use ilp_protocol_stream.Connection.Streams.{create_stream, is_known}
use ilp_protocol_stream.Connection.Streams.Identifiers.{IsAllowed}
use ilp_protocol_stream.Connection.Streams.Opening.{Reachable-IsAllowed}
use ilp_protocol_stream.Connection.Reaching.{fresh, opened, answered}
use ilp_protocol_stream.Connection.Prepare.{
  IlpPrepare, Environment, refuses, Handling, proceeds, attempt,
}
use ilp_protocol_stream.Connection.Prepare.Fulfilling.{
  test_stream, check_stream, stream_there, amounts_loop, amounts_for_streams, credit,
}
use ilp_protocol_stream.Connection.Prepare.Fulfilling.Credited.{
  paid_to, amounts_of, amounts_for_streams-credit,
}
use ilp_protocol_stream.Connection.Prepare.Handler.{handle_prepare}
use ilp_protocol_stream.Connection.Prepare.Handler.Earned.{Told, handle_prepare_lem}
use ilp_protocol_stream.Connection.Responses.{finish_response}
use ilp_protocol_stream.Connection.Responses.Delivered.{finish_response_lem}
use ilp_protocol_stream.Tests.{long, oer, crypto, and_bits}
use ilp_protocol_stream.Tests.Connections.{options, texts, client}

abbrev rate : Rational
rate = record { a = 1; b = 2 }

abbrev slippage : Rational
slippage = record { a = 1; b = 100 }

rate-IsRational : IsRational rate
rate-IsRational = record {
  numerator = omega arith;
  denominator = omega arith;
  nonzero = omega arith;
}

slippage-IsRational : IsRational slippage
slippage-IsRational = record {
  numerator = omega arith;
  denominator = omega arith;
  nonzero = omega arith;
}

abbrev pub buffers : Buffers
buffers = record { readable_length = λ s. 0; readable_high_water_mark = 16384 }

-- A stream that may send 100, to a receiver that can receive 1000.
abbrev funded : Stream
unfolding new_stream
funded = record (new_stream 1 false) { send_max = 100; remote_receive_max = 1000 }

abbrev paying : Connection
unfolding new_connection new_congestion_controller
paying = record (new_connection (options false)) { streams = (1, funded) ∷ [] }

funded-Ready : Ready 100 1 1 funded
unfolding lookup funded
funded-Ready = record {
  same_key = refl;
  within = record {
    covered = omega arith;
    spent = omega arith;
    limited = omega arith;
    small = omega arith;
  };
  unused = refl;
  remote_max = omega arith;
  remote_fits = omega arith;
}

amount_to_send_from_stream_lem_example :
    (a : ℕ) × (amount_to_send_from_stream rate 40 funded ≡ ok a)
    × (a ≤ get_amount_available_to_send funded)
    × (a ≤ 40)
    × (a * 1 < 1000 * 2 + 1)
    × ((a ≡ get_amount_available_to_send funded) ⊎ (a ≡ 40) ⊎ (1000 * 2 ≤ a * 1))
unfolding funded
amount_to_send_from_stream_lem_example =
    amount_to_send_from_stream_lem 100 1 1 rate 40 funded rate-IsRational (omega arith)
      (omega arith) funded-Ready (omega arith)

load_packet_lem_example :
    (r : Prepared) × (load_packet buffers paying ≡ ok r) × Promised paying rate r
unfolding money_frames lookup paying
load_packet_lem_example =
    load_packet_lem 100 buffers rate paying refl rate-IsRational (omega arith) (omega arith)
      slippage-IsRational (omega arith) (omega arith) (omega arith) (omega arith) (funded-Ready, tt)
      refl (omega arith)

abbrev empty_packet : Packet
empty_packet = record { sequence = 1; ilp_packet_type = 12; prepare_amount = 0; frames = [] }

load_money-rejected_example :
    (l : Loaded) × (load_money 1 rate paying ≡ ok l)
    × (lookup 1
          (undo_rejected_packet
            (record empty_packet { frames = l.frames })
            (record paying { streams = l.streams })).streams
        ≡ lookup 1 paying.streams)
unfolding lookup paying
load_money-rejected_example =
    load_money-rejected 100 empty_packet rate paying 1 (omega arith) (omega arith) (omega arith)
      (funded-Ready, tt) (refl, tt)

load_money-fulfilled_example :
    (l : Loaded) × (load_money 1 rate paying ≡ ok l)
    × (lookup 1 (execute_holds 1 l.sent_from (record paying { streams = l.streams })).streams
        ≡ map_option
            (λ s. record s {
              total_sent = s.total_sent + total (moves_of 1 (money_frames l.frames));
            })
            (lookup 1 paying.streams))
unfolding lookup paying
load_money-fulfilled_example =
    load_money-fulfilled 100 1 rate paying 1 (omega arith) (omega arith) (omega arith)
      (funded-Ready, tt) (refl, tt)

fill_data-window_example :
    (get_outgoing_offsets (fill_data empty_packet paying).streams).current_offset
    ≤ max paying.remote_max_offset (get_outgoing_offsets paying.streams).current_offset
unfolding paying funded
fill_data-window_example = fill_data-window empty_packet paying (refl, tt)

abbrev response : Packet
response = record {
  sequence = 1;
  ilp_packet_type = 13;
  prepare_amount = 50;
  frames = stream_max_money 1 1000 50 ∷ [];
}

finish_response_lem_example :
    (d : Connection) × (effects : List Effect) × (finish_response buffers 1
        (1 ∷ [])
        100
        response
        paying
      ≡ ok (d, effects))
    × (d.total_sent ≡ paying.total_sent + 100)
    × (d.total_delivered ≡ paying.total_delivered + response.prepare_amount)
    × (d.retry_delay ≡ retry_delay_start)
unfolding maximum_packet_amount paying min_long
finish_response_lem_example =
    finish_response_lem buffers 1 (1 ∷ []) 100 response paying refl (omega arith) (omega arith)
      (omega arith) (omega arith) (omega arith) (omega arith)

read-Drains_example : Drains 10 funded (read 10 funded)
read-Drains_example = read-Drains 10 funded

abbrev incoming : Packet
incoming = record {
  sequence = 4;
  ilp_packet_type = 12;
  prepare_amount = 90;
  frames = stream_money 1 1 ∷ [];
}

abbrev environment : Environment
environment = record {
  buffers = buffers;
  texts = texts;
  already_closed = 7 ∷ [];
  psk_key = 5 ∷ [];
  fulfillment_key = 6 ∷ [];
  should_fulfill = none;
}

abbrev prepared : IlpPrepare
prepared = record {
  amount = 100;
  bytes = serialize_and_encrypt (replicate 12 0) (5 ∷ []) incoming none;
  execution_condition = replicate 32 9;
}

handle_prepare_lem_example :
    let r = handle_prepare environment prepared paying in
    (r ≡ record { answer = refuses; connection = paying; effects = [] })
    ⊎ ((p : Packet) × (decrypt_and_deserialize (5 ∷ []) prepared.bytes ≡ ok p)
        × (p.ilp_packet_type ≡ 12)
        × Told environment prepared p paying r.answer r.connection)
handle_prepare_lem_example = handle_prepare_lem environment prepared paying

-- A stream that may receive 4, and a packet in the handler that pays it.
abbrev receiving : Connection
receiving = record paying { streams = (1, record funded { receive_max = 4 }) ∷ [] }

abbrev handling : Handling
handling = record { connection = receiving; response_frames = []; effects = [] }

three_of_three : multiply_divide_floor 3 1 1 ≡ ok 3
unfolding multiply_divide_floor multiply_divide multiply_divide_loop add_bit carry double and_bits
three_of_three = refl

four_and_more : multiply_divide_ceil 4 101 100 ≡ ok 5
unfolding multiply_divide_ceil multiply_divide multiply_divide_loop add_bit carry double and_bits
    checked_add
four_and_more = refl

pays_all : amounts_for_streams environment incoming 3 handling ≡ proceeds ((1, 3) ∷ [])
unfolding amounts_for_streams total_money_shares sum_shares money_frames checked_add
    checked_subtract attempt test_stream check_stream stream_there amounts_loop
    multiply_by_long_ceil get_amount_stream_can_receive lookup paying funded
pays_all = rw (three_of_three, four_and_more) refl

amounts_for_streams-credit_example :
    let paid = amounts_of 3 incoming in
    ((1, 3) ∷ [] ≡ paid)
    × ((t : Stream) × (lookup 1 (credit ((1, 3) ∷ []) receiving).streams ≡ some t)
        × (t.total_received ≡ funded.total_received + paid_to 1 paid))
unfolding money_frames lookup funded
amounts_for_streams-credit_example =
    amounts_for_streams-credit environment incoming 3 handling ((1, 3) ∷ []) receiving 1
      (record funded { receive_max = 4 }) (omega arith) (omega arith) (omega arith) pays_all refl
      (omega arith)

Reachable-IsAllowed_example :
    let c = (handle_prepare environment prepared (create_stream client).connection).connection in
    (is_known 1 c ≡ false) ⊎ IsAllowed c 1
Reachable-IsAllowed_example =
    Reachable-IsAllowed 1 (answered environment prepared (opened (fresh (options false))))
