-- ===== src/Connection/Discovery.antt =====
-- `setupExchangeRate` and what it calls: the test packets that find out the exchange rate of a
-- connection and the largest packets of its path. Responses are arguments, in the order in which they
-- arrive; a test packet for which none arrives has timed out.
pub mod Rates
pub mod Volleys
use ilp_protocol_stream.Base.{
  ℕ, zero, suc, ◌+◌, ◌<◌, ◌≡◌, ◌^◌, ltb, leb, ◌==◌, ◌&&◌, ◌||◌, not, if◌then◌else◌, List, [], ◌∷◌,
  ◌++◌, Option, none, some, Bool, true, false, length, lookup, Result, ok, throw, ◌>>=◌, ◌>>◌,
  guard, invalid_response, path_blocked, no_destination, precision_not_reached, terminated,
}
use ilp_protocol_stream.Long.{min_long, min_longs, count_digits, multiply_divide_floor}
use ilp_protocol_stream.Long.Interface.{LongApi, IsLong, max_unsigned}
use ilp_protocol_stream.Oer.{Bytes, OerApi}
use ilp_protocol_stream.Crypto.{CryptoApi}
use ilp_protocol_stream.Rational.{Rational, new_rational}
use ilp_protocol_stream.Packet.{Packet}
use ilp_protocol_stream.Packet.Padding.{decrypt_and_deserialize}
use ilp_protocol_stream.Congestion.{
  CongestionController, maximum_packet_amount, set_maximum_amounts, reject_amounts,
}
use ilp_protocol_stream.Connection.{Connection}
use ilp_protocol_stream.Connection.Totals.{get_next_packet_sequence}
use ilp_protocol_stream.Connection.Streams.{member}
use ilp_protocol_stream.Connection.Rejects.{Reject, same_code, f08, is_temporary}
use ilp_protocol_stream.Connection.Filling.{Buffers, account_frames}
use ilp_protocol_stream.Connection.Control.{Controlled, Effect, only, handle_control_frames}
use ilp_protocol_stream.Connection.Responses.{
  Response, fulfill, reject, invalid, f99, type_reject, match_response,
}

-- `Long.fromNumber` of the number that an amount, a text after the first volley, is as a double.
pub record NumberApi : Type 0 where
  pub from_number : ℕ → ℕ
  pub from_number_exact : (v : ℕ) → v < 2 ^ 53 → from_number v ≡ v

-- What `sendTestPacket` returns: null, an ILP reject, or the receiver's packet.
pub data TestResult : Type 0 where
  no_response : TestResult
  rejected : Reject → TestResult
  answered : Packet → TestResult

-- The start of `sendTestPacket`, up to the call that sends the packet.
unfoldable pub start_test_packet : Connection → Result (Packet × Connection)
start_test_packet c = do
  (sequence, d) ← get_next_packet_sequence c
  let p : Packet = record {
    sequence = sequence;
    ilp_packet_type = 12;
    prepare_amount = 0;
    frames = account_frames d;
  }
  ok (p, d)

unfoldable pub has_bytes : Bytes → Bool
has_bytes bytes = ltb 0 (length bytes)

module _ ⦃oer : OerApi⦄ ⦃crypto : CryptoApi⦄ where
  unfoldable pub read_test_response : Bytes → Packet → Reject → Result TestResult
  unfolding has_bytes
  read_test_response psk_key p r =
      if same_code r.code f99 && has_bytes r.bytes
      then (do
        opened ← decrypt_and_deserialize psk_key r.bytes
        matched ← match_response p type_reject opened
        ok (answered matched))
      else ok (rejected r)

module _ ⦃api : LongApi⦄ where
  unfoldable pub handle_test_result : Buffers → Connection → TestResult → Controlled
  handle_test_result buffers c (answered response) =
      handle_control_frames buffers response.frames (record c { remote_knows_our_account = true })
  handle_test_result buffers c _ = only c

-- A volley on its way: the results so far, by the numbers of the packets.
pub record Arrived : Type 0 where
  pub results : List (ℕ × TestResult)
  pub connection : Connection
  pub effects : List Effect

module _ ⦃api : LongApi⦄ ⦃oer : OerApi⦄ ⦃crypto : CryptoApi⦄ where
  -- The rest of `sendTestPacket`: only a reject can be read as a response.
  unfoldable pub finish_test_packet : Bytes → Packet → Response → Result TestResult
  unfolding read_test_response
  finish_test_packet psk_key p (reject r) = read_test_response psk_key p r
  finish_test_packet psk_key p (fulfill fulfillment bytes) = throw invalid_response
  finish_test_packet psk_key p invalid = throw invalid_response

  unfoldable pub arrive : Buffers → Bytes → Option Packet → Response → Arrived → Result Arrived
  unfolding finish_test_packet handle_test_result
  arrive buffers psk_key none response a = ok a
  arrive buffers psk_key (some p) response a = do
    result ← finish_test_packet psk_key p response
    let controlled = handle_test_result buffers a.connection result
    ok (record {
      results = (p.sequence, result) ∷ a.results;
      connection = controlled.connection;
      effects = a.effects ++ controlled.effects;
    })

  -- The responses in the order of their arrival, each with the number of the packet that it is for.
  unfoldable pub arrive_all :
      Buffers → Bytes → List (ℕ × Packet) → List (ℕ × Response) → Arrived → Result Arrived
  unfolding arrive
  arrive_all buffers psk_key sent [] a = ok a
  arrive_all buffers psk_key sent ((sequence, response) ∷ rest) a = do
    b ← arrive buffers psk_key (lookup sequence sent) response a
    arrive_all buffers psk_key sent rest b

-- The packets of a volley, by their numbers, in the order of the amounts.
unfoldable pub start_volley : List ℕ → Connection → Result (List (ℕ × Packet) × Connection)
unfolding start_test_packet
start_volley [] c = ok ([], c)
start_volley (amount ∷ rest) c = do
  (p, d) ← start_test_packet c
  (others, e) ← start_volley rest d
  ok ((p.sequence, p) ∷ others, e)

abbrev result_of : Option TestResult → TestResult
result_of none = no_response
result_of (some result) = result

-- The amounts with their results.
unfoldable pub tried : List ℕ → List (ℕ × Packet) → List (ℕ × TestResult) → List (ℕ × TestResult)
tried [] sent results = []
tried (amount ∷ rest) [] results = []
tried (amount ∷ rest) ((sequence, p) ∷ others) results =
    (amount, result_of (lookup sequence results)) ∷ tried rest others results

pub record Volley : Type 0 where
  pub tests : List (ℕ × TestResult)
  pub connection : Connection
  pub effects : List Effect

module _ ⦃api : LongApi⦄ ⦃oer : OerApi⦄ ⦃crypto : CryptoApi⦄ where
  -- The packets of `sendTestPacketVolley`. What one of them throws, the volley throws.
  unfoldable pub send_test_packet_volley :
      Buffers → Bytes → List ℕ → List (ℕ × Response) → Connection → Result Volley
  unfolding start_volley arrive_all tried
  send_test_packet_volley buffers psk_key amounts arrivals c = do
    (sent, d) ← start_volley amounts c
    let start : Arrived = record { results = []; connection = d; effects = [] }
    a ← arrive_all buffers psk_key sent arrivals start
    ok (record {
      tests = tried amounts sent a.results;
      connection = a.connection;
      effects = a.effects;
    })
