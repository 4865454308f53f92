-- ===== src/Tests/Discovery.antt =====
-- An example of the discovery of an exchange rate: the first of five test packets, of 1 unit, delivers
-- 250, and the others time out.
use ilp_protocol_stream.Base.{
  ℕ, ◌<◌, ◌≡◌, refl, sym, subst, inl, List, [], ◌∷◌, ◌++◌, All, lookup, replicate, some, none,
  false, Result, ok, throw, arith,
}
use ilp_protocol_stream.Oer.{Bytes}
use ilp_protocol_stream.Long.{count_digits, min_long}
use ilp_protocol_stream.Rational.{Rational}
use ilp_protocol_stream.Congestion.{new_congestion_controller, maximum_packet_amount}
use ilp_protocol_stream.Crypto.{decrypt}
use ilp_protocol_stream.Packet.{Packet, deserialize}
use ilp_protocol_stream.Packet.Padding.{decrypt_and_deserialize}
use ilp_protocol_stream.Connection.{Connection}
use ilp_protocol_stream.Connection.Totals.{get_next_packet_sequence}
use ilp_protocol_stream.Connection.Control.{handle_control_frames}
use ilp_protocol_stream.Connection.Rejects.{same_code}
use ilp_protocol_stream.Connection.Responses.{reject, f99, match_response}
use ilp_protocol_stream.Connection.Discovery.{
  NumberApi, TestResult, answered, no_response, Volley, send_test_packet_volley,
}
use ilp_protocol_stream.Connection.Discovery.Rates.Precision.{IsMeasurable}
use ilp_protocol_stream.Connection.Discovery.Rates.Returning.{
  HasPrecise, setup_exchange_rate-HasPrecise,
}
use ilp_protocol_stream.Connection.Discovery.Rates.{
  Network, Search, first_amounts, max_packet_amounts, setup_exchange_rate,
}
use ilp_protocol_stream.Connection.Filling.{account_frames}
use ilp_protocol_stream.Tests.{long, oer, crypto}
use ilp_protocol_stream.Tests.Packets.{buffers}
use ilp_protocol_stream.Tests.Connections.{options}
use ilp_protocol_stream.Connection.{new_connection}

instance abbrev pub number : NumberApi
number = record { from_number = λ v. v; from_number_exact = λ v h. refl }

-- The stand-in for encryption writes an IV and a tag before the packet.
abbrev delivered : Bytes
delivered = 1 ∷ 14 ∷ 1 ∷ 1 ∷ 1 ∷ 250 ∷ 1 ∷ 0 ∷ []

abbrev pub network : Network
network = record {
  arrivals =
      λ attempt. (1, reject (record { code = f99; bytes = replicate 28 0 ++ delivered })) ∷ [];
  is_stopped = λ attempt. false;
}

abbrev pub psk_key : Bytes
psk_key = replicate 32 4

abbrev pub client : Connection
client = record (new_connection (options false)) { exchange_rate = none }

abbrev found_in : Result Search → Search
found_in (throw e) = record { connection = client; effects = [] }
found_in (ok r) = r

discovered : Search
discovered = found_in (setup_exchange_rate buffers psk_key network 3 client)

abbrev paid : Packet
paid = record { sequence = 1; ilp_packet_type = 14; prepare_amount = 250; frames = [] }

abbrev tests : List (ℕ × TestResult)
tests =
    (1, answered paid)
    ∷ (1000, no_response)
    ∷ (1000000, no_response)
    ∷ (1000000000, no_response)
    ∷ (1000000000000, no_response)
    ∷ []

tests-IsMeasurable : All IsMeasurable tests
tests-IsMeasurable = ((omega arith, omega arith), (tt, (tt, (tt, (tt, tt)))))

abbrev volley_in : Result Volley → Volley
volley_in (throw e) = record { tests = []; connection = client; effects = [] }
volley_in (ok v) = v

volley : Volley
volley =
    volley_in (send_test_packet_volley buffers psk_key first_amounts (network.arrivals 1) client)

volley-sent :
    send_test_packet_volley buffers psk_key first_amounts (network.arrivals 1) client ≡ ok volley
unfolding volley setup_exchange_rate new_connection new_congestion_controller
    send_test_packet_volley get_next_packet_sequence account_frames same_code match_response
    decrypt_and_deserialize decrypt deserialize handle_control_frames lookup
volley-sent = refl

volley-tests : volley.tests ≡ tests
unfolding volley setup_exchange_rate new_connection new_congestion_controller
    send_test_packet_volley get_next_packet_sequence account_frames same_code match_response
    decrypt_and_deserialize decrypt deserialize handle_control_frames lookup
volley-tests = refl

volley-maximum : 0 < maximum_packet_amount volley.connection.congestion
unfolding volley setup_exchange_rate new_connection new_congestion_controller
    send_test_packet_volley get_next_packet_sequence account_frames same_code match_response
    decrypt_and_deserialize decrypt deserialize handle_control_frames lookup maximum_packet_amount
    min_long
volley-maximum = omega arith

tests-HasPrecise : HasPrecise 3 tests
unfolding count_digits
tests-HasPrecise = inl (3, refl, omega arith)

tests-told : All (λ x. 0 < x) (max_packet_amounts tests)
unfolding max_packet_amounts
tests-told = (omega arith, (omega arith, (omega arith, (omega arith, (omega arith, tt)))))

setup_exchange_rate-HasPrecise_example :
    (r : Search) × (rate : Rational) × (setup_exchange_rate buffers psk_key network 3 client ≡ ok r)
    × (r.connection.exchange_rate ≡ some rate)
unfolding new_connection
setup_exchange_rate-HasPrecise_example =
    setup_exchange_rate-HasPrecise buffers psk_key network 3 (98 ∷ []) client volley refl refl
      volley-sent (subst (All IsMeasurable) (sym volley-tests) tests-IsMeasurable)
      (subst (HasPrecise 3) (sym volley-tests) tests-HasPrecise)
      (subst (λ t. All (λ x. 0 < x) (max_packet_amounts t)) (sym volley-tests) tests-told)
      volley-maximum
