-- ===== src/Connection/Discovery/Rates.antt =====
-- What the results of a volley of test packets mean, and `determineExchangeRate`. How long a wait for a
-- temporary error is, is not part of the state.
pub mod Precision
pub mod Limiting
pub mod Found
pub mod Returning
pub mod Flags
use ilp_protocol_stream.Base.{
  ℕ, zero, suc, ◌+◌, leb, ◌==◌, ◌||◌, not, if◌then◌else◌, List, [], ◌∷◌, ◌++◌, Option, none, some,
  Bool, true, false, Result, ok, throw, ◌>>=◌, ◌>>◌, guard, path_blocked, no_destination,
  precision_not_reached, terminated,
}
use ilp_protocol_stream.Long.{min_long, min_longs, count_digits, multiply_divide_floor}
use ilp_protocol_stream.Long.Interface.{LongApi, max_unsigned}
use ilp_protocol_stream.Oer.{Bytes, OerApi}
use ilp_protocol_stream.Crypto.{CryptoApi}
use ilp_protocol_stream.Rational.{Rational, new_rational}
use ilp_protocol_stream.Packet.{Packet}
use ilp_protocol_stream.Congestion.{
  CongestionController, maximum_packet_amount, set_maximum_amounts, reject_amounts,
}
use ilp_protocol_stream.Connection.{Connection}
use ilp_protocol_stream.Connection.Streams.{member}
use ilp_protocol_stream.Connection.Rejects.{Reject, same_code, f08, is_temporary}
use ilp_protocol_stream.Connection.Filling.{Buffers}
use ilp_protocol_stream.Connection.Control.{Effect}
use ilp_protocol_stream.Connection.Responses.{Response}
use ilp_protocol_stream.Connection.Discovery.{
  NumberApi, TestResult, no_response, rejected, answered, Volley, send_test_packet_volley,
}

-- The largest number stands for no maximum, and for one that cannot be read.
abbrev or_max : Result ℕ → ℕ
or_max (throw e) = max_unsigned
or_max (ok value) = value

module _ ⦃api : LongApi⦄ ⦃oer : OerApi⦄ ⦃number : NumberApi⦄ where
  unfoldable pub told_maximum : ℕ → Option (ℕ × ℕ) → ℕ
  told_maximum amount none = max_unsigned
  told_maximum amount (some (received, maximum)) =
      or_max (multiply_divide_floor (number.from_number amount) maximum received)

  -- The maximum that an F08 error tells.
  unfoldable pub test_maximum : ℕ → TestResult → ℕ
  unfolding told_maximum
  test_maximum amount (rejected r) =
      if same_code r.code f08 then told_maximum amount (reject_amounts r.bytes) else max_unsigned
  test_maximum amount _ = max_unsigned

  unfoldable pub max_packet_amounts : List (ℕ × TestResult) → List ℕ
  unfolding test_maximum
  max_packet_amounts [] = []
  max_packet_amounts ((amount, result) ∷ rest) =
      test_maximum amount result ∷ max_packet_amounts rest

-- `maxDigits`, `exchangeRate` and `packetErrors`, the errors as amounts and codes.
pub record Best : Type 0 where
  pub max_digits : ℕ
  pub exchange_rate : Rational
  pub packet_errors : List (ℕ × List ℕ)

abbrev pub no_best : Best
no_best = record { max_digits = 0; exchange_rate = record { a = 0; b = 1 }; packet_errors = [] }

module _ ⦃api : LongApi⦄ ⦃number : NumberApi⦄ where
  unfoldable pub better : ℕ → Packet → Best → Result Best
  better amount response best = do
    rate ← new_rational response.prepare_amount (number.from_number amount) true
    digits ← count_digits response.prepare_amount
    ok (
        if leb best.max_digits digits
        then record best { max_digits = digits; exchange_rate = rate }
        else best)

  unfoldable pub find_best_step : ℕ → TestResult → Best → Result Best
  unfolding better
  find_best_step amount no_response best = ok best
  find_best_step amount (rejected r) best =
      ok (record best { packet_errors = best.packet_errors ++ (amount, r.code) ∷ [] })
  find_best_step amount (answered response) best = better amount response best

  unfoldable pub find_best : List (ℕ × TestResult) → Best → Result Best
  unfolding find_best_step
  find_best [] best = ok best
  find_best ((amount, result) ∷ rest) best = do
    next ← find_best_step amount result best
    find_best rest next

-- `[...new Set(...)]` of the amounts so far and the others.
unfoldable pub unique : List ℕ → List ℕ → List ℕ
unique seen [] = seen
unique seen (amount ∷ rest) = unique (if member amount seen then seen else seen ++ amount ∷ []) rest

-- The amounts that are not the largest number.
unfoldable pub known : List ℕ → List ℕ
known [] = []
known (amount ∷ rest) =
    let others = known rest in if not (amount == max_unsigned) then amount ∷ others else others

unfoldable pub some_temporary : List (ℕ × List ℕ) → Bool
some_temporary [] = false
some_temporary ((amount, code) ∷ rest) = is_temporary code || some_temporary rest

module _ ⦃number : NumberApi⦄ where
  unfoldable pub smallest_amount : ℕ → List (ℕ × List ℕ) → ℕ
  smallest_amount smallest [] = smallest
  smallest_amount smallest ((amount, code) ∷ rest) =
      smallest_amount (min_long smallest (number.from_number amount)) rest

module _ ⦃api : LongApi⦄ ⦃number : NumberApi⦄ where
  -- The amounts of the next volley.
  unfoldable pub next_amounts : List (ℕ × List ℕ) → List ℕ → Result (List ℕ)
  unfolding unique known some_temporary smallest_amount
  next_amounts errors maxima =
      let candidates = unique [] (known maxima) in
      let smallest = smallest_amount max_unsigned errors in
      if some_temporary errors
      then (do third ← api.divide smallest 3; ok (candidates ++ api.subtract smallest third ∷ []))
      else ok candidates

unfoldable pub lowest : List ℕ → ℕ → ℕ
lowest [] last = min_longs last []
lowest (first ∷ rest) last = min_longs first (rest ++ last ∷ [])

-- What happens outside: the responses to each volley, and whether the timer is stopped before the
-- wait behind a volley is over.
pub record Network : Type 0 where
  pub arrivals : ℕ → List (ℕ × Response)
  pub is_stopped : ℕ → Bool

pub record Search : Type 0 where
  pub connection : Connection
  pub effects : List Effect

module _ ⦃api : LongApi⦄ ⦃oer : OerApi⦄ ⦃number : NumberApi⦄ where
  -- The largest packet, as far as the volley told it.
  unfoldable pub set_maximum : List (ℕ × TestResult) → Connection → Result Connection
  unfolding lowest
  set_maximum tests c =
      let maximum = lowest (max_packet_amounts tests) (maximum_packet_amount c.congestion) in
      let congestion = set_maximum_amounts maximum c.congestion in
      guard (not (maximum_packet_amount congestion == 0)) path_blocked
      >> ok (record c { congestion = congestion })

abbrev wait_for : Bool → List (ℕ × List ℕ) → Result (Unit {0})
wait_for stopped errors = if some_temporary errors then guard (not stopped) terminated else ok tt

module _ ⦃api : LongApi⦄ ⦃oer : OerApi⦄ ⦃crypto : CryptoApi⦄ ⦃number : NumberApi⦄ where
  -- A volley for each attempt, from the attempts that are left.
  unfoldable pub determine_loop :
      Buffers → Bytes → Network → ℕ → ℕ → ℕ → List ℕ → Search → Result Search
  unfolding set_maximum
  determine_loop buffers psk_key network precision zero attempt amounts s =
      throw precision_not_reached
  determine_loop buffers psk_key network precision (suc left) attempt [] s =
      throw precision_not_reached
  determine_loop buffers psk_key network precision (suc left) attempt (amount ∷ rest) s = do
    v ←
        send_test_packet_volley buffers psk_key (amount ∷ rest) (network.arrivals attempt)
          s.connection
    best ← find_best v.tests no_best
    c ← set_maximum v.tests v.connection
    let effects = s.effects ++ v.effects
    elim (leb precision best.max_digits) [
      | true ↦ ok (record {
        connection = record c { exchange_rate = some best.exchange_rate };
        effects = effects;
      })
      | false ↦ (do
        amounts ← next_amounts best.packet_errors (max_packet_amounts v.tests)
        waited ← wait_for (network.is_stopped attempt) best.packet_errors
        determine_loop buffers psk_key network precision left (attempt + 1) amounts
            (record { connection = c; effects = effects }))
    ]

  abbrev pub first_amounts : List ℕ
  first_amounts = 1 ∷ 1000 ∷ 1000000 ∷ 1000000000 ∷ 1000000000000 ∷ []

  abbrev pub max_attempts : ℕ
  max_attempts = 15

  unfoldable pub determine_from :
      Buffers → Bytes → Network → ℕ → Option Bytes → Connection → Result Search
  unfolding determine_loop
  determine_from buffers psk_key network precision none c = throw no_destination
  determine_from buffers psk_key network precision (some account) c =
      determine_loop buffers psk_key network precision max_attempts 1 first_amounts
        (record { connection = c; effects = [] })

  -- `setupExchangeRate`, with `determineExchangeRate` where there is no rate; the event 'connect' that
  -- follows changes nothing. `precision` is `minExchangeRatePrecision`.
  unfoldable pub setup_exchange_rate : Buffers → Bytes → Network → ℕ → Connection → Result Search
  unfolding determine_from
  setup_exchange_rate buffers psk_key network precision c = elim c.exchange_rate [
    | some rate ↦ ok (record { connection = c; effects = [] })
    | none ↦ determine_from buffers psk_key network precision c.destination_account c
  ]
