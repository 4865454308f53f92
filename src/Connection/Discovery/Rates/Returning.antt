-- ===== src/Connection/Discovery/Rates/Returning.antt =====
-- The discovery returns as soon as a volley has delivered an amount that is precise enough.
use ilp_protocol_stream.Base.{
  ℕ, ◌≤◌, ◌<◌, ◌≡◌, refl, ap, ◌∙◌, ◌⊎◌, inl, inr, le→leb, ne→==, List, [], ◌∷◌, ◌++◌, All, none,
  some, ok, arith,
}
use ilp_protocol_stream.Long.{count_digits}
use ilp_protocol_stream.Long.Interface.{LongApi}
use ilp_protocol_stream.Long.Bounds.{min_longs-pos, min_long-pos, min_long-le}
use ilp_protocol_stream.Oer.{Bytes, OerApi}
use ilp_protocol_stream.Crypto.{CryptoApi}
use ilp_protocol_stream.Rational.{Rational}
use ilp_protocol_stream.Congestion.{maximum_packet_amount, set_maximum_amounts}
use ilp_protocol_stream.Connection.{Connection}
use ilp_protocol_stream.Connection.Filling.{Buffers}
use ilp_protocol_stream.Connection.Discovery.{
  NumberApi, TestResult, no_response, rejected, answered, Volley, send_test_packet_volley,
}
use ilp_protocol_stream.Connection.Discovery.Rates.{
  Best, max_packet_amounts, lowest, set_maximum, Network, Search, determine_loop, determine_from,
  first_amounts, max_attempts, setup_exchange_rate,
}
use ilp_protocol_stream.Connection.Discovery.Rates.Precision.{IsMeasurable, IsBeaten, find_best_lem}

module _ ⦃api : LongApi⦄ where
  -- A result by which an amount of at least `precision` digits was delivered.
  abbrev pub IsPrecise : ℕ → TestResult → Type 0
  IsPrecise precision (answered p) =
      (n : ℕ) × (count_digits p.prepare_amount ≡ ok n) × (precision ≤ n)
  IsPrecise precision no_response = ⊥
  IsPrecise precision (rejected r) = ⊥

  abbrev pub HasPrecise : ℕ → List (ℕ × TestResult) → Type 0
  HasPrecise precision [] = ⊥
  HasPrecise precision ((amount, result) ∷ rest) =
      IsPrecise precision result ⊎ HasPrecise precision rest

module _ ⦃api : LongApi⦄ ⦃number : NumberApi⦄ where
  precise-IsBeaten :
      (precision amount : ℕ) (result : TestResult) (best : Best)
      → IsPrecise precision result
      → IsBeaten best (amount, result)
      → precision ≤ best.max_digits
  precise-IsBeaten precision amount (answered p) best (n, e, le) (m, f, more) =
      let same : n ≡ m = cc in omega (arith, same, le, more)
  precise-IsBeaten precision amount no_response best h b = absurd h
  precise-IsBeaten precision amount (rejected r) best h b = absurd h

  precise-best :
      (precision : ℕ) (tests : List (ℕ × TestResult)) (best : Best)
      → HasPrecise precision tests
      → All (IsBeaten best) tests
      → precision ≤ best.max_digits
  precise-best precision [] best h b = absurd h
  precise-best precision ((amount, result) ∷ rest) best (inl h) (first, others) =
      precise-IsBeaten precision amount result best h first
  precise-best precision ((amount, result) ∷ rest) best (inr h) (first, others) =
      precise-best precision rest best h others

All-append_last :
    (xs : List ℕ) (x : ℕ) → All (λ y. 0 < y) xs → 0 < x → All (λ y. 0 < y) (xs ++ x ∷ [])
All-append_last [] x h pos = (pos, tt)
All-append_last (y ∷ xs) x h pos = (h.0, All-append_last xs x h.1 pos)

lowest-pos :
    (amounts : List ℕ) (last : ℕ) → All (λ x. 0 < x) amounts → 0 < last → 0 < lowest amounts last
unfolding lowest
lowest-pos [] last h pos = min_longs-pos last [] (pos, tt)
lowest-pos (first ∷ rest) last h pos =
    min_longs-pos first (rest ++ last ∷ []) (h.0, All-append_last rest last h.1 pos)

module _ ⦃api : LongApi⦄ ⦃oer : OerApi⦄ ⦃number : NumberApi⦄ where
  set_maximum-returns :
      (tests : List (ℕ × TestResult)) (c : Connection)
      → All (λ x. 0 < x) (max_packet_amounts tests)
      → 0 < maximum_packet_amount c.congestion
      → (d : Connection) × (set_maximum tests c ≡ ok d)
  unfolding set_maximum set_maximum_amounts maximum_packet_amount
  set_maximum-returns tests c h pos =
      let s = c.congestion in
      let low = lowest-pos (max_packet_amounts tests) (maximum_packet_amount s) h pos in
      let fixed : 0 < s.fixed_packet_amount =
        omega (arith, pos, min_long-le s.path_maximum s.fixed_packet_amount) in
      let all =
        min_long-pos (lowest (max_packet_amounts tests) (maximum_packet_amount s))
          s.fixed_packet_amount low fixed in
      let next =
        set_maximum_amounts (lowest (max_packet_amounts tests) (maximum_packet_amount s)) s in
      (
        record c { congestion = next },
        rw (ne→== (maximum_packet_amount next) 0 (λ e. omega (arith, e, all)), set_maximum),
      )

module _ ⦃api : LongApi⦄ ⦃oer : OerApi⦄ ⦃crypto : CryptoApi⦄ ⦃number : NumberApi⦄ where
  -- On a connection that knows its destination and can send packets: where the first volley is sent and
  -- handled without an error, no F08 error tells a maximum of 0, the test packets' amounts are positive
  -- and what they deliver are Longs, and one of them delivers an amount of enough digits, the discovery
  -- returns, with a rate.
  pub setup_exchange_rate-HasPrecise :
      (buffers : Buffers) (psk_key : Bytes) (network : Network) (precision : ℕ) (account : Bytes)
      (c : Connection) (v : Volley)
      → c.exchange_rate ≡ none
      → c.destination_account ≡ some account
      → send_test_packet_volley buffers psk_key first_amounts (network.arrivals 1) c ≡ ok v
      → All IsMeasurable v.tests
      → HasPrecise precision v.tests
      → All (λ x. 0 < x) (max_packet_amounts v.tests)
      → 0 < maximum_packet_amount v.connection.congestion
      → (r : Search) × (rate : Rational) × (setup_exchange_rate buffers psk_key network precision c
          ≡ ok r)
        × (r.connection.exchange_rate ≡ some rate)
  unfolding setup_exchange_rate determine_from determine_loop
  setup_exchange_rate-HasPrecise buffers psk_key network precision account c v unknown there sent
        measurable precise told pos =
      let (best, found, _, beaten) = find_best_lem v.tests measurable in
      let (d, limited) = set_maximum-returns v.tests v.connection told pos in
      let enough =
        le→leb precision best.max_digits (precise-best precision v.tests best precise beaten) in
      let r : Search = record {
        connection = record d { exchange_rate = some best.exchange_rate };
        effects = [] ++ v.effects;
      } in
      let start : Search = record { connection = c; effects = [] } in
      let last : determine_loop buffers psk_key network precision max_attempts 1 first_amounts start
          ≡ ok r =
        rw (sent, determine_loop, found, limited, enough) in
      (
        r,
        best.exchange_rate,
        rw (unknown, setup_exchange_rate)
            (ap (λ x. determine_from buffers psk_key network precision x c) there ∙ last),
        refl,
      )
