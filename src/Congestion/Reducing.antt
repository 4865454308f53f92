-- ===== src/Congestion/Reducing.antt =====
-- How rejections reduce the size of the packets: `onAmountTooLargeError` and
-- `onInsufficientLiquidityError`.
use ilp_protocol_stream.Base.{
  ℕ, ◌+◌, ◌-◌, ◌*◌, ◌/◌, ◌^◌, ◌≤◌, ◌<◌, min, max, ◌≡◌, inl, inr, ltb, ltb→lt, some, Option-cases,
  Bool-cases, ok, ◌∙◌, arith,
}
use native.Mathlib.Nat.{div-lt_iff_lt-mul, mul-lt-mul_of_pos_left}
use ilp_protocol_stream.Long.{min_long, max_long}
use ilp_protocol_stream.Long.Bounds.{min_long-le, min_long-min, max_long-max}
use ilp_protocol_stream.Long.Rounding.{multiply_divide_floor_exact}
use ilp_protocol_stream.Long.Interface.{LongApi, IsLong}
use ilp_protocol_stream.Oer.{Bytes, OerApi}
use ilp_protocol_stream.Congestion.{
  CongestionController, maximum_packet_amount, reject_amounts, on_unknown_maximum, on_known_maximum,
  on_amount_too_large_error, on_insufficient_liquidity_error,
}

-- Both sizes are below an amount.
abbrev pub Below : ℕ → CongestionController → Type 0
Below amount s =
    (maximum_packet_amount s < amount)
    × (s.test_maximum_packet_amount ≤ s.path_maximum)
    × (s.path_maximum < amount)

quotient-below : (a m r : ℕ) → 0 < a → m < r → a * m / r < a
quotient-below a m r pos h = (div-lt_iff_lt-mul (omega arith)).1 (mul-lt-mul_of_pos_left h pos)

module _ ⦃api : LongApi⦄ where
  on_unknown_maximum_lem :
      (amount_sent : ℕ) (s : CongestionController)
      → 0 < amount_sent
      → IsLong amount_sent
      → (t : CongestionController) × (on_unknown_maximum amount_sent s ≡ ok t) × Below amount_sent t
  unfolding on_unknown_maximum maximum_packet_amount
  on_unknown_maximum_lem amount_sent s pos h =
      let path = amount_sent - 1 in
      let low = min_long-le path s.fixed_packet_amount in
      let next = record s {
        path_maximum = path;
        test_maximum_packet_amount = min_long path s.fixed_packet_amount / 2;
      } in
      let less : api.subtract amount_sent 1 ≡ path =
        omega (arith, api.subtract_wraps amount_sent 1) in
      (
        next,
        rw (less, api.divide_floors (min_long path s.fixed_packet_amount) 2 (omega arith)),
        (omega (arith, low.0), omega (arith, low.0), omega arith),
      )

  on_known_maximum_lem :
      (amount_sent received maximum : ℕ) (s : CongestionController)
      → 0 < amount_sent
      → IsLong amount_sent
      → received ≤ 2 ^ 63
      → maximum < received
      → (t : CongestionController) × (on_known_maximum amount_sent received maximum s ≡ ok t)
        × Below amount_sent t
  unfolding on_known_maximum maximum_packet_amount
  on_known_maximum_lem amount_sent received maximum s pos h small less =
      let q = amount_sent * maximum / received in
      let below : q < amount_sent = quotient-below amount_sent maximum received pos less in
      let exact =
        multiply_divide_floor_exact amount_sent maximum received h (omega arith) (omega arith) small
          (omega arith) in
      (
        record s { path_maximum = q; test_maximum_packet_amount = q },
        rw exact,
        (omega (arith, (min_long-le q s.fixed_packet_amount).0), omega arith, below),
      )

module _ ⦃api : LongApi⦄ ⦃oer : OerApi⦄ where
  -- An F08 error for a packet with a positive amount, whether or not its data tells the
  -- connector's amounts, never throws, and leaves a maximum and a size to be tried that are both
  -- below what was sent, provided that a received amount it tells is at most 2 ^ 63.
  pub on_amount_too_large_error-Below :
      (bytes : Bytes) (amount_sent : ℕ) (s : CongestionController)
      → 0 < amount_sent
      → IsLong amount_sent
      → ((received maximum : ℕ)
          → reject_amounts bytes ≡ some (received, maximum)
          → received ≤ 2 ^ 63)
      → (t : CongestionController) × (on_amount_too_large_error bytes amount_sent s ≡ ok t)
        × Below amount_sent t
  unfolding on_amount_too_large_error
  on_amount_too_large_error-Below bytes amount_sent s pos h told =
      elim (Option-cases (reject_amounts bytes)) [
        | inl e ↦ rw (e, on_amount_too_large_error) (on_unknown_maximum_lem amount_sent s pos h)
        | inr ((received, maximum), e) ↦ elim (Bool-cases (ltb maximum received)) [
          | inl less ↦
              rw (e, less, on_amount_too_large_error)
                (on_known_maximum_lem amount_sent received maximum s pos h (told received maximum e)
                  (ltb→lt maximum received less))
          | inr more ↦
              rw (e, more, on_amount_too_large_error) (on_unknown_maximum_lem amount_sent s pos h)
        ]
      ]

module _ ⦃api : LongApi⦄ where
  -- Where the size to be tried is a Long, a T04 error never throws. It sets that size to two
  -- thirds, rounded up, of the smaller one of it and the amount sent, but not below 2, and changes
  -- nothing else.
  pub on_insufficient_liquidity_error_lem :
      (amount_sent : ℕ) (s : CongestionController)
      → IsLong s.test_maximum_packet_amount
      → (size : ℕ) × (on_insufficient_liquidity_error amount_sent s
          ≡ ok (record s { test_maximum_packet_amount = size }))
        × (size ≡ max 2 ((2 * min amount_sent s.test_maximum_packet_amount + 2) / 3))
  unfolding on_insufficient_liquidity_error
  on_insufficient_liquidity_error_lem amount_sent s h =
      let least = min_long amount_sent s.test_maximum_packet_amount in
      let same = min_long-min amount_sent s.test_maximum_packet_amount in
      let less : api.subtract least (least / 3) ≡ least - least / 3 =
        omega (arith, api.subtract_wraps least (least / 3), same) in
      let size = max_long 2 (least - least / 3) in
      (
        size,
        rw (api.divide_floors least 3 (omega arith), less),
        max_long-max 2 (least - least / 3) ∙ ground (arith, same),
      )
