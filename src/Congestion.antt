-- ===== src/Congestion.antt =====
-- util/congestion.ts, `CongestionController`: the size of the packets that a connection sends. A
-- division by zero would throw, so the methods that divide return a `Result`.
pub mod Probing
pub mod Reducing
use ilp_protocol_stream.Base.{
  ℕ, ◌&&◌, not, ltb, ◌==◌, if◌then◌else◌, Option, none, some, Result, ok, throw, ◌>>=◌,
}
use ilp_protocol_stream.Long.{
  min_long, max_long, checked_add, checked_multiply, multiply_divide_floor,
}
use ilp_protocol_stream.Long.Interface.{LongApi, max_unsigned}
use ilp_protocol_stream.Oer.{Bytes, OerApi}

pub record CongestionController : Type 0 where
  pub test_maximum_packet_amount : ℕ
  -- The path's maximum that F08 errors told; the getter below takes the sender's choice into account.
  pub path_maximum : ℕ
  pub fixed_packet_amount : ℕ

unfoldable pub new_congestion_controller : Option ℕ → CongestionController
new_congestion_controller fixed = record {
  test_maximum_packet_amount = max_unsigned;
  path_maximum = max_unsigned;
  fixed_packet_amount = elim fixed [ none ↦ max_unsigned | some amount ↦ amount ];
}

unfoldable pub maximum_packet_amount : CongestionController → ℕ
maximum_packet_amount s = min_long s.path_maximum s.fixed_packet_amount

unfoldable pub set_maximum_amounts : ℕ → CongestionController → CongestionController
set_maximum_amounts amount s = record s {
  test_maximum_packet_amount = amount;
  path_maximum = amount;
}

module _ ⦃oer : OerApi⦄ where
  -- The two amounts of an F08 error's data, or none where the reader throws on it.
  unfoldable pub reject_amounts : Bytes → Option (ℕ × ℕ)
  reject_amounts bytes = elim (oer.read_uint64 bytes) [
    | throw e ↦ none
    | ok (received, rest) ↦ elim (oer.read_uint64 rest) [
      | throw e ↦ none
      | ok (maximum, _) ↦ some (received, maximum)
    ]
  ]

module _ ⦃api : LongApi⦄ where
  pub raised_limit : ℕ → ℕ → Result ℕ
  raised_limit test maximum =
      if not (maximum == max_unsigned)
      then (do
        additive_increase ← api.divide maximum 10
        ok (min_long (checked_add test additive_increase).value maximum))
      else ok (checked_multiply test 2).value

  pub on_fulfill : ℕ → CongestionController → Result CongestionController
  unfolding maximum_packet_amount raised_limit
  on_fulfill amount_sent s =
      let maximum = maximum_packet_amount s in
      let test = s.test_maximum_packet_amount in
      if amount_sent == test && ltb test maximum
      then (do
        raised ← raised_limit test maximum
        ok (record s { test_maximum_packet_amount = raised }))
      else ok s

  -- The `else` of `onAmountTooLargeError`: the connector told no amounts.
  pub on_unknown_maximum : ℕ → CongestionController → Result CongestionController
  unfolding maximum_packet_amount
  on_unknown_maximum amount_sent s =
      let t = record s { path_maximum = api.subtract amount_sent 1 } in
      (do
        half ← api.divide (maximum_packet_amount t) 2
        ok (record t { test_maximum_packet_amount = half }))

  pub on_known_maximum : ℕ → ℕ → ℕ → CongestionController → Result CongestionController
  on_known_maximum amount_sent received maximum s = do
    new_maximum ← multiply_divide_floor amount_sent maximum received
    ok (record s { path_maximum = new_maximum; test_maximum_packet_amount = new_maximum })

  pub on_insufficient_liquidity_error : ℕ → CongestionController → Result CongestionController
  on_insufficient_liquidity_error amount_sent s =
      let min_packet_amount = min_long amount_sent s.test_maximum_packet_amount in
      (do
        third ← api.divide min_packet_amount 3
        let new_test = api.subtract min_packet_amount third
        ok (record s { test_maximum_packet_amount = max_long 2 new_test }))

module _ ⦃api : LongApi⦄ ⦃oer : OerApi⦄ where
  -- The state behind the call; the source returns its `maximumPacketAmount`.
  pub on_amount_too_large_error : Bytes → ℕ → CongestionController → Result CongestionController
  unfolding on_unknown_maximum on_known_maximum reject_amounts
  on_amount_too_large_error bytes amount_sent s = elim (reject_amounts bytes) [
    | none ↦ on_unknown_maximum amount_sent s
    | some (received, maximum) ↦
        if ltb maximum received
        then on_known_maximum amount_sent received maximum s
        else on_unknown_maximum amount_sent s
  ]
