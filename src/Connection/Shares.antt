-- ===== src/Connection/Shares.antt =====
-- `handlePrepare`, the part that determines the amount for each StreamMoney frame of a packet.
pub mod Distribution
use ilp_protocol_stream.Base.{
  ℕ, if◌then◌else◌, List, [], ◌∷◌, Result, ok, throw, ◌>>=◌, total_overflow,
}
use ilp_protocol_stream.Long.{checked_add, multiply_divide_floor}
use ilp_protocol_stream.Long.Interface.{LongApi}
use ilp_protocol_stream.Packet.{Frame, stream_money}

-- The `instanceof StreamMoneyFrame` of the loops: the stream and the shares of each money frame.
unfoldable pub money_frames : List Frame → List (ℕ × ℕ)
money_frames [] = []
money_frames (stream_money stream_id shares ∷ rest) = (stream_id, shares) ∷ money_frames rest
money_frames (_ ∷ rest) = money_frames rest

module _ ⦃api : LongApi⦄ where
  -- The `reduce`, from the sum so far.
  unfoldable pub sum_shares : ℕ → List (ℕ × ℕ) → Result ℕ
  sum_shares sum [] = ok sum
  sum_shares sum ((_, shares) ∷ rest) =
      let result = checked_add sum shares in
      let rest_sum = sum_shares result.value rest in
      if result.wrapped then throw total_overflow else rest_sum

  unfoldable pub total_money_shares : List Frame → Result ℕ
  unfolding sum_shares money_frames
  total_money_shares frames = sum_shares 0 (money_frames frames)

  -- The amount for each stream, in the order of the frames.
  stream_amounts : ℕ → ℕ → List (ℕ × ℕ) → Result (List (ℕ × ℕ))
  stream_amounts incoming total [] = ok []
  stream_amounts incoming total ((stream_id, shares) ∷ rest) = do
    amount ← multiply_divide_floor incoming shares total
    amounts ← stream_amounts incoming total rest
    ok ((stream_id, amount) ∷ amounts)

  -- The amounts without the tests of the streams; the handler's own loop, which has them, is in
  -- Connection/Prepare/Fulfilling.
  pub amounts_to_receive : ℕ → List Frame → Result (List (ℕ × ℕ))
  unfolding total_money_shares stream_amounts
  amounts_to_receive incoming frames = do
    total ← total_money_shares frames
    stream_amounts incoming total (money_frames frames)
