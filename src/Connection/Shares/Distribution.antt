-- ===== src/Connection/Shares/Distribution.antt =====
-- The amounts for the streams of a packet against the amount of the packet.
use ilp_protocol_stream.Base.{
  ℕ, ◌+◌, ◌*◌, ◌/◌, ◌^◌, ◌≤◌, ◌<◌, ◌≡◌, refl, ap, ◌∙◌, List, [], ◌∷◌, length, lt→ltb, ok, throw,
  division_by_zero, arith,
}
use native.Mathlib.Nat.{
  div-add-mod, mod-lt, mul-le-mul_left, le_of_mul-le-mul_left, lt_of_mul-lt-mul_left,
  div-le_of_le-mul,
}
use ilp_protocol_stream.Long.Bounds.{checked_add_lem}
use ilp_protocol_stream.Long.Rounding.{multiply_divide_floor_exact, multiply_divide_floor-zero}
use ilp_protocol_stream.Long.Interface.{LongApi, IsLong}
use ilp_protocol_stream.Packet.{Frame, stream_money}
use ilp_protocol_stream.Connection.Shares.{
  money_frames, sum_shares, total_money_shares, stream_amounts, amounts_to_receive,
}

abbrev pub total : List (ℕ × ℕ) → ℕ
total [] = 0
total ((_, n) ∷ rest) = n + total rest

-- The exact share of each stream, rounded down.
abbrev pub portions : ℕ → ℕ → List (ℕ × ℕ) → List (ℕ × ℕ)
portions incoming whole [] = []
portions incoming whole ((i, shares) ∷ rest) =
    (i, incoming * shares / whole) ∷ portions incoming whole rest

portion_bounds :
    (incoming whole : ℕ) (xs : List (ℕ × ℕ))
    → 0 < whole
    → (whole * total (portions incoming whole xs) ≤ incoming * total xs)
      × (incoming * total xs + length xs ≤ whole * (total (portions incoming whole xs) + length xs))
portion_bounds incoming whole [] pos = (omega arith, omega arith)
portion_bounds incoming whole ((i, shares) ∷ rest) pos =
    let (low, high) = portion_bounds incoming whole rest pos in
    let t = incoming * shares in
    let d = div-add-mod t whole in
    let m = mod-lt t pos in (omega (arith, low, d), omega (arith, high, d, m))

total-length : (xs : List (ℕ × ℕ)) → 0 < total xs → 0 < length xs
total-length [] h = h
total-length (x ∷ rest) h = omega arith

module _ ⦃api : LongApi⦄ where
  sum_shares_lem :
      (sum : ℕ) (xs : List (ℕ × ℕ))
      → sum + total xs < 2 ^ 64
      → sum_shares sum xs ≡ ok (sum + total xs)
  unfolding sum_shares
  sum_shares_lem sum [] h = ap ok (omega arith)
  sum_shares_lem sum ((i, shares) ∷ rest) h =
      rw
        (
          checked_add_lem sum shares (omega arith) (omega arith),
          lt→ltb (sum + shares) (2 ^ 64) (omega arith),
          sum_shares_lem (sum + shares) rest (omega arith),
        )
        (ap ok (omega arith))

  pub total_money_shares_lem :
      (frames : List Frame)
      → total (money_frames frames) < 2 ^ 64
      → total_money_shares frames ≡ ok (total (money_frames frames))
  unfolding total_money_shares
  total_money_shares_lem frames h =
      sum_shares_lem 0 (money_frames frames) (omega (arith, h)) ∙ ap ok (omega arith)

  stream_amounts_lem :
      (incoming whole : ℕ) (xs : List (ℕ × ℕ))
      → IsLong incoming
      → 0 < whole
      → whole ≤ 2 ^ 63
      → total xs ≤ whole
      → stream_amounts incoming whole xs ≡ ok (portions incoming whole xs)
  unfolding stream_amounts
  stream_amounts_lem incoming whole [] h pos small le = refl
  stream_amounts_lem incoming whole ((i, shares) ∷ rest) h pos small le =
      let t = incoming * shares in
      let part : shares ≤ whole = omega arith in
      let below : t / whole ≤ incoming =
        div-le_of_le-mul whole (omega (arith, mul-le-mul_left incoming part)) in
      let first =
        multiply_divide_floor_exact incoming shares whole h (omega arith) pos small
          (omega (arith, below)) in
      rw (first, stream_amounts_lem incoming whole rest h pos small (omega arith))

  -- Where the amount is a Long and the shares of a packet's money frames sum up to at least 1 and
  -- at most 2 ^ 63, each frame gets its share of the amount rounded down, in the order of the
  -- frames. All of them together get no more than the amount, and less than one unit is lost for
  -- each frame.
  pub amounts_to_receive_lem :
      (incoming : ℕ) (frames : List Frame)
      → IsLong incoming
      → 0 < total (money_frames frames)
      → total (money_frames frames) ≤ 2 ^ 63
      → let shares = money_frames frames in
        let amounts = portions incoming (total shares) shares in
        (amounts_to_receive incoming frames ≡ ok amounts)
        × (total amounts ≤ incoming)
        × (incoming < total amounts + length shares)
  unfolding amounts_to_receive total_money_shares
  amounts_to_receive_lem incoming frames h pos small =
      let shares = money_frames frames in
      let whole = total shares in
      let (low, high) = portion_bounds incoming whole shares pos in
      let sum : sum_shares 0 shares ≡ ok whole =
        sum_shares_lem 0 shares (omega arith) ∙ ap ok (omega arith) in
      (
        rw (sum, stream_amounts_lem incoming whole shares h pos small (omega arith)),
        le_of_mul-le-mul_left (omega (arith, low)) pos,
        lt_of_mul-lt-mul_left whole (omega (arith, high, total-length shares pos)),
      )

  -- A packet that begins with a money frame of no shares, and has no other money frame, makes the
  -- division by the sum of the shares throw.
  pub amounts_to_receive-no_shares :
      (incoming stream_id : ℕ) (rest : List Frame)
      → money_frames rest ≡ []
      → amounts_to_receive incoming (stream_money stream_id 0 ∷ rest) ≡ throw division_by_zero
  unfolding amounts_to_receive total_money_shares sum_shares stream_amounts money_frames
  amounts_to_receive-no_shares incoming stream_id rest h =
      rw (h, checked_add_lem 0 0 (omega arith) (omega arith), multiply_divide_floor-zero incoming 0)
