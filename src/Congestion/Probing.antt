-- ===== src/Congestion/Probing.antt =====
-- How `onFulfill` looks for the maximum packet amount.
use ilp_protocol_stream.Base.{
  ℕ, zero, suc, ◌+◌, ◌*◌, ◌/◌, ◌≤◌, ◌<◌, min, ◌≡◌, ap, ◌∙◌, inl, inr, ◌&&◌, ltb, ◌==◌,
  if◌then◌else◌, Bool-cases, Result, ok, ◌>>=◌, arith,
}
use ilp_protocol_stream.Long.Bounds.{min_long-min, checked_add_lem, checked_multiply-two}
use ilp_protocol_stream.Long.Interface.{LongApi, IsLong, max_unsigned}
use ilp_protocol_stream.Congestion.{
  CongestionController, maximum_packet_amount, raised_limit, on_fulfill,
}

module _ ⦃api : LongApi⦄ where
  raised_limit_lem :
      (test maximum : ℕ)
      → 0 < test
      → IsLong test
      → IsLong maximum
      → raised_limit test maximum
        ≡ ok (
            if maximum == max_unsigned
            then min (2 * test) max_unsigned
            else min (test + maximum / 10) maximum)
  unfolding raised_limit
  raised_limit_lem test maximum pos ht hm =
      let twice = checked_multiply-two test pos ht in
      let more = checked_add_lem test (maximum / 10) ht (omega arith) in
      elim (Bool-cases (maximum == max_unsigned)) [
        | inl e ↦ rw (e, twice) (ap ok (ground arith))
        | inr e ↦
            rw (e, api.divide_floors maximum 10 (omega arith), more)
              (ap ok (min_long-min _ maximum ∙ ground arith))
      ]

  -- With sizes that are Longs and a positive size to be tried, a fulfilled packet raises that size
  -- only if it was of that size and the size is below the maximum: to the double while no maximum
  -- is known, and by a tenth of the maximum once one is, never above the maximum. It changes
  -- nothing else.
  pub on_fulfill_lem :
      (amount_sent : ℕ) (s : CongestionController)
      → 0 < s.test_maximum_packet_amount
      → IsLong s.test_maximum_packet_amount
      → IsLong (maximum_packet_amount s)
      → let test = s.test_maximum_packet_amount in
        let maximum = maximum_packet_amount s in
        on_fulfill amount_sent s
        ≡ ok (record s {
          test_maximum_packet_amount =
              if amount_sent == test && ltb test maximum
              then (if maximum == max_unsigned
                  then min (2 * test) max_unsigned
                  else min (test + maximum / 10) maximum)
              else test;
        })
  unfolding on_fulfill
  on_fulfill_lem amount_sent s pos ht hm =
      let test = s.test_maximum_packet_amount in
      let maximum = maximum_packet_amount s in
      elim (Bool-cases (amount_sent == test && ltb test maximum)) [
        | inl h ↦ rw (h, raised_limit_lem test maximum pos ht hm)
        | inr h ↦ rw h
      ]

  -- A series of packets of the size to be tried, all fulfilled.
  pub fulfill_times : ℕ → CongestionController → Result CongestionController
  fulfill_times zero s = ok s
  fulfill_times (suc n) s = on_fulfill s.test_maximum_packet_amount s >>= fulfill_times n

  step_lem :
      (s : CongestionController)
      → 0 < s.test_maximum_packet_amount
      → s.test_maximum_packet_amount ≤ maximum_packet_amount s
      → maximum_packet_amount s < max_unsigned
      → on_fulfill s.test_maximum_packet_amount s
        ≡ ok (record s {
          test_maximum_packet_amount =
              min
                (s.test_maximum_packet_amount + maximum_packet_amount s / 10)
                (maximum_packet_amount s);
        })
  step_lem s pos le known =
      let raised = on_fulfill_lem s.test_maximum_packet_amount s pos (omega arith) (omega arith) in
      raised ∙ ap (λ v. ok (record s { test_maximum_packet_amount = v })) (ground arith)

  fulfill_times_lem :
      (n : ℕ) (s : CongestionController)
      → 0 < s.test_maximum_packet_amount
      → s.test_maximum_packet_amount ≤ maximum_packet_amount s
      → maximum_packet_amount s < max_unsigned
      → fulfill_times n s
        ≡ ok (record s {
          test_maximum_packet_amount =
              min
                (s.test_maximum_packet_amount + n * (maximum_packet_amount s / 10))
                (maximum_packet_amount s);
        })
  unfolding fulfill_times maximum_packet_amount
  fulfill_times_lem zero s pos le known =
      ap (λ v. ok (record s { test_maximum_packet_amount = v })) (ground arith)
  fulfill_times_lem (suc n) s pos le known =
      let test = s.test_maximum_packet_amount in
      let maximum = maximum_packet_amount s in
      let next = record s { test_maximum_packet_amount = min (test + maximum / 10) maximum } in
      rw (step_lem s pos le known, fulfill_times_lem n next (ground arith) (ground arith) known)
        (ap (λ v. ok (record s { test_maximum_packet_amount = v })) (ground arith))

  -- Where the size to be tried is positive and at most the maximum, and that is known and at least
  -- 10, a series of 19 fulfilled packets of the size to be tried takes that size to exactly the
  -- maximum.
  pub fulfill_times-maximum :
      (s : CongestionController)
      → 0 < s.test_maximum_packet_amount
      → s.test_maximum_packet_amount ≤ maximum_packet_amount s
      → 10 ≤ maximum_packet_amount s
      → maximum_packet_amount s < max_unsigned
      → fulfill_times 19 s ≡ ok (record s { test_maximum_packet_amount = maximum_packet_amount s })
  fulfill_times-maximum s pos le ten known =
      fulfill_times_lem 19 s pos le known
      ∙ ap (λ v. ok (record s { test_maximum_packet_amount = v })) (ground arith)
