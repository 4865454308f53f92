-- ===== src/Connection/Totals/Holding.antt =====
-- What the totals and the hold of a connection amount to.
use ilp_protocol_stream.Base.{
  refl, Bool, true, false, Error, sym, ◌∙◌, ℕ, ◌+◌, ◌*◌, ◌^◌, ◌≤◌, ◌<◌, ◌≡◌, ap, inl, inr,
  Bool-cases, ltb, ltb→lt, ltb→ge, lt→ltb, le→ltb, if◌then◌else◌, ok, throw, total_overflow, arith,
}
use ilp_protocol_stream.Long.{checked_add}
use ilp_protocol_stream.Long.Bounds.{checked_add_lem, checked_subtract-ge}
use ilp_protocol_stream.Long.Interface.{LongApi, IsLong, max_unsigned}
use ilp_protocol_stream.Connection.{Connection}
use ilp_protocol_stream.Connection.Totals.{
  add_incoming_hold, remove_incoming_hold, add_total_received, add_total_sent, add_total_delivered,
  receive_packet, receive_packets,
}

returned :
    {A : Type 0} (wraps : Bool) (e : Error) (value result : A)
    → (if wraps then throw e else ok value) ≡ ok result
    → value ≡ result
returned true e value result h = cc
returned false e value result h = cc

module _ ⦃api : LongApi⦄ where
  -- A hold is refused, by throwing, exactly when what was received, what is held and the new amount
  -- together pass 2 ^ 64 - 1; otherwise the hold becomes the three of them together, that is it
  -- counts what was received already.
  pub add_incoming_hold_lem :
      (value : ℕ) (c : Connection)
      → IsLong c.total_received
      → IsLong c.incoming_hold
      → 0 < value
      → IsLong value
      → let sum = c.total_received + c.incoming_hold + value in
        add_incoming_hold value c
        ≡ (if ltb sum (2 ^ 64) then ok (record c { incoming_hold = sum }) else throw total_overflow)
  unfolding add_incoming_hold
  add_incoming_hold_lem value c hr hh pos hv =
      let r = c.total_received in
      let h = c.incoming_hold in
      let first = checked_add_lem r h hr hh in
      elim (Bool-cases (ltb (r + h) (2 ^ 64))) [
        | inl e ↦
            let second = checked_add_lem (r + h) value (ltb→lt (r + h) (2 ^ 64) e) hv in
            elim (Bool-cases (ltb (r + h + value) (2 ^ 64))) [
              | inl e' ↦ rw (first, e, second, e')
              | inr e' ↦ rw (first, e, second, e')
            ]
        | inr e ↦
            let past = ltb→ge (r + h) (2 ^ 64) e in
            rw (
              first,
              e,
              checked_add_lem max_unsigned value (omega arith) hv,
              le→ltb (max_unsigned + value) (2 ^ 64) (omega arith),
              le→ltb (r + h + value) (2 ^ 64) (omega arith),
            )
      ]

  -- Where a positive amount, what was received and what is held together fit a Long, a packet of
  -- that amount that is fulfilled adds its amount to what was received, exactly; and leaves a hold
  -- of all that was received and held before the packet.
  pub receive_packet_lem :
      (value : ℕ) (c : Connection)
      → 0 < value
      → c.total_received + c.incoming_hold + value < 2 ^ 64
      → receive_packet value c
        ≡ ok (record c {
          total_received = c.total_received + value;
          incoming_hold = c.total_received + c.incoming_hold;
        })
  unfolding receive_packet remove_incoming_hold add_total_received
  receive_packet_lem value c pos fits =
      let r = c.total_received in
      let h = c.incoming_hold in
      let held = add_incoming_hold_lem value c (omega arith) (omega arith) pos (omega arith) in
      rw
        (
          held,
          lt→ltb (r + h + value) (2 ^ 64) fits,
          checked_subtract-ge (r + h + value) value fits (omega arith),
          checked_add_lem r value (omega arith) (omega arith),
          lt→ltb (r + value) (2 ^ 64) (omega arith),
        )
        (ap (λ v. ok (record c { total_received = r + value; incoming_hold = v })) (omega arith))

  -- Three packets of one amount on a connection that holds and has received nothing: the third one
  -- is refused although all three together fit, for any amount from 2 ^ 62 up to a third of 2 ^
  -- 64.
  pub receive_packets-refused :
      (value : ℕ) (c : Connection)
      → c.total_received ≡ 0
      → c.incoming_hold ≡ 0
      → 2 ^ 62 ≤ value
      → 3 * value < 2 ^ 64
      → (receive_packets 3 value c ≡ throw total_overflow)
        × ((d : Connection) × (receive_packets 2 value c ≡ ok d)
            × (d.total_received + value < 2 ^ 64))
  unfolding receive_packets receive_packet
  receive_packets-refused value c r h lo hi =
      let one = record c {
        total_received = c.total_received + value;
        incoming_hold = c.total_received + c.incoming_hold;
      } in
      let two = record one {
        total_received = one.total_received + value;
        incoming_hold = one.total_received + one.incoming_hold;
      } in
      let first = receive_packet_lem value c (omega arith) (omega (arith, r, h)) in
      let second = receive_packet_lem value one (omega arith) (omega (arith, r, h)) in
      let third =
        add_incoming_hold_lem value two (omega (arith, r, h)) (omega (arith, r, h)) (omega arith)
          (omega arith) in
      let past =
        le→ltb (two.total_received + two.incoming_hold + value) (2 ^ 64) (omega (arith, r, h)) in
      (rw (first, second, third, past), (two, rw (first, second), omega (arith, r, h)))

  -- What was sent and what was delivered are exact totals, and a packet that would take one of them
  -- past 2 ^ 64 - 1 throws.
  pub add_totals_lem :
      (value : ℕ) (c : Connection)
      → IsLong value
      → IsLong c.total_sent
      → IsLong c.total_delivered
      → (add_total_sent value c ≡ (
          if ltb (c.total_sent + value) (2 ^ 64)
          then ok (record c { total_sent = c.total_sent + value })
          else throw total_overflow))
        × (add_total_delivered value c ≡ (
            if ltb (c.total_delivered + value) (2 ^ 64)
            then ok (record c { total_delivered = c.total_delivered + value })
            else throw total_overflow))
  unfolding add_total_sent add_total_delivered
  add_totals_lem value c hv hs hd = (
    elim (Bool-cases (ltb (c.total_sent + value) (2 ^ 64))) [
      | inl e ↦ rw (checked_add_lem c.total_sent value hs hv, e)
      | inr e ↦ rw (checked_add_lem c.total_sent value hs hv, e)
    ],
    elim (Bool-cases (ltb (c.total_delivered + value) (2 ^ 64))) [
      | inl e ↦ rw (checked_add_lem c.total_delivered value hd hv, e)
      | inr e ↦ rw (checked_add_lem c.total_delivered value hd hv, e)
    ],
  )

  -- A hold touches no stream and no total.
  pub add_incoming_hold-kept :
      (value : ℕ) (c d : Connection)
      → add_incoming_hold value c ≡ ok d
      → d ≡ record c { incoming_hold = d.incoming_hold }
  unfolding add_incoming_hold
  add_incoming_hold-kept value c d e =
      let held = returned _ total_overflow (record c { incoming_hold = _ }) d e in
      sym held ∙ ap (λ x. record c { incoming_hold = x.incoming_hold }) held

  pub remove_incoming_hold-kept :
      (value : ℕ) (c : Connection)
      → let d = remove_incoming_hold value c in d ≡ record c { incoming_hold = d.incoming_hold }
  unfolding remove_incoming_hold
  remove_incoming_hold-kept value c = refl

  pub receive_total :
      (value : ℕ) (c : Connection)
      → (add_total_received value (remove_incoming_hold value c)).total_received
        ≡ (checked_add c.total_received value).value
  unfolding add_total_received remove_incoming_hold
  receive_total value c = refl
