-- ===== src/Stream/Money/Settling.antt =====
-- A hold from its start to its end.
use ilp_protocol_stream.Base.{
  ℕ, ◌+◌, ◌^◌, ◌<◌, ◌≤◌, ◌≡◌, ◌∙◌, inl, inr, ltb, none, some, Bool-cases, lookup, remove,
  lookup-assign_self, remove-assign, ltb→ge, arith,
}
use ilp_protocol_stream.Long.Bounds.{min_long-min}
use ilp_protocol_stream.Long.Interface.{LongApi}
use ilp_protocol_stream.Stream.{Stream}
use ilp_protocol_stream.Stream.Money.{
  get_amount_available_to_send, hold_amount, hold_outgoing, execute_hold, cancel_hold,
}
use ilp_protocol_stream.Stream.Money.Spending.{Within, available_bound}

module _ ⦃api : LongApi⦄ where
  execute_found :
      (s : Stream) (hold_id a : ℕ)
      → lookup hold_id s.holds ≡ some a
      → execute_hold s hold_id ≡ record s {
        outgoing_held_amount = api.subtract s.outgoing_held_amount a;
        total_sent = api.add s.total_sent a;
        holds = remove hold_id s.holds;
      }
  unfolding execute_hold
  execute_found s hold_id a e = rw (e, execute_hold)

  execute_missing :
      (s : Stream) (hold_id : ℕ) → lookup hold_id s.holds ≡ none → execute_hold s hold_id ≡ s
  unfolding execute_hold
  execute_missing s hold_id e = rw (e, execute_hold)

  cancel_found :
      (s : Stream) (hold_id a : ℕ)
      → lookup hold_id s.holds ≡ some a
      → cancel_hold s hold_id ≡ record s {
        outgoing_held_amount = api.subtract s.outgoing_held_amount a;
        holds = remove hold_id s.holds;
      }
  unfolding cancel_hold
  cancel_found s hold_id a e = rw (e, cancel_hold)

  cancel_missing :
      (s : Stream) (hold_id : ℕ) → lookup hold_id s.holds ≡ none → cancel_hold s hold_id ≡ s
  unfolding cancel_hold
  cancel_missing s hold_id e = rw (e, cancel_hold)

  settle :
      (s : Stream) (hold_id amount : ℕ)
      → s.total_sent + s.outgoing_held_amount + amount < 2 ^ 64
      → lookup hold_id s.holds ≡ none
      → let t = hold_amount s hold_id amount in
        (execute_hold t hold_id ≡ record s { total_sent = s.total_sent + amount })
        × (cancel_hold t hold_id ≡ s)
  unfolding hold_amount
  settle s hold_id amount fits fresh = elim (Bool-cases (ltb 0 amount)) [
    | inl pos ↦
        let up : api.add s.outgoing_held_amount amount ≡ s.outgoing_held_amount + amount =
          omega (arith, api.add_wraps s.outgoing_held_amount amount) in
        let sent : api.add s.total_sent amount ≡ s.total_sent + amount =
          omega (arith, api.add_wraps s.total_sent amount) in
        let down : api.subtract (s.outgoing_held_amount + amount) amount ≡ s.outgoing_held_amount =
          omega (arith, api.subtract_wraps (s.outgoing_held_amount + amount) amount) in
        let found = lookup-assign_self hold_id amount s.holds in
        let gone = remove-assign hold_id amount s.holds fresh in
        (
          rw (pos, up) (execute_found _ hold_id amount found ∙ rw (sent, down, gone)),
          rw (pos, up) (cancel_found _ hold_id amount found ∙ rw (down, gone)),
        )
    | inr idle ↦
        let none_held : amount ≡ 0 = omega (arith, ltb→ge 0 amount idle) in
        (
          rw idle (execute_missing s hold_id fresh ∙ ground arith),
          rw idle (cancel_missing s hold_id fresh),
        )
  ]

  -- An amount that is available is held whole.
  pub hold_outgoing-amount :
      (s : Stream) (hold_id a : ℕ)
      → a ≤ get_amount_available_to_send s
      → (hold_outgoing s hold_id (some a)).1 ≡ a
  unfolding hold_outgoing
  hold_outgoing-amount s hold_id a available =
      omega (arith, min_long-min (get_amount_available_to_send s) a)

  -- On a stream whose amounts and limit are within a bound below 2 ^ 63, a hold under a new name,
  -- of a given amount at most, that is then executed moves exactly the amount held to the total
  -- sent, and changes nothing else; if it is cancelled instead, the stream is the one from before.
  pub hold_outgoing-settled :
      (cap : ℕ) (s : Stream) (hold_id m : ℕ)
      → Within cap s
      → lookup hold_id s.holds ≡ none
      → let (t, amount) = hold_outgoing s hold_id (some m) in
        (execute_hold t hold_id ≡ record s { total_sent = s.total_sent + amount })
        × (cancel_hold t hold_id ≡ s)
  unfolding hold_outgoing
  hold_outgoing-settled cap s hold_id m w fresh =
      let available = available_bound cap s w in
      let bound = min_long-min (get_amount_available_to_send s) m in
      settle s hold_id _ (omega (arith, available, bound)) fresh
