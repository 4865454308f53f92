-- ===== src/Stream/Money.antt =====
-- The limits, totals and holds of a stream.
pub mod Spending
pub mod Settling
pub mod Limits
use ilp_protocol_stream.Base.{
  ℕ, ltb, leb, ◌==◌, not, if◌then◌else◌, List, [], ◌∷◌, Option, none, some, Bool, true, false,
  lookup, assign, remove, Result, ok, throw, stream_closed, send_max_below_total_sent,
  receive_max_below_total_received, receive_max_decreased,
}
use ilp_protocol_stream.Long.{checked_add, checked_subtract, min_long}
use ilp_protocol_stream.Long.Interface.{LongApi}
use ilp_protocol_stream.Stream.{Stream}

-- `setSendMax` on a limit that is an unsigned Long already. A refused call changes nothing.
pub set_send_max : Stream → ℕ → Result Stream
set_send_max s limit =
    if s.closed
    then throw stream_closed
    else if ltb limit s.total_sent
    then throw send_max_below_total_sent
    else ok (record s { send_max = limit })

pub set_receive_max : Stream → ℕ → Result Stream
set_receive_max s limit =
    if s.closed
    then throw stream_closed
    else if ltb limit s.total_received
    then throw receive_max_below_total_received
    else if ltb limit s.receive_max
    then throw receive_max_decreased
    else ok (record s { receive_max = limit })

module _ ⦃api : LongApi⦄ where
  unfoldable pub get_amount_stream_can_receive : Stream → ℕ
  get_amount_stream_can_receive s =
      if ltb s.receive_max s.total_received
      then 0
      else (checked_subtract s.receive_max s.total_received).value

  unfoldable pub add_to_incoming : Stream → ℕ → Stream
  add_to_incoming s amount = record s {
    total_received = (checked_add s.total_received amount).value;
  }

  pub get_amount_available_to_send : Stream → ℕ
  get_amount_available_to_send s =
      let left = (checked_subtract s.send_max s.total_sent).value in
      let available = (checked_subtract left s.outgoing_held_amount).value in
      if s.closed then 0 else available

  hold_amount : Stream → ℕ → ℕ → Stream
  hold_amount s hold_id amount =
      if ltb 0 amount
      then record s {
        outgoing_held_amount = api.add s.outgoing_held_amount amount;
        holds = assign hold_id amount s.holds;
      }
      else s

  -- `_holdOutgoing` with its optional limit: the stream, and the amount that was held.
  pub hold_outgoing : Stream → ℕ → Option ℕ → Stream × ℕ
  unfolding get_amount_available_to_send hold_amount
  hold_outgoing s hold_id max_amount =
      let available = get_amount_available_to_send s in
      let amount : ℕ = elim max_amount [ none ↦ available | some m ↦ min_long available m ] in
      (hold_amount s hold_id amount, amount)

  pub execute_hold : Stream → ℕ → Stream
  execute_hold s hold_id = elim (lookup hold_id s.holds) [
    | none ↦ s
    | some amount ↦ record s {
      outgoing_held_amount = api.subtract s.outgoing_held_amount amount;
      total_sent = api.add s.total_sent amount;
      holds = remove hold_id s.holds;
    }
  ]

  pub cancel_hold : Stream → ℕ → Stream
  cancel_hold s hold_id = elim (lookup hold_id s.holds) [
    | none ↦ s
    | some amount ↦ record s {
      outgoing_held_amount = api.subtract s.outgoing_held_amount amount;
      holds = remove hold_id s.holds;
    }
  ]
