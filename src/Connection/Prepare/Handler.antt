-- ===== src/Connection/Prepare/Handler.antt =====
-- `handlePrepare`, the whole: the stages in the order of the code.
pub mod Earned
pub mod Keys
use ilp_protocol_stream.Base.{ℕ, ◌==◌, not, if◌then◌else◌, List, [], ◌∷◌, ◌++◌, Result, ok, throw}
use ilp_protocol_stream.Long.Interface.{LongApi}
use ilp_protocol_stream.Oer.{Bytes, OerApi}
use ilp_protocol_stream.Crypto.{CryptoApi}
use ilp_protocol_stream.Packet.{Packet, connection_max_data}
use ilp_protocol_stream.Packet.Padding.{decrypt_and_deserialize}
use ilp_protocol_stream.Connection.{Connection}
use ilp_protocol_stream.Connection.Offsets.{max_acceptable}
use ilp_protocol_stream.Connection.Control.{handle_control_frames}
use ilp_protocol_stream.Connection.Prepare.{
  IlpPrepare, Environment, refuses, Answered, Handling, Stage, proceeds, stops, ◌>>=◌, open_streams,
  check_window, check_amount,
}
use ilp_protocol_stream.Connection.Prepare.Fulfilling.{
  check_fulfillment, amounts_for_streams, consent, credit, totals_received, tell_limits,
  add_receipts, answer_fulfill,
}

pub start : Environment → Connection → Handling
start env c = record {
  connection = c;
  response_frames = connection_max_data (max_acceptable env.buffers.readable_length c) ∷ [];
  effects = [];
}

module _ ⦃api : LongApi⦄ where
  pub apply_control_frames : Environment → Packet → Handling → Handling
  apply_control_frames env p h =
      let r = handle_control_frames env.buffers p.frames h.connection in
      record h { connection = r.connection; effects = h.effects ++ r.effects }

module _ ⦃api : LongApi⦄ ⦃crypto : CryptoApi⦄ where
  -- What is tested before any money moves: the handling, the fulfillment and the amounts.
  pub validate :
      Environment → IlpPrepare → Packet → Connection → Stage (Handling × (Bytes × List (ℕ × ℕ)))
  unfolding start apply_control_frames
  validate env prepare p c = do
    opened ← open_streams env p prepare.amount p.frames (start env c)
    inside ← check_window env p prepare.amount (apply_control_frames env p opened)
    enough ← check_amount p prepare.amount inside
    fulfillment ← check_fulfillment env p prepare enough
    moves ← amounts_for_streams env p prepare.amount enough
    proceeds (enough, (fulfillment, moves))

-- A stage that has answered, or the answer that the rest gives.
pub settle : Stage Answered → Answered
settle (proceeds r) = r
settle (stops r) = r

module _ ⦃api : LongApi⦄ ⦃oer : OerApi⦄ ⦃crypto : CryptoApi⦄ where
  pub receive :
      Environment → IlpPrepare → Packet → Handling × (Bytes × List (ℕ × ℕ)) → Stage Answered
  receive env prepare p (h, (fulfillment, moves)) = do
    held ← consent env p prepare.amount h
    let totals = totals_received moves held.connection []
    let told = tell_limits env (record held { connection = credit moves held.connection })
    receipts ← add_receipts totals told
    proceeds (answer_fulfill p prepare.amount fulfillment receipts told)

  pub handle_packet : Environment → IlpPrepare → Packet → Connection → Answered
  unfolding validate receive settle
  handle_packet env prepare p c = settle (validate env prepare p c >>= receive env prepare p)

  pub handle_prepare : Environment → IlpPrepare → Connection → Answered
  unfolding handle_packet
  handle_prepare env prepare c =
      let refused : Answered = record { answer = refuses; connection = c; effects = [] } in
      elim (decrypt_and_deserialize env.psk_key prepare.bytes) [
        | throw e ↦ refused
        | ok p ↦ if not (p.ilp_packet_type == 12) then refused else handle_packet env prepare p c
      ]
