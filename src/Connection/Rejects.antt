-- ===== src/Connection/Rejects.antt =====
-- `undoRejectedPacket` and `handleConnectorError`: what a rejected packet of a connection undoes, and
-- what it changes for the next ones. An error that is thrown ends the connection.
pub mod Undoing
pub mod Waiting
pub mod Flags
use ilp_protocol_stream.Base.{
  ℕ, ◌*◌, min, ◌==◌, ◌&&◌, if◌then◌else◌, List, [], ◌∷◌, ◌++◌, Option, none, some, Bool, true,
  false, lookup, assign, Result, ok, throw, ◌>>=◌, ◌>>◌, guard, not, path_blocked,
  unexpected_reject,
}
use ilp_protocol_stream.Long.Interface.{LongApi}
use ilp_protocol_stream.Oer.{Bytes, OerApi}
use ilp_protocol_stream.Stream.{Stream}
use ilp_protocol_stream.Stream.Money.{cancel_hold}
use ilp_protocol_stream.Stream.Data.{resend_outgoing_data}
use ilp_protocol_stream.Packet.{Frame, Packet, stream_close, stream_money, stream_data}
use ilp_protocol_stream.Congestion.{
  maximum_packet_amount, on_amount_too_large_error, on_insufficient_liquidity_error,
}
use ilp_protocol_stream.Connection.{Connection, retry_delay_max}
use ilp_protocol_stream.Connection.Updating.{update_stream}

module _ ⦃api : LongApi⦄ where
  undo_frame : ℕ → Frame → Connection → Connection
  undo_frame sequence (stream_money stream_id shares) c =
      update_stream stream_id (λ s. cancel_hold s sequence) c
  undo_frame sequence (stream_data stream_id offset bytes) c =
      update_stream stream_id (λ s. resend_outgoing_data s bytes offset) c
  undo_frame sequence (stream_close stream_id code message) c = record c {
    queued_frames = c.queued_frames ++ stream_close stream_id code message ∷ [];
  }
  undo_frame sequence _ c = c

  undo_frames : ℕ → List Frame → Connection → Connection
  unfolding undo_frame
  undo_frames sequence [] c = c
  undo_frames sequence (frame ∷ rest) c = undo_frames sequence rest (undo_frame sequence frame c)

  pub undo_rejected_packet : Packet → Connection → Connection
  unfolding undo_frames
  undo_rejected_packet p c = undo_frames p.sequence p.frames c

-- An error code is the list of its characters.
unfoldable pub same_code : List ℕ → List ℕ → Bool
same_code [] [] = true
same_code (x ∷ xs) (y ∷ ys) = (x == y) && same_code xs ys
same_code _ _ = false

-- 'F08' and 'T04'
abbrev pub f08 : List ℕ
f08 = 70 ∷ 48 ∷ 56 ∷ []

abbrev pub t04 : List ℕ
t04 = 84 ∷ 48 ∷ 52 ∷ []

unfoldable pub is_temporary : List ℕ → Bool
is_temporary [] = false
is_temporary (x ∷ xs) = x == 84

-- An ILP reject, as far as it is read.
pub record Reject : Type 0 where
  pub code : List ℕ
  pub bytes : Bytes

-- The connection and the milliseconds that the call waits.
pub record Handled : Type 0 where
  pub connection : Connection
  pub delay : Option ℕ

module _ ⦃api : LongApi⦄ ⦃oer : OerApi⦄ where
  handle_amount_too_large : Reject → ℕ → Connection → Result Handled
  handle_amount_too_large reject amount_sent c = do
    congestion ← on_amount_too_large_error reject.bytes amount_sent c.congestion
    guard (not (maximum_packet_amount congestion == 0)) path_blocked
    ok (record { connection = record c { congestion = congestion }; delay = none })

  pub wait : Connection → Handled
  wait c = record {
    connection = record c { retry_delay = min (c.retry_delay * 2) retry_delay_max };
    delay = some c.retry_delay;
  }

  handle_temporary : Reject → ℕ → Connection → Result Handled
  unfolding wait same_code
  handle_temporary reject amount_sent c =
      if same_code reject.code t04
      then (do
        congestion ← on_insufficient_liquidity_error amount_sent c.congestion
        ok (wait (record c { congestion = congestion })))
      else ok (wait c)

  pub handle_connector_error : Reject → ℕ → Connection → Result Handled
  unfolding handle_amount_too_large handle_temporary is_temporary same_code
  handle_connector_error reject amount_sent c =
      if same_code reject.code f08
      then handle_amount_too_large reject amount_sent c
      else if is_temporary reject.code
      then handle_temporary reject amount_sent c
      else throw unexpected_reject
