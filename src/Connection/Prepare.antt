-- ===== src/Connection/Prepare.antt =====
-- `handlePrepare`: what a connection answers to a packet, stage by stage. What goes on by itself and
-- the events are effects; the application's `shouldFulfill` is a function of the amount and the
-- packet's number, which says whether its promise is kept, and nothing happens while it is awaited.
pub mod Fulfilling
pub mod Handler
pub mod Answers
pub mod Keys
use ilp_protocol_stream.Base.{
  ℕ, ltb, ◌==◌, ◌&&◌, ◌||◌, not, if◌then◌else◌, List, [], ◌∷◌, ◌++◌, Option, none, some, Bool, true,
  false, lookup, assign, Result, ok, throw, Error, no_such_stream,
}
use ilp_protocol_stream.Long.{multiply_divide_floor}
use ilp_protocol_stream.Long.Interface.{LongApi}
use ilp_protocol_stream.Oer.{Bytes, OerApi}
use ilp_protocol_stream.Crypto.{CryptoApi}
use ilp_protocol_stream.Rational.{multiply_by_long_ceil}
use ilp_protocol_stream.Receipt.{equals, create_receipt}
use ilp_protocol_stream.Stream.{Stream}
use ilp_protocol_stream.Stream.Money.{get_amount_stream_can_receive, add_to_incoming}
use ilp_protocol_stream.Packet.{
  Frame, Packet, connection_max_data, stream_close, stream_money, stream_max_money, stream_data,
  stream_max_data, stream_receipt,
}
use ilp_protocol_stream.Packet.Padding.{decrypt_and_deserialize}
use ilp_protocol_stream.Connection.{Connection, RemoteState}
use ilp_protocol_stream.Connection.Updating.{update_stream}
use ilp_protocol_stream.Connection.Totals.{
  add_incoming_hold, remove_incoming_hold, add_total_received,
}
use ilp_protocol_stream.Connection.Shares.{money_frames, total_money_shares}
use ilp_protocol_stream.Connection.Streams.{Outcome, Texts, member, handle_new_stream}
use ilp_protocol_stream.Connection.Offsets.{max_acceptable, exceeds_window}
use ilp_protocol_stream.Connection.Filling.{Buffers, stream_max_acceptable}
use ilp_protocol_stream.Connection.Control.{Effect, destroy_connection, handle_control_frames}

-- An ILP prepare, as far as it is read.
pub record IlpPrepare : Type 0 where
  pub amount : ℕ
  pub bytes : Bytes
  pub execution_condition : Bytes

-- What the handling depends on besides the connection's state: Node's buffers, the texts of messages,
-- the keys, and `shouldFulfill` where there is one.
pub record Environment : Type 0 where
  pub buffers : Buffers
  pub texts : Texts
  pub already_closed : Bytes
  pub psk_key : Bytes
  pub fulfillment_key : Bytes
  pub should_fulfill : Option (ℕ → ℕ → Bool)

-- A fulfill, a reject with the final application error, a reject with the error for an unexpected
-- payment, and an error of another kind that is thrown.
pub data Answer : Type 0 where
  fulfills : (fulfillment : Bytes) (response : Packet) → Answer
  rejects : (response : Packet) → Answer
  refuses : Answer
  fails : Error → Answer

pub record Answered : Type 0 where
  pub answer : Answer
  pub connection : Connection
  pub effects : List Effect

-- The variables of the handler.
pub record Handling : Type 0 where
  pub connection : Connection
  pub response_frames : List Frame
  pub effects : List Effect

-- A stage of the handler goes on with a value, or it has answered.
pub data Stage {ℓ} (A : Type ℓ) : Type ℓ where
  proceeds : A → Stage A
  stops : Answered → Stage A

infixl 5 ◌>>=◌
abbrev pub ◌>>=◌ {ℓ κ} : {A : Type ℓ} {B : Type κ} → Stage A → (A → Stage B) → Stage B
proceeds a >>= next = next a
stops r >>= next = stops r

-- `throwFinalApplicationError`
unfoldable pub final_application_error : {A : Type 0} → Packet → ℕ → Handling → Stage A
final_application_error p amount h = stops (record {
  answer = rejects (record {
    sequence = p.sequence;
    ilp_packet_type = 14;
    prepare_amount = amount;
    frames = h.response_frames ++ h.connection.queued_frames;
  });
  connection = record (h.connection) { queued_frames = [] };
  effects = h.effects;
})

-- A call that can throw; what it throws leaves the handler.
unfoldable pub attempt : {A : Type 0} → Handling → Result A → Stage A
attempt h (ok a) = proceeds a
attempt h (throw e) =
    stops (record { answer = fails e; connection = h.connection; effects = h.effects })

-- The stream that a frame may open, and whether the frame carries money or data.
opens : Frame → Option (ℕ × Bool)
opens (stream_money stream_id shares) = some (stream_id, true)
opens (stream_data stream_id offset bytes) = some (stream_id, true)
opens (stream_max_money stream_id receive_max total_received) = some (stream_id, false)
opens (stream_max_data stream_id max_offset) = some (stream_id, false)
opens _ = none

closes_stream : ℕ → List Frame → Bool
closes_stream stream_id [] = false
closes_stream stream_id (stream_close i code message ∷ rest) =
    (i == stream_id) || closes_stream stream_id rest
closes_stream stream_id (_ ∷ rest) = closes_stream stream_id rest

-- Number of the enumeration ErrorCode.
abbrev stream_state_error : ℕ
stream_state_error = 0x06

answer_closed : Environment → Packet → ℕ → ℕ → Handling → Stage Handling
unfolding closes_stream
answer_closed env p amount stream_id h =
    let queued = h.connection.queued_frames in
    final_application_error p amount (
      if closes_stream stream_id h.response_frames || closes_stream stream_id queued
      then h
      else record h {
        response_frames =
            h.response_frames ++ stream_close stream_id stream_state_error env.already_closed ∷ [];
      })

new_stream_stage : Packet → ℕ → Handling → Outcome → Stage Handling
new_stream_stage p amount h outcome = elim outcome.thrown [
  | none ↦ proceeds (record h { connection = outcome.connection })
  | some e ↦ final_application_error p amount (record h { connection = outcome.connection })
]

open_stream : Environment → Packet → ℕ → ℕ → Bool → Handling → Stage Handling
unfolding answer_closed new_stream_stage
open_stream env p amount stream_id carries h =
    if member stream_id h.connection.closed_streams
    then (if carries then answer_closed env p amount stream_id h else proceeds h)
    else new_stream_stage p amount h (handle_new_stream env.texts stream_id h.connection)

pub open_streams : Environment → Packet → ℕ → List Frame → Handling → Stage Handling
unfolding opens open_stream
open_streams env p amount [] h = proceeds h
open_streams env p amount (frame ∷ rest) h = elim (opens frame) [
  | none ↦ open_streams env p amount rest h
  | some (stream_id, carries) ↦ do
    next ← open_stream env p amount stream_id carries h
    open_streams env p amount rest next
]

pub check_window : Environment → Packet → ℕ → Handling → Stage Handling
check_window env p amount h =
    if exceeds_window env.buffers.readable_length h.connection
    then final_application_error p amount
        (record h { effects = h.effects ++ destroy_connection ∷ [] })
    else proceeds h

pub check_amount : Packet → ℕ → Handling → Stage Handling
check_amount p amount h =
    if ltb amount p.prepare_amount then final_application_error p amount h else proceeds h
