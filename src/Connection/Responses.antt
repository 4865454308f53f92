-- ===== src/Connection/Responses.antt =====
-- `sendPacket` and the end of `loadAndSendPacket`: what the response to a packet does. An error that is
-- thrown ends the connection. What is sent and the waiting after a temporary error are not part of the
-- state.
pub mod Delivered
pub mod Flags
use ilp_protocol_stream.Base.{
  ℕ, ltb, ◌==◌, not, if◌then◌else◌, List, [], ◌∷◌, Option, none, some, Bool, true, false, Result,
  ok, throw, ◌>>=◌, wrong_fulfillment, wrong_sequence, wrong_packet_type, invalid_response,
}
use ilp_protocol_stream.Long.Interface.{LongApi}
use ilp_protocol_stream.Oer.{Bytes, OerApi}
use ilp_protocol_stream.Crypto.{CryptoApi}
use ilp_protocol_stream.Rational.{new_rational}
use ilp_protocol_stream.Receipt.{equals}
use ilp_protocol_stream.Packet.{Frame, Packet, stream_receipt}
use ilp_protocol_stream.Packet.Padding.{decrypt_and_deserialize}
use ilp_protocol_stream.Congestion.{on_fulfill}
use ilp_protocol_stream.Connection.{Connection, RemoteState, retry_delay_start}
use ilp_protocol_stream.Connection.Updating.{update_stream}
use ilp_protocol_stream.Connection.Totals.{add_total_delivered, add_total_sent}
use ilp_protocol_stream.Connection.Rejects.{
  Reject, same_code, undo_rejected_packet, handle_connector_error,
}
use ilp_protocol_stream.Connection.Sending.{execute_holds}
use ilp_protocol_stream.Connection.Filling.{Buffers}
use ilp_protocol_stream.Connection.Control.{Controlled, Effect, handle_control_frames}

-- The response of the ILP connector, as far as it is read.
pub data Response : Type 0 where
  fulfill : (fulfillment bytes : Bytes) → Response
  reject : Reject → Response
  invalid : Response

-- What `sendPacket` returns, and the connection.
pub record Sent : Type 0 where
  pub response : Option Packet
  pub connection : Connection

-- 'F99'
abbrev pub f99 : List ℕ
f99 = 70 ∷ 57 ∷ 57 ∷ []

-- Numbers of the enumeration IlpPacketType.
abbrev type_fulfill : ℕ
type_fulfill = 13

abbrev pub type_reject : ℕ
type_reject = 14

-- The two tests of a response against the request.
unfoldable pub match_response : Packet → ℕ → Packet → Result Packet
match_response p response_type response =
    if not (response.sequence == p.sequence)
    then throw wrong_sequence
    else if not (response.ilp_packet_type == response_type)
    then throw wrong_packet_type
    else ok response

module _ ⦃oer : OerApi⦄ ⦃crypto : CryptoApi⦄ where
  read_response : Bytes → Packet → ℕ → Bytes → Connection → Result Sent
  unfolding match_response
  read_response psk_key p response_type [] c = ok (record { response = none; connection = c })
  read_response psk_key p response_type (b ∷ bytes) c = do
    opened ← decrypt_and_deserialize psk_key (b ∷ bytes)
    matched ← match_response p response_type opened
    ok (record { response = some matched; connection = c })

module _ ⦃api : LongApi⦄ ⦃oer : OerApi⦄ ⦃crypto : CryptoApi⦄ where
  handle_reject : Bytes → Packet → ℕ → Reject → Connection → Result Sent
  unfolding read_response
  handle_reject psk_key p amount r c =
      let undone = undo_rejected_packet p c in
      if not (same_code r.code f99)
      then (do
        handled ← handle_connector_error r amount undone
        ok (record { response = none; connection = handled.connection }))
      else read_response psk_key p type_reject r.bytes undone

  -- What `sendPacket` does with a response to a packet that can be fulfilled.
  pub handle_response : Bytes → Packet → ℕ → Bytes → Response → Connection → Result Sent
  unfolding handle_reject read_response
  handle_response psk_key p amount execution_condition (fulfill fulfillment bytes) c =
      if not (equals (crypto.sha256 fulfillment) execution_condition)
      then throw wrong_fulfillment
      else read_response psk_key p type_fulfill bytes c
  handle_response psk_key p amount execution_condition (reject r) c =
      handle_reject psk_key p amount r c
  handle_response psk_key p amount execution_condition invalid c = throw invalid_response

set_receipts : List Frame → Connection → Connection
set_receipts [] c = c
set_receipts (stream_receipt stream_id receipt ∷ rest) c =
    set_receipts rest (update_stream stream_id (λ s. record s { receipt = some receipt }) c)
set_receipts (_ ∷ rest) c = set_receipts rest c

abbrev connected_from : RemoteState → RemoteState
connected_from RemoteState.init = RemoteState.connected
connected_from state = state

module _ ⦃api : LongApi⦄ where
  -- The part for a fulfill.
  finish_fulfill : ℕ → List ℕ → ℕ → Packet → Connection → Result Connection
  unfolding set_receipts
  finish_fulfill sequence sent_from amount response c = do
    let executed = execute_holds sequence sent_from (set_receipts response.frames c)
    delivered ← add_total_delivered response.prepare_amount executed
    sent ← add_total_sent amount delivered
    congestion ← on_fulfill amount sent.congestion
    ok (record sent { congestion = congestion; retry_delay = retry_delay_start })

  track_rate : ℕ → Packet → Connection → Result Connection
  track_rate amount response c =
      if ltb 0 amount
      then (do
        rate ← new_rational response.prepare_amount amount true
        ok (record c { last_packet_exchange_rate = rate }))
      else ok c

  finish_receipts : ℕ → List ℕ → ℕ → Packet → Connection → Result Connection
  unfolding finish_fulfill
  finish_receipts sequence sent_from amount response c =
      if response.ilp_packet_type == type_fulfill
      then finish_fulfill sequence sent_from amount response c
      else ok c

  -- `if (responsePacket) ...` of `loadAndSendPacket`, on the connection behind `sendPacket`.
  pub finish_response :
      Buffers → ℕ → List ℕ → ℕ → Packet → Connection → Result (Connection × List Effect)
  unfolding track_rate finish_receipts
  finish_response buffers sequence sent_from amount response c = do
    let known = record c {
      remote_state = connected_from c.remote_state;
      remote_knows_our_account = true;
    }
    let controlled = handle_control_frames buffers response.frames known
    tracked ← track_rate amount response controlled.connection
    finished ← finish_receipts sequence sent_from amount response tracked
    ok (finished, controlled.effects)
