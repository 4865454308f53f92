-- ===== src/Connection/Control.antt =====
-- `handleControlFrames` and `handleStreamClose`: all effects of the frames of a packet but the money.
-- Calls that go on by themselves, events and what goes into Node's buffers are returned as effects;
-- that includes what startSendLoop and destroy do before they first wait, such as taking the numbers of
-- test packets and of a close packet.
pub mod Streams
pub mod Closing
pub mod Flags
use ilp_protocol_stream.Base.{
  ℕ, ◌+◌, ◌-◌, ltb, leb, ◌==◌, ◌&&◌, ◌||◌, not, if◌then◌else◌, List, [], ◌∷◌, ◌++◌, Option, none,
  some, Bool, true, false, lookup, assign,
}
use ilp_protocol_stream.Long.Interface.{LongApi}
use ilp_protocol_stream.Oer.{Bytes}
use ilp_protocol_stream.Stream.{Stream}
use ilp_protocol_stream.Stream.Money.{get_amount_available_to_send}
use ilp_protocol_stream.Stream.Reading.{Reading, push_incoming_data, remote_ended}
use ilp_protocol_stream.Packet.{
  Frame, connection_close, connection_new_address, connection_asset_details, connection_max_data,
  connection_max_stream_id, stream_close, stream_max_money, stream_data, stream_max_data,
}
use ilp_protocol_stream.Connection.{Connection, RemoteState}
use ilp_protocol_stream.Connection.Offsets.{
  handle_connection_max_data, handle_connection_max_stream_id, handle_stream_max_money,
  handle_stream_max_data,
}
use ilp_protocol_stream.Connection.Filling.{Buffers, stream_max_acceptable}

pub data Effect : Type 0 where
  emit_connect end_connection destroy_connection start_send_loop : Effect
  end_stream destroy_stream : ℕ → Effect
  push_data : ℕ → Bytes → Effect

pub record Controlled : Type 0 where
  pub connection : Connection
  pub effects : List Effect

abbrev pub only : Connection → Controlled
only c = record { connection = c; effects = [] }

abbrev is_unknown : Option Bytes → Bool
is_unknown none = true
is_unknown (some account) = false

handle_new_address : Bytes → Connection → Controlled
handle_new_address account c = record {
  connection = record c {
    queued_frames =
        c.queued_frames
        ++ connection_max_stream_id c.max_stream_id
          ∷ connection_asset_details c.source_asset_code c.source_asset_scale
          ∷ [];
    destination_account = some account;
    is_closed = if is_unknown c.destination_account then false else c.is_closed;
  };
  effects = if is_unknown c.destination_account then emit_connect ∷ [] else [];
}

handle_connection_close : ℕ → Connection → Controlled
handle_connection_close error_code c = record {
  connection = record c { sending = false; is_closed = true; remote_state = RemoteState.closed };
  effects = if error_code == 0x01 then end_connection ∷ [] else destroy_connection ∷ [];
}

-- An empty message counts as none.
abbrev error_of : Bytes → Option Bytes
error_of [] = none
error_of (x ∷ xs) = some (x ∷ xs)

abbrev end_effect : ℕ → Bytes → Effect
end_effect stream_id [] = end_stream stream_id
end_effect stream_id (x ∷ xs) = destroy_stream stream_id

close_stream : ℕ → Bytes → Stream → Stream
close_stream stream_id message s = remote_ended (error_of message) (record s { sent_end = true })

closes : ℕ → Bytes → Stream → Connection → Controlled
unfolding close_stream
closes stream_id message s c = if s.closed || s.remote_sent_end then only c else record {
  connection = record c {
    streams = assign stream_id (close_stream stream_id message s) c.streams;
    max_stream_id = c.max_stream_id + 2;
    queued_frames = c.queued_frames ++ connection_max_stream_id (c.max_stream_id + 2) ∷ [];
  };
  effects = end_effect s.id message ∷ start_send_loop ∷ [];
}

pub handle_stream_close : ℕ → Bytes → Connection → Controlled
unfolding closes
handle_stream_close stream_id message c = elim (lookup stream_id c.streams) [
  | none ↦ only c
  | some s ↦ closes stream_id message s c
]

-- The room in Node's buffer, and the test of the peer's data against the stream's window.
room : Buffers → Stream → ℕ
room buffers s = buffers.readable_high_water_mark - buffers.readable_length s

data_effects : Buffers → ℕ → Reading → List Effect
data_effects buffers stream_id r =
    push_data stream_id r.pushed
    ∷ (if ltb (stream_max_acceptable buffers r.stream) r.stream.incoming_data.max_offset
        then destroy_connection ∷ []
        else [])

receives : Buffers → ℕ → ℕ → Bytes → Stream → Connection → Controlled
unfolding room data_effects
receives buffers stream_id offset bytes s c =
    let r = push_incoming_data (room buffers s) bytes offset s in
    record {
      connection = record c { streams = assign stream_id r.stream c.streams };
      effects = data_effects buffers s.id r;
    }

pub handle_stream_data : Buffers → ℕ → ℕ → Bytes → Connection → Controlled
unfolding receives
handle_stream_data buffers stream_id offset bytes c = elim (lookup stream_id c.streams) [
  | none ↦ only c
  | some s ↦ receives buffers stream_id offset bytes s c
]

-- Whether the window that a frame opens starts the send loop; `before` and `after` are the stream.
abbrev max_data_effects : ℕ → Option Stream → List Effect
max_data_effects max_offset none = []
max_data_effects max_offset (some before) =
    if ltb before.remote_max_offset max_offset then start_send_loop ∷ [] else []

module _ ⦃api : LongApi⦄ where
  abbrev max_money_effects : Option Stream → List Effect
  max_money_effects none = []
  max_money_effects (some after) =
      if ltb after.remote_received after.remote_receive_max
        && ltb 0 (get_amount_available_to_send after)
      then start_send_loop ∷ []
      else []

  pub handle_control_frame : Buffers → Frame → Connection → Controlled
  unfolding handle_new_address handle_connection_close
  handle_control_frame buffers (connection_new_address account) c = handle_new_address account c
  handle_control_frame buffers (connection_asset_details code scale) c =
      only (record c { destination_asset = some (code, scale) })
  handle_control_frame buffers (connection_close error_code message) c =
      handle_connection_close error_code c
  handle_control_frame buffers (connection_max_data max_offset) c =
      only (handle_connection_max_data max_offset c)
  handle_control_frame buffers (connection_max_stream_id max_stream_id) c =
      only (handle_connection_max_stream_id max_stream_id c)
  handle_control_frame buffers (stream_close stream_id error_code message) c =
      handle_stream_close stream_id message c
  handle_control_frame buffers (stream_max_money stream_id receive_max total_received) c =
      let d = handle_stream_max_money stream_id receive_max total_received c in
      record { connection = d; effects = max_money_effects (lookup stream_id d.streams) }
  handle_control_frame buffers (stream_data stream_id offset bytes) c =
      handle_stream_data buffers stream_id offset bytes c
  handle_control_frame buffers (stream_max_data stream_id max_offset) c = record {
    connection = handle_stream_max_data stream_id max_offset c;
    effects = max_data_effects max_offset (lookup stream_id c.streams);
  }
  handle_control_frame buffers _ c = only c

  unfoldable pub handle_control_frames : Buffers → List Frame → Connection → Controlled
  unfolding handle_control_frame
  handle_control_frames buffers [] c = only c
  handle_control_frames buffers (frame ∷ rest) c =
      let first = handle_control_frame buffers frame c in
      let more = handle_control_frames buffers rest first.connection in
      record more { effects = first.effects ++ more.effects }
