-- ===== src/Connection/Reaching.antt =====
-- The connections that can come about: what a connection does by itself, what the application has it
-- do, and what the peer's packets and responses do, in any order. An operation that waits has a step
-- for each of its parts, so that others come in between.
use ilp_protocol_stream.Base.{ℕ, ◌+◌, ◌≡◌, List, Option, Bool, true, ok}
use ilp_protocol_stream.Long.Interface.{LongApi}
use ilp_protocol_stream.Oer.{Bytes, OerApi}
use ilp_protocol_stream.Crypto.{CryptoApi}
use ilp_protocol_stream.Rational.{Rational}
use ilp_protocol_stream.Congestion.{CongestionController}
use ilp_protocol_stream.Stream.{Stream}
use ilp_protocol_stream.Packet.{Frame, Packet}
use ilp_protocol_stream.Connection.{Connection, RemoteState, Options, new_connection}
use ilp_protocol_stream.Connection.Updating.{update_stream}
use ilp_protocol_stream.Connection.Streams.{
  Texts, is_known, create_stream, handle_new_stream, remove_stream_record,
}
use ilp_protocol_stream.Connection.Filling.{Buffers, Prepared, load_packet}
use ilp_protocol_stream.Connection.Filling.Keys.{connection_of}
use ilp_protocol_stream.Connection.Control.{Effect, handle_control_frames}
use ilp_protocol_stream.Connection.Rejects.{undo_rejected_packet}
use ilp_protocol_stream.Connection.Prepare.{IlpPrepare, Environment}
use ilp_protocol_stream.Connection.Prepare.Handler.{handle_prepare}
use ilp_protocol_stream.Connection.Responses.{Response, Sent, handle_response, finish_response}
use ilp_protocol_stream.Connection.Discovery.{TestResult, handle_test_result}

module _ ⦃api : LongApi⦄ ⦃oer : OerApi⦄ ⦃crypto : CryptoApi⦄ where
  pub data Reachable : Connection → Type 0 where
    fresh : (opts : Options) → Reachable (new_connection opts)
    -- The streams: `createStream`, `handleNewStream`, `removeStreamRecord` for a stream of the
    -- connection, and whatever the application and the peer do with one stream.
    opened : {c : Connection} → Reachable c → Reachable (create_stream c).connection
    framed :
        {c : Connection} (texts : Texts) (stream_id : ℕ)
        → Reachable c
        → Reachable (handle_new_stream texts stream_id c).connection
    ended :
        {c : Connection} (s : Stream)
        → is_known s.id c ≡ true
        → Reachable c
        → Reachable (remove_stream_record s c).0
    acted :
        {c : Connection} (stream_id : ℕ) (act : Stream → Stream)
        → Reachable c
        → Reachable (update_stream stream_id act c)
    -- A packet of the peer, and the frames alone of a packet or a response.
    answered :
        {c : Connection} (env : Environment) (prepare : IlpPrepare)
        → Reachable c
        → Reachable (handle_prepare env prepare c).connection
    controlled :
        {c : Connection} (buffers : Buffers) (frames : List Frame)
        → Reachable c
        → Reachable (handle_control_frames buffers frames c).connection
    -- A packet of its own: the load, and the two parts of what follows its response.
    loaded :
        {c : Connection} (buffers : Buffers) (r : Prepared)
        → load_packet buffers c ≡ ok r
        → Reachable c
        → Reachable (connection_of r)
    responded :
        {c : Connection} (psk_key : Bytes) (p : Packet) (amount : ℕ) (condition : Bytes)
        (response : Response) (s : Sent)
        → handle_response psk_key p amount condition response c ≡ ok s
        → Reachable c
        → Reachable s.connection
    finished :
        {c : Connection} (buffers : Buffers) (sequence : ℕ) (ids : List ℕ) (amount : ℕ)
        (response : Packet) (r : Connection × List Effect)
        → finish_response buffers sequence ids amount response c ≡ ok r
        → Reachable c
        → Reachable r.0
    undone : {c : Connection} (p : Packet) → Reachable c → Reachable (undo_rejected_packet p c)
    -- A number for a test packet or a close packet, a result of a test packet, and what a discovery
    -- finds.
    numbered :
        {c : Connection}
        → Reachable c
        → Reachable (record c { next_packet_sequence = c.next_packet_sequence + 1 })
    tested :
        {c : Connection} (buffers : Buffers) (result : TestResult)
        → Reachable c
        → Reachable (handle_test_result buffers c result).connection
    measured :
        {c : Connection} (congestion : CongestionController) (exchange_rate : Option Rational)
        → Reachable c
        → Reachable (record c { congestion = congestion; exchange_rate = exchange_rate })
    -- The flags, the frames that wait, and the connection's totals.
    flagged :
        {c : Connection} (sending is_connected is_closed : Bool) (remote_state : RemoteState)
        → Reachable c
        → Reachable (record c {
          sending = sending;
          is_connected = is_connected;
          is_closed = is_closed;
          remote_state = remote_state;
        })
    counted :
        {c : Connection} (queued_frames : List Frame) (incoming_hold total_received : ℕ)
        → Reachable c
        → Reachable (record c {
          queued_frames = queued_frames;
          incoming_hold = incoming_hold;
          total_received = total_received;
        })
