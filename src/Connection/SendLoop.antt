-- ===== src/Connection/SendLoop.antt =====
-- `startSendLoop`: when packets are loaded and sent. Several calls of it may be under way, each of them
-- waiting for something; what happens is a sequence of events. A discovery of the exchange rate, with
-- all its volleys, is one event, and so are the control frames of a packet of the peer, each of them
-- followed by the starts of the loop that it calls for. A turn behind a temporary error does not wait
-- for its delay. The packet that tells the end of the connection takes a number, and closes the peer.
pub mod Single
pub mod Turns
pub mod Waking
use ilp_protocol_stream.Base.{
  ℕ, zero, suc, ◌+◌, ◌||◌, if◌then◌else◌, List, [], ◌∷◌, Option, none, some, Bool, true, false,
  Result, ok, throw, ◌>>=◌,
}
use ilp_protocol_stream.Long.Interface.{LongApi}
use ilp_protocol_stream.Oer.{Bytes, OerApi}
use ilp_protocol_stream.Crypto.{CryptoApi}
use ilp_protocol_stream.Stream.{Stream}
use ilp_protocol_stream.Packet.{Frame, Packet}
use ilp_protocol_stream.Connection.{Connection, RemoteState}
use ilp_protocol_stream.Connection.Filling.{Buffers, Prepared, nothing, packet, load_packet}
use ilp_protocol_stream.Connection.Control.{
  Effect, emit_connect, end_connection, destroy_connection, start_send_loop, end_stream,
  destroy_stream, push_data, handle_control_frames,
}
use ilp_protocol_stream.Connection.Responses.{Response, handle_response, finish_response}
use ilp_protocol_stream.Connection.Discovery.{NumberApi}
use ilp_protocol_stream.Connection.Discovery.Rates.{Network, setup_exchange_rate}

-- What a call that is under way waits for: the exchange rate, the next turn of the event loop, or the
-- response to a packet of an amount from some streams.
pub data Run : Type 0 where
  discovering scheduled : Run
  in_flight : (p : Packet) (amount : ℕ) (sent_from : List ℕ) → Run

-- `finished` counts the events '_send_loop_finished', and `is_destroyed` tells whether the loop has
-- ever destroyed the connection.
pub record SendLoop : Type 0 where
  pub connection : Connection
  pub is_looping : Bool
  pub runs : List Run
  pub finished : ℕ
  pub is_destroyed : Bool

unfoldable pub new_loop : Connection → SendLoop
new_loop c = record {
  connection = c;
  is_looping = false;
  runs = [];
  finished = 0;
  is_destroyed = false;
}

unfoldable pub nth : ℕ → List Run → Option Run
nth n [] = none
nth zero (r ∷ rest) = some r
nth (suc n) (r ∷ rest) = nth n rest

unfoldable pub set_nth : ℕ → Run → List Run → List Run
set_nth n new [] = []
set_nth zero new (r ∷ rest) = new ∷ rest
set_nth (suc n) new (r ∷ rest) = r ∷ set_nth n new rest

unfoldable pub drop_nth : ℕ → List Run → List Run
drop_nth n [] = []
drop_nth zero (r ∷ rest) = rest
drop_nth (suc n) (r ∷ rest) = r ∷ drop_nth n rest

abbrev pub is_remote_closed : RemoteState → Bool
is_remote_closed RemoteState.closed = true
is_remote_closed RemoteState.init = false
is_remote_closed RemoteState.connected = false

abbrev is_missing : Option Bytes → Bool
is_missing none = true
is_missing (some account) = false

-- Where no loop is started: the peer has closed the connection, or its address is unknown.
unfoldable pub refuses_start : Connection → Bool
refuses_start c = is_remote_closed c.remote_state || is_missing c.destination_account

-- The next turn of the loop, up to where it waits.
unfoldable pub next_run : Connection → Run
next_run c = if c.is_connected then scheduled else discovering

unfoldable pub start_loop : SendLoop → SendLoop
unfolding next_run refuses_start
start_loop s =
    if s.is_looping
    then record s { connection = record s.connection { sending = true } }
    else if refuses_start s.connection
    then record s { finished = s.finished + 1 }
    else record s {
      connection = record s.connection { sending = true };
      is_looping = true;
      runs = next_run s.connection ∷ s.runs;
    }

-- `while (this.sending)`, where a turn of the `n`th call has ended.
unfoldable pub continue_loop : ℕ → SendLoop → SendLoop
unfolding next_run set_nth drop_nth
continue_loop n s =
    if s.connection.sending
    then record s { runs = set_nth n (next_run s.connection) s.runs }
    else record s { is_looping = false; runs = drop_nth n s.runs; finished = s.finished + 1 }

-- The handler of errors.
unfoldable pub fail_loop : ℕ → SendLoop → SendLoop
unfolding drop_nth
fail_loop n s = record s { is_looping = false; runs = drop_nth n s.runs; is_destroyed = true }

-- The starts among the effects of control frames.
unfoldable pub perform : List Effect → SendLoop → SendLoop
unfolding start_loop
perform [] s = s
perform (start_send_loop ∷ rest) s = perform rest (start_loop s)
perform (emit_connect ∷ rest) s = perform rest s
perform (end_connection ∷ rest) s = perform rest s
perform (destroy_connection ∷ rest) s = perform rest s
perform (end_stream i ∷ rest) s = perform rest s
perform (destroy_stream i ∷ rest) s = perform rest s
perform (push_data i bytes ∷ rest) s = perform rest s

unfoldable pub end_turn : ℕ → Result (Connection × List Effect) → SendLoop → SendLoop
unfolding continue_loop fail_loop perform
end_turn n (throw e) s = fail_loop n s
end_turn n (ok (c, effects)) s = continue_loop n (perform effects (record s { connection = c }))

module _ ⦃api : LongApi⦄ ⦃oer : OerApi⦄ where
  unfoldable pub load_turn : ℕ → Result Prepared → SendLoop → SendLoop
  unfolding continue_loop fail_loop set_nth
  load_turn n (throw e) s = fail_loop n s
  load_turn n (ok (nothing c)) s = continue_loop n (record s { connection = c })
  load_turn n (ok (packet p amount sent_from called c)) s = record s {
    connection = c;
    runs = set_nth n (in_flight p amount sent_from) s.runs;
  }

module _ ⦃api : LongApi⦄ ⦃oer : OerApi⦄ ⦃crypto : CryptoApi⦄ where
  -- `if (responsePacket) ...`
  unfoldable pub finish_turn :
      Buffers → Packet → ℕ → List ℕ → Option Packet → Connection → Result (Connection × List Effect)
  finish_turn buffers p amount sent_from none c = ok (c, [])
  finish_turn buffers p amount sent_from (some response) c =
      finish_response buffers p.sequence sent_from amount response c

  unfoldable pub respond :
      Buffers
      → Bytes
      → Packet
      → ℕ
      → List ℕ
      → Bytes
      → Response
      → Connection
      → Result (Connection × List Effect)
  unfolding finish_turn
  respond buffers psk_key p amount sent_from execution_condition response c = do
    sent ← handle_response psk_key p amount execution_condition response c
    finish_turn buffers p amount sent_from sent.response sent.connection

module _ ⦃api : LongApi⦄ ⦃oer : OerApi⦄ ⦃crypto : CryptoApi⦄ ⦃number : NumberApi⦄ where
  -- `await this.setupExchangeRate()` and the connection behind it.
  unfoldable pub discover :
      Buffers → Bytes → Network → ℕ → Connection → Result (Connection × List Effect)
  discover buffers psk_key network precision c = do
    found ← setup_exchange_rate buffers psk_key network precision c
    ok (record found.connection { is_connected = true }, found.effects)

-- What happens: a start, a change of the streams by the application, the end of the connection by it,
-- control frames of the peer, the number that a close packet takes and what follows it, and what the
-- `n`th call waits for.
pub data Event : Type 0 where
  starts ends numbers closes : Event
  acts : List (ℕ × Stream) → Event
  receives : List Frame → Event
  ticks : (n : ℕ) → Event
  discovers : (n : ℕ) → Network → Event
  responds : (n : ℕ) (execution_condition : Bytes) → Response → Event

module _ ⦃api : LongApi⦄ ⦃oer : OerApi⦄ ⦃crypto : CryptoApi⦄ ⦃number : NumberApi⦄
    (buffers : Buffers) (psk_key : Bytes) (precision : ℕ) where
  unfoldable pub tick : ℕ → Option Run → SendLoop → SendLoop
  unfolding load_turn
  tick n (some scheduled) s = load_turn n (load_packet buffers s.connection) s
  tick n _ s = s

  unfoldable pub tell_rate : ℕ → Network → Option Run → SendLoop → SendLoop
  unfolding end_turn discover
  tell_rate n network (some discovering) s =
      end_turn n (discover buffers psk_key network precision s.connection) s
  tell_rate n network _ s = s

  unfoldable pub tell_response : ℕ → Bytes → Response → Option Run → SendLoop → SendLoop
  unfolding end_turn respond
  tell_response n execution_condition response (some (in_flight p amount sent_from)) s =
      end_turn n
        (respond buffers psk_key p amount sent_from execution_condition response s.connection) s
  tell_response n execution_condition response _ s = s

  unfoldable pub handle_frames : List Frame → SendLoop → SendLoop
  unfolding perform
  handle_frames [] s = s
  handle_frames (frame ∷ rest) s =
      let controlled = handle_control_frames buffers (frame ∷ []) s.connection in
      handle_frames rest
        (perform controlled.effects (record s { connection = controlled.connection }))

  unfoldable pub run_event : Event → SendLoop → SendLoop
  unfolding start_loop tick tell_rate tell_response handle_frames nth
  run_event starts s = start_loop s
  run_event ends s = record s { connection = record s.connection { is_closed = true } }
  run_event (acts streams) s = record s { connection = record s.connection { streams = streams } }
  run_event numbers s = record s {
    connection = record s.connection {
      next_packet_sequence = s.connection.next_packet_sequence + 1;
    };
  }
  run_event closes s = record s {
    connection = record s.connection { remote_state = RemoteState.closed };
  }
  run_event (receives frames) s = handle_frames frames s
  run_event (ticks n) s = tick n (nth n s.runs) s
  run_event (discovers n network) s = tell_rate n network (nth n s.runs) s
  run_event (responds n execution_condition response) s =
      tell_response n execution_condition response (nth n s.runs) s

  unfoldable pub run_events : List Event → SendLoop → SendLoop
  unfolding run_event
  run_events [] s = s
  run_events (e ∷ es) s = run_events es (run_event e s)
