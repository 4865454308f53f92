-- ===== src/Stream/Ending.antt =====
-- `_final`, `_destroy` and `_writev` of a stream: what Node calls at its end and to write data. When
-- Node calls them is up to its Duplex class, as are its own events 'end' and 'close'.
pub mod Events
pub mod Writing
use ilp_protocol_stream.Base.{
  ℕ, ◌+◌, ◌-◌, leb, ◌==◌, ◌||◌, if◌then◌else◌, List, [], ◌∷◌, ◌++◌, Option, none, some, Bool, true,
  false,
}
use ilp_protocol_stream.DataQueue
use ilp_protocol_stream.Stream.{Stream}

pub data StreamEvent : Type 0 where
  end_event close_event : StreamEvent

-- The stream with `emittedEnd` and `emittedClose`, what its own code has emitted, how many callbacks of
-- `setImmediate` are to come, and whether `_final` waits for money to be sent.
pub record Ending : Type 0 where
  pub stream : Stream
  pub emitted_end : Bool
  pub emitted_close : Bool
  pub emitted : List StreamEvent
  pub callbacks : ℕ
  pub is_waiting : Bool

pub new_ending : Stream → Ending
new_ending s = record {
  stream = s;
  emitted_end = false;
  emitted_close = false;
  emitted = [];
  callbacks = 0;
  is_waiting = false;
}

-- `finish` of `_final`.
finish : Ending → Ending
finish e = record e {
  stream = record e.stream { closed = true };
  callbacks = e.callbacks + 1;
  is_waiting = false;
}

pub final : Ending → Ending
unfolding finish
final e =
    if e.stream.remote_sent_end || leb e.stream.send_max e.stream.total_sent
    then finish e
    else record e { is_waiting = true }

-- 'outgoing_total_sent', '_send_loop_finished' or 'error', the first of which ends the wait.
pub stop_waiting : Ending → Ending
unfolding finish
stop_waiting e = if e.is_waiting then finish e else e

-- An error is its message.
pub destroy : Option (List ℕ) → Ending → Ending
destroy none e = record e {
  stream = record e.stream { closed = true };
  callbacks = e.callbacks + 1;
}
destroy (some message) e = record e {
  stream = record e.stream { closed = true; error_message = some message };
  callbacks = e.callbacks + 1;
}

emit_end : Ending → Ending
emit_end e =
    if e.emitted_end
    then e
    else record e { emitted_end = true; emitted = e.emitted ++ end_event ∷ [] }

emit_close : Ending → Ending
emit_close e =
    if e.emitted_close
    then e
    else record e { emitted_close = true; emitted = e.emitted ++ close_event ∷ [] }

-- A callback of `setImmediate`.
pub call_back : Ending → Ending
unfolding emit_end emit_close
call_back e =
    if e.callbacks == 0 then e else emit_close (emit_end (record e { callbacks = e.callbacks - 1 }))

-- The listeners of Node's own 'end' and 'close'.
pub node_end : Ending → Ending
node_end e = record e { emitted_end = true }

pub node_close : Ending → Ending
node_close e = record e { emitted_close = true }

-- `_writev`, on the chunks and the callback of the last of them.
pub push_chunks : DataQueue.Queue → List (List ℕ) → ℕ → DataQueue.Queue
push_chunks q [] callback = q
push_chunks q (chunk ∷ []) callback = DataQueue.push q chunk (some callback)
push_chunks q (chunk ∷ next ∷ rest) callback =
    push_chunks (DataQueue.push q chunk none) (next ∷ rest) callback

pub writev : List (List ℕ) → ℕ → Stream → Stream
unfolding push_chunks
writev chunks callback s = record s { outgoing_data = push_chunks s.outgoing_data chunks callback }
