-- ===== src/Stream/Reading.antt =====
-- The data that a stream receives, from the peer's frames to Node's buffer of the stream, and the end of
-- a stream that the peer closed. Node's buffer itself is not part of the state: what goes into it is
-- returned.
pub mod Draining
use ilp_protocol_stream.Base.{
  ℕ, zero, suc, ◌+◌, ◌-◌, ltb, if◌then◌else◌, List, [], ◌∷◌, ◌++◌, Option, none, some, Bool, true,
  false, length,
}
use ilp_protocol_stream.OffsetSorter
use ilp_protocol_stream.OffsetSorter.{Sorter}
use ilp_protocol_stream.Stream.{Stream}

-- What `_read` pushes, whether it came to a gap or to the end of the data, and the stream.
pub record Reading : Type 0 where
  pub pushed : List ℕ
  pub ran_dry : Bool
  pub stream : Stream

abbrev pub push_before : List ℕ → Reading → Reading
push_before bytes r = record r { pushed = bytes ++ r.pushed }

-- The body of `_read`, on what the sorter gave and with the call for the rest.
read_next : (ℕ → Stream → Reading) → ℕ → Stream → Option (List ℕ) × Sorter → Reading
read_next again size s (none, rest) = record { pushed = []; ran_dry = true; stream = s }
read_next again size s (some bytes, rest) =
    let t = record s { incoming_data = rest } in
    if ltb (length bytes) size
    then push_before bytes (again (size - length bytes) t)
    else record { pushed = bytes; ran_dry = false; stream = t }

read_loop : ℕ → ℕ → Stream → Reading
unfolding read_next
read_loop zero size s = record { pushed = []; ran_dry = false; stream = s }
read_loop (suc fuel) size s = read_next (read_loop fuel) size s (OffsetSorter.read s.incoming_data)

-- Every call takes an entry away, so one more call than there are entries is enough.
pub read : ℕ → Stream → Reading
unfolding read_loop
read size s = read_loop (suc (length s.incoming_data.entries)) size s

-- `_pushIncomingData`, on the room that Node's buffer has; less than none counts as none.
pub push_incoming_data : ℕ → List ℕ → ℕ → Stream → Reading
unfolding read
push_incoming_data room bytes offset s =
    read room (record s { incoming_data = OffsetSorter.push s.incoming_data bytes offset })

-- `_remoteEnded`, with the error's message where there is one: the stream is then destroyed, which
-- Node does by a call of `_destroy`; otherwise it is ended, which is up to Node.
unfoldable pub remote_ended : Option (List ℕ) → Stream → Stream
remote_ended none s = record s { remote_sent_end = true; remote_closed = true }
remote_ended (some message) s = record s {
  remote_sent_end = true;
  remote_closed = true;
  closed = true;
  error_message = some message;
}
