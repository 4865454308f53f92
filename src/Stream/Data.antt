-- ===== src/Stream/Data.antt =====
-- The data that a stream sends: what waits in the queue, and what has to be sent again.
pub mod Pending
use ilp_protocol_stream.Base.{
  ℕ, ◌+◌, ◌-◌, min, ltb, not, ◌||◌, if◌then◌else◌, List, [], ◌∷◌, ◌++◌, Option, none, some, Bool,
  true, false, length, take, drop,
}
use ilp_protocol_stream.DataQueue
use ilp_protocol_stream.DataQueue.{Taken}
use ilp_protocol_stream.OffsetSorter
use ilp_protocol_stream.Stream.{Stream, Segment}

-- What `_getAvailableDataToSend` returns, the write callbacks that it runs, and the stream.
pub record Available : Type 0 where
  pub bytes : Option (List ℕ)
  pub offset : ℕ
  pub called : List ℕ
  pub stream : Stream

retry_first : Stream → ℕ → Segment → List Segment → Available
retry_first s size first rest =
    if ltb size (length first.bytes)
    then record {
      bytes = some (take size first.bytes);
      offset = first.offset;
      called = [];
      stream = record s {
        outgoing_data_to_retry =
            record { bytes = drop size first.bytes; offset = first.offset + size } ∷ rest;
      };
    }
    else record {
      bytes = some first.bytes;
      offset = first.offset;
      called = [];
      stream = record s { outgoing_data_to_retry = rest };
    }

-- The branch without data to retry, on what the queue gave.
new_data : Stream → Option Taken → Available
new_data s none = record { bytes = none; offset = s.outgoing_offset; called = []; stream = s }
new_data s (some t) = record {
  bytes = some t.bytes;
  offset = s.outgoing_offset;
  called = t.called;
  stream = record s {
    outgoing_data = t.queue;
    outgoing_offset = s.outgoing_offset + length t.bytes;
  };
}

available_from : Stream → ℕ → List Segment → Available
unfolding retry_first new_data
available_from s size (first ∷ rest) = retry_first s size first rest
available_from s size [] =
    new_data s (DataQueue.read s.outgoing_data (min size (s.remote_max_offset - s.outgoing_offset)))

-- A window that is already used up, where the difference would be negative, gives 0 bytes either way.
pub get_available_data_to_send : Stream → ℕ → Available
unfolding available_from
get_available_data_to_send s size = available_from s size s.outgoing_data_to_retry

pub resend_outgoing_data : Stream → List ℕ → ℕ → Stream
resend_outgoing_data s bytes offset = record s {
  outgoing_data_to_retry =
      s.outgoing_data_to_retry ++ record { bytes = bytes; offset = offset } ∷ [];
}

pub write : Stream → List ℕ → Option ℕ → Stream
write s bytes callback = record s { outgoing_data = DataQueue.push s.outgoing_data bytes callback }

abbrev has_segments : List Segment → Bool
has_segments [] = false
has_segments (x ∷ xs) = true

pub has_data_to_send : Stream → Bool
has_data_to_send s =
    not (DataQueue.is_empty s.outgoing_data) || has_segments s.outgoing_data_to_retry

pub outgoing_max : Stream → ℕ
outgoing_max s = s.outgoing_offset + DataQueue.byte_length s.outgoing_data

pub is_data_blocked : Stream → Option ℕ
unfolding outgoing_max
is_data_blocked s = if ltb s.remote_max_offset (outgoing_max s) then some (outgoing_max s) else none
