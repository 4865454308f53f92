-- ===== src/DataQueue.antt =====
-- util/data-queue.ts: chunks of outgoing data, taken off the front by bytes. The linked list is a
-- list, the head first; a callback is the number that stands for it.
pub mod Contents
use ilp_protocol_stream.Base.{
  ℕ, zero, suc, ◌+◌, ◌-◌, ltb, ◌==◌, if◌then◌else◌, List, [], ◌∷◌, ◌++◌, Option, none, some, Bool,
  length, take, drop,
}

pub record Chunk : Type 0 where
  pub bytes : List ℕ
  pub callback : Option ℕ

pub record Queue : Type 0 where
  pub chunks : List Chunk
  pub count : ℕ

-- What a call of `read` does: the bytes it returns, the callbacks it runs, in order, and the queue.
pub record Taken : Type 0 where
  pub bytes : List ℕ
  pub called : List ℕ
  pub queue : Queue

unfoldable pub new_queue : Queue
new_queue = record { chunks = []; count = 0 }

pub push : Queue → List ℕ → Option ℕ → Queue
push q bytes callback = record {
  chunks = q.chunks ++ record { bytes = bytes; callback = callback } ∷ [];
  count = q.count + 1;
}

abbrev pub call : Option ℕ → List ℕ → List ℕ
call none later = later
call (some c) later = c ∷ later

-- The loop of `read`, on the chunks that are left and their count.
pub take_bytes : ℕ → List Chunk → ℕ → Taken
take_bytes n [] count = record {
  bytes = [];
  called = [];
  queue = record { chunks = []; count = count };
}
take_bytes n (c ∷ rest) count =
    let more = take_bytes (n - length c.bytes) rest (count - 1) in
    let whole : Taken = record {
      bytes = c.bytes ++ more.bytes;
      called = call c.callback more.called;
      queue = more.queue;
    } in
    let part : Taken = record {
      bytes = take n c.bytes;
      called = [];
      queue = record { chunks = record c { bytes = drop n c.bytes } ∷ rest; count = count };
    } in
    let stop : Taken = record {
      bytes = [];
      called = [];
      queue = record { chunks = c ∷ rest; count = count };
    } in
    if n == 0 then stop else if ltb n (length c.bytes) then part else whole

-- `undefined`, on an empty queue, is `none`.
pub read : Queue → ℕ → Option Taken
read q n = elim q.chunks [ [] ↦ none | c ∷ rest ↦ some (take_bytes n (c ∷ rest) q.count) ]

pub is_empty : Queue → Bool
is_empty q = q.count == 0

chunk_lengths : List Chunk → ℕ
chunk_lengths [] = 0
chunk_lengths (c ∷ rest) = length c.bytes + chunk_lengths rest

pub byte_length : Queue → ℕ
unfolding chunk_lengths
byte_length q = chunk_lengths q.chunks
