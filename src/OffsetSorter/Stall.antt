-- ===== src/OffsetSorter/Stall.antt =====
-- Data at an offset that was already read: nothing is read from the sorter any more.
use ilp_protocol_stream.Base.{ℕ, ◌<◌, ◌≡◌, List, [], ◌∷◌, none, arith}
use ilp_protocol_stream.OffsetSorter.{
  Entry, Sorter, insert_entry, push, read_head, read, contiguous_length, byte_length,
}
use ilp_protocol_stream.OffsetSorter.Reassembly.{push_all}

-- The first entry lies below what was read.
abbrev StaleHead : ℕ → List Entry → Type 0
StaleHead r [] = ⊥
StaleHead r (e ∷ rest) = e.offset < r

insert_entry-StaleHead :
    (r : ℕ) (e : Entry) (es : List Entry) → StaleHead r es → StaleHead r (insert_entry e es)
unfolding insert_entry
insert_entry-StaleHead r e [] h = absurd h
insert_entry-StaleHead r e (x ∷ xs) h = ground arith

insert_stale :
    (r : ℕ) (e : Entry) (es : List Entry) → e.offset < r → StaleHead r (insert_entry e es)
unfolding insert_entry
insert_stale r e [] h = h
insert_stale r e (x ∷ xs) h = ground arith

push_all-StaleHead :
    (s : Sorter) (es : List Entry)
    → StaleHead s.read_offset s.entries
    → StaleHead (push_all s es).read_offset (push_all s es).entries
unfolding push_all push
push_all-StaleHead s [] h = h
push_all-StaleHead s (e ∷ rest) h =
    push_all-StaleHead (push s e.bytes e.offset) rest
      (insert_entry-StaleHead s.read_offset e s.entries h)

read_head_stale :
    (s : Sorter) (es : List Entry)
    → StaleHead s.read_offset es
    → (read_head s es ≡ (none, s)) × (contiguous_length s.read_offset es ≡ 0)
unfolding read_head contiguous_length
read_head_stale s [] h = absurd h
read_head_stale s (e ∷ rest) h = (ground arith, ground arith)

-- Once data below the read offset is pushed, as a retransmission is, the sorter is stuck: after any
-- further pushes `read` returns nothing and changes nothing, and no byte counts as readable.
pub push_stale :
    (s : Sorter) (bytes : List ℕ) (offset : ℕ) (later : List Entry)
    → offset < s.read_offset
    → let t = push_all (push s bytes offset) later in (read t ≡ (none, t)) × (byte_length t ≡ 0)
unfolding push read byte_length
push_stale s bytes offset later h =
    let first =
      insert_stale s.read_offset (record { bytes = bytes; offset = offset }) s.entries h in
    let stale = push_all-StaleHead (push s bytes offset) later first in
    read_head_stale (push_all (push s bytes offset) later) _ stale
