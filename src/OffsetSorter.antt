-- ===== src/OffsetSorter.antt =====
-- util/data-offset-sorter.ts: data by byte offset, sorted as it arrives and read without gaps.
-- The linked list of entries is a list, the head first. A Buffer is the list of its bytes.
pub mod Reassembly
pub mod Stall
pub mod Steps
use ilp_protocol_stream.Base.{
  ℕ, zero, suc, ◌+◌, max, ltb, ◌==◌, if◌then◌else◌, List, [], ◌∷◌, ◌++◌, Option, none, some, length,
}

pub record Entry : Type 0 where
  pub bytes : List ℕ
  pub offset : ℕ

pub record Sorter : Type 0 where
  pub entries : List Entry
  pub read_offset : ℕ
  pub max_offset : ℕ

unfoldable pub new_sorter : Sorter
new_sorter = record { entries = []; read_offset = 0; max_offset = 0 }

-- The loop: the entries behind `prev`.
pub insert_after : Entry → List Entry → List Entry
insert_after e [] = e ∷ []
insert_after e (next ∷ rest) =
    if ltb e.offset next.offset then e ∷ next ∷ rest else next ∷ insert_after e rest

pub insert_entry : Entry → List Entry → List Entry
unfolding insert_after
insert_entry e [] = e ∷ []
insert_entry e (head ∷ rest) =
    if ltb e.offset head.offset then e ∷ head ∷ rest else head ∷ insert_after e rest

pub push : Sorter → List ℕ → ℕ → Sorter
push s bytes offset = record {
  entries = insert_entry (record { bytes = bytes; offset = offset }) s.entries;
  read_offset = s.read_offset;
  max_offset = max (offset + length bytes) s.max_offset;
}

read_head : Sorter → List Entry → Option (List ℕ) × Sorter
read_head s [] = (none, s)
read_head s (head ∷ rest) =
    if s.read_offset == head.offset
    then (
      some head.bytes,
      record s { entries = rest; read_offset = head.offset + length head.bytes },
    )
    else (none, s)

pub read : Sorter → Option (List ℕ) × Sorter
unfolding read_head
read s = read_head s s.entries

contiguous_length : ℕ → List Entry → ℕ
contiguous_length offset [] = 0
contiguous_length offset (e ∷ rest) =
    if e.offset == offset
    then length e.bytes + contiguous_length (offset + length e.bytes) rest
    else 0

pub byte_length : Sorter → ℕ
unfolding contiguous_length
byte_length s = contiguous_length s.read_offset s.entries
