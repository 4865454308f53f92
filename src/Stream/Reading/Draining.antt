-- ===== src/Stream/Reading/Draining.antt =====
-- The loop of `_read` ends, and what it has then pushed.
use ilp_protocol_stream.Base.{
  ℕ, zero, suc, ◌+◌, ◌-◌, ◌≤◌, ◌<◌, ◌≡◌, refl, sym, subst, ap, inl, inr, ltb, ltb→lt, ltb→ge, ◌⊎◌,
  Bool-cases, List, none, some, true, false, length, length-append, arith,
}
use ilp_protocol_stream.OffsetSorter
use ilp_protocol_stream.OffsetSorter.{Sorter}
use ilp_protocol_stream.OffsetSorter.Steps.{read_cases}
use ilp_protocol_stream.Stream.{Stream}
use ilp_protocol_stream.Stream.Reading.{Reading, read_next, read_loop, read, push_incoming_data}

-- What a reading of `size` bytes promises: the read offset has moved by what was pushed, and either
-- the data ran dry, so that nothing more can be read, or all of the bytes wanted were pushed.
pub record Drains (size : ℕ) (s : Stream) (r : Reading) : Type 0 where
  pub moved : r.stream.incoming_data.read_offset ≡ s.incoming_data.read_offset + length r.pushed
  pub enough :
      (r.ran_dry ≡ true) × ((OffsetSorter.read r.stream.incoming_data).0 ≡ none)
      ⊎ (r.ran_dry ≡ false) × (size ≤ length r.pushed)
  pub others : r.stream ≡ record s { incoming_data = r.stream.incoming_data }

read_next-Drains :
    (size : ℕ) (s : Stream) (bytes : List ℕ) (t : Sorter) (again : ℕ → Stream → Reading)
    → t.read_offset ≡ s.incoming_data.read_offset + length bytes
    → Drains
        (size - length bytes)
        (record s { incoming_data = t })
        (again (size - length bytes) (record s { incoming_data = t }))
    → Drains size s (read_next again size s (some bytes, t))
unfolding read_next
read_next-Drains size s bytes t again moved w =
    let more = again (size - length bytes) (record s { incoming_data = t }) in
    let joined = length-append bytes more.pushed in
    elim (Bool-cases (ltb (length bytes) size)) [
      | inl less ↦
          let short = ltb→lt (length bytes) size less in
          rw less (record {
            moved = omega (arith, w.moved, moved, joined);
            enough = elim w.enough [
              | inl dry ↦ inl dry
              | inr (wet, all) ↦ inr (wet, omega (arith, all, joined))
            ];
            others = w.others;
          })
      | inr full ↦ rw full (record {
        moved = moved;
        enough = inr (refl, ltb→ge (length bytes) size full);
        others = refl;
      })
    ]

read_loop-Drains :
    (fuel size : ℕ) (s : Stream)
    → length s.incoming_data.entries < fuel
    → Drains size s (read_loop fuel size s)
unfolding read_loop
read_loop-Drains zero size s h = absurd (omega (arith, h))
read_loop-Drains (suc fuel) size s h = elim (read_cases s.incoming_data) [
  | inl dry ↦
      subst (λ x. Drains size s (read_next (read_loop fuel) size s x)) (sym dry)
        (record { moved = omega arith; enough = inl (refl, ap (λ x. x.0) dry); others = refl })
  | inr (bytes, t, found, moved, fewer) ↦
      let next = record s { incoming_data = t } in
      let w = read_loop-Drains fuel (size - length bytes) next (omega (arith, h, fewer)) in
      subst (λ x. Drains size s (read_next (read_loop fuel) size s x)) (sym found)
        (read_next-Drains size s bytes t (read_loop fuel) moved w)
]

-- For any room and any offset, new data that comes in is read as far as it has no gaps until the room
-- is filled: the loop ends with either all of the room pushed to Node's buffer, or no more data to
-- read; the read offset moves by exactly what was pushed, and nothing else of the stream changes.
pub read-Drains : (size : ℕ) (s : Stream) → Drains size s (read size s)
unfolding read
read-Drains size s = read_loop-Drains (suc (length s.incoming_data.entries)) size s (omega arith)

-- Data that comes in changes the sorter of a stream and nothing else.
pub push_incoming_data-others :
    (room : ℕ) (bytes : List ℕ) (offset : ℕ) (s : Stream)
    → let t = (push_incoming_data room bytes offset s).stream in
      t ≡ record s { incoming_data = t.incoming_data }
unfolding push_incoming_data
push_incoming_data-others room bytes offset s =
    (read-Drains room
      (record s { incoming_data = OffsetSorter.push s.incoming_data bytes offset })).others
