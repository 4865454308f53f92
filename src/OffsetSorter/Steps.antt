-- ===== src/OffsetSorter/Steps.antt =====
-- One call of `read`: it finds nothing and changes nothing, or it takes the first entry away.
use ilp_protocol_stream.Base.{
  ℕ, suc, ◌+◌, ◌≡◌, refl, inl, inr, ◌⊎◌, ◌==◌, ==→eq, Bool-cases, List, [], ◌∷◌, none, some, length,
  arith,
}
use ilp_protocol_stream.OffsetSorter.{Entry, Sorter, read_head, read}

head_cases :
    (s : Sorter) (es : List Entry)
    → (read_head s es ≡ (none, s))
      ⊎ ((bytes : List ℕ) × (t : Sorter) × (read_head s es ≡ (some bytes, t))
          × (t.read_offset ≡ s.read_offset + length bytes)
          × (suc (length t.entries) ≡ length es))
unfolding read_head
head_cases s [] = inl refl
head_cases s (head ∷ rest) = elim (Bool-cases (s.read_offset == head.offset)) [
  | inl e ↦ inr (
    head.bytes,
    record s { entries = rest; read_offset = head.offset + length head.bytes },
    rw e refl,
    omega (arith, ==→eq s.read_offset head.offset e),
    refl,
  )
  | inr e ↦ inl (rw e refl)
]

pub read_cases :
    (s : Sorter)
    → (read s ≡ (none, s))
      ⊎ ((bytes : List ℕ) × (t : Sorter) × (read s ≡ (some bytes, t))
          × (t.read_offset ≡ s.read_offset + length bytes)
          × (suc (length t.entries) ≡ length s.entries))
unfolding read
read_cases s = head_cases s s.entries
