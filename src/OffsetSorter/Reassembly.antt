-- ===== src/OffsetSorter/Reassembly.antt =====
-- Chunks that arrive in any order are read back in the order of their offsets.
use ilp_protocol_stream.Base.{
  ℕ, zero, suc, ◌+◌, ◌≤◌, ◌<◌, ◌≡◌, refl, sym, ap, ◌∙◌, ◌≢◌, le→ltb, List, [], ◌∷◌, ◌++◌, map,
  Option, none, some, length, length-append, eq→==, All, arith,
}
use mathlib.Core.List.{foldl, Perm, Permᴰ, Nodup, Nodup-cons, Nodup-nil, mem-cons_self}
use mathlib.Core.List.{Mem, mem-cons, not-mem-nil, append-nil, append_assoc}
use mathlib.Core.Logic.Or
use mathlib.Core.HLevel.{⊥_prop}
use mathlib.Core.Logic.{∥∥₁_elim}
use mathlib.Core.List.Perm
use ilp_protocol_stream.OffsetSorter.{
  Entry, Sorter, new_sorter, insert_after, insert_entry, push, read, byte_length, contiguous_length,
}

-- The head is treated as every other entry.
insert_entry-after : (e : Entry) (l : List Entry) → insert_entry e l ≡ insert_after e l
unfolding insert_entry
insert_entry-after e [] = refl
insert_entry-after e (x ∷ xs) = refl

insert_after_comm :
    (a b : Entry) (l : List Entry)
    → a.offset ≢ b.offset
    → insert_after a (insert_after b l) ≡ insert_after b (insert_after a l)
unfolding insert_after
insert_after_comm a b [] ne = ground arith
insert_after_comm a b (x ∷ xs) ne = ground (arith, insert_after_comm a b xs ne)

insert_all : List Entry → List Entry → List Entry
insert_all l arrivals = foldl (λ l e. insert_after e l) l arrivals

Entries-set : IsSet (List Entry)
Entries-set = hlevel

abbrev DistinctOffsets : List Entry → Type 0
DistinctOffsets es = Nodup (map (λ e. e.offset) es)

insert_all-permᴰ :
    {xs ys : List Entry}
    → Permᴰ xs ys
    → (l : List Entry) → DistinctOffsets xs
    → insert_all l xs ≡ insert_all l ys
unfolding insert_all
insert_all-permᴰ Permᴰ.nil l nd = refl
insert_all-permᴰ (Permᴰ.cons {a = a} {b = b} e p) l nd =
    rw e (insert_all-permᴰ p (insert_after b l) (Nodup-cons.0 nd).1)
insert_all-permᴰ (Permᴰ.swap {a = a} {b = b} {a' = c} {b' = d} {l = r} e f) l nd =
    rw (← e, ← f)
      (ap (λ t. insert_all t r)
        (insert_after_comm b a l (λ q. (Nodup-cons.0 nd).0 (rw q mem-cons_self))))
insert_all-permᴰ (Permᴰ.trans p q) l nd =
    insert_all-permᴰ p l nd ∙ insert_all-permᴰ q l (Perm.nodup (Perm.map (λ e. e.offset) ∣ p ∣₁) nd)

insert_all-perm :
    (l xs ys : List Entry) → DistinctOffsets xs → Perm xs ys → insert_all l xs ≡ insert_all l ys
insert_all-perm l xs ys nd p = ∥∥₁_elim p (Entries-set _ _) (λ d. insert_all-permᴰ d l nd)

-- A byte stream from offset `r` on, cut into chunks that are not empty, in order.
abbrev pub Chunks : ℕ → List Entry → Type 0
Chunks r [] = Unit {0}
Chunks r (e ∷ rest) = (e.offset ≡ r) × (0 < length e.bytes) × Chunks (r + length e.bytes) rest

abbrev pub joined : List Entry → List ℕ
joined [] = []
joined (e ∷ rest) = e.bytes ++ joined rest

Chunks-above : (r k : ℕ) (es : List Entry) → Chunks r es → k < r → ¬ Mem k (map (λ e. e.offset) es)
Chunks-above r k [] h lt m = not-mem-nil m
Chunks-above r k (e ∷ rest) h lt m =
    Or.elim ⊥_prop (mem-cons.0 m) (λ q. omega (arith, q, h.0))
      (Chunks-above (r + length e.bytes) k rest h.2 (omega arith))

Chunks-distinct : (r : ℕ) (es : List Entry) → Chunks r es → DistinctOffsets es
Chunks-distinct r [] h = Nodup-nil
Chunks-distinct r (e ∷ rest) h = Nodup-cons.1 (
  Chunks-above (r + length e.bytes) e.offset rest h.2 (omega arith),
  Chunks-distinct (r + length e.bytes) rest h.2,
)

insert_after_last :
    (e : Entry) (l : List Entry) → All (λ x. x.offset ≤ e.offset) l → insert_after e l ≡ l ++ e ∷ []
unfolding insert_after
insert_after_last e [] h = refl
insert_after_last e (x ∷ xs) h = rw (le→ltb e.offset x.offset h.0, insert_after_last e xs h.1)

All-append-le :
    (a b : ℕ) (e : Entry) (l : List Entry)
    → All (λ x. x.offset ≤ a) l
    → a ≤ b
    → e.offset ≤ b
    → All (λ x. x.offset ≤ b) (l ++ e ∷ [])
All-append-le a b e [] h le last = (last, tt)
All-append-le a b e (x ∷ xs) h le last = (omega arith, All-append-le a b e xs h.1 le last)

insert_all-Chunks :
    (r : ℕ) (es l : List Entry)
    → Chunks r es
    → All (λ x. x.offset ≤ r) l
    → insert_all l es ≡ l ++ es
unfolding insert_all
insert_all-Chunks r [] l h below = sym (append-nil l)
insert_all-Chunks r (e ∷ rest) l h below = rw (insert_after_last e l (rw h.0 below)) (
    insert_all-Chunks (r + length e.bytes) rest (l ++ e ∷ []) h.2
      (All-append-le r _ e l below (omega arith) (omega arith))
    ∙ append_assoc l (e ∷ []) rest)

-- The chunks pushed one after the other.
unfoldable pub push_all : Sorter → List Entry → Sorter
push_all s [] = s
push_all s (e ∷ rest) = push_all (push s e.bytes e.offset) rest

push_all_lem :
    (s : Sorter) (es : List Entry)
    → ((push_all s es).entries ≡ insert_all s.entries es)
      × ((push_all s es).read_offset ≡ s.read_offset)
unfolding push_all push insert_all
push_all_lem s [] = (refl, refl)
push_all_lem s (e ∷ rest) =
    let (same, offset) = push_all_lem (push s e.bytes e.offset) rest in
    (same ∙ ap (λ t. insert_all t rest) (insert_entry-after e s.entries), offset)

append_read : Option (List ℕ) × Sorter → (Sorter → List ℕ × Sorter) → List ℕ × Sorter
append_read (none, s) more = ([], s)
append_read (some bytes, s) more = let (rest, s') = more s in (bytes ++ rest, s')

-- `read` again and again, at most `fuel` times, until it returns nothing.
pub read_all : ℕ → Sorter → List ℕ × Sorter
unfolding append_read
read_all zero s = ([], s)
read_all (suc fuel) s = append_read (read s) (λ s'. read_all fuel s')

read_next :
    (s : Sorter) (x : Entry) (xs : List Entry)
    → s.entries ≡ x ∷ xs
    → x.offset ≡ s.read_offset
    → read s
      ≡ (some x.bytes, record s { entries = xs; read_offset = s.read_offset + length x.bytes })
unfolding read
read_next s x xs e h = ground arith

read_all-Chunks :
    (es : List Entry) (s : Sorter)
    → s.entries ≡ es
    → Chunks s.read_offset es
    → ((read_all (length es) s).0 ≡ joined es)
      × ((read_all (length es) s).1.read_offset ≡ s.read_offset + length (joined es))
unfolding read_all
read_all-Chunks [] s e h = (refl, omega arith)
read_all-Chunks (x ∷ xs) s e h =
    let s' : Sorter = record s { entries = xs; read_offset = s.read_offset + length x.bytes } in
    let (bytes, offset) = read_all-Chunks xs s' refl h.2 in
    rw (read_next s x xs e h.0)
      (ap (λ t. x.bytes ++ t) bytes, omega (arith, offset, length-append x.bytes (joined xs)))

byte_length-Chunks :
    (r : ℕ) (es : List Entry) → Chunks r es → contiguous_length r es ≡ length (joined es)
unfolding contiguous_length
byte_length-Chunks r [] h = refl
byte_length-Chunks r (e ∷ rest) h =
    rw (eq→== e.offset r h.0, length-append e.bytes (joined rest))
      (ap (λ t. length e.bytes + t) (byte_length-Chunks (r + length e.bytes) rest h.2))

-- The chunks of a byte stream, none of them empty, may be pushed into a new sorter in any order:
-- then all its bytes are readable, and as many reads as there are chunks give them in the order of
-- the stream and leave the read offset behind the last one.
pub push-read_all :
    (chunks arrivals : List Entry)
    → Chunks 0 chunks
    → Perm chunks arrivals
    → let s = push_all new_sorter arrivals in
      (byte_length s ≡ length (joined chunks))
      × ((read_all (length chunks) s).0 ≡ joined chunks)
      × ((read_all (length chunks) s).1.read_offset ≡ length (joined chunks))
unfolding new_sorter byte_length
push-read_all chunks arrivals h p =
    let s = push_all new_sorter arrivals in
    let (entries, offset) = push_all_lem new_sorter arrivals in
    let sorted = insert_all-Chunks 0 chunks [] h tt in
    let order = insert_all-perm [] chunks arrivals (Chunks-distinct 0 chunks h) p in
    let same : s.entries ≡ chunks = entries ∙ sym order ∙ sorted in
    let zeroed : s.read_offset ≡ 0 = offset in
    let chunked : Chunks s.read_offset chunks = rw zeroed h in
    let (bytes, end) = read_all-Chunks chunks s same chunked in
    (
      ap (λ t. contiguous_length s.read_offset t) same
          ∙ byte_length-Chunks s.read_offset chunks chunked,
      bytes,
      omega (arith, end, zeroed),
    )
