-- ===== src/DataQueue/Contents.antt =====
-- The queue as the string of its bytes and the list of its callbacks.
use ilp_protocol_stream.Base.{
  ℕ, zero, suc, ◌-◌, ◌≡◌, refl, sym, ap, ◌∙◌, ltb, ◌==◌, List, [], ◌∷◌, ◌++◌, Option, none, some,
  false, length, take, drop, length-append, Bool-cases, ltb→lt, ltb→ge, take-append_lt,
  drop-append_lt, take-append_ge, drop-append_ge, ◌⊎◌, inl, inr, arith,
}
use mathlib.Core.List.{append-nil, append_assoc}
use ilp_protocol_stream.DataQueue.{
  Chunk, Queue, Taken, push, call, take_bytes, read, chunk_lengths, byte_length,
}

abbrev pub bytes_of : List Chunk → List ℕ
bytes_of [] = []
bytes_of (c ∷ rest) = c.bytes ++ bytes_of rest

abbrev pub callbacks_of : List Chunk → List ℕ
callbacks_of [] = []
callbacks_of (c ∷ rest) = call c.callback (callbacks_of rest)

call-append : (c : Option ℕ) (xs ys : List ℕ) → call c xs ++ ys ≡ call c (xs ++ ys)
call-append none xs ys = refl
call-append (some k) xs ys = refl

abbrev pub IsCounted : Queue → Type 0
IsCounted q = q.count ≡ length q.chunks

nonzero : (n : ℕ) → (suc n == 0) ≡ false
nonzero n = ground arith

take_bytes_lem :
    (n : ℕ) (cs : List Chunk) (count : ℕ)
    → count ≡ length cs
    → let r = take_bytes n cs count in
      (r.bytes ≡ take n (bytes_of cs))
      × (bytes_of r.queue.chunks ≡ drop n (bytes_of cs))
      × (r.called ++ callbacks_of r.queue.chunks ≡ callbacks_of cs)
      × IsCounted r.queue
unfolding take_bytes
take_bytes_lem zero [] count h = (refl, refl, refl, h)
take_bytes_lem (suc n) [] count h = (refl, refl, refl, h)
take_bytes_lem zero (c ∷ rest) count h = (refl, refl, refl, h)
take_bytes_lem (suc n) (c ∷ rest) count h = elim (Bool-cases (ltb (suc n) (length c.bytes))) [
  | inl part ↦
      let lt = ltb→lt (suc n) (length c.bytes) part in
      rw (nonzero n, part)
        (
          sym (take-append_lt (suc n) c.bytes (bytes_of rest) lt),
          sym (drop-append_lt (suc n) c.bytes (bytes_of rest) lt),
          refl,
          h,
        )
  | inr whole ↦
      let le = ltb→ge (suc n) (length c.bytes) whole in
      let (bytes, left, calls, counted) =
        take_bytes_lem (suc n - length c.bytes) rest (count - 1) (omega arith) in
      rw (nonzero n, whole)
        (
          ap (λ t. c.bytes ++ t) bytes ∙ sym (take-append_ge (suc n) c.bytes (bytes_of rest) le),
          left ∙ sym (drop-append_ge (suc n) c.bytes (bytes_of rest) le),
          call-append c.callback _ _ ∙ ap (call c.callback) calls,
          counted,
        )
]

-- A reading that takes the first `n` bytes off the queue, or all where there are fewer, and runs the
-- first of its callbacks.
abbrev pub Takes : Queue → ℕ → Taken → Type 0
Takes q n r =
    (r.bytes ≡ take n (bytes_of q.chunks))
    × (bytes_of r.queue.chunks ≡ drop n (bytes_of q.chunks))
    × (r.called ++ callbacks_of r.queue.chunks ≡ callbacks_of q.chunks)
    × IsCounted r.queue

read_chunks :
    (q : Queue) (n : ℕ) (cs : List Chunk)
    → IsCounted q
    → q.chunks ≡ cs
    → ((q.chunks ≡ []) × (read q n ≡ none)) ⊎ ((r : Taken) × (read q n ≡ some r) × (Takes q n r))
unfolding read
read_chunks q n [] h e = inl (e, rw (e, read))
read_chunks q n (c ∷ rest) h e = inr (
  take_bytes n (c ∷ rest) q.count,
  rw (e, read),
  rw e (take_bytes_lem n (c ∷ rest) q.count (rw e at h)),
)

-- Where the queue's count is right, `read(n)` returns nothing on the empty queue. Otherwise it
-- takes exactly the first `n` bytes, or all where there are fewer, and leaves the others; the
-- callbacks that it runs, with those of the chunks that are left, are the callbacks there were, in
-- order; and the count stays right.
pub read_lem :
    (q : Queue) (n : ℕ)
    → IsCounted q
    → ((q.chunks ≡ []) × (read q n ≡ none)) ⊎ ((r : Taken) × (read q n ≡ some r) × (Takes q n r))
read_lem q n h = read_chunks q n q.chunks h refl

bytes_of-append : (xs ys : List Chunk) → bytes_of (xs ++ ys) ≡ bytes_of xs ++ bytes_of ys
bytes_of-append [] ys = refl
bytes_of-append (x ∷ xs) ys =
    ap (λ t. x.bytes ++ t) (bytes_of-append xs ys) ∙ sym (append_assoc x.bytes _ _)

callbacks_of-append :
    (xs ys : List Chunk) → callbacks_of (xs ++ ys) ≡ callbacks_of xs ++ callbacks_of ys
callbacks_of-append [] ys = refl
callbacks_of-append (x ∷ xs) ys =
    ap (call x.callback) (callbacks_of-append xs ys) ∙ sym (call-append x.callback _ _)

-- `push` puts the bytes and the callback behind those that wait.
pub push_lem :
    (q : Queue) (bytes : List ℕ) (callback : Option ℕ)
    → IsCounted q
    → (bytes_of (push q bytes callback).chunks ≡ bytes_of q.chunks ++ bytes)
      × (callbacks_of (push q bytes callback).chunks ≡ callbacks_of q.chunks ++ call callback [])
      × IsCounted (push q bytes callback)
unfolding push
push_lem q bytes callback h = (
  bytes_of-append q.chunks _ ∙ ap (λ t. bytes_of q.chunks ++ t) (append-nil bytes),
  callbacks_of-append q.chunks _,
  omega (arith, length-append q.chunks (record { bytes = bytes; callback = callback } ∷ [])),
)

chunk_lengths_lem : (cs : List Chunk) → chunk_lengths cs ≡ length (bytes_of cs)
unfolding chunk_lengths
chunk_lengths_lem [] = refl
chunk_lengths_lem (c ∷ rest) =
    omega (arith, chunk_lengths_lem rest, length-append c.bytes (bytes_of rest))

pub byte_length_lem : (q : Queue) → byte_length q ≡ length (bytes_of q.chunks)
unfolding byte_length
byte_length_lem q = chunk_lengths_lem q.chunks
