-- ===== src/Stream/Data/Pending.antt =====
-- The bytes that a stream has still to send, each with its offset.
use ilp_protocol_stream.Base.{
  ℕ, suc, ◌+◌, ◌-◌, ◌≤◌, ◌≡◌, refl, sym, ap, ◌∙◌, inl, inr, min, ltb, List, [], ◌∷◌, ◌++◌, Option,
  none, some, Bool-cases, ltb→lt, ltb→ge, max, ◌⊎◌, length, take, drop, length-take,
  take-append-drop, arith,
}
use mathlib.Core.List.{append_assoc, append-nil, Perm, perm_append_comm}
use mathlib.Core.List.Perm
use ilp_protocol_stream.DataQueue
use ilp_protocol_stream.DataQueue.{Taken}
use ilp_protocol_stream.DataQueue.Contents.{
  bytes_of, IsCounted, read_lem, byte_length_lem, push_lem,
}
use ilp_protocol_stream.Stream.{Stream, Segment}
use ilp_protocol_stream.Stream.Data.{
  Available, retry_first, new_data, available_from, get_available_data_to_send,
  resend_outgoing_data, write, outgoing_max,
}

abbrev pub at_offset : ℕ → List ℕ → List (ℕ × ℕ)
at_offset o [] = []
at_offset o (b ∷ bs) = (o, b) ∷ at_offset (suc o) bs

abbrev pub segments : List Segment → List (ℕ × ℕ)
segments [] = []
segments (x ∷ xs) = at_offset x.offset x.bytes ++ segments xs

-- What is to be sent again, and then what was never sent.
abbrev pub pending : Stream → List (ℕ × ℕ)
pending s =
    segments s.outgoing_data_to_retry
    ++ at_offset s.outgoing_offset (bytes_of s.outgoing_data.chunks)

abbrev pub taken_bytes : Option (List ℕ) → List ℕ
taken_bytes none = []
taken_bytes (some bytes) = bytes

at_offset-append :
    (o k : ℕ) (xs ys : List ℕ)
    → k ≡ o + length xs
    → at_offset o (xs ++ ys) ≡ at_offset o xs ++ at_offset k ys
at_offset-append o k [] ys e = let e' : k ≡ o = omega arith in rw e'
at_offset-append o k (x ∷ xs) ys e =
    ap (λ t. (o, x) ∷ t) (at_offset-append (suc o) k xs ys (omega arith))

-- What a reading of the stream promises.
abbrev pub Sends : Stream → ℕ → Available → Type 0
Sends s size r =
    (pending s ≡ at_offset r.offset (taken_bytes r.bytes) ++ pending r.stream)
    × (length (taken_bytes r.bytes) ≤ size)
    × IsCounted r.stream.outgoing_data
    × ((s.outgoing_data_to_retry ≡ [])
          × (r.offset + length (taken_bytes r.bytes) ≤ max s.remote_max_offset s.outgoing_offset)
        ⊎ (r.stream.outgoing_offset ≡ s.outgoing_offset))

segments-append : (xs ys : List Segment) → segments (xs ++ ys) ≡ segments xs ++ segments ys
segments-append [] ys = refl
segments-append (x ∷ xs) ys =
    ap (λ t. at_offset x.offset x.bytes ++ t) (segments-append xs ys)
    ∙ sym (append_assoc (at_offset x.offset x.bytes) (segments xs) (segments ys))

retry_first-Sends :
    (s : Stream) (size : ℕ) (first : Segment) (rest : List Segment)
    → IsCounted s.outgoing_data
    → s.outgoing_data_to_retry ≡ first ∷ rest
    → Sends s size (retry_first s size first rest)
unfolding retry_first
retry_first-Sends s size first rest h e =
    let queued = at_offset s.outgoing_offset (bytes_of s.outgoing_data.chunks) in
    elim (Bool-cases (ltb size (length first.bytes))) [
      | inl cut ↦
          let lt = ltb→lt size (length first.bytes) cut in
          let taken = length-take size first.bytes in
          let front = at_offset first.offset (take size first.bytes) in
          let back = at_offset (first.offset + size) (drop size first.bytes) in
          let split =
            ap (at_offset first.offset) (sym (take-append-drop size first.bytes))
            ∙ at_offset-append first.offset (first.offset + size) (take size first.bytes)
                (drop size first.bytes) (omega (arith, taken)) in
          rw (cut, e)
            (
              ap (λ t. (t ++ segments rest) ++ queued) split
                  ∙ ap (λ t. t ++ queued) (append_assoc front back (segments rest))
                  ∙ append_assoc front (back ++ segments rest) queued,
              omega (arith, taken),
              h,
              inr refl,
            )
      | inr whole ↦
          rw (whole, e)
            (
              append_assoc (at_offset first.offset first.bytes) (segments rest) queued,
              ltb→ge size (length first.bytes) whole,
              h,
              inr refl,
            )
    ]

new_data-Sends :
    (s : Stream) (size : ℕ)
    → IsCounted s.outgoing_data
    → s.outgoing_data_to_retry ≡ []
    → Sends s size (
        new_data s
          (DataQueue.read s.outgoing_data (min size (s.remote_max_offset - s.outgoing_offset))))
unfolding new_data
new_data-Sends s size h e =
    let n = min size (s.remote_max_offset - s.outgoing_offset) in
    elim (read_lem s.outgoing_data n h) [
      | inl (empty, none_read) ↦ rw (none_read, new_data) (refl, omega arith, h, inr refl)
      | inr (t, read, (bytes, left, calls, counted)) ↦
          let taken = length-take n (bytes_of s.outgoing_data.chunks) in
          let short : length t.bytes ≤ n = omega (arith, taken, ap length bytes) in
          let split =
            ap (at_offset s.outgoing_offset) (
              sym (take-append-drop n (bytes_of s.outgoing_data.chunks))
              ∙ ap (λ x. x ++ drop n (bytes_of s.outgoing_data.chunks)) (sym bytes)
              ∙ ap (λ x. t.bytes ++ x) (sym left))
            ∙ at_offset-append s.outgoing_offset (s.outgoing_offset + length t.bytes) t.bytes
                (bytes_of t.queue.chunks) refl in
          rw (read, new_data, e)
            (split, omega (arith, short), counted, inl (refl, omega (arith, short)))
    ]

available-Sends :
    (s : Stream) (size : ℕ) (retry : List Segment)
    → IsCounted s.outgoing_data
    → s.outgoing_data_to_retry ≡ retry
    → Sends s size (available_from s size retry)
unfolding available_from
available-Sends s size [] h e = new_data-Sends s size h e
available-Sends s size (first ∷ rest) h e = retry_first-Sends s size first rest h e

-- Where the queue's count is right, a reading for a packet takes its bytes, at the offset it
-- reports, off the front of what is pending, and nothing is lost: retransmissions first, then new
-- data. It takes at most `size` bytes, new data never passes the offset up to which the remote
-- side accepts data, and the count stays right.
pub get_available-Sends :
    (s : Stream) (size : ℕ)
    → IsCounted s.outgoing_data
    → Sends s size (get_available_data_to_send s size)
unfolding get_available_data_to_send
get_available-Sends s size h = available-Sends s size s.outgoing_data_to_retry h refl

-- Data that is queued again after a rejected packet is pending again, and everything that was pending
-- still is.
pub resend-perm :
    (s : Stream) (bytes : List ℕ) (offset : ℕ)
    → Perm (pending (resend_outgoing_data s bytes offset)) (at_offset offset bytes ++ pending s)
unfolding resend_outgoing_data
resend-perm s bytes offset =
    let again = at_offset offset bytes in
    let old = segments s.outgoing_data_to_retry in
    let queued = at_offset s.outgoing_offset (bytes_of s.outgoing_data.chunks) in
    rw
      (
        segments-append s.outgoing_data_to_retry _,
        append-nil again,
        ← append_assoc again old queued,
      )
      (Perm.append_right queued (perm_append_comm old again))

-- Where the queue's count is right, data that the application writes becomes pending behind all
-- else, at the offset after the last byte that was queued before.
pub write-pending :
    (s : Stream) (bytes : List ℕ) (callback : Option ℕ)
    → IsCounted s.outgoing_data
    → pending (write s bytes callback) ≡ pending s ++ at_offset (outgoing_max s) bytes
unfolding write outgoing_max
write-pending s bytes callback h =
    let old = segments s.outgoing_data_to_retry in
    let queued = bytes_of s.outgoing_data.chunks in
    let (joined, _, _) = push_lem s.outgoing_data bytes callback h in
    let size = byte_length_lem s.outgoing_data in
    ap (λ t. old ++ at_offset s.outgoing_offset t) joined
    ∙ ap (λ t. old ++ t) (at_offset-append s.outgoing_offset _ queued bytes (omega (arith, size)))
    ∙ sym (append_assoc old (at_offset s.outgoing_offset queued) _)

new_data-offset :
    (s : Stream) (o : Option Taken)
    → (new_data s o).stream.outgoing_offset
      ≤ s.outgoing_offset + length (taken_bytes (new_data s o).bytes)
unfolding new_data
new_data-offset s none = omega arith
new_data-offset s (some t) = omega arith

retry_first-offset :
    (s : Stream) (size : ℕ) (first : Segment) (rest : List Segment)
    → (retry_first s size first rest).stream.outgoing_offset ≡ s.outgoing_offset
unfolding retry_first
retry_first-offset s size first rest = elim (Bool-cases (ltb size (length first.bytes))) [
  | inl e ↦ rw e
  | inr e ↦ rw e
]

available_from-offset :
    (s : Stream) (size : ℕ) (retry : List Segment)
    → (available_from s size retry).stream.outgoing_offset
      ≤ s.outgoing_offset + length (taken_bytes (available_from s size retry).bytes)
unfolding available_from
available_from-offset s size [] = new_data-offset s _
available_from-offset s size (first ∷ rest) = omega (arith, retry_first-offset s size first rest)

-- The offset moves by what is taken at most.
pub get_available-offset :
    (s : Stream) (size : ℕ)
    → (get_available_data_to_send s size).stream.outgoing_offset
      ≤ s.outgoing_offset + length (taken_bytes (get_available_data_to_send s size).bytes)
unfolding get_available_data_to_send
get_available-offset s size = available_from-offset s size s.outgoing_data_to_retry
