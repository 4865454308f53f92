-- ===== src/Stream/Ending/Writing.antt =====
-- What an application writes goes into the queue in order, and its callback behind the last byte.
use ilp_protocol_stream.Base.{ℕ, ◌≡◌, sym, ap, ◌∙◌, List, [], ◌∷◌, ◌++◌, none, some}
use mathlib.Core.List.{append-nil, append_assoc}
use ilp_protocol_stream.Crypto.{concat}
use ilp_protocol_stream.DataQueue
use ilp_protocol_stream.DataQueue.Contents.{bytes_of, callbacks_of, IsCounted, push_lem}
use ilp_protocol_stream.Stream.{Stream}
use ilp_protocol_stream.Stream.Ending.{push_chunks, writev}

-- The chunks behind the first one.
push_chunks_lem :
    (q : DataQueue.Queue) (first : List ℕ) (rest : List (List ℕ)) (callback : ℕ)
    → IsCounted q
    → (let r = push_chunks q (first ∷ rest) callback in
        (bytes_of r.chunks ≡ bytes_of q.chunks ++ concat (first ∷ rest))
        × (callbacks_of r.chunks ≡ callbacks_of q.chunks ++ callback ∷ [])
        × IsCounted r)
unfolding push_chunks concat
push_chunks_lem q first [] callback h =
    let (bytes, calls, counted) = push_lem q first (some callback) h in
    (bytes ∙ ap (λ t. bytes_of q.chunks ++ t) (sym (append-nil first)), calls, counted)
push_chunks_lem q first (next ∷ rest) callback h =
    let (bytes, calls, counted) = push_lem q first none h in
    let (more, others, still) =
      push_chunks_lem (DataQueue.push q first none) next rest callback counted in
    (
      more
          ∙ ap (λ t. t ++ concat (next ∷ rest)) bytes
          ∙ append_assoc (bytes_of q.chunks) first (concat (next ∷ rest)),
      others ∙ ap (λ t. t ++ callback ∷ []) (calls ∙ append-nil (callbacks_of q.chunks)),
      still,
    )

-- For a queue whose count is right: behind a `_writev` of at least one chunk, what is to be sent is
-- what there was and then all the bytes of the chunks in order, and the callback stands behind all
-- that there were; the count stays right.
pub writev_lem :
    (first : List ℕ) (rest : List (List ℕ)) (callback : ℕ) (s : Stream)
    → IsCounted s.outgoing_data
    → (let r = (writev (first ∷ rest) callback s).outgoing_data in
        (bytes_of r.chunks ≡ bytes_of s.outgoing_data.chunks ++ concat (first ∷ rest))
        × (callbacks_of r.chunks ≡ callbacks_of s.outgoing_data.chunks ++ callback ∷ [])
        × IsCounted r)
unfolding writev
writev_lem first rest callback s h = push_chunks_lem s.outgoing_data first rest callback h
