-- ===== src/Connection/Streams/Same.antt =====
-- What leaves the identifiers of streams alone: it opens and closes none, and does not lower the limit
-- for the peer.
use ilp_protocol_stream.Base.{
  ℕ, ◌≤◌, ◌≡◌, refl, subst, ap, ◌∙◌, ◌==◌, ==→eq, inl, inr, ◌||◌, Bool-cases, Option-cases, List,
  ◌∷◌, some, true, lookup, assign, lookup-assign, arith,
}
use ilp_protocol_stream.Stream.{Stream}
use ilp_protocol_stream.Connection.{Connection}
use ilp_protocol_stream.Connection.Updating.{update_stream}
use ilp_protocol_stream.Connection.Streams.{has, member, is_known}
use ilp_protocol_stream.Connection.Streams.Identifiers.{IsAllowed, IsWellFormed}

pub record SameIds (c d : Connection) : Type 0 where
  pub server : d.is_server ≡ c.is_server
  pub next : d.next_stream_id ≡ c.next_stream_id
  pub closed : d.closed_streams ≡ c.closed_streams
  pub limit : c.max_stream_id ≤ d.max_stream_id
  pub known : (k : ℕ) → has (lookup k d.streams) ≡ has (lookup k c.streams)

pub SameIds-trans : {c d e : Connection} → SameIds c d → SameIds d e → SameIds c e
SameIds-trans v w = record {
  server = w.server ∙ v.server;
  next = w.next ∙ v.next;
  closed = w.closed ∙ v.closed;
  limit = omega (arith, v.limit, w.limit);
  known = λ k. w.known k ∙ v.known k;
}

-- The streams have the same keys.
pub SameIds-keys :
    {c d : Connection}
    → d.is_server ≡ c.is_server
    → d.next_stream_id ≡ c.next_stream_id
    → d.closed_streams ≡ c.closed_streams
    → d.max_stream_id ≡ c.max_stream_id
    → ((k : ℕ) → has (lookup k d.streams) ≡ has (lookup k c.streams))
    → SameIds c d
SameIds-keys server next closed limit known = record {
  server = server;
  next = next;
  closed = closed;
  limit = omega (arith, limit);
  known = known;
}

-- The streams are the same.
pub SameIds-fields :
    {c d : Connection}
    → d.is_server ≡ c.is_server
    → d.next_stream_id ≡ c.next_stream_id
    → d.closed_streams ≡ c.closed_streams
    → d.max_stream_id ≡ c.max_stream_id
    → d.streams ≡ c.streams
    → SameIds c d
SameIds-fields server next closed limit streams =
    SameIds-keys server next closed limit (λ k. ap (λ t. has (lookup k t)) streams)

pub assign-known :
    (i k : ℕ) (s t : Stream) (streams : List (ℕ × Stream))
    → lookup i streams ≡ some s
    → has (lookup k (assign i t streams)) ≡ has (lookup k streams)
assign-known i k s t streams found = elim (Bool-cases (i == k)) [
  | inl e ↦
      let here : lookup k streams ≡ some s =
        subst (λ j. lookup j streams ≡ some s) (==→eq i k e) found in
      rw (lookup-assign i k t streams, e, here) refl
  | inr e ↦ rw (lookup-assign i k t streams, e) refl
]

pub update-SameIds :
    (i : ℕ) (f : Stream → Stream) (c : Connection) → SameIds c (update_stream i f c)
unfolding update_stream
update-SameIds i f c = elim (Option-cases (lookup i c.streams)) [
  | inl e ↦ rw (e, update_stream) (SameIds-fields refl refl refl refl refl)
  | inr (s, e) ↦
      rw (e, update_stream)
        (SameIds-keys refl refl refl refl (λ k. assign-known i k s (f s) c.streams e))
]

pub SameIds-IsWellFormed : {c d : Connection} → SameIds c d → IsWellFormed c → IsWellFormed d
unfolding is_known IsAllowed
SameIds-IsWellFormed {c} {d} v w = record {
  parity = rw (v.next, v.server) w.parity;
  allowed = λ k h.
      let shown : (has (lookup k c.streams) || member k c.closed_streams) ≡ true =
        rw (v.known k, v.closed) at h in
      let limit = v.limit in
      rw v.next (elim (w.allowed k shown) [
        | inl own ↦ inl own
        | inr (other, le) ↦ inr (other, omega (arith, le, limit))
      ]);
}

pub cons-known :
    (j : ℕ) (s t : Stream) (xs ys : List (ℕ × Stream)) (k : ℕ)
    → has (lookup k xs) ≡ has (lookup k ys)
    → has (lookup k ((j, s) ∷ xs)) ≡ has (lookup k ((j, t) ∷ ys))
unfolding lookup
cons-known j s t xs ys k h = elim (Bool-cases (j == k)) [ inl e ↦ rw e refl | inr e ↦ rw e h ]
