-- ===== src/Connection/Streams/Opening.antt =====
-- What holds of the streams of every connection that can come about: the steps of Connection/Reaching
-- keep the identifiers in order.
use ilp_protocol_stream.Base.{
  ℕ, ◌⊎◌, ◌%◌, ◌≤◌, ◌≡◌, refl, inl, inr, ltb, ltb→ge, le→ltb, ◌==◌, if◌then◌else◌, Bool-cases, none,
  Bool, false, not, ◌&&◌, lookup, arith,
}
use ilp_protocol_stream.Long.Interface.{LongApi}
use ilp_protocol_stream.Oer.{OerApi}
use ilp_protocol_stream.Crypto.{CryptoApi}
use ilp_protocol_stream.Connection.{Connection, Options, new_connection}
use ilp_protocol_stream.Connection.Reaching.{
  Reachable, fresh, opened, framed, ended, acted, answered, controlled, loaded, responded, finished,
  undone, numbered, tested, measured, flagged, counted,
}
use ilp_protocol_stream.Connection.Streams.Same.{
  SameIds-fields, SameIds-IsWellFormed, update-SameIds,
}
use ilp_protocol_stream.Connection.Prepare.Handler.Keys.{handle_prepare-IsWellFormed}
use ilp_protocol_stream.Connection.Filling.Keys.{load_packet-SameIds}
use ilp_protocol_stream.Connection.Control.Flags.{handle_control_frames-Steady}
use ilp_protocol_stream.Connection.Responses.Flags.{handle_response-Steady, finish_response-Steady}
use ilp_protocol_stream.Connection.Rejects.Flags.{undo_rejected_packet-Steady}
use ilp_protocol_stream.Connection.Discovery.Rates.Flags.{handle_test_result-Steady}
use ilp_protocol_stream.Connection.Streams.{
  create_stream, handle_new_stream, member, is_known, Texts, refuse, done, queue,
}
use ilp_protocol_stream.Connection.Streams.Identifiers.{
  IsAllowed, IsWellFormed, next-unknown, create_stream-IsWellFormed, handle_new_stream-IsWellFormed,
  remove_stream_record-IsWellFormed,
}

fresh-IsWellFormed : (opts : Options) → IsWellFormed (new_connection opts)
unfolding new_connection is_known member IsAllowed lookup
fresh-IsWellFormed opts = elim (Bool-cases opts.is_server) [
  | inl e ↦ record { parity = rw e refl; allowed = λ k h. ground arith }
  | inr e ↦ record { parity = rw e refl; allowed = λ k h. ground arith }
]

has_room :
    (c : Connection) → (create_stream c).thrown ≡ none → c.next_stream_id ≤ c.remote_max_stream_id
unfolding create_stream done queue
has_room c ok = elim (Bool-cases (ltb c.remote_max_stream_id c.next_stream_id)) [
  | inl e ↦ cc
  | inr e ↦ ltb→ge c.remote_max_stream_id c.next_stream_id e
]

right_parity :
    (k : ℕ) (own peer : Bool)
    → k % 2 ≡ (if own then 0 else 1)
    → peer ≡ not own
    → ((peer && (k % 2 == 0)) ≡ false) × ((not peer && (k % 2 == 1)) ≡ false)
right_parity k own peer h e = ground arith

module _ ⦃api : LongApi⦄ ⦃oer : OerApi⦄ ⦃crypto : CryptoApi⦄ where
  Reachable-IsWellFormed : {c : Connection} → Reachable c → IsWellFormed c
  unfolding new_connection
  Reachable-IsWellFormed (fresh opts) = fresh-IsWellFormed opts
  Reachable-IsWellFormed (opened {c} r) = create_stream-IsWellFormed c (Reachable-IsWellFormed r)
  Reachable-IsWellFormed (framed {c} texts k r) =
      handle_new_stream-IsWellFormed texts k c (Reachable-IsWellFormed r)
  Reachable-IsWellFormed (ended {c} s known r) =
      remove_stream_record-IsWellFormed s c known (Reachable-IsWellFormed r)
  Reachable-IsWellFormed (acted {c} i act r) =
      SameIds-IsWellFormed (update-SameIds i act c) (Reachable-IsWellFormed r)
  Reachable-IsWellFormed (answered {c} env prepare r) =
      handle_prepare-IsWellFormed env prepare c (Reachable-IsWellFormed r)
  Reachable-IsWellFormed (controlled {c} buffers frames r) =
      SameIds-IsWellFormed (handle_control_frames-Steady buffers frames c).ids
        (Reachable-IsWellFormed r)
  Reachable-IsWellFormed (loaded {c} buffers l e r) =
      SameIds-IsWellFormed (load_packet-SameIds buffers c l e) (Reachable-IsWellFormed r)
  Reachable-IsWellFormed (responded {c} key p amount condition response s e r) =
      SameIds-IsWellFormed (handle_response-Steady key p amount condition response c s e).ids
        (Reachable-IsWellFormed r)
  Reachable-IsWellFormed (finished {c} buffers sequence ids amount response d e r) =
      SameIds-IsWellFormed (finish_response-Steady buffers sequence ids amount response c d e).ids
        (Reachable-IsWellFormed r)
  Reachable-IsWellFormed (undone {c} p r) =
      SameIds-IsWellFormed (undo_rejected_packet-Steady p c).ids (Reachable-IsWellFormed r)
  Reachable-IsWellFormed (numbered r) =
      SameIds-IsWellFormed (SameIds-fields refl refl refl refl refl) (Reachable-IsWellFormed r)
  Reachable-IsWellFormed (tested {c} buffers result r) =
      SameIds-IsWellFormed (handle_test_result-Steady buffers c result).ids
        (Reachable-IsWellFormed r)
  Reachable-IsWellFormed (measured congestion rate r) =
      SameIds-IsWellFormed (SameIds-fields refl refl refl refl refl) (Reachable-IsWellFormed r)
  Reachable-IsWellFormed (flagged sending connected closed state r) =
      SameIds-IsWellFormed (SameIds-fields refl refl refl refl refl) (Reachable-IsWellFormed r)
  Reachable-IsWellFormed (counted frames hold total r) =
      SameIds-IsWellFormed (SameIds-fields refl refl refl refl refl) (Reachable-IsWellFormed r)

  -- In every connection that can come about by the steps of Reachable (opening and ending streams,
  -- calls on streams, the peer's packets and their frames, loading packets, their responses,
  -- undoing, test packets, and changes of flags, queued frames and totals, in any order), each
  -- identifier that an open or a closed stream has is of the right kind: one's own are of one's
  -- parity and below the next one, and the peer's are of the other parity and at most the limit
  -- for the peer.
  pub Reachable-IsAllowed :
      {c : Connection} (k : ℕ) → Reachable c → (is_known k c ≡ false) ⊎ IsAllowed c k
  Reachable-IsAllowed {c} k r = elim (Bool-cases (is_known k c)) [
    | inl known ↦ inr ((Reachable-IsWellFormed r).allowed k known)
    | inr unknown ↦ inl unknown
  ]

  -- A stream that a connection opens, where the call does not throw, replaces none, open or
  -- closed; and a peer on the other side, with a limit that is at least the one it told, takes the
  -- frame for it without an error. The connection is any that can come about by the steps of
  -- Reachable: opening and ending streams, calls on streams, the peer's packets and their frames,
  -- loading packets, their responses, undoing, test packets, and changes of flags, queued frames
  -- and totals, in any order.
  pub create_stream-accepted :
      {c : Connection} (texts : Texts) (peer : Connection)
      → Reachable c
      → (create_stream c).thrown ≡ none
      → peer.is_server ≡ not c.is_server
      → c.remote_max_stream_id ≤ peer.max_stream_id
      → (is_known c.next_stream_id c ≡ false)
        × ((handle_new_stream texts c.next_stream_id peer).thrown ≡ none)
  unfolding handle_new_stream refuse done queue
  create_stream-accepted {c} texts peer r ok side limit =
      let w = Reachable-IsWellFormed r in
      let n = c.next_stream_id in
      let room = has_room c ok in
      let (odd, even) = right_parity n c.is_server peer.is_server w.parity side in
      let few = le→ltb peer.max_stream_id n (omega (arith, room)) in
      let taken : (handle_new_stream texts n peer).thrown ≡ none =
        elim (Bool-cases (is_known n peer)) [
          | inl known ↦ rw known refl
          | inr new ↦ rw (new, odd, even, few) refl
        ] in
      (next-unknown c w, taken)
