-- ===== src/Connection/Prepare/Fulfilling/Keys.antt =====
-- The later stages of `handlePrepare` keep the identifiers of streams in order.
use ilp_protocol_stream.Base.{
  ℕ, ◌≡◌, refl, ap, inl, inr, ltb, ◌&&◌, not, Bool-cases, Option-cases, List, [], ◌∷◌, lookup,
}
use ilp_protocol_stream.Long.Interface.{LongApi}
use ilp_protocol_stream.Oer.{Bytes, OerApi}
use ilp_protocol_stream.Crypto.{CryptoApi}
use ilp_protocol_stream.Receipt.{equals, create_receipt}
use ilp_protocol_stream.Stream.{Stream}
use ilp_protocol_stream.Packet.{Frame, Packet}
use ilp_protocol_stream.Connection.{Connection}
use ilp_protocol_stream.Connection.Totals.{
  add_incoming_hold, remove_incoming_hold, add_total_received,
}
use ilp_protocol_stream.Connection.Totals.Holding.{
  add_incoming_hold-kept, remove_incoming_hold-kept,
}
use ilp_protocol_stream.Connection.Shares.{money_frames}
use ilp_protocol_stream.Connection.Streams.{has}
use ilp_protocol_stream.Connection.Streams.Identifiers.{IsWellFormed}
use ilp_protocol_stream.Connection.Streams.Same.{
  SameIds, SameIds-trans, SameIds-keys, SameIds-fields, SameIds-IsWellFormed, update-SameIds,
  cons-known,
}
use ilp_protocol_stream.Connection.Prepare.{IlpPrepare, Environment, Handling, attempt}
use ilp_protocol_stream.Connection.Prepare.Fulfilling.{
  check_fulfillment, test_stream, check_stream, stream_there, amounts_loop, amounts_for_streams,
  declines, ask, consent, credit, tell_streams, tell_limits, is_remote_closed, receipt_frames,
  add_receipts, answer_fulfill,
}
use ilp_protocol_stream.Connection.Prepare.Answers.{Comes, goes, answered, bind-Comes}
use ilp_protocol_stream.Connection.Prepare.Keys.{Fine, Ended, final-Fine, attempt-Fine}
use ilp_protocol_stream.Connection.Prepare.Fulfilling.Checked.{Any}

module _ ⦃crypto : CryptoApi⦄ where
  pub check_fulfillment-Fine :
      (env : Environment) (p : Packet) (prepare : IlpPrepare) (h : Handling)
      → Fine h
      → Comes Any Ended (check_fulfillment env p prepare h)
  unfolding check_fulfillment
  check_fulfillment-Fine env p prepare h w =
      let fulfillment = crypto.hmac_sha256 env.fulfillment_key prepare.bytes in
      elim (Bool-cases (equals (crypto.sha256 fulfillment) prepare.execution_condition)) [
        | inl e ↦ rw e (goes tt)
        | inr e ↦ rw e (final-Fine p prepare.amount h w)
      ]

module _ ⦃api : LongApi⦄ where
  test_stream-Fine :
      (env : Environment) (p : Packet) (incoming : ℕ) (h : Handling) (i amount : ℕ) (s : Stream)
      (maximum : ℕ)
      → Fine h
      → Comes Any Ended (test_stream env p incoming h i amount s maximum)
  unfolding test_stream
  test_stream-Fine env p incoming h i amount s maximum w = elim (Bool-cases (ltb maximum amount)) [
    | inl e ↦ rw e (final-Fine p incoming _ w)
    | inr e ↦ elim (Bool-cases s.closed) [
      | inl e2 ↦ rw (e, e2) (final-Fine p incoming _ w)
      | inr e2 ↦ rw (e, e2) (goes tt)
    ]
  ]

  stream_there-Fine : (h : Handling) (i : ℕ) → Fine h → Comes Any Ended (stream_there h i)
  unfolding stream_there attempt
  stream_there-Fine h i w = elim (Option-cases (lookup i h.connection.streams)) [
    | inl e ↦ rw (e, stream_there) (answered w)
    | inr (s, e) ↦ rw (e, stream_there) (goes tt)
  ]

  amounts_loop-Fine :
      (env : Environment) (p : Packet) (incoming : ℕ) (h : Handling) (whole : ℕ)
      (shares : List (ℕ × ℕ))
      → Fine h
      → Comes Any Ended (amounts_loop env p incoming h whole shares)
  unfolding amounts_loop check_stream
  amounts_loop-Fine env p incoming h whole [] w = goes tt
  amounts_loop-Fine env p incoming h whole ((i, n) ∷ rest) w =
      bind-Comes _ _ (attempt-Fine {P = Any} h _ w (λ a e. tt)) (λ amount u.
        bind-Comes _ _ (stream_there-Fine h i w) (λ s u.
          bind-Comes _ _
            (bind-Comes _ _ (attempt-Fine {P = Any} h _ w (λ a e. tt))
              (λ maximum u. test_stream-Fine env p incoming h i amount s maximum w))
            (λ first u.
              bind-Comes _ _ (amounts_loop-Fine env p incoming h whole rest w)
                (λ others u. goes tt))))

  pub amounts-Fine :
      (env : Environment) (p : Packet) (incoming : ℕ) (h : Handling)
      → Fine h
      → Comes Any Ended (amounts_for_streams env p incoming h)
  unfolding amounts_for_streams
  amounts-Fine env p incoming h w =
      bind-Comes _ _ (attempt-Fine {P = Any} h _ w (λ a e. tt))
        (λ whole u. amounts_loop-Fine env p incoming h whole (money_frames p.frames) w)

  held-SameIds : (c d : Connection) → d ≡ record c { incoming_hold = d.incoming_hold } → SameIds c d
  held-SameIds c d e =
      SameIds-fields (ap (λ x. x.is_server) e) (ap (λ x. x.next_stream_id) e)
        (ap (λ x. x.closed_streams) e) (ap (λ x. x.max_stream_id) e) (ap (λ x. x.streams) e)

  removed-SameIds : (value : ℕ) (d : Connection) → SameIds d (remove_incoming_hold value d)
  removed-SameIds value d =
      held-SameIds d (remove_incoming_hold value d) (remove_incoming_hold-kept value d)

  ask-Fine :
      (env : Environment) (p : Packet) (incoming : ℕ) (h : Handling) (d : Connection)
      → IsWellFormed d
      → Comes Fine Ended (ask env p incoming h d)
  unfolding ask
  ask-Fine env p incoming h d w = elim (Bool-cases (declines env p.sequence incoming)) [
    | inl e ↦ rw e (final-Fine p incoming _ (SameIds-IsWellFormed (removed-SameIds incoming d) w))
    | inr e ↦ rw e (goes w)
  ]

  pub consent-Fine :
      (env : Environment) (p : Packet) (incoming : ℕ) (h : Handling)
      → Fine h
      → Comes Fine Ended (consent env p incoming h)
  unfolding consent
  consent-Fine env p incoming h w =
      bind-Comes _ _
        (attempt-Fine {P = IsWellFormed} h (add_incoming_hold incoming h.connection) w (λ d e.
          SameIds-IsWellFormed
            (held-SameIds h.connection d (add_incoming_hold-kept incoming h.connection d e)) w))
        (λ d v. ask-Fine env p incoming h d v)

  pub credit-SameIds : (moves : List (ℕ × ℕ)) (c : Connection) → SameIds c (credit moves c)
  unfolding credit
  credit-SameIds [] c = SameIds-fields refl refl refl refl refl
  credit-SameIds ((i, a) ∷ rest) c = SameIds-trans (update-SameIds i _ c) (credit-SameIds rest _)

  total-SameIds : (value : ℕ) (c : Connection) → SameIds c (add_total_received value c)
  unfolding add_total_received
  total-SameIds value c = SameIds-fields refl refl refl refl refl

  pub answer_fulfill-SameIds :
      (p : Packet) (incoming : ℕ) (fulfillment : Bytes) (receipts : List Frame) (h : Handling)
      → SameIds h.connection (answer_fulfill p incoming fulfillment receipts h).connection
  unfolding answer_fulfill
  answer_fulfill-SameIds p incoming fulfillment receipts h =
      let emptied = record (h.connection) { queued_frames = [] } in
      SameIds-trans
        (SameIds-trans (SameIds-fields refl refl refl refl refl) (removed-SameIds incoming emptied))
        (total-SameIds incoming (remove_incoming_hold incoming emptied))

tell_streams-known :
    (env : Environment) (streams : List (ℕ × Stream)) (k : ℕ)
    → has (lookup k (tell_streams env streams).1) ≡ has (lookup k streams)
unfolding tell_streams
tell_streams-known env [] k = refl
tell_streams-known env ((j, s) ∷ rest) k = cons-known j _ s _ rest k (tell_streams-known env rest k)

pub tell_limits-SameIds :
    (env : Environment) (h : Handling) → SameIds h.connection (tell_limits env h).connection
unfolding tell_limits
tell_limits-SameIds env h =
    elim (Bool-cases
      (not h.connection.is_closed && not (is_remote_closed h.connection.remote_state))) [
        | inl e ↦
            rw e (
              SameIds-keys refl refl refl refl (λ k. tell_streams-known env h.connection.streams k))
        | inr e ↦ rw e (SameIds-fields refl refl refl refl refl)
      ]

module _ ⦃oer : OerApi⦄ ⦃crypto : CryptoApi⦄ where
  receipts-Fine :
      (nonce secret : Bytes) (h : Handling) (totals : List (ℕ × ℕ))
      → Fine h
      → Comes Any Ended (receipt_frames nonce secret h totals)
  unfolding receipt_frames
  receipts-Fine nonce secret h [] w = goes tt
  receipts-Fine nonce secret h ((i, total) ∷ rest) w =
      bind-Comes _ _ (attempt-Fine {P = Any} h (create_receipt nonce i total secret) w (λ a e. tt))
        (λ receipt u. bind-Comes _ _ (receipts-Fine nonce secret h rest w) (λ more u. goes tt))

  pub add_receipts-Fine :
      (totals : List (ℕ × ℕ)) (h : Handling) → Fine h → Comes Any Ended (add_receipts totals h)
  unfolding add_receipts
  add_receipts-Fine totals h w = elim (Option-cases h.connection.receipt_nonce) [
    | inl e ↦ rw (e, add_receipts) (goes tt)
    | inr (nonce, e) ↦ elim (Option-cases h.connection.receipt_secret) [
      | inl e2 ↦ rw (e, e2, add_receipts) (goes tt)
      | inr (secret, e2) ↦ rw (e, e2, add_receipts) (receipts-Fine nonce secret h totals w)
    ]
  ]
