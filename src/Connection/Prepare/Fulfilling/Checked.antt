-- ===== src/Connection/Prepare/Fulfilling/Checked.antt =====
-- The later stages of `handlePrepare` stop only with a reject that moved no money, or with an error.
use ilp_protocol_stream.Base.{
  ℕ, ◌≡◌, refl, ap, ◌∙◌, inl, inr, ltb, ◌&&◌, not, Bool-cases, Option-cases, List, [], ◌∷◌, true,
  lookup, Error, Result, ok, throw,
}
use ilp_protocol_stream.Long.{checked_add}
use ilp_protocol_stream.Long.Interface.{LongApi}
use ilp_protocol_stream.Oer.{Bytes, OerApi}
use ilp_protocol_stream.Crypto.{CryptoApi}
use ilp_protocol_stream.Receipt.{equals, create_receipt}
use ilp_protocol_stream.Stream.{Stream}
use ilp_protocol_stream.Packet.{Frame, Packet}
use ilp_protocol_stream.Connection.{Connection}
use ilp_protocol_stream.Connection.Updating.{update_stream}
use ilp_protocol_stream.Connection.Totals.{add_incoming_hold, remove_incoming_hold}
use ilp_protocol_stream.Connection.Totals.Holding.{
  add_incoming_hold-kept, remove_incoming_hold-kept, receive_total,
}
use ilp_protocol_stream.Connection.Shares.{money_frames}
use ilp_protocol_stream.Connection.Streams.Fresh.{NoCredit, or_zero, NoCredit-trans}
use ilp_protocol_stream.Connection.Control.Streams.{money_in}
use ilp_protocol_stream.Connection.Prepare.{
  IlpPrepare, Environment, fails, Answered, Handling, attempt,
}
use ilp_protocol_stream.Connection.Prepare.Fulfilling.{
  check_fulfillment, test_stream, check_stream, stream_there, amounts_loop, amounts_for_streams,
  declines, ask, consent, credit, tell_limits, is_remote_closed, receipt_frames, add_receipts,
  answer_fulfill,
}
use ilp_protocol_stream.Connection.Prepare.Answers.{
  Comes, goes, answered, bind-Comes, Stopped, Uncredited, final-Comes, attempt-Comes,
}

abbrev pub Any : {A : Type 0} → A → Type 0
Any a = Unit {0}

module _ ⦃crypto : CryptoApi⦄ where
  -- The fulfillment is the one of the packet's data, and its hash is the condition.
  abbrev pub Opens : Environment → IlpPrepare → Bytes → Type 0
  Opens env prepare fulfillment =
      (fulfillment ≡ crypto.hmac_sha256 env.fulfillment_key prepare.bytes)
      × (equals (crypto.sha256 fulfillment) prepare.execution_condition ≡ true)

  pub check_fulfillment-Comes :
      (env : Environment) (c : Connection) (p : Packet) (prepare : IlpPrepare) (h : Handling)
      → Uncredited c h
      → Comes (Opens env prepare) (Stopped c p) (check_fulfillment env p prepare h)
  unfolding check_fulfillment
  check_fulfillment-Comes env c p prepare h w =
      let fulfillment = crypto.hmac_sha256 env.fulfillment_key prepare.bytes in
      elim (Bool-cases (equals (crypto.sha256 fulfillment) prepare.execution_condition)) [
        | inl e ↦ rw e (goes (refl, e))
        | inr e ↦ rw e (final-Comes c p prepare.amount h w)
      ]

module _ ⦃api : LongApi⦄ where
  test_stream-Comes :
      (env : Environment) (c : Connection) (p : Packet) (incoming : ℕ) (h : Handling) (i amount : ℕ)
      (s : Stream) (maximum : ℕ)
      → Uncredited c h
      → Comes Any (Stopped c p) (test_stream env p incoming h i amount s maximum)
  unfolding test_stream
  test_stream-Comes env c p incoming h i amount s maximum w =
      elim (Bool-cases (ltb maximum amount)) [
        | inl e ↦ rw e (final-Comes c p incoming _ w)
        | inr e ↦ elim (Bool-cases s.closed) [
          | inl e2 ↦ rw (e, e2) (final-Comes c p incoming _ w)
          | inr e2 ↦ rw (e, e2) (goes tt)
        ]
      ]

  stream_there-Comes :
      (c : Connection) (p : Packet) (h : Handling) (i : ℕ)
      → Comes Any (Stopped c p) (stream_there h i)
  unfolding stream_there attempt
  stream_there-Comes c p h i = elim (Option-cases (lookup i h.connection.streams)) [
    | inl e ↦ rw (e, stream_there) (answered tt)
    | inr (s, e) ↦ rw (e, stream_there) (goes tt)
  ]

  amounts_loop-Comes :
      (env : Environment) (c : Connection) (p : Packet) (incoming : ℕ) (h : Handling) (whole : ℕ)
      (shares : List (ℕ × ℕ))
      → Uncredited c h
      → Comes Any (Stopped c p) (amounts_loop env p incoming h whole shares)
  unfolding amounts_loop check_stream
  amounts_loop-Comes env c p incoming h whole [] w = goes tt
  amounts_loop-Comes env c p incoming h whole ((i, n) ∷ rest) w =
      bind-Comes _ _ (attempt-Comes {P = Any} c p h _ (λ a e. tt)) (λ amount u.
        bind-Comes _ _ (stream_there-Comes c p h i) (λ s u.
          bind-Comes _ _
            (bind-Comes _ _ (attempt-Comes {P = Any} c p h _ (λ a e. tt))
              (λ maximum u. test_stream-Comes env c p incoming h i amount s maximum w))
            (λ first u.
              bind-Comes _ _ (amounts_loop-Comes env c p incoming h whole rest w)
                (λ others u. goes tt))))

  pub amounts-Comes :
      (env : Environment) (c : Connection) (p : Packet) (incoming : ℕ) (h : Handling)
      → Uncredited c h
      → Comes Any (Stopped c p) (amounts_for_streams env p incoming h)
  unfolding amounts_for_streams
  amounts-Comes env c p incoming h w =
      bind-Comes _ _ (attempt-Comes {P = Any} c p h _ (λ a e. tt))
        (λ whole u. amounts_loop-Comes env c p incoming h whole (money_frames p.frames) w)

  held-NoCredit :
      (c d : Connection) → d ≡ record c { incoming_hold = d.incoming_hold } → NoCredit c d
  held-NoCredit c d e = record {
    streams = λ k. ap (λ x. or_zero (money_in (lookup k x.streams))) e;
    received = ap (λ x. x.total_received) e;
    sent = ap (λ x. x.total_sent) e;
  }

  removed-NoCredit : (value : ℕ) (d : Connection) → NoCredit d (remove_incoming_hold value d)
  removed-NoCredit value d =
      let e = remove_incoming_hold-kept value d in held-NoCredit d (remove_incoming_hold value d) e

  ask-Comes :
      (env : Environment) (c : Connection) (p : Packet) (incoming : ℕ) (h : Handling)
      (d : Connection)
      → NoCredit c d
      → Comes (Uncredited c) (Stopped c p) (ask env p incoming h d)
  unfolding ask
  ask-Comes env c p incoming h d w = elim (Bool-cases (declines env p.sequence incoming)) [
    | inl e ↦ rw e (final-Comes c p incoming _ (NoCredit-trans w (removed-NoCredit incoming d)))
    | inr e ↦ rw e (goes w)
  ]

  pub consent-Comes :
      (env : Environment) (c : Connection) (p : Packet) (incoming : ℕ) (h : Handling)
      → Uncredited c h
      → Comes (Uncredited c) (Stopped c p) (consent env p incoming h)
  unfolding consent
  consent-Comes env c p incoming h w =
      bind-Comes _ _
        (attempt-Comes {P = NoCredit c} c p h (add_incoming_hold incoming h.connection) (λ d e.
          NoCredit-trans w
            (held-NoCredit h.connection d (add_incoming_hold-kept incoming h.connection d e))))
        (λ d v. ask-Comes env c p incoming h d v)

module _ ⦃oer : OerApi⦄ ⦃crypto : CryptoApi⦄ where
  -- An error of the receipts is thrown, and it comes after the credit.
  abbrev pub Failed : Answered → Type 0
  Failed r = (e : Error) × (r.answer ≡ fails e)

  attempt-Failed : {A : Type 0} (h : Handling) (r : Result A) → Comes Any Failed (attempt h r)
  unfolding attempt
  attempt-Failed h (ok a) = goes tt
  attempt-Failed h (throw e) = answered (e, refl)

  receipts-Failed :
      (nonce secret : Bytes) (h : Handling) (totals : List (ℕ × ℕ))
      → Comes Any Failed (receipt_frames nonce secret h totals)
  unfolding receipt_frames
  receipts-Failed nonce secret h [] = goes tt
  receipts-Failed nonce secret h ((i, total) ∷ rest) =
      bind-Comes _ _ (attempt-Failed h (create_receipt nonce i total secret))
        (λ receipt u. bind-Comes _ _ (receipts-Failed nonce secret h rest) (λ more u. goes tt))

  pub add_receipts-Failed :
      (totals : List (ℕ × ℕ)) (h : Handling) → Comes Any Failed (add_receipts totals h)
  unfolding add_receipts
  add_receipts-Failed totals h = elim (Option-cases h.connection.receipt_nonce) [
    | inl e ↦ rw (e, add_receipts) (goes tt)
    | inr (nonce, e) ↦ elim (Option-cases h.connection.receipt_secret) [
      | inl e2 ↦ rw (e, e2, add_receipts) (goes tt)
      | inr (secret, e2) ↦ rw (e, e2, add_receipts) (receipts-Failed nonce secret h totals)
    ]
  ]

module _ ⦃api : LongApi⦄ where
  update-total :
      (i : ℕ) (f : Stream → Stream) (c : Connection)
      → (update_stream i f c).total_received ≡ c.total_received
  unfolding update_stream
  update-total i f c = elim (Option-cases (lookup i c.streams)) [
    | inl e ↦ rw (e, update_stream) refl
    | inr (s, e) ↦ rw (e, update_stream) refl
  ]

  pub credit-total :
      (moves : List (ℕ × ℕ)) (c : Connection) → (credit moves c).total_received ≡ c.total_received
  unfolding credit
  credit-total [] c = refl
  credit-total ((i, a) ∷ rest) c = credit-total rest _ ∙ update-total i _ c

  pub answer_fulfill-total :
      (p : Packet) (incoming : ℕ) (fulfillment : Bytes) (receipts : List Frame) (h : Handling)
      → (answer_fulfill p incoming fulfillment receipts h).connection.total_received
        ≡ (checked_add h.connection.total_received incoming).value
  unfolding answer_fulfill
  answer_fulfill-total p incoming fulfillment receipts h =
      receive_total incoming (record (h.connection) { queued_frames = [] })

pub tell_limits-total :
    (env : Environment) (h : Handling)
    → (tell_limits env h).connection.total_received ≡ h.connection.total_received
unfolding tell_limits
tell_limits-total env h =
    elim (Bool-cases
      (not h.connection.is_closed && not (is_remote_closed h.connection.remote_state))) [
        | inl e ↦ rw e refl
        | inr e ↦ rw e refl
      ]
