-- ===== src/Connection/Prepare/Handler/Earned.antt =====
-- What an answer of `handlePrepare` was given for.
use ilp_protocol_stream.Base.{
  ℕ, ◌≤◌, ◌≡◌, refl, sym, subst, ap, ◌∙◌, inl, inr, ◌⊎◌, ◌==◌, ==→eq, Bool-cases, List, [], Result,
  ok, throw, Error,
}
use ilp_protocol_stream.Long.{checked_add}
use ilp_protocol_stream.Long.Interface.{LongApi}
use ilp_protocol_stream.Oer.{Bytes, OerApi}
use ilp_protocol_stream.Crypto.{CryptoApi}
use ilp_protocol_stream.Packet.{Packet}
use ilp_protocol_stream.Packet.Padding.{decrypt_and_deserialize}
use ilp_protocol_stream.Connection.{Connection}
use ilp_protocol_stream.Connection.Streams.Fresh.{
  NoCredit, NoCredit-self, NoCredit-trans, Untouched-NoCredit,
}
use ilp_protocol_stream.Connection.Control.Streams.{handle_control_frames-Untouched}
use ilp_protocol_stream.Connection.Prepare.{
  IlpPrepare, Environment, Answer, fulfills, rejects, refuses, fails, Answered, Handling, Stage,
  proceeds, stops,
}
use ilp_protocol_stream.Connection.Prepare.Fulfilling.{credit, tell_limits, answer_fulfill}
use ilp_protocol_stream.Connection.Prepare.Handler.{
  start, apply_control_frames, validate, settle, receive, handle_packet, handle_prepare,
}
use ilp_protocol_stream.Connection.Prepare.Answers.{
  Comes, goes, answered, bind-Comes, Rejected, Stopped, Uncredited, open_streams-Comes,
  check_window-Comes, check_amount-Comes,
}
use ilp_protocol_stream.Connection.Prepare.Fulfilling.Checked.{
  Opens, Failed, check_fulfillment-Comes, amounts-Comes, consent-Comes, add_receipts-Failed,
  credit-total, answer_fulfill-total, tell_limits-total,
}

pub Result-cases :
    {A : Type 0} (r : Result A) → ((e : Error) × (r ≡ throw e)) ⊎ ((a : A) × (r ≡ ok a))
Result-cases (ok a) = inr (a, refl)
Result-cases (throw e) = inl (e, refl)

module _ ⦃api : LongApi⦄ where
  control-Uncredited :
      (env : Environment) (c : Connection) (p : Packet) (h : Handling)
      → Uncredited c h
      → Uncredited c (apply_control_frames env p h)
  unfolding apply_control_frames
  control-Uncredited env c p h w =
      NoCredit-trans w
        (Untouched-NoCredit (handle_control_frames-Untouched env.buffers p.frames h.connection))

module _ ⦃api : LongApi⦄ ⦃crypto : CryptoApi⦄ where
  -- What is known of a packet behind the tests.
  abbrev Valid :
      Environment → IlpPrepare → Packet → Connection → Handling × (Bytes × List (ℕ × ℕ)) → Type 0
  Valid env prepare p c v =
      Uncredited c v.0 × ((p.prepare_amount ≤ prepare.amount) × Opens env prepare v.1.0)

  validate-Comes :
      (env : Environment) (prepare : IlpPrepare) (p : Packet) (c : Connection)
      → Comes (Valid env prepare p c) (Stopped c p) (validate env prepare p c)
  unfolding validate start
  validate-Comes env prepare p c =
      bind-Comes _ _
        (open_streams-Comes env c p prepare.amount p.frames (start env c) (NoCredit-self c))
        (λ opened w.
          bind-Comes _ _
            (check_window-Comes env c p prepare.amount _ (control-Uncredited env c p opened w))
            (λ inside w.
              bind-Comes _ _ (check_amount-Comes c p prepare.amount inside w) (λ enough wm.
                bind-Comes _ _ (check_fulfillment-Comes env c p prepare enough wm.0)
                  (λ fulfillment opens.
                    bind-Comes _ _ (amounts-Comes env c p prepare.amount enough wm.0)
                      (λ moves u. goes (wm.0, (wm.1, opens)))))))

  -- What the answer to a packet tells.
  abbrev pub Told : Environment → IlpPrepare → Packet → Connection → Answer → Connection → Type 0
  Told env prepare p c (fulfills fulfillment response) d =
      (p.prepare_amount ≤ prepare.amount)
      × Opens env prepare fulfillment
      × (response.sequence ≡ p.sequence)
      × (response.prepare_amount ≡ prepare.amount)
      × (d.total_received ≡ (checked_add c.total_received prepare.amount).value)
  Told env prepare p c (rejects response) d = NoCredit c d × (response.sequence ≡ p.sequence)
  Told env prepare p c refuses d = NoCredit c d
  Told env prepare p c (fails e) d = Unit {0}

  abbrev Tells : Environment → IlpPrepare → Packet → Connection → Answered → Type 0
  Tells env prepare p c r = Told env prepare p c r.answer r.connection

  stopped-Told :
      (env : Environment) (prepare : IlpPrepare) (p : Packet) (c : Connection) (a : Answer)
      (d : Connection)
      → Rejected c p a d
      → Told env prepare p c a d
  stopped-Told env prepare p c (fulfills f response) d w = absurd w
  stopped-Told env prepare p c (rejects response) d w = w
  stopped-Told env prepare p c refuses d w = w
  stopped-Told env prepare p c (fails e) d w = tt

  settle-Tells :
      (env : Environment) (prepare : IlpPrepare) (p : Packet) (c : Connection) (s : Stage Answered)
      → Comes (Tells env prepare p c) (Tells env prepare p c) s
      → Tells env prepare p c (settle s)
  unfolding settle
  settle-Tells env prepare p c (proceeds r) (goes w) = w
  settle-Tells env prepare p c (stops r) (answered w) = w

  weaken :
      {A : Type 0} {P : A → Type 0} {Q R : Answered → Type 0} (s : Stage A)
      → ((r : Answered) → Q r → R r)
      → Comes P Q s
      → Comes P R s
  weaken (proceeds a) f (goes w) = goes w
  weaken (stops r) f (answered w) = answered (f r w)

module _ ⦃api : LongApi⦄ ⦃oer : OerApi⦄ ⦃crypto : CryptoApi⦄ where
  Failed-Tells :
      (env : Environment) (prepare : IlpPrepare) (p : Packet) (c : Connection) (r : Answered)
      → Failed r
      → Tells env prepare p c r
  Failed-Tells env prepare p c r (e, failed) =
      subst (λ a. Told env prepare p c a r.connection) (sym failed) tt

  receive-Tells :
      (env : Environment) (prepare : IlpPrepare) (p : Packet) (c : Connection)
      (v : Handling × (Bytes × List (ℕ × ℕ)))
      → Valid env prepare p c v
      → Comes (Tells env prepare p c) (Tells env prepare p c) (receive env prepare p v)
  unfolding receive answer_fulfill
  receive-Tells env prepare p c (h, (fulfillment, moves)) (w, (amount, opens)) =
      bind-Comes _ _
        (weaken _ (λ r. stopped-Told env prepare p c r.answer r.connection)
          (consent-Comes env c p prepare.amount h w))
        (λ held u.
          let paid = record held { connection = credit moves held.connection } in
          let told = tell_limits env paid in
          bind-Comes _ _ (weaken _ (Failed-Tells env prepare p c) (add_receipts-Failed _ told))
            (λ receipts _. goes (
              amount,
              opens,
              refl,
              refl,
              answer_fulfill-total p prepare.amount fulfillment receipts told
                  ∙ ap (λ x. (checked_add x prepare.amount).value)
                      (tell_limits-total env paid
                        ∙ credit-total moves held.connection
                        ∙ u.received),
            )))

  handle_packet-Tells :
      (env : Environment) (prepare : IlpPrepare) (p : Packet) (c : Connection)
      → Tells env prepare p c (handle_packet env prepare p c)
  unfolding handle_packet
  handle_packet-Tells env prepare p c = settle-Tells env prepare p c _ (
      bind-Comes _ _
        (weaken _ (λ r. stopped-Told env prepare p c r.answer r.connection)
          (validate-Comes env prepare p c))
        (λ v w. receive-Tells env prepare p c v w))

  -- An incoming packet is refused without any effect, or its data decrypts to a packet for a
  -- prepare. In that case a fulfill tells that the amount is at least the packet's minimum, that
  -- the fulfillment is the HMAC of the prepare's data and hashes to the condition, and that the
  -- total received has grown by the amount, up to 2 ^ 64 - 1; its response has the packet's number
  -- and amount. With a reject no stream and no total of the connection has got or spent anything.
  -- An error of another kind that is thrown is not part of the statement.
  pub handle_prepare_lem :
      (env : Environment) (prepare : IlpPrepare) (c : Connection)
      → (handle_prepare env prepare c ≡ record { answer = refuses; connection = c; effects = [] })
        ⊎ ((p : Packet) × (decrypt_and_deserialize env.psk_key prepare.bytes ≡ ok p)
            × (p.ilp_packet_type ≡ 12)
            × Tells env prepare p c (handle_prepare env prepare c))
  unfolding handle_prepare
  handle_prepare_lem env prepare c =
      elim (Result-cases (decrypt_and_deserialize env.psk_key prepare.bytes)) [
        | inl (e, thrown) ↦ inl (rw (thrown, handle_prepare))
        | inr (p, opened) ↦ elim (Bool-cases (p.ilp_packet_type == 12)) [
          | inl e ↦ inr (
            p,
            opened,
            ==→eq p.ilp_packet_type 12 e,
            rw (opened, handle_prepare, e) (handle_packet-Tells env prepare p c),
          )
          | inr e ↦ inl (rw (opened, handle_prepare, e))
        ]
      ]
