-- ===== src/Connection/Prepare/Handler/Keys.antt =====
-- Answering a packet keeps the identifiers of streams in order.
use ilp_protocol_stream.Base.{ℕ, inl, inr, ◌==◌, Bool-cases, List}
use ilp_protocol_stream.Long.Interface.{LongApi}
use ilp_protocol_stream.Oer.{Bytes, OerApi}
use ilp_protocol_stream.Crypto.{CryptoApi}
use ilp_protocol_stream.Packet.{Packet}
use ilp_protocol_stream.Packet.Padding.{decrypt_and_deserialize}
use ilp_protocol_stream.Connection.{Connection}
use ilp_protocol_stream.Connection.Streams.Identifiers.{IsWellFormed}
use ilp_protocol_stream.Connection.Streams.Same.{SameIds-trans, SameIds-IsWellFormed}
use ilp_protocol_stream.Connection.Control.Flags.{handle_control_frames-Steady}
use ilp_protocol_stream.Connection.Prepare.{
  IlpPrepare, Environment, Answered, Handling, Stage, proceeds, stops,
}
use ilp_protocol_stream.Connection.Prepare.Fulfilling.{credit, tell_limits}
use ilp_protocol_stream.Connection.Prepare.Handler.{
  start, apply_control_frames, validate, settle, receive, handle_packet, handle_prepare,
}
use ilp_protocol_stream.Connection.Prepare.Handler.Earned.{Result-cases}
use ilp_protocol_stream.Connection.Prepare.Answers.{Comes, goes, answered, bind-Comes}
use ilp_protocol_stream.Connection.Prepare.Keys.{
  Fine, Ended, open_streams-Fine, check_window-Fine, check_amount-Fine,
}
use ilp_protocol_stream.Connection.Prepare.Fulfilling.Keys.{
  check_fulfillment-Fine, amounts-Fine, consent-Fine, credit-SameIds, tell_limits-SameIds,
  add_receipts-Fine, answer_fulfill-SameIds,
}

module _ ⦃api : LongApi⦄ where
  control-Fine :
      (env : Environment) (p : Packet) (h : Handling) → Fine h → Fine (apply_control_frames env p h)
  unfolding apply_control_frames
  control-Fine env p h w =
      SameIds-IsWellFormed ((handle_control_frames-Steady env.buffers p.frames h.connection).ids) w

module _ ⦃api : LongApi⦄ ⦃crypto : CryptoApi⦄ where
  validate-Fine :
      (env : Environment) (prepare : IlpPrepare) (p : Packet) (c : Connection)
      → IsWellFormed c
      → Comes (λ v. Fine v.0) Ended (validate env prepare p c)
  unfolding validate start
  validate-Fine env prepare p c w =
      bind-Comes _ _ (open_streams-Fine env p prepare.amount p.frames (start env c) w) (λ opened w.
        bind-Comes _ _ (check_window-Fine env p prepare.amount _ (control-Fine env p opened w))
          (λ inside w. bind-Comes _ _ (check_amount-Fine p prepare.amount inside w) (λ enough w.
            bind-Comes _ _ (check_fulfillment-Fine env p prepare enough w) (λ fulfillment u.
              bind-Comes _ _ (amounts-Fine env p prepare.amount enough w) (λ moves u. goes w)))))

settle-Ended : (s : Stage Answered) → Comes Ended Ended s → Ended (settle s)
unfolding settle
settle-Ended (proceeds r) (goes w) = w
settle-Ended (stops r) (answered w) = w

module _ ⦃api : LongApi⦄ ⦃oer : OerApi⦄ ⦃crypto : CryptoApi⦄ where
  receive-Fine :
      (env : Environment) (prepare : IlpPrepare) (p : Packet)
      (v : Handling × (Bytes × List (ℕ × ℕ)))
      → Fine v.0
      → Comes Ended Ended (receive env prepare p v)
  unfolding receive
  receive-Fine env prepare p (h, (fulfillment, moves)) w =
      bind-Comes _ _ (consent-Fine env p prepare.amount h w) (λ held w.
        let paid = record held { connection = credit moves held.connection } in
        let told = tell_limits env paid in
        let well : Fine told =
          SameIds-IsWellFormed
            (SameIds-trans (credit-SameIds moves held.connection) (tell_limits-SameIds env paid))
            w in
        bind-Comes _ _ (add_receipts-Fine _ told well) (λ receipts _. goes (
          SameIds-IsWellFormed (answer_fulfill-SameIds p prepare.amount fulfillment receipts told)
            well)))

  handle_packet-IsWellFormed :
      (env : Environment) (prepare : IlpPrepare) (p : Packet) (c : Connection)
      → IsWellFormed c
      → Ended (handle_packet env prepare p c)
  unfolding handle_packet
  handle_packet-IsWellFormed env prepare p c w =
      settle-Ended _
        (bind-Comes _ _ (validate-Fine env prepare p c w) (λ v w. receive-Fine env prepare p v w))

  pub handle_prepare-IsWellFormed :
      (env : Environment) (prepare : IlpPrepare) (c : Connection)
      → IsWellFormed c
      → IsWellFormed (handle_prepare env prepare c).connection
  unfolding handle_prepare
  handle_prepare-IsWellFormed env prepare c w =
      elim (Result-cases (decrypt_and_deserialize env.psk_key prepare.bytes)) [
        | inl (e, thrown) ↦ rw (thrown, handle_prepare) w
        | inr (p, opened) ↦ elim (Bool-cases (p.ilp_packet_type == 12)) [
          | inl e ↦ rw (opened, handle_prepare, e) (handle_packet-IsWellFormed env prepare p c w)
          | inr e ↦ rw (opened, handle_prepare, e) w
        ]
      ]
