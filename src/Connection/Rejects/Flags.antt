-- ===== src/Connection/Rejects/Flags.antt =====
-- What a rejected packet leaves of the flags that the send loop reads, and of streams.
use ilp_protocol_stream.Base.{
  ℕ, ◌==◌, ◌≡◌, refl, subst, inl, inr, Bool-cases, List, [], ◌∷◌, none, Result, ok, >>=-eq-ok,
  ok-inj,
}
use ilp_protocol_stream.Long.Interface.{LongApi}
use ilp_protocol_stream.Oer.{OerApi}
use ilp_protocol_stream.Stream.Money.{cancel_hold}
use ilp_protocol_stream.Stream.Data.{resend_outgoing_data}
use ilp_protocol_stream.Packet.{Frame, Packet, stream_close, stream_money, stream_data}
use ilp_protocol_stream.Congestion.{
  maximum_packet_amount, on_amount_too_large_error, on_insufficient_liquidity_error,
}
use ilp_protocol_stream.Connection.{Connection}
use ilp_protocol_stream.Connection.Control.Flags.{
  Steady, Steady-trans, Steady-fields, Steady-self, update-Steady,
}
use ilp_protocol_stream.Connection.Rejects.{
  undo_frame, undo_frames, undo_rejected_packet, same_code, f08, t04, is_temporary, Reject, Handled,
  handle_amount_too_large, wait, handle_temporary, handle_connector_error,
}

module _ ⦃api : LongApi⦄ where
  frame-Steady :
      (sequence : ℕ) (frame : Frame) (c : Connection) → Steady c (undo_frame sequence frame c)
  unfolding undo_frame
  frame-Steady sequence (stream_money i shares) c = update-Steady i (λ s. cancel_hold s sequence) c
  frame-Steady sequence (stream_data i o bytes) c =
      update-Steady i (λ s. resend_outgoing_data s bytes o) c
  frame-Steady sequence (stream_close i code message) c =
      Steady-fields refl refl refl refl refl refl refl
  frame-Steady sequence _ c = Steady-self c

  frames-Steady :
      (sequence : ℕ) (frames : List Frame) (c : Connection)
      → Steady c (undo_frames sequence frames c)
  unfolding undo_frames
  frames-Steady sequence [] c = Steady-self c
  frames-Steady sequence (frame ∷ rest) c =
      Steady-trans (frame-Steady sequence frame c)
        (frames-Steady sequence rest (undo_frame sequence frame c))

  pub undo_rejected_packet-Steady :
      (p : Packet) (c : Connection) → Steady c (undo_rejected_packet p c)
  unfolding undo_rejected_packet
  undo_rejected_packet-Steady p c = frames-Steady p.sequence p.frames c

module _ ⦃api : LongApi⦄ ⦃oer : OerApi⦄ where
  -- A result that is `ok` has the flags.
  abbrev Handles : Connection → Result Handled → Type 0
  Handles c result = (h : Handled) → result ≡ ok h → Steady c h.connection

  large-Steady :
      (reject : Reject) (amount : ℕ) (c : Connection)
      → Handles c (handle_amount_too_large reject amount c)
  unfolding handle_amount_too_large
  large-Steady reject amount c h e =
      let (congestion, first, rest) =
        >>=-eq-ok (on_amount_too_large_error reject.bytes amount c.congestion) _ e in
      elim (Bool-cases (maximum_packet_amount congestion == 0)) [
        | inl blocked ↦ absurd (cc)
        | inr open_path ↦
            let last : ok
                  (record { connection = record c { congestion = congestion }; delay = none })
                ≡ ok h =
              cc in
            subst (λ x. Steady c x.connection) (ok-inj last)
              (Steady-fields refl refl refl refl refl refl refl)
      ]

  temporary-Steady :
      (reject : Reject) (amount : ℕ) (c : Connection) → Handles c (handle_temporary reject amount c)
  unfolding handle_temporary wait
  temporary-Steady reject amount c h e = elim (Bool-cases (same_code reject.code t04)) [
    | inl liquidity ↦
        let (congestion, first, rest) =
          >>=-eq-ok (on_insufficient_liquidity_error amount c.congestion) _
            (rw (liquidity, handle_temporary) at e) in
        subst (λ x. Steady c x.connection) (ok-inj rest)
          (Steady-fields refl refl refl refl refl refl refl)
    | inr other ↦
        subst (λ x. Steady c x.connection) (ok-inj (rw (other, handle_temporary) at e))
          (Steady-fields refl refl refl refl refl refl refl)
  ]

  pub handle_connector_error-Steady :
      (reject : Reject) (amount : ℕ) (c : Connection) (h : Handled)
      → handle_connector_error reject amount c ≡ ok h
      → Steady c h.connection
  unfolding handle_connector_error
  handle_connector_error-Steady reject amount c h e =
      elim (Bool-cases (same_code reject.code f08)) [
        | inl large ↦ large-Steady reject amount c h (rw (large, handle_connector_error) at e)
        | inr small ↦ elim (Bool-cases (is_temporary reject.code)) [
          | inl temporary ↦
              temporary-Steady reject amount c h
                (rw (small, handle_connector_error, temporary) at e)
          | inr final ↦ absurd (let never = rw (small, handle_connector_error, final) at e in cc)
        ]
      ]
