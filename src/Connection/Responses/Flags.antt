-- ===== src/Connection/Responses/Flags.antt =====
-- What the response to a packet leaves of the flags that the send loop reads, and of streams.
use ilp_protocol_stream.Base.{
  ℕ, ◌==◌, ltb, not, ◌≡◌, refl, sym, subst, ap, inl, inr, Bool-cases, List, [], ◌∷◌, some, ok, true,
  >>=-eq-ok, ok-inj,
}
use ilp_protocol_stream.Long.{checked_add}
use ilp_protocol_stream.Long.Interface.{LongApi}
use ilp_protocol_stream.Oer.{Bytes, OerApi}
use ilp_protocol_stream.Crypto.{CryptoApi}
use ilp_protocol_stream.Rational.{new_rational}
use ilp_protocol_stream.Receipt.{equals}
use ilp_protocol_stream.Packet.{Frame, Packet, stream_receipt}
use ilp_protocol_stream.Packet.Padding.{decrypt_and_deserialize}
use ilp_protocol_stream.Congestion.{on_fulfill}
use ilp_protocol_stream.Stream.Money.{execute_hold}
use ilp_protocol_stream.Connection.{Connection, RemoteState}
use ilp_protocol_stream.Connection.Totals.{add_total_delivered, add_total_sent}
use ilp_protocol_stream.Connection.Rejects.{
  Reject, same_code, undo_rejected_packet, handle_connector_error,
}
use ilp_protocol_stream.Connection.Rejects.Flags.{
  undo_rejected_packet-Steady, handle_connector_error-Steady,
}
use ilp_protocol_stream.Connection.Sending.{execute_holds}
use ilp_protocol_stream.Connection.Filling.{Buffers}
use ilp_protocol_stream.Connection.Control.{Effect, handle_control_frames}
use ilp_protocol_stream.Connection.Streams.Same.{SameIds-fields}
use ilp_protocol_stream.Connection.Control.Flags.{
  Steady, Steady-trans, Steady-same, Steady-fields, Steady-self, update-Steady,
  handle_control_frames-Steady,
}
use ilp_protocol_stream.Connection.Responses.{
  Response, fulfill, reject, invalid, Sent, f99, type_fulfill, type_reject, match_response,
  read_response, handle_reject, handle_response, set_receipts, connected_from, finish_fulfill,
  track_rate, finish_receipts, finish_response,
}

module _ ⦃oer : OerApi⦄ ⦃crypto : CryptoApi⦄ where
  read_response-connection :
      (psk_key : Bytes) (p : Packet) (type : ℕ) (bytes : Bytes) (c : Connection) (s : Sent)
      → read_response psk_key p type bytes c ≡ ok s
      → s.connection ≡ c
  unfolding read_response
  read_response-connection psk_key p type [] c s e = ap (λ x. x.connection) (sym (ok-inj e))
  read_response-connection psk_key p type (b ∷ bytes) c s e =
      let (opened, first, more) = >>=-eq-ok (decrypt_and_deserialize psk_key (b ∷ bytes)) _ e in
      let (matched, second, last) = >>=-eq-ok (match_response p type opened) _ more in
      ap (λ x. x.connection) (sym (ok-inj last))

module _ ⦃api : LongApi⦄ ⦃oer : OerApi⦄ ⦃crypto : CryptoApi⦄ where
  handle_reject-Steady :
      (psk_key : Bytes) (p : Packet) (amount : ℕ) (r : Reject) (c : Connection) (s : Sent)
      → handle_reject psk_key p amount r c ≡ ok s
      → Steady c s.connection
  unfolding handle_reject
  handle_reject-Steady psk_key p amount r c s e =
      let undone = undo_rejected_packet p c in
      let v = undo_rejected_packet-Steady p c in
      elim (Bool-cases (not (same_code r.code f99))) [
        | inl other ↦
            let (handled, first, last) =
              >>=-eq-ok (handle_connector_error r amount undone) _
                (rw (other, handle_reject) at e) in
            subst (λ x. Steady c x.connection) (ok-inj last)
              (Steady-trans v (handle_connector_error-Steady r amount undone handled first))
        | inr final ↦
            let same =
              read_response-connection psk_key p type_reject r.bytes undone s
                (rw (final, handle_reject) at e) in
            subst (Steady c) (sym same) v
      ]

  pub handle_response-Steady :
      (psk_key : Bytes) (p : Packet) (amount : ℕ) (condition : Bytes) (response : Response)
      (c : Connection) (s : Sent)
      → handle_response psk_key p amount condition response c ≡ ok s
      → Steady c s.connection
  unfolding handle_response
  handle_response-Steady psk_key p amount condition (fulfill fulfillment bytes) c s e =
      elim (Bool-cases (not (equals (crypto.sha256 fulfillment) condition))) [
        | inl wrong ↦ absurd (let never = rw (wrong, handle_response) at e in cc)
        | inr right ↦
            let same =
              read_response-connection psk_key p type_fulfill bytes c s
                (rw (right, handle_response) at e) in
            subst (Steady c) (sym same) (Steady-self c)
      ]
  handle_response-Steady psk_key p amount condition (reject r) c s e =
      handle_reject-Steady psk_key p amount r c s e
  handle_response-Steady psk_key p amount condition invalid c s e = absurd (cc)

set_receipts-Steady : (frames : List Frame) (c : Connection) → Steady c (set_receipts frames c)
unfolding set_receipts
set_receipts-Steady [] c = Steady-self c
set_receipts-Steady (stream_receipt i receipt ∷ rest) c =
    Steady-trans (update-Steady i (λ s. record s { receipt = some receipt }) c)
      (set_receipts-Steady rest _)
set_receipts-Steady (_ ∷ rest) c = set_receipts-Steady rest c

module _ ⦃api : LongApi⦄ where
  execute_holds-Steady :
      (sequence : ℕ) (ids : List ℕ) (c : Connection) → Steady c (execute_holds sequence ids c)
  unfolding execute_holds
  execute_holds-Steady sequence [] c = Steady-self c
  execute_holds-Steady sequence (i ∷ rest) c =
      Steady-trans (update-Steady i (λ s. execute_hold s sequence) c)
        (execute_holds-Steady sequence rest _)

  delivered-Steady :
      (value : ℕ) (c d : Connection) → add_total_delivered value c ≡ ok d → Steady c d
  unfolding add_total_delivered
  delivered-Steady value c d e = elim (Bool-cases (checked_add c.total_delivered value).wrapped) [
    | inl over ↦ absurd (let never = rw (over, add_total_delivered) at e in cc)
    | inr exact ↦
        subst (Steady c) (ok-inj (rw (exact, add_total_delivered) at e))
          (Steady-fields refl refl refl refl refl refl refl)
  ]

  sent-Steady : (value : ℕ) (c d : Connection) → add_total_sent value c ≡ ok d → Steady c d
  unfolding add_total_sent
  sent-Steady value c d e = elim (Bool-cases (checked_add c.total_sent value).wrapped) [
    | inl over ↦ absurd (let never = rw (over, add_total_sent) at e in cc)
    | inr exact ↦
        subst (Steady c) (ok-inj (rw (exact, add_total_sent) at e))
          (Steady-fields refl refl refl refl refl refl refl)
  ]

  finish_fulfill-Steady :
      (sequence : ℕ) (ids : List ℕ) (amount : ℕ) (response : Packet) (c d : Connection)
      → finish_fulfill sequence ids amount response c ≡ ok d
      → Steady c d
  unfolding finish_fulfill
  finish_fulfill-Steady sequence ids amount response c d e =
      let told = set_receipts response.frames c in
      let executed = execute_holds sequence ids told in
      let (a, first, rest) = >>=-eq-ok (add_total_delivered response.prepare_amount executed) _ e in
      let (b, second, more) = >>=-eq-ok (add_total_sent amount a) _ rest in
      let (congestion, third, last) = >>=-eq-ok (on_fulfill amount b.congestion) _ more in
      let v =
        Steady-trans (set_receipts-Steady response.frames c)
          (execute_holds-Steady sequence ids told) in
      let w =
        Steady-trans (delivered-Steady response.prepare_amount executed a first)
          (sent-Steady amount a b second) in
      subst (Steady c) (ok-inj last)
        (Steady-trans (Steady-trans v w) (Steady-fields refl refl refl refl refl refl refl))

  track_rate-Steady :
      (amount : ℕ) (response : Packet) (c d : Connection)
      → track_rate amount response c ≡ ok d
      → Steady c d
  unfolding track_rate
  track_rate-Steady amount response c d e = elim (Bool-cases (ltb 0 amount)) [
    | inl some_amount ↦
        let (rate, first, last) =
          >>=-eq-ok (new_rational response.prepare_amount amount true) _
            (rw (some_amount, track_rate) at e) in
        subst (Steady c) (ok-inj last) (Steady-fields refl refl refl refl refl refl refl)
    | inr no_amount ↦ subst (Steady c) (ok-inj (rw (no_amount, track_rate) at e)) (Steady-self c)
  ]

  finish_receipts-Steady :
      (sequence : ℕ) (ids : List ℕ) (amount : ℕ) (response : Packet) (c d : Connection)
      → finish_receipts sequence ids amount response c ≡ ok d
      → Steady c d
  unfolding finish_receipts
  finish_receipts-Steady sequence ids amount response c d e =
      elim (Bool-cases (response.ilp_packet_type == type_fulfill)) [
        | inl fulfilled ↦
            finish_fulfill-Steady sequence ids amount response c d
              (rw (fulfilled, finish_receipts) at e)
        | inr other ↦ subst (Steady c) (ok-inj (rw (other, finish_receipts) at e)) (Steady-self c)
      ]

  connected_from-Steady :
      (state : RemoteState) (c : Connection)
      → state ≡ c.remote_state
      → Steady c (record c { remote_state = connected_from state; remote_knows_our_account = true })
  connected_from-Steady RemoteState.init c e = record {
    ids = SameIds-fields refl refl refl refl refl;
    awake = λ a. elim a [ inl h ↦ inl h | inr h ↦ absurd (cc) ];
    closed = λ h. absurd (cc);
  }
  connected_from-Steady RemoteState.connected c e =
      Steady-same refl e (SameIds-fields refl refl refl refl refl)
  connected_from-Steady RemoteState.closed c e =
      Steady-same refl e (SameIds-fields refl refl refl refl refl)

  pub finish_response-Steady :
      (buffers : Buffers) (sequence : ℕ) (ids : List ℕ) (amount : ℕ) (response : Packet)
      (c : Connection) (r : Connection × List Effect)
      → finish_response buffers sequence ids amount response c ≡ ok r
      → Steady c r.0
  unfolding finish_response
  finish_response-Steady buffers sequence ids amount response c r e =
      let known = record c {
        remote_state = connected_from c.remote_state;
        remote_knows_our_account = true;
      } in
      let controlled = handle_control_frames buffers response.frames known in
      let (tracked, first, rest) =
        >>=-eq-ok (track_rate amount response controlled.connection) _ e in
      let (finished, second, last) =
        >>=-eq-ok (finish_receipts sequence ids amount response tracked) _ rest in
      let v =
        Steady-trans (connected_from-Steady c.remote_state c refl)
          (handle_control_frames-Steady buffers response.frames known) in
      let w =
        Steady-trans (track_rate-Steady amount response controlled.connection tracked first)
          (finish_receipts-Steady sequence ids amount response tracked finished second) in
      subst (λ x. Steady c x.0) (ok-inj last) (Steady-trans v w)
