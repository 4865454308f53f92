-- ===== src/Connection/Filling/Keys.antt =====
-- Loading a packet leaves the identifiers of streams alone.
use ilp_protocol_stream.Base.{
  ℕ, ◌+◌, ◌^◌, leb, ◌==◌, ◌&&◌, ◌≡◌, refl, subst, inl, inr, Bool-cases, List, [], ◌∷◌, ◌++◌, Option,
  none, some, lookup, ok, >>=-eq-ok, ok-inj,
}
use ilp_protocol_stream.Long.Interface.{LongApi}
use ilp_protocol_stream.Oer.{OerApi}
use ilp_protocol_stream.Rational.{Rational}
use ilp_protocol_stream.Stream.{Stream}
use ilp_protocol_stream.Packet.{Packet}
use ilp_protocol_stream.Connection.{Connection}
use ilp_protocol_stream.Connection.Totals.{get_next_packet_sequence}
use ilp_protocol_stream.Connection.Streams.{has}
use ilp_protocol_stream.Connection.Streams.Same.{
  SameIds, SameIds-trans, SameIds-keys, SameIds-fields, cons-known,
}
use ilp_protocol_stream.Connection.Sending.{Loaded, load_money}
use ilp_protocol_stream.Connection.Sending.Keys.{load_money-known}
use ilp_protocol_stream.Connection.Filling.{
  Buffers, after_close_frames, fill_streams, bytes_left, fill_data, has_no_frames, is_still_sending,
  Prepared, nothing, packet, minimum_destination_amount, fill_packet, load_at, load_packet,
}

-- The connection behind the load.
pub connection_of : Prepared → Connection
connection_of (nothing c) = c
connection_of (packet p amount sent_from called c) = c

module _ ⦃oer : OerApi⦄ where
  fill_streams-known :
      (streams : List (ℕ × Stream)) (left k : ℕ)
      → has (lookup k (fill_streams left streams).streams) ≡ has (lookup k streams)
  unfolding fill_streams
  fill_streams-known [] left k = refl
  fill_streams-known ((j, s) ∷ rest) left k = elim (Bool-cases (leb left 20)) [
    | inl full ↦ rw full refl
    | inr room ↦ rw room (cons-known j _ s _ rest k (fill_streams-known rest _ k))
  ]

module _ ⦃api : LongApi⦄ ⦃oer : OerApi⦄ where
  fill_packet-SameIds :
      (rate : Rational) (p : Packet) (l : Loaded) (c : Connection) (r : Prepared)
      → fill_packet rate p l c ≡ ok r
      → SameIds c (connection_of r)
  unfolding fill_packet fill_data connection_of
  fill_packet-SameIds rate p l c r e =
      let filled = fill_data p c in
      let frames = p.frames ++ filled.frames in
      let sending = is_still_sending c.sending l.amount_to_send frames in
      let d = record c { streams = filled.streams; sending = sending } in
      let same : SameIds c d =
        SameIds-keys refl refl refl refl (λ k. fill_streams-known c.streams (bytes_left p c) k) in
      elim (Bool-cases ((l.amount_to_send == 0) && has_no_frames frames)) [
        | inl idle ↦
            subst (λ x. SameIds c (connection_of x)) (ok-inj (rw (idle, fill_packet) at e)) same
        | inr busy ↦
            let (minimum, first, last) =
              >>=-eq-ok (minimum_destination_amount c.slippage rate l.amount_to_send) _
                (rw (busy, fill_packet) at e) in
            subst (λ x. SameIds c (connection_of x)) (ok-inj last) same
      ]

  load_at-SameIds :
      (rate : Option Rational) (buffers : Buffers) (sequence : ℕ) (c : Connection) (r : Prepared)
      → load_at rate buffers sequence c ≡ ok r
      → SameIds c (connection_of r)
  unfolding load_at after_close_frames
  load_at-SameIds none buffers sequence c r e = absurd (cc)
  load_at-SameIds (some rate) buffers sequence c r e =
      let d = after_close_frames (record c { queued_frames = [] }) in
      let (l, first, last) = >>=-eq-ok (load_money sequence rate d) _ e in
      let paid = record d { streams = l.streams } in
      let same : SameIds c paid =
        SameIds-keys refl refl refl refl (load_money-known sequence rate d l first) in
      SameIds-trans same (fill_packet-SameIds rate _ l paid r last)

  pub load_packet-SameIds :
      (buffers : Buffers) (c : Connection) (r : Prepared)
      → load_packet buffers c ≡ ok r
      → SameIds c (connection_of r)
  unfolding load_packet get_next_packet_sequence
  load_packet-SameIds buffers c r e = elim (Bool-cases (leb (2 ^ 31) c.next_packet_sequence)) [
    | inl over ↦ absurd (let never = rw (over, load_packet) at e in cc)
    | inr left ↦
        let d = record c { next_packet_sequence = c.next_packet_sequence + 1 } in
        let loaded : load_at d.exchange_rate buffers c.next_packet_sequence d ≡ ok r =
          rw (left, load_packet) at e in
        SameIds-trans (SameIds-fields refl refl refl refl refl)
          (load_at-SameIds d.exchange_rate buffers c.next_packet_sequence d r loaded)
  ]
