-- ===== src/Connection/Responses/Delivered.antt =====
-- What the response to a packet proves, and what a delivered packet adds.
use ilp_protocol_stream.Base.{
  ℕ, ◌+◌, ◌^◌, ◌<◌, ◌≡◌, refl, ap, ◌∙◌, lt→ltb, eq→==, List, [], ◌∷◌, some, true, Result, ok, ◌>>=◌,
  arith,
}
use ilp_protocol_stream.Long.Interface.{LongApi, IsLong}
use ilp_protocol_stream.Rational.Arithmetic.{new_rational_lem}
use ilp_protocol_stream.Stream.{Stream}
use ilp_protocol_stream.Packet.{Frame, Packet, stream_receipt}
use ilp_protocol_stream.Congestion.{CongestionController, maximum_packet_amount, on_fulfill}
use ilp_protocol_stream.Congestion.Probing.{on_fulfill_lem}
use ilp_protocol_stream.Connection.{Connection, retry_delay_start}
use ilp_protocol_stream.Connection.Updating.{update_stream, update-others, with_streams}
use ilp_protocol_stream.Connection.Totals.{add_total_delivered, add_total_sent}
use ilp_protocol_stream.Connection.Totals.Holding.{add_totals_lem}
use ilp_protocol_stream.Connection.Sending.{execute_holds}
use ilp_protocol_stream.Connection.Sending.Settled.{execute_holds-others}
use ilp_protocol_stream.Connection.Filling.{Buffers}
use ilp_protocol_stream.Connection.Control.{Effect, handle_control_frames}
use ilp_protocol_stream.Connection.Control.Streams.{handle_control_frames-Untouched}
use ilp_protocol_stream.Connection.Responses.{
  set_receipts, connected_from, track_rate, finish_fulfill, finish_receipts, finish_response,
}

set_receipts-others :
    (frames : List Frame) (c : Connection)
    → set_receipts frames c ≡ with_streams (set_receipts frames c).streams c
unfolding set_receipts
set_receipts-others [] c = refl
set_receipts-others (stream_receipt i r ∷ rest) c =
    let d = update_stream i (λ s. record s { receipt = some r }) c in
    set_receipts-others rest d
    ∙ ap (with_streams (set_receipts rest d).streams) (update-others i _ c)
set_receipts-others (_ ∷ rest) c = set_receipts-others rest c

-- What a call left of the totals of the connection and of the sizes of its packets.
record Same (c d : Connection) : Type 0 where
  sent : d.total_sent ≡ c.total_sent
  delivered : d.total_delivered ≡ c.total_delivered
  congestion : d.congestion ≡ c.congestion

streams-Same :
    (c d : Connection) (streams : List (ℕ × Stream)) → d ≡ with_streams streams c → Same c d
streams-Same c d streams e = record {
  sent = ap (λ x. x.total_sent) e;
  delivered = ap (λ x. x.total_delivered) e;
  congestion = ap (λ x. x.congestion) e;
}

third_of : List ℕ → ℕ
third_of (x ∷ y ∷ z ∷ rest) = z
third_of _ = 0

head_of : List ℕ → ℕ
head_of (x ∷ rest) = x
head_of [] = 0

module _ ⦃api : LongApi⦄ where
  control-Same :
      (buffers : Buffers) (frames : List Frame) (c : Connection)
      → Same c (handle_control_frames buffers frames c).connection
  unfolding third_of head_of
  control-Same buffers frames c =
      let w = handle_control_frames-Untouched buffers frames c in
      record {
        sent = ap head_of w.totals;
        delivered = ap third_of w.totals;
        congestion = w.congestion;
      }

  executed-Same :
      (sequence : ℕ) (ids : List ℕ) (frames : List Frame) (c : Connection)
      → Same c (execute_holds sequence ids (set_receipts frames c))
  executed-Same sequence ids frames c =
      let d = set_receipts frames c in
      let p = streams-Same c d d.streams (set_receipts-others frames c) in
      let q = streams-Same d _ _ (execute_holds-others sequence ids d) in
      record {
        sent = q.sent ∙ p.sent;
        delivered = q.delivered ∙ p.delivered;
        congestion = q.congestion ∙ p.congestion;
      }

  on_fulfill-returns :
      (amount : ℕ) (s : CongestionController)
      → 0 < s.test_maximum_packet_amount
      → IsLong s.test_maximum_packet_amount
      → IsLong (maximum_packet_amount s)
      → (t : CongestionController) × (on_fulfill amount s ≡ ok t)
  on_fulfill-returns amount s pos long longm = (_, on_fulfill_lem amount s pos long longm)

  abbrev add_totals : ℕ → ℕ → Connection → Result Connection
  add_totals amount n e = do
    delivered ← add_total_delivered n e
    sent ← add_total_sent amount delivered
    congestion ← on_fulfill amount sent.congestion
    ok (record sent { congestion = congestion; retry_delay = retry_delay_start })

  add_totals-eq-ok :
      (amount n : ℕ) (e : Connection)
      → e.total_sent + amount < 2 ^ 64
      → e.total_delivered + n < 2 ^ 64
      → 0 < e.congestion.test_maximum_packet_amount
      → IsLong e.congestion.test_maximum_packet_amount
      → IsLong (maximum_packet_amount e.congestion)
      → (d : Connection) × (add_totals amount n e ≡ ok d)
        × (d.total_sent ≡ e.total_sent + amount)
        × (d.total_delivered ≡ e.total_delivered + n)
        × (d.retry_delay ≡ retry_delay_start)
  add_totals-eq-ok amount n e fits fitd pos long longm =
      let d = record e { total_delivered = e.total_delivered + n } in
      let (_, delivered) = add_totals_lem n e (omega arith) (omega arith) (omega arith) in
      let (sent, _) = add_totals_lem amount d (omega arith) (omega arith) (omega arith) in
      let (congestion, raised) = on_fulfill-returns amount e.congestion pos long longm in
      (
        record e {
          total_delivered = e.total_delivered + n;
          total_sent = e.total_sent + amount;
          congestion = congestion;
          retry_delay = retry_delay_start;
        },
        rw (
          delivered,
          lt→ltb (e.total_delivered + n) (2 ^ 64) fitd,
          sent,
          lt→ltb (e.total_sent + amount) (2 ^ 64) fits,
          raised,
        ),
        refl,
        refl,
        refl,
      )

  finish_fulfill_lem :
      (sequence : ℕ) (ids : List ℕ) (amount : ℕ) (response : Packet) (c : Connection)
      → c.total_sent + amount < 2 ^ 64
      → c.total_delivered + response.prepare_amount < 2 ^ 64
      → 0 < c.congestion.test_maximum_packet_amount
      → IsLong c.congestion.test_maximum_packet_amount
      → IsLong (maximum_packet_amount c.congestion)
      → (d : Connection) × (finish_fulfill sequence ids amount response c ≡ ok d)
        × (d.total_sent ≡ c.total_sent + amount)
        × (d.total_delivered ≡ c.total_delivered + response.prepare_amount)
        × (d.retry_delay ≡ retry_delay_start)
  unfolding finish_fulfill
  finish_fulfill_lem sequence ids amount response c fits fitd pos long longm =
      let e = execute_holds sequence ids (set_receipts response.frames c) in
      let w = executed-Same sequence ids response.frames c in
      let small : maximum_packet_amount e.congestion ≡ maximum_packet_amount c.congestion =
        ap maximum_packet_amount w.congestion in
      let size : e.congestion.test_maximum_packet_amount ≡ c.congestion.test_maximum_packet_amount =
        ap (λ x. x.test_maximum_packet_amount) w.congestion in
      let (d, returns, sent, delivered, delay) =
        add_totals-eq-ok amount response.prepare_amount e (omega (arith, w.sent, fits))
          (omega (arith, w.delivered, fitd)) (omega (arith, size, pos)) (omega (arith, size, long))
          (omega (arith, small, longm)) in
      (
        d,
        returns,
        sent ∙ ap (λ x. x + amount) w.sent,
        delivered ∙ ap (λ x. x + response.prepare_amount) w.delivered,
        delay,
      )

  -- For a positive amount, totals that stay below 2 ^ 64 and packet sizes that are positive Longs, the
  -- response of a fulfilled packet is always handled to its end, whatever frames it has: the total sent
  -- has grown by the amount of the packet, the total delivered by the amount of the response, and the
  -- next delay after an error is the first one again.
  pub finish_response_lem :
      (buffers : Buffers) (sequence : ℕ) (ids : List ℕ) (amount : ℕ) (response : Packet)
      (c : Connection)
      → response.ilp_packet_type ≡ 13
      → 0 < amount
      → c.total_sent + amount < 2 ^ 64
      → c.total_delivered + response.prepare_amount < 2 ^ 64
      → 0 < c.congestion.test_maximum_packet_amount
      → IsLong c.congestion.test_maximum_packet_amount
      → IsLong (maximum_packet_amount c.congestion)
      → (d : Connection) × (effects : List Effect) × (finish_response buffers sequence ids amount
            response c
          ≡ ok (d, effects))
        × (d.total_sent ≡ c.total_sent + amount)
        × (d.total_delivered ≡ c.total_delivered + response.prepare_amount)
        × (d.retry_delay ≡ retry_delay_start)
  unfolding finish_response finish_receipts track_rate
  finish_response_lem buffers sequence ids amount response c fulfilled pos fits fitd size long
        longm =
      let known = record c {
        remote_state = connected_from c.remote_state;
        remote_knows_our_account = true;
      } in
      let r = handle_control_frames buffers response.frames known in
      let w = control-Same buffers response.frames known in
      let tracked = record (r.connection) {
        last_packet_exchange_rate = record { a = response.prepare_amount; b = amount };
      } in
      let same : r.connection.congestion.test_maximum_packet_amount
          ≡ c.congestion.test_maximum_packet_amount =
        ap (λ x. x.test_maximum_packet_amount) w.congestion in
      let small : maximum_packet_amount r.connection.congestion
          ≡ maximum_packet_amount c.congestion =
        ap maximum_packet_amount w.congestion in
      let (d, returns, sent, delivered, delay) =
        finish_fulfill_lem sequence ids amount response tracked (omega (arith, w.sent, fits))
          (omega (arith, w.delivered, fitd)) (omega (arith, same, size)) (omega (arith, same, long))
          (omega (arith, small, longm)) in
      (
        d,
        r.effects,
        rw (
          lt→ltb 0 amount pos,
          new_rational_lem response.prepare_amount amount pos,
          eq→== response.ilp_packet_type 13 fulfilled,
          returns,
        ),
        sent ∙ ap (λ x. x + amount) w.sent,
        delivered ∙ ap (λ x. x + response.prepare_amount) w.delivered,
        delay,
      )
