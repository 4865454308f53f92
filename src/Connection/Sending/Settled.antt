-- ===== src/Connection/Sending/Settled.antt =====
-- A packet's money from its load to its end: what the holds of a packet that is fulfilled or rejected
-- have done to each stream.
use ilp_protocol_stream.Base.{
  ℕ, ◌+◌, ◌≤◌, ◌<◌, ◌≡◌, refl, ap, ◌∙◌, sym, inl, inr, Bool-cases, List, [], ◌∷◌, some, lookup, ok,
  arith,
}
use ilp_protocol_stream.Long.{min_long}
use ilp_protocol_stream.Long.Interface.{LongApi, IsLong, max_unsigned}
use ilp_protocol_stream.Long.Bounds.{min_long-le}
use ilp_protocol_stream.Rational.{Rational, greater_than_one}
use ilp_protocol_stream.Rational.Arithmetic.{reciprocal_lem, multiply_by_long_total}
use ilp_protocol_stream.Stream.{Stream}
use ilp_protocol_stream.Stream.Money.{
  get_amount_available_to_send, hold_outgoing, execute_hold, cancel_hold,
}
use ilp_protocol_stream.Stream.Money.Settling.{hold_outgoing-settled, hold_outgoing-amount}
use ilp_protocol_stream.Packet.{Packet}
use ilp_protocol_stream.Congestion.{CongestionController}
use ilp_protocol_stream.Connection.{Connection}
use ilp_protocol_stream.Connection.Updating.{
  update_stream, update-others, with_streams, map_option, map_option-id, lookup-update,
}
use ilp_protocol_stream.Connection.Shares.{money_frames}
use ilp_protocol_stream.Connection.Shares.Distribution.{total}
use ilp_protocol_stream.Connection.Rejects.{undo_rejected_packet}
use ilp_protocol_stream.Connection.Rejects.Undoing.{map_option-then, undo_rejected_packet_lem}
use ilp_protocol_stream.Connection.Sending.{
  Loaded, max_amount_from_first_stream, load_money, execute_holds,
}
use ilp_protocol_stream.Connection.Sending.Amounts.{Ready, AllReady, Loads, keys, settled}
use ilp_protocol_stream.Connection.Sending.Loading.{load_streams-Loads}
use ilp_protocol_stream.Connection.Sending.Holding.{
  Distinct, moves_of, map_option-ext, settled_streams,
}

module _ ⦃api : LongApi⦄ where
  max_amount_lem :
      (rate : Rational) (congestion : CongestionController)
      → 0 < rate.a
      → (m : ℕ) × (max_amount_from_first_stream rate congestion ≡ ok m)
        × (m ≤ congestion.test_maximum_packet_amount)
  unfolding max_amount_from_first_stream
  max_amount_lem rate congestion pos =
      let test = congestion.test_maximum_packet_amount in
      let (q, e) =
        multiply_by_long_total (record { a = rate.b; b = rate.a }) max_unsigned (omega arith) pos in
      elim (Bool-cases (greater_than_one rate)) [
        | inl above ↦
            (min_long test q, rw (above, reciprocal_lem rate pos, e), (min_long-le test q).0)
        | inr below ↦ (test, rw below, omega arith)
      ]

  load_money-Loads :
      (cap sequence : ℕ) (rate : Rational) (c : Connection)
      → 0 < rate.a
      → 0 < rate.b
      → IsLong c.congestion.test_maximum_packet_amount
      → AllReady cap sequence c.streams
      → (m : ℕ) × (l : Loaded) × (load_money sequence rate c ≡ ok l)
        × (m ≤ c.congestion.test_maximum_packet_amount)
        × Loads cap sequence 0 m c.streams l
  unfolding load_money
  load_money-Loads cap sequence rate c over under small ready =
      let (m, em, le) = max_amount_lem rate c.congestion over in
      let (l, el, w) =
        load_streams-Loads cap sequence rate 0 m c.streams over under (omega (arith, le)) ready in
      (m, l, rw (em, el), le, w)

  -- For an exchange rate above 0 and streams that keep their invariant, have no hold under the packet's
  -- number and know receivable amounts, loading the money of a packet always returns. The amount to send
  -- is the total of the packet's money frames, and it is at most the amount that the controller tests.
  pub load_money_lem :
      (cap sequence : ℕ) (rate : Rational) (c : Connection)
      → 0 < rate.a
      → 0 < rate.b
      → IsLong c.congestion.test_maximum_packet_amount
      → AllReady cap sequence c.streams
      → (l : Loaded) × (load_money sequence rate c ≡ ok l)
        × (l.amount_to_send ≡ total (money_frames l.frames))
        × (l.amount_to_send ≤ c.congestion.test_maximum_packet_amount)
  load_money_lem cap sequence rate c over under small ready =
      let (m, l, e, le, w) = load_money-Loads cap sequence rate c over under small ready in
      (l, e, omega (arith, w.amounts), omega (arith, le, w.rest))

  execute_holds-lookup :
      (sequence k : ℕ) (ids : List ℕ) (c : Connection)
      → lookup k (execute_holds sequence ids c).streams
        ≡ map_option (settled k (λ s. execute_hold s sequence) ids) (lookup k c.streams)
  unfolding execute_holds
  execute_holds-lookup sequence k [] c = sym (map_option-id (lookup k c.streams))
  execute_holds-lookup sequence k (i ∷ rest) c =
      execute_holds-lookup sequence k rest (update_stream i (λ s. execute_hold s sequence) c)
      ∙ ap (map_option (settled k (λ s. execute_hold s sequence) rest))
          (lookup-update k i (λ s. execute_hold s sequence) c)
      ∙ map_option-then _ (settled k (λ s. execute_hold s sequence) rest) (lookup k c.streams)

  held_amount :
      (cap sequence i a : ℕ) (s : Stream)
      → Ready cap sequence i s
      → a ≤ get_amount_available_to_send s
      → (cancel_hold (hold_outgoing s sequence (some a)).0 sequence ≡ s)
        × (execute_hold (hold_outgoing s sequence (some a)).0 sequence
            ≡ record s { total_sent = s.total_sent + a })
  held_amount cap sequence i a s r available =
      let (executed, cancelled) = hold_outgoing-settled cap s sequence a r.within r.unused in
      (
        cancelled,
        executed
            ∙ ap (λ v. record s { total_sent = s.total_sent + v })
                (hold_outgoing-amount s sequence a available),
      )

  -- For an exchange rate above 0, a Long as the size to be tried, different keys for the streams,
  -- and streams that keep their invariant, have no hold under the packet's number and know
  -- receivable amounts: loading the money of a packet returns, and when the packet with the loaded
  -- frames is rejected, undoing it gives every stream back as it was before the load.
  pub load_money-rejected :
      (cap : ℕ) (p : Packet) (rate : Rational) (c : Connection) (k : ℕ)
      → 0 < rate.a
      → 0 < rate.b
      → IsLong c.congestion.test_maximum_packet_amount
      → AllReady cap p.sequence c.streams
      → Distinct c.streams
      → (l : Loaded) × (load_money p.sequence rate c ≡ ok l)
        × (lookup k
              (undo_rejected_packet
                (record p { frames = l.frames })
                (record c { streams = l.streams })).streams
            ≡ lookup k c.streams)
  load_money-rejected cap p rate c k over under small ready distinct =
      let n = p.sequence in
      let (m, l, e, le, w) = load_money-Loads cap n rate c over under small ready in
      let cancel : Stream → Stream = λ s. cancel_hold s n in
      let sent = record p { frames = l.frames } in
      let held = record c { streams = l.streams } in
      let all =
        settled_streams k cancel (λ a s. s) (λ s. refl)
          (λ i a s r available. (held_amount cap n i a s r available).0) w.held distinct in
      (
        l,
        e,
        (undo_rejected_packet_lem sent held k).0
            ∙ map_option-ext _ (settled k cancel (keys (money_frames l.frames)))
                (λ t. w.undo k t ∙ ap (λ ids. settled k cancel ids t) w.senders)
                (lookup k l.streams)
            ∙ all
            ∙ map_option-id (lookup k c.streams),
      )

  -- For an exchange rate above 0, a Long as the size to be tried, different keys for the streams,
  -- and streams that keep their invariant, have no hold under the packet's number and know
  -- receivable amounts: loading the money of a packet returns, and when the packet is fulfilled,
  -- executing the holds of the streams that it was sent from adds to each stream's total sent
  -- exactly what the packet's money frames say for it, and changes nothing else of any stream.
  pub load_money-fulfilled :
      (cap sequence : ℕ) (rate : Rational) (c : Connection) (k : ℕ)
      → 0 < rate.a
      → 0 < rate.b
      → IsLong c.congestion.test_maximum_packet_amount
      → AllReady cap sequence c.streams
      → Distinct c.streams
      → (l : Loaded) × (load_money sequence rate c ≡ ok l)
        × (lookup k (execute_holds sequence l.sent_from (record c { streams = l.streams })).streams
            ≡ map_option
                (λ s. record s {
                  total_sent = s.total_sent + total (moves_of k (money_frames l.frames));
                })
                (lookup k c.streams))
  load_money-fulfilled cap sequence rate c k over under small ready distinct =
      let (m, l, e, le, w) = load_money-Loads cap sequence rate c over under small ready in
      let execute : Stream → Stream = λ s. execute_hold s sequence in
      let all =
        settled_streams k execute (λ a s. record s { total_sent = s.total_sent + a })
          (λ s. ap (λ v. record s { total_sent = v }) (omega arith))
          (λ i a s r available. (held_amount cap sequence i a s r available).1) w.held distinct in
      (
        l,
        e,
        execute_holds-lookup sequence k l.sent_from (record c { streams = l.streams })
            ∙ ap (λ ids. map_option (settled k execute ids) (lookup k l.streams)) w.senders
            ∙ all,
      )

  pub execute_holds-others :
      (sequence : ℕ) (ids : List ℕ) (c : Connection)
      → execute_holds sequence ids c ≡ with_streams (execute_holds sequence ids c).streams c
  unfolding execute_holds
  execute_holds-others sequence [] c = refl
  execute_holds-others sequence (i ∷ rest) c =
      let d = update_stream i (λ s. execute_hold s sequence) c in
      execute_holds-others sequence rest d
      ∙ ap (with_streams (execute_holds sequence rest d).streams) (update-others i _ c)
