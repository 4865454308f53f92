-- ===== src/Connection/Sending.antt =====
-- `loadAndSendPacket`, the money of a packet: how much of each stream goes into the next packet, and
-- the frames and holds for it. A stream object is the entry of the connection's map of streams.
pub mod Amounts
pub mod Loading
pub mod Holding
pub mod Settled
pub mod Keys
use ilp_protocol_stream.Base.{
  ℕ, ltb, ◌==◌, if◌then◌else◌, List, [], ◌∷◌, ◌++◌, Option, none, some, Bool, true, false, Result,
  ok, throw, ◌>>=◌,
}
use ilp_protocol_stream.Long.{checked_subtract, min_long}
use ilp_protocol_stream.Long.Interface.{LongApi, max_unsigned}
use ilp_protocol_stream.Rational.{
  Rational, greater_than_one, reciprocal, multiply_by_long, multiply_by_long_ceil,
}
use ilp_protocol_stream.Stream.{Stream}
use ilp_protocol_stream.Stream.Money.{get_amount_available_to_send, hold_outgoing, execute_hold}
use ilp_protocol_stream.Packet.{Frame, stream_money, stream_money_blocked}
use ilp_protocol_stream.Congestion.{CongestionController}
use ilp_protocol_stream.Connection.{Connection}
use ilp_protocol_stream.Connection.Updating.{update_stream}

-- What one round of the loop over the streams does: the amount, the frames that it pushes, whether
-- the stream is one that the packet sends from, and the stream.
pub record Turn : Type 0 where
  pub amount : ℕ
  pub frames : List Frame
  pub sent_from : List ℕ
  pub stream : Stream

-- The loop's variables, and the frames, the streams sent from and the streams of the rounds.
pub record Loaded : Type 0 where
  pub amount_to_send : ℕ
  pub max_amount_from_next_stream : ℕ
  pub frames : List Frame
  pub sent_from : List ℕ
  pub streams : List (ℕ × Stream)

abbrev pub nothing_loaded : ℕ → ℕ → List (ℕ × Stream) → Loaded
nothing_loaded amount maximum streams = record {
  amount_to_send = amount;
  max_amount_from_next_stream = maximum;
  frames = [];
  sent_from = [];
  streams = streams;
}

-- A round before the rest of the loop.
abbrev pub put_before : ℕ → Turn → Loaded → Loaded
put_before stream_id t l = record l {
  frames = t.frames ++ l.frames;
  sent_from = t.sent_from ++ l.sent_from;
  streams = (stream_id, t.stream) ∷ l.streams;
}

abbrev pub skip_before : ℕ → Stream → Loaded → Loaded
skip_before stream_id s l = record l { streams = (stream_id, s) ∷ l.streams }

module _ ⦃api : LongApi⦄ where
  -- What the receiver's side of the stream can still receive.
  pub max_destination_amount : Stream → ℕ
  max_destination_amount s = (checked_subtract s.remote_receive_max s.remote_received).value

  pub amount_to_send_from_stream : Rational → ℕ → Stream → Result ℕ
  unfolding max_destination_amount
  amount_to_send_from_stream rate maximum s = do
    inverse ← reciprocal rate
    max_source_amount ← multiply_by_long_ceil inverse (max_destination_amount s)
    let amount = min_long (get_amount_available_to_send s) maximum
    ok (if ltb max_source_amount amount then max_source_amount else amount)

  -- `Long.fromString(stream.sendMax, true).subtract(...)` wraps like every subtraction of Longs.
  pub blocked_frames : Rational → ℕ → Stream → Result (List Frame)
  unfolding max_destination_amount
  blocked_frames rate amount s = do
    wanted ← multiply_by_long rate (api.subtract (api.subtract s.send_max s.total_sent) amount)
    ok (
        if ltb (max_destination_amount s) wanted
        then stream_money_blocked s.id s.send_max s.total_sent ∷ []
        else [])

  hold_for : ℕ → ℕ → List Frame → Stream → Turn
  hold_for sequence amount blocked s =
      if ltb 0 amount
      then record {
        amount = amount;
        frames = stream_money s.id amount ∷ blocked;
        sent_from = s.id ∷ [];
        stream = (hold_outgoing s sequence (some amount)).0;
      }
      else record { amount = amount; frames = blocked; sent_from = []; stream = s }

  -- A hold changes nothing that the test for a blocked stream reads.
  pub take_from_stream : ℕ → Rational → ℕ → Stream → Result Turn
  unfolding amount_to_send_from_stream blocked_frames hold_for
  take_from_stream sequence rate maximum s = do
    amount ← amount_to_send_from_stream rate maximum s
    blocked ← blocked_frames rate amount s
    ok (hold_for sequence amount blocked s)

  total_after : ℕ → ℕ → ℕ
  total_after total amount = if ltb 0 amount then api.add total amount else total

  left_after : ℕ → ℕ → ℕ
  left_after maximum amount = if ltb 0 amount then api.subtract maximum amount else maximum

  -- The loop over the streams: an ended stream is passed over, and the loop ends when nothing more
  -- fits the packet.
  pub load_streams : ℕ → Rational → ℕ → ℕ → List (ℕ × Stream) → Result Loaded
  unfolding take_from_stream total_after left_after
  load_streams sequence rate amount maximum [] = ok (nothing_loaded amount maximum [])
  load_streams sequence rate amount maximum ((k, s) ∷ rest) = elim s.sent_end [
    | true ↦ do l ← load_streams sequence rate amount maximum rest; ok (skip_before k s l)
    | false ↦ do
      t ← take_from_stream sequence rate maximum s
      let total = total_after amount t.amount
      let left = left_after maximum t.amount
      l ← elim (left == 0) [
        | true ↦ ok (nothing_loaded total left rest)
        | false ↦ load_streams sequence rate total left rest
      ]
      ok (put_before k t l)
  ]

  -- With a rate above 1 the amount is limited so that the amount at the receiver is a Long.
  pub max_amount_from_first_stream : Rational → CongestionController → Result ℕ
  max_amount_from_first_stream rate congestion =
      let test = congestion.test_maximum_packet_amount in
      if greater_than_one rate
      then (do
        inverse ← reciprocal rate
        largest ← multiply_by_long inverse max_unsigned
        ok (min_long test largest))
      else ok test

  pub load_money : ℕ → Rational → Connection → Result Loaded
  unfolding load_streams max_amount_from_first_stream
  load_money sequence rate c = do
    maximum ← max_amount_from_first_stream rate c.congestion
    load_streams sequence rate 0 maximum c.streams

  -- `for (let stream of streamsSentFrom) stream._executeHold(...)`
  unfoldable pub execute_holds : ℕ → List ℕ → Connection → Connection
  execute_holds sequence [] c = c
  execute_holds sequence (stream_id ∷ rest) c =
      execute_holds sequence rest (update_stream stream_id (λ s. execute_hold s sequence) c)
