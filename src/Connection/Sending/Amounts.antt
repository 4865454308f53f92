-- ===== src/Connection/Sending/Amounts.antt =====
-- How much `loadAndSendPacket` takes from each stream, and from all of them together.
use ilp_protocol_stream.Base.{
  ℕ, ◌+◌, ◌-◌, ◌*◌, ◌/◌, ◌^◌, ◌≤◌, ◌<◌, ◌≡◌, refl, ◌⊎◌, inl, inr, ltb, ◌==◌, ltb→lt, ltb→ge,
  if◌then◌else◌, Bool-cases, List, [], ◌∷◌, ◌++◌, none, some, lookup, ok, arith,
}
use native.Mathlib.Nat.{mul-le-mul_right}
use ilp_protocol_stream.Long.{min_long}
use ilp_protocol_stream.Long.Bounds.{min_long-min, min_long-cases, checked_subtract-ge}
use ilp_protocol_stream.Long.Interface.{LongApi, IsLong, max_unsigned}
use ilp_protocol_stream.Rational.{Rational}
use ilp_protocol_stream.Rational.Arithmetic.{
  IsRational, reciprocal_lem, multiply_by_long_total, multiply_by_long_ceil_total,
  multiply_by_long_ceil_exact,
}
use ilp_protocol_stream.Stream.{Stream}
use ilp_protocol_stream.Stream.Money.{get_amount_available_to_send, hold_outgoing, cancel_hold}
use ilp_protocol_stream.Stream.Money.Spending.{Within}
use ilp_protocol_stream.Packet.{Frame, stream_money_blocked}
use ilp_protocol_stream.Connection.Shares.{money_frames}
use ilp_protocol_stream.Connection.Shares.Distribution.{total}
use ilp_protocol_stream.Connection.Rejects.Undoing.{undone}
use ilp_protocol_stream.Connection.Sending.{
  Loaded, max_destination_amount, amount_to_send_from_stream, blocked_frames,
}

-- What a sender knows of a stream before it loads a packet with the number `sequence`.
pub record Ready (cap sequence : ℕ) (key : ℕ) (s : Stream) : Type 0 where
  pub same_key : key ≡ s.id
  pub within : Within cap s
  pub unused : lookup sequence s.holds ≡ none
  pub remote_max : IsLong s.remote_receive_max
  pub remote_fits : s.remote_received ≤ s.remote_receive_max

abbrev pub AllReady : ℕ → ℕ → List (ℕ × Stream) → Type 0
AllReady cap sequence [] = Unit {0}
AllReady cap sequence ((k, s) ∷ rest) = Ready cap sequence k s × AllReady cap sequence rest

module _ ⦃api : LongApi⦄ where
  -- Streams before and after holds for one packet, with the amount for each stream that is held from.
  pub data Held (cap sequence : ℕ)
      : List (ℕ × Stream) → List (ℕ × Stream) → List (ℕ × ℕ) → Type 0 where
    stops : (streams : List (ℕ × Stream)) → Held cap sequence streams streams []
    passes :
        {before after : List (ℕ × Stream)} {moves : List (ℕ × ℕ)} (k : ℕ) (s : Stream)
        → Held cap sequence before after moves
        → Held cap sequence ((k, s) ∷ before) ((k, s) ∷ after) moves
    takes :
        {before after : List (ℕ × Stream)} {moves : List (ℕ × ℕ)} (k : ℕ) (s : Stream) (a : ℕ)
        → Ready cap sequence k s
        → a ≤ get_amount_available_to_send s
        → Held cap sequence before after moves
        → Held cap sequence
            ((k, s) ∷ before)
            ((k, (hold_outgoing s sequence (some a)).0) ∷ after)
            ((k, a) ∷ moves)

  allowance :
      (cap sequence key : ℕ) (s : Stream)
      → Ready cap sequence key s
      → max_destination_amount s ≡ s.remote_receive_max - s.remote_received
  unfolding max_destination_amount
  allowance cap sequence key s r = rw (
    max_destination_amount,
    checked_subtract-ge s.remote_receive_max s.remote_received r.remote_max r.remote_fits,
  )

  pub amount_total :
      (cap sequence key : ℕ) (rate : Rational) (maximum : ℕ) (s : Stream)
      → 0 < rate.a
      → Ready cap sequence key s
      → (a : ℕ) × (amount_to_send_from_stream rate maximum s ≡ ok a)
        × (a ≤ get_amount_available_to_send s)
        × (a ≤ maximum)
  unfolding amount_to_send_from_stream
  amount_total cap sequence key rate maximum s pos r =
      let d = max_destination_amount s in
      let fits : IsLong d = omega (arith, allowance cap sequence key s r, r.remote_max) in
      let (q, e) = multiply_by_long_ceil_total (record { a = rate.b; b = rate.a }) d fits pos in
      let available = get_amount_available_to_send s in
      let least = min_long available maximum in
      let m = min_long-min available maximum in
      (
        if ltb q least then q else least,
        rw (reciprocal_lem rate pos, e),
        ground (arith, m),
        ground (arith, m),
      )

  -- Frames that move no money and no data.
  pub record Idle (frames : List Frame) : Type 0 where
    pub money : (rest : List Frame) → money_frames (frames ++ rest) ≡ money_frames rest
    pub undo :
        (k sequence : ℕ) (rest : List Frame) (t : Stream)
        → undone k sequence (frames ++ rest) t ≡ undone k sequence rest t

  pub blocked_total :
      (rate : Rational) (amount : ℕ) (s : Stream)
      → 0 < rate.b
      → (frames : List Frame) × (blocked_frames rate amount s ≡ ok frames) × Idle frames
  unfolding blocked_frames money_frames undone
  blocked_total rate amount s pos =
      let left = api.subtract (api.subtract s.send_max s.total_sent) amount in
      let fits : IsLong left =
        omega (arith, api.subtract_wraps (api.subtract s.send_max s.total_sent) amount) in
      let (q, e) = multiply_by_long_total rate left fits pos in
      elim (Bool-cases (ltb (max_destination_amount s) q)) [
        | inl more ↦ (
          stream_money_blocked s.id s.send_max s.total_sent ∷ [],
          rw (e, more),
          record { money = λ rest. refl; undo = λ k n rest t. refl },
        )
        | inr less ↦ ([], rw (e, less), record { money = λ rest. refl; undo = λ k n rest t. refl })
      ]

  -- Two names for one list of streams: what is sent from, and what the money frames say.
  abbrev pub keys : List (ℕ × ℕ) → List ℕ
  keys [] = []
  keys ((k, a) ∷ rest) = k ∷ keys rest

  -- What a settlement `f` of each stream of the list does to stream `k`.
  abbrev pub settled : ℕ → (Stream → Stream) → List ℕ → Stream → Stream
  settled k f [] s = s
  settled k f (i ∷ rest) s = settled k f rest (if i == k then f s else s)

  -- The outcome of the loop over the streams.
  pub record Loads (cap sequence amount maximum : ℕ) (before : List (ℕ × Stream)) (l : Loaded)
      : Type 0 where
    pub held : Held cap sequence before l.streams (money_frames l.frames)
    pub amounts : l.amount_to_send ≡ amount + total (money_frames l.frames)
    pub rest : l.amount_to_send + l.max_amount_from_next_stream ≡ amount + maximum
    pub senders : l.sent_from ≡ keys (money_frames l.frames)
    pub undo :
        (k : ℕ) (t : Stream)
        → undone k sequence l.frames t ≡ settled k (λ u. cancel_hold u sequence) l.sent_from t

  -- For an exchange rate above 0 with a numerator of at most 2 ^ 63, and what a stream's receiver can
  -- still receive being worth less than 2 ^ 64 - 1 at the sender: the amount taken from the stream is
  -- the largest one that the stream has available, that fits what is left of the packet, and of which
  -- the receiver can receive all, up to one unit of rounding.
  pub amount_to_send_from_stream_lem :
      (cap sequence key : ℕ) (rate : Rational) (maximum : ℕ) (s : Stream)
      → IsRational rate
      → 0 < rate.a
      → rate.a ≤ 2 ^ 63
      → Ready cap sequence key s
      → (s.remote_receive_max - s.remote_received) * rate.b / rate.a < max_unsigned
      → (a : ℕ) × (amount_to_send_from_stream rate maximum s ≡ ok a)
        × (a ≤ get_amount_available_to_send s)
        × (a ≤ maximum)
        × (a * rate.a < (s.remote_receive_max - s.remote_received) * rate.b + rate.a)
        × ((a ≡ get_amount_available_to_send s)
            ⊎ (a ≡ maximum)
            ⊎ ((s.remote_receive_max - s.remote_received) * rate.b ≤ a * rate.a))
  unfolding amount_to_send_from_stream
  amount_to_send_from_stream_lem cap sequence key rate maximum s w pos small r fits =
      let d = s.remote_receive_max - s.remote_received in
      let long : IsLong d = omega (arith, r.remote_max) in
      let inverse : IsRational (record { a = rate.b; b = rate.a }) = record {
        numerator = w.denominator;
        denominator = w.numerator;
        nonzero = pos;
      } in
      let (q, e, above, below) =
        multiply_by_long_ceil_exact (record { a = rate.b; b = rate.a }) d inverse long small fits in
      let available = get_amount_available_to_send s in
      let least = min_long available maximum in
      let m = min_long-min available maximum in
      elim (Bool-cases (ltb q least)) [
        | inl more ↦ (
          q,
          rw (reciprocal_lem rate pos, allowance cap sequence key s r, e, more),
          omega (arith, ltb→lt q least more, m),
          omega (arith, ltb→lt q least more, m),
          below,
          inr (inr above),
        )
        | inr less ↦ (
          least,
          rw (reciprocal_lem rate pos, allowance cap sequence key s r, e, less),
          omega (arith, m),
          omega (arith, m),
          omega (arith, below, mul-le-mul_right rate.a (ltb→ge q least less)),
          elim (min_long-cases available maximum) [ inl all ↦ inl all | inr full ↦ inr (inl full) ],
        )
      ]
