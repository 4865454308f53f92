-- ===== src/Connection/Filling/Loop.antt =====
-- The whole packet of `loadAndSendPacket`, and whether the send loop goes on behind it.
use ilp_protocol_stream.Base.{
  ℕ, ◌+◌, ◌-◌, ◌*◌, ◌/◌, ◌^◌, ◌≤◌, ◌<◌, ◌≡◌, refl, sym, ap, ◌∙◌, inl, inr, ◌==◌, ◌&&◌, gt→leb,
  Bool-cases, List, [], ◌∷◌, ◌++◌, some, Bool, true, false, ok, arith,
}
use native.Mathlib.Nat.{mul-le-mul_left, mul-le-mul_right, div-lt_iff_lt-mul, div-le_of_le-mul}
use ilp_protocol_stream.Long.Interface.{LongApi, IsLong}
use ilp_protocol_stream.Oer.{OerApi}
use ilp_protocol_stream.Rational.{Rational}
use ilp_protocol_stream.Rational.Arithmetic.{IsRational, complement_value, multiply_by_long_exact}
use ilp_protocol_stream.Packet.{Frame, Packet}
use ilp_protocol_stream.Connection.{Connection}
use ilp_protocol_stream.Connection.Shares.{money_frames}
use ilp_protocol_stream.Connection.Shares.Distribution.{total}
use ilp_protocol_stream.Connection.Totals.{get_next_packet_sequence}
use ilp_protocol_stream.Connection.Sending.{Loaded}
use ilp_protocol_stream.Connection.Sending.Amounts.{AllReady}
use ilp_protocol_stream.Connection.Sending.Settled.{load_money_lem}
use mathlib.Core.List.{append-nil}
use ilp_protocol_stream.Connection.Filling.{
  Buffers, Prepared, nothing, packet, minimum_destination_amount, after_close_frames,
  control_frames, fill_data, has_no_frames, keeps_sending, is_still_sending, fill_packet, load_at,
  load_packet,
}
use ilp_protocol_stream.Connection.Filling.Shares.{
  money_frames-append, no_money-append, control-money, fill_data-no_money,
}

sub_le : (a b : ℕ) → a - b ≤ a
sub_le a b = omega arith

module _ ⦃api : LongApi⦄ where
  -- For a slippage of at most 1 and an exchange rate whose product with the amount fits, the minimum
  -- destination amount is the amount at the exchange rate, less the slippage, each rounded down.
  pub minimum_destination_amount_lem :
      (slippage rate : Rational) (amount : ℕ)
      → IsRational slippage
      → slippage.a ≤ slippage.b
      → slippage.b ≤ 2 ^ 63
      → IsRational rate
      → rate.b ≤ 2 ^ 63
      → IsLong amount
      → amount * rate.a / rate.b < 2 ^ 64
      → let delivered = amount * rate.a / rate.b in
        let least = delivered * (slippage.b - slippage.a) / slippage.b in
        (minimum_destination_amount slippage rate amount ≡ ok least) × (least ≤ delivered)
  unfolding minimum_destination_amount
  minimum_destination_amount_lem slippage rate amount ws below smalls wr smallr long fits =
      let delivered = amount * rate.a / rate.b in
      let share = slippage.b - slippage.a in
      let part : Rational = record { a = share; b = slippage.b } in
      let whole : IsRational part = record {
        numerator = omega (arith, ws.denominator);
        denominator = ws.denominator;
        nonzero = ws.nonzero;
      } in
      let shrinks : delivered * share ≤ slippage.b * delivered =
        omega (arith, mul-le-mul_left delivered (sub_le slippage.b slippage.a)) in
      let bound : delivered * share / slippage.b ≤ delivered =
        div-le_of_le-mul slippage.b shrinks in
      (
        rw (
          complement_value slippage ws below,
          multiply_by_long_exact rate amount wr long smallr fits,
          multiply_by_long_exact part delivered whole fits smalls (omega (arith, bound, fits)),
        ),
        bound,
      )

-- What a prepared packet promises, for the connection before it and its exchange rate: a packet is
-- left out only where the loop ends, and a packet that is sent carries the next number.
pub data Promised (c : Connection) (rate : Rational) : Prepared → Type 0 where
  ends : (d : Connection) → d.sending ≡ false → Promised c rate (nothing d)
  sends :
      (p : Packet) (amount : ℕ) (sent_from called : List ℕ) (d : Connection)
      → p.sequence ≡ c.next_packet_sequence
      → total (money_frames p.frames) ≡ amount
      → amount ≤ c.congestion.test_maximum_packet_amount
      → p.prepare_amount ≡ amount * rate.a / rate.b * (c.slippage.b - c.slippage.a) / c.slippage.b
      → d.sending ≡ is_still_sending c.sending amount p.frames
      → Promised c rate (packet p amount sent_from called d)

-- Without an amount and without frames the loop ends.
stopped :
    (sending : Bool) (amount : ℕ) (frames : List Frame)
    → ((amount == 0) && has_no_frames frames) ≡ true
    → is_still_sending sending amount frames ≡ false
unfolding is_still_sending keeps_sending
stopped sending amount [] h = elim (Bool-cases (amount == 0)) [
  | inl e ↦ rw e (ground arith)
  | inr e ↦ ground (arith, e, h)
]
stopped sending amount (f ∷ rest) h = ground (arith, h)

module _ ⦃api : LongApi⦄ ⦃oer : OerApi⦄ where
  fill_packet-Promised :
      (c d : Connection) (rate : Rational) (p : Packet) (l : Loaded) (least : ℕ)
      → p.sequence ≡ c.next_packet_sequence
      → total (money_frames p.frames) ≡ l.amount_to_send
      → l.amount_to_send ≤ c.congestion.test_maximum_packet_amount
      → least ≡ l.amount_to_send * rate.a / rate.b * (c.slippage.b - c.slippage.a) / c.slippage.b
      → minimum_destination_amount d.slippage rate l.amount_to_send ≡ ok least
      → d.sending ≡ c.sending
      → (r : Prepared) × (fill_packet rate p l d ≡ ok r) × Promised c rate r
  unfolding fill_packet
  fill_packet-Promised c d rate p l least next shares bound value minimum sending =
      let filled = fill_data p d in
      let frames = p.frames ++ filled.frames in
      let still = is_still_sending d.sending l.amount_to_send frames in
      let e = record d { streams = filled.streams; sending = still } in
      let whole = record p { frames = frames; prepare_amount = least } in
      let shared : total (money_frames frames) ≡ l.amount_to_send =
        ap total (
          money_frames-append p.frames filled.frames
          ∙ ap (λ t. money_frames p.frames ++ t) (fill_data-no_money p d)
          ∙ append-nil (money_frames p.frames))
        ∙ shares in
      elim (Bool-cases ((l.amount_to_send == 0) && has_no_frames frames)) [
        | inl idle ↦ (nothing e, rw idle, ends e (stopped d.sending l.amount_to_send frames idle))
        | inr busy ↦ (
          packet whole l.amount_to_send l.sent_from filled.called e,
          rw (busy, minimum),
          sends whole l.amount_to_send l.sent_from filled.called e next shared bound value
              (ap (λ b. is_still_sending b l.amount_to_send frames) sending),
        )
      ]

  -- For an exchange rate and a slippage that fit, streams that are ready for the next packet, no money
  -- among the queued frames and a packet number left, loading a packet always returns: the packet has
  -- the next number, its money frames add up to the amount that it is sent with, this amount is at most
  -- the one that the controller tests, and the packet asks for that amount at the exchange rate, less
  -- the slippage; where there is nothing to send, the send loop ends.
  pub load_packet_lem :
      (cap : ℕ) (buffers : Buffers) (rate : Rational) (c : Connection)
      → c.exchange_rate ≡ some rate
      → IsRational rate
      → 0 < rate.a
      → rate.b ≤ 2 ^ 63
      → IsRational c.slippage
      → c.slippage.a ≤ c.slippage.b
      → c.slippage.b ≤ 2 ^ 63
      → IsLong c.congestion.test_maximum_packet_amount
      → c.congestion.test_maximum_packet_amount * rate.a / rate.b < 2 ^ 64
      → AllReady cap c.next_packet_sequence c.streams
      → money_frames c.queued_frames ≡ []
      → c.next_packet_sequence < 2 ^ 31
      → (r : Prepared) × (load_packet buffers c ≡ ok r) × Promised c rate r
  unfolding load_packet load_at get_next_packet_sequence after_close_frames
  load_packet_lem cap buffers rate c known wr over smallr ws below smalls long fits ready quiet
        left =
      let n = c.next_packet_sequence in
      let d = record c { next_packet_sequence = n + 1 } in
      let e = after_close_frames (record d { queued_frames = [] }) in
      let (l, el, sum, bound) = load_money_lem cap n rate e over wr.nonzero long ready in
      let control = control_frames buffers d in
      let start : Packet = record {
        sequence = n;
        ilp_packet_type = 12;
        prepare_amount = 0;
        frames = control ++ l.frames;
      } in
      let quiet_control : money_frames control ≡ [] = control-money buffers d ∙ quiet in
      let shares : total (money_frames (control ++ l.frames)) ≡ l.amount_to_send =
        ap total (no_money-append control l.frames quiet_control) ∙ sym sum in
      let delivers : l.amount_to_send * rate.a / rate.b < 2 ^ 64 =
        (div-lt_iff_lt-mul wr.nonzero).1
          (omega (arith, (div-lt_iff_lt-mul wr.nonzero).0 fits, mul-le-mul_right rate.a bound)) in
      let (minimum, _) =
        minimum_destination_amount_lem c.slippage rate l.amount_to_send ws below smalls wr smallr
          (omega (arith, bound, long)) delivers in
      let (r, er, w) =
        fill_packet-Promised c (record e { streams = l.streams }) rate start l _ refl shares bound
          refl minimum refl in
      let loaded : load_at (some rate) buffers n d ≡ ok r = rw (el, er) in
      (r, rw (gt→leb (2 ^ 31) n left) (ap (λ o. load_at o buffers n d) known ∙ loaded), w)
