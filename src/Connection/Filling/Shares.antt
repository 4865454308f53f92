-- ===== src/Connection/Filling/Shares.antt =====
-- The frames of a packet that carry money are those of the loaded money.
use ilp_protocol_stream.Base.{
  ℕ, ◌-◌, ◌≡◌, refl, ap, ◌∙◌, inl, inr, leb, Bool-cases, List, [], ◌∷◌, ◌++◌, Option, Option-cases,
  none, some,
}
use mathlib.Core.List.{append-nil}
use ilp_protocol_stream.Oer.{Bytes, OerApi}
use ilp_protocol_stream.Stream.{Stream}
use ilp_protocol_stream.Stream.Data.{get_available_data_to_send, is_data_blocked}
use ilp_protocol_stream.Packet.{Frame, Packet, stream_money}
use ilp_protocol_stream.Connection.{Connection}
use ilp_protocol_stream.Connection.Shares.{money_frames}
use ilp_protocol_stream.Connection.Filling.{
  Buffers, account_frames, limit_frames, is_closing, close_frames, control_frames, data_frames,
  data_blocked_frames, frames_length, fill_streams, is_window_smaller, fill_data,
}

pub money_frames-append :
    (xs ys : List Frame) → money_frames (xs ++ ys) ≡ money_frames xs ++ money_frames ys
unfolding money_frames
money_frames-append [] ys = refl
money_frames-append (stream_money i s ∷ xs) ys = ap (λ t. (i, s) ∷ t) (money_frames-append xs ys)
money_frames-append (_ ∷ xs) ys = money_frames-append xs ys

-- Frames without money may be left out.
pub no_money-append :
    (xs ys : List Frame) → money_frames xs ≡ [] → money_frames (xs ++ ys) ≡ money_frames ys
no_money-append xs ys e = money_frames-append xs ys ∙ ap (λ t. t ++ money_frames ys) e

account-no_money : (c : Connection) → money_frames (account_frames c) ≡ []
unfolding account_frames money_frames
account-no_money c = elim (Bool-cases c.remote_knows_our_account) [
  | inl e ↦ rw e refl
  | inr e ↦ rw e refl
]

limit-no_money :
    (buffers : Buffers) (streams : List (ℕ × Stream))
    → money_frames (limit_frames buffers streams) ≡ []
unfolding limit_frames money_frames
limit-no_money buffers [] = refl
limit-no_money buffers ((k, s) ∷ rest) = elim (Bool-cases s.closed) [
  | inl e ↦ rw e (limit-no_money buffers rest)
  | inr e ↦ rw e (limit-no_money buffers rest)
]

close-no_money : (c : Connection) → money_frames (close_frames c) ≡ []
unfolding close_frames money_frames
close-no_money c = elim (Bool-cases (is_closing c)) [ inl e ↦ rw e refl | inr e ↦ rw e refl ]

module _ ⦃oer : OerApi⦄ where
  pub control-money :
      (buffers : Buffers) (c : Connection)
      → money_frames (control_frames buffers c) ≡ money_frames c.queued_frames
  unfolding control_frames
  control-money buffers c =
      let limits = limit_frames buffers c.streams in
      let closing = close_frames c in
      money_frames-append c.queued_frames (account_frames c ++ (limits ++ closing))
      ∙ ap (λ t. money_frames c.queued_frames ++ t)
          (no_money-append (account_frames c) (limits ++ closing) (account-no_money c)
            ∙ no_money-append limits closing (limit-no_money buffers c.streams)
            ∙ close-no_money c)
      ∙ append-nil (money_frames c.queued_frames)

  data-no_money :
      (i o : ℕ) (bytes : Option Bytes) (called : List ℕ) (s : Stream)
      → money_frames
          (data_frames i (record { bytes = bytes; offset = o; called = called; stream = s }))
        ≡ []
  unfolding data_frames money_frames
  data-no_money i o none called s = refl
  data-no_money i o (some []) called s = refl
  data-no_money i o (some (b ∷ bytes)) called s = refl

  blocked-no_money : (s : Stream) → money_frames (data_blocked_frames s) ≡ []
  unfolding data_blocked_frames money_frames
  blocked-no_money s = elim (Option-cases (is_data_blocked s)) [
    | inl e ↦ rw (e, data_blocked_frames) refl
    | inr (o, e) ↦ rw (e, data_blocked_frames) refl
  ]

  filled-no_money :
      (left : ℕ) (streams : List (ℕ × Stream))
      → money_frames (fill_streams left streams).frames ≡ []
  unfolding fill_streams money_frames
  filled-no_money left [] = refl
  filled-no_money left ((k, s) ∷ rest) =
      let r = get_available_data_to_send s (left - 20) in
      let frames = data_frames s.id r in
      let later = filled-no_money (left - frames_length frames) rest in
      let more = (fill_streams (left - frames_length frames) rest).frames in
      elim (Bool-cases (leb left 20)) [
        | inl stop ↦ rw stop refl
        | inr go ↦ rw go (
            no_money-append frames (data_blocked_frames r.stream ++ more)
              (data-no_money s.id r.offset r.bytes r.called r.stream)
            ∙ no_money-append (data_blocked_frames r.stream) more (blocked-no_money r.stream)
            ∙ later)
      ]

  pub fill_data-no_money : (p : Packet) (c : Connection) → money_frames (fill_data p c).frames ≡ []
  unfolding fill_data money_frames
  fill_data-no_money p c = elim (Bool-cases (is_window_smaller p c)) [
    | inl e ↦ rw e (filled-no_money _ c.streams)
    | inr e ↦ rw e (filled-no_money _ c.streams)
  ]
