-- ===== src/Connection/Control/Streams.antt =====
-- What control frames leave alone: the money of every stream and the totals of the connection.
use ilp_protocol_stream.Base.{
  ℕ, ◌≡◌, refl, subst, ap, ◌∙◌, inl, inr, ◌||◌, ◌==◌, ==→eq, ltb, Bool-cases, Option-cases, List,
  [], ◌∷◌, Option, none, some, lookup, assign, lookup-assign,
}
use ilp_protocol_stream.Long.Interface.{LongApi}
use ilp_protocol_stream.Oer.{Bytes}
use ilp_protocol_stream.Stream.{Stream}
use ilp_protocol_stream.Stream.Reading.{remote_ended, push_incoming_data}
use ilp_protocol_stream.Stream.Reading.Draining.{push_incoming_data-others}
use ilp_protocol_stream.Packet.{
  Frame, connection_close, connection_new_address, connection_asset_details, connection_max_data,
  connection_max_stream_id, stream_close, stream_max_money, stream_data, stream_max_data,
}
use ilp_protocol_stream.Connection.{Connection}
use ilp_protocol_stream.Connection.Updating.{update_stream}
use ilp_protocol_stream.Connection.Offsets.{
  raise_receive_max, raise_offset, handle_connection_max_data, handle_connection_max_stream_id,
  handle_stream_max_money, handle_stream_max_data,
}
use ilp_protocol_stream.Connection.Filling.{Buffers}
use ilp_protocol_stream.Connection.Control.{
  handle_new_address, handle_connection_close, close_stream, closes, handle_stream_close, room,
  receives, handle_stream_data, handle_control_frame, handle_control_frames,
}

-- The money of a stream: what was sent and received, the limits and the holds.
pub record Money : Type 0 where
  pub sent : ℕ
  pub received : ℕ
  pub send_max : ℕ
  pub receive_max : ℕ
  pub held : ℕ
  pub holds : List (ℕ × ℕ)

abbrev pub money_of : Stream → Money
money_of s = record {
  sent = s.total_sent;
  received = s.total_received;
  send_max = s.send_max;
  receive_max = s.receive_max;
  held = s.outgoing_held_amount;
  holds = s.holds;
}

abbrev pub money_in : Option Stream → Option Money
money_in none = none
money_in (some s) = some (money_of s)

-- The totals of a connection, sent, received, delivered and held, and the number of its next packet.
abbrev pub totals_of : Connection → List ℕ
totals_of c =
    c.total_sent ∷ c.total_received ∷ c.total_delivered ∷ c.incoming_hold ∷ c.next_packet_sequence
    ∷ []

-- Every stream is still there, no stream is new, no money has moved, and packets keep their size.
pub record Untouched (c d : Connection) : Type 0 where
  pub streams : (k : ℕ) → money_in (lookup k d.streams) ≡ money_in (lookup k c.streams)
  pub totals : totals_of d ≡ totals_of c
  pub congestion : d.congestion ≡ c.congestion

pub Untouched-trans : {c d e : Connection} → Untouched c d → Untouched d e → Untouched c e
Untouched-trans p q = record {
  streams = λ k. q.streams k ∙ p.streams k;
  totals = q.totals ∙ p.totals;
  congestion = q.congestion ∙ p.congestion;
}

pub Untouched-self : (c : Connection) → Untouched c c
Untouched-self c = record { streams = λ k. refl; totals = refl; congestion = refl }

pub assign_keeps :
    (i k : ℕ) (s t : Stream) (streams : List (ℕ × Stream))
    → lookup i streams ≡ some s
    → money_of t ≡ money_of s
    → money_in (lookup k (assign i t streams)) ≡ money_in (lookup k streams)
assign_keeps i k s t streams found w = elim (Bool-cases (i == k)) [
  | inl e ↦
      let here : lookup k streams ≡ some s =
        subst (λ j. lookup j streams ≡ some s) (==→eq i k e) found in
      rw (lookup-assign i k t streams, e, here) (ap some w)
  | inr e ↦ rw (lookup-assign i k t streams, e)
]

pub assign-Untouched :
    (i : ℕ) (s t : Stream) (c : Connection)
    → lookup i c.streams ≡ some s
    → money_of t ≡ money_of s
    → Untouched c (record c { streams = assign i t c.streams })
assign-Untouched i s t c found w = record {
  streams = λ k. assign_keeps i k s t c.streams found w;
  totals = refl;
  congestion = refl;
}

update-Untouched :
    (i : ℕ) (f : Stream → Stream) (c : Connection)
    → ((s : Stream) → money_of (f s) ≡ money_of s)
    → Untouched c (update_stream i f c)
unfolding update_stream
update-Untouched i f c w = elim (Option-cases (lookup i c.streams)) [
  | inl e ↦ rw (e, update_stream) (Untouched-self c)
  | inr (s, e) ↦ rw (e, update_stream) (assign-Untouched i s (f s) c e (w s))
]

raise_offset-money : (m : ℕ) (s : Stream) → money_of (raise_offset m s) ≡ money_of s
unfolding raise_offset
raise_offset-money m s = elim (Bool-cases (ltb s.remote_max_offset m)) [
  | inl e ↦ rw e (refl)
  | inr e ↦ rw e (refl)
]

raise_receive_max-money : (m r : ℕ) (s : Stream) → money_of (raise_receive_max m r s) ≡ money_of s
unfolding raise_receive_max
raise_receive_max-money m r s = refl

max_data-Untouched : (m : ℕ) (c : Connection) → Untouched c (handle_connection_max_data m c)
unfolding handle_connection_max_data
max_data-Untouched m c = elim (Bool-cases (m == c.max_buffered_data)) [
  | inl e ↦ rw e (record { streams = λ k. refl; totals = refl; congestion = refl })
  | inr e ↦ rw e (record { streams = λ k. refl; totals = refl; congestion = refl })
]

close-money :
    (i : ℕ) (message : Bytes) (s : Stream) → money_of (close_stream i message s) ≡ money_of s
unfolding close_stream remote_ended
close-money i [] s = refl
close-money i (x ∷ xs) s = refl

closes-Untouched :
    (i : ℕ) (message : Bytes) (s : Stream) (c : Connection)
    → lookup i c.streams ≡ some s
    → Untouched c (closes i message s c).connection
unfolding closes
closes-Untouched i message s c found = elim (Bool-cases (s.closed || s.remote_sent_end)) [
  | inl e ↦ rw e (Untouched-self c)
  | inr e ↦ rw e (
      let w = assign-Untouched i s (close_stream i message s) c found (close-money i message s) in
      record { streams = w.streams; totals = refl; congestion = refl })
]

close-Untouched :
    (i : ℕ) (message : Bytes) (c : Connection)
    → Untouched c (handle_stream_close i message c).connection
unfolding handle_stream_close
close-Untouched i message c = elim (Option-cases (lookup i c.streams)) [
  | inl e ↦ rw (e, handle_stream_close) (Untouched-self c)
  | inr (s, e) ↦ rw (e, handle_stream_close) (closes-Untouched i message s c e)
]

push-money :
    (n o : ℕ) (bytes : Bytes) (s : Stream)
    → money_of (push_incoming_data n bytes o s).stream ≡ money_of s
push-money n o bytes s = ap money_of (push_incoming_data-others n bytes o s)

data-Untouched :
    (buffers : Buffers) (i o : ℕ) (bytes : Bytes) (c : Connection)
    → Untouched c (handle_stream_data buffers i o bytes c).connection
unfolding handle_stream_data receives
data-Untouched buffers i o bytes c = elim (Option-cases (lookup i c.streams)) [
  | inl e ↦ rw (e, handle_stream_data) (Untouched-self c)
  | inr (s, e) ↦
      rw (e, handle_stream_data)
        (assign-Untouched i s _ c e (push-money (room buffers s) o bytes s))
]

module _ ⦃api : LongApi⦄ where
  frame-Untouched :
      (buffers : Buffers) (frame : Frame) (c : Connection)
      → Untouched c (handle_control_frame buffers frame c).connection
  unfolding handle_control_frame handle_new_address handle_connection_close handle_stream_max_money
      handle_stream_max_data handle_connection_max_stream_id
  frame-Untouched buffers (connection_new_address a) c = record {
    streams = λ k. refl;
    totals = refl;
    congestion = refl;
  }
  frame-Untouched buffers (connection_asset_details a s) c = record {
    streams = λ k. refl;
    totals = refl;
    congestion = refl;
  }
  frame-Untouched buffers (connection_close e m) c = record {
    streams = λ k. refl;
    totals = refl;
    congestion = refl;
  }
  frame-Untouched buffers (connection_max_data o) c = max_data-Untouched o c
  frame-Untouched buffers (connection_max_stream_id i) c = record {
    streams = λ k. refl;
    totals = refl;
    congestion = refl;
  }
  frame-Untouched buffers (stream_close i e m) c = close-Untouched i m c
  frame-Untouched buffers (stream_max_money i m r) c =
      update-Untouched i (raise_receive_max m r) c (raise_receive_max-money m r)
  frame-Untouched buffers (stream_data i o b) c = data-Untouched buffers i o b c
  frame-Untouched buffers (stream_max_data i o) c =
      update-Untouched i (raise_offset o) c (raise_offset-money o)
  frame-Untouched buffers _ c = record { streams = λ k. refl; totals = refl; congestion = refl }

  -- Whatever control frames the peer sends: they open and remove no stream, and they move no money,
  -- that is the totals, limits and holds of every stream and the totals of the connection stay, and
  -- so do the sizes of packets, until the effects are performed.
  pub handle_control_frames-Untouched :
      (buffers : Buffers) (frames : List Frame) (c : Connection)
      → Untouched c (handle_control_frames buffers frames c).connection
  unfolding handle_control_frames
  handle_control_frames-Untouched buffers [] c = record {
    streams = λ k. refl;
    totals = refl;
    congestion = refl;
  }
  handle_control_frames-Untouched buffers (frame ∷ rest) c =
      Untouched-trans (frame-Untouched buffers frame c) (
        handle_control_frames-Untouched buffers rest
          (handle_control_frame buffers frame c).connection)
