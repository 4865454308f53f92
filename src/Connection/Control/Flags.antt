-- ===== src/Connection/Control/Flags.antt =====
-- What control frames leave of the flags that the send loop reads, and of the identifiers of streams: no frame stops the loop, but the
-- close of the connection by the peer does.
use ilp_protocol_stream.Connection.Streams.{has}
use ilp_protocol_stream.Base.{
  ◌+◌, ◌++◌, assign, arith, ℕ, ◌==◌, ◌||◌, ◌≡◌, refl, ap, ◌∙◌, ◌⊎◌, inl, inr, Bool-cases,
  Option-cases, List, [], ◌∷◌, true, lookup,
}
use ilp_protocol_stream.Long.Interface.{LongApi}
use ilp_protocol_stream.Oer.{Bytes}
use ilp_protocol_stream.Stream.{Stream}
use ilp_protocol_stream.Packet.{
  Frame, connection_close, connection_new_address, connection_asset_details, connection_max_data,
  connection_max_stream_id, stream_close, stream_max_money, stream_data, stream_max_data,
}
use ilp_protocol_stream.Connection.{Connection, RemoteState}
use ilp_protocol_stream.Connection.Updating.{update_stream, update-others}
use ilp_protocol_stream.Connection.Streams.Same.{
  SameIds, SameIds-trans, SameIds-keys, SameIds-fields, assign-known, update-SameIds,
}
use ilp_protocol_stream.Connection.Offsets.{
  raise_receive_max, raise_offset, handle_connection_max_data, handle_connection_max_stream_id,
  handle_stream_max_money, handle_stream_max_data,
}
use ilp_protocol_stream.Connection.Filling.{Buffers}
use ilp_protocol_stream.Connection.Control.{
  handle_new_address, handle_connection_close, close_stream, closes, handle_stream_close, receives,
  handle_stream_data, handle_control_frame, handle_control_frames,
}

abbrev pub IsClosed : Connection → Type 0
IsClosed c = c.remote_state ≡ RemoteState.closed

-- The loop goes on, or the peer has closed the connection.
abbrev pub IsAwake : Connection → Type 0
IsAwake c = (c.sending ≡ true) ⊎ IsClosed c

-- What does not stop the loop, and leaves the identifiers of streams alone.
pub record Steady (c d : Connection) : Type 0 where
  pub ids : SameIds c d
  pub awake : IsAwake c → IsAwake d
  pub closed : IsClosed c → IsClosed d

pub Steady-trans : {c d e : Connection} → Steady c d → Steady d e → Steady c e
Steady-trans v w = record {
  ids = SameIds-trans v.ids w.ids;
  awake = λ a. w.awake (v.awake a);
  closed = λ h. w.closed (v.closed h);
}

pub Steady-same :
    {c d : Connection}
    → d.sending ≡ c.sending
    → d.remote_state ≡ c.remote_state
    → SameIds c d
    → Steady c d
Steady-same s r ids = record {
  ids = ids;
  awake = λ a. elim a [ inl h ↦ inl (s ∙ h) | inr h ↦ inr (r ∙ h) ];
  closed = λ h. r ∙ h;
}

-- The flags, the identifiers and the streams are the same.
pub Steady-fields :
    {c d : Connection}
    → d.sending ≡ c.sending
    → d.remote_state ≡ c.remote_state
    → d.is_server ≡ c.is_server
    → d.next_stream_id ≡ c.next_stream_id
    → d.closed_streams ≡ c.closed_streams
    → d.max_stream_id ≡ c.max_stream_id
    → d.streams ≡ c.streams
    → Steady c d
Steady-fields s r server next closed limit streams =
    Steady-same s r (SameIds-fields server next closed limit streams)

pub Steady-self : (c : Connection) → Steady c c
Steady-self c = Steady-fields refl refl refl refl refl refl refl

pub update-Steady : (i : ℕ) (f : Stream → Stream) (c : Connection) → Steady c (update_stream i f c)
update-Steady i f c =
    Steady-same (ap (λ x. x.sending) (update-others i f c))
      (ap (λ x. x.remote_state) (update-others i f c)) (update-SameIds i f c)

max_data-Steady : (m : ℕ) (c : Connection) → Steady c (handle_connection_max_data m c)
unfolding handle_connection_max_data
max_data-Steady m c = elim (Bool-cases (m == c.max_buffered_data)) [
  | inl e ↦ rw e (Steady-fields refl refl refl refl refl refl refl)
  | inr e ↦ rw e (Steady-fields refl refl refl refl refl refl refl)
]

closed-Steady :
    (c : Connection) (streams : List (ℕ × Stream)) (queued_frames : List Frame)
    → ((k : ℕ) → has (lookup k streams) ≡ has (lookup k c.streams))
    → Steady c (record c {
      streams = streams;
      max_stream_id = c.max_stream_id + 2;
      queued_frames = queued_frames;
    })
closed-Steady c streams queued_frames known = record {
  ids = record { server = refl; next = refl; closed = refl; limit = omega arith; known = known };
  awake = λ a. a;
  closed = λ h. h;
}

stream_close-Steady :
    (i : ℕ) (message : Bytes) (c : Connection)
    → Steady c (handle_stream_close i message c).connection
unfolding handle_stream_close closes
stream_close-Steady i message c = elim (Option-cases (lookup i c.streams)) [
  | inl e ↦ rw (e, handle_stream_close) (Steady-self c)
  | inr (s, e) ↦
      rw (e, handle_stream_close)
        (elim (Bool-cases (s.closed || s.remote_sent_end)) [
          | inl h ↦ rw h (Steady-self c)
          | inr h ↦ rw h (
              closed-Steady c (assign i (close_stream i message s) c.streams)
                (c.queued_frames ++ connection_max_stream_id (c.max_stream_id + 2) ∷ [])
                (λ k. assign-known i k s (close_stream i message s) c.streams e))
        ])
]

stream_data-Steady :
    (buffers : Buffers) (i o : ℕ) (bytes : Bytes) (c : Connection)
    → Steady c (handle_stream_data buffers i o bytes c).connection
unfolding handle_stream_data receives
stream_data-Steady buffers i o bytes c = elim (Option-cases (lookup i c.streams)) [
  | inl e ↦ rw (e, handle_stream_data) (Steady-self c)
  | inr (s, e) ↦
      rw (e, handle_stream_data)
        (Steady-same refl refl
          (SameIds-keys refl refl refl refl (λ k. assign-known i k s _ c.streams e)))
]

module _ ⦃api : LongApi⦄ where
  frame-Steady :
      (buffers : Buffers) (frame : Frame) (c : Connection)
      → Steady c (handle_control_frame buffers frame c).connection
  unfolding handle_control_frame handle_new_address handle_connection_close handle_stream_max_money
      handle_stream_max_data handle_connection_max_stream_id
  frame-Steady buffers (connection_new_address a) c =
      Steady-fields refl refl refl refl refl refl refl
  frame-Steady buffers (connection_asset_details a s) c =
      Steady-fields refl refl refl refl refl refl refl
  frame-Steady buffers (connection_close e m) c = record {
    ids = SameIds-fields refl refl refl refl refl;
    awake = λ h. inr refl;
    closed = λ h. refl;
  }
  frame-Steady buffers (connection_max_data o) c = max_data-Steady o c
  frame-Steady buffers (connection_max_stream_id i) c =
      Steady-fields refl refl refl refl refl refl refl
  frame-Steady buffers (stream_close i e m) c = stream_close-Steady i m c
  frame-Steady buffers (stream_max_money i m r) c = update-Steady i (raise_receive_max m r) c
  frame-Steady buffers (stream_data i o b) c = stream_data-Steady buffers i o b c
  frame-Steady buffers (stream_max_data i o) c = update-Steady i (raise_offset o) c
  frame-Steady buffers _ c = Steady-fields refl refl refl refl refl refl refl

  pub handle_control_frames-Steady :
      (buffers : Buffers) (frames : List Frame) (c : Connection)
      → Steady c (handle_control_frames buffers frames c).connection
  unfolding handle_control_frames
  handle_control_frames-Steady buffers [] c = Steady-self c
  handle_control_frames-Steady buffers (frame ∷ rest) c =
      Steady-trans (frame-Steady buffers frame c) (
        handle_control_frames-Steady buffers rest (handle_control_frame buffers frame c).connection)
