-- ===== src/Connection/Rejects/Undoing.antt =====
-- `undoRejectedPacket` seen from each stream.
use ilp_protocol_stream.Base.{
  ℕ, ◌==◌, if◌then◌else◌, ◌≡◌, refl, sym, ap, ◌∙◌, List, [], ◌∷◌, ◌++◌, Option, none, some, lookup,
}
use mathlib.Core.List.{append_assoc, append-nil}
use ilp_protocol_stream.Long.Interface.{LongApi}
use ilp_protocol_stream.Stream.{Stream}
use ilp_protocol_stream.Stream.Money.{cancel_hold}
use ilp_protocol_stream.Stream.Data.{resend_outgoing_data}
use ilp_protocol_stream.Packet.{Frame, Packet, stream_close, stream_money, stream_data}
use ilp_protocol_stream.Connection.{Connection}
use ilp_protocol_stream.Connection.Updating.{
  map_option, map_option-id, lookup-update, queued-update,
}
use ilp_protocol_stream.Connection.Rejects.{undo_frame, undo_frames, undo_rejected_packet}

-- The frames of a packet that close a stream, in their order.
pub closing : List Frame → List Frame
closing [] = []
closing (stream_close i code message ∷ rest) = stream_close i code message ∷ closing rest
closing (_ ∷ rest) = closing rest

pub map_option-then :
    (f g : Stream → Stream) (o : Option Stream)
    → map_option g (map_option f o) ≡ map_option (λ s. g (f s)) o
map_option-then f g none = refl
map_option-then f g (some s) = refl

module _ ⦃api : LongApi⦄ where
  -- What one frame undoes for stream `k` alone.
  abbrev pub undone_by : ℕ → ℕ → Frame → Stream → Stream
  undone_by k sequence (stream_money i shares) s = if i == k then cancel_hold s sequence else s
  undone_by k sequence (stream_data i offset bytes) s =
      if i == k then resend_outgoing_data s bytes offset else s
  undone_by k sequence _ s = s

  unfoldable pub undone : ℕ → ℕ → List Frame → Stream → Stream
  undone k sequence [] s = s
  undone k sequence (frame ∷ rest) s = undone k sequence rest (undone_by k sequence frame s)

  lookup-undo_frame :
      (k sequence : ℕ) (frame : Frame) (c : Connection)
      → lookup k (undo_frame sequence frame c).streams
        ≡ map_option (undone_by k sequence frame) (lookup k c.streams)
  unfolding undo_frame
  lookup-undo_frame k sequence (stream_money i shares) c =
      lookup-update k i (λ s. cancel_hold s sequence) c
  lookup-undo_frame k sequence (stream_data i offset bytes) c =
      lookup-update k i (λ s. resend_outgoing_data s bytes offset) c
  lookup-undo_frame k sequence _ c = sym (map_option-id (lookup k c.streams))

  lookup-undo_frames :
      (k sequence : ℕ) (frames : List Frame) (c : Connection)
      → lookup k (undo_frames sequence frames c).streams
        ≡ map_option (undone k sequence frames) (lookup k c.streams)
  unfolding undo_frames undone
  lookup-undo_frames k sequence [] c = sym (map_option-id (lookup k c.streams))
  lookup-undo_frames k sequence (frame ∷ rest) c =
      lookup-undo_frames k sequence rest (undo_frame sequence frame c)
      ∙ ap (map_option (undone k sequence rest)) (lookup-undo_frame k sequence frame c)
      ∙ map_option-then (undone_by k sequence frame) (undone k sequence rest) (lookup k c.streams)

  queued-undo_frame :
      (sequence : ℕ) (frame : Frame) (c : Connection)
      → (undo_frame sequence frame c).queued_frames ≡ c.queued_frames ++ closing (frame ∷ [])
  unfolding undo_frame closing
  queued-undo_frame sequence (stream_money i shares) c = queued-update i _ c
  queued-undo_frame sequence (stream_data i offset bytes) c = queued-update i _ c
  queued-undo_frame sequence (stream_close i code message) c = refl
  queued-undo_frame sequence _ c = sym (append-nil c.queued_frames)

  closing-cons :
      (frame : Frame) (rest : List Frame)
      → closing (frame ∷ rest) ≡ closing (frame ∷ []) ++ closing rest
  unfolding closing
  closing-cons (stream_close i code message) rest = refl
  closing-cons _ rest = refl

  queued-undo_frames :
      (sequence : ℕ) (frames : List Frame) (c : Connection)
      → (undo_frames sequence frames c).queued_frames ≡ c.queued_frames ++ closing frames
  unfolding undo_frames closing
  queued-undo_frames sequence [] c = sym (append-nil c.queued_frames)
  queued-undo_frames sequence (frame ∷ rest) c =
      rw
        (
          queued-undo_frames sequence rest (undo_frame sequence frame c),
          queued-undo_frame sequence frame c,
          closing-cons frame rest,
        )
        (append_assoc c.queued_frames (closing (frame ∷ [])) (closing rest))

  -- Undoing a rejected packet does to each stream, open under its identifier, what the packet's frames
  -- for that stream say, in their order: a money frame cancels the packet's hold, a data frame puts the
  -- data back to be sent again. It opens and closes no stream, and it queues the frames of the packet
  -- that close a stream, behind those that are queued.
  pub undo_rejected_packet_lem :
      (p : Packet) (c : Connection) (k : ℕ)
      → let d = undo_rejected_packet p c in
        (lookup k d.streams ≡ map_option (undone k p.sequence p.frames) (lookup k c.streams))
        × (d.queued_frames ≡ c.queued_frames ++ closing p.frames)
  unfolding undo_rejected_packet
  undo_rejected_packet_lem p c k =
      (lookup-undo_frames k p.sequence p.frames c, queued-undo_frames p.sequence p.frames c)
