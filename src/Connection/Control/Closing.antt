-- ===== src/Connection/Control/Closing.antt =====
-- A peer that closes a stream, once or more often.
use ilp_protocol_stream.Base.{
  ℕ, ◌≡◌, refl, ◌∙◌, inl, inr, ◌||◌, Bool-cases, Option-cases, [], ◌∷◌, none, some, Bool, true,
  false, lookup, lookup-assign_self,
}
use ilp_protocol_stream.Oer.{Bytes}
use ilp_protocol_stream.Stream.{Stream}
use ilp_protocol_stream.Stream.Reading.{remote_ended}
use ilp_protocol_stream.Connection.{Connection}
use ilp_protocol_stream.Connection.Control.{only, close_stream, closes, handle_stream_close}

close_stream-ended :
    (i : ℕ) (message : Bytes) (s : Stream) → (close_stream i message s).remote_sent_end ≡ true
unfolding close_stream remote_ended
close_stream-ended i [] s = refl
close_stream-ended i (x ∷ xs) s = refl

or_true : (a b : Bool) → b ≡ true → (a || b) ≡ true
or_true true b e = refl
or_true false b e = e

closes-ended :
    (i : ℕ) (message : Bytes) (s : Stream) (c : Connection)
    → (s.closed || s.remote_sent_end) ≡ true
    → closes i message s c ≡ only c
unfolding closes
closes-ended i message s c e = rw e

close_found :
    (i : ℕ) (message : Bytes) (s : Stream) (c : Connection)
    → lookup i c.streams ≡ some s
    → handle_stream_close i message c ≡ closes i message s c
unfolding handle_stream_close
close_found i message s c e = rw (e, handle_stream_close)

close_missing :
    (i : ℕ) (message : Bytes) (c : Connection)
    → lookup i c.streams ≡ none
    → handle_stream_close i message c ≡ only c
unfolding handle_stream_close
close_missing i message c e = rw (e, handle_stream_close)

closes-again :
    (i : ℕ) (first again : Bytes) (s : Stream) (c : Connection)
    → lookup i c.streams ≡ some s
    → let d = (closes i first s c).connection in handle_stream_close i again d ≡ only d
unfolding closes
closes-again i first again s c found = elim (Bool-cases (s.closed || s.remote_sent_end)) [
  | inl e ↦ rw e (close_found i again s c found ∙ closes-ended i again s c e)
  | inr e ↦
      let t = close_stream i first s in
      rw e (
        close_found i again t _ (lookup-assign_self i t c.streams)
        ∙ closes-ended i again t _
            (or_true t.closed t.remote_sent_end (close_stream-ended i first s)))
]

-- A StreamClose frame for a stream that a StreamClose frame was handled for does nothing, whatever
-- their messages are.
pub handle_stream_close-again :
    (i : ℕ) (first again : Bytes) (c : Connection)
    → let d = (handle_stream_close i first c).connection in handle_stream_close i again d ≡ only d
handle_stream_close-again i first again c = elim (Option-cases (lookup i c.streams)) [
  | inl e ↦ rw (close_missing i first c e) (close_missing i again c e)
  | inr (s, e) ↦ rw (close_found i first s c e) (closes-again i first again s c e)
]
