-- ===== src/Connection/Updating.antt =====
-- A stream that the connection has a record of is changed in place.
use ilp_protocol_stream.Base.{
  List, ℕ, ◌==◌, ==→eq, if◌then◌else◌, Bool-cases, ◌≡◌, refl, sym, subst, inl, inr, [], ◌++◌,
  Option, none, some, Option-cases, lookup, assign, lookup-assign,
}
use mathlib.Core.List.{append-nil}
use ilp_protocol_stream.Stream.{Stream}
use ilp_protocol_stream.Connection.{Connection}

-- `const stream = this.streams.get(id); if (stream) ...`
unfoldable pub update_stream : ℕ → (Stream → Stream) → Connection → Connection
update_stream stream_id f c = elim (lookup stream_id c.streams) [
  | none ↦ c
  | some s ↦ record c { streams = assign stream_id (f s) c.streams }
]

abbrev pub map_option : (Stream → Stream) → Option Stream → Option Stream
map_option f none = none
map_option f (some s) = some (f s)

pub map_option-id : (o : Option Stream) → map_option (λ s. s) o ≡ o
map_option-id none = refl
map_option-id (some s) = refl

pub lookup-update :
    (k i : ℕ) (f : Stream → Stream) (c : Connection)
    → lookup k (update_stream i f c).streams
      ≡ map_option (λ s. if i == k then f s else s) (lookup k c.streams)
unfolding update_stream
lookup-update k i f c = elim (Bool-cases (i == k)) [
  | inl same ↦
      let e = ==→eq i k same in
      elim (Option-cases (lookup i c.streams)) [
        | inl none_there ↦
            let gone : lookup k c.streams ≡ none =
              subst (λ x. lookup x c.streams ≡ none) e none_there in
            rw (none_there, update_stream, gone)
        | inr (s, there) ↦
            let found : lookup k c.streams ≡ some s =
              subst (λ x. lookup x c.streams ≡ some s) e there in
            rw (there, update_stream, lookup-assign i k (f s) c.streams, found, same)
      ]
  | inr other ↦ elim (Option-cases (lookup i c.streams)) [
    | inl none_there ↦
        rw (none_there, update_stream, other) (sym (map_option-id (lookup k c.streams)))
    | inr (s, there) ↦
        rw (there, update_stream, lookup-assign i k (f s) c.streams, other)
          (sym (map_option-id (lookup k c.streams)))
  ]
]

pub queued-update :
    (i : ℕ) (f : Stream → Stream) (c : Connection)
    → (update_stream i f c).queued_frames ≡ c.queued_frames ++ []
unfolding update_stream
queued-update i f c = elim (Option-cases (lookup i c.streams)) [
  | inl e ↦ rw (e, update_stream) (sym (append-nil c.queued_frames))
  | inr (s, e) ↦ rw (e, update_stream) (sym (append-nil c.queued_frames))
]

abbrev pub with_streams : List (ℕ × Stream) → Connection → Connection
with_streams streams c = record c { streams = streams }

pub update-others :
    (i : ℕ) (f : Stream → Stream) (c : Connection)
    → update_stream i f c ≡ with_streams (update_stream i f c).streams c
unfolding update_stream
update-others i f c = elim (Option-cases (lookup i c.streams)) [
  | inl e ↦ rw (e, update_stream) refl
  | inr (s, e) ↦ rw (e, update_stream) refl
]
