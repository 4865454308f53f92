-- ===== src/Connection/Prepare/Keys.antt =====
-- The first stages of `handlePrepare` keep the identifiers of streams in order.
use ilp_protocol_stream.Base.{
  ℕ, ◌≡◌, refl, inl, inr, ltb, ◌||◌, Bool-cases, Option-cases, List, [], ◌∷◌, Bool, Result, ok,
  throw,
}
use ilp_protocol_stream.Packet.{Frame, Packet}
use ilp_protocol_stream.Connection.Streams.{Outcome, member, handle_new_stream}
use ilp_protocol_stream.Connection.Streams.Identifiers.{
  IsWellFormed, handle_new_stream-IsWellFormed,
}
use ilp_protocol_stream.Connection.Streams.Same.{SameIds-fields, SameIds-IsWellFormed}
use ilp_protocol_stream.Connection.Offsets.{exceeds_window}
use ilp_protocol_stream.Connection.Prepare.{
  Environment, Answered, Handling, final_application_error, attempt, opens, closes_stream,
  answer_closed, new_stream_stage, open_stream, open_streams, check_window, check_amount,
}
use ilp_protocol_stream.Connection.Prepare.Answers.{Comes, goes, answered, bind-Comes}

abbrev pub Fine : Handling → Type 0
Fine h = IsWellFormed h.connection

abbrev pub Ended : Answered → Type 0
Ended r = IsWellFormed r.connection

pub final-Fine :
    {A : Type 0} {P : A → Type 0} (p : Packet) (amount : ℕ) (h : Handling)
    → Fine h
    → Comes P Ended (final_application_error p amount h)
unfolding final_application_error
final-Fine p amount h w =
    answered (SameIds-IsWellFormed (SameIds-fields refl refl refl refl refl) w)

pub attempt-Fine :
    {A : Type 0} {P : A → Type 0} (h : Handling) (r : Result A)
    → Fine h
    → ((a : A) → r ≡ ok a → P a)
    → Comes P Ended (attempt h r)
unfolding attempt
attempt-Fine h (ok a) w v = goes (v a refl)
attempt-Fine h (throw e) w v = answered w

answer_closed-Fine :
    (env : Environment) (p : Packet) (amount i : ℕ) (h : Handling)
    → Fine h
    → Comes Fine Ended (answer_closed env p amount i h)
unfolding answer_closed
answer_closed-Fine env p amount i h w =
    elim (Bool-cases
      (closes_stream i h.response_frames || closes_stream i h.connection.queued_frames)) [
        | inl e ↦ rw e (final-Fine p amount h w)
        | inr e ↦ rw e (final-Fine p amount _ w)
      ]

new_stream_stage-Fine :
    (p : Packet) (amount : ℕ) (h : Handling) (o : Outcome)
    → IsWellFormed o.connection
    → Comes Fine Ended (new_stream_stage p amount h o)
unfolding new_stream_stage
new_stream_stage-Fine p amount h o w = elim (Option-cases o.thrown) [
  | inl e ↦ rw (e, new_stream_stage) (goes w)
  | inr (x, e) ↦ rw (e, new_stream_stage) (final-Fine p amount _ w)
]

open_stream-Fine :
    (env : Environment) (p : Packet) (amount i : ℕ) (carries : Bool) (h : Handling)
    → Fine h
    → Comes Fine Ended (open_stream env p amount i carries h)
unfolding open_stream
open_stream-Fine env p amount i carries h w =
    elim (Bool-cases (member i h.connection.closed_streams)) [
      | inl e ↦ elim (Bool-cases carries) [
        | inl e2 ↦ rw (e, e2) (answer_closed-Fine env p amount i h w)
        | inr e2 ↦ rw (e, e2) (goes w)
      ]
      | inr e ↦ rw e (
          new_stream_stage-Fine p amount h (handle_new_stream env.texts i h.connection)
            (handle_new_stream-IsWellFormed env.texts i h.connection w))
    ]

pub open_streams-Fine :
    (env : Environment) (p : Packet) (amount : ℕ) (frames : List Frame) (h : Handling)
    → Fine h
    → Comes Fine Ended (open_streams env p amount frames h)
unfolding open_streams
open_streams-Fine env p amount [] h w = goes w
open_streams-Fine env p amount (frame ∷ rest) h w = elim (Option-cases (opens frame)) [
  | inl e ↦ rw (e, open_streams) (open_streams-Fine env p amount rest h w)
  | inr ((i, carries), e) ↦
      rw (e, open_streams)
        (bind-Comes (open_stream env p amount i carries h) (open_streams env p amount rest)
          (open_stream-Fine env p amount i carries h w)
          (λ next v. open_streams-Fine env p amount rest next v))
]

pub check_window-Fine :
    (env : Environment) (p : Packet) (amount : ℕ) (h : Handling)
    → Fine h
    → Comes Fine Ended (check_window env p amount h)
unfolding check_window
check_window-Fine env p amount h w =
    elim (Bool-cases (exceeds_window env.buffers.readable_length h.connection)) [
      | inl e ↦ rw e (final-Fine p amount _ w)
      | inr e ↦ rw e (goes w)
    ]

pub check_amount-Fine :
    (p : Packet) (amount : ℕ) (h : Handling) → Fine h → Comes Fine Ended (check_amount p amount h)
unfolding check_amount
check_amount-Fine p amount h w = elim (Bool-cases (ltb amount p.prepare_amount)) [
  | inl e ↦ rw e (final-Fine p amount h w)
  | inr e ↦ rw e (goes w)
]
