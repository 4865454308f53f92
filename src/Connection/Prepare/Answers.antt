-- ===== src/Connection/Prepare/Answers.antt =====
-- What an answer of `handlePrepare` tells: a fulfill was earned, and a reject moved no money.
use ilp_protocol_stream.Base.{
  ℕ, ◌≤◌, ◌≡◌, refl, inl, inr, ltb, ltb→ge, ◌||◌, Bool-cases, Option-cases, List, [], ◌∷◌, Bool,
  Result, ok, throw,
}
use ilp_protocol_stream.Packet.{Frame, Packet}
use ilp_protocol_stream.Connection.{Connection}
use ilp_protocol_stream.Connection.Streams.{Outcome, member, handle_new_stream}
use ilp_protocol_stream.Connection.Streams.Fresh.{
  NoCredit, NoCredit-trans, handle_new_stream-NoCredit,
}
use ilp_protocol_stream.Connection.Offsets.{exceeds_window}
use ilp_protocol_stream.Connection.Prepare.{
  Environment, Answer, fulfills, rejects, refuses, fails, Answered, Handling, Stage, proceeds,
  stops, ◌>>=◌, final_application_error, attempt, opens, closes_stream, answer_closed,
  new_stream_stage, open_stream, open_streams, check_window, check_amount,
}

-- What a stage comes to: a property of the value it goes on with, or of what it has answered.
pub data Comes {A : Type 0} (P : A → Type 0) (Q : Answered → Type 0) : Stage A → Type 0 where
  goes : {a : A} → P a → Comes P Q (proceeds a)
  answered : {r : Answered} → Q r → Comes P Q (stops r)

pub bind-Comes :
    {A B : Type 0} {P : A → Type 0} {P' : B → Type 0} {Q : Answered → Type 0} (first : Stage A)
    (next : A → Stage B)
    → Comes P Q first
    → ((a : A) → P a → Comes P' Q (next a))
    → Comes P' Q (first >>= next)
bind-Comes (proceeds a) next (goes p) q = q a p
bind-Comes (stops r) next (answered p) q = answered p

-- A reject brings no money, and it answers the packet; errors of another kind are left out here.
abbrev pub Rejected : Connection → Packet → Answer → Connection → Type 0
Rejected c p (rejects response) d = NoCredit c d × (response.sequence ≡ p.sequence)
Rejected c p (fails e) d = Unit {0}
Rejected c p refuses d = NoCredit c d
Rejected c p (fulfills fulfillment response) d = ⊥

abbrev pub Stopped : Connection → Packet → Answered → Type 0
Stopped c p r = Rejected c p r.answer r.connection

abbrev pub Uncredited : Connection → Handling → Type 0
Uncredited c h = NoCredit c h.connection

pub final-Comes :
    {A : Type 0} {P : A → Type 0} (c : Connection) (p : Packet) (amount : ℕ) (h : Handling)
    → Uncredited c h
    → Comes P (Stopped c p) (final_application_error p amount h)
unfolding final_application_error
final-Comes c p amount h w =
    answered (record { streams = w.streams; received = w.received; sent = w.sent }, refl)

pub attempt-Comes :
    {A : Type 0} {P : A → Type 0} (c : Connection) (p : Packet) (h : Handling) (r : Result A)
    → ((a : A) → r ≡ ok a → P a)
    → Comes P (Stopped c p) (attempt h r)
unfolding attempt
attempt-Comes c p h (ok a) w = goes (w a refl)
attempt-Comes c p h (throw e) w = answered tt

answer_closed-Comes :
    (env : Environment) (c : Connection) (p : Packet) (amount i : ℕ) (h : Handling)
    → Uncredited c h
    → Comes (Uncredited c) (Stopped c p) (answer_closed env p amount i h)
unfolding answer_closed
answer_closed-Comes env c p amount i h w =
    elim (Bool-cases
      (closes_stream i h.response_frames || closes_stream i h.connection.queued_frames)) [
        | inl e ↦ rw e (final-Comes c p amount h w)
        | inr e ↦ rw e (final-Comes c p amount _ w)
      ]

new_stream_stage-Comes :
    (c : Connection) (p : Packet) (amount : ℕ) (h : Handling) (o : Outcome)
    → NoCredit c o.connection
    → Comes (Uncredited c) (Stopped c p) (new_stream_stage p amount h o)
unfolding new_stream_stage
new_stream_stage-Comes c p amount h o w = elim (Option-cases o.thrown) [
  | inl e ↦ rw (e, new_stream_stage) (goes w)
  | inr (x, e) ↦ rw (e, new_stream_stage) (final-Comes c p amount _ w)
]

open_stream-Comes :
    (env : Environment) (c : Connection) (p : Packet) (amount i : ℕ) (carries : Bool) (h : Handling)
    → Uncredited c h
    → Comes (Uncredited c) (Stopped c p) (open_stream env p amount i carries h)
unfolding open_stream
open_stream-Comes env c p amount i carries h w =
    elim (Bool-cases (member i h.connection.closed_streams)) [
      | inl e ↦ elim (Bool-cases carries) [
        | inl e2 ↦ rw (e, e2) (answer_closed-Comes env c p amount i h w)
        | inr e2 ↦ rw (e, e2) (goes w)
      ]
      | inr e ↦ rw e (
          new_stream_stage-Comes c p amount h (handle_new_stream env.texts i h.connection)
            (NoCredit-trans w (handle_new_stream-NoCredit env.texts i h.connection)))
    ]

pub open_streams-Comes :
    (env : Environment) (c : Connection) (p : Packet) (amount : ℕ) (frames : List Frame)
    (h : Handling)
    → Uncredited c h
    → Comes (Uncredited c) (Stopped c p) (open_streams env p amount frames h)
unfolding open_streams
open_streams-Comes env c p amount [] h w = goes w
open_streams-Comes env c p amount (frame ∷ rest) h w = elim (Option-cases (opens frame)) [
  | inl e ↦ rw (e, open_streams) (open_streams-Comes env c p amount rest h w)
  | inr ((i, carries), e) ↦
      rw (e, open_streams)
        (bind-Comes (open_stream env p amount i carries h) (open_streams env p amount rest)
          (open_stream-Comes env c p amount i carries h w)
          (λ next v. open_streams-Comes env c p amount rest next v))
]

pub check_window-Comes :
    (env : Environment) (c : Connection) (p : Packet) (amount : ℕ) (h : Handling)
    → Uncredited c h
    → Comes (Uncredited c) (Stopped c p) (check_window env p amount h)
unfolding check_window
check_window-Comes env c p amount h w =
    elim (Bool-cases (exceeds_window env.buffers.readable_length h.connection)) [
      | inl e ↦ rw e (final-Comes c p amount _ w)
      | inr e ↦ rw e (goes w)
    ]

pub check_amount-Comes :
    (c : Connection) (p : Packet) (amount : ℕ) (h : Handling)
    → Uncredited c h
    → Comes
        (λ g. Uncredited c g × (p.prepare_amount ≤ amount))
        (Stopped c p)
        (check_amount p amount h)
unfolding check_amount
check_amount-Comes c p amount h w = elim (Bool-cases (ltb amount p.prepare_amount)) [
  | inl e ↦ rw e (final-Comes c p amount h w)
  | inr e ↦ rw e (goes (w, ltb→ge amount p.prepare_amount e))
]
