-- ===== src/Stream/Waiting/Deciding.antt =====
-- A promise that waits for a total is settled by the first event that decides it.
use ilp_protocol_stream.Base.{
  ℕ, ◌≤◌, leb, leb→gt, if◌then◌else◌, ◌≡◌, refl, sym, ap, ◌∙◌, inl, inr, Bool-cases, List, [], ◌∷◌,
  Option, none, some, false, ok, arith,
}
use ilp_protocol_stream.Stream.{Stream}
use ilp_protocol_stream.Stream.Money.{set_send_max, set_receive_max}
use ilp_protocol_stream.Stream.Money.Limits.{set_send_max_lem, set_receive_max_lem}
use ilp_protocol_stream.Stream.Waiting.{
  Outcome, resolved, closed_early, stream_failed, timed_out, Wait, WaitEvent, moved, ended, errors,
  expires, cleans, new_wait, settle_once, cleanup, money_handler, end_handler, error_handler,
  timer_handler, listen, wait_event, wait_events, Started, at_once, fails, waits, send_total,
  receive_total,
}

-- What decides: a total that reaches the limit, the end of the stream, an error, or the timer.
pub decides : ℕ → List WaitEvent → Option Outcome
decides limit [] = none
decides limit (moved total ∷ rest) =
    let later = decides limit rest in if leb limit total then some resolved else later
decides limit (ended total ∷ rest) = some (if leb limit total then resolved else closed_early)
decides limit (errors ∷ rest) = some stream_failed
decides limit (expires ∷ rest) = some timed_out
decides limit (cleans ∷ rest) = decides limit rest

settled_event :
    (e : WaitEvent) (o : Outcome) (w : Wait)
    → w.outcome ≡ some o
    → (wait_event e w).outcome ≡ some o
unfolding wait_event listen money_handler end_handler error_handler timer_handler settle_once
    cleanup
settled_event cleans o w h = elim (Bool-cases w.is_cleaning) [ inl e ↦ rw e h | inr e ↦ rw e h ]
settled_event (moved total) o w h = elim (Bool-cases w.is_listening) [
  | inl e ↦ elim (Bool-cases (leb w.limit total)) [
    | inl enough ↦ rw (e, wait_event, enough, h) refl
    | inr less ↦ rw (e, wait_event, less) h
  ]
  | inr e ↦ rw (e, wait_event) h
]
settled_event (ended total) o w h = elim (Bool-cases w.is_listening) [
  | inl e ↦ rw (e, wait_event, h) refl
  | inr e ↦ rw (e, wait_event) h
]
settled_event errors o w h = elim (Bool-cases w.is_listening) [
  | inl e ↦ rw (e, wait_event, h) refl
  | inr e ↦ rw (e, wait_event) h
]
settled_event expires o w h = elim (Bool-cases w.is_listening) [
  | inl e ↦ rw (e, wait_event, h) refl
  | inr e ↦ rw (e, wait_event) h
]

settled_events :
    (es : List WaitEvent) (o : Outcome) (w : Wait)
    → w.outcome ≡ some o
    → (wait_events es w).outcome ≡ some o
unfolding wait_events
settled_events [] o w h = h
settled_events (e ∷ es) o w h = settled_events es o (wait_event e w) (settled_event e o w h)

wait_events-decides :
    (limit : ℕ) (es : List WaitEvent) → (wait_events es (new_wait limit)).outcome ≡ decides limit es
unfolding wait_events wait_event listen money_handler end_handler error_handler timer_handler
    settle_once cleanup new_wait decides
wait_events-decides limit [] = refl
wait_events-decides limit (moved total ∷ rest) = elim (Bool-cases (leb limit total)) [
  | inl enough ↦
      let reached : (wait_event (moved total) (new_wait limit)).outcome ≡ some resolved =
        rw (enough, wait_event) refl in
      let last = settled_events rest resolved (wait_event (moved total) (new_wait limit)) reached in
      let shown : decides limit (moved total ∷ rest) ≡ some resolved = rw (enough, decides) refl in
      last ∙ sym shown
  | inr less ↦
      let same : wait_event (moved total) (new_wait limit) ≡ new_wait limit =
        rw (less, wait_event) refl in
      let shown : decides limit (moved total ∷ rest) ≡ decides limit rest =
        rw (less, decides) refl in
      ap (λ w. (wait_events rest w).outcome) same ∙ wait_events-decides limit rest ∙ sym shown
]
wait_events-decides limit (ended total ∷ rest) = settled_events rest _ _ refl
wait_events-decides limit (errors ∷ rest) = settled_events rest stream_failed _ refl
wait_events-decides limit (expires ∷ rest) = settled_events rest timed_out _ refl
wait_events-decides limit (cleans ∷ rest) = wait_events-decides limit rest

-- The outcome of a call, once the events have happened; a limit that cannot be set counts as none.
pub outcome_of : Started → List WaitEvent → Option Outcome
outcome_of at_once es = some resolved
outcome_of (fails e) es = none
outcome_of (waits s w) es = (wait_events es w).outcome

set_send_max-open :
    (s : Stream) (limit : ℕ)
    → s.closed ≡ false
    → s.total_sent ≤ limit
    → set_send_max s limit ≡ ok (record s { send_max = limit })
set_send_max-open s limit open_stream le = elim (set_send_max_lem s limit) [
  | inl (shut, e) ↦ absurd (cc)
  | inr (inl (o, lt, e)) ↦ absurd (omega (arith, lt, le))
  | inr (inr (o, above, e)) ↦ e
]

set_receive_max-open :
    (s : Stream) (limit : ℕ)
    → s.closed ≡ false
    → s.total_received ≤ limit
    → s.receive_max ≤ limit
    → set_receive_max s limit ≡ ok (record s { receive_max = limit })
set_receive_max-open s limit open_stream le rises = elim (set_receive_max_lem s limit) [
  | inl (shut, e) ↦ absurd (cc)
  | inr (inl (o, lt, e)) ↦ absurd (omega (arith, lt, le))
  | inr (inr (inl (o, above, lt, e))) ↦ absurd (omega (arith, lt, rises))
  | inr (inr (inr (o, above, more, e))) ↦ e
]

send_total-decides :
    (s : Stream) (limit : ℕ) (es : List WaitEvent)
    → s.closed ≡ false
    → outcome_of (send_total s limit) es
      ≡ (if leb limit s.total_sent then some resolved else decides limit es)
unfolding send_total outcome_of
send_total-decides s limit es open_stream = elim (Bool-cases (leb limit s.total_sent)) [
  | inl enough ↦ rw (enough, send_total) refl
  | inr less ↦
      let set =
        set_send_max-open s limit open_stream (omega (arith, leb→gt limit s.total_sent less)) in
      rw (less, send_total, set) (wait_events-decides limit es)
]

receive_total-decides :
    (s : Stream) (limit : ℕ) (es : List WaitEvent)
    → s.closed ≡ false
    → s.receive_max ≤ limit
    → outcome_of (receive_total s limit) es
      ≡ (if leb limit s.total_received then some resolved else decides limit es)
unfolding receive_total outcome_of
receive_total-decides s limit es open_stream rises =
    elim (Bool-cases (leb limit s.total_received)) [
      | inl enough ↦ rw (enough, receive_total) refl
      | inr less ↦
          let set =
            set_receive_max-open s limit open_stream
              (omega (arith, leb→gt limit s.total_received less)) rises in
          rw (less, receive_total, set) (wait_events-decides limit es)
    ]

-- On an open stream, for a limit that is not below the receive limit: `sendTotal` and `receiveTotal`
-- resolve at once where the total has reached the limit. Otherwise the promise is settled by the first
-- event that decides, whatever follows: it resolves where a movement of money, or the end of the
-- stream, finds the total at the limit, and rejects on an end before that, an error, or the timer.
pub send_total-receive_total :
    (s : Stream) (limit : ℕ) (es : List WaitEvent)
    → s.closed ≡ false
    → s.receive_max ≤ limit
    → (outcome_of (send_total s limit) es
        ≡ (if leb limit s.total_sent then some resolved else decides limit es))
      × (outcome_of (receive_total s limit) es
          ≡ (if leb limit s.total_received then some resolved else decides limit es))
send_total-receive_total s limit es open_stream rises =
    (send_total-decides s limit es open_stream, receive_total-decides s limit es open_stream rises)
