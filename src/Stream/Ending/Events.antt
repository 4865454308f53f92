-- ===== src/Stream/Ending/Events.antt =====
-- However a stream ends, its code emits 'end' and 'close' at most once each.
use ilp_protocol_stream.Base.{
  ℕ, ◌+◌, ◌≤◌, ◌<◌, ◌==◌, ne→==, ◌≡◌, refl, sym, subst, ap, ◌∙◌, ◌-◌, inl, inr, ◌⊎◌, Bool-cases,
  leb, leb→le, leb→gt, ◌||◌, List, [], ◌∷◌, ◌++◌, Option, none, some, true, false, arith,
}
use ilp_protocol_stream.Stream.{Stream}
use ilp_protocol_stream.Stream.Ending.{
  StreamEvent, end_event, close_event, Ending, new_ending, finish, final, stop_waiting, destroy,
  emit_end, emit_close, call_back, node_end, node_close,
}

pub data EndingStep : Type 0 where
  finals stops_waiting calls_back node_ends node_closes : EndingStep
  destroys : Option (List ℕ) → EndingStep

pub run_step : EndingStep → Ending → Ending
run_step finals e = final e
run_step stops_waiting e = stop_waiting e
run_step calls_back e = call_back e
run_step node_ends e = node_end e
run_step node_closes e = node_close e
run_step (destroys error) e = destroy error e

pub run_steps : List EndingStep → Ending → Ending
unfolding run_step
run_steps [] e = e
run_steps (step ∷ rest) e = run_steps rest (run_step step e)

pub ends_in : List StreamEvent → ℕ
ends_in [] = 0
ends_in (end_event ∷ rest) = ends_in rest + 1
ends_in (close_event ∷ rest) = ends_in rest

pub closes_in : List StreamEvent → ℕ
closes_in [] = 0
closes_in (end_event ∷ rest) = closes_in rest
closes_in (close_event ∷ rest) = closes_in rest + 1

-- Each event at most once, and not yet where its flag is not set.
record IsOnce (e : Ending) : Type 0 where
  ends : ends_in e.emitted ≤ 1
  no_end : e.emitted_end ≡ false → ends_in e.emitted ≡ 0
  closes : closes_in e.emitted ≤ 1
  no_close : e.emitted_close ≡ false → closes_in e.emitted ≡ 0

counts_last_end :
    (es : List StreamEvent)
    → (ends_in (es ++ end_event ∷ []) ≡ ends_in es + 1)
      × (closes_in (es ++ end_event ∷ []) ≡ closes_in es)
unfolding ends_in closes_in
counts_last_end [] = (refl, refl)
counts_last_end (end_event ∷ rest) = let (a, b) = counts_last_end rest in (omega (arith, a), b)
counts_last_end (close_event ∷ rest) = let (a, b) = counts_last_end rest in (a, omega (arith, b))

counts_last_close :
    (es : List StreamEvent)
    → (ends_in (es ++ close_event ∷ []) ≡ ends_in es)
      × (closes_in (es ++ close_event ∷ []) ≡ closes_in es + 1)
unfolding ends_in closes_in
counts_last_close [] = (refl, refl)
counts_last_close (end_event ∷ rest) = let (a, b) = counts_last_close rest in (omega (arith, a), b)
counts_last_close (close_event ∷ rest) =
    let (a, b) = counts_last_close rest in (a, omega (arith, b))

-- What a step emits, it emits in a callback.
silent-IsOnce :
    (e f : Ending)
    → IsOnce e
    → f.emitted ≡ e.emitted
    → (f.emitted_end ≡ false → e.emitted_end ≡ false)
    → (f.emitted_close ≡ false → e.emitted_close ≡ false)
    → IsOnce f
unfolding ends_in closes_in
silent-IsOnce e f w same ended closed = record {
  ends = omega (arith, w.ends, ap ends_in same);
  no_end = λ h. ap ends_in same ∙ w.no_end (ended h);
  closes = omega (arith, w.closes, ap closes_in same);
  no_close = λ h. ap closes_in same ∙ w.no_close (closed h);
}

emit_end_again : (e : Ending) → e.emitted_end ≡ true → emit_end e ≡ e
unfolding emit_end
emit_end_again e h = rw (h, emit_end) refl

emit_close_again : (e : Ending) → e.emitted_close ≡ true → emit_close e ≡ e
unfolding emit_close
emit_close_again e h = rw (h, emit_close) refl

not_waiting : (e : Ending) → e.is_waiting ≡ false → stop_waiting e ≡ e
unfolding stop_waiting
not_waiting e h = rw (h, stop_waiting) refl

emit_end-IsOnce : (e : Ending) → IsOnce e → IsOnce (emit_end e) × ((emit_end e).emitted_end ≡ true)
unfolding emit_end
emit_end-IsOnce e w = elim (Bool-cases e.emitted_end) [
  | inl h ↦ subst (λ f. IsOnce f × (f.emitted_end ≡ true)) (sym (emit_end_again e h)) (w, h)
  | inr h ↦
      let none_yet = w.no_end h in
      let (a, b) = counts_last_end e.emitted in
      rw (h, emit_end)
        (
          record {
            ends = omega (arith, a, none_yet);
            no_end = λ k. absurd (cc);
            closes = omega (arith, b, w.closes);
            no_close = λ k. b ∙ w.no_close k;
          },
          refl,
        )
]

emit_close-IsOnce :
    (e : Ending)
    → IsOnce e
    → IsOnce (emit_close e)
      × ((emit_close e).emitted_close ≡ true)
      × ((emit_close e).emitted_end ≡ e.emitted_end)
unfolding emit_close
emit_close-IsOnce e w = elim (Bool-cases e.emitted_close) [
  | inl h ↦
      subst (λ f. IsOnce f × (f.emitted_close ≡ true) × (f.emitted_end ≡ e.emitted_end))
        (sym (emit_close_again e h)) (w, h, refl)
  | inr h ↦
      let none_yet = w.no_close h in
      let (a, b) = counts_last_close e.emitted in
      rw (h, emit_close)
        (
          record {
            ends = omega (arith, a, w.ends);
            no_end = λ k. a ∙ w.no_end k;
            closes = omega (arith, b, none_yet);
            no_close = λ k. absurd (cc);
          },
          refl,
          refl,
        )
]

finish-IsOnce : (e : Ending) → IsOnce e → IsOnce (finish e)
unfolding finish
finish-IsOnce e w = silent-IsOnce e (finish e) w refl (λ h. h) (λ h. h)

call_back-IsOnce : (e : Ending) → IsOnce e → IsOnce (call_back e)
unfolding call_back
call_back-IsOnce e w = elim (Bool-cases (e.callbacks == 0)) [
  | inl h ↦ rw (h, call_back) w
  | inr h ↦
      let started = record e { callbacks = e.callbacks - 1 } in
      let ended = emit_end-IsOnce started (silent-IsOnce e started w refl (λ k. k) (λ k. k)) in
      rw (h, call_back) ((emit_close-IsOnce (emit_end started) ended.0).0)
]

run_step-IsOnce : (step : EndingStep) (e : Ending) → IsOnce e → IsOnce (run_step step e)
unfolding run_step final stop_waiting destroy node_end node_close
run_step-IsOnce finals e w =
    elim (Bool-cases (e.stream.remote_sent_end || leb e.stream.send_max e.stream.total_sent)) [
      | inl h ↦ rw (h, final) (finish-IsOnce e w)
      | inr h ↦
          rw (h, final) (silent-IsOnce e (record e { is_waiting = true }) w refl (λ k. k) (λ k. k))
    ]
run_step-IsOnce stops_waiting e w = elim (Bool-cases e.is_waiting) [
  | inl h ↦ rw (h, stop_waiting) (finish-IsOnce e w)
  | inr h ↦ subst IsOnce (sym (not_waiting e h)) w
]
run_step-IsOnce calls_back e w = call_back-IsOnce e w
run_step-IsOnce node_ends e w = silent-IsOnce e (node_end e) w refl (λ h. absurd (cc)) (λ h. h)
run_step-IsOnce node_closes e w = silent-IsOnce e (node_close e) w refl (λ h. h) (λ h. absurd (cc))
run_step-IsOnce (destroys none) e w = silent-IsOnce e (destroy none e) w refl (λ h. h) (λ h. h)
run_step-IsOnce (destroys (some m)) e w =
    silent-IsOnce e (destroy (some m) e) w refl (λ h. h) (λ h. h)

run_steps-IsOnce : (steps : List EndingStep) (e : Ending) → IsOnce e → IsOnce (run_steps steps e)
unfolding run_steps
run_steps-IsOnce [] e w = w
run_steps-IsOnce (step ∷ rest) e w = run_steps-IsOnce rest _ (run_step-IsOnce step e w)

call_back-emits :
    (e : Ending)
    → IsOnce e
    → 0 < e.callbacks
    → ((call_back e).emitted_end ≡ true) × ((call_back e).emitted_close ≡ true)
unfolding call_back
call_back-emits e w more =
    let some_left = ne→== e.callbacks 0 (λ k. omega (arith, k, more)) in
    let started = record e { callbacks = e.callbacks - 1 } in
    let (once, ended) =
      emit_end-IsOnce started (silent-IsOnce e started w refl (λ k. k) (λ k. k)) in
    let (_, closed, same) = emit_close-IsOnce (emit_end started) once in
    rw (some_left, call_back) (same ∙ ended, closed)

fresh-IsOnce : (s : Stream) → IsOnce (new_ending s)
unfolding new_ending ends_in closes_in
fresh-IsOnce s = record {
  ends = omega arith;
  no_end = λ h. refl;
  closes = omega arith;
  no_close = λ h. refl;
}

-- However often and in whatever order a stream is ended and destroyed, its waits end, its callbacks run
-- and Node emits events of its own: the stream's code emits 'end' at most once and 'close' at most
-- once, and either no callback is to come, or behind the next one both have been emitted.
pub run_steps-once :
    (steps : List EndingStep) (s : Stream)
    → (let e = run_steps steps (new_ending s) in
        (ends_in e.emitted ≤ 1)
        × (closes_in e.emitted ≤ 1)
        × ((e.callbacks ≡ 0)
            ⊎ (((call_back e).emitted_end ≡ true) × ((call_back e).emitted_close ≡ true))))
run_steps-once steps s =
    let e = run_steps steps (new_ending s) in
    let w = run_steps-IsOnce steps (new_ending s) (fresh-IsOnce s) in
    (
      w.ends,
      w.closes,
      elim (Bool-cases (leb 1 e.callbacks)) [
        | inl more ↦ inr (call_back-emits e w (omega (arith, leb→le 1 e.callbacks more)))
        | inr nothing ↦ inl (omega (arith, leb→gt 1 e.callbacks nothing))
      ],
    )
