-- ===== src/Connection/SendLoop/Single.antt =====
-- Of all the calls of the send loop, at most one is under way.
use ilp_protocol_stream.Base.{
  ℕ, zero, suc, ◌≡◌, refl, subst, ap, ◌∙◌, ◌⊎◌, inl, inr, Bool-cases, List, [], ◌∷◌, Option, none,
  some, true, false, Result, ok, throw,
}
use ilp_protocol_stream.Long.Interface.{LongApi}
use ilp_protocol_stream.Oer.{Bytes, OerApi}
use ilp_protocol_stream.Crypto.{CryptoApi}
use ilp_protocol_stream.Packet.{Frame}
use ilp_protocol_stream.Connection.{Connection}
use ilp_protocol_stream.Connection.Filling.{Buffers, Prepared, nothing, packet, load_packet}
use ilp_protocol_stream.Connection.Control.{
  Effect, emit_connect, end_connection, destroy_connection, start_send_loop, end_stream,
  destroy_stream, push_data, handle_control_frames,
}
use ilp_protocol_stream.Connection.Responses.{Response}
use ilp_protocol_stream.Connection.Discovery.{NumberApi}
use ilp_protocol_stream.Connection.Discovery.Rates.{Network}
use ilp_protocol_stream.Connection.SendLoop.{
  Run, discovering, scheduled, in_flight, SendLoop, new_loop, refuses_start, next_run, nth, set_nth,
  drop_nth, start_loop, continue_loop, fail_loop, perform, end_turn, load_turn, discover, respond,
  Event, starts, ends, acts, receives, ticks, discovers, responds, tick, tell_rate, tell_response,
  numbers, closes, handle_frames, run_event, run_events,
}

-- The call under way, where the flag says that there is one.
abbrev pub IsBusy : Run → SendLoop → Type 0
IsBusy r s = (s.is_looping ≡ true) × (s.runs ≡ r ∷ [])

-- One call is under way and the flag says so, or none is and the flag says so.
abbrev pub IsSingle : SendLoop → Type 0
IsSingle s = ((r : Run) × IsBusy r s) ⊎ ((s.is_looping ≡ false) × (s.runs ≡ []))

-- The only call is the first.
pub single-nth :
    (n : ℕ) (r : Run) (s : SendLoop) → IsSingle s → nth n s.runs ≡ some r → (0 ≡ n) × IsBusy r s
unfolding nth
single-nth n r s (inr (quiet, empty)) e =
    absurd (let none_there : none ≡ some r = rw empty at e in cc)
single-nth zero r s (inl (q, (busy, runs))) e =
    let same : q ≡ r = cc in (refl, (busy, runs ∙ ap (λ x. x ∷ []) same))
single-nth (suc n) r s (inl (q, (busy, runs))) e =
    absurd (let none_there : none ≡ some r = rw runs at e in cc)

pub start_loop-IsBusy : (r : Run) (s : SendLoop) → IsBusy r s → IsBusy r (start_loop s)
unfolding start_loop
start_loop-IsBusy r s (busy, runs) = rw (busy, start_loop) (refl, runs)

start_loop-IsSingle : (s : SendLoop) → IsSingle s → IsSingle (start_loop s)
unfolding start_loop
start_loop-IsSingle s (inl (r, b)) = inl (r, start_loop-IsBusy r s b)
start_loop-IsSingle s (inr (quiet, empty)) = elim (Bool-cases (refuses_start s.connection)) [
  | inl h ↦ rw (quiet, start_loop, h) (inr (refl, empty))
  | inr h ↦ rw (quiet, start_loop, h, empty) (inl (next_run s.connection, (refl, refl)))
]

pub perform-IsBusy :
    (r : Run) (effects : List Effect) (s : SendLoop) → IsBusy r s → IsBusy r (perform effects s)
unfolding perform
perform-IsBusy r [] s b = b
perform-IsBusy r (start_send_loop ∷ rest) s b = perform-IsBusy r rest _ (start_loop-IsBusy r s b)
perform-IsBusy r (emit_connect ∷ rest) s b = perform-IsBusy r rest s b
perform-IsBusy r (end_connection ∷ rest) s b = perform-IsBusy r rest s b
perform-IsBusy r (destroy_connection ∷ rest) s b = perform-IsBusy r rest s b
perform-IsBusy r (end_stream i ∷ rest) s b = perform-IsBusy r rest s b
perform-IsBusy r (destroy_stream i ∷ rest) s b = perform-IsBusy r rest s b
perform-IsBusy r (push_data i bytes ∷ rest) s b = perform-IsBusy r rest s b

perform-IsSingle :
    (effects : List Effect) (s : SendLoop) → IsSingle s → IsSingle (perform effects s)
unfolding perform
perform-IsSingle [] s h = h
perform-IsSingle (start_send_loop ∷ rest) s h = perform-IsSingle rest _ (start_loop-IsSingle s h)
perform-IsSingle (emit_connect ∷ rest) s h = perform-IsSingle rest s h
perform-IsSingle (end_connection ∷ rest) s h = perform-IsSingle rest s h
perform-IsSingle (destroy_connection ∷ rest) s h = perform-IsSingle rest s h
perform-IsSingle (end_stream i ∷ rest) s h = perform-IsSingle rest s h
perform-IsSingle (destroy_stream i ∷ rest) s h = perform-IsSingle rest s h
perform-IsSingle (push_data i bytes ∷ rest) s h = perform-IsSingle rest s h

fail_loop-IsSingle : (r : Run) (s : SendLoop) → IsBusy r s → IsSingle (fail_loop 0 s)
unfolding fail_loop drop_nth
fail_loop-IsSingle r s (busy, runs) = inr (refl, rw (runs, drop_nth))

continue_loop-IsSingle : (r : Run) (s : SendLoop) → IsBusy r s → IsSingle (continue_loop 0 s)
unfolding continue_loop set_nth drop_nth
continue_loop-IsSingle r s (busy, runs) = elim (Bool-cases s.connection.sending) [
  | inl h ↦ rw (h, continue_loop) (inl (next_run s.connection, (busy, rw (runs, set_nth))))
  | inr h ↦ rw (h, continue_loop) (inr (refl, rw (runs, drop_nth)))
]

end_turn-IsSingle :
    (r : Run) (result : Result (Connection × List Effect)) (s : SendLoop)
    → IsBusy r s
    → IsSingle (end_turn 0 result s)
unfolding end_turn
end_turn-IsSingle r (throw e) s b = fail_loop-IsSingle r s b
end_turn-IsSingle r (ok (c, effects)) s b =
    let t = perform effects (record s { connection = c }) in
    continue_loop-IsSingle r t (perform-IsBusy r effects (record s { connection = c }) b)

module _ ⦃api : LongApi⦄ ⦃oer : OerApi⦄ where
  load_turn-IsSingle :
      (r : Run) (result : Result Prepared) (s : SendLoop)
      → IsBusy r s
      → IsSingle (load_turn 0 result s)
  unfolding load_turn set_nth
  load_turn-IsSingle r (throw e) s b = fail_loop-IsSingle r s b
  load_turn-IsSingle r (ok (nothing c)) s b =
      continue_loop-IsSingle r (record s { connection = c }) b
  load_turn-IsSingle r (ok (packet p amount sent_from called c)) s (busy, runs) =
      inl (in_flight p amount sent_from, (busy, rw (runs, set_nth)))

module _ ⦃api : LongApi⦄ ⦃oer : OerApi⦄ ⦃crypto : CryptoApi⦄ ⦃number : NumberApi⦄
    (buffers : Buffers) (psk_key : Bytes) (precision : ℕ) where
  -- A turn of a call ends as a turn of the only call.
  abbrev Turn : (ℕ → SendLoop → SendLoop) → Run → Type 0
  Turn f r = (s : SendLoop) → IsBusy r s → IsSingle (f 0 s)

  turn-IsSingle :
      (f : ℕ → SendLoop → SendLoop) (n : ℕ) (r : Run) (s : SendLoop)
      → Turn f r
      → IsSingle s
      → nth n s.runs ≡ some r
      → IsSingle (f n s)
  turn-IsSingle f n r s turn h e =
      let (first, b) = single-nth n r s h e in subst (λ k. IsSingle (f k s)) first (turn s b)

  tick-IsSingle :
      (n : ℕ) (o : Option Run) (s : SendLoop)
      → nth n s.runs ≡ o
      → IsSingle s
      → IsSingle (tick buffers psk_key precision n o s)
  unfolding tick
  tick-IsSingle n none s e h = h
  tick-IsSingle n (some discovering) s e h = h
  tick-IsSingle n (some scheduled) s e h =
      turn-IsSingle (λ k t. load_turn k (load_packet buffers t.connection) t) n scheduled s
        (λ t b. load_turn-IsSingle scheduled (load_packet buffers t.connection) t b) h e
  tick-IsSingle n (some (in_flight p amount sent_from)) s e h = h

  tell_rate-IsSingle :
      (n : ℕ) (network : Network) (o : Option Run) (s : SendLoop)
      → nth n s.runs ≡ o
      → IsSingle s
      → IsSingle (tell_rate buffers psk_key precision n network o s)
  unfolding tell_rate
  tell_rate-IsSingle n network none s e h = h
  tell_rate-IsSingle n network (some scheduled) s e h = h
  tell_rate-IsSingle n network (some discovering) s e h =
      turn-IsSingle (λ k t. end_turn k (discover buffers psk_key network precision t.connection) t)
        n discovering s
        (λ t b.
          end_turn-IsSingle discovering (discover buffers psk_key network precision t.connection) t
            b)
        h e
  tell_rate-IsSingle n network (some (in_flight p amount sent_from)) s e h = h

  tell_response-IsSingle :
      (n : ℕ) (condition : Bytes) (response : Response) (o : Option Run) (s : SendLoop)
      → nth n s.runs ≡ o
      → IsSingle s
      → IsSingle (tell_response buffers psk_key precision n condition response o s)
  unfolding tell_response
  tell_response-IsSingle n condition response none s e h = h
  tell_response-IsSingle n condition response (some scheduled) s e h = h
  tell_response-IsSingle n condition response (some discovering) s e h = h
  tell_response-IsSingle n condition response (some (in_flight p amount sent_from)) s e h =
      turn-IsSingle
        (λ k t.
          end_turn k (respond buffers psk_key p amount sent_from condition response t.connection) t)
        n (in_flight p amount sent_from) s
        (λ t b.
          end_turn-IsSingle (in_flight p amount sent_from)
            (respond buffers psk_key p amount sent_from condition response t.connection) t b)
        h e

  handle_frames-IsSingle :
      (frames : List Frame) (s : SendLoop)
      → IsSingle s
      → IsSingle (handle_frames buffers psk_key precision frames s)
  unfolding handle_frames
  handle_frames-IsSingle [] s h = h
  handle_frames-IsSingle (frame ∷ rest) s h =
      let controlled = handle_control_frames buffers (frame ∷ []) s.connection in
      handle_frames-IsSingle rest _
        (perform-IsSingle controlled.effects (record s { connection = controlled.connection }) h)

  pub run_event-IsSingle :
      (e : Event) (s : SendLoop) → IsSingle s → IsSingle (run_event buffers psk_key precision e s)
  unfolding run_event
  run_event-IsSingle starts s h = start_loop-IsSingle s h
  run_event-IsSingle ends s h = h
  run_event-IsSingle (acts streams) s h = h
  run_event-IsSingle numbers s h = h
  run_event-IsSingle closes s h = h
  run_event-IsSingle (receives frames) s h = handle_frames-IsSingle frames s h
  run_event-IsSingle (ticks n) s h = tick-IsSingle n (nth n s.runs) s refl h
  run_event-IsSingle (discovers n network) s h =
      tell_rate-IsSingle n network (nth n s.runs) s refl h
  run_event-IsSingle (responds n condition response) s h =
      tell_response-IsSingle n condition response (nth n s.runs) s refl h

  run_events-keeps_IsSingle :
      (es : List Event) (s : SendLoop)
      → IsSingle s
      → IsSingle (run_events buffers psk_key precision es s)
  unfolding run_events
  run_events-keeps_IsSingle [] s h = h
  run_events-keeps_IsSingle (e ∷ es) s h = run_events-keeps_IsSingle es _ (run_event-IsSingle e s h)

  -- Whatever happens to a new connection, in any order: at most one call of the send loop is under
  -- way, which waits for the exchange rate, for the next turn, or for what becomes of the one packet
  -- that it has loaded; and `looping` tells exactly whether there is one. The test packets of a
  -- discovery and the packet that tells the end of the connection are not among these packets.
  pub run_events-IsSingle :
      (es : List Event) (c : Connection)
      → IsSingle (run_events buffers psk_key precision es (new_loop c))
  unfolding new_loop
  run_events-IsSingle es c = run_events-keeps_IsSingle es (new_loop c) (inr (refl, refl))
