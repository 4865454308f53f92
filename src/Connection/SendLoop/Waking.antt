-- ===== src/Connection/SendLoop/Waking.antt =====
-- A start of the send loop is never lost: the loop does not end before it has loaded another packet.
use ilp_protocol_stream.Base.{
  ℕ, ◌≡◌, refl, subst, ◌⊎◌, inl, inr, List, [], ◌∷◌, All, Option, none, some, true, false, Result,
  >>=-eq-ok, ok-inj,
}
use ilp_protocol_stream.Long.Interface.{LongApi}
use ilp_protocol_stream.Oer.{Bytes, OerApi}
use ilp_protocol_stream.Crypto.{CryptoApi}
use ilp_protocol_stream.Packet.{Frame}
use ilp_protocol_stream.Connection.{Connection, RemoteState}
use ilp_protocol_stream.Connection.Filling.{Buffers}
use ilp_protocol_stream.Connection.Control.{Effect, handle_control_frames}
use ilp_protocol_stream.Connection.Control.Flags.{
  Steady, Steady-trans, Steady-fields, handle_control_frames-Steady,
}
use ilp_protocol_stream.Connection.Responses.{Response}
use ilp_protocol_stream.Connection.Discovery.{NumberApi}
use ilp_protocol_stream.Connection.Discovery.Rates.{Network, setup_exchange_rate}
use ilp_protocol_stream.Connection.Discovery.Rates.Flags.{setup_exchange_rate-Steady}
use ilp_protocol_stream.Connection.Streams.Same.{SameIds-fields}
use ilp_protocol_stream.Connection.SendLoop.{
  Run, discovering, scheduled, in_flight, SendLoop, new_loop, refuses_start, next_run, nth,
  start_loop, end_turn, discover, respond, Event, starts, ends, acts, receives, ticks, discovers,
  responds, numbers, closes, tell_rate, tell_response, handle_frames, run_event, run_events,
}
use ilp_protocol_stream.Connection.SendLoop.Single.{
  IsSingle, single-nth, run_event-IsSingle, run_events-IsSingle,
}
use ilp_protocol_stream.Connection.SendLoop.Turns.{
  WillLoad, start_loop-WillLoad, perform-WillLoad, replace-WillLoad, Turned, end_turn-WillLoad,
  respond-Turned,
}

-- Every event but the loading of a packet.
abbrev pub IsNoTick : Event → Type 0
IsNoTick (ticks n) = ⊥
IsNoTick starts = Unit {0}
IsNoTick ends = Unit {0}
IsNoTick numbers = Unit {0}
IsNoTick closes = Unit {0}
IsNoTick (acts streams) = Unit {0}
IsNoTick (receives frames) = Unit {0}
IsNoTick (discovers n network) = Unit {0}
IsNoTick (responds n condition response) = Unit {0}

module _ ⦃api : LongApi⦄ ⦃oer : OerApi⦄ ⦃crypto : CryptoApi⦄ ⦃number : NumberApi⦄
    (buffers : Buffers) (psk_key : Bytes) (precision : ℕ) where
  discover-Turned :
      (network : Network) (c : Connection) → Turned c (discover buffers psk_key network precision c)
  unfolding discover
  discover-Turned network c r e =
      let (found, first, last) =
        >>=-eq-ok (setup_exchange_rate buffers psk_key network precision c) _ e in
      subst (λ x. Steady c x.0) (ok-inj last)
        (Steady-trans (setup_exchange_rate-Steady buffers psk_key network precision c found first)
          (Steady-fields refl refl refl refl refl refl refl))

  turn-WillLoad :
      (result : Connection → Result (Connection × List Effect)) (n : ℕ) (r : Run) (s : SendLoop)
      → Turned s.connection (result s.connection)
      → nth n s.runs ≡ some r
      → IsSingle s
      → WillLoad s
      → WillLoad (end_turn n (result s.connection) s)
  turn-WillLoad result n r s w e single h =
      let (first, b) = single-nth n r s single e in
      subst (λ k. WillLoad (end_turn k (result s.connection) s)) first
        (end_turn-WillLoad r (result s.connection) s w b h)

  tell_rate-WillLoad :
      (n : ℕ) (network : Network) (o : Option Run) (s : SendLoop)
      → nth n s.runs ≡ o
      → IsSingle s
      → WillLoad s
      → WillLoad (tell_rate buffers psk_key precision n network o s)
  unfolding tell_rate
  tell_rate-WillLoad n network none s e single h = h
  tell_rate-WillLoad n network (some scheduled) s e single h = h
  tell_rate-WillLoad n network (some discovering) s e single h =
      turn-WillLoad (discover buffers psk_key network precision) n discovering s
        (discover-Turned network s.connection) e single h
  tell_rate-WillLoad n network (some (in_flight p amount ids)) s e single h = h

  tell_response-WillLoad :
      (n : ℕ) (condition : Bytes) (response : Response) (o : Option Run) (s : SendLoop)
      → nth n s.runs ≡ o
      → IsSingle s
      → WillLoad s
      → WillLoad (tell_response buffers psk_key precision n condition response o s)
  unfolding tell_response
  tell_response-WillLoad n condition response none s e single h = h
  tell_response-WillLoad n condition response (some scheduled) s e single h = h
  tell_response-WillLoad n condition response (some discovering) s e single h = h
  tell_response-WillLoad n condition response (some (in_flight p amount ids)) s e single h =
      turn-WillLoad (respond buffers psk_key p amount ids condition response) n
        (in_flight p amount ids) s
        (respond-Turned buffers psk_key p amount ids condition response s.connection) e single h

  handle_frames-WillLoad :
      (frames : List Frame) (s : SendLoop)
      → WillLoad s
      → WillLoad (handle_frames buffers psk_key precision frames s)
  unfolding handle_frames
  handle_frames-WillLoad [] s h = h
  handle_frames-WillLoad (frame ∷ rest) s h =
      let controlled = handle_control_frames buffers (frame ∷ []) s.connection in
      let w = handle_control_frames-Steady buffers (frame ∷ []) s.connection in
      handle_frames-WillLoad rest _ (
        perform-WillLoad controlled.effects (record s { connection = controlled.connection })
          (replace-WillLoad controlled.connection s w h))

  closed-Steady : (c : Connection) → Steady c (record c { remote_state = RemoteState.closed })
  closed-Steady c = record {
    ids = SameIds-fields refl refl refl refl refl;
    awake = λ a. inr refl;
    closed = λ h. refl;
  }

  run_event-WillLoad :
      (e : Event) (s : SendLoop)
      → IsNoTick e
      → IsSingle s
      → WillLoad s
      → WillLoad (run_event buffers psk_key precision e s)
  unfolding run_event
  run_event-WillLoad starts s other single h = start_loop-WillLoad s h
  run_event-WillLoad ends s other single h = h
  run_event-WillLoad (acts streams) s other single h = h
  run_event-WillLoad numbers s other single h = h
  run_event-WillLoad closes s other single h =
      replace-WillLoad (record s.connection { remote_state = RemoteState.closed }) s
        (closed-Steady s.connection) h
  run_event-WillLoad (receives frames) s other single h = handle_frames-WillLoad frames s h
  run_event-WillLoad (ticks n) s other single h = absurd other
  run_event-WillLoad (discovers n network) s other single h =
      tell_rate-WillLoad n network (nth n s.runs) s refl single h
  run_event-WillLoad (responds n condition response) s other single h =
      tell_response-WillLoad n condition response (nth n s.runs) s refl single h

  run_events-keeps_WillLoad :
      (es : List Event) (s : SendLoop)
      → All IsNoTick es
      → IsSingle s
      → WillLoad s
      → WillLoad (run_events buffers psk_key precision es s)
  unfolding run_events
  run_events-keeps_WillLoad [] s other single h = h
  run_events-keeps_WillLoad (e ∷ es) s (first, others) single h =
      run_events-keeps_WillLoad es _ others
        (run_event-IsSingle buffers psk_key precision e s single)
        (run_event-WillLoad e s first single h)

  started-WillLoad :
      (s : SendLoop)
      → IsSingle s
      → (s.is_looping ≡ true) ⊎ (refuses_start s.connection ≡ false)
      → WillLoad (start_loop s)
  unfolding start_loop
  started-WillLoad s (inl (r, (busy, runs))) able =
      rw (busy, start_loop) (inr (inr (refl, (r, (refl, runs)))))
  started-WillLoad s (inr (quiet, empty)) (inl busy) = absurd (cc)
  started-WillLoad s (inr (quiet, empty)) (inr open_peer) =
      rw (quiet, start_loop, open_peer, empty)
        (inr (inr (refl, (next_run s.connection, (refl, refl)))))

  -- Whatever has happened to a connection: where the send loop is started while it runs, or while the
  -- peer is known and open, and then anything happens but the loading of a packet, the loop is still
  -- running and goes on, unless it has destroyed the connection in an error or the peer is closed.
  pub run_events-WillLoad :
      (es later : List Event) (c : Connection)
      → ((run_events buffers psk_key precision es (new_loop c)).is_looping ≡ true)
        ⊎ (refuses_start (run_events buffers psk_key precision es (new_loop c)).connection ≡ false)
      → All IsNoTick later
      → WillLoad (
          run_events buffers psk_key precision later
            (start_loop (run_events buffers psk_key precision es (new_loop c))))
  unfolding run_event
  run_events-WillLoad es later c able others =
      let s = run_events buffers psk_key precision es (new_loop c) in
      let single = run_events-IsSingle buffers psk_key precision es c in
      run_events-keeps_WillLoad later (start_loop s) others
        (run_event-IsSingle buffers psk_key precision starts s single)
        (started-WillLoad s single able)
