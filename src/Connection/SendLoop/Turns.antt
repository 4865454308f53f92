-- ===== src/Connection/SendLoop/Turns.antt =====
-- A turn of the send loop, and what the peer makes start it, keep it going.
use ilp_protocol_stream.Base.{
  ℕ, ◌≡◌, refl, subst, ◌⊎◌, inl, inr, Bool-cases, List, [], ◌∷◌, Option, none, some, true, Result,
  ok, throw, >>=-eq-ok, ok-inj,
}
use ilp_protocol_stream.Long.Interface.{LongApi}
use ilp_protocol_stream.Oer.{Bytes, OerApi}
use ilp_protocol_stream.Crypto.{CryptoApi}
use ilp_protocol_stream.Packet.{Packet}
use ilp_protocol_stream.Connection.{Connection}
use ilp_protocol_stream.Connection.Filling.{Buffers}
use ilp_protocol_stream.Connection.Control.{
  Effect, emit_connect, end_connection, destroy_connection, start_send_loop, end_stream,
  destroy_stream, push_data,
}
use ilp_protocol_stream.Connection.Control.Flags.{IsClosed, Steady, Steady-trans, Steady-self}
use ilp_protocol_stream.Connection.Responses.{Response, handle_response}
use ilp_protocol_stream.Connection.Responses.Flags.{handle_response-Steady, finish_response-Steady}
use ilp_protocol_stream.Connection.SendLoop.{
  Run, SendLoop, refuses_start, next_run, set_nth, start_loop, continue_loop, fail_loop, perform,
  end_turn, finish_turn, respond,
}
use ilp_protocol_stream.Connection.SendLoop.Single.{IsBusy, perform-IsBusy}

-- The loop has destroyed the connection, or the peer has closed it, or the loop is running and goes on.
abbrev pub WillLoad : SendLoop → Type 0
WillLoad s =
    (s.is_destroyed ≡ true)
    ⊎ (IsClosed s.connection ⊎ ((s.connection.sending ≡ true) × ((r : Run) × IsBusy r s)))

pub start_loop-WillLoad : (s : SendLoop) → WillLoad s → WillLoad (start_loop s)
unfolding start_loop
start_loop-WillLoad s (inr (inr (sending, (r, (busy, runs))))) =
    rw (busy, start_loop) (inr (inr (refl, (r, (refl, runs)))))
start_loop-WillLoad s (inl h) = elim (Bool-cases s.is_looping) [
  | inl busy ↦ rw (busy, start_loop) (inl h)
  | inr quiet ↦ elim (Bool-cases (refuses_start s.connection)) [
    | inl shut ↦ rw (quiet, start_loop, shut) (inl h)
    | inr opens ↦ rw (quiet, start_loop, opens) (inl h)
  ]
]
start_loop-WillLoad s (inr (inl h)) = elim (Bool-cases s.is_looping) [
  | inl busy ↦ rw (busy, start_loop) (inr (inl h))
  | inr quiet ↦ elim (Bool-cases (refuses_start s.connection)) [
    | inl shut ↦ rw (quiet, start_loop, shut) (inr (inl h))
    | inr opens ↦ rw (quiet, start_loop, opens) (inr (inl h))
  ]
]

pub perform-WillLoad :
    (effects : List Effect) (s : SendLoop) → WillLoad s → WillLoad (perform effects s)
unfolding perform
perform-WillLoad [] s h = h
perform-WillLoad (start_send_loop ∷ rest) s h = perform-WillLoad rest _ (start_loop-WillLoad s h)
perform-WillLoad (emit_connect ∷ rest) s h = perform-WillLoad rest s h
perform-WillLoad (end_connection ∷ rest) s h = perform-WillLoad rest s h
perform-WillLoad (destroy_connection ∷ rest) s h = perform-WillLoad rest s h
perform-WillLoad (end_stream i ∷ rest) s h = perform-WillLoad rest s h
perform-WillLoad (destroy_stream i ∷ rest) s h = perform-WillLoad rest s h
perform-WillLoad (push_data i bytes ∷ rest) s h = perform-WillLoad rest s h

pub replace-WillLoad :
    (c : Connection) (s : SendLoop)
    → Steady s.connection c
    → WillLoad s
    → WillLoad (record s { connection = c })
replace-WillLoad c s w (inl h) = inl h
replace-WillLoad c s w (inr (inl h)) = inr (inl (w.closed h))
replace-WillLoad c s w (inr (inr (sending, busy))) = elim (w.awake (inl sending)) [
  | inl h ↦ inr (inr (h, busy))
  | inr h ↦ inr (inl h)
]

continue_loop-WillLoad :
    (r : Run) (s : SendLoop) → IsBusy r s → WillLoad s → WillLoad (continue_loop 0 s)
unfolding continue_loop set_nth
continue_loop-WillLoad r s (busy, runs) h = elim (Bool-cases s.connection.sending) [
  | inl goes_on ↦
      rw (goes_on, continue_loop)
        (inr (inr (refl, (next_run s.connection, (busy, rw (runs, set_nth))))))
  | inr ended ↦ elim h [
    | inl lost ↦ rw (ended, continue_loop) (inl lost)
    | inr (inl lost) ↦ rw (ended, continue_loop) (inr (inl lost))
    | inr (inr (goes_on, rest)) ↦ absurd (cc)
  ]
]

-- The result of a turn keeps the flags.
abbrev pub Turned : Connection → Result (Connection × List Effect) → Type 0
Turned c result = (r : Connection × List Effect) → result ≡ ok r → Steady c r.0

pub end_turn-WillLoad :
    (r : Run) (result : Result (Connection × List Effect)) (s : SendLoop)
    → Turned s.connection result
    → IsBusy r s
    → WillLoad s
    → WillLoad (end_turn 0 result s)
unfolding end_turn fail_loop
end_turn-WillLoad r (throw e) s w b h = inl refl
end_turn-WillLoad r (ok (c, effects)) s w b h =
    let t = record s { connection = c } in
    let replaced = replace-WillLoad c s (w (c, effects) refl) h in
    continue_loop-WillLoad r (perform effects t) (perform-IsBusy r effects t b)
      (perform-WillLoad effects t replaced)

module _ ⦃api : LongApi⦄ ⦃oer : OerApi⦄ ⦃crypto : CryptoApi⦄ where
  finish_turn-Turned :
      (buffers : Buffers) (p : Packet) (amount : ℕ) (ids : List ℕ) (response : Option Packet)
      (c : Connection)
      → Turned c (finish_turn buffers p amount ids response c)
  unfolding finish_turn
  finish_turn-Turned buffers p amount ids none c r e =
      subst (λ x. Steady c x.0) (ok-inj e) (Steady-self c)
  finish_turn-Turned buffers p amount ids (some response) c r e =
      finish_response-Steady buffers p.sequence ids amount response c r e

  pub respond-Turned :
      (buffers : Buffers) (psk_key : Bytes) (p : Packet) (amount : ℕ) (ids : List ℕ)
      (condition : Bytes) (response : Response) (c : Connection)
      → Turned c (respond buffers psk_key p amount ids condition response c)
  unfolding respond
  respond-Turned buffers psk_key p amount ids condition response c r e =
      let (sent, first, rest) =
        >>=-eq-ok (handle_response psk_key p amount condition response c) _ e in
      Steady-trans (handle_response-Steady psk_key p amount condition response c sent first)
        (finish_turn-Turned buffers p amount ids sent.response sent.connection r rest)
