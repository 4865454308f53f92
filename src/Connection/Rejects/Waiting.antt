-- ===== src/Connection/Rejects/Waiting.antt =====
-- How long a connection waits after temporary errors.
use ilp_protocol_stream.Base.{
  ℕ, zero, suc, ◌*◌, ◌≡◌, refl, min, List, [], ◌∷◌, Option, some, true, false, Bool-cases, inl, inr,
  All, length, Result, ok, ◌>>=◌, arith,
}
use ilp_protocol_stream.Long.Interface.{LongApi, IsLong}
use ilp_protocol_stream.Oer.{OerApi}
use ilp_protocol_stream.Congestion.{CongestionController}
use ilp_protocol_stream.Congestion.Reducing.{on_insufficient_liquidity_error_lem}
use ilp_protocol_stream.Connection.{Connection, retry_delay_max}
use ilp_protocol_stream.Connection.Rejects.{
  Reject, same_code, t04, f08, is_temporary, wait, handle_temporary, handle_connector_error,
}

not_f08 : (code : List ℕ) → is_temporary code ≡ true → same_code code f08 ≡ false
unfolding is_temporary same_code
not_f08 [] h = refl
not_f08 (x ∷ xs) h = ground (arith, h)

module _ ⦃api : LongApi⦄ ⦃oer : OerApi⦄ where
  handle_temporary_lem :
      (reject : Reject) (amount_sent : ℕ) (c : Connection)
      → IsLong c.congestion.test_maximum_packet_amount
      → (congestion : CongestionController) × (handle_temporary reject amount_sent c
          ≡ ok (wait (record c { congestion = congestion })))
        × IsLong congestion.test_maximum_packet_amount
  unfolding handle_temporary wait
  handle_temporary_lem reject amount_sent c h = elim (Bool-cases (same_code reject.code t04)) [
    | inl t ↦
        let (size, e, bound) = on_insufficient_liquidity_error_lem amount_sent c.congestion h in
        (
          record c.congestion { test_maximum_packet_amount = size },
          rw (t, e),
          ground (arith, bound),
        )
    | inr f ↦ (c.congestion, rw f, h)
  ]

  -- A temporary error never throws: the call waits for the delay, and the next delay is the double of
  -- it, up to 12 hours; only the congestion of the connection changes besides.
  pub handle_connector_error-temporary :
      (reject : Reject) (amount_sent : ℕ) (c : Connection)
      → is_temporary reject.code ≡ true
      → IsLong c.congestion.test_maximum_packet_amount
      → (congestion : CongestionController) × (handle_connector_error reject amount_sent c
          ≡ ok (record {
            connection = record c {
              congestion = congestion;
              retry_delay = min (c.retry_delay * 2) retry_delay_max;
            };
            delay = some c.retry_delay;
          }))
        × IsLong congestion.test_maximum_packet_amount
  unfolding handle_connector_error wait
  handle_connector_error-temporary reject amount_sent c t h =
      let (congestion, e, bound) = handle_temporary_lem reject amount_sent c h in
      (congestion, rw (not_f08 reject.code t, t, e), bound)

  -- A series of temporary errors: the delays that it waits, and the connection behind it.
  pub handle_errors : List (Reject × ℕ) → Connection → Result (List (Option ℕ) × Connection)
  handle_errors [] c = ok ([], c)
  handle_errors ((reject, amount_sent) ∷ rest) c = do
    handled ← handle_connector_error reject amount_sent c
    (delays, last) ← handle_errors rest handled.connection
    ok (handled.delay ∷ delays, last)

  abbrev pub delays_from : ℕ → ℕ → List (Option ℕ)
  delays_from zero d = []
  delays_from (suc n) d = some d ∷ delays_from n (min (d * 2) retry_delay_max)

  -- Where the size to be tried is a Long, a series of temporary errors, whatever their codes and
  -- amounts, is waited for with delays that double from the connection's delay up to 12 hours, and
  -- none of them throws.
  pub handle_errors-delays :
      (errors : List (Reject × ℕ)) (c : Connection)
      → All (λ e. is_temporary e.0.code ≡ true) errors
      → IsLong c.congestion.test_maximum_packet_amount
      → (last : Connection) × (handle_errors errors c
          ≡ ok (delays_from (length errors) c.retry_delay, last))
  unfolding handle_errors
  handle_errors-delays [] c t h = (c, refl)
  handle_errors-delays ((reject, amount_sent) ∷ rest) c (t, ts) h =
      let (congestion, e, bound) = handle_connector_error-temporary reject amount_sent c t h in
      let next = record c {
        congestion = congestion;
        retry_delay = min (c.retry_delay * 2) retry_delay_max;
      } in
      let (last, es) = handle_errors-delays rest next ts bound in (last, rw (e, es))
