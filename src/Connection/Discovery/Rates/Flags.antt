-- ===== src/Connection/Discovery/Rates/Flags.antt =====
-- What the discovery of an exchange rate leaves of the flags that the send loop reads, and of streams.
use ilp_protocol_stream.Base.{
  sym, ℕ, zero, suc, ◌+◌, ◌==◌, leb, ◌≡◌, refl, subst, inl, inr, Bool-cases, Option-cases, List, [],
  ◌∷◌, ◌++◌, Option, none, some, true, lookup, ok, >>=-eq-ok, ok-inj,
}
use ilp_protocol_stream.Long.Interface.{LongApi}
use ilp_protocol_stream.Oer.{Bytes, OerApi}
use ilp_protocol_stream.Crypto.{CryptoApi}
use ilp_protocol_stream.Packet.{Packet}
use ilp_protocol_stream.Congestion.{maximum_packet_amount, set_maximum_amounts}
use ilp_protocol_stream.Connection.{Connection}
use ilp_protocol_stream.Connection.Control.Flags.{
  Steady, Steady-trans, Steady-fields, Steady-self, handle_control_frames-Steady,
}
use ilp_protocol_stream.Connection.Filling.{Buffers}
use ilp_protocol_stream.Connection.Responses.{Response}
use ilp_protocol_stream.Connection.Discovery.{
  NumberApi, TestResult, no_response, rejected, answered, handle_test_result, Arrived, arrive,
  arrive_all, finish_test_packet, start_volley, Volley, send_test_packet_volley,
}
use ilp_protocol_stream.Connection.Discovery.Volleys.{start_volley-numbers}
use ilp_protocol_stream.Connection.Discovery.Rates.{
  no_best, find_best, lowest, max_packet_amounts, set_maximum, next_amounts, wait_for, Network,
  Search, determine_loop, determine_from, first_amounts, max_attempts, setup_exchange_rate,
}

module _ ⦃api : LongApi⦄ where
  pub handle_test_result-Steady :
      (buffers : Buffers) (c : Connection) (result : TestResult)
      → Steady c (handle_test_result buffers c result).connection
  unfolding handle_test_result
  handle_test_result-Steady buffers c (answered response) =
      Steady-trans (Steady-fields refl refl refl refl refl refl refl) (
        handle_control_frames-Steady buffers response.frames
          (record c { remote_knows_our_account = true }))
  handle_test_result-Steady buffers c no_response = Steady-self c
  handle_test_result-Steady buffers c (rejected r) = Steady-self c

module _ ⦃api : LongApi⦄ ⦃oer : OerApi⦄ ⦃crypto : CryptoApi⦄ where
  arrive-Steady :
      (buffers : Buffers) (psk_key : Bytes) (p : Option Packet) (response : Response)
      (a b : Arrived)
      → arrive buffers psk_key p response a ≡ ok b
      → Steady a.connection b.connection
  unfolding arrive
  arrive-Steady buffers psk_key none response a b e =
      subst (λ x. Steady a.connection x.connection) (ok-inj e) (Steady-self a.connection)
  arrive-Steady buffers psk_key (some p) response a b e =
      let (result, first, rest) = >>=-eq-ok (finish_test_packet psk_key p response) _ e in
      subst (λ x. Steady a.connection x.connection) (ok-inj rest)
        (handle_test_result-Steady buffers a.connection result)

  arrive_all-Steady :
      (buffers : Buffers) (psk_key : Bytes) (sent : List (ℕ × Packet))
      (arrivals : List (ℕ × Response)) (a b : Arrived)
      → arrive_all buffers psk_key sent arrivals a ≡ ok b
      → Steady a.connection b.connection
  unfolding arrive_all
  arrive_all-Steady buffers psk_key sent [] a b e =
      subst (λ x. Steady a.connection x.connection) (ok-inj e) (Steady-self a.connection)
  arrive_all-Steady buffers psk_key sent ((sequence, response) ∷ others) a b e =
      let (m, first, rest) =
        >>=-eq-ok (arrive buffers psk_key (lookup sequence sent) response a) _ e in
      Steady-trans (arrive-Steady buffers psk_key (lookup sequence sent) response a m first)
        (arrive_all-Steady buffers psk_key sent others m b rest)

  volley-Steady :
      (buffers : Buffers) (psk_key : Bytes) (amounts : List ℕ) (arrivals : List (ℕ × Response))
      (c : Connection) (v : Volley)
      → send_test_packet_volley buffers psk_key amounts arrivals c ≡ ok v
      → Steady c v.connection
  unfolding send_test_packet_volley
  volley-Steady buffers psk_key amounts arrivals c v e =
      let ((sent, d), first, more) = >>=-eq-ok (start_volley amounts c) _ e in
      let start : Arrived = record { results = []; connection = d; effects = [] } in
      let (a, second, last) = >>=-eq-ok (arrive_all buffers psk_key sent arrivals start) _ more in
      let numbers = start_volley-numbers amounts c d sent first in
      let started : Steady c d =
        subst (Steady c) (sym numbers) (Steady-fields refl refl refl refl refl refl refl) in
      subst (λ x. Steady c x.connection) (ok-inj last)
        (Steady-trans started (arrive_all-Steady buffers psk_key sent arrivals start a second))

module _ ⦃api : LongApi⦄ ⦃oer : OerApi⦄ ⦃number : NumberApi⦄ where
  set_maximum-Steady :
      (tests : List (ℕ × TestResult)) (c d : Connection) → set_maximum tests c ≡ ok d → Steady c d
  unfolding set_maximum
  set_maximum-Steady tests c d e =
      let m = lowest (max_packet_amounts tests) (maximum_packet_amount c.congestion) in
      let s = set_maximum_amounts m c.congestion in
      elim (Bool-cases (maximum_packet_amount s == 0)) [
        | inl blocked ↦ absurd (cc)
        | inr open_path ↦
            let same : record c { congestion = s } ≡ d = cc in
            subst (Steady c) same (Steady-fields refl refl refl refl refl refl refl)
      ]

module _ ⦃api : LongApi⦄ ⦃oer : OerApi⦄ ⦃crypto : CryptoApi⦄ ⦃number : NumberApi⦄
    (buffers : Buffers) (psk_key : Bytes) (network : Network) (precision : ℕ) where
  determine_loop-Steady :
      (left attempt : ℕ) (amounts : List ℕ) (s r : Search)
      → determine_loop buffers psk_key network precision left attempt amounts s ≡ ok r
      → Steady s.connection r.connection
  unfolding determine_loop
  determine_loop-Steady zero attempt amounts s r e = cc
  determine_loop-Steady (suc left) attempt [] s r e = cc
  determine_loop-Steady (suc left) attempt (amount ∷ rest) s r e =
      let amounts = amount ∷ rest in
      let arrivals = network.arrivals attempt in
      let (v, e1, f1) =
        >>=-eq-ok (send_test_packet_volley buffers psk_key amounts arrivals s.connection) _ e in
      let (best, e2, f2) = >>=-eq-ok (find_best v.tests no_best) _ f1 in
      let (c, e3, f3) = >>=-eq-ok (set_maximum v.tests v.connection) _ f2 in
      let tested =
        Steady-trans (volley-Steady buffers psk_key amounts arrivals s.connection v e1)
          (set_maximum-Steady v.tests v.connection c e3) in
      elim (Bool-cases (leb precision best.max_digits)) [
        | inl enough ↦
            subst (λ x. Steady s.connection x.connection) (ok-inj (rw enough at f3))
              (Steady-trans tested (Steady-fields refl refl refl refl refl refl refl))
        | inr coarse ↦
            let (next, e4, f4) =
              >>=-eq-ok (next_amounts best.packet_errors (max_packet_amounts v.tests)) _
                (rw coarse at f3) in
            let (waited, e5, f5) =
              >>=-eq-ok (wait_for (network.is_stopped attempt) best.packet_errors) _ f4 in
            let later : Search = record { connection = c; effects = s.effects ++ v.effects } in
            Steady-trans tested (determine_loop-Steady left (attempt + 1) next later r f5)
      ]

  determine_from-Steady :
      (account : Option Bytes) (c : Connection) (r : Search)
      → determine_from buffers psk_key network precision account c ≡ ok r
      → Steady c r.connection
  unfolding determine_from
  determine_from-Steady none c r e = cc
  determine_from-Steady (some account) c r e =
      determine_loop-Steady max_attempts 1 first_amounts (record { connection = c; effects = [] }) r
        e

  pub setup_exchange_rate-Steady :
      (c : Connection) (r : Search)
      → setup_exchange_rate buffers psk_key network precision c ≡ ok r
      → Steady c r.connection
  unfolding setup_exchange_rate
  setup_exchange_rate-Steady c r e = elim (Option-cases c.exchange_rate) [
    | inl unknown ↦
        determine_from-Steady c.destination_account c r (rw (unknown, setup_exchange_rate) at e)
    | inr (rate, known) ↦
        subst (λ x. Steady c x.connection) (ok-inj (rw (known, setup_exchange_rate) at e))
          (Steady-self c)
  ]
