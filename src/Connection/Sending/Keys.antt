-- ===== src/Connection/Sending/Keys.antt =====
-- Loading the money of a packet opens and closes no stream.
use ilp_protocol_stream.Base.{
  ℕ, ◌==◌, ◌≡◌, refl, subst, inl, inr, Bool-cases, List, [], ◌∷◌, Bool, true, false, lookup, Result,
  ok, >>=-eq-ok, ok-inj,
}
use ilp_protocol_stream.Long.Interface.{LongApi}
use ilp_protocol_stream.Rational.{Rational}
use ilp_protocol_stream.Stream.{Stream}
use ilp_protocol_stream.Connection.{Connection}
use ilp_protocol_stream.Connection.Streams.{has}
use ilp_protocol_stream.Connection.Streams.Same.{cons-known}
use ilp_protocol_stream.Connection.Sending.{
  Loaded, nothing_loaded, take_from_stream, total_after, left_after, load_streams,
  max_amount_from_first_stream, load_money,
}

-- The same keys.
abbrev Keys : List (ℕ × Stream) → List (ℕ × Stream) → Type 0
Keys xs ys = (k : ℕ) → has (lookup k xs) ≡ has (lookup k ys)

module _ ⦃api : LongApi⦄ where
  rest-Keys :
      (stop : Bool) (total left : ℕ) (rest : List (ℕ × Stream)) (next : Result Loaded) (m : Loaded)
      → ((n : Loaded) → next ≡ ok n → Keys n.streams rest)
      → (elim stop [ true ↦ ok (nothing_loaded total left rest) | false ↦ next ]) ≡ ok m
      → Keys m.streams rest
  rest-Keys true total left rest next m h e =
      subst (λ n. Keys n.streams rest) (ok-inj e) (λ k. refl)
  rest-Keys false total left rest next m h e = h m e

  load_streams-Keys :
      (sequence : ℕ) (rate : Rational) (amount maximum : ℕ) (streams : List (ℕ × Stream))
      (l : Loaded)
      → load_streams sequence rate amount maximum streams ≡ ok l
      → Keys l.streams streams
  unfolding load_streams
  load_streams-Keys sequence rate amount maximum [] l e =
      subst (λ n. Keys n.streams []) (ok-inj e) (λ k. refl)
  load_streams-Keys sequence rate amount maximum ((j, s) ∷ rest) l e =
      elim (Bool-cases s.sent_end) [
        | inl done ↦
            let (m, first, last) =
              >>=-eq-ok (load_streams sequence rate amount maximum rest) _
                (rw (done, load_streams) at e) in
            let more = load_streams-Keys sequence rate amount maximum rest m first in
            subst (λ n. Keys n.streams ((j, s) ∷ rest)) (ok-inj last)
              (λ k. cons-known j s s m.streams rest k (more k))
        | inr going ↦
            let (t, first, others) =
              >>=-eq-ok (take_from_stream sequence rate maximum s) _
                (rw (going, load_streams) at e) in
            let total = total_after amount t.amount in
            let left = left_after maximum t.amount in
            let next = load_streams sequence rate total left rest in
            let (m, second, last) =
              >>=-eq-ok
                (elim (left == 0) [ true ↦ ok (nothing_loaded total left rest) | false ↦ next ]) _
                others in
            let more =
              rest-Keys (left == 0) total left rest next m
                (λ n f. load_streams-Keys sequence rate total left rest n f) second in
            subst (λ n. Keys n.streams ((j, s) ∷ rest)) (ok-inj last)
              (λ k. cons-known j t.stream s m.streams rest k (more k))
      ]

  pub load_money-known :
      (sequence : ℕ) (rate : Rational) (c : Connection) (l : Loaded)
      → load_money sequence rate c ≡ ok l
      → (k : ℕ) → has (lookup k l.streams) ≡ has (lookup k c.streams)
  unfolding load_money
  load_money-known sequence rate c l e =
      let (maximum, first, last) = >>=-eq-ok (max_amount_from_first_stream rate c.congestion) _ e in
      load_streams-Keys sequence rate 0 maximum c.streams l last
