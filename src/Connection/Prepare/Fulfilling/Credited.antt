-- ===== src/Connection/Prepare/Fulfilling/Credited.antt =====
-- What the streams of a packet get in `handlePrepare`.
use ilp_protocol_stream.Base.{
  ℕ, ◌+◌, ◌*◌, ◌/◌, ◌^◌, ◌≤◌, ◌<◌, ◌≡◌, refl, sym, ap, ◌∙◌, inl, inr, ltb, ◌==◌, if◌then◌else◌,
  Bool-cases, List, [], ◌∷◌, some, lookup, lt→ltb, Result, ok, throw, arith,
}
use native.Mathlib.Nat.{mul-le-mul_left, div-le_of_le-mul}
use ilp_protocol_stream.Long.{multiply_divide_floor, checked_add}
use ilp_protocol_stream.Long.Bounds.{checked_add_lem}
use ilp_protocol_stream.Long.Interface.{LongApi, IsLong}
use ilp_protocol_stream.Long.Rounding.{multiply_divide_floor_exact}
use ilp_protocol_stream.Rational.{multiply_by_long_ceil}
use ilp_protocol_stream.Stream.{Stream}
use ilp_protocol_stream.Stream.Money.{get_amount_stream_can_receive, add_to_incoming}
use ilp_protocol_stream.Packet.{Packet}
use ilp_protocol_stream.Connection.{Connection}
use ilp_protocol_stream.Connection.Updating.{update_stream, map_option, lookup-update}
use ilp_protocol_stream.Connection.Shares.{money_frames, total_money_shares}
use ilp_protocol_stream.Connection.Shares.Distribution.{total, portions, total_money_shares_lem}
use ilp_protocol_stream.Connection.Prepare.{
  Environment, Handling, Stage, proceeds, stops, ◌>>=◌, final_application_error, attempt,
}
use ilp_protocol_stream.Connection.Prepare.Fulfilling.{
  test_stream, check_stream, stream_there, amounts_loop, amounts_for_streams, credit,
}

bind-proceeds :
    {A B : Type 0} (first : Stage A) (next : A → Stage B) (b : B)
    → (first >>= next) ≡ proceeds b
    → (a : A) × (first ≡ proceeds a) × (next a ≡ proceeds b)
bind-proceeds (proceeds a) next b e = (a, refl, e)
bind-proceeds (stops r) next b e = absurd (cc)

attempt-proceeds :
    {A : Type 0} (h : Handling) (r : Result A) (a : A) → attempt h r ≡ proceeds a → r ≡ ok a
unfolding attempt
attempt-proceeds h (ok b) a e = cc
attempt-proceeds h (throw x) a e = absurd (cc)

-- What moves to a stream.
abbrev pub paid_to : ℕ → List (ℕ × ℕ) → ℕ
paid_to k [] = 0
paid_to k ((i, amount) ∷ rest) = (if i == k then amount else 0) + paid_to k rest

-- The exact share of each money frame of a packet, rounded down.
abbrev pub amounts_of : ℕ → Packet → List (ℕ × ℕ)
amounts_of incoming p = portions incoming (total (money_frames p.frames)) (money_frames p.frames)

module _ ⦃api : LongApi⦄ where
  test_stream-proceeds :
      (env : Environment) (p : Packet) (incoming : ℕ) (h : Handling) (i amount : ℕ) (s : Stream)
      (maximum : ℕ) (m : ℕ × ℕ)
      → test_stream env p incoming h i amount s maximum ≡ proceeds m
      → (i, amount) ≡ m
  unfolding test_stream final_application_error
  test_stream-proceeds env p incoming h i amount s maximum m e =
      elim (Bool-cases (ltb maximum amount)) [
        | inl above ↦ absurd (let never = rw (above, test_stream) at e in cc)
        | inr fits ↦ elim (Bool-cases s.closed) [
          | inl shut ↦ absurd (let never = rw (fits, test_stream, shut) at e in cc)
          | inr open_stream ↦ let same = rw (fits, test_stream, open_stream) at e in cc
        ]
      ]

  check_stream-proceeds :
      (env : Environment) (p : Packet) (incoming : ℕ) (h : Handling) (i amount : ℕ) (s : Stream)
      (m : ℕ × ℕ)
      → check_stream env p incoming h i amount s ≡ proceeds m
      → (i, amount) ≡ m
  unfolding check_stream
  check_stream-proceeds env p incoming h i amount s m e =
      let extra = h.connection.allowable_receive_extra in
      let (maximum, _, tested) =
        bind-proceeds (attempt h (multiply_by_long_ceil extra (get_amount_stream_can_receive s))) _
          m e in
      test_stream-proceeds env p incoming h i amount s maximum m tested

  amounts_loop-portions :
      (env : Environment) (p : Packet) (incoming : ℕ) (h : Handling) (whole : ℕ)
      (xs moves : List (ℕ × ℕ))
      → IsLong incoming
      → 0 < whole
      → whole ≤ 2 ^ 63
      → total xs ≤ whole
      → amounts_loop env p incoming h whole xs ≡ proceeds moves
      → moves ≡ portions incoming whole xs
  unfolding amounts_loop
  amounts_loop-portions env p incoming h whole [] moves long pos small le e =
      let same : [] ≡ moves = cc in sym same
  amounts_loop-portions env p incoming h whole ((i, shares) ∷ rest) moves long pos small le e =
      let part : shares ≤ whole = omega arith in
      let below : incoming * shares / whole ≤ incoming =
        div-le_of_le-mul whole (omega (arith, mul-le-mul_left incoming part)) in
      let exact =
        multiply_divide_floor_exact incoming shares whole long (omega arith) pos small
          (omega (arith, below)) in
      let (amount, e1, f1) =
        bind-proceeds (attempt h (multiply_divide_floor incoming shares whole)) _ moves e in
      let (s, e2, f2) = bind-proceeds (stream_there h i) _ moves f1 in
      let (first, e3, f3) = bind-proceeds (check_stream env p incoming h i amount s) _ moves f2 in
      let (others, e4, f4) = bind-proceeds (amounts_loop env p incoming h whole rest) _ moves f3 in
      let computed =
        sym exact ∙ attempt-proceeds h (multiply_divide_floor incoming shares whole) amount e1 in
      let value : incoming * shares / whole ≡ amount = cc in
      let checked = check_stream-proceeds env p incoming h i amount s first e3 in
      let more =
        amounts_loop-portions env p incoming h whole rest others long pos small (omega arith) e4 in
      let last : first ∷ others ≡ moves = cc in
      sym last
      ∙ ap (λ m. m ∷ others) (sym checked ∙ ap (λ a. (i, a)) (sym value))
      ∙ ap (λ t. (i, incoming * shares / whole) ∷ t) more

  credit-received :
      (moves : List (ℕ × ℕ)) (c : Connection) (k : ℕ) (s : Stream)
      → lookup k c.streams ≡ some s
      → s.total_received + paid_to k moves < 2 ^ 64
      → (t : Stream) × (lookup k (credit moves c).streams ≡ some t)
        × (t.total_received ≡ s.total_received + paid_to k moves)
  unfolding credit add_to_incoming
  credit-received [] c k s there fits = (s, there, omega arith)
  credit-received ((i, amount) ∷ rest) c k s there fits =
      let d = update_stream i (λ x. add_to_incoming x amount) c in
      let found : lookup k d.streams ≡ some (if i == k then add_to_incoming s amount else s) =
        lookup-update k i (λ x. add_to_incoming x amount) c
        ∙ ap (map_option (λ x. if i == k then add_to_incoming x amount else x)) there in
      elim (Bool-cases (i == k)) [
        | inl same ↦
            let fits' : s.total_received + (amount + paid_to k rest) < 2 ^ 64 = rw same at fits in
            let sum : (checked_add s.total_received amount).value ≡ s.total_received + amount = rw (
              checked_add_lem s.total_received amount (omega (arith, fits')) (omega (arith, fits')),
              lt→ltb (s.total_received + amount) (2 ^ 64) (omega (arith, fits')),
            ) in
            let (t, later, total_t) =
              credit-received rest d k (add_to_incoming s amount) (rw same at found)
                (omega (arith, sum, fits')) in
            let paid : paid_to k ((i, amount) ∷ rest) ≡ amount + paid_to k rest = rw same refl in
            (t, later, omega (arith, sum, total_t, paid))
        | inr other ↦
            let fits' : s.total_received + (0 + paid_to k rest) < 2 ^ 64 = rw other at fits in
            let (t, later, total_t) =
              credit-received rest d k s (rw other at found) (omega (arith, fits')) in
            let paid : paid_to k ((i, amount) ∷ rest) ≡ 0 + paid_to k rest = rw other refl in
            (t, later, omega (arith, total_t, paid))
      ]

  -- Where the amount is a Long and the shares of a packet's money frames sum up to at least 1 and at
  -- most 2 ^ 63, and the handler goes on to the credit: each frame gets its share of the amount rounded
  -- down, and the total received of each stream that is there grows by exactly what the frames for it
  -- get together, if it stays a Long.
  pub amounts_for_streams-credit :
      (env : Environment) (p : Packet) (incoming : ℕ) (h : Handling) (moves : List (ℕ × ℕ))
      (c : Connection) (k : ℕ) (s : Stream)
      → IsLong incoming
      → 0 < total (money_frames p.frames)
      → total (money_frames p.frames) ≤ 2 ^ 63
      → amounts_for_streams env p incoming h ≡ proceeds moves
      → lookup k c.streams ≡ some s
      → s.total_received + paid_to k (amounts_of incoming p) < 2 ^ 64
      → (moves ≡ amounts_of incoming p)
        × ((t : Stream) × (lookup k (credit moves c).streams ≡ some t)
            × (t.total_received ≡ s.total_received + paid_to k (amounts_of incoming p)))
  unfolding amounts_for_streams
  amounts_for_streams-credit env p incoming h moves c k s long pos small e there fits =
      let shares = money_frames p.frames in
      let (whole, e1, f1) = bind-proceeds (attempt h (total_money_shares p.frames)) _ moves e in
      let summed =
        sym (total_money_shares_lem p.frames (omega (arith, small)))
        ∙ attempt-proceeds h (total_money_shares p.frames) whole e1 in
      let same : total shares ≡ whole = cc in
      let given =
        amounts_loop-portions env p incoming h whole shares moves long (omega (arith, same, pos))
          (omega (arith, same, small)) (omega (arith, same)) f1
        ∙ ap (λ w. portions incoming w shares) (sym same) in
      let (t, found, value) =
        credit-received moves c k s there (omega (arith, ap (paid_to k) given, fits)) in
      (given, (t, found, value ∙ ap (λ m. s.total_received + paid_to k m) given))
