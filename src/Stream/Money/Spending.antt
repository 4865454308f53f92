-- ===== src/Stream/Money/Spending.antt =====
-- What a stream has sent and holds for packets on the way, against the limits that were set.
use ilp_protocol_stream.Base.{
  ℕ, ◌+◌, ◌-◌, ◌^◌, ◌≤◌, ◌<◌, ◌≡◌, inl, inr, max, List, [], ◌∷◌, Option, none, some, Option-cases,
  Bool, true, lookup, assign, remove, Result, ok, throw, arith,
}
use ilp_protocol_stream.Long.{checked_subtract}
use ilp_protocol_stream.Long.Bounds.{checked_subtract_lem, min_long-min}
use ilp_protocol_stream.Long.Interface.{LongApi, IsLong}
use ilp_protocol_stream.Stream.{Stream, new_stream}
use ilp_protocol_stream.Stream.Money.{
  set_send_max, get_amount_available_to_send, hold_amount, hold_outgoing, execute_hold, cancel_hold,
}

abbrev pub held_sum : List (ℕ × ℕ) → ℕ
held_sum [] = 0
held_sum ((k, a) ∷ rest) = a + held_sum rest

held_sum-assign : (k a : ℕ) (o : List (ℕ × ℕ)) → held_sum (assign k a o) ≤ a + held_sum o
unfolding assign
held_sum-assign k a [] = omega arith
held_sum-assign k a ((j, b) ∷ rest) = ground (arith, held_sum-assign k a rest)

held_sum-remove :
    (k a : ℕ) (o : List (ℕ × ℕ)) → lookup k o ≡ some a → held_sum (remove k o) + a ≡ held_sum o
unfolding lookup remove
held_sum-remove k a [] e = cc
held_sum-remove k a ((j, b) ∷ rest) e = ground (arith, held_sum-remove k a rest)

-- Every hold is covered by the held amount, and what is sent or held is within `cap`.
pub record Within (cap : ℕ) (s : Stream) : Type 0 where
  pub covered : held_sum s.holds ≤ s.outgoing_held_amount
  pub spent : s.total_sent + s.outgoing_held_amount ≤ cap
  pub limited : s.send_max ≤ cap
  pub small : cap < 2 ^ 63

-- The calls by which the connection and the application move the outgoing money of a stream.
pub data Call : Type 0 where
  sets_send_max : ℕ → Call
  holds : ℕ → Option ℕ → Call
  executes cancels : ℕ → Call
  closes : Call

-- A call that throws leaves the stream as it was.
abbrev after : Stream → Result Stream → Stream
after s (ok t) = t
after s (throw e) = s

-- The largest limit among the calls.
abbrev pub largest_limit : List Call → ℕ
largest_limit [] = 0
largest_limit (sets_send_max limit ∷ rest) = max limit (largest_limit rest)
largest_limit (c ∷ rest) = largest_limit rest

module _ ⦃api : LongApi⦄ where
  pub step : Stream → Call → Stream
  step s (sets_send_max limit) = after s (set_send_max s limit)
  step s (holds hold_id amount) = (hold_outgoing s hold_id amount).0
  step s (executes hold_id) = execute_hold s hold_id
  step s (cancels hold_id) = cancel_hold s hold_id
  step s closes = record s { closed = true }

  pub run : Stream → List Call → Stream
  unfolding step
  run s [] = s
  run s (c ∷ rest) = run (step s c) rest

  -- Below 2 ^ 63 the checked subtraction is the truncated one.
  subtract_small : (a b : ℕ) → a < 2 ^ 63 → b < 2 ^ 63 → (checked_subtract a b).value ≡ a - b
  subtract_small a b ha hb =
      let ha64 : IsLong a = omega arith in
      let hb64 : IsLong b = omega arith in rw (checked_subtract_lem a b ha64 hb64) (ground arith)

  pub available_bound :
      (cap : ℕ) (s : Stream)
      → Within cap s
      → get_amount_available_to_send s ≤ s.send_max - s.total_sent - s.outgoing_held_amount
  unfolding get_amount_available_to_send
  available_bound cap s w =
      let e = subtract_small s.send_max s.total_sent (omega arith) (omega arith) in
      let f =
        subtract_small (s.send_max - s.total_sent) s.outgoing_held_amount (omega arith)
          (omega arith) in
      rw (e, f) (ground arith)

  hold_amount-Within :
      (cap : ℕ) (s : Stream) (hold_id amount : ℕ)
      → Within cap s
      → amount ≤ s.send_max - s.total_sent - s.outgoing_held_amount
      → Within cap (hold_amount s hold_id amount)
  unfolding hold_amount
  hold_amount-Within cap s hold_id amount w h =
      ground
        (arith, api.add_wraps s.outgoing_held_amount amount, held_sum-assign hold_id amount s.holds)

  hold_outgoing-Within :
      (cap : ℕ) (s : Stream) (hold_id : ℕ) (amount : Option ℕ)
      → Within cap s
      → Within cap (hold_outgoing s hold_id amount).0
  unfolding hold_outgoing
  hold_outgoing-Within cap s hold_id none w =
      hold_amount-Within cap s hold_id _ w (available_bound cap s w)
  hold_outgoing-Within cap s hold_id (some m) w =
      hold_amount-Within cap s hold_id _ w
        (omega (arith, available_bound cap s w, min_long-min (get_amount_available_to_send s) m))

  execute_hold-Within :
      (cap : ℕ) (s : Stream) (hold_id : ℕ) → Within cap s → Within cap (execute_hold s hold_id)
  unfolding execute_hold
  execute_hold-Within cap s hold_id w = elim (Option-cases (lookup hold_id s.holds)) [
    | inl e ↦ rw (e, execute_hold) w
    | inr (a, e) ↦
        let sum = held_sum-remove hold_id a s.holds e in
        let down : api.subtract s.outgoing_held_amount a ≡ s.outgoing_held_amount - a =
          omega (arith, api.subtract_wraps s.outgoing_held_amount a, sum) in
        let up : api.add s.total_sent a ≡ s.total_sent + a =
          omega (arith, api.add_wraps s.total_sent a, sum) in
        rw (e, execute_hold, down, up) (omega (arith, sum))
  ]

  cancel_hold-Within :
      (cap : ℕ) (s : Stream) (hold_id : ℕ) → Within cap s → Within cap (cancel_hold s hold_id)
  unfolding cancel_hold
  cancel_hold-Within cap s hold_id w = elim (Option-cases (lookup hold_id s.holds)) [
    | inl e ↦ rw (e, cancel_hold) w
    | inr (a, e) ↦
        let sum = held_sum-remove hold_id a s.holds e in
        let down : api.subtract s.outgoing_held_amount a ≡ s.outgoing_held_amount - a =
          omega (arith, api.subtract_wraps s.outgoing_held_amount a, sum) in
        rw (e, cancel_hold, down) (omega (arith, sum))
  ]

  set_send_max-Within :
      (cap : ℕ) (s : Stream) (limit : ℕ)
      → limit ≤ cap
      → Within cap s
      → Within cap (after s (set_send_max s limit))
  unfolding set_send_max
  set_send_max-Within cap s limit h w = ground arith

  step-Within :
      (cap : ℕ) (s : Stream) (c : Call)
      → largest_limit (c ∷ []) ≤ cap
      → Within cap s
      → Within cap (step s c)
  unfolding step
  step-Within cap s (sets_send_max limit) h w = set_send_max-Within cap s limit (omega arith) w
  step-Within cap s (holds hold_id amount) h w = hold_outgoing-Within cap s hold_id amount w
  step-Within cap s (executes hold_id) h w = execute_hold-Within cap s hold_id w
  step-Within cap s (cancels hold_id) h w = cancel_hold-Within cap s hold_id w
  step-Within cap s closes h w = omega arith

  largest_limit-cons :
      (c : Call) (rest : List Call)
      → (largest_limit (c ∷ []) ≤ largest_limit (c ∷ rest))
        × (largest_limit rest ≤ largest_limit (c ∷ rest))
  largest_limit-cons (sets_send_max limit) rest = omega arith
  largest_limit-cons (holds hold_id amount) rest = omega arith
  largest_limit-cons (executes hold_id) rest = omega arith
  largest_limit-cons (cancels hold_id) rest = omega arith
  largest_limit-cons closes rest = omega arith

  run-Within :
      (cap : ℕ) (s : Stream) (cs : List Call)
      → largest_limit cs ≤ cap
      → Within cap s
      → Within cap (run s cs)
  unfolding run
  run-Within cap s [] h w = w
  run-Within cap s (c ∷ rest) h w =
      let (first, others) = largest_limit-cons c rest in
      run-Within cap (step s c) rest (omega (arith, others))
        (step-Within cap s c (omega (arith, first)) w)

  -- After any sequence of calls on a new stream, with every limit below 2 ^ 63, what the stream
  -- has sent and what it still holds are together at most the largest limit that was asked for.
  pub run_spent :
      (id : ℕ) (is_server : Bool) (cs : List Call)
      → largest_limit cs < 2 ^ 63
      → let s = run (new_stream id is_server) cs in
        s.total_sent + s.outgoing_held_amount ≤ largest_limit cs
  unfolding new_stream
  run_spent id is_server cs h =
      (run-Within (largest_limit cs) (new_stream id is_server) cs (omega arith) (record {
        covered = omega arith;
        spent = omega arith;
        limited = omega arith;
        small = h;
      })).spent
