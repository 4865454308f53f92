-- ===== src/Long/Rounding.antt =====
-- `multiplyDivideFloor`, `multiplyDivideCeil` and `multiplyDivideRound` against exact rounding.
use ilp_protocol_stream.Base.{
  ℕ, ◌+◌, ◌*◌, ◌/◌, ◌%◌, ◌^◌, ◌≤◌, ◌<◌, ◌≡◌, inl, inr, ◌⊎◌, Bool, true, false, not, ◌&&◌, ltb, leb,
  ◌==◌, if◌then◌else◌, ne→==, ==→eq, ==→ne, Bool-cases, ap, ok, throw, division_by_zero, arith,
}
use native.Mathlib.Nat.{div-add-mod, mod-lt}
use ilp_protocol_stream.Long.{
  multiply_divide, multiply_divide_floor, multiply_divide_ceil, multiply_divide_round,
}
use ilp_protocol_stream.Long.Interface.{LongApi, max_unsigned, IsLong}
use ilp_protocol_stream.Long.MultiplyDivide.{multiply_divide_exact, multiply_divide_total}

module _ ⦃api : LongApi⦄ where
  pub multiply_divide_floor_exact :
      (a b c : ℕ)
      → IsLong a
      → IsLong b
      → 0 < c
      → c ≤ 2 ^ 63
      → a * b / c < 2 ^ 64
      → multiply_divide_floor a b c ≡ ok (a * b / c)
  unfolding multiply_divide_floor
  multiply_divide_floor_exact a b c ha hb pos small fits =
      rw (multiply_divide_exact a b c ha hb pos small fits)

  -- Dividing by a number other than 0 always returns.
  pub multiply_divide_floor_total :
      (a b c : ℕ) → IsLong a → 0 < c → (q : ℕ) × (multiply_divide_floor a b c ≡ ok q)
  unfolding multiply_divide_floor
  multiply_divide_floor_total a b c ha pos = elim (multiply_divide_total a b c ha) [
    | inl (e, _) ↦ absurd (omega (arith, e, pos))
    | inr (_, s, e) ↦ (s.quo, rw e)
  ]

  pub multiply_divide_ceil_total :
      (a b c : ℕ) → IsLong a → 0 < c → (q : ℕ) × (multiply_divide_ceil a b c ≡ ok q)
  unfolding multiply_divide_ceil
  multiply_divide_ceil_total a b c ha pos = elim (multiply_divide_total a b c ha) [
    | inl (e, _) ↦ absurd (omega (arith, e, pos))
    | inr (_, s, e) ↦
        let up = if s.rem == 0 then 0 else 1 in
        (if s.quo == max_unsigned then s.quo else api.add s.quo up, rw e)
  ]

  -- A division by zero is thrown on.
  pub multiply_divide_floor-zero : (a b : ℕ) → multiply_divide_floor a b 0 ≡ throw division_by_zero
  unfolding multiply_divide_floor multiply_divide
  multiply_divide_floor-zero a b = rw (api.divide_zero b)

  -- For two Longs, a divisor c from 1 to 2 ^ 63 and an exact quotient below 2 ^ 64 - 1, the result is
  -- the least number that is at least the exact quotient.
  pub multiply_divide_ceil_exact :
      (a b c : ℕ)
      → IsLong a
      → IsLong b
      → 0 < c
      → c ≤ 2 ^ 63
      → a * b / c < max_unsigned
      → (q : ℕ) × (multiply_divide_ceil a b c ≡ ok q) × (a * b ≤ q * c) × (q * c < a * b + c)
  unfolding multiply_divide_ceil
  multiply_divide_ceil_exact a b c ha hb pos small fits =
      let t = a * b in
      let exact = multiply_divide_exact a b c ha hb pos small (omega arith) in
      let whole = div-add-mod t c in
      let below = ne→== (t / c) max_unsigned (λ e. omega (arith, e)) in
      elim (Bool-cases (t % c == 0)) [
        | inl even ↦
            let z = ==→eq (t % c) 0 even in
            (
              t / c,
              rw (exact, below, even, api.add_wraps (t / c) 0) (ap ok (omega arith)),
              omega (arith, whole, z),
              omega (arith, whole, z),
            )
        | inr more ↦
            let nz = ==→ne (t % c) 0 more in
            let low = mod-lt t pos in
            (
              t / c + 1,
              rw (exact, below, more, api.add_wraps (t / c) 1) (ap ok (omega arith)),
              omega (arith, whole, nz, low),
              omega (arith, whole, nz, low),
            )
      ]

  -- The code's test for rounding up: more than half of `c` is left, or half of an even `c`.
  rounds_up : (c rem half : ℕ) → Bool
  rounds_up c rem half = not (rem == 0) && (if c % 2 == 1 then ltb half rem else leb half rem)

  rounds_up_lem :
      (c rem : ℕ)
      → 0 < c
      → rem < c
      → ((rounds_up c rem (c / 2) ≡ true) × (c ≤ 2 * rem))
        ⊎ ((rounds_up c rem (c / 2) ≡ false) × (2 * rem < c))
  unfolding rounds_up
  rounds_up_lem c rem pos low = ground arith

  -- For two Longs, a divisor c from 1 to 2 ^ 63 and an exact quotient below 2 ^ 64 - 1, the result is
  -- the number nearest to the exact quotient, and the upper one of two that are equally near.
  pub multiply_divide_round_exact :
      (a b c : ℕ)
      → IsLong a
      → IsLong b
      → 0 < c
      → c ≤ 2 ^ 63
      → a * b / c < max_unsigned
      → (q : ℕ) × (multiply_divide_round a b c ≡ ok q)
        × (2 * (a * b) < 2 * (q * c) + c)
        × (2 * (q * c) ≤ 2 * (a * b) + c)
  unfolding multiply_divide_round rounds_up
  multiply_divide_round_exact a b c ha hb pos small fits =
      let t = a * b in
      let exact = multiply_divide_exact a b c ha hb pos small (omega arith) in
      let half = api.divide_floors c 2 (omega arith) in
      let whole = div-add-mod t c in
      let low = mod-lt t pos in
      let below = ne→== (t / c) max_unsigned (λ e. omega (arith, e)) in
      elim (rounds_up_lem c (t % c) pos low) [
        | inl (up, ge) ↦ (
          t / c + 1,
          rw (exact, half, below, api.is_odd_lem c, up, api.add_wraps (t / c) 1)
              (ap ok (omega arith)),
          omega (arith, whole, low),
          omega (arith, whole, ge),
        )
        | inr (down, lt) ↦ (
          t / c,
          rw (exact, half, below, api.is_odd_lem c, down),
          omega (arith, whole, lt),
          omega (arith, whole),
        )
      ]
