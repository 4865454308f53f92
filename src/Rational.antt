-- ===== src/Rational.antt =====
-- util/rational.ts: fractions of unsigned Longs. A Long is unsigned in this development, so the two
-- assertions of the constructor on signedness hold; what is left of `unsigned` is its first test.
pub mod Arithmetic
use ilp_protocol_stream.Base.{
  ℕ, zero, suc, ◌==◌, ltb, if◌then◌else◌, Bool, true, false, Result, ok, throw, ◌>>=◌,
  signed_rational, zero_denominator, above_one,
}
use ilp_protocol_stream.Long.{multiply_divide_floor, multiply_divide_ceil, multiply_divide_round}
use ilp_protocol_stream.Long.Interface.{LongApi}

pub record Rational : Type 0 where
  pub a : ℕ
  pub b : ℕ

unfoldable pub new_rational : ℕ → ℕ → Bool → Result Rational
new_rational numer denom unsigned =
    if unsigned
    then (if denom == 0 then throw zero_denominator else ok (record { a = numer; b = denom }))
    else throw signed_rational

unfoldable pub greater_than_one : Rational → Bool
greater_than_one r = ltb r.b r.a

pub reciprocal : Rational → Result Rational
unfolding new_rational
reciprocal r = new_rational r.b r.a true

module _ ⦃api : LongApi⦄ where
  unfoldable pub multiply_by_long : Rational → ℕ → Result ℕ
  multiply_by_long r value = multiply_divide_floor value r.a r.b

  unfoldable pub multiply_by_long_ceil : Rational → ℕ → Result ℕ
  multiply_by_long_ceil r value = multiply_divide_ceil value r.a r.b

  pub multiply_by_rational : Rational → Rational → Result Rational
  unfolding new_rational
  multiply_by_rational r other =
      new_rational (api.multiply r.a other.a) (api.multiply r.b other.b) true

  pub complement : Rational → Result Rational
  unfolding new_rational
  complement r =
      if ltb r.b r.a then throw above_one else new_rational (api.subtract r.b r.a) r.b true

  -- `power10`, from the value so far.
  power10_loop : ℕ → ℕ → ℕ
  power10_loop zero value = value
  power10_loop (suc n) value = power10_loop n (api.multiply value 10)

  pub power10 : ℕ → ℕ
  unfolding power10_loop
  power10 n = power10_loop n 1

  -- The two numbers that `toFixed` prints, for a number of digits other than 0.
  pub fixed_parts : Rational → ℕ → Result (ℕ × ℕ)
  unfolding power10
  fixed_parts r digits = do
    quotient ← api.divide r.a r.b
    remainder ← api.modulo r.a r.b
    rounded ← multiply_divide_round remainder (power10 digits) r.b
    ok (quotient, rounded)
