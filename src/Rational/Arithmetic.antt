-- ===== src/Rational/Arithmetic.antt =====
-- The operations on fractions against exact arithmetic.
use ilp_protocol_stream.Base.{
  ℕ, zero, suc, ◌+◌, ◌-◌, ◌*◌, ◌/◌, ◌%◌, ◌^◌, ◌≤◌, ◌<◌, ◌≡◌, ◌⊎◌, refl, sym, ◌∙◌, ltb, le→ltb,
  ne→==, ◌==◌, ==→ne, ok, throw, above_one, Bool-cases, inl, inr, arith, true, ltb→ge,
}
use native.Mathlib.Nat.{
  one-le-pow, mul-le-mul_left, pow-suc, mod-lt, mul-lt-mul_of_pos_left, mul-lt-mul_of_pos_right,
  lt_of_mul-lt-mul_right, div-lt_iff_lt-mul,
}
use ilp_protocol_stream.Long.Interface.{LongApi, IsLong, max_unsigned}
use ilp_protocol_stream.Long.Rounding.{
  multiply_divide_floor_total, multiply_divide_ceil_total, multiply_divide_floor_exact,
  multiply_divide_ceil_exact, multiply_divide_round_exact,
}
use ilp_protocol_stream.Rational.{
  Rational, new_rational, reciprocal, multiply_by_long, multiply_by_long_ceil, multiply_by_rational,
  complement, power10_loop, power10, fixed_parts,
}

-- What the constructor lets through.
pub record IsRational (r : Rational) : Type 0 where
  pub numerator : IsLong r.a
  pub denominator : IsLong r.b
  pub nonzero : 0 < r.b

quotient_lt : (a m b : ℕ) → a < b → 0 < m → a * m / b < m
quotient_lt a m b less pos =
    (div-lt_iff_lt-mul (omega arith)).1 (omega (arith, mul-lt-mul_of_pos_right less pos))

pub new_rational_lem : (a b : ℕ) → 0 < b → new_rational a b true ≡ ok (record { a = a; b = b })
unfolding new_rational
new_rational_lem a b pos = rw (ne→== b 0 (λ e. omega (arith, e, pos)))

pub new_rational-pos : {r : Rational} (a b : ℕ) → new_rational a b true ≡ ok r → 0 < b
unfolding new_rational
new_rational-pos a b e = elim (Bool-cases (b == 0)) [
  | inl none ↦ absurd (cc)
  | inr some_part ↦ omega (arith, ==→ne b 0 some_part)
]

pub reciprocal_lem : (r : Rational) → 0 < r.a → reciprocal r ≡ ok (record { a = r.b; b = r.a })
unfolding reciprocal new_rational
reciprocal_lem r pos = rw (ne→== r.a 0 (λ e. omega (arith, e, pos)))

module _ ⦃api : LongApi⦄ where
  pub multiply_by_long_total :
      (r : Rational) (value : ℕ)
      → IsLong value
      → 0 < r.b
      → (q : ℕ) × (multiply_by_long r value ≡ ok q)
  unfolding multiply_by_long
  multiply_by_long_total r value h pos = multiply_divide_floor_total value r.a r.b h pos

  pub multiply_by_long_ceil_total :
      (r : Rational) (value : ℕ)
      → IsLong value
      → 0 < r.b
      → (q : ℕ) × (multiply_by_long_ceil r value ≡ ok q)
  unfolding multiply_by_long_ceil
  multiply_by_long_ceil_total r value h pos = multiply_divide_ceil_total value r.a r.b h pos

  pub multiply_by_long_exact :
      (r : Rational) (value : ℕ)
      → IsRational r
      → IsLong value
      → r.b ≤ 2 ^ 63
      → value * r.a / r.b < 2 ^ 64
      → multiply_by_long r value ≡ ok (value * r.a / r.b)
  unfolding multiply_by_long
  multiply_by_long_exact r value w h small fits =
      multiply_divide_floor_exact value r.a r.b h w.numerator w.nonzero small fits

  pub multiply_by_long_ceil_exact :
      (r : Rational) (value : ℕ)
      → IsRational r
      → IsLong value
      → r.b ≤ 2 ^ 63
      → value * r.a / r.b < max_unsigned
      → (q : ℕ) × (multiply_by_long_ceil r value ≡ ok q)
        × (value * r.a ≤ q * r.b)
        × (q * r.b < value * r.a + r.b)
  unfolding multiply_by_long_ceil
  multiply_by_long_ceil_exact r value w h small fits =
      multiply_divide_ceil_exact value r.a r.b h w.numerator w.nonzero small fits

  pub complement_value :
      (r : Rational)
      → IsRational r
      → r.a ≤ r.b
      → complement r ≡ ok (record { a = r.b - r.a; b = r.b })
  unfolding complement new_rational
  complement_value r w le =
      let first : api.subtract r.b r.a ≡ r.b - r.a =
        omega (arith, api.subtract_wraps r.b r.a, le, w.denominator) in
      rw (le→ltb r.b r.a le, first, ne→== r.b 0 (λ e. omega (arith, e, w.nonzero)))

  -- The complement of a fraction of Longs that is not above 1 has the same denominator, adds up to
  -- 1 with it, and its own complement is the fraction again; a fraction above 1 throws.
  pub complement_lem :
      (r : Rational)
      → IsRational r
      → (ltb r.b r.a ≡ true) × (complement r ≡ throw above_one)
        ⊎ ((c : Rational) × (complement r ≡ ok c)
            × (c.b ≡ r.b)
            × (c.a + r.a ≡ r.b)
            × (complement c ≡ ok r))
  unfolding complement new_rational
  complement_lem r w =
      let part = r.b - r.a in
      elim (Bool-cases (ltb r.b r.a)) [
        | inl above ↦ inl (above, rw above)
        | inr below ↦
            let le = ltb→ge r.b r.a below in
            let first : api.subtract r.b r.a ≡ part =
              omega (arith, api.subtract_wraps r.b r.a, le, w.denominator) in
            let second : api.subtract r.b part ≡ r.a =
              omega (arith, api.subtract_wraps r.b part, le, w.denominator) in
            let whole = ne→== r.b 0 (λ e. omega (arith, e, w.nonzero)) in
            inr (
              record { a = part; b = r.b },
              rw (below, first, whole),
              refl,
              omega (arith, le),
              rw (le→ltb r.b part (omega arith), second, whole),
            )
      ]

  -- The product of two fractions is exact where the products of the numerators and of the denominators
  -- are Longs.
  pub multiply_by_rational_lem :
      (r s : Rational)
      → IsRational r
      → IsRational s
      → r.a * s.a < 2 ^ 64
      → r.b * s.b < 2 ^ 64
      → multiply_by_rational r s ≡ ok (record { a = r.a * s.a; b = r.b * s.b })
  unfolding multiply_by_rational new_rational
  multiply_by_rational_lem r s wr ws ha hb =
      let over : api.multiply r.a s.a ≡ r.a * s.a = omega (arith, api.multiply_wraps r.a s.a) in
      let under : api.multiply r.b s.b ≡ r.b * s.b = omega (arith, api.multiply_wraps r.b s.b) in
      let positive : 0 < r.b * s.b = omega (arith, mul-lt-mul_of_pos_left ws.nonzero wr.nonzero) in
      let whole = ne→== (r.b * s.b) 0 (λ e. omega (arith, e, positive)) in rw (over, under, whole)

  power10_loop_lem : (n v : ℕ) → v * 10 ^ n < 2 ^ 64 → power10_loop n v ≡ v * 10 ^ n
  unfolding power10_loop
  power10_loop_lem zero v h = omega arith
  power10_loop_lem (suc n) v h =
      let factor : v * 10 ^ suc n ≡ v * 10 * 10 ^ n = rw (pow-suc 10 n) (omega arith) in
      let tens : v * 10 ≤ v * 10 * 10 ^ n =
        omega (arith, mul-le-mul_left (v * 10) (one-le-pow n 10 (omega arith))) in
      let exact : api.multiply v 10 ≡ v * 10 =
        omega (arith, api.multiply_wraps v 10, factor, tens) in
      rw exact (power10_loop_lem n (v * 10) (omega (arith, factor)) ∙ sym factor)

  power10_19 : power10 19 ≡ 10 ^ 19
  unfolding power10
  power10_19 = power10_loop_lem 19 1 (omega arith) ∙ omega arith

  -- For a fraction of Longs with a denominator of at most 2 ^ 63, the two numbers that `toString`
  -- prints are the quotient and the nearest number of 10 ^ -19ths to what is left. The second one
  -- is below 10 ^ 19, so that it never has more than the 19 digits it is padded to.
  pub fixed_parts_lem :
      (r : Rational)
      → IsRational r
      → r.b ≤ 2 ^ 63
      → let rest = r.a % r.b in
        (n : ℕ) × (fixed_parts r 19 ≡ ok (r.a / r.b, n))
        × (n < 10 ^ 19)
        × (2 * (rest * 10 ^ 19) < 2 * (n * r.b) + r.b)
        × (2 * (n * r.b) ≤ 2 * (rest * 10 ^ 19) + r.b)
  unfolding fixed_parts
  fixed_parts_lem r w small =
      let rest = r.a % r.b in
      let low = mod-lt r.a w.nonzero in
      let below = quotient_lt rest (10 ^ 19) r.b low (omega arith) in
      let (n, e, above, near) =
        multiply_divide_round_exact rest (10 ^ 19) r.b (omega (arith, low, w.denominator))
          (omega arith) w.nonzero small (omega (arith, below)) in
      (
        n,
        rw (api.divide_floors r.a r.b w.nonzero, api.modulo_rest r.a r.b w.nonzero, power10_19, e),
        lt_of_mul-lt-mul_right r.b (omega (arith, near, low)),
        above,
        near,
      )
