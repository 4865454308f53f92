-- ===== src/Long.antt =====
-- util/long.ts. An unsigned Long is its value, a number below 2 ^ 64; the arithmetic of the `long`
-- package is the interface `LongApi`, whose laws are what that package documents.
pub mod Interface
pub mod Bounds
pub mod MultiplyDivide
pub mod Rounding
pub mod Wrapping
use ilp_protocol_stream.Base.{
  ℕ, zero, suc, ◌+◌, Bool, ◌||◌, ◌&&◌, not, ltb, leb, ◌==◌, if◌then◌else◌, List, [], ◌∷◌, Result,
  ok, throw, ◌>>=◌, out_of_fuel,
}
use Interface.{LongApi, max_unsigned}

-- What the checked operations return: the number, and whether the exact one was out of range.
pub record Checked : Type 0 where
  pub value : ℕ
  pub wrapped : Bool

pub record QuoRem : Type 0 where
  pub quo : ℕ
  pub rem : ℕ

pub max_long : ℕ → ℕ → ℕ
max_long a b = if ltb b a then a else b

unfoldable pub min_long : ℕ → ℕ → ℕ
min_long a b = if ltb a b then a else b

unfoldable pub min_longs_loop : ℕ → List ℕ → ℕ
unfolding min_long
min_longs_loop m [] = m
min_longs_loop m (x ∷ xs) = min_longs_loop (min_long m x) xs

-- `values[0]` of an empty list is `undefined`; every caller passes at least one.
unfoldable pub min_longs : ℕ → List ℕ → ℕ
unfolding min_longs_loop
min_longs first rest = min_longs_loop first rest

module _ ⦃api : LongApi⦄ where
  unfoldable pub count_digits_loop : ℕ → ℕ → ℕ → Result ℕ
  count_digits_loop zero digits value = if value == 0 then ok digits else throw out_of_fuel
  count_digits_loop (suc fuel) digits value =
      let rest = api.divide value 10 >>= count_digits_loop fuel (digits + 1) in
      if value == 0 then ok digits else rest

  unfoldable pub count_digits : ℕ → Result ℕ
  unfolding count_digits_loop
  count_digits value = count_digits_loop 20 0 value

  unfoldable pub checked_add : ℕ → ℕ → Checked
  checked_add a b =
      let sum = api.add a b in
      let overflow = ltb sum a || ltb sum b in
      record { value = if overflow then max_unsigned else sum; wrapped = overflow }

  unfoldable pub checked_subtract : ℕ → ℕ → Checked
  checked_subtract a b =
      let difference = api.subtract a b in
      let underflow = ltb a difference && ltb b difference in
      record { value = if underflow then 0 else difference; wrapped = underflow }

  pub checked_multiply : ℕ → ℕ → Checked
  checked_multiply a b =
      let product = api.multiply a b in
      let overflow = ltb product a || ltb product b in
      record { value = if overflow then max_unsigned else product; wrapped = overflow }

  -- `if (rem.greaterThanOrEqual(c)) { quo = quo.add(1); rem = rem.subtract(c) }`
  unfoldable pub carry : ℕ → ℕ → ℕ → QuoRem
  carry c quo rem =
      if leb c rem
      then record { quo = api.add quo 1; rem = api.subtract rem c }
      else record { quo = quo; rem = rem }

  -- The first `if` of the loop body: the term of the lowest bit of `a`.
  unfoldable pub add_bit : ℕ → ℕ → QuoRem → QuoRem → QuoRem
  unfolding carry
  add_bit a c acc term =
      if not (api.bit_and a 1 == 0)
      then carry c (api.add acc.quo term.quo) (api.add acc.rem term.rem)
      else acc

  unfoldable pub double : ℕ → QuoRem → QuoRem
  unfolding carry
  double c term = carry c (api.shift_left term.quo 1) (api.shift_left term.rem 1)

  -- One round for each bit of `a`, so 64 rounds are enough for a Long.
  unfoldable pub multiply_divide_loop : ℕ → ℕ → ℕ → QuoRem → QuoRem → Result QuoRem
  multiply_divide_loop zero a c acc term = if a == 0 then ok acc else throw out_of_fuel
  multiply_divide_loop (suc fuel) a c acc term =
      let acc' = add_bit a c acc term in
      let rest =
        if ltb acc'.quo acc.quo
        then ok (record { quo = max_unsigned; rem = 0 })
        else multiply_divide_loop fuel (api.shift_right_unsigned a 1) c acc' (double c term) in
      if a == 0 then ok acc else rest

  unfoldable pub multiply_divide : ℕ → ℕ → ℕ → Result QuoRem
  unfolding multiply_divide_loop
  multiply_divide a b c = do
    qn ← api.divide b c
    rn ← api.modulo b c
    multiply_divide_loop 64 a c (record { quo = 0; rem = 0 }) (record { quo = qn; rem = rn })

  unfoldable pub multiply_divide_floor : ℕ → ℕ → ℕ → Result ℕ
  multiply_divide_floor a b c = do r ← multiply_divide a b c; ok r.quo

  unfoldable pub multiply_divide_ceil : ℕ → ℕ → ℕ → Result ℕ
  multiply_divide_ceil a b c = do
    r ← multiply_divide a b c
    ok (if r.quo == max_unsigned then r.quo else api.add r.quo (if r.rem == 0 then 0 else 1))

  pub multiply_divide_round : ℕ → ℕ → ℕ → Result ℕ
  multiply_divide_round a b c = do
    r ← multiply_divide a b c
    half ← api.divide c 2
    let round_up = not (r.rem == 0) && (if api.is_odd c then ltb half r.rem else leb half r.rem)
    ok (if r.quo == max_unsigned then r.quo else if round_up then api.add r.quo 1 else r.quo)
