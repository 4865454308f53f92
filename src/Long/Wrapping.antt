-- ===== src/Long/Wrapping.antt =====
-- Where `multiplyDivide` wraps without noticing.
use ilp_protocol_stream.Base.{ℕ, ◌-◌, ◌*◌, ◌^◌, ◌≤◌, ◌≡◌, refl, ap, ◌∙◌, ok, arith}
use ilp_protocol_stream.Long.{QuoRem, carry, add_bit, double, multiply_divide}
use ilp_protocol_stream.Long.Interface.{LongApi, IsLong}
use ilp_protocol_stream.Long.MultiplyDivide.{loop_round, add_bit_even}

abbrev zero_total : QuoRem
zero_total = record { quo = 0; rem = 0 }

abbrev units : ℕ → QuoRem
units n = record { quo = n; rem = 0 }

module _ ⦃api : LongApi⦄ where
  double_wraps : (b : ℕ) → 2 ^ 63 ≤ b → IsLong b → double 1 (units b) ≡ units (2 * b - 2 ^ 64)
  unfolding double carry
  double_wraps b lo hi =
      let q : api.shift_left b 1 ≡ 2 * b - 2 ^ 64 = omega (arith, api.shift_left_wraps b 1) in
      let r : api.shift_left 0 1 ≡ 0 = api.shift_left_wraps 0 1 in rw (q, r)

  add_last : (n : ℕ) → IsLong n → add_bit 1 1 zero_total (units n) ≡ units n
  unfolding add_bit carry
  add_last n h =
      let q : api.add 0 n ≡ n = omega (arith, api.add_wraps 0 n) in
      let r : api.add 0 0 ≡ 0 = api.add_wraps 0 0 in rw (api.bit_and_one 1, q, r)

  -- Two times any Long from 2 ^ 63 up, divided by 1: the doubled term wraps unnoticed, and the result
  -- is the wrapped product, not the saturated one.
  pub multiply_divide_wraps :
      (b : ℕ)
      → 2 ^ 63 ≤ b
      → IsLong b
      → multiply_divide 2 b 1 ≡ ok (record { quo = 2 * b - 2 ^ 64; rem = 0 })
  unfolding multiply_divide
  multiply_divide_wraps b lo hi =
      let w = 2 * b - 2 ^ 64 in
      let q : api.divide b 1 ≡ ok b = api.divide_floors b 1 (omega arith) ∙ ap ok (omega arith) in
      let r : api.modulo b 1 ≡ ok 0 = api.modulo_rest b 1 (omega arith) ∙ ap ok (omega arith) in
      let first = add_bit_even 2 1 zero_total (units b) refl in
      let last = add_last w (omega arith) in
      rw (q, r)
        (loop_round 63 2 1 zero_total (units b) (omega arith) (omega arith)
          ∙ rw (first, double_wraps b lo hi)
              (loop_round 62 1 1 zero_total (units w) (omega arith) (omega arith) ∙ rw last))
