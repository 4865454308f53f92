-- ===== src/Tests/Numbers.antt =====
-- Examples of the arithmetic, fractions and packet sizes.
use ilp_protocol_stream.Base.{
  ℕ, ◌-◌, ◌*◌, ◌/◌, ◌%◌, ◌^◌, ◌≤◌, ◌<◌, ◌≡◌, refl, ◌⊎◌, List, [], ◌∷◌, some, ok, throw,
  division_by_zero, arith,
}
use ilp_protocol_stream.Long.{min_long, QuoRem, multiply_divide}
use ilp_protocol_stream.Long.MultiplyDivide.{multiply_divide_exact, multiply_divide_total}
use ilp_protocol_stream.Congestion.{
  CongestionController, maximum_packet_amount, on_amount_too_large_error, reject_amounts,
}
use ilp_protocol_stream.Congestion.Probing.{fulfill_times, fulfill_times-maximum}
use ilp_protocol_stream.Congestion.Reducing.{Below, on_amount_too_large_error-Below}
use ilp_protocol_stream.Tests.{long, oer}

multiply_divide_exact_example :
    multiply_divide 1000 (2 ^ 60) 999
    ≡ ok (record { quo = 1000 * 2 ^ 60 / 999; rem = 1000 * 2 ^ 60 % 999 })
multiply_divide_exact_example =
    multiply_divide_exact 1000 (2 ^ 60) 999 (omega arith) (omega arith) (omega arith) (omega arith)
      (omega arith)

multiply_divide_total_example :
    let c : ℕ = 3 in
    ((c ≡ 0) × (multiply_divide (2 ^ 64 - 1) 7 c ≡ throw division_by_zero))
    ⊎ ((0 < c) × (s : QuoRem) × (multiply_divide (2 ^ 64 - 1) 7 c ≡ ok s))
multiply_divide_total_example = multiply_divide_total (2 ^ 64 - 1) 7 3 (omega arith)

abbrev probing : CongestionController
probing = record { test_maximum_packet_amount = 50; path_maximum = 1000; fixed_packet_amount = 800 }

maximum_known : maximum_packet_amount probing ≡ 800
unfolding maximum_packet_amount min_long
maximum_known = refl

fulfill_times-maximum_example :
    fulfill_times 19 probing
    ≡ ok (record probing { test_maximum_packet_amount = maximum_packet_amount probing })
fulfill_times-maximum_example =
    fulfill_times-maximum probing (omega arith) (omega (arith, maximum_known))
      (omega (arith, maximum_known)) (omega (arith, maximum_known))

-- Sixteen bytes of data: the connector got 200 and takes 90 at most.
abbrev told : List ℕ
told = 200 ∷ 0 ∷ 0 ∷ 0 ∷ 0 ∷ 0 ∷ 0 ∷ 0 ∷ 90 ∷ 0 ∷ 0 ∷ 0 ∷ 0 ∷ 0 ∷ 0 ∷ 0 ∷ []

told_amounts :
    (received maximum : ℕ) → reject_amounts told ≡ some (received, maximum) → received ≤ 2 ^ 63
unfolding reject_amounts
told_amounts received maximum h = let same : 200 ≡ received = cc in omega (arith, same)

on_amount_too_large_error-Below_example :
    (t : CongestionController) × (on_amount_too_large_error told 400 probing ≡ ok t) × Below 400 t
on_amount_too_large_error-Below_example =
    on_amount_too_large_error-Below told 400 probing (omega arith) (omega arith) told_amounts
