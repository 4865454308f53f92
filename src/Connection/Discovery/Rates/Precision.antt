-- ===== src/Connection/Discovery/Rates/Precision.antt =====
-- The exchange rate of a volley is the most precise one that its test packets found.
use ilp_protocol_stream.Base.{
  ℕ, ◌≤◌, ◌<◌, ◌≡◌, refl, sym, subst, ◌∙◌, ◌⊎◌, inl, inr, leb, leb→le, leb→gt, Bool-cases, List, [],
  ◌∷◌, All, true, ok, >>=-eq-ok, ok-inj, arith, if◌then◌else◌,
}
use ilp_protocol_stream.Long.{count_digits}
use ilp_protocol_stream.Long.Interface.{LongApi, IsLong}
use ilp_protocol_stream.Long.Bounds.{count_digits_lem}
use ilp_protocol_stream.Rational.{new_rational}
use ilp_protocol_stream.Rational.Arithmetic.{new_rational_lem, new_rational-pos}
use ilp_protocol_stream.Packet.{Packet}
use ilp_protocol_stream.Connection.Discovery.{
  NumberApi, TestResult, no_response, rejected, answered,
}
use ilp_protocol_stream.Connection.Discovery.Rates.{
  Best, no_best, better, find_best_step, find_best,
}

module _ ⦃api : LongApi⦄ where
  -- Nothing delivered more than no digits, or the rate is that of an amount with all the digits.
  abbrev pub IsCounted : Best → Type 0
  IsCounted best =
      (best.max_digits ≡ 0)
      ⊎ ((0 < best.exchange_rate.b) × (count_digits best.exchange_rate.a ≡ ok best.max_digits))

module _ ⦃api : LongApi⦄ ⦃number : NumberApi⦄ where
  -- A test packet of a positive amount, for which a Long was delivered if it was answered.
  abbrev pub IsMeasurable : ℕ × TestResult → Type 0
  IsMeasurable (amount, answered p) = (0 < number.from_number amount) × IsLong p.prepare_amount
  IsMeasurable (amount, no_response) = Unit {0}
  IsMeasurable (amount, rejected r) = Unit {0}

  -- What was delivered for a test has no more digits than the best.
  abbrev pub IsBeaten : Best → ℕ × TestResult → Type 0
  IsBeaten best (amount, answered p) =
      (n : ℕ) × (count_digits p.prepare_amount ≡ ok n) × (n ≤ best.max_digits)
  IsBeaten best (amount, no_response) = Unit {0}
  IsBeaten best (amount, rejected r) = Unit {0}

  abbrev taken : ℕ → Packet → ℕ → Best → Best
  taken amount p digits best =
      if leb best.max_digits digits
      then record best {
        max_digits = digits;
        exchange_rate = record { a = p.prepare_amount; b = number.from_number amount };
      }
      else best

  better_lem :
      (amount digits : ℕ) (p : Packet) (best : Best)
      → 0 < number.from_number amount
      → count_digits p.prepare_amount ≡ ok digits
      → better amount p best ≡ ok (taken amount p digits best)
  unfolding better
  better_lem amount digits p best pos e =
      rw (new_rational_lem p.prepare_amount (number.from_number amount) pos, e)

  taken_lem :
      (amount digits : ℕ) (p : Packet) (best : Best)
      → 0 < number.from_number amount
      → count_digits p.prepare_amount ≡ ok digits
      → IsCounted best
      → IsCounted (taken amount p digits best)
        × (best.max_digits ≤ (taken amount p digits best).max_digits)
        × (digits ≤ (taken amount p digits best).max_digits)
  taken_lem amount digits p best pos e w = elim (Bool-cases (leb best.max_digits digits)) [
    | inl more ↦ rw more (inr (pos, e), leb→le _ _ more, omega arith)
    | inr less ↦ rw less (w, omega arith, omega (arith, leb→gt _ _ less))
  ]

  step_lem :
      (amount : ℕ) (result : TestResult) (best : Best)
      → IsMeasurable (amount, result)
      → IsCounted best
      → (next : Best) × (find_best_step amount result best ≡ ok next)
        × IsCounted next
        × (best.max_digits ≤ next.max_digits)
        × IsBeaten next (amount, result)
  unfolding find_best_step
  step_lem amount no_response best m w = (best, refl, w, omega arith, tt)
  step_lem amount (rejected r) best m w = (_, refl, w, omega arith, tt)
  step_lem amount (answered p) best (pos, long) w =
      let (digits, e, _, _) = count_digits_lem p.prepare_amount long in
      let (counted, more, beaten) = taken_lem amount digits p best pos e w in
      (
        taken amount p digits best,
        better_lem amount digits p best pos e,
        counted,
        more,
        (digits, e, beaten),
      )

  IsBeaten-later :
      (best later : Best) (t : ℕ × TestResult)
      → best.max_digits ≤ later.max_digits
      → IsBeaten best t
      → IsBeaten later t
  IsBeaten-later best later (amount, answered p) more (n, e, le) = (n, e, omega (arith, more, le))
  IsBeaten-later best later (amount, no_response) more h = tt
  IsBeaten-later best later (amount, rejected r) more h = tt

  find_best_from :
      (tests : List (ℕ × TestResult)) (best : Best)
      → All IsMeasurable tests
      → IsCounted best
      → (r : Best) × (find_best tests best ≡ ok r)
        × IsCounted r
        × (best.max_digits ≤ r.max_digits)
        × All (IsBeaten r) tests
  unfolding find_best
  find_best_from [] best m w = (best, refl, w, omega arith, tt)
  find_best_from ((amount, result) ∷ rest) best (first, others) w =
      let (next, e, counted, more, beaten) = step_lem amount result best first w in
      let (r, f, rest_counted, rest_more, rest_beaten) = find_best_from rest next others counted in
      (
        r,
        rw e f,
        rest_counted,
        omega (arith, more, rest_more),
        (IsBeaten-later next r (amount, result) rest_more beaten, rest_beaten),
      )

  -- Where the test packets of a volley had positive amounts and delivered Longs, a best one is always
  -- found: none of the deliveries has more digits, and its rate is a fraction whose numerator has
  -- that number of digits, unless there are none.
  pub find_best_lem :
      (tests : List (ℕ × TestResult))
      → All IsMeasurable tests
      → (r : Best) × (find_best tests no_best ≡ ok r) × IsCounted r × All (IsBeaten r) tests
  find_best_lem tests m =
      let (r, e, counted, _, beaten) = find_best_from tests no_best m (inl refl) in
      (r, e, counted, beaten)

  -- The same of any best that was found.
  better-eq-ok :
      (amount : ℕ) (p : Packet) (best next : Best)
      → better amount p best ≡ ok next
      → IsCounted best
      → IsCounted next
  unfolding better
  better-eq-ok amount p best next e w =
      let (rate, first, rest) =
        >>=-eq-ok (new_rational p.prepare_amount (number.from_number amount) true) _ e in
      let (digits, second, _) = >>=-eq-ok (count_digits p.prepare_amount) _ rest in
      let pos = new_rational-pos p.prepare_amount (number.from_number amount) first in
      let same = sym (better_lem amount digits p best pos second) ∙ e in
      subst IsCounted (ok-inj same) (taken_lem amount digits p best pos second w).0

  pub find_best-IsCounted :
      (tests : List (ℕ × TestResult)) (best r : Best)
      → find_best tests best ≡ ok r
      → IsCounted best
      → IsCounted r
  unfolding find_best find_best_step
  find_best-IsCounted [] best r e w = subst IsCounted (ok-inj e) w
  find_best-IsCounted ((amount, no_response) ∷ rest) best r e w =
      find_best-IsCounted rest best r e w
  find_best-IsCounted ((amount, rejected reject) ∷ rest) best r e w =
      find_best-IsCounted rest _ r e w
  find_best-IsCounted ((amount, answered p) ∷ rest) best r e w =
      let (next, first, others) = >>=-eq-ok (better amount p best) _ e in
      find_best-IsCounted rest next r others (better-eq-ok amount p best next first w)
