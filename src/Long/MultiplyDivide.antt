-- ===== src/Long/MultiplyDivide.antt =====
-- `multiplyDivide`: shift and add with a running remainder, against division of the exact product.
use ilp_protocol_stream.Base.{
  ℕ, zero, suc, ◌+◌, ◌-◌, ◌*◌, ◌/◌, ◌%◌, ◌^◌, ◌≤◌, ◌<◌, ◌≡◌, refl, ap, ◌∙◌, ◌⊎◌, inl, inr, true,
  false, ltb, leb, ◌==◌, leb→le, leb→gt, eq→==, ne→==, le→ltb, Bool-cases, ok, throw,
  division_by_zero, arith,
}
use native.Mathlib.Nat.{pow-suc, div-add-mod, mod-lt}
use ilp_protocol_stream.Long.{QuoRem, carry, add_bit, double, multiply_divide_loop, multiply_divide}
use ilp_protocol_stream.Long.Interface.{LongApi, max_unsigned, IsLong}

-- The number that a quotient and a remainder by `c` stand for.
abbrev pub total : ℕ → QuoRem → ℕ
total c s = s.quo * c + s.rem

quo_lt : (q c r m : ℕ) → q * c + r < m * c → q < m
quo_lt q c r m h = grind arith

div_unique : (q r c t : ℕ) → t ≡ q * c + r → r < c → (t / c ≡ q) × (t % c ≡ r)
div_unique q r c t e h = grind arith

mod_two : (a : ℕ) → (a % 2 ≡ 0) ⊎ (a % 2 ≡ 1)
mod_two a = grind arith

halve : (a d : ℕ) → a * d ≡ a / 2 * (2 * d) + a % 2 * d
halve a d = omega (arith, ap (λ (x : ℕ). x * d) (div-add-mod a 2))

div_total : (b c : ℕ) → b ≡ b / c * c + b % c
div_total b c = omega (arith, div-add-mod b c)

div_lt : (t c m : ℕ) → 0 < c → t / c < m → t < m * c
div_lt t c m pos h = grind (arith, div-add-mod t c, mod-lt t pos)

half_lt : (fuel a : ℕ) → a < 2 ^ suc fuel → a / 2 < 2 ^ fuel
half_lt fuel a h = omega (arith, pow-suc 2 fuel)

module _ ⦃api : LongApi⦄ where
  carry_lem :
      (c quo rem : ℕ)
      → 0 < c
      → rem < 2 * c
      → c ≤ 2 ^ 63
      → quo * c + rem < 2 ^ 64 * c
      → (total c (carry c quo rem) ≡ quo * c + rem)
        × ((carry c quo rem).rem < c)
        × (quo ≤ (carry c quo rem).quo)
        × IsLong (carry c quo rem).quo
  unfolding carry
  carry_lem c quo rem pos hr small h = elim (Bool-cases (leb c rem)) [
    | inl more ↦
        let le : c ≤ rem = leb→le c rem more in
        let fits : quo + 1 < 2 ^ 64 = quo_lt (quo + 1) c (rem - c) (2 ^ 64) (omega arith) in
        let up : api.add quo 1 ≡ quo + 1 = omega (arith, api.add_wraps quo 1) in
        let down : api.subtract rem c ≡ rem - c = omega (arith, api.subtract_wraps rem c) in
        rw (more, up, down) (omega arith, omega arith, omega arith, omega arith)
    | inr less ↦
        let fits : quo < 2 ^ 64 = quo_lt quo c rem (2 ^ 64) h in
        rw less (refl, omega (arith, leb→gt c rem less), omega arith, fits)
  ]

  -- A round on an odd `a` adds the current term, without a wrap while the exact total fits.
  add_bit_lem :
      (a c : ℕ) (acc term : QuoRem)
      → 0 < c
      → c ≤ 2 ^ 63
      → acc.rem < c
      → term.rem < c
      → a % 2 ≡ 1
      → total c acc + total c term < 2 ^ 64 * c
      → (total c (add_bit a c acc term) ≡ total c acc + total c term)
        × ((add_bit a c acc term).rem < c)
        × (acc.quo ≤ (add_bit a c acc term).quo)
        × IsLong (add_bit a c acc term).quo
  unfolding add_bit
  add_bit_lem a c acc term pos small hr ht odd h =
      let q = acc.quo + term.quo in
      let r = acc.rem + term.rem in
      let fits : q < 2 ^ 64 = quo_lt q c r (2 ^ 64) (omega arith) in
      let quo : api.add acc.quo term.quo ≡ q = omega (arith, api.add_wraps acc.quo term.quo) in
      let rem : api.add acc.rem term.rem ≡ r = omega (arith, api.add_wraps acc.rem term.rem) in
      let set : (api.bit_and a 1 == 0) ≡ false = ground (arith, api.bit_and_one a) in
      let (whole, low, mono, long) = carry_lem c q r pos (omega arith) small (omega arith) in
      rw (set, quo, rem) (omega (arith, whole), low, omega (arith, mono), long)

  pub add_bit_even : (a c : ℕ) (acc term : QuoRem) → a % 2 ≡ 0 → add_bit a c acc term ≡ acc
  unfolding add_bit
  add_bit_even a c acc term even =
      let clear : (api.bit_and a 1 == 0) ≡ true = ground (arith, api.bit_and_one a) in rw clear

  double_lem :
      (c : ℕ) (term : QuoRem)
      → 0 < c
      → c ≤ 2 ^ 63
      → term.rem < c
      → 2 * total c term < 2 ^ 64 * c
      → (total c (double c term) ≡ 2 * total c term) × ((double c term).rem < c)
  unfolding double
  double_lem c term pos small ht h =
      let q = term.quo * 2 in
      let r = term.rem * 2 in
      let fits : q < 2 ^ 64 = quo_lt q c r (2 ^ 64) (omega arith) in
      let quo : api.shift_left term.quo 1 ≡ q = omega (arith, api.shift_left_wraps term.quo 1) in
      let rem : api.shift_left term.rem 1 ≡ r = omega (arith, api.shift_left_wraps term.rem 1) in
      let (whole, low, _, _) = carry_lem c q r pos (omega arith) small (omega arith) in
      rw (quo, rem) (omega (arith, whole), low)

  add_bit-total :
      (a c : ℕ) (acc term : QuoRem)
      → 0 < c
      → c ≤ 2 ^ 63
      → acc.rem < c
      → term.rem < c
      → total c acc + a % 2 * total c term < 2 ^ 64 * c
      → (total c (add_bit a c acc term) ≡ total c acc + a % 2 * total c term)
        × ((add_bit a c acc term).rem < c)
        × (acc.quo ≤ (add_bit a c acc term).quo)
  add_bit-total a c acc term pos small hr ht h = elim (mod_two a) [
    | inl even ↦ rw (even, add_bit_even a c acc term even) (omega arith, hr, omega arith)
    | inr odd ↦
        let bound = rw odd at h in
        let (whole, low, mono, _) =
          add_bit_lem a c acc term pos small hr ht odd (omega (arith, bound)) in
        rw odd (omega (arith, whole), low, mono)
  ]

  -- The term for the bits of `a` that are left, `D` for each unit of `a`. It may have wrapped once no
  -- bit is left.
  abbrev IsTerm : ℕ → ℕ → ℕ → QuoRem → Type 0
  IsTerm a c D term = (a ≡ 0) ⊎ ((D ≡ total c term) × (term.rem < c))

  double-IsTerm :
      (a c D t : ℕ) (acc term : QuoRem)
      → 0 < c
      → c ≤ 2 ^ 63
      → a * (2 * D) + t < 2 ^ 64 * c
      → D ≡ total c term
      → term.rem < c
      → IsTerm a c (2 * D) (double c term)
  double-IsTerm zero c D t acc term pos small fits e h = inl refl
  double-IsTerm (suc a) c D t acc term pos small fits e h =
      let (whole, low) = double_lem c term pos small h (grind arith) in
      inr (omega (arith, whole), low)

  pub loop_end :
      (fuel c t : ℕ) (acc term : QuoRem)
      → t ≡ total c acc
      → acc.rem < c
      → multiply_divide_loop fuel 0 c acc term ≡ ok (record { quo = t / c; rem = t % c })
  unfolding multiply_divide_loop
  loop_end zero c t acc term e h = let (q, r) = div_unique acc.quo acc.rem c t e h in rw (q, r)
  loop_end (suc fuel) c t acc term e h =
      let (q, r) = div_unique acc.quo acc.rem c t e h in rw (q, r)

  -- A round whose accumulator does not fall goes on with half of `a`.
  pub loop_round :
      (fuel a c : ℕ) (acc term : QuoRem)
      → 0 < a
      → acc.quo ≤ (add_bit a c acc term).quo
      → multiply_divide_loop (suc fuel) a c acc term
        ≡ multiply_divide_loop fuel (a / 2) c (add_bit a c acc term) (double c term)
  unfolding multiply_divide_loop
  loop_round fuel a c acc term pos mono =
      let half : api.shift_right_unsigned a 1 ≡ a / 2 = api.shift_right_floors a 1 in
      rw (ne→== a 0 (omega arith), le→ltb _ _ mono, half)

  loop_exact :
      (fuel a c D t : ℕ) (acc term : QuoRem)
      → a < 2 ^ fuel
      → 0 < c
      → c ≤ 2 ^ 63
      → acc.rem < c
      → t ≡ a * D + total c acc
      → t < 2 ^ 64 * c
      → IsTerm a c D term
      → multiply_divide_loop fuel a c acc term ≡ ok (record { quo = t / c; rem = t % c })
  loop_exact fuel zero c D t acc term ha pos small hr e fits ht =
      loop_end fuel c t acc term (omega arith) hr
  loop_exact zero (suc a) c D t acc term ha pos small hr e fits ht = absurd (omega arith)
  loop_exact (suc fuel) (suc a) c D t acc term ha pos small hr e fits (inl z) = absurd (omega arith)
  loop_exact (suc fuel) (suc a) c D t acc term ha pos small hr e fits (inr (d, ht)) =
      let n = suc a in
      let halves = halve n D in
      let term_total = ap (λ (x : ℕ). n % 2 * x) d in
      let left : n / 2 * (2 * D) + (n % 2 * D + total c acc) < 2 ^ 64 * c = omega (arith, halves) in
      let (whole, low, mono) =
        add_bit-total n c acc term pos small hr ht (omega (arith, left, term_total)) in
      let acc' = add_bit n c acc term in
      loop_round fuel n c acc term (omega arith) mono
      ∙ loop_exact fuel (n / 2) c (2 * D) t acc' (double c term) (omega (arith, pow-suc 2 fuel)) pos
          small low (omega (arith, halves, whole, term_total)) fits
          (double-IsTerm (n / 2) c D (n % 2 * D + total c acc) acc term pos small left d ht)

  -- For two Longs a and b and a divisor c from 1 to 2 ^ 63, where the quotient of the exact
  -- product fits a Long, the result is that quotient and its remainder.
  pub multiply_divide_exact :
      (a b c : ℕ)
      → IsLong a
      → IsLong b
      → 0 < c
      → c ≤ 2 ^ 63
      → a * b / c < 2 ^ 64
      → multiply_divide a b c ≡ ok (record { quo = a * b / c; rem = a * b % c })
  unfolding multiply_divide
  multiply_divide_exact a b c ha hb pos small fits =
      rw (api.divide_floors b c pos, api.modulo_rest b c pos)
        (loop_exact 64 a c b (a * b) (record { quo = 0; rem = 0 }) _ ha pos small pos (omega arith)
          (div_lt (a * b) c (2 ^ 64) pos fits) (inr (div_total b c, mod-lt b pos)))

  loop_total :
      (fuel a c : ℕ) (acc term : QuoRem)
      → a < 2 ^ fuel
      → (s : QuoRem) × (multiply_divide_loop fuel a c acc term ≡ ok s)
  unfolding multiply_divide_loop
  loop_total zero a c acc term h = (acc, rw (eq→== a 0 (omega arith)))
  loop_total (suc fuel) zero c acc term h = (acc, refl)
  loop_total (suc fuel) (suc a) c acc term h =
      let half : api.shift_right_unsigned (suc a) 1 ≡ suc a / 2 =
        api.shift_right_floors (suc a) 1 in
      let nonzero = ne→== (suc a) 0 (omega arith) in
      elim (Bool-cases (ltb (add_bit (suc a) c acc term).quo acc.quo)) [
        | inl falls ↦ (record { quo = max_unsigned; rem = 0 }, rw (nonzero, falls))
        | inr grows ↦
            let (s, e) =
              loop_total fuel (suc a / 2) c (add_bit (suc a) c acc term) (double c term)
                (half_lt fuel (suc a) h) in
            (s, rw (nonzero, grows, half) e)
      ]

  -- For a Long `a` the loop always ends: the call returns a value unless c is 0, and then it throws.
  pub multiply_divide_total :
      (a b c : ℕ)
      → IsLong a
      → ((c ≡ 0) × (multiply_divide a b c ≡ throw division_by_zero))
        ⊎ ((0 < c) × (s : QuoRem) × (multiply_divide a b c ≡ ok s))
  unfolding multiply_divide
  multiply_divide_total a b zero ha = inl (refl, rw (api.divide_zero b))
  multiply_divide_total a b (suc c) ha =
      let pos : 0 < suc c = omega arith in
      let term : QuoRem = record { quo = b / suc c; rem = b % suc c } in
      let (s, e) = loop_total 64 a (suc c) (record { quo = 0; rem = 0 }) term ha in
      inr (pos, s, rw (api.divide_floors b (suc c) pos, api.modulo_rest b (suc c) pos) e)
