-- ===== src/Long/Bounds.antt =====
-- The checked operations and the choices of util/long.ts against the exact numbers.
use ilp_protocol_stream.Base.{
  ℕ, zero, suc, ◌+◌, ◌-◌, ◌*◌, ◌/◌, ◌^◌, ◌≤◌, ◌<◌, ◌≡◌, refl, true, false, ltb, leb, ◌⊎◌, inl, inr,
  if◌then◌else◌, Bool-cases, List, [], ◌∷◌, All, ok, min, max, arith,
}
use native.Mathlib.Nat.{pow-suc, zero-add}
use ilp_protocol_stream.Long.{
  max_long, min_long, min_longs_loop, min_longs, checked_add, checked_subtract, checked_multiply,
  count_digits_loop, count_digits,
}
use ilp_protocol_stream.Long.Interface.{LongApi, max_unsigned, IsLong}

pub min_long-min : (a b : ℕ) → min_long a b ≡ min a b
unfolding min_long
min_long-min a b = ground arith

pub min_long-cases : (a b : ℕ) → (min_long a b ≡ a) ⊎ (min_long a b ≡ b)
unfolding min_long
min_long-cases a b = elim (Bool-cases (ltb a b)) [ inl e ↦ inl (rw e) | inr e ↦ inr (rw e) ]

pub min_long-le : (a b : ℕ) → (min_long a b ≤ a) × (min_long a b ≤ b)
unfolding min_long
min_long-le a b = ground arith

pub min_long-pos : (a b : ℕ) → 0 < a → 0 < b → 0 < min_long a b
unfolding min_long
min_long-pos a b = ground arith

pub max_long-max : (a b : ℕ) → max_long a b ≡ max a b
unfolding max_long
max_long-max a b = ground arith

pub max_long-le : (a b : ℕ) → (a ≤ max_long a b) × (b ≤ max_long a b)
unfolding max_long
max_long-le a b = ground arith

All-mono {ℓ} :
    {A : Type ℓ} (P Q : A → Type 0) (xs : List A) → ((x : A) → P x → Q x) → All P xs → All Q xs
All-mono P Q [] f h = tt
All-mono P Q (x ∷ xs) f h = (f x h.0, All-mono P Q xs f h.1)

min_longs_loop-le : (m : ℕ) (xs : List ℕ) → All (λ x. min_longs_loop m xs ≤ x) (m ∷ xs)
unfolding min_longs_loop
min_longs_loop-le m [] = omega arith
min_longs_loop-le m (x ∷ xs) =
    let (low, each) = min_longs_loop-le (min_long m x) xs in
    (omega (arith, low, min_long-le m x), (omega (arith, low, min_long-le m x), each))

-- No value is below the smallest of them.
min_longs_loop-pos : (m : ℕ) (xs : List ℕ) → 0 < m → All (λ x. 0 < x) xs → 0 < min_longs_loop m xs
unfolding min_longs_loop
min_longs_loop-pos m [] pos h = pos
min_longs_loop-pos m (x ∷ xs) pos (first, others) =
    min_longs_loop-pos (min_long m x) xs (min_long-pos m x pos first) others

pub min_longs-pos :
    (first : ℕ) (rest : List ℕ) → All (λ x. 0 < x) (first ∷ rest) → 0 < min_longs first rest
unfolding min_longs
min_longs-pos first rest h = min_longs_loop-pos first rest h.0 h.1

pub min_longs_lem : (first : ℕ) (rest : List ℕ) → All (λ x. min_longs first rest ≤ x) (first ∷ rest)
unfolding min_longs
min_longs_lem first rest = min_longs_loop-le first rest

digit_bound :
    (d v : ℕ)
    → ((v / 10 ≡ 0) × (d ≡ 0)) ⊎ ((0 < v / 10) × (10 ^ d ≤ 10 * (v / 10)))
    → 0 < v
    → 10 ^ suc d ≤ 10 * v
digit_bound d v (inl (small, e)) pos = rw e (omega arith)
digit_bound d v (inr (more, least)) pos = omega (arith, pow-suc 10 d)

module _ ⦃api : LongApi⦄ where
  -- The sum of two Longs saturates at 2 ^ 64 - 1, and the flag says whether it had to.
  pub checked_add_lem :
      (a b : ℕ)
      → IsLong a
      → IsLong b
      → checked_add a b ≡ (
          if ltb (a + b) (2 ^ 64)
          then record { value = a + b; wrapped = false }
          else record { value = max_unsigned; wrapped = true })
  unfolding checked_add
  checked_add_lem a b ha hb = ground (arith, api.add_wraps a b)

  -- The difference of two Longs: exact where it is not negative, and 0 with the flag set where it is
  -- and the wrapped number passes both arguments. Otherwise the wrapped number comes back unflagged.
  pub checked_subtract_lem :
      (a b : ℕ)
      → IsLong a
      → IsLong b
      → checked_subtract a b ≡ (
          if leb b a
          then record { value = a - b; wrapped = false }
          else if ltb (2 * b) (a + 2 ^ 64)
          then record { value = 0; wrapped = true }
          else record { value = a + 2 ^ 64 - b; wrapped = false })
  unfolding checked_subtract
  checked_subtract_lem a b ha hb = ground (arith, api.subtract_wraps a b)

  pub checked_subtract-ge :
      (a b : ℕ)
      → IsLong a
      → b ≤ a
      → checked_subtract a b ≡ record { value = a - b; wrapped = false }
  unfolding checked_subtract
  checked_subtract-ge a b ha h = ground (arith, api.subtract_wraps a b)

  -- Doubling a Long other than 0 saturates at 2 ^ 64 - 1, and the flag says whether it had to.
  pub checked_multiply-two :
      (a : ℕ)
      → 0 < a
      → IsLong a
      → checked_multiply a 2 ≡ (
          if ltb (a * 2) (2 ^ 64)
          then record { value = a * 2; wrapped = false }
          else record { value = max_unsigned; wrapped = true })
  unfolding checked_multiply
  checked_multiply-two a pos ha = ground (arith, api.multiply_wraps a 2)

  -- A product that wraps past both factors is not flagged: three times any Long from 2 ^ 63 up to
  -- two thirds of 2 ^ 64.
  pub checked_multiply-unflagged :
      (a : ℕ)
      → 2 ^ 63 ≤ a
      → a * 3 < 2 ^ 65
      → checked_multiply a 3 ≡ record { value = a * 3 - 2 ^ 64; wrapped = false }
  unfolding checked_multiply
  checked_multiply-unflagged a lo hi = ground (arith, api.multiply_wraps a 3)

  -- Zero times any other Long is flagged as an overflow, and comes back as 2 ^ 64 - 1.
  pub checked_multiply-zero :
      (b : ℕ) → 0 < b → checked_multiply 0 b ≡ record { value = max_unsigned; wrapped = true }
  unfolding checked_multiply
  checked_multiply-zero b h = ground (arith, api.multiply_wraps 0 b)

  count_digits_loop_lem :
      (fuel digits v : ℕ)
      → v < 10 ^ fuel
      → (d : ℕ) × (count_digits_loop fuel digits v ≡ ok (digits + d))
        × (v < 10 ^ d)
        × ((v ≡ 0) × (d ≡ 0) ⊎ (0 < v) × (10 ^ d ≤ 10 * v))
  unfolding count_digits_loop
  count_digits_loop_lem zero digits v h = (0, ground arith, omega arith, inl (omega arith, refl))
  count_digits_loop_lem (suc fuel) digits zero h = (0, ground arith, omega arith, inl (refl, refl))
  count_digits_loop_lem (suc fuel) digits (suc n) h =
      let v = suc n in
      let (d, e, below, least) =
        count_digits_loop_lem fuel (digits + 1) (v / 10) (omega (arith, pow-suc 10 fuel)) in
      (
        suc d,
        ground (arith, api.divide_floors v 10, e),
        omega (arith, below, pow-suc 10 d),
        inr (omega arith, digit_bound d v least (omega arith)),
      )

  -- For a Long v the call returns a number d, with 10 ^ (d - 1) ≤ v < 10 ^ d, or 0 for 0.
  pub count_digits_lem :
      (v : ℕ)
      → IsLong v
      → (d : ℕ) × (count_digits v ≡ ok d)
        × (v < 10 ^ d)
        × ((v ≡ 0) × (d ≡ 0) ⊎ (0 < v) × (10 ^ d ≤ 10 * v))
  unfolding count_digits
  count_digits_lem v h = simp zero-add at (count_digits_loop_lem 20 0 v (omega arith))
