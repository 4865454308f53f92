-- ===== src/Long/Interface.antt =====
-- The operations of the `long` package that the code calls on unsigned Longs, and what its
-- documentation says of them: 64-bit arithmetic that wraps, and a division that throws on zero.
use ilp_protocol_stream.Base.{
  ℕ, ◌+◌, ◌-◌, ◌*◌, ◌/◌, ◌%◌, ◌^◌, ◌<◌, ◌≡◌, Bool, ◌==◌, Result, ok, throw, division_by_zero,
}

abbrev pub max_unsigned : ℕ
max_unsigned = 2 ^ 64 - 1

abbrev pub IsLong : ℕ → Type 0
IsLong a = a < 2 ^ 64

pub record LongApi : Type 0 where
  pub add : ℕ → ℕ → ℕ
  pub subtract : ℕ → ℕ → ℕ
  pub multiply : ℕ → ℕ → ℕ
  pub divide : ℕ → ℕ → Result ℕ
  pub modulo : ℕ → ℕ → Result ℕ
  pub bit_and : ℕ → ℕ → ℕ
  pub shift_left : ℕ → ℕ → ℕ
  pub shift_right_unsigned : ℕ → ℕ → ℕ
  pub is_odd : ℕ → Bool
  pub add_wraps : (a b : ℕ) → add a b ≡ (a + b) % 2 ^ 64
  pub subtract_wraps : (a b : ℕ) → subtract a b ≡ (a + 2 ^ 64 - b) % 2 ^ 64
  pub multiply_wraps : (a b : ℕ) → multiply a b ≡ a * b % 2 ^ 64
  pub divide_zero : (a : ℕ) → divide a 0 ≡ throw division_by_zero
  pub divide_floors : (a b : ℕ) → 0 < b → divide a b ≡ ok (a / b)
  pub modulo_zero : (a : ℕ) → modulo a 0 ≡ throw division_by_zero
  pub modulo_rest : (a b : ℕ) → 0 < b → modulo a b ≡ ok (a % b)
  pub bit_and_one : (a : ℕ) → bit_and a 1 ≡ a % 2
  pub shift_left_wraps : (a k : ℕ) → shift_left a k ≡ a * 2 ^ k % 2 ^ 64
  pub shift_right_floors : (a k : ℕ) → shift_right_unsigned a k ≡ a / 2 ^ k
  pub is_odd_lem : (a : ℕ) → is_odd a ≡ (a % 2 == 1)
