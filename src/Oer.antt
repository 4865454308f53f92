-- ===== src/Oer.antt =====
-- The readers and writers of the `oer-utils` package that the code calls, and what that package
-- documents of them: a reader gives back what the writer of the same name wrote, and goes on behind
-- it. A Buffer is the list of its bytes; a reader that runs out of bytes throws.
use ilp_protocol_stream.Base.{ℕ, ◌^◌, ◌≤◌, ◌<◌, ◌≡◌, List, ◌++◌, length, Result, ok, throw}
use ilp_protocol_stream.Long.Interface.{IsLong}

abbrev pub Bytes : Type 0
Bytes = List ℕ

-- A reading of an `A`: from the bytes that are left to the value and the bytes behind it.
abbrev pub Reader : Type 0 → Type 0
Reader A = Bytes → Result (A × Bytes)

infixl 5 ◌>>=◌
abbrev pub ◌>>=◌ : {A B : Type 0} → Reader A → (A → Reader B) → Reader B
◌>>=◌ m f input = elim (m input) [ throw e ↦ throw e | ok (a, rest) ↦ f a rest ]

abbrev pub pure : {A : Type 0} → A → Reader A
pure a rest = ok (a, rest)

pub record OerApi : Type 0 where
  pub write_uint8 : ℕ → Bytes
  pub write_uint64 : ℕ → Bytes
  pub write_var_uint : ℕ → Bytes
  pub write_var_octets : Bytes → Bytes
  pub read_uint8 : Reader ℕ
  pub read_uint64 : Reader ℕ
  pub read_var_uint : Reader ℕ
  pub read_var_uint_number : Reader ℕ
  pub read_octets : ℕ → Reader Bytes
  pub read_var_octets : Reader Bytes
  pub read-write_uint8 :
      (v : ℕ) (rest : Bytes) → v < 256 → read_uint8 (write_uint8 v ++ rest) ≡ ok (v, rest)
  pub read-write_uint64 :
      (v : ℕ) (rest : Bytes) → IsLong v → read_uint64 (write_uint64 v ++ rest) ≡ ok (v, rest)
  pub read-write_var_uint :
      (v : ℕ) (rest : Bytes) → IsLong v → read_var_uint (write_var_uint v ++ rest) ≡ ok (v, rest)
  pub read_number-write_var_uint :
      (v : ℕ) (rest : Bytes)
      → v < 2 ^ 53
      → read_var_uint_number (write_var_uint v ++ rest) ≡ ok (v, rest)
  pub read-write_octets :
      (n : ℕ) (bytes rest : Bytes)
      → length bytes ≡ n
      → read_octets n (bytes ++ rest) ≡ ok (bytes, rest)
  pub read-write_var_octets :
      (bytes rest : Bytes) → read_var_octets (write_var_octets bytes ++ rest) ≡ ok (bytes, rest)
  -- A VarUInt is the VarOctetString of its bytes, 8 at most for a Long.
  pub var_uint_octets :
      (v : ℕ) (rest : Bytes)
      → IsLong v
      → (octets : Bytes) × (read_var_octets (write_var_uint v ++ rest) ≡ ok (octets, rest))
        × (length octets ≤ 8)
  pub length-write_uint8 : (v : ℕ) → length (write_uint8 v) ≡ 1
  pub length-write_uint64 : (v : ℕ) → length (write_uint64 v) ≡ 8
  -- A VarOctetString has its length before its bytes.
  pub length-write_var_octets : (bytes : Bytes) → length bytes < length (write_var_octets bytes)
