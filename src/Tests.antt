-- ===== src/Tests.antt =====
-- Stand-ins for the packages that the code calls, on which the examples run. They keep the laws of the
-- interfaces and are as simple as those allow: a number is written as one element of a list of bytes.
mod Money
mod Wire
mod Numbers
mod Connections
mod Packets
mod Servers
mod Discovery
mod Browser
mod Lifetimes
use ilp_protocol_stream.Base.{
  ℕ, zero, suc, ◌+◌, ◌-◌, ◌*◌, ◌/◌, ◌%◌, ◌^◌, ◌≡◌, refl, ap, ◌∙◌, subst, ltb, ◌==◌, if◌then◌else◌,
  ne→==, List, [], ◌∷◌, ◌++◌, length, take, drop, replicate, length-replicate, take-append_length,
  drop-append_length, length-append, le→ltb, some, Result, ok, throw, division_by_zero,
  out_of_bytes, arith,
}
use ilp_protocol_stream.Long.Interface.{LongApi}
use ilp_protocol_stream.Oer.{Bytes, Reader, OerApi}
use ilp_protocol_stream.Crypto.{CryptoApi}

unfoldable pub and_bits : ℕ → ℕ → ℕ → ℕ
and_bits zero a b = 0
and_bits (suc n) a b = a % 2 * (b % 2) + 2 * and_bits n (a / 2) (b / 2)

and_bits-zero : (n a : ℕ) → and_bits n a 0 ≡ 0
unfolding and_bits
and_bits-zero zero a = refl
and_bits-zero (suc n) a = omega (arith, and_bits-zero n (a / 2))

and_bits-one : (a : ℕ) → and_bits 64 a 1 ≡ a % 2
unfolding and_bits
and_bits-one a = omega (arith, and_bits-zero 63 (a / 2))

abbrev divide : ℕ → ℕ → Result ℕ
divide a b = if b == 0 then throw division_by_zero else ok (a / b)

abbrev modulo : ℕ → ℕ → Result ℕ
modulo a b = if b == 0 then throw division_by_zero else ok (a % b)

instance abbrev long : LongApi
long = record {
  add = λ a b. (a + b) % 2 ^ 64;
  subtract = λ a b. (a + 2 ^ 64 - b) % 2 ^ 64;
  multiply = λ a b. a * b % 2 ^ 64;
  divide = divide;
  modulo = modulo;
  bit_and = and_bits 64;
  shift_left = λ a k. a * 2 ^ k % 2 ^ 64;
  shift_right_unsigned = λ a k. a / 2 ^ k;
  is_odd = λ a. a % 2 == 1;
  add_wraps = λ a b. refl;
  subtract_wraps = λ a b. refl;
  multiply_wraps = λ a b. refl;
  divide_zero = λ a. refl;
  divide_floors = λ a b h. rw (ne→== b 0 (λ e. omega (arith, e, h)));
  modulo_zero = λ a. refl;
  modulo_rest = λ a b h. rw (ne→== b 0 (λ e. omega (arith, e, h)));
  bit_and_one = and_bits-one;
  shift_left_wraps = λ a k. refl;
  shift_right_floors = λ a k. refl;
  is_odd_lem = λ a. refl;
}

abbrev one_byte : Reader ℕ
one_byte [] = throw out_of_bytes
one_byte (x ∷ rest) = ok (x, rest)

abbrev read_octets : ℕ → Reader Bytes
read_octets n input =
    if ltb (length input) n then throw out_of_bytes else ok (take n input, drop n input)

abbrev read_var_octets : Reader Bytes
read_var_octets [] = throw out_of_bytes
read_var_octets (n ∷ rest) = read_octets n rest

abbrev read_var_uint : Reader ℕ
read_var_uint [] = throw out_of_bytes
read_var_uint (n ∷ []) = throw out_of_bytes
read_var_uint (n ∷ x ∷ rest) = ok (x, rest)

abbrev read_uint64 : Reader ℕ
read_uint64 [] = throw out_of_bytes
read_uint64 (x ∷ rest) = if ltb (length rest) 7 then throw out_of_bytes else ok (x, drop 7 rest)

read_octets-append :
    (n : ℕ) (bytes rest : Bytes)
    → length bytes ≡ n
    → read_octets n (bytes ++ rest) ≡ ok (bytes, rest)
read_octets-append n bytes rest e =
    let t : take n (bytes ++ rest) ≡ bytes =
      subst (λ k. take k (bytes ++ rest) ≡ bytes) e (take-append_length bytes rest) in
    let d : drop n (bytes ++ rest) ≡ rest =
      subst (λ k. drop k (bytes ++ rest) ≡ rest) e (drop-append_length bytes rest) in
    rw (le→ltb (length (bytes ++ rest)) n (omega (arith, e, length-append bytes rest)), t, d)

instance abbrev oer : OerApi
oer = record {
  write_uint8 = λ v. v ∷ [];
  write_uint64 = λ v. v ∷ replicate 7 0;
  write_var_uint = λ v. 1 ∷ v ∷ [];
  write_var_octets = λ bytes. length bytes ∷ bytes;
  read_uint8 = one_byte;
  read_uint64 = read_uint64;
  read_var_uint = read_var_uint;
  read_var_uint_number = read_var_uint;
  read_octets = read_octets;
  read_var_octets = read_var_octets;
  read-write_uint8 = λ v rest h. refl;
  read-write_uint64 = λ v rest h. rw (le→ltb (length (replicate 7 0 ++ rest)) 7 (omega arith));
  read-write_var_uint = λ v rest h. refl;
  read_number-write_var_uint = λ v rest h. refl;
  read-write_octets = read_octets-append;
  read-write_var_octets = λ bytes rest. read_octets-append (length bytes) bytes rest refl;
  var_uint_octets = λ v rest h. (v ∷ [], read_octets-append 1 (v ∷ []) rest refl, omega arith);
  length-write_uint8 = λ v. refl;
  length-write_uint64 = λ v. refl;
  length-write_var_octets = λ bytes. omega arith;
}

instance abbrev crypto : CryptoApi
crypto = record {
  cipher = λ key iv plain. plain;
  auth_tag = λ key iv plain. replicate 16 0;
  decipher = λ key iv tag bytes. some bytes;
  hmac_sha256 = λ key message. replicate 32 7;
  sha256 = λ message. replicate 32 9;
  decipher-cipher = λ key iv plain. refl;
  length-cipher = λ key iv plain. refl;
  length-auth_tag = λ key iv plain. refl;
  length-hmac_sha256 = λ key message. refl;
}
