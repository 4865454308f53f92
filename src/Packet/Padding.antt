-- ===== src/Packet/Padding.antt =====
-- `serializeAndEncrypt` and `decryptAndDeserialize`: a packet as the data of an ILP packet.
use ilp_protocol_stream.Base.{
  ℕ, zero, suc, ◌+◌, ◌-◌, ◌*◌, ◌/◌, ◌%◌, ◌≤◌, ◌≡◌, refl, sym, ap, ◌∙◌, ltb, le→ltb, ◌==◌,
  if◌then◌else◌, List, [], ◌∷◌, ◌++◌, length, length-append, length-replicate, replicate, Option,
  none, some, Result, ok, throw, not_decrypted, arith,
}
use mathlib.Core.List.{append_assoc, append-nil}
use ilp_protocol_stream.Oer.{Bytes, OerApi}
use ilp_protocol_stream.Crypto.{CryptoApi, encrypt, decrypt, concat, encryption_overhead, iv_length}
use ilp_protocol_stream.Crypto.Overhead.{decrypt-encrypt}
use ilp_protocol_stream.Packet.{Packet, serialize, deserialize}
use ilp_protocol_stream.Packet.RoundTrip.{PacketFits, deserialize-serialize}

abbrev pub zero_bytes : Bytes
zero_bytes = replicate 32 0

abbrev pub whole_blocks : ℕ → List Bytes
whole_blocks n = replicate n zero_bytes

-- The buffers behind the serialized packet, for a target size and the size with the overhead. Where
-- the packet is larger than the target, the remainder is negative, and `ZERO_BYTES.slice(0, -k)` is
-- the 32 bytes without the last k.
pub padding : ℕ → ℕ → List Bytes
padding target size =
    if ltb target size
    then (let over = (size - target) % 32 in
        if over == 0 then [] ∷ [] else replicate (32 - over) 0 ∷ [])
    else whole_blocks ((target - size) / 32) ++ replicate ((target - size) % 32) 0 ∷ []

module _ ⦃oer : OerApi⦄ ⦃crypto : CryptoApi⦄ where
  pub serialize_and_encrypt : Bytes → Bytes → Packet → Option ℕ → Bytes
  serialize_and_encrypt iv key p none = encrypt iv key (serialize p ∷ [])
  serialize_and_encrypt iv key p (some target) =
      encrypt iv key (serialize p ∷ padding target (encryption_overhead + length (serialize p)))

  -- Any failure of the decryption is thrown as one error.
  unfoldable pub decrypt_and_deserialize : Bytes → Bytes → Result Packet
  decrypt_and_deserialize key bytes = elim (decrypt key bytes) [
    | throw e ↦ throw not_decrypted
    | ok plain ↦ deserialize plain
  ]

concat-append : (xs ys : List Bytes) → concat (xs ++ ys) ≡ concat xs ++ concat ys
concat-append [] ys = refl
concat-append (x ∷ xs) ys = ap (λ t. x ++ t) (concat-append xs ys) ∙ sym (append_assoc x _ _)

length-whole_blocks : (n : ℕ) → length (concat (whole_blocks n)) ≡ 32 * n
length-whole_blocks zero = refl
length-whole_blocks (suc n) =
    omega (arith, length-whole_blocks n, length-append zero_bytes (concat (whole_blocks n)))

length-padding :
    (target size : ℕ) → size ≤ target → length (concat (padding target size)) ≡ target - size
unfolding padding
length-padding target size h =
    let n = target - size in
    let blocks : List Bytes = whole_blocks (n / 32) in
    let last : Bytes = replicate (n % 32) 0 in
    rw (le→ltb target size h, concat-append blocks (last ∷ []), append-nil last)
      (omega (
        arith,
        length-append (concat blocks) last,
        length-whole_blocks (n / 32),
        length-replicate {A = ℕ} (n % 32) 0,
      ))

module _ ⦃oer : OerApi⦄ ⦃crypto : CryptoApi⦄ where
  -- With an IV of 12 bytes, a packet that fits its encoding is read back by the same key, without
  -- padding and with padding to any size, also one that is smaller than the packet.
  pub decrypt_and_deserialize-serialize_and_encrypt :
      (iv key : Bytes) (p : Packet) (target : ℕ)
      → length iv ≡ iv_length
      → PacketFits p
      → (decrypt_and_deserialize key (serialize_and_encrypt iv key p none) ≡ ok p)
        × (decrypt_and_deserialize key (serialize_and_encrypt iv key p (some target)) ≡ ok p)
  unfolding decrypt_and_deserialize serialize_and_encrypt
  decrypt_and_deserialize-serialize_and_encrypt iv key p target hiv h =
      let size = encryption_overhead + length (serialize p) in
      let pad = padding target size in
      let (plain, _) = decrypt-encrypt iv key (serialize p ∷ []) hiv in
      let (padded, _) = decrypt-encrypt iv key (serialize p ∷ pad) hiv in
      (
        rw (plain, decrypt_and_deserialize) (deserialize-serialize p [] h),
        rw (padded, decrypt_and_deserialize) (deserialize-serialize p (concat pad) h),
      )

  -- With an IV of 12 bytes, the data of a packet that is padded to a size it does not exceed has
  -- exactly that size.
  pub length-serialize_and_encrypt :
      (iv key : Bytes) (p : Packet) (target : ℕ)
      → length iv ≡ iv_length
      → encryption_overhead + length (serialize p) ≤ target
      → length (serialize_and_encrypt iv key p (some target)) ≡ target
  unfolding serialize_and_encrypt
  length-serialize_and_encrypt iv key p target hiv fits =
      let pad = padding target (encryption_overhead + length (serialize p)) in
      let (_, long) = decrypt-encrypt iv key (serialize p ∷ pad) hiv in
      omega (
        arith,
        long,
        length-append (serialize p) (concat pad),
        length-padding target (encryption_overhead + length (serialize p)) fits,
      )
