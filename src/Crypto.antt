-- ===== src/Crypto.antt =====
-- util/crypto-node.ts and crypto.ts: what surrounds Node's ciphers and hashes. Those are the interface
-- `CryptoApi`; the random IV of an encryption is an argument.
pub mod Overhead
pub mod Keys
pub mod Browser
use ilp_protocol_stream.Base.{
  ℕ, ◌+◌, ◌≡◌, List, [], ◌∷◌, ◌++◌, length, take, drop, Option, none, some, Result, ok, throw,
  not_decrypted,
}
use ilp_protocol_stream.Oer.{Bytes}

pub record CryptoApi : Type 0 where
  -- The ciphertext and the tag of `aes-256-gcm` under a key and an IV, and their opening.
  pub cipher : Bytes → Bytes → Bytes → Bytes
  pub auth_tag : Bytes → Bytes → Bytes → Bytes
  pub decipher : Bytes → Bytes → Bytes → Bytes → Option Bytes
  pub hmac_sha256 : Bytes → Bytes → Bytes
  pub sha256 : Bytes → Bytes
  pub decipher-cipher :
      (key iv plain : Bytes)
      → decipher key iv (auth_tag key iv plain) (cipher key iv plain) ≡ some plain
  pub length-cipher : (key iv plain : Bytes) → length (cipher key iv plain) ≡ length plain
  pub length-auth_tag : (key iv plain : Bytes) → length (auth_tag key iv plain) ≡ 16
  pub length-hmac_sha256 : (key message : Bytes) → length (hmac_sha256 key message) ≡ 32

abbrev pub iv_length : ℕ
iv_length = 12

abbrev pub auth_tag_length : ℕ
auth_tag_length = 16

abbrev pub encryption_overhead : ℕ
encryption_overhead = 28

-- `Buffer.concat` of the buffers that `encrypt` is given.
abbrev pub concat : List Bytes → Bytes
concat [] = []
concat (b ∷ rest) = b ++ concat rest

module _ ⦃crypto : CryptoApi⦄ where
  pub encrypt : Bytes → Bytes → List Bytes → Bytes
  encrypt iv key buffers =
      let plain = concat buffers in
      iv ++ (crypto.auth_tag key iv plain ++ crypto.cipher key iv plain)

  -- The slices of `decryptSync`; an empty buffer fails its assertion.
  unfoldable pub decrypt_slices : Bytes → Bytes → Option Bytes
  decrypt_slices key bytes =
      crypto.decipher key (take iv_length bytes) (take auth_tag_length (drop iv_length bytes))
        (drop (iv_length + auth_tag_length) bytes)

  unfoldable pub decrypt : Bytes → Bytes → Result Bytes
  unfolding decrypt_slices
  decrypt key [] = throw not_decrypted
  decrypt key (b ∷ rest) = elim (decrypt_slices key (b ∷ rest)) [
    | none ↦ throw not_decrypted
    | some plain ↦ ok plain
  ]
