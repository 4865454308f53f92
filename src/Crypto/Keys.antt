-- ===== src/Crypto/Keys.antt =====
-- util/crypto-node.ts and crypto.ts: the keys that are derived from a secret, and the tokens that
-- addresses carry.
use ilp_protocol_stream.Base.{ℕ, [], ◌∷◌, Result}
use ilp_protocol_stream.Oer.{Bytes}
use ilp_protocol_stream.Crypto.{CryptoApi, encrypt, decrypt}

-- 'ilp_stream_shared_secret'
abbrev pub shared_secret_generation_string : Bytes
shared_secret_generation_string =
    105 ∷ 108 ∷ 112 ∷ 95 ∷ 115 ∷ 116 ∷ 114 ∷ 101 ∷ 97 ∷ 109 ∷ 95 ∷ 115 ∷ 104 ∷ 97 ∷ 114 ∷ 101 ∷ 100
    ∷ 95 ∷ 115 ∷ 101 ∷ 99 ∷ 114 ∷ 101 ∷ 116 ∷ []

-- 'ilp_stream_encryption'
abbrev pub encryption_key_string : Bytes
encryption_key_string =
    105 ∷ 108 ∷ 112 ∷ 95 ∷ 115 ∷ 116 ∷ 114 ∷ 101 ∷ 97 ∷ 109 ∷ 95 ∷ 101 ∷ 110 ∷ 99 ∷ 114 ∷ 121 ∷ 112
    ∷ 116 ∷ 105 ∷ 111 ∷ 110 ∷ []

abbrev pub token_nonce_length : ℕ
token_nonce_length = 18

module _ ⦃crypto : CryptoApi⦄ where
  pub generate_shared_secret_from_token : Bytes → Bytes → Bytes
  generate_shared_secret_from_token seed token =
      crypto.hmac_sha256 (crypto.hmac_sha256 seed shared_secret_generation_string) token

  pub generate_psk_encryption_key : Bytes → Bytes
  generate_psk_encryption_key shared_secret = crypto.hmac_sha256 shared_secret encryption_key_string

  unfoldable pub encrypt_connection_address_token : Bytes → Bytes → Bytes → Bytes
  encrypt_connection_address_token iv seed token = encrypt iv seed (token ∷ [])

  unfoldable pub decrypt_connection_address_token : Bytes → Bytes → Result Bytes
  decrypt_connection_address_token seed token = decrypt seed token
