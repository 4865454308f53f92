-- ===== src/Pool.antt =====
-- src/pool.ts: the connection that the pool opens for a prepare to an address with a token.
pub mod Opening
pub mod Requests
use ilp_protocol_stream.Base.{
  ℕ, ◌==◌, ◌%◌, if◌then◌else◌, List, [], ◌∷◌, map, length, Option, none, some, Error, Result, ok,
  throw, receipt_nonce_length, receipt_secret_length,
}
use ilp_protocol_stream.Base
use ilp_protocol_stream.Oer.{Bytes, Reader, OerApi, ◌>>=◌, pure}
use ilp_protocol_stream.Crypto.{CryptoApi, decrypt}
use ilp_protocol_stream.Crypto.Keys.{
  token_nonce_length, generate_shared_secret_from_token, generate_psk_encryption_key,
  decrypt_connection_address_token,
}
use ilp_protocol_stream.Connection.{Connection, Options, construct}
use ilp_protocol_stream.Server.{Base64Api}

-- What the token of an address says.
pub record Token : Type 0 where
  pub connection_tag : Option (List ℕ)
  pub receipt_nonce : Option Bytes
  pub receipt_secret : Option Bytes

-- `toString('ascii')`; an empty tag is none.
abbrev pub tag_of : Bytes → Option (List ℕ)
tag_of [] = none
tag_of (b ∷ bytes) = some (map (λ c. c % 128) (b ∷ bytes))

-- No bytes, exactly `n` of them, or an error.
abbrev pub sized : ℕ → Error → Bytes → Reader (Option Bytes)
sized n e bytes rest =
    if length bytes == 0
    then ok (none, rest)
    else if length bytes == n
    then ok (some bytes, rest)
    else throw e

module _ ⦃oer : OerApi⦄ where
  pub read_token : Reader Token
  read_token = do
    token_nonce ← oer.read_octets token_nonce_length
    tag ← oer.read_var_octets
    nonce_octets ← oer.read_var_octets
    receipt_nonce ← sized 16 receipt_nonce_length nonce_octets
    secret_octets ← oer.read_var_octets
    receipt_secret ← sized 32 receipt_secret_length secret_octets
    pure (record {
      connection_tag = tag_of tag;
      receipt_nonce = receipt_nonce;
      receipt_secret = receipt_secret;
    })

-- A connection, with what its options have besides the state.
pub record Opened : Type 0 where
  pub connection : Connection
  pub connection_tag : Option (List ℕ)
  pub shared_secret : Bytes

module _ ⦃crypto : CryptoApi⦄ where
  -- The secret of the token, if the data of the prepare decrypts with it.
  pub get_shared_secret : Bytes → Bytes → Bytes → Result Bytes
  get_shared_secret server_secret token bytes =
      let shared_secret = generate_shared_secret_from_token server_secret token in
      Base.◌>>=◌ (decrypt (generate_psk_encryption_key shared_secret) bytes)
        (λ plain. ok shared_secret)

module _ ⦃oer : OerApi⦄ ⦃crypto : CryptoApi⦄ where
  -- `Connection.build`, on the options of the pool and what the token says.
  pub build : Options → Bytes → Token × Bytes → Result Opened
  build options shared_secret (token, rest) =
      let opts = record options {
        receipt_nonce = token.receipt_nonce;
        receipt_secret = token.receipt_secret;
      } in
      Base.◌>>=◌ (construct opts) (λ c. ok (record {
        connection = c;
        connection_tag = token.connection_tag;
        shared_secret = shared_secret;
      }))

  pub open_token : Options → Bytes → Bytes → Bytes → Result Opened
  unfolding get_shared_secret read_token build
  open_token options server_secret token bytes =
      Base.◌>>=◌ (get_shared_secret server_secret token bytes) (λ shared_secret.
        Base.◌>>=◌ (decrypt_connection_address_token server_secret token)
          (λ contents. Base.◌>>=◌ (read_token contents) (build options shared_secret)))

module _ ⦃oer : OerApi⦄ ⦃crypto : CryptoApi⦄ ⦃base64 : Base64Api⦄ where
  -- The new connection of `getConnection`, for an identifier that no connection has yet.
  pub open_connection : Options → Bytes → List ℕ → Bytes → Result Opened
  unfolding open_token
  open_connection options server_secret id bytes =
      open_token options server_secret (base64.from_base64 id) bytes
