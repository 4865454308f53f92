-- ===== src/Pool/Opening.antt =====
-- A token that the server generated opens the connection that it was generated for.
use ilp_protocol_stream.Base.{
  ℕ, ◌%◌, ◌<◌, ◌≡◌, refl, sym, ap, ◌∙◌, ne→==, ==→eq, List, [], ◌∷◌, ◌++◌, map, All, length, true,
  false, Option, none, some, Error, ok, receipt_nonce_length, receipt_secret_length, arith,
}
use mathlib.Core.List.{append-nil}
use ilp_protocol_stream.Oer.{Bytes, OerApi, ◌>>=◌}
use ilp_protocol_stream.Crypto.{CryptoApi, iv_length, encrypt, decrypt}
use ilp_protocol_stream.Crypto.Keys.{
  token_nonce_length, generate_shared_secret_from_token, generate_psk_encryption_key,
  encrypt_connection_address_token, decrypt_connection_address_token,
}
use ilp_protocol_stream.Crypto.Overhead.{decrypt-encrypt}
use ilp_protocol_stream.Rational.{greater_than_one}
use ilp_protocol_stream.Connection.{Options, construct, new_connection, given, same}
use ilp_protocol_stream.Server.{
  Base64Api, AddressOptions, Server, Generated, ascii_bytes, bytes_or_empty, has_length,
  token_contents, address, base64url, generate_address_and_secret, connection_id,
}
use ilp_protocol_stream.Server.Addresses.{from_base64-base64url, connection_id-address}
use ilp_protocol_stream.Pool.{
  Token, Opened, tag_of, sized, read_token, get_shared_secret, build, open_token, open_connection,
}

-- The tag that was asked for: an empty one is none.
abbrev pub asked_tag : List ℕ → Option (List ℕ)
asked_tag [] = none
asked_tag (c ∷ tag) = some (c ∷ tag)

ascii_text : (tag : List ℕ) → All (λ c. c < 128) tag → map (λ c. c % 128) (ascii_bytes tag) ≡ tag
ascii_text [] h = refl
ascii_text (c ∷ tag) (first, others) =
    let same_character : c % 256 % 128 ≡ c = omega (arith, first) in
    rw (same_character, ascii_text tag others)

tag_of-ascii_bytes :
    (tag : List ℕ) → All (λ c. c < 128) tag → tag_of (ascii_bytes tag) ≡ asked_tag tag
tag_of-ascii_bytes [] h = refl
tag_of-ascii_bytes (c ∷ tag) h = ap some (ascii_text (c ∷ tag) h)

sized-bytes_or_empty :
    (n : ℕ) (e : Error) (o : Option Bytes) (rest : Bytes)
    → 0 < n
    → has_length n o ≡ true
    → sized n e (bytes_or_empty o) rest ≡ ok (o, rest)
sized-bytes_or_empty n e none rest pos h = refl
sized-bytes_or_empty n e (some bytes) rest pos h =
    let exact = ==→eq (length bytes) n h in
    rw (ne→== (length bytes) 0 (λ zero. omega (arith, pos, exact, zero)), h)

module _ ⦃oer : OerApi⦄ where
  -- The token of an address with these options, as it is read.
  abbrev pub told : AddressOptions → Token
  told opts = record {
    connection_tag = asked_tag opts.connection_tag;
    receipt_nonce = opts.receipt_nonce;
    receipt_secret = opts.receipt_secret;
  }

  read_token-token_contents :
      (token_nonce : Bytes) (opts : AddressOptions)
      → length token_nonce ≡ token_nonce_length
      → All (λ c. c < 128) opts.connection_tag
      → has_length 16 opts.receipt_nonce ≡ true
      → has_length 32 opts.receipt_secret ≡ true
      → read_token (token_contents token_nonce opts) ≡ ok (told opts, [])
  unfolding read_token token_contents
  read_token-token_contents token_nonce opts hn ht h16 h32 =
      let tag = ascii_bytes opts.connection_tag in
      let first = oer.write_var_octets tag in
      let nonce = bytes_or_empty opts.receipt_nonce in
      let second = oer.write_var_octets nonce in
      let secret = bytes_or_empty opts.receipt_secret in
      let third = oer.write_var_octets secret in
      rw (
        sym (append-nil third),
        oer.read-write_octets token_nonce_length token_nonce (first ++ (second ++ (third ++ [])))
            hn,
        oer.read-write_var_octets tag (second ++ (third ++ [])),
        oer.read-write_var_octets nonce (third ++ []),
        sized-bytes_or_empty 16 receipt_nonce_length opts.receipt_nonce (third ++ []) (omega arith)
            h16,
        oer.read-write_var_octets secret [],
        sized-bytes_or_empty 32 receipt_secret_length opts.receipt_secret [] (omega arith) h32,
        tag_of-ascii_bytes opts.connection_tag ht,
        ◌>>=◌,
      )

-- What the server asks of the options of an address.
pub record IsComplete (opts : AddressOptions) : Type 0 where
  pub together : same (given opts.receipt_nonce) (given opts.receipt_secret) ≡ true
  pub nonce_length : has_length 16 opts.receipt_nonce ≡ true
  pub secret_length : has_length 32 opts.receipt_secret ≡ true

module _ ⦃crypto : CryptoApi⦄ where
  decrypt-encrypt_one :
      (iv key plain : Bytes)
      → length iv ≡ iv_length
      → (decrypt key (encrypt iv key (plain ∷ [])) ≡ ok plain)
        × (0 < length (encrypt iv key (plain ∷ [])))
  decrypt-encrypt_one iv key plain h =
      let (opened, size) = decrypt-encrypt iv key (plain ∷ []) h in
      (opened ∙ ap ok (append-nil plain), omega (arith, size))

  get_shared_secret-encrypt :
      (server_secret token packet_iv plain : Bytes)
      → length packet_iv ≡ iv_length
      → (let shared = generate_shared_secret_from_token server_secret token in
          get_shared_secret server_secret token
            (encrypt packet_iv (generate_psk_encryption_key shared) (plain ∷ []))
          ≡ ok shared)
  unfolding get_shared_secret
  get_shared_secret-encrypt server_secret token packet_iv plain h =
      let shared = generate_shared_secret_from_token server_secret token in
      rw ((decrypt-encrypt_one packet_iv (generate_psk_encryption_key shared) plain h).0)

module _ ⦃oer : OerApi⦄ ⦃crypto : CryptoApi⦄ where
  -- The connection for a token.
  abbrev pub opened_for : Options → AddressOptions → Bytes → Opened
  opened_for options opts shared_secret = record {
    connection = new_connection (record options {
      receipt_nonce = opts.receipt_nonce;
      receipt_secret = opts.receipt_secret;
    });
    connection_tag = asked_tag opts.connection_tag;
    shared_secret = shared_secret;
  }

  build-told :
      (options : Options) (opts : AddressOptions) (shared rest : Bytes)
      → greater_than_one options.slippage ≡ false
      → IsComplete opts
      → build options shared (told opts, rest) ≡ ok (opened_for options opts shared)
  unfolding build construct
  build-told options opts shared rest slippage complete = rw (slippage, complete.together)

  open_token-generated :
      (options : Options) (opts : AddressOptions)
      (server_secret token_nonce iv packet_iv plain : Bytes)
      → length token_nonce ≡ token_nonce_length
      → length iv ≡ iv_length
      → length packet_iv ≡ iv_length
      → All (λ c. c < 128) opts.connection_tag
      → greater_than_one options.slippage ≡ false
      → IsComplete opts
      → (let token =
            encrypt_connection_address_token iv server_secret (token_contents token_nonce opts) in
          let shared = generate_shared_secret_from_token server_secret token in
          open_token options server_secret token
            (encrypt packet_iv (generate_psk_encryption_key shared) (plain ∷ []))
          ≡ ok (opened_for options opts shared))
  unfolding open_token encrypt_connection_address_token decrypt_connection_address_token
  open_token-generated options opts server_secret token_nonce iv packet_iv plain hn hi hp ht
        slippage complete =
      let contents = token_contents token_nonce opts in
      let token = encrypt iv server_secret (contents ∷ []) in
      let shared = generate_shared_secret_from_token server_secret token in
      rw
        (
          get_shared_secret-encrypt server_secret token packet_iv plain hp,
          (decrypt-encrypt_one iv server_secret contents hi).0,
          read_token-token_contents token_nonce opts hn ht complete.nonce_length
              complete.secret_length,
        )
        (build-told options opts shared [] slippage complete)

module _ ⦃oer : OerApi⦄ ⦃crypto : CryptoApi⦄ ⦃base64 : Base64Api⦄ where
  -- A connected server generates an address for complete options with a tag of ASCII characters, from
  -- a token nonce of 18 and an IV of 12 bytes. A prepare to that address has an identifier, and the
  -- first one whose data is encrypted with the key of the generated secret, under an IV of 12 bytes,
  -- opens a new connection: it has exactly the tag, the receipt nonce and the receipt secret that were
  -- asked for, and the secret that was generated. The pool's slippage is at most one.
  pub open_connection-generate_address_and_secret :
      (server : Server) (options : Options) (opts : AddressOptions)
      (token_nonce iv packet_iv plain : Bytes)
      → server.is_connected ≡ true
      → length token_nonce ≡ token_nonce_length
      → length iv ≡ iv_length
      → length packet_iv ≡ iv_length
      → All (λ c. c < 128) opts.connection_tag
      → greater_than_one options.slippage ≡ false
      → IsComplete opts
      → (g : Generated) × (id : List ℕ) × (generate_address_and_secret token_nonce iv opts server
          ≡ ok g)
        × (connection_id server.server_account g.destination_account ≡ ok id)
        × (open_connection options server.server_secret id
              (encrypt packet_iv (generate_psk_encryption_key g.shared_secret) (plain ∷ []))
            ≡ ok (opened_for options opts g.shared_secret))
  unfolding generate_address_and_secret open_connection encrypt_connection_address_token
  open_connection-generate_address_and_secret server options opts token_nonce iv packet_iv plain
        connected hn hi hp ht slippage complete =
      let secret = server.server_secret in
      let contents = token_contents token_nonce opts in
      let token = encrypt_connection_address_token iv secret contents in
      let shared = generate_shared_secret_from_token secret token in
      let bytes = encrypt packet_iv (generate_psk_encryption_key shared) (plain ∷ []) in
      (
        record {
          destination_account = address server.server_account (base64url token);
          shared_secret = shared;
          receipts_enabled = given opts.receipt_nonce;
        },
        base64url token,
        rw (connected, complete.together, complete.nonce_length, complete.secret_length),
        connection_id-address server.server_account token
            (decrypt-encrypt_one iv secret contents hi).1,
        ap (λ t. open_token options secret t bytes) (from_base64-base64url token)
            ∙ open_token-generated options opts secret token_nonce iv packet_iv plain hn hi hp ht
                slippage complete,
      )
