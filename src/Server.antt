-- ===== src/Server.antt =====
-- src/server.ts: the addresses that a server generates, and the connection's identifier in the address
-- of a prepare. A text is the list of its characters' codes; Node's conversion of bytes to base64 is
-- the interface Base64Api.
pub mod Addresses
use ilp_protocol_stream.Base.{
  ℕ, ◌==◌, ◌&&◌, ◌%◌, ◌≡◌, ◌<◌, if◌then◌else◌, List, [], ◌∷◌, ◌++◌, map, All, length, drop, Bool,
  true, false, Option, none, some, Result, ok, throw, guard, ◌>>◌, server_not_connected,
  unreachable, receipt_incomplete, receipt_nonce_length, receipt_secret_length,
}
use ilp_protocol_stream.Oer.{Bytes, OerApi}
use ilp_protocol_stream.Crypto.{CryptoApi}
use ilp_protocol_stream.Crypto.Keys.{
  generate_shared_secret_from_token, encrypt_connection_address_token,
}
use ilp_protocol_stream.Connection.{given, same}

-- '-' for '+' and '_' for '/'
abbrev pub url_character : ℕ → ℕ
url_character c = if c == 43 then 45 else if c == 47 then 95 else c

-- `toString('base64')` and `Buffer.from(..., 'base64')`: the reading takes the characters for URLs as
-- well and needs no padding, and no text of base64 has a dot.
pub record Base64Api : Type 0 where
  pub to_base64 : Bytes → List ℕ
  pub from_base64 : List ℕ → Bytes
  pub from-to : (bytes : Bytes) → from_base64 (to_base64 bytes) ≡ bytes
  pub from_nothing : from_base64 [] ≡ []
  pub from_padded : (text : List ℕ) → from_base64 (text ++ 61 ∷ []) ≡ from_base64 text
  pub from_url : (text : List ℕ) → from_base64 (map url_character text) ≡ from_base64 text
  pub to_no_dot : (bytes : Bytes) → All (λ c. ¬ (c ≡ 46)) (to_base64 bytes)

-- `.replace(/=+$/, '')`
pub strip_padding : List ℕ → List ℕ
strip_padding [] = []
strip_padding (c ∷ text) = elim (strip_padding text) [
  | [] ↦ if c == 61 then [] else c ∷ []
  | d ∷ more ↦ c ∷ d ∷ more
]

module _ ⦃base64 : Base64Api⦄ where
  pub base64url : Bytes → List ℕ
  unfolding strip_padding
  base64url bytes = map url_character (strip_padding (base64.to_base64 bytes))

-- The options of an address; no tag is an empty one.
pub record AddressOptions : Type 0 where
  pub connection_tag : List ℕ
  pub receipt_nonce : Option Bytes
  pub receipt_secret : Option Bytes

pub record Server : Type 0 where
  pub is_connected : Bool
  pub server_account : List ℕ
  pub server_secret : Bytes

pub record Generated : Type 0 where
  pub destination_account : List ℕ
  pub shared_secret : Bytes
  pub receipts_enabled : Bool

-- `Buffer.from(text, 'ascii')`
abbrev pub ascii_bytes : List ℕ → Bytes
ascii_bytes text = map (λ c. c % 256) text

abbrev pub bytes_or_empty : Option Bytes → Bytes
bytes_or_empty none = []
bytes_or_empty (some bytes) = bytes

abbrev pub has_length : ℕ → Option Bytes → Bool
has_length n none = true
has_length n (some bytes) = length bytes == n

module _ ⦃oer : OerApi⦄ where
  -- What the token holds, from its random nonce on.
  unfoldable pub token_contents : Bytes → AddressOptions → Bytes
  token_contents token_nonce opts =
      token_nonce
      ++ (oer.write_var_octets (ascii_bytes opts.connection_tag)
          ++ (oer.write_var_octets (bytes_or_empty opts.receipt_nonce)
              ++ oer.write_var_octets (bytes_or_empty opts.receipt_secret)))

-- The account, a dot and the token's text.
abbrev pub address : List ℕ → List ℕ → List ℕ
address account text = (account ++ 46 ∷ []) ++ text

module _ ⦃oer : OerApi⦄ ⦃crypto : CryptoApi⦄ ⦃base64 : Base64Api⦄ where
  -- The random nonce of the token and the random IV of its encryption are arguments.
  unfoldable pub generate_address_and_secret :
      Bytes → Bytes → AddressOptions → Server → Result Generated
  unfolding token_contents base64url
  generate_address_and_secret token_nonce iv opts server =
      let contents = token_contents token_nonce opts in
      let token = encrypt_connection_address_token iv server.server_secret contents in
      guard server.is_connected server_not_connected
      >> (guard (same (given opts.receipt_nonce) (given opts.receipt_secret)) receipt_incomplete
          >> (guard (has_length 16 opts.receipt_nonce) receipt_nonce_length
              >> (guard (has_length 32 opts.receipt_secret) receipt_secret_length
                  >> ok (record {
                    destination_account = address server.server_account (base64url token);
                    shared_secret = generate_shared_secret_from_token server.server_secret token;
                    receipts_enabled = given opts.receipt_nonce;
                  }))))

pub starts_with : List ℕ → List ℕ → Bool
starts_with [] text = true
starts_with (c ∷ found) [] = false
starts_with (c ∷ found) (d ∷ text) = (c == d) && starts_with found text

-- `.replace(..., '')`, of the first place where the text is found
pub without_first : List ℕ → List ℕ → List ℕ
unfolding starts_with
without_first found [] = []
without_first found (c ∷ text) =
    if starts_with found (c ∷ text)
    then drop (length found) (c ∷ text)
    else c ∷ without_first found text

-- The first part of `.split('.')`
pub before_dot : List ℕ → List ℕ
before_dot [] = []
before_dot (c ∷ text) = if c == 46 then [] else c ∷ before_dot text

-- An empty identifier is an UnreachableError.
abbrev pub not_empty : List ℕ → Result (List ℕ)
not_empty [] = throw unreachable
not_empty (c ∷ text) = ok (c ∷ text)

-- The identifier of the connection in the destination of a prepare.
pub connection_id : List ℕ → List ℕ → Result (List ℕ)
unfolding without_first before_dot
connection_id server_account destination =
    not_empty (before_dot (without_first (server_account ++ 46 ∷ []) destination))
