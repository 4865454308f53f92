-- ===== src/Crypto/Browser.antt =====
-- util/crypto-browser.ts: the functions that take the place of crypto-node.ts in a browser, and their
-- cache of keys. The browser's WebCrypto is the interface WebCryptoApi; a Buffer that serves as a key
-- of the cache is a number, since the cache compares objects and not their bytes.
pub mod Equivalence
pub mod Caching
use ilp_protocol_stream.Base.{
  ℕ, ◌+◌, ◌-◌, ◌≡◌, ◌<◌, ltb, if◌then◌else◌, List, [], ◌∷◌, ◌++◌, length, take, drop, Option, none,
  some, Result, ok, throw, not_decrypted, lookup, assign,
}
use ilp_protocol_stream.Oer.{Bytes}
use ilp_protocol_stream.Crypto.{CryptoApi, iv_length, auth_tag_length, concat}

-- AES-GCM of WebCrypto is the cipher of Node with the tag behind the ciphertext. It fails on data that
-- is shorter than a tag.
pub record WebCryptoApi ⦃crypto : CryptoApi⦄ : Type 0 where
  pub subtle_encrypt : (key iv plain : Bytes) → Bytes
  pub subtle_decrypt : (key iv bytes : Bytes) → Option Bytes
  pub subtle_sign : (key message : Bytes) → Bytes
  pub encrypt_appends :
      (key iv plain : Bytes)
      → subtle_encrypt key iv plain ≡ crypto.cipher key iv plain ++ crypto.auth_tag key iv plain
  pub decrypt_splits :
      (key iv tag body : Bytes)
      → length tag ≡ auth_tag_length
      → subtle_decrypt key iv (body ++ tag) ≡ crypto.decipher key iv tag body
  pub decrypt_short :
      (key iv bytes : Bytes) → length bytes < auth_tag_length → subtle_decrypt key iv bytes ≡ none
  pub sign_hmac : (key message : Bytes) → subtle_sign key message ≡ crypto.hmac_sha256 key message

module _ ⦃crypto : CryptoApi⦄ ⦃web : WebCryptoApi⦄ where
  -- The tag of the ciphertext in front of the rest of it.
  tag_first : Bytes → Bytes
  tag_first ciphertext =
      let tag_start = length ciphertext - auth_tag_length in
      drop tag_start ciphertext ++ take tag_start ciphertext

  pub browser_encrypt : Bytes → Bytes → List Bytes → Bytes
  unfolding tag_first
  browser_encrypt iv key buffers = iv ++ tag_first (web.subtle_encrypt key iv (concat buffers))

  pub browser_decrypt : Bytes → Bytes → Result Bytes
  browser_decrypt key bytes =
      let nonce = take iv_length bytes in
      let tag = take auth_tag_length (drop iv_length bytes) in
      let cipherdata = drop (iv_length + auth_tag_length) bytes in
      elim (web.subtle_decrypt key nonce (cipherdata ++ tag)) [
        | none ↦ throw not_decrypted
        | some plain ↦ ok plain
      ]

  pub browser_hmac : Bytes → Bytes → Bytes
  browser_hmac key message = web.subtle_sign key message

-- Milliseconds.
abbrev pub cache_expiry : ℕ
cache_expiry = 30000

pub record CacheEntry (K : Type 0) : Type 0 where
  pub key_object : K
  pub access_time : ℕ

module _ {K : Type 0} where
  -- The entries that were read within the last 30 seconds.
  pub cleanup : ℕ → List (ℕ × CacheEntry K) → List (ℕ × CacheEntry K)
  cleanup now [] = []
  cleanup now ((buffer, entry) ∷ rest) =
      let kept = cleanup now rest in
      if ltb cache_expiry (now - entry.access_time) then kept else (buffer, entry) ∷ kept

  -- `importKey`, with what `subtle.importKey` makes of the Buffer's bytes: the key and the cache. The
  -- two readings of the clock are arguments.
  pub import_key : (ℕ → K) → ℕ → ℕ → ℕ → List (ℕ × CacheEntry K) → K × List (ℕ × CacheEntry K)
  import_key import_raw buffer before after cache = elim (lookup buffer cache) [
    | some entry ↦ (entry.key_object, assign buffer (record entry { access_time = before }) cache)
    | none ↦
        let key = import_raw buffer in
        (key, assign buffer (record { key_object = key; access_time = after }) cache)
  ]
