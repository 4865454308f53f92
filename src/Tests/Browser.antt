-- ===== src/Tests/Browser.antt =====
-- An example of the browser's cryptography, on a stand-in for WebCrypto.
use ilp_protocol_stream.Base.{
  ◌-◌, ◌<◌, ◌≡◌, refl, ltb, lt→ltb, le→ltb, [], ◌∷◌, ◌++◌, length, length-append, take,
  take-append_length, replicate, Option, some, none, if◌then◌else◌, arith,
}
use ilp_protocol_stream.Oer.{Bytes}
use ilp_protocol_stream.Crypto.{auth_tag_length, encrypt, decrypt}
use ilp_protocol_stream.Crypto.Browser.{WebCryptoApi, browser_encrypt, browser_decrypt}
use ilp_protocol_stream.Crypto.Browser.Equivalence.{browser-node}
use ilp_protocol_stream.Tests.{crypto}

without_tag : Bytes → Option Bytes
without_tag bytes =
    if ltb (length bytes) auth_tag_length
    then none
    else some (take (length bytes - auth_tag_length) bytes)

without_tag-append :
    (body tag : Bytes) → length tag ≡ auth_tag_length → without_tag (body ++ tag) ≡ some body
unfolding without_tag
without_tag-append body tag h =
    let size = length-append body tag in
    let start : length (body ++ tag) - auth_tag_length ≡ length body = omega (arith, size, h) in
    rw (
      le→ltb (length (body ++ tag)) auth_tag_length (omega (arith, size, h)),
      start,
      take-append_length body tag,
    )

without_tag-short : (bytes : Bytes) → length bytes < auth_tag_length → without_tag bytes ≡ none
unfolding without_tag
without_tag-short bytes h = rw (lt→ltb (length bytes) auth_tag_length h)

instance abbrev web : WebCryptoApi
web = record {
  subtle_encrypt = λ key iv plain. plain ++ replicate 16 0;
  subtle_decrypt = λ key iv bytes. without_tag bytes;
  subtle_sign = λ key message. replicate 32 7;
  encrypt_appends = λ key iv plain. refl;
  decrypt_splits = λ key iv tag body h. without_tag-append body tag h;
  decrypt_short = λ key iv bytes h. without_tag-short bytes h;
  sign_hmac = λ key message. refl;
}

abbrev iv : Bytes
iv = replicate 12 3

abbrev key : Bytes
key = replicate 32 4

abbrev bytes : Bytes
bytes = replicate 30 5

browser-node_example :
    (browser_encrypt iv key ((1 ∷ 2 ∷ []) ∷ (3 ∷ []) ∷ [])
      ≡ encrypt iv key ((1 ∷ 2 ∷ []) ∷ (3 ∷ []) ∷ []))
    × (browser_decrypt key bytes ≡ decrypt key bytes)
browser-node_example = browser-node iv key ((1 ∷ 2 ∷ []) ∷ (3 ∷ []) ∷ []) bytes (omega arith)
