-- ===== src/Crypto/Browser/Equivalence.antt =====
-- What a browser encrypts is what Node encrypts, and each reads the other's packets.
use ilp_protocol_stream.Base.{
  ◌+◌, ◌-◌, ◌≤◌, ◌≡◌, List, [], ◌∷◌, ◌++◌, length, take, drop, length-append, length-take,
  length-drop, take-append_length, drop-append_length, arith,
}
use ilp_protocol_stream.Oer.{Bytes}
use ilp_protocol_stream.Crypto.{
  CryptoApi, iv_length, auth_tag_length, encryption_overhead, concat, encrypt, decrypt,
  decrypt_slices,
}
use ilp_protocol_stream.Crypto.Browser.{WebCryptoApi, tag_first, browser_encrypt, browser_decrypt}

module _ ⦃crypto : CryptoApi⦄ ⦃web : WebCryptoApi⦄ where
  tag_first-append :
      (body tag : Bytes) → length tag ≡ auth_tag_length → tag_first (body ++ tag) ≡ tag ++ body
  unfolding tag_first
  tag_first-append body tag h =
      let start : length (body ++ tag) - auth_tag_length ≡ length body =
        omega (arith, length-append body tag, h) in
      rw (start, take-append_length body tag, drop-append_length body tag)

  encrypts-alike :
      (iv key : Bytes) (buffers : List Bytes)
      → browser_encrypt iv key buffers ≡ encrypt iv key buffers
  unfolding browser_encrypt encrypt
  encrypts-alike iv key buffers =
      let plain = concat buffers in
      rw (
        web.encrypt_appends key iv plain,
        tag_first-append (crypto.cipher key iv plain) (crypto.auth_tag key iv plain)
            (crypto.length-auth_tag key iv plain),
      )

  decrypts-alike :
      (key bytes : Bytes)
      → encryption_overhead ≤ length bytes
      → browser_decrypt key bytes ≡ decrypt key bytes
  unfolding browser_decrypt decrypt decrypt_slices
  decrypts-alike key [] h = absurd (omega arith)
  decrypts-alike key (b ∷ rest) h =
      let bytes = b ∷ rest in
      let tag = take auth_tag_length (drop iv_length bytes) in
      let size : length tag ≡ auth_tag_length = omega (
        arith,
        length-take auth_tag_length (drop iv_length bytes),
        length-drop iv_length bytes,
        h,
      ) in
      rw (
        web.decrypt_splits key (take iv_length bytes) tag (drop (iv_length + auth_tag_length) bytes)
            size,
        browser_decrypt,
        decrypt,
      )

  -- For the same IV and key, a browser encrypts to exactly the bytes that Node encrypts to; and
  -- what has at least the 28 bytes of an IV and a tag, each of them decrypts to the same result, an
  -- error included.
  pub browser-node :
      (iv key : Bytes) (buffers : List Bytes) (bytes : Bytes)
      → encryption_overhead ≤ length bytes
      → (browser_encrypt iv key buffers ≡ encrypt iv key buffers)
        × (browser_decrypt key bytes ≡ decrypt key bytes)
  browser-node iv key buffers bytes h = (encrypts-alike iv key buffers, decrypts-alike key bytes h)
