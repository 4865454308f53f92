-- ===== src/Crypto/Overhead.antt =====
-- An encryption is opened by its key, and is longer than what it holds by a fixed number of bytes.
use ilp_protocol_stream.Base.{
  ℕ, ◌+◌, ◌<◌, ◌≡◌, sym, ap, ◌∙◌, List, [], ◌∷◌, ◌++◌, length, take, drop, length-append,
  take-append_length, drop-append_length, some, ok, arith,
}
use mathlib.Core.List.{append_assoc}
use ilp_protocol_stream.Oer.{Bytes}
use ilp_protocol_stream.Crypto.{
  CryptoApi, iv_length, auth_tag_length, encryption_overhead, concat, encrypt, decrypt_slices,
  decrypt,
}

take_first : (n : ℕ) (xs ys : Bytes) → length xs ≡ n → take n (xs ++ ys) ≡ xs
take_first n xs ys e = ap (λ k. take k (xs ++ ys)) (sym e) ∙ take-append_length xs ys

drop_first : (n : ℕ) (xs ys : Bytes) → length xs ≡ n → drop n (xs ++ ys) ≡ ys
drop_first n xs ys e = ap (λ k. drop k (xs ++ ys)) (sym e) ∙ drop-append_length xs ys

module _ ⦃crypto : CryptoApi⦄ where
  opened :
      (key iv tag body plain : Bytes) {iv' tag' body' : Bytes}
      → iv' ≡ iv
      → tag' ≡ tag
      → body' ≡ body
      → crypto.decipher key iv tag body ≡ some plain
      → crypto.decipher key iv' tag' body' ≡ some plain
  opened key iv tag body plain e f g h = cc

  decrypt_nonempty :
      (key bytes plain : Bytes)
      → 0 < length bytes
      → decrypt_slices key bytes ≡ some plain
      → decrypt key bytes ≡ ok plain
  unfolding decrypt
  decrypt_nonempty key [] plain h e = absurd (omega arith)
  decrypt_nonempty key (b ∷ rest) plain h e = rw (e, decrypt)

  pub length-encrypt :
      (iv key : Bytes) (buffers : List Bytes)
      → length iv ≡ iv_length
      → length (encrypt iv key buffers) ≡ length (concat buffers) + encryption_overhead
  unfolding encrypt
  length-encrypt iv key buffers h =
      let plain = concat buffers in
      omega (
        arith,
        length-append iv (crypto.auth_tag key iv plain ++ crypto.cipher key iv plain),
        length-append (crypto.auth_tag key iv plain) (crypto.cipher key iv plain),
        crypto.length-auth_tag key iv plain,
        crypto.length-cipher key iv plain,
      )

  slices-encrypt :
      (iv key : Bytes) (buffers : List Bytes)
      → length iv ≡ iv_length
      → decrypt_slices key (encrypt iv key buffers) ≡ some (concat buffers)
  unfolding decrypt_slices encrypt
  slices-encrypt iv key buffers h =
      let plain = concat buffers in
      let tag = crypto.auth_tag key iv plain in
      let body = crypto.cipher key iv plain in
      let whole = length-append iv tag in
      let tagged = crypto.length-auth_tag key iv plain in
      opened key iv tag body plain (take_first iv_length iv (tag ++ body) h)
        (ap (take auth_tag_length) (drop_first iv_length iv (tag ++ body) h)
          ∙ take_first auth_tag_length tag body tagged)
        (ap (drop (iv_length + auth_tag_length)) (sym (append_assoc iv tag body))
          ∙ drop_first (iv_length + auth_tag_length) (iv ++ tag) body
              (omega (arith, whole, tagged)))
        (crypto.decipher-cipher key iv plain)

  -- With an IV of 12 bytes, decryption under the same key gives back the buffers that were encrypted,
  -- joined, and the encryption is exactly 28 bytes longer than they are.
  pub decrypt-encrypt :
      (iv key : Bytes) (buffers : List Bytes)
      → length iv ≡ iv_length
      → (decrypt key (encrypt iv key buffers) ≡ ok (concat buffers))
        × (length (encrypt iv key buffers) ≡ length (concat buffers) + encryption_overhead)
  decrypt-encrypt iv key buffers h =
      let size = length-encrypt iv key buffers h in
      (
        decrypt_nonempty key (encrypt iv key buffers) (concat buffers) (omega (arith, size))
            (slices-encrypt iv key buffers h),
        size,
      )
