-- ===== src/Receipt/Verification.antt =====
-- Which receipts verify.
use ilp_protocol_stream.Base.{
  ℕ, ◌<◌, ◌==◌, ==→eq, eq→==, ◌≡◌, refl, subst, ◌&&◌, [], ◌∷◌, ◌++◌, length, take, length-append,
  take-append_length, Error, Bool, true, false, Result, ok, guard, ◌>>◌, arith, >>=-eq-ok,
  receipt_version, receipt_hmac, receipt_malformed,
}
use mathlib.Core.List.{append_assoc, append-nil}
use ilp_protocol_stream.Long.Interface.{IsLong}
use ilp_protocol_stream.Oer.{Bytes, OerApi, ◌>>=◌}
use ilp_protocol_stream.Crypto.{CryptoApi}
use ilp_protocol_stream.Receipt.{
  ReceiptWithHmac, receipt_version_number, equals, message, read_receipt, decode, create_receipt,
  verify_receipt,
}

pub equals_self : (xs : Bytes) → equals xs xs ≡ true
unfolding equals
equals_self [] = refl
equals_self (x ∷ xs) = rw (eq→== x x refl, equals_self xs)

and-true : (a b : Bool) → (a && b) ≡ true → (a ≡ true) × (b ≡ true)
and-true true b h = (refl, h)
and-true false b h = cc

pub equals-eq : (xs ys : Bytes) → equals xs ys ≡ true → xs ≡ ys
unfolding equals
equals-eq [] [] h = refl
equals-eq [] (y ∷ ys) h = cc
equals-eq (x ∷ xs) [] h = cc
equals-eq (x ∷ xs) (y ∷ ys) h =
    let (first, others) = and-true (x == y) (equals xs ys) h in
    rw (==→eq x y first, equals-eq xs ys others)

guard-ok {ℓ} :
    {A : Type ℓ} (b : Bool) (e : Error) (k : Result A) {a : A}
    → (guard b e >> k) ≡ ok a
    → (b ≡ true) × (k ≡ ok a)
guard-ok true e k h = (refl, h)
guard-ok false e k h = cc

module _ ⦃oer : OerApi⦄ ⦃crypto : CryptoApi⦄ where
  -- The receipt that `createReceipt` stands for.
  abbrev pub issued : Bytes → ℕ → ℕ → Bytes → ReceiptWithHmac
  issued nonce stream_id total secret = record {
    version = receipt_version_number;
    nonce = nonce;
    stream_id = stream_id;
    total_received = total;
    hmac = crypto.hmac_sha256 secret (message nonce stream_id total);
  }

  length-message :
      (nonce : Bytes) (stream_id total : ℕ)
      → length nonce ≡ 16
      → length (message nonce stream_id total) ≡ 26
  unfolding message
  length-message nonce stream_id total h =
      let first = oer.write_uint8 receipt_version_number in
      let third = oer.write_uint8 stream_id in
      let last = oer.write_uint64 total in
      omega (
        arith,
        length-append first (nonce ++ (third ++ last)),
        length-append nonce (third ++ last),
        length-append third last,
        oer.length-write_uint8 receipt_version_number,
        oer.length-write_uint8 stream_id,
        oer.length-write_uint64 total,
      )

  read_receipt-message :
      (nonce : Bytes) (stream_id total : ℕ) (hmac : Bytes)
      → length nonce ≡ 16
      → length hmac ≡ 32
      → stream_id < 256
      → IsLong total
      → read_receipt (message nonce stream_id total ++ hmac)
        ≡ ok (
          record {
            version = receipt_version_number;
            nonce = nonce;
            stream_id = stream_id;
            total_received = total;
            hmac = hmac;
          },
          [],
        )
  unfolding read_receipt message
  read_receipt-message nonce stream_id total hmac hn hh hs ht =
      let first = oer.write_uint8 receipt_version_number in
      let third = oer.write_uint8 stream_id in
      let last = oer.write_uint64 total in
      let flat : (first ++ (nonce ++ (third ++ last))) ++ hmac
          ≡ first ++ (nonce ++ (third ++ (last ++ (hmac ++ [])))) =
        rw (
          append_assoc first (nonce ++ (third ++ last)) hmac,
          append_assoc nonce (third ++ last) hmac,
          append_assoc third last hmac,
          append-nil hmac,
        ) in
      rw (
        flat,
        oer.read-write_uint8 receipt_version_number (nonce ++ (third ++ (last ++ (hmac ++ []))))
            (omega arith),
        oer.read-write_octets 16 nonce (third ++ (last ++ (hmac ++ []))) hn,
        oer.read-write_uint8 stream_id (last ++ (hmac ++ [])) hs,
        oer.read-write_uint64 total (hmac ++ []) ht,
        oer.read-write_octets 32 hmac [] hh,
        ◌>>=◌,
      )

  -- A receipt for a stream below 256 and a total that is a Long, made with a nonce of 16 bytes and a
  -- secret of 32, can be made, and verifies under that secret, with exactly what it was made from.
  pub verify_receipt-create_receipt :
      (nonce : Bytes) (stream_id total : ℕ) (secret : Bytes)
      → length nonce ≡ 16
      → length secret ≡ 32
      → stream_id < 256
      → IsLong total
      → (receipt : Bytes) × (create_receipt nonce stream_id total secret ≡ ok receipt)
        × (verify_receipt receipt (λ decoded. secret) ≡ ok (issued nonce stream_id total secret))
  unfolding create_receipt verify_receipt decode
  verify_receipt-create_receipt nonce stream_id total secret hn hk hs ht =
      let signed = message nonce stream_id total in
      let hmac = crypto.hmac_sha256 secret signed in
      let size = length-message nonce stream_id total hn in
      let whole : length (signed ++ hmac) ≡ 58 =
        omega (arith, size, length-append signed hmac, crypto.length-hmac_sha256 secret signed) in
      let prefix : take 26 (signed ++ hmac) ≡ signed =
        subst (λ n. take n (signed ++ hmac) ≡ signed) size (take-append_length signed hmac) in
      let parsed =
        read_receipt-message nonce stream_id total hmac hn (crypto.length-hmac_sha256 secret signed)
          hs ht in
      (
        signed ++ hmac,
        rw (eq→== (length nonce) 16 hn, eq→== (length secret) 32 hk),
        rw (eq→== (length (signed ++ hmac)) 58 whole, parsed, prefix, equals_self hmac),
      )

  -- A receipt that verifies has 58 bytes and the right version, and the HMAC in it is the one of its
  -- first 26 bytes under the secret for what was decoded from it.
  pub verify_receipt_sound :
      (receipt : Bytes) (secret : ReceiptWithHmac → Bytes) (decoded : ReceiptWithHmac)
      → verify_receipt receipt secret ≡ ok decoded
      → (length receipt ≡ 58)
        × (decoded.version ≡ receipt_version_number)
        × (decoded.hmac ≡ crypto.hmac_sha256 (secret decoded) (take 26 receipt))
  unfolding verify_receipt decode
  verify_receipt_sound receipt secret decoded h =
      let (d, de, rest) = >>=-eq-ok (decode receipt) _ h in
      let (long, _) = guard-ok (length receipt == 58) receipt_malformed _ de in
      let (version, rest') =
        guard-ok (d.version == receipt_version_number) receipt_version _ rest in
      let mac = crypto.hmac_sha256 (secret d) (take 26 receipt) in
      let (same, final) = guard-ok (equals d.hmac mac) receipt_hmac (ok d) rest' in
      let same_receipt : d ≡ decoded = cc in
      subst
        (λ x.
          (length receipt ≡ 58)
          × (x.version ≡ receipt_version_number)
          × (x.hmac ≡ crypto.hmac_sha256 (secret x) (take 26 receipt)))
        same_receipt
        (
          ==→eq (length receipt) 58 long,
          ==→eq d.version receipt_version_number version,
          equals-eq d.hmac mac same,
        )
