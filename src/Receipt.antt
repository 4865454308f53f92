-- ===== src/Receipt.antt =====
-- util/receipt.ts: receipts for what a stream received, signed with a shared secret. The identifier
-- and the total are numbers already.
pub mod Verification
use ilp_protocol_stream.Base.{
  ℕ, ◌==◌, ◌&&◌, List, [], ◌∷◌, ◌++◌, length, take, Bool, true, false, Result, ok, throw, guard,
  ◌>>◌, receipt_nonce_length, receipt_secret_length, receipt_malformed, receipt_version,
  receipt_hmac,
}
use ilp_protocol_stream.Base
use ilp_protocol_stream.Oer.{Bytes, Reader, OerApi, ◌>>=◌, pure}
use ilp_protocol_stream.Crypto.{CryptoApi}

abbrev pub receipt_version_number : ℕ
receipt_version_number = 1

pub record ReceiptWithHmac : Type 0 where
  pub version : ℕ
  pub nonce : Bytes
  pub stream_id : ℕ
  pub total_received : ℕ
  pub hmac : Bytes

-- `Buffer.equals`
unfoldable pub equals : Bytes → Bytes → Bool
equals [] [] = true
equals (x ∷ xs) (y ∷ ys) = (x == y) && equals xs ys
equals _ _ = false

module _ ⦃oer : OerApi⦄ where
  -- What is signed: the bytes before the HMAC.
  pub message : Bytes → ℕ → ℕ → Bytes
  message nonce stream_id total_received =
      oer.write_uint8 receipt_version_number
      ++ (nonce ++ (oer.write_uint8 stream_id ++ oer.write_uint64 total_received))

  pub read_receipt : Reader ReceiptWithHmac
  read_receipt = do
    version ← oer.read_uint8
    nonce ← oer.read_octets 16
    stream_id ← oer.read_uint8
    total_received ← oer.read_uint64
    hmac ← oer.read_octets 32
    pure (record {
      version = version;
      nonce = nonce;
      stream_id = stream_id;
      total_received = total_received;
      hmac = hmac;
    })

  pub decode : Bytes → Result ReceiptWithHmac
  unfolding read_receipt
  decode receipt =
      guard (length receipt == 58) receipt_malformed
      >> (elim (read_receipt receipt) [ throw e ↦ throw e | ok (decoded, _) ↦ ok decoded ])

module _ ⦃oer : OerApi⦄ ⦃crypto : CryptoApi⦄ where
  pub create_receipt : Bytes → ℕ → ℕ → Bytes → Result Bytes
  unfolding message
  create_receipt nonce stream_id total_received secret =
      let signed = message nonce stream_id total_received in
      guard (length nonce == 16) receipt_nonce_length
      >> (guard (length secret == 32) receipt_secret_length
          >> ok (signed ++ crypto.hmac_sha256 secret signed))

  -- `secret` as a function of the decoded receipt; a secret given as a Buffer is a constant one.
  unfoldable pub verify_receipt : Bytes → (ReceiptWithHmac → Bytes) → Result ReceiptWithHmac
  unfolding decode equals
  verify_receipt receipt secret = Base.◌>>=◌ (decode receipt) (λ decoded.
      guard (decoded.version == receipt_version_number) receipt_version
      >> (guard (equals decoded.hmac (crypto.hmac_sha256 (secret decoded) (take 26 receipt)))
            receipt_hmac
          >> ok decoded))
