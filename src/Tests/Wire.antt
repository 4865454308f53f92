-- ===== src/Tests/Wire.antt =====
-- Examples of packets, their encryption and receipts.
use ilp_protocol_stream.Base.{
  ◌+◌, ◌≤◌, ◌≡◌, refl, [], ◌∷◌, ◌++◌, length, take, replicate, some, none, ok, arith,
}
use ilp_protocol_stream.Oer.{Bytes}
use ilp_protocol_stream.Crypto.{encryption_overhead}
use ilp_protocol_stream.Packet.{
  Packet, stream_money, stream_data, stream_max_money, connection_close, properties, serialize,
  deserialize,
}
use ilp_protocol_stream.Packet.RoundTrip.{PacketFits, deserialize-serialize}
use ilp_protocol_stream.Packet.Padding.{
  serialize_and_encrypt, decrypt_and_deserialize, decrypt_and_deserialize-serialize_and_encrypt,
}
use ilp_protocol_stream.Receipt.{
  ReceiptWithHmac, receipt_version_number, create_receipt, verify_receipt,
}
use ilp_protocol_stream.Receipt.Verification.{
  issued, verify_receipt-create_receipt, verify_receipt_sound,
}
use ilp_protocol_stream.Tests.{long, oer, crypto}

abbrev packet : Packet
packet = record {
  sequence = 5;
  ilp_packet_type = 12;
  prepare_amount = 1000;
  frames =
      stream_money 1 2
      ∷ stream_data 1 0 (104 ∷ 105 ∷ [])
      ∷ stream_max_money 1 900 10
      ∷ connection_close 1 []
      ∷ [];
}

packet-PacketFits : PacketFits packet
unfolding properties
packet-PacketFits = record {
  type = omega arith;
  sequence = omega arith;
  amount = omega arith;
  count = omega arith;
  frames = (
    (omega arith, (omega arith, tt)),
    (
      (omega arith, (omega arith, tt)),
      ((omega arith, (omega arith, (omega arith, tt))), ((omega arith, tt), tt)),
    ),
  );
}

deserialize-serialize_example : deserialize (serialize packet ++ 0 ∷ 0 ∷ []) ≡ ok packet
deserialize-serialize_example = deserialize-serialize packet (0 ∷ 0 ∷ []) packet-PacketFits

abbrev iv : Bytes
iv = replicate 12 3

abbrev key : Bytes
key = replicate 32 4

decrypt_and_deserialize-serialize_and_encrypt_example :
    (decrypt_and_deserialize key (serialize_and_encrypt iv key packet none) ≡ ok packet)
    × (decrypt_and_deserialize key (serialize_and_encrypt iv key packet (some 100)) ≡ ok packet)
decrypt_and_deserialize-serialize_and_encrypt_example =
    decrypt_and_deserialize-serialize_and_encrypt iv key packet 100 refl packet-PacketFits

abbrev frameless : Packet
frameless = record packet { frames = [] }

packet_size : encryption_overhead + length (serialize frameless) ≤ 100
unfolding serialize
packet_size = omega arith

abbrev nonce : Bytes
nonce = replicate 16 1

verify_receipt-create_receipt_example :
    (receipt : Bytes) × (create_receipt nonce 3 500 key ≡ ok receipt)
    × (verify_receipt receipt (λ decoded. key) ≡ ok (issued nonce 3 500 key))
verify_receipt-create_receipt_example =
    verify_receipt-create_receipt nonce 3 500 key refl refl (omega arith) (omega arith)

abbrev received : ReceiptWithHmac
received = record {
  version = 1;
  nonce = nonce;
  stream_id = 3;
  total_received = 500;
  hmac = replicate 32 7;
}

abbrev receipt_bytes : Bytes
receipt_bytes = 1 ∷ nonce ++ 3 ∷ 500 ∷ replicate 7 0 ++ replicate 32 7

verified : verify_receipt receipt_bytes (λ decoded. key) ≡ ok received
unfolding verify_receipt
verified = refl

verify_receipt_sound_example :
    (length receipt_bytes ≡ 58)
    × (received.version ≡ receipt_version_number)
    × (received.hmac ≡ crypto.hmac_sha256 key (take 26 receipt_bytes))
verify_receipt_sound_example = verify_receipt_sound receipt_bytes (λ decoded. key) received verified
