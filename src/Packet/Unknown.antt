-- ===== src/Packet/Unknown.antt =====
-- What a reader of packets does with input that this version of the code would not write.
use ilp_protocol_stream.Base.{
  ℕ, ◌<◌, ◌≡◌, ◌≢◌, ◌⊎◌, lt→ltb, ne→==, ◌++◌, length, none, some, ok, throw, unsupported_version,
  arith,
}
use ilp_protocol_stream.Long.Interface.{IsLong, max_unsigned}
use ilp_protocol_stream.Oer.{Bytes, OerApi, ◌>>=◌}
use ilp_protocol_stream.Packet.{
  parse_contents, parse_stream_contents, parse_frame, read_packet, deserialize, version,
  saturating_read_var_uint, stream_max_money,
}

-- No frame of the protocol has this type.
abbrev pub IsUnknown : ℕ → Type 0
IsUnknown t = (t < 0x01) ⊎ (0x07 < t) × (t < 0x10) ⊎ (0x17 < t)

module _ ⦃oer : OerApi⦄ where
  unknown_stream_contents :
      (t : ℕ) (input : Bytes) → IsUnknown t → parse_stream_contents t input ≡ ok (none, input)
  unfolding parse_stream_contents
  unknown_stream_contents t input u = rw (
    ne→== t 0x10 (λ e. omega (arith, e)),
    ne→== t 0x11 (λ e. omega (arith, e)),
    ne→== t 0x12 (λ e. omega (arith, e)),
    ne→== t 0x13 (λ e. omega (arith, e)),
    ne→== t 0x14 (λ e. omega (arith, e)),
    ne→== t 0x15 (λ e. omega (arith, e)),
    ne→== t 0x16 (λ e. omega (arith, e)),
    ne→== t 0x17 (λ e. omega (arith, e)),
  )

  unknown_contents :
      (t : ℕ) (input : Bytes) → IsUnknown t → parse_contents t input ≡ ok (none, input)
  unfolding parse_contents
  unknown_contents t input u =
      rw
        (
          ne→== t 0x01 (λ e. omega (arith, e)),
          ne→== t 0x02 (λ e. omega (arith, e)),
          ne→== t 0x03 (λ e. omega (arith, e)),
          ne→== t 0x04 (λ e. omega (arith, e)),
          ne→== t 0x05 (λ e. omega (arith, e)),
          ne→== t 0x06 (λ e. omega (arith, e)),
          ne→== t 0x07 (λ e. omega (arith, e)),
        )
        (unknown_stream_contents t input u)

  -- A frame of a type below 256 that is not known gives no frame, whatever its contents are, and
  -- the reader goes on exactly behind it.
  pub parse_frame-unknown :
      (t : ℕ) (contents rest : Bytes)
      → t < 256
      → IsUnknown t
      → parse_frame (oer.write_uint8 t ++ (oer.write_var_octets contents ++ rest)) ≡ ok (none, rest)
  unfolding parse_frame
  parse_frame-unknown t contents rest h u = rw (
    oer.read-write_uint8 t _ h,
    oer.read-write_var_octets contents rest,
    unknown_contents t contents u,
    ◌>>=◌,
  )

  -- A packet of any other version than 1 is refused before anything else of it is read.
  pub deserialize-version :
      (v : ℕ) (rest : Bytes)
      → v < 256
      → v ≢ version
      → deserialize (oer.write_uint8 v ++ rest) ≡ throw unsupported_version
  unfolding deserialize
  deserialize-version v rest h ne =
      rw (oer.read-write_uint8 v rest h, ne→== v version ne, ◌>>=◌, read_packet, deserialize)

  -- An amount of more than eight bytes in a StreamMaxMoney frame, between an identifier and a
  -- total that are Longs, is read as the largest Long, and the total behind it is still read.
  pub parse_contents-saturates :
      (stream_id total_received : ℕ) (octets rest : Bytes)
      → IsLong stream_id
      → IsLong total_received
      → 8 < length octets
      → parse_contents 0x12 (
          oer.write_var_uint stream_id
          ++ (oer.write_var_octets octets ++ (oer.write_var_uint total_received ++ rest)))
        ≡ ok (some (stream_max_money stream_id max_unsigned total_received), rest)
  unfolding parse_contents
  parse_contents-saturates stream_id total_received octets rest hs ht long = rw (
    oer.read-write_var_uint stream_id _ hs,
    oer.read-write_var_octets octets _,
    lt→ltb 8 (length octets) long,
    oer.read-write_var_uint total_received rest ht,
    saturating_read_var_uint,
    ◌>>=◌,
  )
