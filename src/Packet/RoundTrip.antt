-- ===== src/Packet/RoundTrip.antt =====
-- A packet that is serialized is read back, whatever follows it.
use ilp_protocol_stream.Base.{
  length-append, ℕ, ◌^◌, ◌<◌, ◌≡◌, refl, le→ltb, List, [], ◌∷◌, ◌++◌, length, some, All, ok, arith,
}
use mathlib.Core.List.{append_assoc}
use ilp_protocol_stream.Long.Interface.{IsLong}
use ilp_protocol_stream.Oer.{Bytes, OerApi, ◌>>=◌}
use ilp_protocol_stream.Packet.{
  Frame, Packet, Property, frame_type, properties, write_contents, write_frame, write_frames,
  serialize, saturating_read_var_uint, parse_contents, parse_frame, read_frames, read_packet,
  deserialize, version, number, string, buffer, long, connection_close, connection_new_address,
  connection_asset_details, connection_max_data, connection_data_blocked, connection_max_stream_id,
  connection_stream_id_blocked, stream_close, stream_money, stream_max_money, stream_money_blocked,
  stream_data, stream_max_data, stream_data_blocked, stream_receipt,
}

-- The numbers are bytes and the Longs are Longs.
abbrev pub Fits : List Property → Type 0
Fits [] = Unit {0}
Fits (number v ∷ rest) = (v < 256) × Fits rest
Fits (long v ∷ rest) = IsLong v × Fits rest
Fits (string v ∷ rest) = Fits rest
Fits (buffer v ∷ rest) = Fits rest

abbrev pub FrameFits : Frame → Type 0
FrameFits f = Fits (properties f)

pub record PacketFits (p : Packet) : Type 0 where
  pub type : p.ilp_packet_type < 256
  pub sequence : IsLong p.sequence
  pub amount : IsLong p.prepare_amount
  pub count : length p.frames < 2 ^ 53
  pub frames : All FrameFits p.frames

module _ ⦃oer : OerApi⦄ where
  saturating-write :
      (v : ℕ) (rest : Bytes)
      → IsLong v
      → saturating_read_var_uint (oer.write_var_uint v ++ rest) ≡ ok (v, rest)
  unfolding saturating_read_var_uint
  saturating-write v rest h =
      let (octets, e, le) = oer.var_uint_octets v rest h in
      rw (e, saturating_read_var_uint, le→ltb 8 (length octets) le)
        (oer.read-write_var_uint v rest h)

  parse-write_contents :
      (f : Frame)
      → FrameFits f
      → parse_contents (frame_type f) (write_contents (properties f)) ≡ ok (some f, [])
  unfolding parse_contents write_contents frame_type properties
  parse-write_contents (connection_close c m) h =
      rw (oer.read-write_uint8 c _ h.0, oer.read-write_var_octets m _, parse_contents, ◌>>=◌)
  parse-write_contents (connection_new_address a) h =
      rw (oer.read-write_var_octets a _, parse_contents, ◌>>=◌)
  parse-write_contents (connection_asset_details c s) h =
      rw (oer.read-write_var_octets c _, oer.read-write_uint8 s _ h.0, parse_contents, ◌>>=◌)
  parse-write_contents (connection_max_data o) h =
      rw (oer.read-write_var_uint o _ h.0, parse_contents, ◌>>=◌)
  parse-write_contents (connection_data_blocked o) h =
      rw (oer.read-write_var_uint o _ h.0, parse_contents, ◌>>=◌)
  parse-write_contents (connection_max_stream_id i) h =
      rw (oer.read-write_var_uint i _ h.0, parse_contents, ◌>>=◌)
  parse-write_contents (connection_stream_id_blocked i) h =
      rw (oer.read-write_var_uint i _ h.0, parse_contents, ◌>>=◌)
  parse-write_contents (stream_close i c m) h = rw (
    oer.read-write_var_uint i _ h.0,
    oer.read-write_uint8 c _ h.1.0,
    oer.read-write_var_octets m _,
    parse_contents,
    ◌>>=◌,
  )
  parse-write_contents (stream_money i s) h =
      rw (oer.read-write_var_uint i _ h.0, oer.read-write_var_uint s _ h.1.0, parse_contents, ◌>>=◌)
  parse-write_contents (stream_max_money i m t) h = rw (
    oer.read-write_var_uint i _ h.0,
    saturating-write m _ h.1.0,
    oer.read-write_var_uint t _ h.1.1.0,
    parse_contents,
    ◌>>=◌,
  )
  parse-write_contents (stream_money_blocked i m t) h = rw (
    oer.read-write_var_uint i _ h.0,
    saturating-write m _ h.1.0,
    oer.read-write_var_uint t _ h.1.1.0,
    parse_contents,
    ◌>>=◌,
  )
  parse-write_contents (stream_data i o b) h = rw (
    oer.read-write_var_uint i _ h.0,
    oer.read-write_var_uint o _ h.1.0,
    oer.read-write_var_octets b _,
    parse_contents,
    ◌>>=◌,
  )
  parse-write_contents (stream_max_data i o) h =
      rw (oer.read-write_var_uint i _ h.0, oer.read-write_var_uint o _ h.1.0, parse_contents, ◌>>=◌)
  parse-write_contents (stream_data_blocked i o) h =
      rw (oer.read-write_var_uint i _ h.0, oer.read-write_var_uint o _ h.1.0, parse_contents, ◌>>=◌)
  parse-write_contents (stream_receipt i r) h =
      rw (oer.read-write_var_uint i _ h.0, oer.read-write_var_octets r _, parse_contents, ◌>>=◌)

  frame_type-lt : (f : Frame) → frame_type f < 256
  unfolding frame_type
  frame_type-lt f = ground arith

  parse-write_frame :
      (f : Frame) (rest : Bytes)
      → FrameFits f
      → parse_frame (write_frame f ++ rest) ≡ ok (some f, rest)
  unfolding parse_frame write_frame
  parse-write_frame f rest h = rw (append_assoc (oer.write_uint8 (frame_type f)) _ rest) (
      rw (
        oer.read-write_uint8 (frame_type f) _ (frame_type-lt f),
        oer.read-write_var_octets (write_contents (properties f)) rest,
        parse-write_contents f h,
        ◌>>=◌,
      ))

  read-write_frames :
      (fs : List Frame) (rest : Bytes)
      → All FrameFits fs
      → read_frames (length fs) (write_frames fs ++ rest) ≡ ok (fs, rest)
  unfolding read_frames write_frames
  read-write_frames [] rest h = refl
  read-write_frames (f ∷ fs) rest h = rw (
    append_assoc (write_frame f) (write_frames fs) rest,
    parse-write_frame f _ h.0,
    read-write_frames fs rest h.1,
    ◌>>=◌,
  )

  read-serialize :
      (p : Packet) (padding : Bytes)
      → PacketFits p
      → read_packet (serialize p ++ padding) ≡ ok (p, padding)
  unfolding read_packet serialize
  read-serialize p padding h = rw (
    append_assoc (oer.write_uint8 version) _ padding,
    append_assoc (oer.write_uint8 p.ilp_packet_type) _ padding,
    append_assoc (oer.write_var_uint p.sequence) _ padding,
    append_assoc (oer.write_var_uint p.prepare_amount) _ padding,
    append_assoc (oer.write_var_uint (length p.frames)) _ padding,
    oer.read-write_uint8 version _ (omega arith),
    oer.read-write_uint8 p.ilp_packet_type _ h.type,
    oer.read-write_var_uint p.sequence _ h.sequence,
    oer.read-write_var_uint p.prepare_amount _ h.amount,
    oer.read_number-write_var_uint (length p.frames) _ h.count,
    read-write_frames p.frames padding h.frames,
    ◌>>=◌,
    read_packet,
  )

  -- A packet whose numbers fit their encodings is read back unchanged from its serialization,
  -- whatever padding follows it.
  pub deserialize-serialize :
      (p : Packet) (padding : Bytes) → PacketFits p → deserialize (serialize p ++ padding) ≡ ok p
  unfolding deserialize
  deserialize-serialize p padding h = rw (read-serialize p padding h, deserialize)

module _ ⦃oer : OerApi⦄ where
  -- A data frame is longer than its data.
  pub length-write_stream_data :
      (i o : ℕ) (bytes : Bytes) → length bytes < length (write_frame (stream_data i o bytes))
  unfolding write_frame write_contents properties
  length-write_stream_data i o bytes =
      let contents =
        oer.write_var_uint i ++ (oer.write_var_uint o ++ (oer.write_var_octets bytes ++ [])) in
      omega (
        arith,
        oer.length-write_var_octets bytes,
        oer.length-write_var_octets contents,
        length-append (oer.write_uint8 0x14) (oer.write_var_octets contents),
        length-append (oer.write_var_uint i)
            (oer.write_var_uint o ++ (oer.write_var_octets bytes ++ [])),
        length-append (oer.write_var_uint o) (oer.write_var_octets bytes ++ []),
        length-append (oer.write_var_octets bytes) [],
      )
