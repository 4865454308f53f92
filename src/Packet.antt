-- ===== src/Packet.antt =====
-- packet.ts: the frames, the packet, and their encoding. A string is the list of its UTF-8 bytes.
pub mod Padding
pub mod RoundTrip
pub mod Unknown
use ilp_protocol_stream.Base.{
  ℕ, zero, suc, ltb, ◌==◌, if◌then◌else◌, List, [], ◌∷◌, ◌++◌, length, Option, none, some, Result,
  ok, throw, unsupported_version,
}
use ilp_protocol_stream.Long.Interface.{max_unsigned}
use ilp_protocol_stream.Oer.{Bytes, Reader, OerApi, ◌>>=◌, pure}

pub data Frame : Type 0 where
  connection_close : (error_code : ℕ) (error_message : Bytes) → Frame
  connection_new_address : (source_account : Bytes) → Frame
  connection_asset_details : (source_asset_code : Bytes) (source_asset_scale : ℕ) → Frame
  connection_max_data : (max_offset : ℕ) → Frame
  connection_data_blocked : (max_offset : ℕ) → Frame
  connection_max_stream_id : (max_stream_id : ℕ) → Frame
  connection_stream_id_blocked : (max_stream_id : ℕ) → Frame
  stream_close : (stream_id error_code : ℕ) (error_message : Bytes) → Frame
  stream_money : (stream_id shares : ℕ) → Frame
  stream_max_money : (stream_id receive_max total_received : ℕ) → Frame
  stream_money_blocked : (stream_id send_max total_sent : ℕ) → Frame
  stream_data : (stream_id offset : ℕ) (bytes : Bytes) → Frame
  stream_max_data : (stream_id max_offset : ℕ) → Frame
  stream_data_blocked : (stream_id max_offset : ℕ) → Frame
  stream_receipt : (stream_id : ℕ) (receipt : Bytes) → Frame

pub record Packet : Type 0 where
  pub sequence : ℕ
  pub ilp_packet_type : ℕ
  pub prepare_amount : ℕ
  pub frames : List Frame

-- The enumeration FrameType.
pub frame_type : Frame → ℕ
frame_type (connection_close c m) = 0x01
frame_type (connection_new_address a) = 0x02
frame_type (connection_max_data o) = 0x03
frame_type (connection_data_blocked o) = 0x04
frame_type (connection_max_stream_id i) = 0x05
frame_type (connection_stream_id_blocked i) = 0x06
frame_type (connection_asset_details c s) = 0x07
frame_type (stream_close i c m) = 0x10
frame_type (stream_money i s) = 0x11
frame_type (stream_max_money i m t) = 0x12
frame_type (stream_money_blocked i m t) = 0x13
frame_type (stream_data i o b) = 0x14
frame_type (stream_max_data i o) = 0x15
frame_type (stream_data_blocked i o) = 0x16
frame_type (stream_receipt i r) = 0x17

-- A property of a frame object by the type of its value: number, string, Buffer or Long.
pub data Property : Type 0 where
  number : ℕ → Property
  string : Bytes → Property
  buffer : Bytes → Property
  long : ℕ → Property

-- The own properties of a frame but `type` and `name`, in the order in which its constructor sets them.
unfoldable pub properties : Frame → List Property
properties (connection_close c m) = number c ∷ string m ∷ []
properties (connection_new_address a) = string a ∷ []
properties (connection_asset_details c s) = string c ∷ number s ∷ []
properties (connection_max_data o) = long o ∷ []
properties (connection_data_blocked o) = long o ∷ []
properties (connection_max_stream_id i) = long i ∷ []
properties (connection_stream_id_blocked i) = long i ∷ []
properties (stream_close i c m) = long i ∷ number c ∷ string m ∷ []
properties (stream_money i s) = long i ∷ long s ∷ []
properties (stream_max_money i m t) = long i ∷ long m ∷ long t ∷ []
properties (stream_money_blocked i m t) = long i ∷ long m ∷ long t ∷ []
properties (stream_data i o b) = long i ∷ long o ∷ buffer b ∷ []
properties (stream_max_data i o) = long i ∷ long o ∷ []
properties (stream_data_blocked i o) = long i ∷ long o ∷ []
properties (stream_receipt i r) = long i ∷ buffer r ∷ []

abbrev pub version : ℕ
version = 1

module _ ⦃oer : OerApi⦄ where
  open oer use {
    write_uint8, write_var_uint, write_var_octets, read_uint8, read_var_uint, read_var_uint_number,
    read_var_octets,
  }

  pub write_contents : List Property → Bytes
  write_contents [] = []
  write_contents (number v ∷ rest) = write_uint8 v ++ write_contents rest
  write_contents (string v ∷ rest) = write_var_octets v ++ write_contents rest
  write_contents (buffer v ∷ rest) = write_var_octets v ++ write_contents rest
  write_contents (long v ∷ rest) = write_var_uint v ++ write_contents rest

  pub write_frame : Frame → Bytes
  unfolding write_contents frame_type properties
  write_frame f = write_uint8 (frame_type f) ++ write_var_octets (write_contents (properties f))

  write_frames : List Frame → Bytes
  write_frames [] = []
  write_frames (f ∷ rest) = write_frame f ++ write_frames rest

  unfoldable pub serialize : Packet → Bytes
  unfolding write_frames
  serialize p =
      write_uint8 version
      ++ (write_uint8 p.ilp_packet_type
          ++ (write_var_uint p.sequence
              ++ (write_var_uint p.prepare_amount
                  ++ (write_var_uint (length p.frames) ++ write_frames p.frames))))

  -- `peekVarOctetString` reads without moving on.
  pub saturating_read_var_uint : Reader ℕ
  saturating_read_var_uint input = elim (read_var_octets input) [
    | throw e ↦ throw e
    | ok (octets, rest) ↦
        if ltb 8 (length octets) then ok (max_unsigned, rest) else read_var_uint input
  ]

  -- The `fromContents` methods of the stream frames; any other type gives no frame.
  pub parse_stream_contents : ℕ → Reader (Option Frame)
  unfolding saturating_read_var_uint
  parse_stream_contents type =
      if type == 0x10
      then (do
        i ← read_var_uint
        c ← read_uint8
        m ← read_var_octets
        pure (some (stream_close i c m)))
      else if type == 0x11
      then (do i ← read_var_uint; s ← read_var_uint; pure (some (stream_money i s)))
      else if type == 0x12
      then (do
        i ← read_var_uint
        m ← saturating_read_var_uint
        t ← read_var_uint
        pure (some (stream_max_money i m t)))
      else if type == 0x13
      then (do
        i ← read_var_uint
        m ← saturating_read_var_uint
        t ← read_var_uint
        pure (some (stream_money_blocked i m t)))
      else if type == 0x14
      then (do
        i ← read_var_uint
        o ← read_var_uint
        b ← read_var_octets
        pure (some (stream_data i o b)))
      else if type == 0x15
      then (do i ← read_var_uint; o ← read_var_uint; pure (some (stream_max_data i o)))
      else if type == 0x16
      then (do i ← read_var_uint; o ← read_var_uint; pure (some (stream_data_blocked i o)))
      else if type == 0x17
      then (do i ← read_var_uint; r ← read_var_octets; pure (some (stream_receipt i r)))
      else pure none

  -- The switch of `parseFrame`, with the `fromContents` methods of the connection frames.
  pub parse_contents : ℕ → Reader (Option Frame)
  unfolding parse_stream_contents
  parse_contents type =
      if type == 0x01
      then (do c ← read_uint8; m ← read_var_octets; pure (some (connection_close c m)))
      else if type == 0x02
      then (do a ← read_var_octets; pure (some (connection_new_address a)))
      else if type == 0x07
      then (do c ← read_var_octets; s ← read_uint8; pure (some (connection_asset_details c s)))
      else if type == 0x03
      then (do o ← read_var_uint; pure (some (connection_max_data o)))
      else if type == 0x04
      then (do o ← read_var_uint; pure (some (connection_data_blocked o)))
      else if type == 0x05
      then (do i ← read_var_uint; pure (some (connection_max_stream_id i)))
      else if type == 0x06
      then (do i ← read_var_uint; pure (some (connection_stream_id_blocked i)))
      else parse_stream_contents type

  -- A frame's contents are read on their own: what they leave over is dropped.
  unfoldable pub parse_frame : Reader (Option Frame)
  unfolding parse_contents
  parse_frame = do
    type ← read_uint8
    bytes ← read_var_octets
    λ rest. elim (parse_contents type bytes) [
      | throw e ↦ throw e
      | ok (frame, _) ↦ ok (frame, rest)
    ]

  abbrev keep : Option Frame → List Frame → List Frame
  keep none rest = rest
  keep (some f) rest = f ∷ rest

  unfoldable pub read_frames : ℕ → Reader (List Frame)
  read_frames zero = pure []
  read_frames (suc n) = do frame ← parse_frame; rest ← read_frames n; pure (keep frame rest)

  unfoldable pub read_body : Reader Packet
  unfolding read_frames
  read_body = do
    type ← read_uint8
    sequence ← read_var_uint
    amount ← read_var_uint
    count ← read_var_uint_number
    frames ← read_frames count
    pure (record {
      sequence = sequence;
      ilp_packet_type = type;
      prepare_amount = amount;
      frames = frames;
    })

  unfoldable pub read_packet : Reader Packet
  unfolding read_body
  read_packet = do
    v ← read_uint8
    if v == version then read_body else (λ input. throw unsupported_version)

  -- Bytes behind the last frame are padding, and are dropped.
  unfoldable pub deserialize : Bytes → Result Packet
  unfolding read_packet
  deserialize input = elim (read_packet input) [ throw e ↦ throw e | ok (p, _) ↦ ok p ]
