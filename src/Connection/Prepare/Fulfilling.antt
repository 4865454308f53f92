-- ===== src/Connection/Prepare/Fulfilling.antt =====
-- `handlePrepare`, its later stages: the amounts for the streams, the application's consent, the
-- credit, and the response.
pub mod Checked
pub mod Credited
pub mod Keys
use ilp_protocol_stream.Base.{
  ℕ, ltb, ◌==◌, ◌&&◌, not, if◌then◌else◌, List, [], ◌∷◌, ◌++◌, Option, none, some, Bool, true,
  false, lookup, assign, Result, ok, throw, no_such_stream,
}
use ilp_protocol_stream.Long.{multiply_divide_floor}
use ilp_protocol_stream.Long.Interface.{LongApi}
use ilp_protocol_stream.Oer.{Bytes, OerApi}
use ilp_protocol_stream.Crypto.{CryptoApi}
use ilp_protocol_stream.Rational.{multiply_by_long_ceil}
use ilp_protocol_stream.Receipt.{equals, create_receipt}
use ilp_protocol_stream.Stream.{Stream}
use ilp_protocol_stream.Stream.Money.{get_amount_stream_can_receive, add_to_incoming}
use ilp_protocol_stream.Packet.{
  Frame, Packet, connection_max_data, stream_close, stream_max_money, stream_max_data,
  stream_receipt,
}
use ilp_protocol_stream.Packet.Padding.{decrypt_and_deserialize}
use ilp_protocol_stream.Connection.{Connection, RemoteState}
use ilp_protocol_stream.Connection.Updating.{update_stream}
use ilp_protocol_stream.Connection.Totals.{
  add_incoming_hold, remove_incoming_hold, add_total_received,
}
use ilp_protocol_stream.Connection.Shares.{money_frames, total_money_shares}
use ilp_protocol_stream.Connection.Offsets.{max_acceptable}
use ilp_protocol_stream.Connection.Filling.{Buffers, stream_max_acceptable}
use ilp_protocol_stream.Connection.Control.{handle_control_frames}
use ilp_protocol_stream.Connection.Prepare.{
  IlpPrepare, Environment, Answer, fulfills, rejects, refuses, fails, Answered, Handling, Stage,
  proceeds, stops, ◌>>=◌, final_application_error, attempt, stream_state_error, open_streams,
  check_window, check_amount,
}

push_frame : Frame → Handling → Handling
push_frame frame h = record h { response_frames = h.response_frames ++ frame ∷ [] }

module _ ⦃crypto : CryptoApi⦄ where
  pub check_fulfillment : Environment → Packet → IlpPrepare → Handling → Stage Bytes
  check_fulfillment env p prepare h =
      let fulfillment = crypto.hmac_sha256 env.fulfillment_key prepare.bytes in
      if equals (crypto.sha256 fulfillment) prepare.execution_condition
      then proceeds fulfillment
      else final_application_error p prepare.amount h

module _ ⦃api : LongApi⦄ where
  -- The two tests of a stream that is to receive an amount.
  unfoldable pub test_stream :
      Environment → Packet → ℕ → Handling → ℕ → ℕ → Stream → ℕ → Stage (ℕ × ℕ)
  unfolding push_frame
  test_stream env p incoming h stream_id amount s maximum =
      if ltb maximum amount
      then final_application_error p incoming
          (push_frame (stream_max_money stream_id s.receive_max s.total_received) h)
      else if s.closed
      then final_application_error p incoming
          (push_frame (stream_close stream_id stream_state_error env.already_closed) h)
      else proceeds (stream_id, amount)

  unfoldable pub check_stream : Environment → Packet → ℕ → Handling → ℕ → ℕ → Stream → Stage (ℕ × ℕ)
  unfolding test_stream
  check_stream env p incoming h stream_id amount s =
      let extra = h.connection.allowable_receive_extra in
      attempt h (multiply_by_long_ceil extra (get_amount_stream_can_receive s))
      >>= test_stream env p incoming h stream_id amount s

  unfoldable pub stream_there : Handling → ℕ → Stage Stream
  stream_there h stream_id = elim (lookup stream_id h.connection.streams) [
    | none ↦ attempt h (throw no_such_stream)
    | some s ↦ proceeds s
  ]

  unfoldable pub amounts_loop :
      Environment → Packet → ℕ → Handling → ℕ → List (ℕ × ℕ) → Stage (List (ℕ × ℕ))
  unfolding check_stream stream_there
  amounts_loop env p incoming h whole [] = proceeds []
  amounts_loop env p incoming h whole ((stream_id, shares) ∷ rest) = do
    amount ← attempt h (multiply_divide_floor incoming shares whole)
    s ← stream_there h stream_id
    first ← check_stream env p incoming h stream_id amount s
    others ← amounts_loop env p incoming h whole rest
    proceeds (first ∷ others)

  unfoldable pub amounts_for_streams : Environment → Packet → ℕ → Handling → Stage (List (ℕ × ℕ))
  unfolding amounts_loop
  amounts_for_streams env p incoming h = do
    whole ← attempt h (total_money_shares p.frames)
    amounts_loop env p incoming h whole (money_frames p.frames)

  declines : Environment → ℕ → ℕ → Bool
  declines env sequence incoming = elim env.should_fulfill [
    | none ↦ false
    | some keeps ↦ ltb 0 incoming && not (keeps incoming sequence)
  ]

  -- The hold, and the application's consent.
  ask : Environment → Packet → ℕ → Handling → Connection → Stage Handling
  unfolding declines
  ask env p incoming h held =
      if declines env p.sequence incoming
      then final_application_error p incoming
          (record h { connection = remove_incoming_hold incoming held })
      else proceeds (record h { connection = held })

  pub consent : Environment → Packet → ℕ → Handling → Stage Handling
  unfolding ask
  consent env p incoming h =
      attempt h (add_incoming_hold incoming h.connection) >>= ask env p incoming h

  pub credit : List (ℕ × ℕ) → Connection → Connection
  credit [] c = c
  credit ((stream_id, amount) ∷ rest) c =
      credit rest (update_stream stream_id (λ s. add_to_incoming s amount) c)

  abbrev total_of : Option Stream → ℕ
  total_of none = 0
  total_of (some s) = s.total_received

  -- The map of the totals, the last total of a stream at its first place.
  pub totals_received : List (ℕ × ℕ) → Connection → List (ℕ × ℕ) → List (ℕ × ℕ)
  totals_received [] c totals = totals
  totals_received ((stream_id, amount) ∷ rest) c totals =
      let d = update_stream stream_id (λ s. add_to_incoming s amount) c in
      totals_received rest d (assign stream_id (total_of (lookup stream_id d.streams)) totals)

-- The frames about each stream, and the streams, of which the closed ones are told once.
stream_frames : Environment → Stream → List Frame × Stream
stream_frames env s =
    if s.closed && not s.remote_closed
    then (
      (elim s.error_message [
        | none ↦ stream_close s.id 0x01 []
        | some message ↦ elim message [
          | [] ↦ stream_close s.id 0x01 []
          | x ∷ xs ↦ stream_close s.id 0x09 (x ∷ xs)
        ]
      ])
          ∷ [],
      record s { remote_closed = true },
    )
    else (
      stream_max_money s.id s.receive_max s.total_received
          ∷ stream_max_data s.id (stream_max_acceptable env.buffers s)
          ∷ [],
      s,
    )

tell_streams : Environment → List (ℕ × Stream) → List Frame × List (ℕ × Stream)
unfolding stream_frames
tell_streams env [] = ([], [])
tell_streams env ((k, s) ∷ rest) =
    let (frames, t) = stream_frames env s in
    let (more, others) = tell_streams env rest in (frames ++ more, (k, t) ∷ others)

abbrev is_remote_closed : RemoteState → Bool
is_remote_closed RemoteState.closed = true
is_remote_closed _ = false

pub tell_limits : Environment → Handling → Handling
unfolding tell_streams
tell_limits env h =
    let c = h.connection in
    let (frames, streams) = tell_streams env c.streams in
    if not c.is_closed && not (is_remote_closed c.remote_state)
    then record h {
      connection = record c { streams = streams };
      response_frames = h.response_frames ++ frames;
    }
    else h

module _ ⦃oer : OerApi⦄ ⦃crypto : CryptoApi⦄ where
  receipt_frames : Bytes → Bytes → Handling → List (ℕ × ℕ) → Stage (List Frame)
  receipt_frames nonce secret h [] = proceeds []
  receipt_frames nonce secret h ((stream_id, total) ∷ rest) = do
    receipt ← attempt h (create_receipt nonce stream_id total secret)
    more ← receipt_frames nonce secret h rest
    proceeds (stream_receipt stream_id receipt ∷ more)

  pub add_receipts : List (ℕ × ℕ) → Handling → Stage (List Frame)
  unfolding receipt_frames
  add_receipts totals h = elim h.connection.receipt_nonce [
    | none ↦ proceeds []
    | some nonce ↦ elim h.connection.receipt_secret [
      | none ↦ proceeds []
      | some secret ↦ receipt_frames nonce secret h totals
    ]
  ]

module _ ⦃api : LongApi⦄ where
  -- The end: the response, with the frames that are queued, and the totals of the connection.
  unfoldable pub answer_fulfill : Packet → ℕ → Bytes → List Frame → Handling → Answered
  answer_fulfill p incoming fulfillment receipts h =
      let c = h.connection in
      record {
        answer = fulfills fulfillment (record {
          sequence = p.sequence;
          ilp_packet_type = 13;
          prepare_amount = incoming;
          frames = h.response_frames ++ (receipts ++ c.queued_frames);
        });
        connection =
            add_total_received incoming
              (remove_incoming_hold incoming (record c { queued_frames = [] }));
        effects = h.effects;
      }
