-- ===== src/Stream.antt =====
-- stream.ts: the money and the data of one DataAndMoneyStream. Events that the stream emits and what
-- Node's Duplex class keeps are not part of the state; amounts are values of unsigned Longs.
pub mod Money
pub mod Data
pub mod Reading
pub mod Waiting
pub mod Ending
use ilp_protocol_stream.Base.{ℕ, List, [], Option, none, Bool, false}
use ilp_protocol_stream.Long.Interface.{max_unsigned}
use ilp_protocol_stream.OffsetSorter
use ilp_protocol_stream.OffsetSorter.{Sorter}
use ilp_protocol_stream.DataQueue
use ilp_protocol_stream.DataQueue.{Queue}

-- An entry of `_outgoingDataToRetry`.
pub record Segment : Type 0 where
  pub bytes : List ℕ
  pub offset : ℕ

pub record Stream : Type 0 where
  pub id : ℕ
  pub is_server : Bool
  pub total_sent : ℕ
  pub total_received : ℕ
  pub send_max : ℕ
  pub receive_max : ℕ
  pub outgoing_held_amount : ℕ
  pub sent_end : Bool
  pub remote_sent_end : Bool
  pub closed : Bool
  pub holds : List (ℕ × ℕ)
  pub incoming_data : Sorter
  pub outgoing_data : Queue
  pub outgoing_data_to_retry : List Segment
  pub outgoing_offset : ℕ
  pub remote_closed : Bool
  pub remote_received : ℕ
  pub remote_receive_max : ℕ
  pub remote_max_offset : ℕ
  pub receipt : Option (List ℕ)
  pub error_message : Option (List ℕ)

unfoldable pub new_stream : ℕ → Bool → Stream
unfolding OffsetSorter.new_sorter DataQueue.new_queue
new_stream id is_server = record {
  id = id;
  is_server = is_server;
  total_sent = 0;
  total_received = 0;
  send_max = 0;
  receive_max = 0;
  outgoing_held_amount = 0;
  sent_end = false;
  remote_sent_end = false;
  closed = false;
  holds = [];
  incoming_data = OffsetSorter.new_sorter;
  outgoing_data = DataQueue.new_queue;
  outgoing_data_to_retry = [];
  outgoing_offset = 0;
  remote_closed = false;
  remote_received = 0;
  remote_receive_max = max_unsigned;
  remote_max_offset = 16384;
  receipt = none;
  error_message = none;
}
