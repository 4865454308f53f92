-- ===== src/Tests/Money.antt =====
-- Examples of the money and the data of a stream.
use ilp_protocol_stream.Base.{
  ◌+◌, ◌≤◌, ◌≡◌, refl, false, List, [], ◌∷◌, some, none, lookup, length, ◌⊎◌, arith,
}
use mathlib.Core.List.{Perm, perm_append_comm}
use ilp_protocol_stream.Stream.{Stream, new_stream}
use ilp_protocol_stream.Stream.Money.{hold_outgoing, execute_hold, cancel_hold}
use ilp_protocol_stream.Stream.Money.Spending.{
  Call, sets_send_max, holds, executes, cancels, run, run_spent, Within,
}
use ilp_protocol_stream.Stream.Money.Settling.{hold_outgoing-settled}
use ilp_protocol_stream.Stream.Data.{get_available_data_to_send}
use ilp_protocol_stream.Stream.Data.Pending.{Sends, get_available-Sends}
use ilp_protocol_stream.OffsetSorter
use ilp_protocol_stream.OffsetSorter.{Entry, new_sorter}
use ilp_protocol_stream.OffsetSorter.Reassembly.{joined, push_all, read_all, push-read_all}
use ilp_protocol_stream.OffsetSorter.Stall.{push_stale}
use ilp_protocol_stream.DataQueue
use ilp_protocol_stream.DataQueue.{Queue, Taken, new_queue}
use ilp_protocol_stream.DataQueue.Contents.{Takes, read_lem}
use ilp_protocol_stream.Tests.{long}

abbrev paying : List Call
paying =
    sets_send_max 100
    ∷ holds 1 (some 40)
    ∷ holds 2 none
    ∷ executes 1
    ∷ cancels 2
    ∷ holds 3 none
    ∷ []

run_spent_example :
    let s = run (new_stream 1 false) paying in s.total_sent + s.outgoing_held_amount ≤ 100
run_spent_example = run_spent 1 false paying (omega arith)

abbrev limited : Stream
unfolding new_stream
limited = record (new_stream 1 false) { send_max = 100; total_sent = 30; receive_max = 50 }

limited-Within : Within 100 limited
unfolding new_stream
limited-Within = record {
  covered = omega arith;
  spent = omega arith;
  limited = omega arith;
  small = omega arith;
}

no_hold : lookup 7 limited.holds ≡ none
unfolding lookup new_stream
no_hold = refl

hold_outgoing-settled_example :
    let (t, amount) = hold_outgoing limited 7 (some 20) in
    (execute_hold t 7 ≡ record limited { total_sent = limited.total_sent + amount })
    × (cancel_hold t 7 ≡ limited)
hold_outgoing-settled_example = hold_outgoing-settled 100 limited 7 20 limited-Within no_hold

abbrev chunks : List Entry
chunks =
    record { bytes = 1 ∷ 2 ∷ []; offset = 0 }
    ∷ record { bytes = 3 ∷ []; offset = 2 }
    ∷ record { bytes = 4 ∷ 5 ∷ []; offset = 3 }
    ∷ []

abbrev arrived : List Entry
arrived =
    record { bytes = 3 ∷ []; offset = 2 }
    ∷ record { bytes = 4 ∷ 5 ∷ []; offset = 3 }
    ∷ record { bytes = 1 ∷ 2 ∷ []; offset = 0 }
    ∷ []

arrived-perm : Perm chunks arrived
arrived-perm =
    perm_append_comm (record { bytes = 1 ∷ 2 ∷ []; offset = 0 } ∷ [])
      (record { bytes = 3 ∷ []; offset = 2 } ∷ record { bytes = 4 ∷ 5 ∷ []; offset = 3 } ∷ [])

push-read_all_example :
    let s = push_all new_sorter arrived in
    (OffsetSorter.byte_length s ≡ length (joined chunks))
    × ((read_all (length chunks) s).0 ≡ joined chunks)
    × ((read_all (length chunks) s).1.read_offset ≡ length (joined chunks))
push-read_all_example =
    push-read_all chunks arrived ((refl, omega arith, (refl, omega arith, (refl, omega arith, tt))))
      arrived-perm

push_stale_example :
    let s = record new_sorter { read_offset = 4 } in
    let t =
      push_all (OffsetSorter.push s (8 ∷ []) 2) (record { bytes = 9 ∷ []; offset = 4 } ∷ []) in
    (OffsetSorter.read t ≡ (none, t)) × (OffsetSorter.byte_length t ≡ 0)
push_stale_example =
    push_stale (record new_sorter { read_offset = 4 }) (8 ∷ []) 2
      (record { bytes = 9 ∷ []; offset = 4 } ∷ []) (omega arith)

abbrev queued : Queue
queued = record {
  chunks =
      record { bytes = 1 ∷ 2 ∷ []; callback = some 10 }
      ∷ record { bytes = 3 ∷ []; callback = none }
      ∷ [];
  count = 2;
}

read_lem_example :
    ((queued.chunks ≡ []) × (DataQueue.read queued 1 ≡ none))
    ⊎ ((r : Taken) × (DataQueue.read queued 1 ≡ some r) × (Takes queued 1 r))
read_lem_example = read_lem queued 1 refl

abbrev sending : Stream
sending = record limited {
  outgoing_data = queued;
  outgoing_data_to_retry = record { bytes = 9 ∷ 9 ∷ []; offset = 0 } ∷ [];
  outgoing_offset = 2;
}

get_available-Sends_example : Sends sending 1 (get_available_data_to_send sending 1)
get_available-Sends_example = get_available-Sends sending 1 refl
