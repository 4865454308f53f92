-- ===== src/Connection/Streams/Identifiers.antt =====
-- The identifiers of the streams that either side opens.
use ilp_protocol_stream.Base.{
  ℕ, ◌+◌, ◌*◌, ◌%◌, ◌≤◌, ◌<◌, ◌≡◌, refl, ◌⊎◌, inl, inr, ltb, ◌==◌, if◌then◌else◌, Bool-cases, true,
  false, lookup-assign, lookup-remove_ne, ==→eq, ==→ne, sym, subst, ap, ◌∙◌, not, ◌&&◌, arith,
}
use ilp_protocol_stream.Stream.{Stream, new_stream}
use ilp_protocol_stream.Packet.{Frame}
use ilp_protocol_stream.Connection.{Connection}
use ilp_protocol_stream.Connection.Streams.{
  create_stream, handle_new_stream, remove_stream_record, member, is_known, Texts, add_stream,
  queue, refuse, accept_stream, done,
}

-- Own identifiers have the parity of the next one and are below it, and the others are at most the
-- largest one that the peer may use.
unfoldable pub IsAllowed : Connection → ℕ → Type 0
IsAllowed c k =
    ((k % 2 ≡ c.next_stream_id % 2) × (k < c.next_stream_id))
    ⊎ (¬ (k % 2 ≡ c.next_stream_id % 2)) × (k ≤ c.max_stream_id)

pub record IsWellFormed (c : Connection) : Type 0 where
  pub parity : c.next_stream_id % 2 ≡ (if c.is_server then 0 else 1)
  pub allowed : (k : ℕ) → is_known k c ≡ true → IsAllowed c k

-- A known identifier after a stream was added is the new one or was known before.
known-add :
    (j k : ℕ) (c : Connection)
    → is_known j (add_stream k c) ≡ true
    → (j ≡ k) ⊎ (is_known j c ≡ true)
unfolding is_known add_stream
known-add j k c h = ground (arith, lookup-assign k j (new_stream k c.is_server) c.streams)

known-remove :
    (j : ℕ) (s : Stream) (c : Connection)
    → is_known j (remove_stream_record s c).0 ≡ true
    → (j ≡ s.id) ⊎ (is_known j c ≡ true)
unfolding is_known remove_stream_record queue member
known-remove j s c h = elim (Bool-cases (s.id == j)) [
  | inl e ↦ inl (sym (==→eq s.id j e))
  | inr e ↦ ground (arith, lookup-remove_ne s.id j c.streams (==→ne s.id j e), e)
]

remove-limits :
    (s : Stream) (c : Connection)
    → let d = (remove_stream_record s c).0 in
      (d.next_stream_id ≡ c.next_stream_id)
      × (d.max_stream_id ≡ c.max_stream_id)
      × (d.is_server ≡ c.is_server)
unfolding remove_stream_record queue
remove-limits s c = elim (Bool-cases s.sent_end) [
  | inl e ↦ rw e (refl, refl, refl)
  | inr e ↦ rw e (refl, refl, refl)
]

-- The next own identifier is not in use, whether for an open stream or for a closed one.
pub next-unknown : (c : Connection) → IsWellFormed c → is_known c.next_stream_id c ≡ false
unfolding IsAllowed
next-unknown c w = elim (Bool-cases (is_known c.next_stream_id c)) [
  | inl known ↦ ground (arith, w.allowed c.next_stream_id known)
  | inr fresh ↦ fresh
]

queue-IsWellFormed :
    (frame : Frame) (c : Connection) → IsWellFormed c → IsWellFormed (queue frame c)
unfolding queue is_known IsAllowed
queue-IsWellFormed frame c w = record { parity = w.parity; allowed = w.allowed }

add_own :
    (c : Connection)
    → IsWellFormed c
    → IsWellFormed
        (record (add_stream c.next_stream_id c) { next_stream_id = c.next_stream_id + 2 })
unfolding is_known add_stream IsAllowed
add_own c w =
    let n = c.next_stream_id in
    record {
      parity = omega (arith, w.parity);
      allowed = λ j h. elim (known-add j n c h) [
        | inl e ↦ inl (omega (arith, e), omega (arith, e))
        | inr old ↦ ground (arith, w.allowed j old)
      ];
    }

add_other :
    (k : ℕ) (c : Connection)
    → IsWellFormed c
    → ¬ (k % 2 ≡ c.next_stream_id % 2)
    → k ≤ c.max_stream_id
    → IsWellFormed (add_stream k c)
unfolding is_known add_stream IsAllowed
add_other k c w ne le = record {
  parity = w.parity;
  allowed = λ j h. elim (known-add j k c h) [
    | inl e ↦ inr (λ same. ne (ap (λ x. x % 2) (sym e) ∙ same), omega (arith, e))
    | inr old ↦ w.allowed j old
  ];
}

-- Opening a stream of one's own keeps the identifiers well-formed, whether or not the peer's limit
-- allows it.
pub create_stream-IsWellFormed :
    (c : Connection) → IsWellFormed c → IsWellFormed (create_stream c).connection
unfolding create_stream done
create_stream-IsWellFormed c w = elim (Bool-cases (ltb c.remote_max_stream_id c.next_stream_id)) [
  | inl e ↦ rw e (queue-IsWellFormed _ c w)
  | inr e ↦ rw e (add_own c w)
]

-- A stream of the peer's that the checks let pass.
accept_stream-IsWellFormed :
    (k : ℕ) (c : Connection)
    → IsWellFormed c
    → ¬ (k % 2 ≡ c.next_stream_id % 2)
    → k ≤ c.max_stream_id
    → IsWellFormed (accept_stream k c)
unfolding accept_stream queue
accept_stream-IsWellFormed k c w ne le = elim (Bool-cases (ltb (3 * c.max_stream_id) (4 * k))) [
  | inl e ↦ rw e (add_other k (queue _ c) (queue-IsWellFormed _ c w) ne le)
  | inr e ↦ rw e (add_other k c w ne le)
]

-- A frame for any stream, whoever's it is, keeps the identifiers well-formed, also where it is refused.
pub handle_new_stream-IsWellFormed :
    (texts : Texts) (k : ℕ) (c : Connection)
    → IsWellFormed c
    → IsWellFormed (handle_new_stream texts k c).connection
unfolding handle_new_stream refuse done
handle_new_stream-IsWellFormed texts k c w = elim (Bool-cases (is_known k c)) [
  | inl known ↦ rw known w
  | inr new ↦ elim (Bool-cases (c.is_server && (k % 2 == 0))) [
    | inl even ↦ rw (new, even) (queue-IsWellFormed _ c w)
    | inr odd ↦ elim (Bool-cases (not c.is_server && (k % 2 == 1))) [
      | inl odd' ↦ rw (new, odd, odd') (queue-IsWellFormed _ c w)
      | inr even' ↦ elim (Bool-cases (ltb c.max_stream_id k)) [
        | inl many ↦ rw (new, odd, even', many) (queue-IsWellFormed _ c w)
        | inr few ↦
            rw (new, odd, even', few)
              (accept_stream-IsWellFormed k c w (ground (arith, w.parity)) (ground arith))
      ]
    ]
  ]
]

-- Closing a known stream keeps the identifiers well-formed.
pub remove_stream_record-IsWellFormed :
    (s : Stream) (c : Connection)
    → is_known s.id c ≡ true
    → IsWellFormed c
    → IsWellFormed (remove_stream_record s c).0
unfolding IsAllowed
remove_stream_record-IsWellFormed s c known w =
    let (next, last, server) = remove-limits s c in
    record {
      parity = rw (next, server) w.parity;
      allowed = λ j h.
          rw (next, last)
            (elim (known-remove j s c h) [
              | inl e ↦ subst (IsAllowed c) (sym e) (w.allowed s.id known)
              | inr old ↦ w.allowed j old
            ]);
    }
