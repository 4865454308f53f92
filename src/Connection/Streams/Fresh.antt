-- ===== src/Connection/Streams/Fresh.antt =====
-- A stream that a frame opens has no money: what counts is what each stream has sent and received, and
-- a stream that is not there counts as one without any.
use ilp_protocol_stream.Base.{
  ℕ, ◌≡◌, refl, ap, ◌∙◌, subst, inl, inr, ltb, ◌==◌, ==→eq, ◌*◌, ◌%◌, ◌&&◌, ◌||◌, not, Bool-cases,
  List, [], ◌∷◌, Option, none, some, Bool, false, lookup, lookup-assign,
}
use ilp_protocol_stream.Stream
use ilp_protocol_stream.Stream.{Stream}
use ilp_protocol_stream.Packet.{connection_max_stream_id}
use ilp_protocol_stream.Connection.{Connection}
use ilp_protocol_stream.Connection.Control.Streams.{Money, money_in, Untouched}
use ilp_protocol_stream.Connection.Streams.{
  Texts, done, queue, add_stream, has, member, is_known, refuse, accept_stream, handle_new_stream,
}

abbrev pub or_zero : Option Money → Money
or_zero none = record {
  sent = 0;
  received = 0;
  send_max = 0;
  receive_max = 0;
  held = 0;
  holds = [];
}
or_zero (some m) = m

-- No stream has got or spent anything, and neither has the connection.
pub record NoCredit (c d : Connection) : Type 0 where
  pub streams :
      (k : ℕ) → or_zero (money_in (lookup k d.streams)) ≡ or_zero (money_in (lookup k c.streams))
  pub received : d.total_received ≡ c.total_received
  pub sent : d.total_sent ≡ c.total_sent

pub NoCredit-self : (c : Connection) → NoCredit c c
NoCredit-self c = record { streams = λ k. refl; received = refl; sent = refl }

pub NoCredit-trans : {c d e : Connection} → NoCredit c d → NoCredit d e → NoCredit c e
NoCredit-trans p q = record {
  streams = λ k. q.streams k ∙ p.streams k;
  received = q.received ∙ p.received;
  sent = q.sent ∙ p.sent;
}

first_of : List ℕ → ℕ
first_of [] = 0
first_of (x ∷ xs) = x

second_of : List ℕ → ℕ
unfolding first_of
second_of [] = 0
second_of (x ∷ xs) = first_of xs

pub Untouched-NoCredit : {c d : Connection} → Untouched c d → NoCredit c d
unfolding first_of second_of
Untouched-NoCredit w = record {
  streams = λ k. ap or_zero (w.streams k);
  received = ap second_of w.totals;
  sent = ap first_of w.totals;
}

has-none : (o : Option Stream) (b : Bool) → (has o || b) ≡ false → o ≡ none
has-none none b e = refl
has-none (some s) b e = absurd cc

unknown_lookup : (k : ℕ) (c : Connection) → is_known k c ≡ false → lookup k c.streams ≡ none
unfolding is_known
unknown_lookup k c e = has-none (lookup k c.streams) (member k c.closed_streams) e

add_stream-NoCredit :
    (i : ℕ) (c : Connection) → lookup i c.streams ≡ none → NoCredit c (add_stream i c)
unfolding add_stream Stream.new_stream
add_stream-NoCredit i c missing = record {
  streams = λ k. elim (Bool-cases (i == k)) [
    | inl e ↦
        let here : lookup k c.streams ≡ none =
          subst (λ j. lookup j c.streams ≡ none) (==→eq i k e) missing in
        rw (lookup-assign i k (Stream.new_stream i c.is_server) c.streams, e, here)
    | inr e ↦ rw (lookup-assign i k (Stream.new_stream i c.is_server) c.streams, e)
  ];
  received = refl;
  sent = refl;
}

accept-NoCredit :
    (i : ℕ) (c : Connection) → lookup i c.streams ≡ none → NoCredit c (accept_stream i c)
unfolding accept_stream queue
accept-NoCredit i c missing = elim (Bool-cases (ltb (3 * c.max_stream_id) (4 * i))) [
  | inl e ↦ rw e (
      let w = add_stream-NoCredit i (queue (connection_max_stream_id c.max_stream_id) c) missing in
      record { streams = w.streams; received = w.received; sent = w.sent })
  | inr e ↦ rw e (add_stream-NoCredit i c missing)
]

-- A frame for a stream, whether it opens it, finds it or is refused, brings no money.
pub handle_new_stream-NoCredit :
    (texts : Texts) (i : ℕ) (c : Connection) → NoCredit c (handle_new_stream texts i c).connection
unfolding handle_new_stream refuse queue done
handle_new_stream-NoCredit texts i c = elim (Bool-cases (is_known i c)) [
  | inl e ↦ rw e (NoCredit-self c)
  | inr e ↦ elim (Bool-cases (c.is_server && (i % 2 == 0))) [
    | inl e2 ↦ rw (e, e2) (record { streams = λ k. refl; received = refl; sent = refl })
    | inr e2 ↦ elim (Bool-cases (not c.is_server && (i % 2 == 1))) [
      | inl e3 ↦ rw (e, e2, e3) (record { streams = λ k. refl; received = refl; sent = refl })
      | inr e3 ↦ elim (Bool-cases (ltb c.max_stream_id i)) [
        | inl e4 ↦ rw (e, e2, e3, e4) (record { streams = λ k. refl; received = refl; sent = refl })
        | inr e4 ↦ rw (e, e2, e3, e4) (accept-NoCredit i c (unknown_lookup i c e))
      ]
    ]
  ]
]
