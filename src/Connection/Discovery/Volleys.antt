-- ===== src/Connection/Discovery/Volleys.antt =====
-- What a volley of test packets does to the connection: it takes a number for each packet, and leaves
-- the money and the sizes of packets alone.
use ilp_protocol_stream.Base.{
  ℕ, suc, ◌+◌, ◌^◌, ◌≤◌, ◌≡◌, refl, sym, subst, ap, ◌∙◌, inl, inr, leb, Bool-cases, List, [], ◌∷◌,
  Option, none, some, lookup, length, ok, >>=-eq-ok, ok-inj, true, arith,
}
use ilp_protocol_stream.Long.Interface.{LongApi}
use ilp_protocol_stream.Oer.{Bytes, OerApi}
use ilp_protocol_stream.Crypto.{CryptoApi}
use ilp_protocol_stream.Packet.{Packet}
use ilp_protocol_stream.Connection.{Connection}
use ilp_protocol_stream.Connection.Totals.{get_next_packet_sequence}
use ilp_protocol_stream.Connection.Filling.{Buffers}
use ilp_protocol_stream.Connection.Control.Streams.{
  money_in, Untouched, Untouched-trans, Untouched-self, handle_control_frames-Untouched,
}
use ilp_protocol_stream.Connection.Responses.{Response}
use ilp_protocol_stream.Connection.Discovery.{
  TestResult, no_response, rejected, answered, start_test_packet, handle_test_result, Arrived,
  arrive, arrive_all, finish_test_packet, start_volley, tried, Volley, send_test_packet_volley,
}

-- The four totals of a connection.
abbrev pub sums_of : Connection → List ℕ
sums_of c = c.total_sent ∷ c.total_received ∷ c.total_delivered ∷ c.incoming_hold ∷ []

-- Every stream has its money, the totals are the same, and `n` packets have taken a number.
pub record Sent (n : ℕ) (c d : Connection) : Type 0 where
  pub streams : (k : ℕ) → money_in (lookup k d.streams) ≡ money_in (lookup k c.streams)
  pub sums : sums_of d ≡ sums_of c
  pub sequence : d.next_packet_sequence ≡ c.next_packet_sequence + n

pub Sent-trans : {n m : ℕ} {c d e : Connection} → Sent n c d → Sent m d e → Sent (n + m) c e
Sent-trans v w = record {
  streams = λ k. w.streams k ∙ v.streams k;
  sums = w.sums ∙ v.sums;
  sequence = omega (arith, v.sequence, w.sequence);
}

first_four : List ℕ → List ℕ
first_four (a ∷ b ∷ c ∷ d ∷ rest) = a ∷ b ∷ c ∷ d ∷ []
first_four _ = []

fifth : List ℕ → ℕ
fifth (a ∷ b ∷ c ∷ d ∷ e ∷ rest) = e
fifth _ = 0

Sent-Untouched : {n : ℕ} {c d e : Connection} → Sent n c d → Untouched d e → Sent n c e
unfolding first_four fifth
Sent-Untouched v w = record {
  streams = λ k. w.streams k ∙ v.streams k;
  sums = ap first_four w.totals ∙ v.sums;
  sequence = ap fifth w.totals ∙ v.sequence;
}

-- `c` with `n` numbers of packets taken.
abbrev pub after_numbers : ℕ → Connection → Connection
after_numbers n c = record c { next_packet_sequence = c.next_packet_sequence + n }

next_sequence :
    (c d : Connection) (n : ℕ) → get_next_packet_sequence c ≡ ok (n, d) → d ≡ after_numbers 1 c
unfolding get_next_packet_sequence
next_sequence c d n e = elim (Bool-cases (leb (2 ^ 31) c.next_packet_sequence)) [
  | inl over ↦ absurd (cc)
  | inr left ↦ cc
]

start_test_packet-numbers :
    (c d : Connection) (p : Packet) → start_test_packet c ≡ ok (p, d) → d ≡ after_numbers 1 c
unfolding start_test_packet
start_test_packet-numbers c d p e =
    let ((n, b), taken, rest) = >>=-eq-ok (get_next_packet_sequence c) _ e in
    let same : b ≡ d = cc in sym same ∙ next_sequence c b n taken

pub start_volley-numbers :
    (amounts : List ℕ) (c d : Connection) (sent : List (ℕ × Packet))
    → start_volley amounts c ≡ ok (sent, d)
    → d ≡ after_numbers (length amounts) c
unfolding start_volley
start_volley-numbers [] c d sent e =
    let same : c ≡ d = cc in
    let nothing : c.next_packet_sequence ≡ c.next_packet_sequence + 0 = omega arith in
    sym same ∙ ap (λ v. record c { next_packet_sequence = v }) nothing
start_volley-numbers (amount ∷ rest) c d sent e =
    let ((p, b), first, more) = >>=-eq-ok (start_test_packet c) _ e in
    let ((others, f), second, last) = >>=-eq-ok (start_volley rest b) _ more in
    let same : f ≡ d = cc in
    let one = start_test_packet-numbers c b p first in
    let sum : c.next_packet_sequence + 1 + length rest
        ≡ c.next_packet_sequence + suc (length rest) =
      omega arith in
    sym same
    ∙ start_volley-numbers rest b f others second
    ∙ ap (after_numbers (length rest)) one
    ∙ ap (λ v. record c { next_packet_sequence = v }) sum

after_numbers-Sent : (n : ℕ) (c : Connection) → Sent n c (after_numbers n c)
after_numbers-Sent n c = record { streams = λ k. refl; sums = refl; sequence = refl }

Started :
    (amounts : List ℕ) (c d : Connection) (sent : List (ℕ × Packet))
    → start_volley amounts c ≡ ok (sent, d)
    → Sent (length amounts) c d × (d.congestion ≡ c.congestion)
Started amounts c d sent e =
    let numbers = start_volley-numbers amounts c d sent e in
    (
      subst (Sent (length amounts) c) (sym numbers) (after_numbers-Sent (length amounts) c),
      ap (λ x. x.congestion) numbers,
    )

length-tried :
    (amounts : List ℕ) (sent : List (ℕ × Packet)) (results : List (ℕ × TestResult))
    → length (tried amounts sent results) ≤ length amounts
unfolding tried
length-tried [] sent results = omega arith
length-tried (amount ∷ rest) [] results = omega arith
length-tried (amount ∷ rest) ((sequence, p) ∷ others) results =
    omega (arith, length-tried rest others results)

module _ ⦃api : LongApi⦄ where
  handle_test_result-Untouched :
      (buffers : Buffers) (c : Connection) (result : TestResult)
      → Untouched c (handle_test_result buffers c result).connection
  unfolding handle_test_result
  handle_test_result-Untouched buffers c (answered response) =
      let w =
        handle_control_frames-Untouched buffers response.frames
          (record c { remote_knows_our_account = true }) in
      record { streams = w.streams; totals = w.totals; congestion = w.congestion }
  handle_test_result-Untouched buffers c no_response = Untouched-self c
  handle_test_result-Untouched buffers c (rejected r) = Untouched-self c

module _ ⦃api : LongApi⦄ ⦃oer : OerApi⦄ ⦃crypto : CryptoApi⦄ where
  arrive-Untouched :
      (buffers : Buffers) (psk_key : Bytes) (p : Option Packet) (response : Response)
      (a b : Arrived)
      → arrive buffers psk_key p response a ≡ ok b
      → Untouched a.connection b.connection
  unfolding arrive
  arrive-Untouched buffers psk_key none response a b e =
      let same : a ≡ b = cc in
      subst (λ x. Untouched a.connection x.connection) same (Untouched-self a.connection)
  arrive-Untouched buffers psk_key (some p) response a b e =
      let (result, first, rest) = >>=-eq-ok (finish_test_packet psk_key p response) _ e in
      let handled = handle_test_result-Untouched buffers a.connection result in
      subst (Untouched a.connection) (ap (λ x. x.connection) (ok-inj rest)) handled

  arrive_all-Untouched :
      (buffers : Buffers) (psk_key : Bytes) (sent : List (ℕ × Packet))
      (arrivals : List (ℕ × Response)) (a b : Arrived)
      → arrive_all buffers psk_key sent arrivals a ≡ ok b
      → Untouched a.connection b.connection
  unfolding arrive_all
  arrive_all-Untouched buffers psk_key sent [] a b e =
      let same : a ≡ b = cc in
      subst (λ x. Untouched a.connection x.connection) same (Untouched-self a.connection)
  arrive_all-Untouched buffers psk_key sent ((sequence, response) ∷ others) a b e =
      let (m, first, rest) =
        >>=-eq-ok (arrive buffers psk_key (lookup sequence sent) response a) _ e in
      Untouched-trans (arrive-Untouched buffers psk_key (lookup sequence sent) response a m first)
        (arrive_all-Untouched buffers psk_key sent others m b rest)

  -- A volley takes a number for each of its packets, and nothing else of the money; it has no more
  -- results than packets.
  pub send_test_packet_volley-Sent :
      (buffers : Buffers) (psk_key : Bytes) (amounts : List ℕ) (arrivals : List (ℕ × Response))
      (c : Connection) (v : Volley)
      → send_test_packet_volley buffers psk_key amounts arrivals c ≡ ok v
      → Sent (length amounts) c v.connection
        × (v.connection.congestion ≡ c.congestion)
        × (length v.tests ≤ length amounts)
  unfolding send_test_packet_volley
  send_test_packet_volley-Sent buffers psk_key amounts arrivals c v e =
      let ((sent, d), first, more) = >>=-eq-ok (start_volley amounts c) _ e in
      let start : Arrived = record { results = []; connection = d; effects = [] } in
      let (a, second, last) = >>=-eq-ok (arrive_all buffers psk_key sent arrivals start) _ more in
      let (started, same) = Started amounts c d sent first in
      let arrived = arrive_all-Untouched buffers psk_key sent arrivals start a second in
      let result = ap (λ x. x.connection) (ok-inj last) in
      (
        subst (Sent (length amounts) c) result (Sent-Untouched started arrived),
        ap (λ x. x.congestion) (sym result) ∙ arrived.congestion ∙ same,
        omega (arith, length-tried amounts sent a.results, ap (λ x. length x.tests) (ok-inj last)),
      )
