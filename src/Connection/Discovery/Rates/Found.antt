-- ===== src/Connection/Discovery/Rates/Found.antt =====
-- What the discovery of an exchange rate leaves: a rate of the precision asked for, packet sizes that
-- can be sent and that no volley refuted, and the money where it was.
use ilp_protocol_stream.Base.{ℕ, zero, suc, ◌+◌, ◌≤◌, ◌<◌, ◌≡◌, some, lookup, ok}
use ilp_protocol_stream.Long.{count_digits}
use ilp_protocol_stream.Long.Interface.{LongApi}
use ilp_protocol_stream.Rational.{Rational}
use ilp_protocol_stream.Congestion.{maximum_packet_amount}
use ilp_protocol_stream.Connection.{Connection}
use ilp_protocol_stream.Connection.Control.Streams.{money_in}
use ilp_protocol_stream.Connection.Discovery.Volleys.{sums_of}
use ilp_protocol_stream.Connection.Discovery.Rates.{Best}

-- At most so many packets are sent in so many volleys, the first of which has `n`.
abbrev pub packets : ℕ → ℕ → ℕ
packets zero n = 0
packets (suc left) n = n + packets left (n + 1)

module _ ⦃api : LongApi⦄ where
  -- What the discovery of a rate, with a precision and a number of packets, leaves of a connection.
  pub record Discovered (precision n : ℕ) (c d : Connection) : Type 0 where
    pub rate : Rational
    pub found : d.exchange_rate ≡ some rate
    pub positive : 0 < rate.b
    pub digits : ℕ
    pub counted : count_digits rate.a ≡ ok digits
    pub precise : precision ≤ digits
    pub streams : (k : ℕ) → money_in (lookup k d.streams) ≡ money_in (lookup k c.streams)
    pub sums : sums_of d ≡ sums_of c
    pub few : d.next_packet_sequence ≤ c.next_packet_sequence + n
    pub lower : maximum_packet_amount d.congestion ≤ maximum_packet_amount c.congestion
    pub usable : 0 < maximum_packet_amount d.congestion
    pub path : d.congestion.path_maximum ≤ maximum_packet_amount c.congestion
    pub tried : d.congestion.test_maximum_packet_amount ≡ d.congestion.path_maximum

  abbrev rated : Best → Connection → Connection
  rated best c = record c { exchange_rate = some best.exchange_rate }
