-- ===== src/Connection/Discovery/Rates/Limiting.antt =====
-- What a volley leaves of the packet sizes, and how many packets the next one has.
use ilp_protocol_stream.Base.{
  ℕ, suc, ◌+◌, ◌≤◌, ◌<◌, ◌≡◌, refl, sym, ap, inl, inr, ◌==◌, ==→ne, Bool-cases, List, [], ◌∷◌, ◌++◌,
  All, length, length-append, ok, >>=-eq-ok, ok-inj, arith,
}
use ilp_protocol_stream.Long.{min_longs}
use ilp_protocol_stream.Long.Interface.{LongApi, max_unsigned}
use ilp_protocol_stream.Long.Bounds.{min_longs_lem, min_long-le}
use ilp_protocol_stream.Oer.{OerApi}
use ilp_protocol_stream.Congestion.{
  CongestionController, maximum_packet_amount, set_maximum_amounts,
}
use ilp_protocol_stream.Connection.{Connection}
use ilp_protocol_stream.Connection.Streams.{member}
use ilp_protocol_stream.Connection.Discovery.{NumberApi, TestResult}
use ilp_protocol_stream.Connection.Discovery.Rates.{
  max_packet_amounts, lowest, set_maximum, unique, known, smallest_amount, some_temporary,
  next_amounts,
}

All-last : (P : ℕ → Type 0) (xs : List ℕ) (x : ℕ) → All P (xs ++ x ∷ []) → P x
All-last P [] x h = h.0
All-last P (y ∷ xs) x h = All-last P xs x h.1

lowest-le_last : (amounts : List ℕ) (last : ℕ) → lowest amounts last ≤ last
unfolding lowest
lowest-le_last [] last = (min_longs_lem last []).0
lowest-le_last (first ∷ rest) last =
    let below : ℕ → Type 0 = λ x. min_longs first (rest ++ last ∷ []) ≤ x in
    All-last below rest last (min_longs_lem first (rest ++ last ∷ [])).1

-- The packet sizes behind a volley: the path's maximum and the largest packet are at most the largest
-- packet before, something can be sent, and the path's maximum is the size to be tried.
pub record Limited (c d : CongestionController) : Type 0 where
  pub lower : maximum_packet_amount d ≤ maximum_packet_amount c
  pub usable : 0 < maximum_packet_amount d
  pub path : d.path_maximum ≤ maximum_packet_amount c
  pub tried : d.test_maximum_packet_amount ≡ d.path_maximum

set_maximum-Limited :
    (m : ℕ) (s : CongestionController)
    → m ≤ maximum_packet_amount s
    → ¬ (maximum_packet_amount (set_maximum_amounts m s) ≡ 0)
    → Limited s (set_maximum_amounts m s)
unfolding maximum_packet_amount set_maximum_amounts
set_maximum-Limited m s le h = record {
  lower = omega (arith, le, min_long-le m s.fixed_packet_amount);
  usable = omega (arith, h);
  path = le;
  tried = refl;
}

module _ ⦃api : LongApi⦄ ⦃oer : OerApi⦄ ⦃number : NumberApi⦄ where
  pub set_maximum-eq-ok :
      (tests : List (ℕ × TestResult)) (c d : Connection)
      → set_maximum tests c ≡ ok d
      → (congestion : CongestionController) × (d ≡ record c { congestion = congestion })
        × Limited c.congestion congestion
  unfolding set_maximum
  set_maximum-eq-ok tests c d e =
      let m = lowest (max_packet_amounts tests) (maximum_packet_amount c.congestion) in
      let s = set_maximum_amounts m c.congestion in
      elim (Bool-cases (maximum_packet_amount s == 0)) [
        | inl blocked ↦ absurd (cc)
        | inr open_path ↦
            let same : record c { congestion = s } ≡ d = cc in
            (
              s,
              sym same,
              set_maximum-Limited m c.congestion
                  (lowest-le_last (max_packet_amounts tests) (maximum_packet_amount c.congestion))
                  (==→ne _ _ open_path),
            )
      ]

  pub length-max_packet_amounts :
      (tests : List (ℕ × TestResult)) → length (max_packet_amounts tests) ≡ length tests
  unfolding max_packet_amounts
  length-max_packet_amounts [] = refl
  length-max_packet_amounts ((amount, result) ∷ rest) = ap suc (length-max_packet_amounts rest)

length-unique :
    (seen amounts : List ℕ) → length (unique seen amounts) ≤ length seen + length amounts
unfolding unique
length-unique seen [] = omega arith
length-unique seen (amount ∷ rest) = elim (Bool-cases (member amount seen)) [
  | inl old ↦ rw old (omega (arith, length-unique seen rest))
  | inr new ↦
      rw new
        (omega (arith, length-unique (seen ++ amount ∷ []) rest, length-append seen (amount ∷ [])))
]

length-known : (amounts : List ℕ) → length (known amounts) ≤ length amounts
unfolding known
length-known [] = omega arith
length-known (amount ∷ rest) = ground (arith, length-known rest)

-- The next volley is larger by one packet at most.
module _ ⦃api : LongApi⦄ ⦃number : NumberApi⦄ where
  pub length-next_amounts :
      (errors : List (ℕ × List ℕ)) (maxima amounts : List ℕ)
      → next_amounts errors maxima ≡ ok amounts
      → length amounts ≤ length maxima + 1
  unfolding next_amounts
  length-next_amounts errors maxima amounts e =
      let candidates = unique [] (known maxima) in
      let small = length-unique [] (known maxima) in
      elim (Bool-cases (some_temporary errors)) [
        | inl temporary ↦
            let (third, first, rest) =
              >>=-eq-ok (api.divide (smallest_amount max_unsigned errors) 3) _
                (rw (temporary, next_amounts) at e) in
            omega (
              arith,
              ap length (ok-inj rest),
              length-append candidates
                  (api.subtract (smallest_amount max_unsigned errors) third ∷ []),
              small,
              length-known maxima,
            )
        | inr final ↦
            omega (
              arith,
              ap length (ok-inj (rw (final, next_amounts) at e)),
              small,
              length-known maxima,
            )
      ]
