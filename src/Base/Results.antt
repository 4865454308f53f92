-- ===== src/Base/Results.antt =====
-- Exceptions as values: a call that can throw returns a `Result`.
use mathlib.Core.Path.{◌≡◌, refl}
use mathlib.Core.Bool.{Bool, true, false}

-- What the modelled code throws. `out_of_fuel` is no error of the source: it marks a loop of the
-- model that used up its rounds.
pub data Error : Type 0 where
  division_by_zero out_of_fuel : Error
  stream_closed send_max_below_total_sent receive_max_below_total_received : Error
  receive_max_decreased not_finite out_of_range : Error
  signed_rational zero_denominator above_one : Error
  receipt_nonce_length receipt_secret_length receipt_malformed receipt_version receipt_hmac
        receipt_incomplete :
      Error
  out_of_bytes unsupported_version not_decrypted : Error
  no_stream_left wrong_parity too_many_streams : Error
  total_overflow too_many_packets path_blocked unexpected_reject : Error
  no_exchange_rate no_such_stream : Error
  wrong_fulfillment wrong_sequence wrong_packet_type invalid_response : Error
  server_not_connected unreachable : Error
  no_destination precision_not_reached terminated : Error

pub data Result {ℓ} (A : Type ℓ) : Type ℓ where
  ok : A → Result A
  throw : Error → Result A

pub ok-inj {ℓ} : {A : Type ℓ} {a b : A} → ok a ≡ ok b → a ≡ b
ok-inj e = cc

-- A test that throws where it fails.
abbrev pub guard : Bool → Error → Result (Unit {0})
guard holds e = elim holds [ false ↦ throw e | true ↦ ok tt ]

module _ {ℓ κ} {A : Type ℓ} {B : Type κ} where
  infixl 5 ◌>>=◌
  -- What is thrown first is what the whole throws.
  abbrev pub ◌>>=◌ : Result A → (A → Result B) → Result B
  throw e >>= next = throw e
  ok value >>= next = next value

  -- Where the whole returned, the first call did, and the rest did from its value.
  pub >>=-eq-ok :
      {result : B} (first : Result A) (next : A → Result B)
      → (first >>= next) ≡ ok result
      → (value : A) × (first ≡ ok value) × (next value ≡ ok result)
  >>=-eq-ok (throw e) next returned = cc
  >>=-eq-ok (ok value) next returned = (value, refl, returned)

infixl 5 ◌>>◌
abbrev pub ◌>>◌ {ℓ} : {B : Type ℓ} → Result (Unit {0}) → Result B → Result B
checked >> next = elim checked [ throw e ↦ throw e | ok _ ↦ next ]
