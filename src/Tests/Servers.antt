-- ===== src/Tests/Servers.antt =====
-- Examples of addresses and of the server's pool, on a stand-in for base64 that writes a byte as a
-- character above 100 and skips all others when it reads.
use ilp_protocol_stream.Base.{
  ℕ, ◌+◌, ◌-◌, ltb, if◌then◌else◌, ◌≡◌, refl, ap, ◌∙◌, List, [], ◌∷◌, ◌++◌, map, All, replicate,
  true, false, some, ok, arith,
}
use ilp_protocol_stream.Rational.{greater_than_one}
use ilp_protocol_stream.Receipt.{equals}
use ilp_protocol_stream.Crypto.{encrypt}
use ilp_protocol_stream.Crypto.Keys.{generate_psk_encryption_key}
use ilp_protocol_stream.Server.{
  Base64Api, url_character, AddressOptions, Server, Generated, generate_address_and_secret,
  connection_id,
}
use ilp_protocol_stream.Pool.{open_connection}
use ilp_protocol_stream.Pool.Opening.{
  IsComplete, opened_for, open_connection-generate_address_and_secret,
}
use ilp_protocol_stream.Pool.Requests.{
  Key, Pool, find, new_pool, request, request_pending, put_active, put, starting, unchanged,
  requested, was_opened,
}
use ilp_protocol_stream.Pool.Requests.Keeping.{request-Keeps}
use ilp_protocol_stream.Tests.{long, oer, crypto}
use ilp_protocol_stream.Tests.Connections.{options}

read_character : ℕ → List ℕ → List ℕ
read_character c bytes = if ltb c 100 then bytes else (c - 100) ∷ bytes

read_text : List ℕ → List ℕ
unfolding read_character
read_text [] = []
read_text (c ∷ text) = read_character c (read_text text)

write_text : List ℕ → List ℕ
write_text [] = []
write_text (b ∷ bytes) = (b + 100) ∷ write_text bytes

read_character-written : (b : ℕ) (bytes : List ℕ) → read_character (b + 100) bytes ≡ b ∷ bytes
unfolding read_character
read_character-written b bytes = ground arith

read_text-write_text : (bytes : List ℕ) → read_text (write_text bytes) ≡ bytes
unfolding read_text write_text
read_text-write_text [] = refl
read_text-write_text (b ∷ bytes) =
    ap (read_character (b + 100)) (read_text-write_text bytes) ∙ read_character-written b bytes

read_text-padded : (text : List ℕ) → read_text (text ++ 61 ∷ []) ≡ read_text text
unfolding read_text read_character
read_text-padded [] = refl
read_text-padded (c ∷ text) = ap (read_character c) (read_text-padded text)

read_character-url :
    (c : ℕ) (bytes : List ℕ) → read_character (url_character c) bytes ≡ read_character c bytes
unfolding read_character
read_character-url c bytes = ground arith

read_text-url : (text : List ℕ) → read_text (map url_character text) ≡ read_text text
unfolding read_text
read_text-url [] = refl
read_text-url (c ∷ text) =
    ap (read_character (url_character c)) (read_text-url text)
    ∙ read_character-url c (read_text text)

write_text-no_dot : (bytes : List ℕ) → All (λ c. ¬ (c ≡ 46)) (write_text bytes)
unfolding write_text
write_text-no_dot [] = tt
write_text-no_dot (b ∷ bytes) = (λ e. absurd (omega (arith, e)), write_text-no_dot bytes)

nothing_read : read_text [] ≡ []
unfolding read_text
nothing_read = refl

small_slippage : greater_than_one (options true).slippage ≡ false
unfolding greater_than_one
small_slippage = refl

instance abbrev base64 : Base64Api
base64 = record {
  to_base64 = write_text;
  from_base64 = read_text;
  from-to = read_text-write_text;
  from_nothing = nothing_read;
  from_padded = read_text-padded;
  from_url = read_text-url;
  to_no_dot = write_text-no_dot;
}

abbrev server : Server
server = record {
  is_connected = true;
  server_account = 103 ∷ 46 ∷ 97 ∷ [];
  server_secret = replicate 32 8;
}

abbrev address_options : AddressOptions
address_options = record {
  connection_tag = 97 ∷ 98 ∷ [];
  receipt_nonce = some (replicate 16 1);
  receipt_secret = some (replicate 32 2);
}

address_options-IsComplete : IsComplete address_options
address_options-IsComplete = record { together = refl; nonce_length = refl; secret_length = refl }

open_connection-generate_address_and_secret_example :
    (g : Generated) × (id : List ℕ) × (generate_address_and_secret
        (replicate 18 6)
        (replicate 12 3)
        address_options
        server
      ≡ ok g)
    × (connection_id (103 ∷ 46 ∷ 97 ∷ []) g.destination_account ≡ ok id)
    × (open_connection
          (options true)
          (replicate 32 8)
          id
          (encrypt (replicate 12 4) (generate_psk_encryption_key g.shared_secret) ((9 ∷ []) ∷ []))
        ≡ ok (opened_for (options true) address_options g.shared_secret))
open_connection-generate_address_and_secret_example =
    open_connection-generate_address_and_secret server (options true) address_options
      (replicate 18 6) (replicate 12 3) (replicate 12 4) (9 ∷ []) refl refl refl refl
      (omega arith, (omega arith, tt)) small_slippage address_options-IsComplete

abbrev here : Key
here = 97 ∷ []

abbrev there : Key
there = 98 ∷ []

-- The pool behind a request for each of two keys, and behind the opening of the first connection.
both_requested : Pool
both_requested = (request there (request here new_pool).1).1

first_pending : find here both_requested.pending_connections ≡ some 0
unfolding both_requested request request_pending find put new_pool equals
first_pending = refl

request-Keeps_example :
    (request here (put_active here 0 both_requested)).0 ≡ (request here new_pool).0
unfolding both_requested
request-Keeps_example = request-Keeps here starting (
    requested there (request here new_pool).1 (put_active here 0 both_requested) (
      was_opened here 0 both_requested (put_active here 0 both_requested) first_pending
        (unchanged (put_active here 0 both_requested))))
