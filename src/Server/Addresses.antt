-- ===== src/Server/Addresses.antt =====
-- The identifier in an address is the text of its token, and reads as the token.
use ilp_protocol_stream.Base.{
  ℕ, zero, suc, ◌==◌, ◌<◌, ◌≡◌, refl, sym, ap, ◌∙◌, subst, inl, inr, Bool-cases, eq→==, ne→==,
  ==→eq, List, [], ◌∷◌, ◌++◌, map, All, length, drop-append_length, replicate, true, ok, arith,
}
use mathlib.Core.List.{append_assoc, append-nil}
use ilp_protocol_stream.Oer.{Bytes}
use ilp_protocol_stream.Server.{
  Base64Api, url_character, strip_padding, base64url, address, starts_with, without_first,
  before_dot, not_empty, connection_id,
}

NoDot : List ℕ → Type 0
NoDot text = All (λ c. ¬ (c ≡ 46)) text

stripped :
    (c k : ℕ) (text more : List ℕ)
    → strip_padding text ≡ more
    → text ≡ more ++ replicate k 61
    → (j : ℕ) × (c ∷ text ≡ strip_padding (c ∷ text) ++ replicate j 61)
unfolding strip_padding
stripped c k text [] s e = elim (Bool-cases (c == 61)) [
  | inl h ↦ (suc k, rw (s, h, e, ==→eq c 61 h))
  | inr h ↦ (k, rw (s, h, e))
]
stripped c k text (d ∷ more) s e = (k, rw (s) (ap (λ t. c ∷ t) e))

strip_padding-replicate : (text : List ℕ) → (k : ℕ) × (text ≡ strip_padding text ++ replicate k 61)
unfolding strip_padding
strip_padding-replicate [] = (0, refl)
strip_padding-replicate (c ∷ text) =
    let (k, e) = strip_padding-replicate text in stripped c k text (strip_padding text) refl e

NoDot-prefix : (xs ys : List ℕ) → NoDot (xs ++ ys) → NoDot xs
unfolding NoDot
NoDot-prefix [] ys h = tt
NoDot-prefix (x ∷ xs) ys (first, others) = (first, NoDot-prefix xs ys others)

url_character-no_dot : (c : ℕ) → ¬ (c ≡ 46) → ¬ (url_character c ≡ 46)
url_character-no_dot c h = ground arith

NoDot-map : (text : List ℕ) → NoDot text → NoDot (map url_character text)
unfolding NoDot
NoDot-map [] h = tt
NoDot-map (c ∷ text) (first, others) = (url_character-no_dot c first, NoDot-map text others)

before_dot-NoDot : (text : List ℕ) → NoDot text → before_dot text ≡ text
unfolding NoDot before_dot
before_dot-NoDot [] h = refl
before_dot-NoDot (c ∷ text) (first, others) =
    rw (ne→== c 46 first) (ap (λ t. c ∷ t) (before_dot-NoDot text others))

starts_with-append : (found text : List ℕ) → starts_with found (found ++ text) ≡ true
unfolding starts_with
starts_with-append [] text = refl
starts_with-append (c ∷ found) text = rw (eq→== c c refl) (starts_with-append found text)

without_first-append : (found text : List ℕ) → without_first found (found ++ text) ≡ text
unfolding without_first starts_with
without_first-append [] [] = refl
without_first-append [] (c ∷ text) = refl
without_first-append (c ∷ found) text =
    rw (eq→== c c refl, starts_with-append found text) (drop-append_length found text)

not_empty-eq : (text : List ℕ) → ¬ (text ≡ []) → not_empty text ≡ ok text
not_empty-eq [] h = absurd (h refl)
not_empty-eq (c ∷ text) h = refl

module _ ⦃base64 : Base64Api⦄ where
  from_base64-padded :
      (k : ℕ) (text : List ℕ)
      → base64.from_base64 (text ++ replicate k 61) ≡ base64.from_base64 text
  from_base64-padded zero text = ap base64.from_base64 (append-nil text)
  from_base64-padded (suc k) text =
      ap base64.from_base64 (sym (append_assoc text (61 ∷ []) (replicate k 61)))
      ∙ from_base64-padded k (text ++ 61 ∷ [])
      ∙ base64.from_padded text

  pub from_base64-base64url : (bytes : Bytes) → base64.from_base64 (base64url bytes) ≡ bytes
  unfolding base64url
  from_base64-base64url bytes =
      let text = base64.to_base64 bytes in
      let (k, e) = strip_padding-replicate text in
      base64.from_url (strip_padding text)
      ∙ sym (from_base64-padded k (strip_padding text))
      ∙ sym (ap base64.from_base64 e)
      ∙ base64.from-to bytes

  base64url-NoDot : (bytes : Bytes) → NoDot (base64url bytes)
  unfolding base64url NoDot
  base64url-NoDot bytes =
      let text = base64.to_base64 bytes in
      let (k, e) = strip_padding-replicate text in
      NoDot-map (strip_padding text) (
        NoDot-prefix (strip_padding text) (replicate k 61) (subst NoDot e (base64.to_no_dot bytes)))

  base64url-not_empty : (bytes : Bytes) → 0 < length bytes → ¬ (base64url bytes ≡ [])
  base64url-not_empty bytes h e =
      let none : bytes ≡ [] =
        sym (from_base64-base64url bytes) ∙ ap base64.from_base64 e ∙ base64.from_nothing in
      absurd (omega (arith, h, ap length none))

  pub connection_id-address :
      (account : List ℕ) (token : Bytes)
      → 0 < length token
      → connection_id account (address account (base64url token)) ≡ ok (base64url token)
  unfolding connection_id
  connection_id-address account token h =
      rw
        (
          without_first-append (account ++ 46 ∷ []) (base64url token),
          before_dot-NoDot (base64url token) (base64url-NoDot token),
        )
        (not_empty-eq (base64url token) (base64url-not_empty token h))
