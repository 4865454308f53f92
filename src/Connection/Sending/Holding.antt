-- ===== src/Connection/Sending/Holding.antt =====
-- The holds of a packet, stream by stream: what settling each of them once has done to the streams.
use ilp_protocol_stream.Base.{
  ℕ, ◌+◌, ◌≤◌, ◌≡◌, refl, ap, ◌∙◌, sym, subst, inl, inr, ◌==◌, ==→eq, if◌then◌else◌, Bool-cases,
  List, [], ◌∷◌, Option, none, some, Bool, true, false, lookup, arith,
}
use ilp_protocol_stream.Long.Interface.{LongApi}
use ilp_protocol_stream.Stream.{Stream}
use ilp_protocol_stream.Stream.Money.{get_amount_available_to_send, hold_outgoing}
use ilp_protocol_stream.Connection.Updating.{map_option}
use ilp_protocol_stream.Connection.Shares.Distribution.{total}
use ilp_protocol_stream.Connection.Sending.Amounts.{
  Ready, Held, stops, passes, takes, keys, settled,
}

-- The keys of a map are different.
abbrev pub Distinct : List (ℕ × Stream) → Type 0
Distinct [] = Unit {0}
Distinct ((k, s) ∷ rest) = (lookup k rest ≡ none) × Distinct rest

-- The moves of stream `k`.
abbrev pub moves_of : ℕ → List (ℕ × ℕ) → List (ℕ × ℕ)
moves_of k [] = []
moves_of k ((i, a) ∷ rest) = if i == k then (i, a) ∷ moves_of k rest else moves_of k rest

plus_zero : (a : ℕ) → a ≡ a + 0
plus_zero a = omega arith

if_true : {A : Type 0} (b : Bool) (x y : A) → b ≡ true → (if b then x else y) ≡ x
if_true b x y e = rw e

if_false : {A : Type 0} (b : Bool) (x y : A) → b ≡ false → (if b then x else y) ≡ y
if_false b x y e = rw e

pub map_option-ext :
    (f g : Stream → Stream)
    → ((s : Stream) → f s ≡ g s)
    → (o : Option Stream) → map_option f o ≡ map_option g o
map_option-ext f g e none = refl
map_option-ext f g e (some s) = ap some (e s)

module _ ⦃api : LongApi⦄ where
  -- A stream that is not there is not held from.
  absent :
      {cap sequence : ℕ} {before after : List (ℕ × Stream)} {moves : List (ℕ × ℕ)} (k : ℕ)
      (f : Stream → Stream)
      → Held cap sequence before after moves
      → lookup k before ≡ none
      → (moves_of k moves ≡ []) × ((s : Stream) → settled k f (keys moves) s ≡ s)
  unfolding lookup
  absent k f (stops streams) e = (refl, λ s. refl)
  absent k f (passes i s h) e = elim (Bool-cases (i == k)) [
    | inl same ↦ cc
    | inr other ↦ absent k f h (ground (arith, e, other))
  ]
  absent k f (takes {moves = moves} i s a r available h) e = elim (Bool-cases (i == k)) [
    | inl same ↦ absurd (cc)
    | inr other ↦
        let (nothing, idle) = absent k f h (ground (arith, e, other)) in
        (
          rw other nothing,
          λ t. ap (settled k f (keys moves)) (if_false (i == k) (f t) t other) ∙ idle t,
        )
  ]

  -- Settling each stream that is held from, once, where `f` settles one hold and `g` is what it comes
  -- to for the amount.
  pub settled_streams :
      {cap sequence : ℕ} {before after : List (ℕ × Stream)} {moves : List (ℕ × ℕ)} (k : ℕ)
      (f : Stream → Stream) (g : ℕ → Stream → Stream)
      → ((s : Stream) → g 0 s ≡ s)
      → ((i a : ℕ) (s : Stream)
          → Ready cap sequence i s
          → a ≤ get_amount_available_to_send s
          → f (hold_outgoing s sequence (some a)).0 ≡ g a s)
      → Held cap sequence before after moves
      → Distinct before
      → map_option (settled k f (keys moves)) (lookup k after)
        ≡ map_option (g (total (moves_of k moves))) (lookup k before)
  unfolding lookup
  settled_streams k f g start one (stops streams) distinct =
      map_option-ext (λ s. s) (g 0) (λ s. sym (start s)) (lookup k streams)
  settled_streams k f g start one (passes {before = before} i s h) (new, distinct) =
      elim (Bool-cases (i == k)) [
        | inl same ↦
            let (nothing, idle) =
              absent k f h (subst (λ j. lookup j before ≡ none) (==→eq i k same) new) in
            rw (same, nothing) (ap some (idle s ∙ sym (start s)))
        | inr other ↦ rw other (settled_streams k f g start one h distinct)
      ]
  settled_streams k f g start one
        (takes {before = before} {after = after} {moves = moves} i s a r available h)
        (new, distinct) =
      elim (Bool-cases (i == k)) [
        | inl same ↦
            let (nothing, idle) =
              absent k f h (subst (λ j. lookup j before ≡ none) (==→eq i k same) new) in
            rw (same, nothing)
              (ap some (
                idle _
                ∙ if_true (i == k) _ _ same
                ∙ one i a s r available
                ∙ ap (λ v. g v s) (plus_zero a)))
        | inr other ↦
            let unpicked =
              map_option-ext _ (settled k f (keys moves))
                (λ t. ap (settled k f (keys moves)) (if_false (i == k) (f t) t other))
                (lookup k after) in
            rw other (unpicked ∙ settled_streams k f g start one h distinct)
      ]
