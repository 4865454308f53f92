-- ===== src/Pool/Requests/Serving.antt =====
-- Finding a key after each change of an object, the branches of a request, and that no key has an
-- active and a pending connection at once.
use ilp_protocol_stream.Base.{
  ℕ, ◌+◌, ◌≡◌, refl, sym, ap, ◌∙◌, subst, ◌⊎◌, inl, inr, Bool-cases, Option-cases, List, [], ◌∷◌,
  none, some, true, false,
}
use ilp_protocol_stream.Receipt.{equals}
use ilp_protocol_stream.Receipt.Verification.{equals-eq}
use ilp_protocol_stream.Pool.Requests.{
  Key, find, put, erase, Pool, new_pool, request, request_pending, put_active, drop_pending,
  drop_connection, Step, requesting, opening, failing, closing, Reachable, starting, further,
}

-- Texts that agree are the same one for every other text.
equals_left : (i k j : Key) → equals i k ≡ true → equals k j ≡ false → equals i j ≡ false
equals_left i k j h g = ap (λ x. equals x j) (equals-eq i k h) ∙ g

equals_right : (i k j : Key) → equals i k ≡ false → equals k j ≡ true → equals i j ≡ false
equals_right i k j h g = ap (λ x. equals i x) (sym (equals-eq k j g)) ∙ h

module _ {A : Type 0} where
  pub find-put_same :
      (k j : Key) (a : A) (o : List (Key × A)) → equals k j ≡ true → find j (put k a o) ≡ some a
  unfolding find put
  find-put_same k j a [] g = rw g
  find-put_same k j a ((i, b) ∷ rest) g = elim (Bool-cases (equals i k)) [
    | inl h ↦ rw (h, g)
    | inr h ↦ rw (h, equals_right i k j h g) (find-put_same k j a rest g)
  ]

  pub find-put_other :
      (k j : Key) (a : A) (o : List (Key × A)) → equals k j ≡ false → find j (put k a o) ≡ find j o
  unfolding find put
  find-put_other k j a [] g = rw g
  find-put_other k j a ((i, b) ∷ rest) g = elim (Bool-cases (equals i k)) [
    | inl h ↦ rw (h, g, equals_left i k j h g)
    | inr h ↦ elim (Bool-cases (equals i j)) [
      | inl q ↦ rw (h, q)
      | inr q ↦ rw (h, q) (find-put_other k j a rest g)
    ]
  ]

  pub find-erase_same :
      (k j : Key) (o : List (Key × A)) → equals k j ≡ true → find j (erase k o) ≡ none
  unfolding find erase
  find-erase_same k j [] g = refl
  find-erase_same k j ((i, b) ∷ rest) g = elim (Bool-cases (equals i k)) [
    | inl h ↦ rw h (find-erase_same k j rest g)
    | inr h ↦ rw (h, equals_right i k j h g) (find-erase_same k j rest g)
  ]

  pub find-erase_other :
      (k j : Key) (o : List (Key × A)) → equals k j ≡ false → find j (erase k o) ≡ find j o
  unfolding find erase
  find-erase_other k j [] g = refl
  find-erase_other k j ((i, b) ∷ rest) g = elim (Bool-cases (equals i k)) [
    | inl h ↦ rw (h, equals_left i k j h g) (find-erase_other k j rest g)
    | inr h ↦ elim (Bool-cases (equals i j)) [
      | inl q ↦ rw (h, q)
      | inr q ↦ rw (h, q) (find-erase_other k j rest g)
    ]
  ]

  find-erase-none : (k j : Key) (o : List (Key × A)) → find j o ≡ none → find j (erase k o) ≡ none
  find-erase-none k j o e = elim (Bool-cases (equals k j)) [
    | inl g ↦ find-erase_same k j o g
    | inr g ↦ find-erase_other k j o g ∙ e
  ]

-- The branches of a request.
unfoldable pub started : Key → Pool → Pool
started id p = record p {
  pending_connections = put id p.next_connection p.pending_connections;
  next_connection = p.next_connection + 1;
}

pub request_active :
    (id : Key) (n : ℕ) (p : Pool) → find id p.active_connections ≡ some n → request id p ≡ (n, p)
unfolding request
request_active id n p e = rw (e, request)

pub request_joins :
    (id : Key) (n : ℕ) (p : Pool)
    → find id p.active_connections ≡ none
    → find id p.pending_connections ≡ some n
    → request id p ≡ (n, p)
unfolding request request_pending
request_joins id n p e f = rw (e, request, f, request_pending)

pub request_starts :
    (id : Key) (p : Pool)
    → find id p.active_connections ≡ none
    → find id p.pending_connections ≡ none
    → request id p ≡ (p.next_connection, started id p)
unfolding request request_pending started
request_starts id p e f = rw (e, request, f, request_pending)

-- The ways that a request can go, for a statement about its result.
pub request-cases :
    (P : ℕ × Pool → Type 0) (id : Key) (p : Pool)
    → ((n : ℕ) → find id p.active_connections ≡ some n → P (n, p))
    → ((n : ℕ)
        → find id p.active_connections ≡ none
        → find id p.pending_connections ≡ some n
        → P (n, p))
    → (find id p.active_connections ≡ none
        → find id p.pending_connections ≡ none
        → P (p.next_connection, started id p))
    → P (request id p)
request-cases P id p active joins starts = elim (Option-cases (find id p.active_connections)) [
  | inr (n, e) ↦ subst P (sym (request_active id n p e)) (active n e)
  | inl e ↦ elim (Option-cases (find id p.pending_connections)) [
    | inr (n, f) ↦ subst P (sym (request_joins id n p e f)) (joins n e f)
    | inl f ↦ subst P (sym (request_starts id p e f)) (starts e f)
  ]
]

-- No key has an active and a pending connection at once.
unfoldable pub IsDisjoint : Pool → Type 0
IsDisjoint p =
    (id : Key) → (find id p.active_connections ≡ none) ⊎ (find id p.pending_connections ≡ none)

pub request-IsDisjoint : (other : Key) (p : Pool) → IsDisjoint p → IsDisjoint (request other p).1
unfolding IsDisjoint started
request-IsDisjoint other p d =
    request-cases (λ r. IsDisjoint r.1) other p (λ n e. d) (λ n e f. d)
      (λ e f id. elim (Bool-cases (equals other id)) [
        | inl g ↦ inl (ap (λ k. find k p.active_connections) (sym (equals-eq other id g)) ∙ e)
        | inr g ↦ elim (d id) [
          | inl a ↦ inl a
          | inr b ↦ inr (find-put_other other id p.next_connection p.pending_connections g ∙ b)
        ]
      ])

pub put_active-IsDisjoint :
    (other : Key) (m : ℕ) (p : Pool) → IsDisjoint p → IsDisjoint (put_active other m p)
unfolding IsDisjoint put_active
put_active-IsDisjoint other m p d id = elim (Bool-cases (equals other id)) [
  | inl g ↦ inr (find-erase_same other id p.pending_connections g)
  | inr g ↦ elim (d id) [
    | inl a ↦ inl (find-put_other other id m p.active_connections g ∙ a)
    | inr b ↦ inr (find-erase-none other id p.pending_connections b)
  ]
]

pub drop_pending-IsDisjoint :
    (other : Key) (p : Pool) → IsDisjoint p → IsDisjoint (drop_pending other p)
unfolding IsDisjoint drop_pending
drop_pending-IsDisjoint other p d id = elim (d id) [
  | inl a ↦ inl a
  | inr b ↦ inr (find-erase-none other id p.pending_connections b)
]

pub drop_connection-IsDisjoint :
    (other : Key) (p : Pool) → IsDisjoint p → IsDisjoint (drop_connection other p)
unfolding IsDisjoint drop_connection
drop_connection-IsDisjoint other p d id = elim (d id) [
  | inl a ↦ inl (find-erase-none other id p.active_connections a)
  | inr b ↦ inr (find-erase-none other id p.pending_connections b)
]

Step-IsDisjoint : {p q : Pool} → Step p q → IsDisjoint p → IsDisjoint q
Step-IsDisjoint (requesting other p) d = request-IsDisjoint other p d
Step-IsDisjoint (opening other m p e) d = put_active-IsDisjoint other m p d
Step-IsDisjoint (failing other m p e) d = drop_pending-IsDisjoint other p d
Step-IsDisjoint (closing other m p e) d = drop_connection-IsDisjoint other p d

pub Reachable-IsDisjoint : {p : Pool} → Reachable p → IsDisjoint p
unfolding IsDisjoint find new_pool
Reachable-IsDisjoint starting id = inl refl
Reachable-IsDisjoint (further p q reach step) id =
    Step-IsDisjoint step (Reachable-IsDisjoint reach) id
