-- ===== src/Pool/Requests/Keeping.antt =====
-- All requests for one key get the same connection, until that fails or closes.
use ilp_protocol_stream.Base.{ℕ, ◌≡◌, sym, ap, ◌∙◌, ◌⊎◌, inl, inr, Bool-cases, none, some, false}
use ilp_protocol_stream.Receipt.{equals}
use ilp_protocol_stream.Receipt.Verification.{equals_self, equals-eq}
use ilp_protocol_stream.Pool.Requests.{
  Key, find, Pool, request, put_active, drop_pending, drop_connection, Reachable, Keeps, unchanged,
  requested, was_opened, was_failed, was_closed,
}
use ilp_protocol_stream.Pool.Requests.Serving.{
  find-put_same, find-put_other, find-erase_other, request_active, request_joins, request-cases,
  started, IsDisjoint, request-IsDisjoint, put_active-IsDisjoint, drop_pending-IsDisjoint,
  drop_connection-IsDisjoint, Reachable-IsDisjoint,
}

-- The connection that requests for a key get, active or pending.
Serves : Key → ℕ → Pool → Type 0
Serves id n p =
    (find id p.active_connections ≡ some n)
    ⊎ ((find id p.active_connections ≡ none) × (find id p.pending_connections ≡ some n))

request-Serves : (id : Key) (n : ℕ) (p : Pool) → Serves id n p → (request id p).0 ≡ n
unfolding Serves
request-Serves id n p (inl e) = ap (λ r. r.0) (request_active id n p e)
request-Serves id n p (inr (e, f)) = ap (λ r. r.0) (request_joins id n p e f)

Serves-request : (id : Key) (p : Pool) → Serves id (request id p).0 (request id p).1
unfolding Serves started
Serves-request id p =
    request-cases (λ r. Serves id r.0 r.1) id p (λ n e. inl e) (λ n e f. inr (e, f))
      (λ e f. inr (e, find-put_same id id p.next_connection p.pending_connections (equals_self id)))

other_request-Serves :
    (id other : Key) (n : ℕ) (p : Pool) → Serves id n p → Serves id n (request other p).1
unfolding Serves started
other_request-Serves id other n p s =
    request-cases (λ r. Serves id n r.1) other p (λ m e. s) (λ m e f. s)
      (λ e f. elim s [
        | inl a ↦ inl a
        | inr (a, b) ↦ elim (Bool-cases (equals other id)) [
          | inl g ↦
              let here = ap (λ k. find k p.pending_connections) (equals-eq other id g) in
              let both : none ≡ some n = sym f ∙ here ∙ b in cc
          | inr g ↦ inr (a, find-put_other other id p.next_connection p.pending_connections g ∙ b)
        ]
      ])

put_active-Serves :
    (id other : Key) (n m : ℕ) (p : Pool)
    → IsDisjoint p
    → find other p.pending_connections ≡ some m
    → Serves id n p
    → Serves id n (put_active other m p)
unfolding Serves put_active IsDisjoint
put_active-Serves id other n m p d e s = elim (Bool-cases (equals other id)) [
  | inl g ↦
      let here = ap (λ k. find k p.pending_connections) (sym (equals-eq other id g)) in
      let mine = here ∙ e in
      elim s [
        | inl a ↦ elim (d id) [ inl b ↦ cc | inr b ↦ cc ]
        | inr (a, b) ↦
            let same_number : m ≡ n = cc in
            inl (find-put_same other id m p.active_connections g ∙ ap some same_number)
      ]
  | inr g ↦ elim s [
    | inl a ↦ inl (find-put_other other id m p.active_connections g ∙ a)
    | inr (a, b) ↦ inr (
      find-put_other other id m p.active_connections g ∙ a,
      find-erase_other other id p.pending_connections g ∙ b,
    )
  ]
]

drop_pending-Serves :
    (id other : Key) (n : ℕ) (p : Pool)
    → equals other id ≡ false
    → Serves id n p
    → Serves id n (drop_pending other p)
unfolding Serves drop_pending
drop_pending-Serves id other n p g (inl a) = inl a
drop_pending-Serves id other n p g (inr (a, b)) =
    inr (a, find-erase_other other id p.pending_connections g ∙ b)

drop_connection-Serves :
    (id other : Key) (n : ℕ) (p : Pool)
    → equals other id ≡ false
    → Serves id n p
    → Serves id n (drop_connection other p)
unfolding Serves drop_connection
drop_connection-Serves id other n p g (inl a) =
    inl (find-erase_other other id p.active_connections g ∙ a)
drop_connection-Serves id other n p g (inr (a, b)) = inr (
  find-erase_other other id p.active_connections g ∙ a,
  find-erase_other other id p.pending_connections g ∙ b,
)

Keeps-Serves :
    {id : Key} {p q : Pool} (n : ℕ) → Keeps id p q → IsDisjoint p → Serves id n p → Serves id n q
Keeps-Serves n (unchanged p) d s = s
Keeps-Serves {id} n (requested other p q rest) d s =
    Keeps-Serves n rest (request-IsDisjoint other p d) (other_request-Serves id other n p s)
Keeps-Serves {id} n (was_opened other m p q e rest) d s =
    Keeps-Serves n rest (put_active-IsDisjoint other m p d) (put_active-Serves id other n m p d e s)
Keeps-Serves {id} n (was_failed other m p q g e rest) d s =
    Keeps-Serves n rest (drop_pending-IsDisjoint other p d) (drop_pending-Serves id other n p g s)
Keeps-Serves {id} n (was_closed other m p q g e rest) d s =
    Keeps-Serves n rest (drop_connection-IsDisjoint other p d)
      (drop_connection-Serves id other n p g s)

-- In a pool that can come about, a request for a key and every later one get the same connection,
-- whatever is requested, opened, failed and closed between them, as long as the connection of that key
-- does not fail or close: no second one is opened for it, also while the first is pending.
pub request-Keeps :
    {p q : Pool} (id : Key)
    → Reachable p
    → Keeps id (request id p).1 q
    → (request id q).0 ≡ (request id p).0
request-Keeps {p} {q} id reach keeps =
    let n = (request id p).0 in
    request-Serves id n q (
      Keeps-Serves n keeps (request-IsDisjoint id p (Reachable-IsDisjoint reach))
        (Serves-request id p))
