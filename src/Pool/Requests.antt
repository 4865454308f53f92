-- ===== src/Pool/Requests.antt =====
-- `getConnection` of src/pool.ts: which connection a request gets. The code between two awaits is a
-- step; connections are numbered in the order in which their opening starts. The objects of the source
-- have text keys; what they inherit from Object.prototype is left out.
pub mod Serving
pub mod Keeping
use ilp_protocol_stream.Base.{ℕ, ◌+◌, ◌≡◌, if◌then◌else◌, List, [], ◌∷◌, Option, none, some, false}
use ilp_protocol_stream.Receipt.{equals}

abbrev pub Key : Type 0
Key = List ℕ

module _ {A : Type 0} where
  -- `o[k]`
  unfoldable pub find : Key → List (Key × A) → Option A
  find k [] = none
  find k ((j, a) ∷ rest) = if equals j k then some a else find k rest

  -- `o[k] = a`
  unfoldable pub put : Key → A → List (Key × A) → List (Key × A)
  put k a [] = (k, a) ∷ []
  put k a ((j, b) ∷ rest) = if equals j k then (k, a) ∷ rest else (j, b) ∷ put k a rest

  -- `delete o[k]`
  pub erase : Key → List (Key × A) → List (Key × A)
  erase k [] = []
  erase k ((j, b) ∷ rest) =
      let others = erase k rest in if equals j k then others else (j, b) ∷ others

pub record Pool : Type 0 where
  pub active_connections : List (Key × ℕ)
  pub pending_connections : List (Key × ℕ)
  pub next_connection : ℕ

unfoldable pub new_pool : Pool
new_pool = record { active_connections = []; pending_connections = []; next_connection = 0 }

-- A request where no connection is active: the pending one, or the start of a new one.
unfoldable pub request_pending : Key → Pool → ℕ × Pool
unfolding find put
request_pending id p = elim (find id p.pending_connections) [
  | some n ↦ (n, p)
  | none ↦ (
    p.next_connection,
    record p {
      pending_connections = put id p.next_connection p.pending_connections;
      next_connection = p.next_connection + 1;
    },
  )
]

-- The connection that a request gets, and the pool behind it.
unfoldable pub request : Key → Pool → ℕ × Pool
unfolding request_pending
request id p = elim (find id p.active_connections) [ some n ↦ (n, p) | none ↦ request_pending id p ]

-- Behind `await connectionPromise`
unfoldable pub put_active : Key → ℕ → Pool → Pool
unfolding put erase
put_active id n p = record p {
  active_connections = put id n p.active_connections;
  pending_connections = erase id p.pending_connections;
}

-- `connectionPromise.catch`
unfoldable pub drop_pending : Key → Pool → Pool
unfolding erase
drop_pending id p = record p { pending_connections = erase id p.pending_connections }

-- `conn.once('close')`
unfoldable pub drop_connection : Key → Pool → Pool
unfolding erase
drop_connection id p = record p {
  active_connections = erase id p.active_connections;
  pending_connections = erase id p.pending_connections;
}

-- The steps of a pool. A connection is opened or fails while it is pending, and closes while it is
-- active.
pub data Step : Pool → Pool → Type 0 where
  requesting : (id : Key) (p : Pool) → Step p (request id p).1
  opening :
      (id : Key) (n : ℕ) (p : Pool)
      → find id p.pending_connections ≡ some n
      → Step p (put_active id n p)
  failing :
      (id : Key) (n : ℕ) (p : Pool)
      → find id p.pending_connections ≡ some n
      → Step p (drop_pending id p)
  closing :
      (id : Key) (n : ℕ) (p : Pool)
      → find id p.active_connections ≡ some n
      → Step p (drop_connection id p)

pub data Reachable : Pool → Type 0 where
  starting : Reachable new_pool
  further : (p q : Pool) → Reachable p → Step p q → Reachable q

-- The steps that neither fail nor close the connection of a key.
pub data Keeps (id : Key) : Pool → Pool → Type 0 where
  unchanged : (p : Pool) → Keeps id p p
  requested : (other : Key) (p q : Pool) → Keeps id (request other p).1 q → Keeps id p q
  was_opened :
      (other : Key) (n : ℕ) (p q : Pool)
      → find other p.pending_connections ≡ some n
      → Keeps id (put_active other n p) q
      → Keeps id p q
  was_failed :
      (other : Key) (n : ℕ) (p q : Pool)
      → equals other id ≡ false
      → find other p.pending_connections ≡ some n
      → Keeps id (drop_pending other p) q
      → Keeps id p q
  was_closed :
      (other : Key) (n : ℕ) (p q : Pool)
      → equals other id ≡ false
      → find other p.active_connections ≡ some n
      → Keeps id (drop_connection other p) q
      → Keeps id p q
