-- ===== src/Crypto/Browser/Caching.antt =====
-- The cache of keys returns what an import without it would, whatever was imported and dropped before.
use ilp_protocol_stream.Base.{
  ℕ, ◌-◌, ltb, ◌==◌, ==→eq, ◌≡◌, refl, sym, ap, ◌∙◌, inl, inr, Bool-cases, Option-cases, List, [],
  ◌∷◌, some, lookup, assign, All, arith,
}
use ilp_protocol_stream.Crypto.Browser.{cache_expiry, CacheEntry, cleanup, import_key}

-- What happens to a cache: imports, and cleanups.
pub data Use : Type 0 where
  imports : (buffer before after : ℕ) → Use
  cleans : (now : ℕ) → Use

module _ {K : Type 0} (import_raw : ℕ → K) where
  pub run_use : Use → List (ℕ × CacheEntry K) → List (ℕ × CacheEntry K)
  run_use (imports buffer before after) cache = (import_key import_raw buffer before after cache).1
  run_use (cleans now) cache = cleanup now cache

  pub run_uses : List Use → List (ℕ × CacheEntry K) → List (ℕ × CacheEntry K)
  unfolding run_use
  run_uses [] cache = cache
  run_uses (u ∷ us) cache = run_uses us (run_use u cache)

  -- Each entry holds the key of its buffer.
  HasKeys : List (ℕ × CacheEntry K) → Type 0
  HasKeys cache = All (λ e. e.1.key_object ≡ import_raw e.0) cache

  lookup-HasKeys :
      (buffer : ℕ) (entry : CacheEntry K) (cache : List (ℕ × CacheEntry K))
      → HasKeys cache
      → lookup buffer cache ≡ some entry
      → entry.key_object ≡ import_raw buffer
  unfolding HasKeys lookup
  lookup-HasKeys buffer entry [] h e = cc
  lookup-HasKeys buffer entry ((k, f) ∷ rest) (first, others) e = elim (Bool-cases (k == buffer)) [
    | inl same ↦
        let found : f ≡ entry = ground (arith, e, same) in
        ap (λ x. x.key_object) (sym found) ∙ first ∙ ap import_raw (==→eq k buffer same)
    | inr other ↦ lookup-HasKeys buffer entry rest others (ground (arith, e, other))
  ]

  assign-HasKeys :
      (buffer : ℕ) (entry : CacheEntry K) (cache : List (ℕ × CacheEntry K))
      → entry.key_object ≡ import_raw buffer
      → HasKeys cache
      → HasKeys (assign buffer entry cache)
  unfolding HasKeys assign
  assign-HasKeys buffer entry [] e h = (e, tt)
  assign-HasKeys buffer entry ((k, f) ∷ rest) e (first, others) = elim (Bool-cases (k == buffer)) [
    | inl same ↦ rw same (e, others)
    | inr other ↦ rw other (first, assign-HasKeys buffer entry rest e others)
  ]

  cleanup-HasKeys :
      (now : ℕ) (cache : List (ℕ × CacheEntry K)) → HasKeys cache → HasKeys (cleanup now cache)
  unfolding HasKeys cleanup
  cleanup-HasKeys now [] h = tt
  cleanup-HasKeys now ((k, f) ∷ rest) (first, others) =
      elim (Bool-cases (ltb cache_expiry (now - f.access_time))) [
        | inl old ↦ rw old (cleanup-HasKeys now rest others)
        | inr used ↦ rw used (first, cleanup-HasKeys now rest others)
      ]

  import_key-HasKeys :
      (buffer before after : ℕ) (cache : List (ℕ × CacheEntry K))
      → HasKeys cache
      → ((import_key import_raw buffer before after cache).0 ≡ import_raw buffer)
        × HasKeys (import_key import_raw buffer before after cache).1
  unfolding import_key
  import_key-HasKeys buffer before after cache h = elim (Option-cases (lookup buffer cache)) [
    | inl e ↦ rw (e, import_key) (refl, assign-HasKeys buffer _ cache refl h)
    | inr (entry, e) ↦
        let key = lookup-HasKeys buffer entry cache h e in
        rw (e, import_key) (key, assign-HasKeys buffer _ cache key h)
  ]

  run_uses-HasKeys :
      (us : List Use) (cache : List (ℕ × CacheEntry K))
      → HasKeys cache
      → HasKeys (run_uses us cache)
  unfolding run_uses
  run_uses-HasKeys [] cache h = h
  run_uses-HasKeys (imports buffer before after ∷ us) cache h =
      run_uses-HasKeys us _ (import_key-HasKeys buffer before after cache h).1
  run_uses-HasKeys (cleans now ∷ us) cache h = run_uses-HasKeys us _ (cleanup-HasKeys now cache h)

  -- After any imports and cleanups of a new cache, an import returns the key of its buffer.
  pub import_key-run_uses :
      (us : List Use) (buffer before after : ℕ)
      → (import_key import_raw buffer before after (run_uses us [])).0 ≡ import_raw buffer
  unfolding HasKeys
  import_key-run_uses us buffer before after =
      (import_key-HasKeys buffer before after (run_uses us []) (run_uses-HasKeys us [] tt)).0
