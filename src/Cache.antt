-- ===== src/Cache.antt =====
-- cache/cache.go: the in-memory cache with expiry. An instant is a number of nanoseconds, and the
-- zero `time.Time` (no expiry) is `none`. Each critical section of a method is one function, so the
-- two sections of `Get` read the clock and the map separately.
pub mod Laws
pub mod Load
use guardian_tracker.Prelude.{
  ℕ, zero, suc, ◌+◌, Bool, true, not, Option, none, some, List, [], ◌∷◌, String, ltb, if◌then◌else◌,
  Assoc, lookup, insert, delete, keep, string_eq, ℤ, pos, negsuc,
}

-- `cacheItem`
pub record CacheItem {ℓ} (V : Type ℓ) : Type ℓ where
  pub value : V
  pub expires_at : Option ℕ

-- `MemoryCache`, without its locks and the channels of the cleanup worker
pub record MemoryCache {ℓ} (V : Type ℓ) : Type ℓ where
  pub items : Assoc String (CacheItem V)
  pub default_expiration : ℤ

-- What the first critical section of `Get` finds.
pub data Peek {ℓ} (V : Type ℓ) : Type ℓ where
  absent : Peek V
  stale : Peek V
  hit : V → Peek V

-- A message to the cleanup worker.
pub data Signal : Type 0 where
  tick : ℕ → Signal
  stop : Signal

-- `expiresAt.IsZero() || now.Before(expiresAt)`
abbrev pub before_expiry : ℕ → Option ℕ → Bool
before_expiry now none = true
before_expiry now (some at) = ltb now at

-- a duration of 0 takes the default
abbrev pub effective_ttl : ℤ → ℤ → ℤ
effective_ttl (pos zero) fallback = fallback
effective_ttl ttl fallback = ttl

-- only a positive duration sets an expiry
abbrev pub deadline : ℕ → ℤ → Option ℕ
deadline now (pos zero) = none
deadline now (pos (suc d)) = some (now + suc d)
deadline now (negsuc d) = none

module _ {ℓ} {V : Type ℓ} where
  abbrev pub is_live : ℕ → CacheItem V → Bool
  is_live now item = before_expiry now item.expires_at

  unfoldable pub new_memory_cache : ℤ → MemoryCache V
  new_memory_cache default_expiration = record {
    items = [];
    default_expiration = default_expiration;
  }

  -- `Get` up to the release of the read lock
  unfoldable pub get_read : String → ℕ → MemoryCache V → Peek V
  get_read key now c = elim (lookup key c.items) [
    | none ↦ absent
    | some item ↦ if is_live now item then hit item.value else stale
  ]

  -- `Get` under the write lock: the entry is looked up and judged again
  unfoldable pub get_evict : String → ℕ → MemoryCache V → MemoryCache V
  get_evict key now c = elim (lookup key c.items) [
    | none ↦ c
    | some item ↦ if not (is_live now item) then record c { items = delete key c.items } else c
  ]

  abbrev pub finish_get : Peek V → MemoryCache V → MemoryCache V → Option V × MemoryCache V
  finish_get absent c evicted = (none, c)
  finish_get stale c evicted = (none, evicted)
  finish_get (hit v) c evicted = (some v, c)

  -- `Get` with nobody in between; the clock is read at `now` and again at `now'`
  unfoldable pub get : String → ℕ → ℕ → MemoryCache V → Option V × MemoryCache V
  unfolding get_read get_evict
  get key now now' c = finish_get (get_read key now c) c (get_evict key now' c)

  unfoldable pub set : String → V → ℤ → ℕ → MemoryCache V → MemoryCache V
  set key value ttl now c =
      let item : CacheItem V = record {
        value = value;
        expires_at = deadline now (effective_ttl ttl c.default_expiration);
      } in
      record c { items = insert key item c.items }

  unfoldable pub remove : String → MemoryCache V → MemoryCache V
  remove key c = record c { items = delete key c.items }

  unfoldable pub clear : MemoryCache V → MemoryCache V
  clear c = record c { items = [] }

  unfoldable pub delete_expired : ℕ → MemoryCache V → MemoryCache V
  delete_expired now c = record c { items = keep (is_live now) c.items }

  -- the loop of `runCleanup` over the messages that it receives
  unfoldable pub run_cleanup : List Signal → MemoryCache V → MemoryCache V
  unfolding delete_expired
  run_cleanup [] c = c
  run_cleanup (tick now ∷ signals) c = run_cleanup signals (delete_expired now c)
  run_cleanup (stop ∷ signals) c = c
