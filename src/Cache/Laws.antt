-- ===== src/Cache/Laws.antt =====
-- What a reader of the in-memory cache sees, and what eviction and cleanup may remove.
use text.Mathlib.TextEquality.{eq_iff}
use guardian_tracker.Prelude.{
  ℕ, ◌≤◌, ◌≡◌, refl, true, false, Option, none, some, List, [], ◌∷◌, String, ◌==◌, if◌then◌else◌,
  arith, lookup, string_eq, lookup-insert, lookup-delete, insert-Distinct, delete-Distinct,
  Distinct, only, lookup-keep, keep-Distinct, ℤ, Bool-cases, Option-cases, inl, inr, beq_refl,
}
use guardian_tracker.Cache.{
  CacheItem, MemoryCache, Signal, tick, stop, is_live, get_evict, get, effective_ttl, deadline, set,
  remove, clear, delete_expired, run_cleanup, before_expiry,
}

before_expiry_mono :
    (now later : ℕ) (at : Option ℕ)
    → now ≤ later
    → before_expiry later at ≡ true
    → before_expiry now at ≡ true
before_expiry_mono now later none h k = refl
before_expiry_mono now later (some e) h k = ground arith

-- Every message to the worker was sent at or before an instant.
abbrev pub SentBy : ℕ → List Signal → Type 0
SentBy later [] = Unit {0}
SentBy later (tick now ∷ signals) = (now ≤ later) × SentBy later signals
SentBy later (stop ∷ signals) = SentBy later signals

module _ {ℓ} {V : Type ℓ} where
  -- The map under the cache holds each key once.
  abbrev pub IsWellFormed : MemoryCache V → Type 0
  IsWellFormed c = Distinct c.items

  abbrev seen : ℕ → Option (CacheItem V) → Option V
  seen now none = none
  seen now (some item) = if is_live now item then some item.value else none

  -- The value that a reader at an instant finds, read off the map.
  abbrev pub visible : String → ℕ → MemoryCache V → Option V
  visible key now c = seen now (lookup key c.items)

  get-visible :
      (key : String) (now now' : ℕ) (c : MemoryCache V) → (get key now now' c).0 ≡ visible key now c
  unfolding get
  get-visible key now now' c = ground arith

  seen-only :
      (now later : ℕ) (o : Option (CacheItem V))
      → now ≤ later
      → seen later (only (is_live now) o) ≡ seen later o
  seen-only now later none h = refl
  seen-only now later (some item) h = ground (arith, before_expiry_mono now later item.expires_at h)

  visible-delete_expired :
      (key : String) (now later : ℕ) (c : MemoryCache V)
      → IsWellFormed c
      → now ≤ later
      → visible key later (delete_expired now c) ≡ visible key later c
  unfolding delete_expired
  visible-delete_expired key now later c w h =
      rw (lookup-keep key (is_live now) c.items w) (seen-only now later (lookup key c.items) h)

  delete_expired-IsWellFormed :
      (now : ℕ) (c : MemoryCache V) → IsWellFormed c → IsWellFormed (delete_expired now c)
  unfolding delete_expired
  delete_expired-IsWellFormed now c w = keep-Distinct (is_live now) c.items w

  visible-run_cleanup :
      (key : String) (later : ℕ) (signals : List Signal) (c : MemoryCache V)
      → IsWellFormed c
      → SentBy later signals
      → visible key later (run_cleanup signals c) ≡ visible key later c
  unfolding run_cleanup
  visible-run_cleanup key later [] c w h = refl
  visible-run_cleanup key later (tick now ∷ signals) c w h =
      rw
        (visible-run_cleanup key later signals (delete_expired now c)
          (delete_expired-IsWellFormed now c w) h.1)
        (visible-delete_expired key now later c w h.0)
  visible-run_cleanup key later (stop ∷ signals) c w h = refl

  -- After a `Set`, a `Get` of the same key returns the new value until the deadline and misses from
  -- then on (with no deadline it always returns it); a `Get` of another key returns what it returned
  -- before the `Set`.
  pub get-set :
      (key other : String) (value : V) (ttl : ℤ) (now later later' : ℕ) (c : MemoryCache V)
      → (get other later later' (set key value ttl now c)).0 ≡ (
          if key == other
          then (if before_expiry later (deadline now (effective_ttl ttl c.default_expiration))
              then some value
              else none)
          else (get other later later' c).0)
  unfolding get set
  get-set key other value ttl now later later' c = ground (
    arith,
    lookup-insert key other
        (record {
          value = value;
          expires_at = deadline now (effective_ttl ttl c.default_expiration);
        })
        c.items,
  )

  -- The cleanup worker is invisible: after any messages sent by an instant, a `Get` at that instant
  -- returns what it would have returned without the worker.
  pub get-run_cleanup :
      (key : String) (later later' : ℕ) (signals : List Signal) (c : MemoryCache V)
      → IsWellFormed c
      → SentBy later signals
      → (get key later later' (run_cleanup signals c)).0 ≡ (get key later later' c).0
  get-run_cleanup key later later' signals c w h =
      rw (get-visible, get-visible) (visible-run_cleanup key later signals c w h)

  -- At one entry: an entry that is expired at an instant is not seen later.
  seen_expired :
      (now later : ℕ) (item : CacheItem V)
      → now ≤ later
      → is_live now item ≡ false
      → seen later (some item) ≡ none
  seen_expired now later item h dead =
      ground (arith, before_expiry_mono now later item.expires_at h)

  visible-get_evict :
      (key other : String) (now later : ℕ) (c : MemoryCache V)
      → now ≤ later
      → visible other later (get_evict key now c) ≡ visible other later c
  unfolding get_evict
  visible-get_evict key other now later c h = elim (Option-cases (lookup key c.items)) [
    | inl missing ↦ rw (missing, get_evict) refl
    | inr (item, found) ↦ elim (Bool-cases (is_live now item)) [
      | inl live ↦ ground arith
      | inr dead ↦ ground (
        arith,
        lookup-delete key other c.items,
        eq_iff key other,
        seen_expired now later item h dead,
      )
    ]
  ]

  -- The second section of `Get` judges the entry again: whatever other calls have done to the cache
  -- since the first section, it removes nothing that a later `Get` of any key would have returned.
  pub get-get_evict :
      (key other : String) (now later later' : ℕ) (c : MemoryCache V)
      → now ≤ later
      → (get other later later' (get_evict key now c)).0 ≡ (get other later later' c).0
  unfolding get_evict
  get-get_evict key other now later later' c h =
      rw (get-visible, get-visible) (visible-get_evict key other now later c h)

  -- A `Get` that misses at an instant, its second reading of the clock no earlier, leaves no entry
  -- for the key; a `Get` that hits leaves the cache as it was.
  pub get_leaves :
      (key : String) (now now' : ℕ) (c : MemoryCache V)
      → now ≤ now'
      → (((get key now now' c).0 ≡ none) → lookup key (get key now now' c).1.items ≡ none)
        × ((v : V) → (get key now now' c).0 ≡ some v → (get key now now' c).1 ≡ c)
  unfolding get
  get_leaves key now now' c h = (
    λ missed. ground (
      arith,
      lookup-delete key key c.items,
      beq_refl key,
      λ (item : CacheItem V). before_expiry_mono now now' item.expires_at h,
    ),
    λ v found. ground arith,
  )

  get-IsWellFormed :
      (key : String) (now now' : ℕ) (c : MemoryCache V)
      → IsWellFormed c
      → IsWellFormed (get key now now' c).1
  unfolding get
  get-IsWellFormed key now now' c w = ground (arith, delete-Distinct key c.items w)

  run_cleanup-IsWellFormed :
      (signals : List Signal) (c : MemoryCache V)
      → IsWellFormed c
      → IsWellFormed (run_cleanup signals c)
  unfolding run_cleanup
  run_cleanup-IsWellFormed [] c w = w
  run_cleanup-IsWellFormed (tick now ∷ signals) c w =
      run_cleanup-IsWellFormed signals (delete_expired now c) (delete_expired-IsWellFormed now c w)
  run_cleanup-IsWellFormed (stop ∷ signals) c w = w

  -- Every operation keeps each key once.
  pub operations-IsWellFormed :
      (key : String) (value : V) (ttl : ℤ) (now now' : ℕ) (signals : List Signal)
      (c : MemoryCache V)
      → IsWellFormed c
      → IsWellFormed (get key now now' c).1
        × IsWellFormed (set key value ttl now c)
        × IsWellFormed (remove key c)
        × IsWellFormed (clear c)
        × IsWellFormed (run_cleanup signals c)
  unfolding set remove clear
  operations-IsWellFormed key value ttl now now' signals c w = (
    get-IsWellFormed key now now' c w,
    insert-Distinct key _ c.items w,
    delete-Distinct key c.items w,
    tt,
    run_cleanup-IsWellFormed signals c w,
  )
