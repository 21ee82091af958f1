-- ===== src/Cache/Load.antt =====
-- cache/load.go: `Load` and `LoadIf` over any cache, that is the in-memory one, the no-op one, or a
-- nil interface. The dynamic type of a cached value is the pair of functions `as_type`, which is the
-- assertion `cached.(T)`, and `into`, which is the conversion of a `T` to `interface{}`.
use guardian_tracker.Prelude.{
  ℕ, ◌≡◌, refl, Bool, true, Option, none, some, List, String, if◌then◌else◌, arith, beq_refl, Assoc,
  string_eq, ℤ, length, ltb,
}
use guardian_tracker.Prelude.Results.{Result, ok, err}
use guardian_tracker.Cache
use guardian_tracker.Cache.{MemoryCache, before_expiry, effective_ttl, deadline}
use guardian_tracker.Cache.Laws.{get-set}

-- The interface `Cache` with the values that the program gives it.
pub data AnyCache {ℓ} (V : Type ℓ) : Type ℓ where
  nil : AnyCache V
  no_op : AnyCache V
  memory : MemoryCache V → AnyCache V

-- The readings of the clock during one call: two of `Get`, one of `Set`.
pub record Readings : Type 0 where
  pub peeked : ℕ
  pub evicted : ℕ
  pub stored : ℕ

module _ {ℓ} {V : Type ℓ} where
  -- the method `Get` of the value behind the interface; a nil interface is not asked
  unfoldable pub any_get : String → Readings → AnyCache V → Option V × AnyCache V
  any_get key t nil = (none, nil)
  any_get key t no_op = (none, no_op)
  any_get key t (memory c) = let (v, c') = Cache.get key t.peeked t.evicted c in (v, memory c')

  -- the method `Set`; on a nil interface it is not called
  unfoldable pub any_set : String → V → ℤ → Readings → AnyCache V → AnyCache V
  any_set key v ttl t nil = nil
  any_set key v ttl t no_op = no_op
  any_set key v ttl t (memory c) = memory (Cache.set key v ttl t.stored c)

-- A nil predicate stores everything.
abbrev pub wants {ℓ} : {T : Type ℓ} → Option (T → Bool) → T → Bool
wants none value = true
wants (some store_if) value = store_if value

module _ {ℓ} {V T : Type ℓ} (as_type : V → Option T) where
  -- the cached value, if it is there and has the type
  abbrev pub typed : Option V → Option T
  typed none = none
  typed (some v) = as_type v

module _ {ℓ} {V T : Type ℓ} (into : T → V) where
  abbrev store : String → ℤ → Readings → Option (T → Bool) → T → AnyCache V → AnyCache V
  store key ttl t store_if value c =
      if wants store_if value then any_set key (into value) ttl t c else c

module _ {ℓ} {V T E : Type ℓ} where
  -- what follows a miss: the outcome of `load` and the cache that is left
  abbrev finish :
      (T → V)
      → String
      → ℤ
      → Readings
      → Option (T → Bool)
      → Result E T
      → AnyCache V
      → Result E T × AnyCache V
  finish into key ttl t store_if (ok value) c = (ok value, store into key ttl t store_if value c)
  finish into key ttl t store_if (err e) c = (err e, c)

  abbrev serve : Option T → AnyCache V → Result E T × AnyCache V → Result E T × AnyCache V
  serve (some value) c missed = (ok value, c)
  serve none c missed = missed

module _ {ℓ} {V T E : Type ℓ} (as_type : V → Option T) (into : T → V) where
  -- `loaded` is what `load` returns if it is called
  unfoldable pub load_if :
      String → ℤ → Readings → Result E T → Option (T → Bool) → AnyCache V → Result E T × AnyCache V
  unfolding any_get any_set
  load_if key ttl t loaded store_if c =
      let (cached, c') = any_get key t c in
      serve (typed as_type cached) c' (finish into key ttl t store_if loaded c')

  unfoldable pub load : String → ℤ → Readings → Result E T → AnyCache V → Result E T × AnyCache V
  unfolding load_if
  load key ttl t loaded c = load_if key ttl t loaded none c

-- `NonEmptyMap` and `NonEmptySlice`
unfoldable pub non_empty_map {ℓ κ} : {K : Type ℓ} {V : Type κ} → Assoc K V → Bool
non_empty_map m = ltb 0 (length m)

unfoldable pub non_empty_slice {ℓ} : {A : Type ℓ} → List A → Bool
non_empty_slice s = ltb 0 (length s)

module _ {ℓ} {V : Type ℓ} where
  get-default_expiration :
      (key : String) (now now' : ℕ) (c : MemoryCache V)
      → (Cache.get key now now' c).1.default_expiration ≡ c.default_expiration
  unfolding Cache.get
  get-default_expiration key now now' c = ground arith

module _ {ℓ} {V T E : Type ℓ} (as_type : V → Option T) where
  served :
      (o : Option V) (c c' : AnyCache V) (e : E) (value : T)
      → (serve (typed as_type o) c (err e, c')).0 ≡ ok value
      → (v : V) × (o ≡ some v) × (as_type v ≡ some value)
  served none c c' e value h = cc
  served (some v) c c' e value h = (v, refl, ground arith)

module _ {ℓ} {V T E : Type ℓ} (as_type : V → Option T) (into : T → V) where
  -- An error is never cached: if `load` fails, the call returns either a cached value or that error,
  -- and the cache is the one that the lookup left.
  pub load_if_error :
      (key : String) (ttl : ℤ) (t : Readings) (e : E) (store_if : Option (T → Bool))
      (c : AnyCache V)
      → ((load_if as_type into key ttl t (err e) store_if c).1 ≡ (any_get key t c).1)
        × ((value : T)
            → (load_if as_type into key ttl t (err e) store_if c).0 ≡ ok value
            → (v : V) × ((any_get key t c).0 ≡ some v) × (as_type v ≡ some value))
  unfolding load_if
  load_if_error key ttl t e store_if c =
      let found = any_get key t c in (ground arith, served as_type found.0 found.1 found.1 e)

  -- If the lookup misses, `load` succeeds and the predicate wants its value, then the next call of
  -- `LoadIf` for the key, before the deadline, returns that value whatever its own `load` would
  -- return and whatever its predicate and its duration are.
  pub load_if-load_if :
      (key : String) (ttl ttl' : ℤ) (t t' : Readings) (value : T) (other : Result E T)
      (store_if store_if' : Option (T → Bool)) (c : MemoryCache V)
      → ((x : T) → as_type (into x) ≡ some x)
      → (Cache.get key t.peeked t.evicted c).0 ≡ none
      → wants store_if value ≡ true
      → before_expiry t'.peeked (deadline t.stored (effective_ttl ttl c.default_expiration)) ≡ true
      → (load_if as_type into key ttl' t' other store_if'
          (load_if {E = E} as_type into key ttl t (ok value) store_if (memory c)).1).0
        ≡ ok value
  unfolding load_if
  load_if-load_if key ttl ttl' t t' value other store_if store_if' c round miss want fresh =
      let c' = (Cache.get key t.peeked t.evicted c).1 in
      ground (
        arith,
        round value,
        get-default_expiration key t.peeked t.evicted c,
        get-set key key (into value) ttl t.stored t'.peeked t'.evicted c',
        beq_refl key,
      )
