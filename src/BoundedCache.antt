-- ===== src/BoundedCache.antt =====
-- services/items/boundedcache.go: a memo of one projection by key, bounded in size. The entry that a
-- full cache drops is whichever a `range` over the map meets first; `pick` stands for that choice.
pub mod Laws
use guardian_tracker.Prelude.{
  ℕ, ◌%◌, Bool, true, false, not, ◌&&◌, Option, none, some, [], leb, if◌then◌else◌, Eq, Assoc,
  lookup, insert, delete, is_some, length, get_elem?,
}
use guardian_tracker.Prelude.Results.{Result, ok, err}

pub record BoundedCache {ℓ} (K V : Type ℓ) : Type ℓ where
  pub entries : Assoc K V
  pub max : ℕ

-- a nil predicate keeps everything
abbrev pub wants {ℓ} : {V : Type ℓ} → Option (V → Bool) → V → Bool
wants none v = true
wants (some store_if) v = store_if v

module _ {ℓ} {K V : Type ℓ} ⦃e : Eq K⦄ where
  unfoldable pub new_bounded_cache : ℕ → BoundedCache K V
  new_bounded_cache max = record { entries = []; max = max }

  -- `for k := range c.entries { delete(c.entries, k); break }`
  unfoldable pub evict_one : ℕ → Assoc K V → Assoc K V
  evict_one pick entries = elim (get_elem? entries (pick % length entries)) [
    | none ↦ entries
    | some (k, v) ↦ delete k entries
  ]

  -- the section of `put`, and of `load` after a miss, under the write lock
  unfoldable pub put : ℕ → K → V → BoundedCache K V → BoundedCache K V
  put pick key v c =
      let is_full = not (is_some (lookup key c.entries)) && leb c.max (length c.entries) in
      let room = if is_full then evict_one pick c.entries else c.entries in
      record c { entries = insert key v room }

  unfoldable pub get : K → BoundedCache K V → Option V
  get key c = lookup key c.entries

  abbrev pub keep_loaded : ℕ → K → V → Bool → BoundedCache K V → BoundedCache K V
  keep_loaded pick key v wanted c = if wanted then put pick key v c else c

  unfoldable pub load {κ} :
      {E : Type κ}
      → ℕ
      → K
      → (K → Result E V)
      → Option (V → Bool)
      → BoundedCache K V
      → Result E V × BoundedCache K V
  unfolding put
  load pick key fetch store_if c = elim (lookup key c.entries) [
    | some v ↦ (ok v, c)
    | none ↦ elim (fetch key) [
      | err e ↦ (err e, c)
      | ok v ↦ (ok v, keep_loaded pick key v (wants store_if v) c)
    ]
  ]

  unfoldable pub size : BoundedCache K V → ℕ
  size c = length c.entries

  unfoldable pub clear : BoundedCache K V → BoundedCache K V
  clear c = record c { entries = [] }
