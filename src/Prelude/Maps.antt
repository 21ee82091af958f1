-- ===== src/Prelude/Maps.antt =====
-- A Go map as an association list. The order of the list is the order in which a `range` over the
-- map visits it, which the language leaves open.
use Prim.Native.Nat.{◌+◌, ◌≤◌}
use mathlib.Core.Path.{◌≡◌, refl}
use mathlib.Core.Bool.{Bool, true, false}
use mathlib.Core.List.{List, [], ◌∷◌}
use mathlib.Core.Option.{Option, none, some}
use native.Mathlib.Omega.{arith}
use guardian_tracker.Prelude.Tests.{if◌then◌else◌}
use guardian_tracker.Prelude.Lists.{length}
use guardian_tracker.Prelude.Keys.{Eq, ◌==◌}

abbrev pub Assoc {ℓ κ} : Type ℓ → Type κ → Type (ℓ ⊔ κ)
Assoc K V = List (K × V)

abbrev pub is_some {ℓ} : {A : Type ℓ} → Option A → Bool
is_some none = false
is_some (some _) = true

abbrev pub only {ℓ} : {A : Type ℓ} → (A → Bool) → Option A → Option A
only p none = none
only p (some a) = if p a then some a else none

module _ {ℓ κ} {K : Type ℓ} {V : Type κ} ⦃e : Eq K⦄ where
  -- `m[k]` with its second result
  unfoldable pub lookup : K → Assoc K V → Option V
  lookup k [] = none
  lookup k ((j, v) ∷ m) = if j == k then some v else lookup k m

  -- `m[k] = v`
  unfoldable pub insert : K → V → Assoc K V → Assoc K V
  insert k v [] = (k, v) ∷ []
  insert k v ((held, old) ∷ m) = if held == k then (held, v) ∷ m else (held, old) ∷ insert k v m

  -- `delete(m, k)`
  unfoldable pub delete : K → Assoc K V → Assoc K V
  delete k [] = []
  delete k ((j, v) ∷ m) = let rest = delete k m in if j == k then rest else (j, v) ∷ rest

  pub lookup-delete :
      (k j : K) (m : Assoc K V) → lookup j (delete k m) ≡ (if k == j then none else lookup j m)
  unfolding lookup delete
  lookup-delete k j [] = ground arith
  lookup-delete k j ((i, w) ∷ m) =
      ground (arith, e.beq_iff k j, e.beq_iff i k, e.beq_iff i j, lookup-delete k j m)

  pub lookup-insert :
      (key other : K) (new : V) (m : Assoc K V)
      → lookup other (insert key new m) ≡ (if key == other then some new else lookup other m)
  unfolding insert lookup
  lookup-insert key other new ((held, old) ∷ m) = ground (
    arith,
    lookup-insert key other new m,
    e.beq_iff held key,
    e.beq_iff key other,
    e.beq_iff held other,
  )
  lookup-insert key other new [] = refl

  pub length-insert :
      (k : K) (v : V) (m : Assoc K V)
      → length (insert k v m) ≡ (if is_some (lookup k m) then length m else length m + 1)
  unfolding lookup insert
  length-insert k v [] = ground arith
  length-insert k v ((j, w) ∷ m) = ground (arith, length-insert k v m)

  pub length-delete-le : (k : K) (m : Assoc K V) → length (delete k m) ≤ length m
  unfolding delete
  length-delete-le k [] = omega arith
  length-delete-le k ((j, w) ∷ m) = ground (arith, length-delete-le k m)

  pub length-delete_hit :
      (k : K) (v : V) (m : Assoc K V) → lookup k m ≡ some v → length (delete k m) + 1 ≤ length m
  unfolding lookup delete
  length-delete_hit k v [] h = ground arith
  length-delete_hit k v ((j, w) ∷ m) h =
      ground (arith, length-delete_hit k v m, length-delete-le k m)

  -- Each key stands once, as in a map of the language.
  abbrev pub Distinct : Assoc K V → Type 0
  Distinct [] = Unit {0}
  Distinct ((k, v) ∷ m) = (is_some (lookup k m) ≡ false) × Distinct m

  pub insert-Distinct : (k : K) (v : V) (m : Assoc K V) → Distinct m → Distinct (insert k v m)
  unfolding insert lookup
  insert-Distinct k v [] h = ground arith
  insert-Distinct k v ((j, w) ∷ m) h =
      ground (arith, insert-Distinct k v m, lookup-insert k j v m, e.beq_iff j k, e.beq_iff k j)

  pub delete-Distinct : (k : K) (m : Assoc K V) → Distinct m → Distinct (delete k m)
  unfolding delete lookup
  delete-Distinct k [] h = tt
  delete-Distinct k ((j, w) ∷ m) h = ground (arith, delete-Distinct k m, lookup-delete k j m)

  -- The loop that deletes the entries whose value fails a test.
  unfoldable pub keep : (V → Bool) → Assoc K V → Assoc K V
  keep p [] = []
  keep p ((k, v) ∷ m) = let rest = keep p m in if p v then (k, v) ∷ rest else rest

  pub lookup-keep :
      (k : K) (p : V → Bool) (m : Assoc K V)
      → Distinct m
      → lookup k (keep p m) ≡ only p (lookup k m)
  unfolding keep lookup
  lookup-keep k p [] h = refl
  lookup-keep k p ((j, w) ∷ m) h = ground (arith, lookup-keep k p m, e.beq_iff j k)

  pub keep-Distinct : (p : V → Bool) (m : Assoc K V) → Distinct m → Distinct (keep p m)
  unfolding keep lookup
  keep-Distinct p [] h = tt
  keep-Distinct p ((j, w) ∷ m) h = ground (arith, keep-Distinct p m, lookup-keep j p m)
