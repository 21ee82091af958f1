-- ===== src/ManifestState.antt =====
-- services/manifeststate/publication.go: the generation fence of one owner over the state that it
-- derives from the manifest. The owner's state stands beside the fence, because the callback
-- `invalidate` and the `commit` of a publisher change it inside the fence's critical section. Each
-- method is one critical section; other goroutines act between two of them.
pub mod Fence
pub mod Load
pub mod Schedule
pub mod Timely
pub mod Freshness
use guardian_tracker.Prelude.{
  ℕ, ◌+◌, ◌%◌, Bool, true, false, Option, none, some, List, [], ◌∷◌, String, if◌then◌else◌, ◌==◌,
  nat_eq, string_eq,
}
use guardian_tracker.Prelude.Results.{Result, ok, err}

-- `uint64` arithmetic wraps
abbrev pub u64 : ℕ → ℕ
u64 n = n % 18446744073709551616

-- `Publication`, with the state that it guards
pub record Owner {ℓ} (S : Type ℓ) : Type ℓ where
  pub generation : ℕ
  pub version : String
  pub state : S

-- The zero `Attempt`, whose pointer is nil, or one obtained from `Begin`.
pub data Attempt : Type 0 where
  inert : Attempt
  begun : ℕ → Attempt

pub data AdvanceError : Type 0 where
  empty_version : AdvanceError

-- What another goroutine may do to the owner in one critical section.
pub data Event {ℓ} (S : Type ℓ) : Type ℓ where
  advances : String → Event S
  publishes : Attempt → (S → S) → Event S
  changes : (S → S) → Event S

module _ {ℓ} {S : Type ℓ} where
  -- `New`
  unfoldable pub new_owner : S → Owner S
  new_owner state = record { generation = 1; version = ""; state = state }

  unfoldable pub begin : Owner S → Attempt
  begin p = begun p.generation

  -- a nil callback is the identity
  unfoldable pub advance : (S → S) → String → Owner S → Result AdvanceError (Owner S)
  advance invalidate version p =
      if version == ""
      then err empty_version
      else if version == p.version
      then ok p
      else ok (record p {
        generation = u64 (p.generation + 1);
        version = version;
        state = invalidate p.state;
      })

  -- a nil `commit` is the identity
  unfoldable pub publish : Attempt → (S → S) → Owner S → Bool × Owner S
  publish inert commit p = (false, p)
  publish (begun generation) commit p =
      if generation == p.generation then (true, record p { state = commit p.state }) else (false, p)

  unfoldable pub current : Attempt → Owner S → Bool
  current inert p = false
  current (begun generation) p = generation == p.generation

  abbrev pub settle : Owner S → Result AdvanceError (Owner S) → Owner S
  settle p (ok p') = p'
  settle p (err e) = p

  unfoldable pub step : (S → S) → Event S → Owner S → Owner S
  unfolding advance publish
  step invalidate (advances version) p = settle p (advance invalidate version p)
  step invalidate (publishes a commit) p = (publish a commit p).1
  step invalidate (changes f) p = record p { state = f p.state }

  unfoldable pub run : (S → S) → List (Event S) → Owner S → Owner S
  unfolding step
  run invalidate [] p = p
  run invalidate (e ∷ es) p = run invalidate es (step invalidate e p)
