-- ===== src/MembershipState.antt =====
-- services/membershipstate/publication.go: one fence for each membership over the state that an owner
-- derives from the account. A generation that is not in the map is 0.
pub mod Fence
pub mod Load
use guardian_tracker.Prelude.{
  ℕ, ◌+◌, Bool, true, false, Option, none, some, List, [], ◌∷◌, String, if◌then◌else◌, ◌==◌, nat_eq,
  string_eq, int_eq, pair_eq, ℤ, Assoc, lookup, insert,
}
use guardian_tracker.ManifestState.{u64}

-- `membership`: the type and the id
abbrev pub Membership : Type 0
Membership = ℤ × String

-- `Publication`, with the state that it guards
pub record Owner {ℓ} (S : Type ℓ) : Type ℓ where
  pub generations : Assoc Membership ℕ
  pub state : S

-- The zero `Attempt`, whose pointer is nil, or one obtained from `Begin`.
pub data Attempt : Type 0 where
  inert : Attempt
  begun : Membership → ℕ → Attempt

-- What another goroutine may do to the owner in one critical section.
pub data Event {ℓ} (S : Type ℓ) : Type ℓ where
  advances : Membership → Event S
  publishes : Attempt → (S → S) → Event S
  changes : (S → S) → Event S

abbrev pub or_zero : Option ℕ → ℕ
or_zero none = 0
or_zero (some n) = n

module _ {ℓ} {S : Type ℓ} where
  unfoldable pub new_owner : S → Owner S
  new_owner state = record { generations = []; state = state }

  -- `p.generations[key]`
  abbrev pub generation_of : Membership → Owner S → ℕ
  generation_of key p = or_zero (lookup key p.generations)

  unfoldable pub begin : Membership → Owner S → Attempt
  begin key p = begun key (generation_of key p)

  -- a nil callback is the identity
  unfoldable pub advance : (Membership → S → S) → Membership → Owner S → Owner S
  advance invalidate key p = record {
    generations = insert key (u64 (generation_of key p + 1)) p.generations;
    state = invalidate key p.state;
  }

  -- a nil `commit` is the identity
  unfoldable pub publish : Attempt → (S → S) → Owner S → Bool × Owner S
  publish inert commit p = (false, p)
  publish (begun key generation) commit p =
      if generation == generation_of key p
      then (true, record p { state = commit p.state })
      else (false, p)

  unfoldable pub current : Attempt → Owner S → Bool
  current inert p = false
  current (begun key generation) p = generation == generation_of key p

  unfoldable pub step : (Membership → S → S) → Event S → Owner S → Owner S
  unfolding advance publish
  step invalidate (advances key) p = advance invalidate key p
  step invalidate (publishes a commit) p = (publish a commit p).1
  step invalidate (changes f) p = record p { state = f p.state }

  unfoldable pub run : (Membership → S → S) → List (Event S) → Owner S → Owner S
  unfolding step
  run invalidate [] p = p
  run invalidate (e ∷ es) p = run invalidate es (step invalidate e p)
