-- ===== src/ManifestState/Fence.antt =====
-- When an attempt may still publish.
use guardian_tracker.Prelude.{
  ℕ, ◌+◌, ◌<◌, ◌≡◌, refl, Bool, true, false, List, [], ◌∷◌, String, if◌then◌else◌, ◌==◌, nat_eq,
  string_eq, arith,
}
use guardian_tracker.ManifestState.{
  u64, Owner, Attempt, inert, begun, Event, advances, publishes, changes, begin, publish, current,
  step, run,
}

-- A version that is told to an owner changes its version, or does not.
abbrev pub is_change : String → String → Bool
is_change version told = if told == "" then false else if told == version then false else true

abbrev pub told_version : String → String → String
told_version version told = if is_change version told then told else version

-- How often a history of events changes the version, read off the versions alone.
unfoldable pub turns {ℓ} : {S : Type ℓ} → String → List (Event S) → ℕ
turns version [] = 0
turns version (advances told ∷ es) =
    (if is_change version told then 1 else 0) + turns (told_version version told) es
turns version (publishes a commit ∷ es) = turns version es
turns version (changes f ∷ es) = turns version es

-- The counter returns to an old value only after 2^64 changes.
pub same_generation :
    (g m n : ℕ)
    → g < 18446744073709551616
    → m + n < 18446744073709551616
    → (g == u64 (u64 (g + m) + n)) ≡ (m + n == 0)
same_generation g m n h few = ground arith

module _ {ℓ} {S : Type ℓ} (invalidate : S → S) where
  pub step-advances :
      (told : String) (p : Owner S)
      → ((step invalidate (advances told) p).version ≡ told_version p.version told)
        × ((step invalidate (advances told) p).generation
            ≡ (if is_change p.version told then u64 (p.generation + 1) else p.generation))
  unfolding step
  step-advances told p = (ground arith, ground arith)

  step-publishes :
      (a : Attempt) (commit : S → S) (p : Owner S)
      → ((step invalidate (publishes a commit) p).version ≡ p.version)
        × ((step invalidate (publishes a commit) p).generation ≡ p.generation)
  unfolding step
  step-publishes inert commit p = (refl, refl)
  step-publishes (begun g) commit p = (ground arith, ground arith)

  -- The generation counts the changes of version, modulo the width of the counter.
  pub generation-run :
      (es : List (Event S)) (p : Owner S)
      → p.generation < 18446744073709551616
      → (run invalidate es p).generation ≡ u64 (p.generation + turns p.version es)
  unfolding run turns
  generation-run [] p h = omega arith
  generation-run (advances told ∷ es) p h =
      let p' = step invalidate (advances told) p in
      let (v, g) = step-advances told p in
      rw (generation-run es p' (ground arith), v) (ground arith)
  generation-run (publishes a commit ∷ es) p h =
      let p' = step invalidate (publishes a commit) p in
      let (v, g) = step-publishes a commit p in rw (generation-run es p' (omega arith), v, g) refl
  generation-run (changes f ∷ es) p h = generation-run es (step invalidate (changes f) p) h

  -- An attempt is current exactly while the version has not changed since it began, and publishes
  -- exactly then: a publisher that lost the race leaves the owner as it found it. The history in
  -- between is any at all that changes the version fewer than 2^64 times.
  pub publish-run :
      (es : List (Event S)) (commit : S → S) (p : Owner S)
      → p.generation < 18446744073709551616
      → turns p.version es < 18446744073709551616
      → let p' = run invalidate es p in
        (current (begin p) p' ≡ (turns p.version es == 0))
        × (publish (begin p) commit p' ≡ (
            if turns p.version es == 0
            then (true, record p' { state = commit p'.state })
            else (false, p')))
  unfolding current begin publish
  publish-run es commit p h few =
      let n = turns p.version es in
      let same : (p.generation == u64 (p.generation + n)) ≡ (n == 0) = ground arith in
      (rw (generation-run es p h) same, rw (generation-run es p h, same) refl)
