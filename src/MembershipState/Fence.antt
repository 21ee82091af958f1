-- ===== src/MembershipState/Fence.antt =====
-- A refresh of one membership retires the work of that membership and of no other.
use guardian_tracker.Prelude.{
  ℕ, ◌+◌, ◌<◌, ◌≡◌, refl, true, false, List, [], ◌∷◌, if◌then◌else◌, ◌==◌, nat_eq, int_eq,
  string_eq, pair_eq, arith, ap, lookup-insert, Bool-cases, inl, inr, beq→eq,
}
use guardian_tracker.ManifestState.{u64}
use guardian_tracker.MembershipState.{
  Membership, Owner, Attempt, inert, begun, Event, advances, publishes, changes, generation_of,
  begin, publish, current, step, run,
}

-- How often a history refreshes a membership.
unfoldable pub refreshes {ℓ} : {S : Type ℓ} → Membership → List (Event S) → ℕ
refreshes key [] = 0
refreshes key (advances k ∷ es) = (if k == key then 1 else 0) + refreshes key es
refreshes key (publishes a commit ∷ es) = refreshes key es
refreshes key (changes f ∷ es) = refreshes key es

module _ {ℓ} {S : Type ℓ} (invalidate : Membership → S → S) where
  step-advances :
      (key k : Membership) (p : Owner S)
      → generation_of key (step invalidate (advances k) p)
        ≡ (if k == key then u64 (generation_of key p + 1) else generation_of key p)
  unfolding step
  step-advances key k p =
      let g = u64 (generation_of k p + 1) in
      elim (Bool-cases (k == key)) [
        | inl same ↦
            rw (lookup-insert k key g p.generations, same)
              (ap (λ m. u64 (generation_of m p + 1)) (beq→eq k key same))
        | inr other ↦ rw (lookup-insert k key g p.generations, other) refl
      ]

  step-publishes :
      (key : Membership) (a : Attempt) (commit : S → S) (p : Owner S)
      → generation_of key (step invalidate (publishes a commit) p) ≡ generation_of key p
  unfolding step
  step-publishes key inert commit p = refl
  step-publishes key (begun k g) commit p = elim (Bool-cases (g == generation_of k p)) [
    | inl same ↦ rw (step, publish, same) refl
    | inr other ↦ rw (step, publish, other) refl
  ]

  pub generation_of-run :
      (key : Membership) (es : List (Event S)) (p : Owner S)
      → generation_of key p < 18446744073709551616
      → generation_of key (run invalidate es p) ≡ u64 (generation_of key p + refreshes key es)
  unfolding run refreshes
  generation_of-run key [] p h = omega arith
  generation_of-run key (advances k ∷ es) p h =
      let p' = step invalidate (advances k) p in
      let g = step-advances key k p in
      elim (Bool-cases (k == key)) [
        | inl same ↦
            let g' : generation_of key p' ≡ u64 (generation_of key p + 1) = rw same at g in
            rw same (omega (arith, generation_of-run key es p' (omega arith)))
        | inr other ↦
            let g' : generation_of key p' ≡ generation_of key p = rw other at g in
            rw other (omega (arith, generation_of-run key es p' (omega arith)))
      ]
  generation_of-run key (publishes a commit ∷ es) p h =
      let p' = step invalidate (publishes a commit) p in
      let g = step-publishes key a commit p in
      omega (arith, generation_of-run key es p' (omega arith), g)
  generation_of-run key (changes f ∷ es) p h =
      generation_of-run key es (step invalidate (changes f) p) h

  -- An attempt for a membership is current, and publishes, exactly while that membership has not been
  -- refreshed since it began, whatever is done to the others. The history in between is any at all
  -- that refreshes the membership fewer than 2^64 times.
  pub publish-refresh_run :
      (key : Membership) (es : List (Event S)) (commit : S → S) (p : Owner S)
      → generation_of key p < 18446744073709551616
      → refreshes key es < 18446744073709551616
      → let p' = run invalidate es p in
        (current (begin key p) p' ≡ (refreshes key es == 0))
        × (publish (begin key p) commit p' ≡ (
            if refreshes key es == 0
            then (true, record p' { state = commit p'.state })
            else (false, p')))
  unfolding current begin publish
  publish-refresh_run key es commit p h few =
      let n = refreshes key es in
      let g = generation_of key p in
      let same : (g == u64 (g + n)) ≡ (n == 0) = ground arith in
      (rw (generation_of-run key es p h) same, rw (generation_of-run key es p h, same) refl)
