-- ===== src/RollTargets/NearMisses.antt =====
-- The near miss that is reported for a target that nothing satisfies.
use guardian_tracker.Prelude.{
  ℕ, ◌<◌, ◌≡◌, refl, false, not, ◌&&◌, Option, none, some, List, [], ◌∷◌, String, if◌then◌else◌,
  arith, Bool-cases, inl, inr, ltb,
}
use guardian_tracker.RollTargets.{
  OwnedRoll, StoredTarget, NearMiss, target_applies, contains_all, Scan, better, scan_roll,
  scan_rolls, no_matches, score_target_columns,
}

abbrev partial_score : List String × ℕ × ℕ → ℕ
partial_score (names, matched, columns) =
    if ltb 0 matched && ltb matched columns then matched else 0

-- How many columns of a weapon match a target, if it is about the weapon and some but not all do; else 0.
unfoldable pub score : StoredTarget → OwnedRoll → ℕ
score target roll =
    if target_applies target roll && not (contains_all roll.perks target.perks)
    then partial_score (score_target_columns roll.columns target.perks)
    else 0

abbrev pub larger : ℕ → ℕ → ℕ
larger a b = if ltb a b then b else a

unfoldable pub best_score : StoredTarget → List OwnedRoll → ℕ
best_score target [] = 0
best_score target (roll ∷ rolls) = larger (score target roll) (best_score target rolls)

abbrev pub score_of : Option NearMiss → ℕ
score_of none = 0
score_of (some b) = b.matched_columns

-- What a near miss says of its weapon is true of it.
abbrev pub Honest : StoredTarget → Option NearMiss → Type 0
Honest target none = Unit {0}
Honest target (some b) = (b.matched_columns ≡ score target b.roll) × (0 < b.matched_columns)

module _ (target : StoredTarget) where
  better-score :
      (roll : OwnedRoll) (best : Option NearMiss)
      → score_of (better target roll best)
        ≡ larger (score_of best) (partial_score (score_target_columns roll.columns target.perks))
  unfolding better
  better-score roll none = ground arith
  better-score roll (some b) = ground arith

  better-Honest :
      (roll : OwnedRoll) (best : Option NearMiss)
      → score target roll ≡ partial_score (score_target_columns roll.columns target.perks)
      → Honest target best
      → Honest target (better target roll best)
  unfolding better
  better-Honest roll none e h = ground (arith, e)
  better-Honest roll (some b) e h = ground (arith, e, h)

  scan_roll-score :
      (roll : OwnedRoll) (s : Scan)
      → (score_of (scan_roll target roll s).best ≡ larger (score_of s.best) (score target roll))
        × (Honest target s.best → Honest target (scan_roll target roll s).best)
  unfolding scan_roll score
  scan_roll-score roll s = elim (Bool-cases (target_applies target roll)) [
    | inr elsewhere ↦ rw (elsewhere, scan_roll, score) (ground arith, λ h. h)
    | inl applies ↦ elim (Bool-cases (contains_all roll.perks target.perks)) [
      | inl full ↦ rw (applies, full, scan_roll, score) (ground arith, λ h. h)
      | inr partial ↦ (
        rw (applies, partial, scan_roll, score) (better-score roll s.best),
        λ h.
            rw (applies, partial, scan_roll)
              (better-Honest roll s.best (rw (applies, partial, score) refl) h),
      )
    ]
  ]

  scan_rolls-score :
      (rolls : List OwnedRoll) (s : Scan)
      → Honest target s.best
      → (score_of (scan_rolls target rolls s).best
          ≡ larger (score_of s.best) (best_score target rolls))
        × Honest target (scan_rolls target rolls s).best
  unfolding scan_rolls best_score
  scan_rolls-score [] s h = (ground arith, h)
  scan_rolls-score (roll ∷ rolls) s h =
      let (one, honest) = scan_roll-score roll s in
      let (rest, all) = scan_rolls-score rolls (scan_roll target roll s) (honest h) in
      (ground (arith, one, rest), all)

  -- The near miss that the loop over the weapons finds scores as high as any weapon does, there is one
  -- exactly if some weapon scores, and its score is that of its own weapon.
  pub near_miss_lem :
      (rolls : List OwnedRoll)
      → let best =
          (scan_rolls target rolls
            (record { matched = false; best = none; report = no_matches })).best in
        (score_of best ≡ best_score target rolls) × Honest target best
  near_miss_lem rolls =
      let (s, h) =
        scan_rolls-score rolls (record { matched = false; best = none; report = no_matches }) tt in
      (ground (arith, s), h)
