-- ===== src/RollTargets/Partition.antt =====
-- The report of the matches against its meaning, written without the loops.
use guardian_tracker.Prelude.{
  ◌≡◌, refl, sym, ap, ◌∙◌, Bool, true, false, ◌&&◌, ◌||◌, none, List, [], ◌∷◌, ◌++◌, map,
  if◌then◌else◌, arith, Bool-cases, inl, inr,
}
use guardian_tracker.RollTargets.{
  OwnedRoll, StoredTarget, Match, UnmatchedTarget, MatchReport, target_applies, contains_all, Scan,
  add_match, scan_roll, scan_rolls, match_target, match_targets, no_matches,
}

append_assoc {ℓ} : {A : Type ℓ} (xs ys zs : List A) → (xs ++ ys) ++ zs ≡ xs ++ (ys ++ zs)
append_assoc [] ys zs = refl
append_assoc (x ∷ xs) ys zs = ap (λ l. x ∷ l) (append_assoc xs ys zs)

append-nil {ℓ} : {A : Type ℓ} (xs : List A) → xs ++ [] ≡ xs
append-nil [] = refl
append-nil (x ∷ xs) = ap (λ l. x ∷ l) (append-nil xs)

map-append {ℓ κ} :
    {A : Type ℓ} {B : Type κ} (f : A → B) (xs ys : List A) → map f (xs ++ ys) ≡ map f xs ++ map f ys
map-append f [] ys = refl
map-append f (x ∷ xs) ys = ap (λ l. f x ∷ l) (map-append f xs ys)

-- A weapon satisfies a target.
abbrev pub fits : StoredTarget → OwnedRoll → Bool
fits target roll = target_applies target roll && contains_all roll.perks target.perks

-- The matches of a target, in the order of the weapons.
unfoldable pub hits : StoredTarget → List OwnedRoll → List Match
hits target [] = []
hits target (roll ∷ rolls) =
    let rest = hits target rolls in
    if fits target roll then record { target = target; roll = roll } ∷ rest else rest

unfoldable pub any_fits : StoredTarget → List OwnedRoll → Bool
any_fits target [] = false
any_fits target (roll ∷ rolls) = fits target roll || any_fits target rolls

abbrev pub hits_of : Bool → List OwnedRoll → StoredTarget → List Match
hits_of true rolls target = if target.wanted then hits target rolls else []
hits_of false rolls target = if target.wanted then [] else hits target rolls

-- The matches of the wanted targets, or of the unwanted ones.
unfoldable pub all_hits : Bool → List OwnedRoll → List StoredTarget → List Match
all_hits stance rolls [] = []
all_hits stance rolls (target ∷ targets) =
    hits_of stance rolls target ++ all_hits stance rolls targets

-- The targets that no weapon satisfies.
unfoldable pub unsatisfied : List OwnedRoll → List StoredTarget → List StoredTarget
unsatisfied rolls [] = []
unsatisfied rolls (target ∷ targets) =
    let rest = unsatisfied rolls targets in if any_fits target rolls then rest else target ∷ rest

abbrev targets_of : List UnmatchedTarget → List StoredTarget
targets_of us = map (λ u. u.target) us

record Scanned (target : StoredTarget) (rolls : List OwnedRoll) (s s' : Scan) : Type 0 where
  matched : s'.matched ≡ (s.matched || any_fits target rolls)
  wanted : s'.report.wanted ≡ s.report.wanted ++ hits_of true rolls target
  unwanted : s'.report.unwanted ≡ s.report.unwanted ++ hits_of false rolls target
  unmatched : s'.report.unmatched_targets ≡ s.report.unmatched_targets

module _ (target : StoredTarget) where
  scan_roll_skip :
      (roll : OwnedRoll) (s : Scan)
      → fits target roll ≡ false
      → ((scan_roll target roll s).matched ≡ s.matched)
        × ((scan_roll target roll s).report ≡ s.report)
  unfolding scan_roll
  scan_roll_skip roll s h = ground (arith, h)

  scan_roll_hit :
      (roll : OwnedRoll) (s : Scan)
      → fits target roll ≡ true
      → ((scan_roll target roll s).matched ≡ true)
        × ((scan_roll target roll s).report ≡ add_match target roll s.report)
  unfolding scan_roll
  scan_roll_hit roll s h = ground (arith, h)

  scan_rolls-Scanned :
      (rolls : List OwnedRoll) (s : Scan) → Scanned target rolls s (scan_rolls target rolls s)
  unfolding scan_rolls hits any_fits
  scan_rolls-Scanned [] s = record {
    matched = ground arith;
    wanted = ground (arith, append-nil s.report.wanted);
    unwanted = ground (arith, append-nil s.report.unwanted);
    unmatched = refl;
  }
  scan_rolls-Scanned (roll ∷ rolls) s =
      let s1 = scan_roll target roll s in
      let rest = scan_rolls-Scanned rolls s1 in
      elim (Bool-cases (fits target roll)) [
        | inl hit ↦
            let (m, r) = scan_roll_hit roll s hit in
            let new : Match = record { target = target; roll = roll } in
            record {
              matched = ground (arith, rest.matched, m, hit);
              wanted = ground (
                arith,
                rest.wanted,
                ap (λ k. k.wanted) r,
                hit,
                append_assoc s.report.wanted (new ∷ []) (hits target rolls),
                append-nil s.report.wanted,
              );
              unwanted = ground (
                arith,
                rest.unwanted,
                ap (λ k. k.unwanted) r,
                hit,
                append_assoc s.report.unwanted (new ∷ []) (hits target rolls),
                append-nil s.report.unwanted,
              );
              unmatched = ground (arith, rest.unmatched, ap (λ k. k.unmatched_targets) r);
            }
        | inr skip ↦
            let (m, r) = scan_roll_skip roll s skip in
            record {
              matched = ground (arith, rest.matched, m, skip);
              wanted = ground (arith, rest.wanted, ap (λ k. k.wanted) r, skip);
              unwanted = ground (arith, rest.unwanted, ap (λ k. k.unwanted) r, skip);
              unmatched = rest.unmatched ∙ ap (λ k. k.unmatched_targets) r;
            }
      ]

module _ (rolls : List OwnedRoll) where
  abbrev missed : StoredTarget → List StoredTarget
  missed target = if any_fits target rolls then [] else target ∷ []

  record Added (wanted unwanted : List Match) (targets : List StoredTarget) (r r' : MatchReport)
      : Type 0 where
    wanted_added : r'.wanted ≡ r.wanted ++ wanted
    unwanted_added : r'.unwanted ≡ r.unwanted ++ unwanted
    targets_added : targets_of r'.unmatched_targets ≡ targets_of r.unmatched_targets ++ targets

  match_target-Added :
      (target : StoredTarget) (r : MatchReport)
      → Added
          (hits_of true rolls target)
          (hits_of false rolls target)
          (missed target)
          r
          (match_target rolls target r)
  unfolding match_target
  match_target-Added target r =
      let s0 : Scan = record { matched = false; best = none; report = r } in
      let s = scan_rolls target rolls s0 in
      let sc = scan_rolls-Scanned target rolls s0 in
      elim (Bool-cases (any_fits target rolls)) [
        | inl fit ↦
            let m : s.matched ≡ true = ground (arith, sc.matched, fit) in
            rw m (record {
              wanted_added = sc.wanted;
              unwanted_added = sc.unwanted;
              targets_added =
                  rw fit (
                    ap targets_of sc.unmatched ∙ sym (append-nil (targets_of r.unmatched_targets)));
            })
        | inr unfit ↦
            let m : s.matched ≡ false = ground (arith, sc.matched, unfit) in
            rw m (record {
              wanted_added = sc.wanted;
              unwanted_added = sc.unwanted;
              targets_added = rw unfit (
                  map-append (λ u. u.target) s.report.unmatched_targets _
                  ∙ ap (λ us. targets_of us ++ target ∷ []) sc.unmatched);
            })
      ]

  missed-unsatisfied :
      (t : StoredTarget) (ts : List StoredTarget)
      → missed t ++ unsatisfied rolls ts ≡ unsatisfied rolls (t ∷ ts)
  unfolding unsatisfied
  missed-unsatisfied t ts = ground arith

  match_targets-Added :
      (targets : List StoredTarget) (r : MatchReport)
      → Added
          (all_hits true rolls targets)
          (all_hits false rolls targets)
          (unsatisfied rolls targets)
          r
          (match_targets rolls targets r)
  unfolding match_targets all_hits unsatisfied
  match_targets-Added [] r = record {
    wanted_added = sym (append-nil r.wanted);
    unwanted_added = sym (append-nil r.unwanted);
    targets_added = sym (append-nil (targets_of r.unmatched_targets));
  }
  match_targets-Added (target ∷ targets) r =
      let first = match_target-Added target r in
      let rest = match_targets-Added targets (match_target rolls target r) in
      record {
        wanted_added =
            rest.wanted_added
            ∙ ap (λ l. l ++ all_hits true rolls targets) first.wanted_added
            ∙ append_assoc r.wanted (hits_of true rolls target) (all_hits true rolls targets);
        unwanted_added =
            rest.unwanted_added
            ∙ ap (λ l. l ++ all_hits false rolls targets) first.unwanted_added
            ∙ append_assoc r.unwanted (hits_of false rolls target) (all_hits false rolls targets);
        targets_added =
            rest.targets_added
            ∙ ap (λ l. l ++ unsatisfied rolls targets) first.targets_added
            ∙ append_assoc (targets_of r.unmatched_targets) (missed target)
                (unsatisfied rolls targets)
            ∙ ap (λ l. targets_of r.unmatched_targets ++ l) (missed-unsatisfied target targets);
      }

  -- The report says what it means to say: under the wanted targets it lists the owned weapons that
  -- satisfy them, target by target and in the order of the weapons, under the unwanted ones likewise, and
  -- as unmatched exactly the targets that no weapon satisfies, in their order.
  pub match_targets_lem :
      (targets : List StoredTarget)
      → let report = match_targets rolls targets no_matches in
        (report.wanted ≡ all_hits true rolls targets)
        × (report.unwanted ≡ all_hits false rolls targets)
        × (map (λ u. u.target) report.unmatched_targets ≡ unsatisfied rolls targets)
  match_targets_lem targets =
      let a = match_targets-Added targets no_matches in
      (a.wanted_added, a.unwanted_added, a.targets_added)
