-- ===== src/RollTargets.antt =====
-- services/rolltargets/matching.go: which of the weapons that a player owns have the perks of which of
-- their saved targets. `Matches` reads its targets from a repository and its weapons from a reader; their
-- answers are arguments. `search_strings` is `sort.SearchStrings` of the language's library on a sorted
-- list: the first position whose text is not below the one sought.
pub mod Dim
pub mod NearMisses
pub mod Partition
pub mod Perks
pub mod Service
use Prim.Native.String.{compare}
use Prim.Native.Nat.{Ordering}
use guardian_tracker.Prelude.{
  ℕ, zero, suc, ◌+◌, Bool, true, false, not, ◌&&◌, ◌||◌, Option, none, some, List, [], ◌∷◌, ◌++◌,
  String, if◌then◌else◌, ◌==◌, nat_eq, int_eq, string_eq, ltb, leb, ℤ, has, get_elem?, map,
}
use guardian_tracker.Prelude.TextOrder.{text_below}
use guardian_tracker.Prelude.Results.{Result, ok, err}

pub record OwnedPerkColumn : Type 0 where
  pub socket_index : ℤ
  pub perk : String
  pub possible_perks : List String

pub record OwnedRoll : Type 0 where
  pub item_hash : ℕ
  pub instance_id : String
  pub perks : List String
  pub columns : List OwnedPerkColumn

pub record StoredTarget : Type 0 where
  pub id : ℤ
  pub import_id : String
  pub import_title : String
  pub item_hash : Option ℕ
  pub wanted : Bool
  pub perks : List String
  pub notes : String
  pub created_at : ℕ

pub record Match : Type 0 where
  pub target : StoredTarget
  pub roll : OwnedRoll

pub record NearMiss : Type 0 where
  pub roll : OwnedRoll
  pub matched_perks : List String
  pub matched_columns : ℕ
  pub target_columns : ℕ

pub record UnmatchedTarget : Type 0 where
  pub target : StoredTarget
  pub near_miss : Option NearMiss

pub record MatchReport : Type 0 where
  pub wanted : List Match
  pub unwanted : List Match
  pub unmatched_targets : List UnmatchedTarget

pub data MatchError {ℓ} (E : Type ℓ) : Type ℓ where
  owned_rolls_unavailable : MatchError E
  failed : E → MatchError E

unfoldable pub search_strings : List String → String → ℕ
search_strings [] want = 0
search_strings (x ∷ xs) want =
    let rest = search_strings xs want in if text_below x want then suc rest else 0

abbrev pub is_text : Option String → String → Bool
is_text none want = false
is_text (some x) want = x == want

unfoldable pub contains : List String → String → Bool
unfolding search_strings
contains sorted want = is_text (get_elem? sorted (search_strings sorted want)) want

-- the loop of `containsAll`
unfoldable pub contains_each : List String → List String → Bool
unfolding contains
contains_each owned [] = true
contains_each owned (perk ∷ perks) = contains owned perk && contains_each owned perks

unfoldable pub contains_all : List String → List String → Bool
unfolding contains_each
contains_all owned [] = false
contains_all owned (perk ∷ perks) = contains_each owned (perk ∷ perks)

unfoldable pub target_applies : StoredTarget → OwnedRoll → Bool
target_applies target roll = elim target.item_hash [
  | none ↦ true
  | some item_hash ↦ item_hash == roll.item_hash
]

-- What the loop over the columns has gathered.
pub record Score : Type 0 where
  pub matched_names : List String
  pub seen : List ℤ
  pub matched_columns : ℕ
  pub target_columns : ℕ

-- the loop over a column's possible perks
unfoldable pub any_wanted : List String → List String → Bool
any_wanted wanted [] = false
any_wanted wanted (possible ∷ rest) = has possible wanted || any_wanted wanted rest

unfoldable pub score_column : List String → OwnedPerkColumn → Score → Score
unfolding any_wanted
score_column wanted column s =
    if has column.socket_index s.seen
    then s
    else if not (any_wanted wanted column.possible_perks)
    then record s { seen = column.socket_index ∷ s.seen }
    else if has column.perk wanted
    then record {
      matched_names = column.perk ∷ s.matched_names;
      seen = column.socket_index ∷ s.seen;
      matched_columns = s.matched_columns + 1;
      target_columns = s.target_columns + 1;
    }
    else record s { seen = column.socket_index ∷ s.seen; target_columns = s.target_columns + 1 }

unfoldable pub score_columns : List String → List OwnedPerkColumn → Score → Score
unfolding score_column
score_columns wanted [] s = s
score_columns wanted (column ∷ columns) s =
    score_columns wanted columns (score_column wanted column s)

-- the last loop: the wanted names that were matched, in the target's order
unfoldable pub named : List String → List String → List String
named names [] = []
named names (perk ∷ perks) =
    let rest = named names perks in if has perk names then perk ∷ rest else rest

unfoldable pub score_target_columns : List OwnedPerkColumn → List String → List String × ℕ × ℕ
unfolding score_columns named
score_target_columns columns wanted =
    let s =
      score_columns wanted columns
        (record { matched_names = []; seen = []; matched_columns = 0; target_columns = 0 }) in
    (named s.matched_names wanted, s.matched_columns, s.target_columns)

-- What the loop over the weapons has found for a target.
pub record Scan : Type 0 where
  pub matched : Bool
  pub best : Option NearMiss
  pub report : MatchReport

abbrev pub add_match : StoredTarget → OwnedRoll → MatchReport → MatchReport
add_match target roll report =
    let m : Match = record { target = target; roll = roll } in
    if target.wanted
    then record report { wanted = report.wanted ++ m ∷ [] }
    else record report { unwanted = report.unwanted ++ m ∷ [] }

abbrev pub is_better : ℕ → Option NearMiss → Bool
is_better matched_columns none = true
is_better matched_columns (some best) = ltb best.matched_columns matched_columns

-- the end of the loop's body, for a weapon that is not a match
unfoldable pub better : StoredTarget → OwnedRoll → Option NearMiss → Option NearMiss
unfolding score_target_columns
better target roll best =
    let (matched_perks, matched_columns, target_columns) =
      score_target_columns roll.columns target.perks in
    if ltb 0 matched_columns && ltb matched_columns target_columns && is_better matched_columns best
    then some (record {
      roll = roll;
      matched_perks = matched_perks;
      matched_columns = matched_columns;
      target_columns = target_columns;
    })
    else best

unfoldable pub scan_roll : StoredTarget → OwnedRoll → Scan → Scan
unfolding target_applies contains_all better
scan_roll target roll s =
    if not (target_applies target roll)
    then s
    else if contains_all roll.perks target.perks
    then record s { matched = true; report = add_match target roll s.report }
    else record s { best = better target roll s.best }

unfoldable pub scan_rolls : StoredTarget → List OwnedRoll → Scan → Scan
unfolding scan_roll
scan_rolls target [] s = s
scan_rolls target (roll ∷ rolls) s = scan_rolls target rolls (scan_roll target roll s)

unfoldable pub match_target : List OwnedRoll → StoredTarget → MatchReport → MatchReport
unfolding scan_rolls
match_target rolls target report =
    let s = scan_rolls target rolls (record { matched = false; best = none; report = report }) in
    if not s.matched
    then record s.report {
      unmatched_targets =
          s.report.unmatched_targets ++ record { target = target; near_miss = s.best } ∷ [];
    }
    else s.report

unfoldable pub match_targets : List OwnedRoll → List StoredTarget → MatchReport → MatchReport
unfolding match_target
match_targets rolls [] report = report
match_targets rolls (target ∷ targets) report =
    match_targets rolls targets (match_target rolls target report)

abbrev pub no_matches : MatchReport
no_matches = record { wanted = []; unwanted = []; unmatched_targets = [] }

module _ {ℓ} {E : Type ℓ} where
  abbrev pub join :
      List StoredTarget → Result E (List OwnedRoll) → Result (MatchError E) MatchReport
  join targets (err e) = err (failed e)
  join targets (ok rolls) = ok (match_targets rolls targets no_matches)

  abbrev pub read_owned :
      List StoredTarget → Option (Result E (List OwnedRoll)) → Result (MatchError E) MatchReport
  read_owned [] owned = ok no_matches
  read_owned (t ∷ ts) none = err owned_rolls_unavailable
  read_owned (t ∷ ts) (some rolls) = join (t ∷ ts) rolls

  -- `targets` is the repository's answer, `owned` the reader's; there may be no reader
  unfoldable pub matches :
      Result E (List StoredTarget)
      → Option (Result E (List OwnedRoll))
      → Result (MatchError E) MatchReport
  unfolding match_targets
  matches (err e) owned = err (failed e)
  matches (ok targets) owned = read_owned targets owned
