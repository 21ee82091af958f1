-- ===== src/Recommendations.antt =====
-- services/recommendations/planner.go: what a player is advised to do next. Copies of the input are the
-- input itself here, since nothing writes to them. `number` is the decimal print of `fmt`, and a ranker
-- is the method `Rank`.
pub mod Outcomes
use Prim.Native.String.{◌++◌}
use guardian_tracker.Prelude.{
  ℕ, zero, suc, ◌+◌, Bool, true, false, Option, none, some, List, [], ◌∷◌, String, if◌then◌else◌,
  ◌==◌, nat_eq, ltb, Assoc, TextOps, has,
}
use guardian_tracker.Sources
use guardian_tracker.Sources.{DifficultyTier, easy, moderate, difficulty}
use guardian_tracker.Efficiency.Scoring.{
  RankInput, RankResult, RankState, ready, cold, RankedCandidate,
}

pub data Kind : Type 0 where
  kind_activity kind_vendor kind_weekly : Kind

pub data Emphasis : Type 0 where
  on_activity on_vendor on_available_now on_wishlist on_xur on_weekly : Emphasis

pub record XurItem : Type 0 where
  pub hash : ℕ
  pub name : String
  pub type_name : String

pub record Input : Type 0 where
  pub missing_item_hashes : List ℕ
  pub wishlist_item_hashes : List ℕ
  pub live_availability : Assoc ℕ String
  pub active_milestone_names : List String
  pub xur_present : Bool
  pub xur_items : List XurItem

pub record Recommendation : Type 0 where
  pub id : String
  pub action : String
  pub explanation : String
  pub kind : Kind
  pub source_text : String
  pub difficulty : DifficultyTier
  pub emphasis : Emphasis
  pub time_estimate : String

-- the kind, the verb and the emphasis; an excluded source has none
abbrev pub presentation : Sources.Kind → Option (Kind × String × Emphasis)
presentation Sources.activity = some (kind_activity, "Run", on_activity)
presentation Sources.vendor = some (kind_vendor, "Visit", on_vendor)
presentation Sources.excluded = none

-- the early answers of `Recommend`: an empty list goes on to the next
abbrev pub or_else {ℓ} : {A : Type ℓ} → List A → List A → List A
or_else [] next = next
or_else (x ∷ xs) next = x ∷ xs

abbrev pub as_rank_input : Input → RankInput
as_rank_input input = record {
  missing_item_hashes = input.missing_item_hashes;
  wishlist_item_hashes = input.wishlist_item_hashes;
  live_availability = input.live_availability;
  active_milestone_names = input.active_milestone_names;
}

unfoldable pub weekly_fallback : Recommendation
weekly_fallback = record {
  id = "r-milestones";
  action = "Complete weekly milestones before reset";
  explanation = "Earn pinnacle gear and XP before Tuesday 17:00 UTC";
  kind = kind_weekly;
  source_text = "";
  difficulty = moderate;
  emphasis = on_weekly;
  time_estimate = "2-3 hrs";
}

module _ (ops : TextOps) (number : ℕ → String) where
  unfoldable pub explanation : ℕ → ℕ → Bool → String
  explanation missing_count wishlist_count available_now =
      let plural = if missing_count == 1 then "" else "s" in
      let why = "Fills " ++ number missing_count ++ " missing item" ++ plural in
      let why' =
        if ltb 0 wishlist_count
        then why ++ ", " ++ number wishlist_count ++ " on your wishlist"
        else why in
      if available_now then why' ++ " — available now" else why'

  abbrev pub emphasis_of : RankedCandidate → Emphasis → Emphasis
  emphasis_of candidate emphasis =
      if candidate.available_now
      then on_available_now
      else if ltb 0 candidate.wishlist_count
      then on_wishlist
      else emphasis

  abbrev pub outcome : RankedCandidate → Kind × String × Emphasis → Recommendation
  outcome candidate (kind, verb, emphasis) = record {
    id = "eff-" ++ number candidate.source_hash;
    action = verb ++ " " ++ candidate.label;
    explanation =
        explanation candidate.missing_count candidate.wishlist_count candidate.available_now;
    kind = kind;
    source_text = candidate.source_text;
    difficulty = difficulty ops candidate.source_text;
    emphasis = emphasis_of candidate emphasis;
    time_estimate = "";
  }

  abbrev pub add_outcome :
      RankedCandidate
      → Option (Kind × String × Emphasis)
      → List Recommendation
      → List Recommendation
  add_outcome candidate none rest = rest
  add_outcome candidate (some p) rest = outcome candidate p ∷ rest

  unfoldable pub ranked_recommendations : List RankedCandidate → List Recommendation
  ranked_recommendations [] = []
  ranked_recommendations (candidate ∷ candidates) =
      add_outcome candidate (presentation candidate.kind) (ranked_recommendations candidates)

  abbrev pub buy : String → ℕ → XurItem → String → Emphasis → Recommendation
  buy prefix i item why emphasis = record {
    id = prefix ++ number i;
    action = "Buy " ++ item.name ++ " from Xûr";
    explanation = item.type_name ++ why;
    kind = kind_vendor;
    source_text = "Xûr";
    difficulty = easy;
    emphasis = emphasis;
    time_estimate = "5 min";
  }

  unfoldable pub xur_outcome : Input → ℕ → XurItem → Option Recommendation
  xur_outcome input i item =
      if has item.hash input.wishlist_item_hashes
      then some (buy "r-wl-" i item " — on your wishlist and available now" on_wishlist)
      else if has item.hash input.missing_item_hashes
      then some (buy "r-xur-" i item " — missing from your collection" on_xur)
      else none

  abbrev pub add_item : Option Recommendation → List Recommendation → List Recommendation
  add_item none rest = rest
  add_item (some r) rest = r ∷ rest

  abbrev pub room_after : ℕ → Option Recommendation → ℕ
  room_after room none = suc room
  room_after room (some r) = room

  -- the loop from the item at `i`, with room for so many more
  unfoldable pub xur_loop : Input → ℕ → ℕ → List XurItem → List Recommendation
  unfolding xur_outcome
  xur_loop input i room [] = []
  xur_loop input i zero (item ∷ items) = []
  xur_loop input i (suc room) (item ∷ items) =
      let found = xur_outcome input i item in
      add_item found (xur_loop input (i + 1) (room_after room found) items)

  unfoldable pub xur_fallback : Input → List Recommendation
  unfolding xur_loop
  xur_fallback input = if input.xur_present then xur_loop input 0 5 input.xur_items else []

  abbrev pub from_rank : RankResult → List Recommendation
  from_rank result = elim result.state [
    | ready ↦ ranked_recommendations result.candidates
    | cold ↦ []
  ]

  -- without a ranker there is nothing ranked
  abbrev pub ranked_outcomes : Option (RankInput → RankResult) → Input → List Recommendation
  ranked_outcomes none input = []
  ranked_outcomes (some rank) input = from_rank (rank (as_rank_input input))

  unfoldable pub recommend : Option (RankInput → RankResult) → Input → List Recommendation
  unfolding ranked_recommendations xur_fallback weekly_fallback
  recommend ranker input =
      or_else (ranked_outcomes ranker input) (or_else (xur_fallback input) (weekly_fallback ∷ []))
