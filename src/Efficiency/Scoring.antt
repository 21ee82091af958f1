-- ===== src/Efficiency/Scoring.antt =====
-- services/efficiency/scoring.go: the ranking of the buckets by what a player misses. The weights and
-- multipliers are floats that are multiples of a half; they are counted in halves here and a score in
-- quarters, which is exact in the source as well while a score stays below 2^51. `buckets` is the map
-- of the index in the order in which a `range` visits it.
pub mod Best
pub mod Facts
pub mod Order
use guardian_tracker.Prelude.{
  ℕ, ◌+◌, ◌*◌, Bool, true, false, not, ◌&&◌, ◌||◌, List, [], ◌∷◌, map, String, if◌then◌else◌, ◌==◌,
  nat_eq, string_eq, ltb, Assoc, lookup, is_some, has, TextOps, contains, take,
}
use guardian_tracker.Prelude.Sort.{sort_stable}
use guardian_tracker.Sources.{Kind, excluded, vendor, activity}
use guardian_tracker.Efficiency.Index.{Bucket, BucketItem}

-- in halves
abbrev pub weight_exotic : ℕ
weight_exotic = 6

abbrev pub weight_legendary : ℕ
weight_legendary = 2

abbrev pub weight_other : ℕ
weight_other = 1

abbrev pub wishlist_boost : ℕ
wishlist_boost = 5

abbrev pub mult_vendor_now : ℕ
mult_vendor_now = 6

abbrev pub mult_featured : ℕ
mult_featured = 3

abbrev pub mult_base : ℕ
mult_base = 2

abbrev pub max_candidates : ℕ
max_candidates = 6

pub data RankState : Type 0 where
  cold ready : RankState

pub record RankInput : Type 0 where
  pub missing_item_hashes : List ℕ
  pub wishlist_item_hashes : List ℕ
  pub live_availability : Assoc ℕ String
  pub active_milestone_names : List String

pub record RankedCandidate : Type 0 where
  pub source_hash : ℕ
  pub label : String
  pub source_text : String
  pub kind : Kind
  pub missing_count : ℕ
  pub wishlist_count : ℕ
  pub available_now : Bool
  pub featured : Bool

pub record RankResult : Type 0 where
  pub state : RankState
  pub candidates : List RankedCandidate

pub record ScoredCandidate : Type 0 where
  pub candidate : RankedCandidate
  pub score : ℕ

unfoldable pub rarity_weight : String → ℕ
rarity_weight rarity =
    if rarity == "Exotic"
    then weight_exotic
    else if rarity == "Legendary"
    then weight_legendary
    else weight_other

unfoldable pub bucket_multiplier : Bool → Bool → ℕ
bucket_multiplier available_now featured =
    if available_now then mult_vendor_now else if featured then mult_featured else mult_base

-- the loop of `labelIsFeatured`
unfoldable pub any_contains : TextOps → String → List String → Bool
any_contains ops l [] = false
any_contains ops l (milestone ∷ rest) =
    contains (ops.to_lower milestone) l || any_contains ops l rest

unfoldable pub label_is_featured : TextOps → String → List String → Bool
unfolding any_contains
label_is_featured ops label active_milestones =
    let l = ops.to_lower (ops.trim_space label) in
    if l == "" then false else any_contains ops l active_milestones

-- the first loop over a bucket's items: some missing item is available
unfoldable pub any_available : RankInput → List BucketItem → Bool
any_available input [] = false
any_available input (item ∷ items) =
    (has item.item_hash input.missing_item_hashes
      && is_some (lookup item.item_hash input.live_availability))
    || any_available input items

-- What the second loop accumulates.
pub record Tally : Type 0 where
  pub missing_count : ℕ
  pub wishlist_count : ℕ
  pub score : ℕ

unfoldable pub tally_item : RankInput → ℕ → BucketItem → Tally → Tally
unfolding rarity_weight
tally_item input multiplier item t =
    if not (has item.item_hash input.missing_item_hashes)
    then t
    else if has item.item_hash input.wishlist_item_hashes
    then record {
      missing_count = t.missing_count + 1;
      wishlist_count = t.wishlist_count + 1;
      score = t.score + rarity_weight item.rarity * wishlist_boost * multiplier;
    }
    else record t {
      missing_count = t.missing_count + 1;
      score = t.score + rarity_weight item.rarity * multiplier;
    }

unfoldable pub tally : RankInput → ℕ → List BucketItem → Tally → Tally
unfolding tally_item
tally input multiplier [] t = t
tally input multiplier (item ∷ items) t =
    tally input multiplier items (tally_item input multiplier item t)

-- one bucket, as a candidate with its score
unfoldable pub score_bucket : TextOps → RankInput → Bucket → ScoredCandidate
unfolding bucket_multiplier label_is_featured any_available tally
score_bucket ops input bucket =
    let featured = label_is_featured ops bucket.label input.active_milestone_names in
    let available_now = any_available input bucket.items in
    let t =
      tally input (bucket_multiplier available_now featured) bucket.items
        (record { missing_count = 0; wishlist_count = 0; score = 0 }) in
    record {
      candidate = record {
        source_hash = bucket.source_hash;
        label = bucket.label;
        source_text = bucket.source_string;
        kind = bucket.kind;
        missing_count = t.missing_count;
        wishlist_count = t.wishlist_count;
        available_now = available_now;
        featured = featured;
      };
      score = t.score;
    }

abbrev pub is_excluded : Kind → Bool
is_excluded excluded = true
is_excluded vendor = false
is_excluded activity = false

-- the body of the loop over the buckets
unfoldable pub consider : TextOps → RankInput → Bucket → List ScoredCandidate → List ScoredCandidate
unfolding score_bucket
consider ops input bucket rest =
    if is_excluded bucket.kind
    then rest
    else if (score_bucket ops input bucket).candidate.missing_count == 0
    then rest
    else score_bucket ops input bucket ∷ rest

unfoldable pub scored : TextOps → RankInput → List Bucket → List ScoredCandidate
unfolding consider
scored ops input [] = []
scored ops input (bucket ∷ buckets) = consider ops input bucket (scored ops input buckets)

-- the comparison that is handed to `sort.SliceStable`
unfoldable pub comes_first : ScoredCandidate → ScoredCandidate → Bool
comes_first a b =
    if not (a.score == b.score)
    then ltb b.score a.score
    else ltb a.candidate.source_hash b.candidate.source_hash

unfoldable pub top : TextOps → RankInput → List Bucket → List ScoredCandidate
unfolding scored comes_first
top ops input buckets = take max_candidates (sort_stable comes_first (scored ops input buckets))

-- the early return of `Rank` on an empty set of missing items
abbrev pub unless_none : List ℕ → List RankedCandidate → List RankedCandidate
unless_none [] candidates = []
unless_none (h ∷ hs) candidates = candidates

unfoldable pub rank : TextOps → Bool → List Bucket → RankInput → RankResult
unfolding top
rank ops is_ready buckets input =
    if not is_ready then record { state = cold; candidates = [] } else record {
      state = ready;
      candidates =
          unless_none input.missing_item_hashes (map (λ s. s.candidate) (top ops input buckets));
    }
