-- ===== src/Tests/Ranking.antt =====
-- The theorems on sources, the index and the ranking at concrete items.
use mathlib.Core.List.{Permᴰ}
use guardian_tracker.Prelude.{
  ◌++◌, ◌&&◌, ℕ, ◌≡◌, refl, true, false, none, some, List, [], ◌∷◌, ◌⊎◌, ◌≤◌, TextOps, has, lookup,
  length, AllDifferent, nat_eq, string_eq,
}
use guardian_tracker.Sources.{activity, vendor}
use guardian_tracker.Efficiency.Index.{Row, Bucket, build_buckets}
use guardian_tracker.Efficiency.Index.Tracking.{item_hashes, attributes}
use guardian_tracker.Efficiency.Index.Buckets.{build_buckets_lem}
use guardian_tracker.Efficiency.Milestone.{missing_for_milestone}
use guardian_tracker.Efficiency.Milestone.Counting.{drops, any_covered, missing_for_milestone_lem}
use guardian_tracker.Efficiency.Scoring.{RankInput, rank, ScoredCandidate, top, scored}
use guardian_tracker.Efficiency.Scoring.Best.{BestFirst, top_lem}
use guardian_tracker.Efficiency.Scoring.Facts.{AllFrom, rank_lem}
use guardian_tracker.Efficiency.Scoring.Order.{rank-perm}

abbrev plain : TextOps
plain = record { to_lower = λ s. s; trim_space = λ s. s }

abbrev rows : List Row
rows =
    record { hash = 1; item_hash = 11; source_hash = 5; source_string = "raid"; tier_type = some 6 }
    ∷ record { hash = 2; item_hash = 11; source_hash = 5; source_string = "raid"; tier_type = none }
    ∷ []

build_buckets_lem_example :
    let found = lookup 5 (build_buckets plain (λ s. s) rows) in
    ((item : ℕ) → has item (item_hashes found) ≡ attributes 5 item rows)
    × AllDifferent (item_hashes found)
    × ((b : Bucket) → found ≡ some b → b.source_hash ≡ 5)
build_buckets_lem_example = build_buckets_lem plain (λ s. s) rows 5

abbrev raid : Bucket
raid = record {
  source_hash = 5;
  label = "last wish";
  source_string = "last wish raid";
  kind = activity;
  items = record { collectible_hash = 1; item_hash = 11; rarity = "Exotic" } ∷ [];
}

abbrev shop : Bucket
shop = record {
  source_hash = 6;
  label = "xur";
  source_string = "xur";
  kind = vendor;
  items = record { collectible_hash = 2; item_hash = 12; rarity = "Legendary" } ∷ [];
}

abbrev player : RankInput
player = record {
  missing_item_hashes = 11 ∷ 12 ∷ [];
  wishlist_item_hashes = 12 ∷ [];
  live_availability = [];
  active_milestone_names = "last wish" ∷ [];
}

rank_lem_example :
    AllFrom plain player (raid ∷ shop ∷ []) (rank plain true (raid ∷ shop ∷ []) player).candidates
    × (length (rank plain true (raid ∷ shop ∷ []) player).candidates ≤ 6)
    × (true ≡ false → (rank plain true (raid ∷ shop ∷ []) player).candidates ≡ [])
rank_lem_example = rank_lem plain true (raid ∷ shop ∷ []) player

rank-perm_example :
    rank plain true (raid ∷ shop ∷ []) player ≡ rank plain true (shop ∷ raid ∷ []) player
unfolding has
rank-perm_example = rank-perm plain true player (Permᴰ.swap refl refl) (refl, (refl, tt))

missing_for_milestone_lem_example :
    ((items : List ℕ) × AllDifferent items
      × (length items
          ≡ (missing_for_milestone plain true (raid ∷ shop ∷ []) "last wish" (11 ∷ 12 ∷ [])).0)
      × ((h : ℕ)
          → has h items ≡ (has h (11 ∷ 12 ∷ []) && drops plain "last wish" h (raid ∷ shop ∷ []))))
    × ((missing_for_milestone plain true (raid ∷ shop ∷ []) "last wish" (11 ∷ 12 ∷ [])).1
        ≡ any_covered plain "last wish" (raid ∷ shop ∷ []))
missing_for_milestone_lem_example =
    missing_for_milestone_lem plain (raid ∷ shop ∷ []) "last wish" (11 ∷ 12 ∷ []) refl

top_lem_example :
    (left : List ScoredCandidate) × Permᴰ
      (top plain player (raid ∷ shop ∷ []) ++ left)
      (scored plain player (raid ∷ shop ∷ []))
    × BestFirst (top plain player (raid ∷ shop ∷ []) ++ left)
    × ((left ≡ []) ⊎ (length (top plain player (raid ∷ shop ∷ [])) ≡ 6))
    × (length (top plain player (raid ∷ shop ∷ [])) ≤ 6)
top_lem_example = top_lem plain player (raid ∷ shop ∷ [])
