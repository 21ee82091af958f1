-- ===== src/Tests/Advice.antt =====
-- The theorems on recommendations and roll targets at concrete weapons.
use guardian_tracker.Prelude.{
  ℕ, ◌<◌, ◌≤◌, ◌≡◌, refl, Bool, true, false, Option, none, some, List, [], ◌∷◌, map, String, arith,
  TextOps, length, pos, has, contains,
}
use guardian_tracker.Sources.{activity}
use guardian_tracker.Efficiency.Index.{Bucket}
use guardian_tracker.Efficiency.Scoring.{rank}
use guardian_tracker.Recommendations.{Input, recommend, as_rank_input}
use guardian_tracker.Recommendations.Outcomes.{ids, ranked_id, recommend-rank}
use guardian_tracker.RollTargets.{OwnedRoll, StoredTarget, match_targets, no_matches, scan_rolls}
use guardian_tracker.RollTargets.Partition.{all_hits, unsatisfied, match_targets_lem}
use guardian_tracker.RollTargets.NearMisses.{near_miss_lem, best_score, score_of, Honest}

abbrev plain : TextOps
plain = record { to_lower = λ s. s; trim_space = λ s. s }

-- one digit is enough here
abbrev print : ℕ → String
print n = "5"

abbrev raid : Bucket
raid = record {
  source_hash = 5;
  label = "last wish";
  source_string = "last wish raid";
  kind = activity;
  items = record { collectible_hash = 1; item_hash = 11; rarity = "Exotic" } ∷ [];
}

abbrev input : Input
input = record {
  missing_item_hashes = 11 ∷ 12 ∷ [];
  wishlist_item_hashes = 12 ∷ [];
  live_availability = [];
  active_milestone_names = [];
  xur_present = true;
  xur_items = record { hash = 12; name = "cloak"; type_name = "armor" } ∷ [];
}

recommend-rank_example :
    (ids plain print (recommend plain print (some (rank plain true (raid ∷ []))) input)
      ≡ map (ranked_id plain print) (rank plain true (raid ∷ []) (as_rank_input input)).candidates)
    × (length (recommend plain print (some (rank plain true (raid ∷ []))) input) ≤ 6)
unfolding rank has guardian_tracker.Prelude.Sort.sort_stable
recommend-rank_example = recommend-rank plain print true (raid ∷ []) input (omega arith)

abbrev cannon : OwnedRoll
cannon = record {
  item_hash = 7;
  instance_id = "i1";
  perks = "explosive" ∷ "outlaw" ∷ [];
  columns =
      record {
        socket_index = pos 1;
        perk = "explosive";
        possible_perks = "explosive" ∷ "rampage" ∷ [];
      }
      ∷ record { socket_index = pos 2; perk = "outlaw"; possible_perks = "outlaw" ∷ "rapid" ∷ [] }
      ∷ [];
}

abbrev goal : StoredTarget
goal = record {
  id = pos 1;
  import_id = "";
  import_title = "";
  item_hash = some 7;
  wanted = true;
  perks = "explosive" ∷ "rapid" ∷ [];
  notes = "";
  created_at = 0;
}

abbrev held : StoredTarget
held = record goal { id = pos 2; perks = "outlaw" ∷ [] }

match_targets_lem_example :
    ((match_targets (cannon ∷ []) (goal ∷ held ∷ []) no_matches).wanted
      ≡ all_hits true (cannon ∷ []) (goal ∷ held ∷ []))
    × ((match_targets (cannon ∷ []) (goal ∷ held ∷ []) no_matches).unwanted
        ≡ all_hits false (cannon ∷ []) (goal ∷ held ∷ []))
    × (map
          (λ u. u.target)
          (match_targets (cannon ∷ []) (goal ∷ held ∷ []) no_matches).unmatched_targets
        ≡ unsatisfied (cannon ∷ []) (goal ∷ held ∷ []))
match_targets_lem_example = match_targets_lem (cannon ∷ []) (goal ∷ held ∷ [])

near_miss_lem_example :
    let best =
      (scan_rolls goal
        (cannon ∷ [])
        (record { matched = false; best = none; report = no_matches })).best in
    (score_of best ≡ best_score goal (cannon ∷ [])) × Honest goal best
near_miss_lem_example = near_miss_lem goal (cannon ∷ [])
