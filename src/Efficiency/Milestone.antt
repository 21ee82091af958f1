-- ===== src/Efficiency/Milestone.antt =====
-- services/efficiency/milestone.go: how many items a player misses of what a weekly milestone drops.
-- `buckets` is the map of the index in the order in which a `range` visits it.
pub mod Counting
use guardian_tracker.Prelude.{
  ℕ, ◌+◌, Bool, true, false, not, ◌&&◌, ◌||◌, List, [], ◌∷◌, String, if◌then◌else◌, ◌==◌, nat_eq,
  string_eq, has, TextOps, contains,
}
use guardian_tracker.Sources.{Kind, activity, vendor, excluded, is_raid_or_dungeon}
use guardian_tracker.Efficiency.Index.{Bucket, BucketItem}

abbrev is_activity : Kind → Bool
is_activity activity = true
is_activity vendor = false
is_activity excluded = false

-- The variables of the loops.
pub record Count : Type 0 where
  pub count : ℕ
  pub matched : Bool
  pub counted_items : List ℕ

unfoldable pub count_item : List ℕ → BucketItem → Count → Count
count_item missing it c =
    if not (has it.item_hash missing)
    then c
    else if has it.item_hash c.counted_items
    then c
    else record c { counted_items = it.item_hash ∷ c.counted_items; count = c.count + 1 }

unfoldable pub count_items : List ℕ → List BucketItem → Count → Count
unfolding count_item
count_items missing [] c = c
count_items missing (it ∷ items) c = count_items missing items (count_item missing it c)

module _ (ops : TextOps) (name : String) where
  -- the two tests that skip a bucket; `name` is in lower case
  unfoldable pub covers : Bucket → Bool
  covers b =
      is_activity b.kind
      && not (b.label == "")
      && is_raid_or_dungeon ops b.source_string
      && contains name (ops.to_lower b.label)

  unfoldable pub count_buckets : List ℕ → List Bucket → Count → Count
  unfolding covers count_items
  count_buckets missing [] c = c
  count_buckets missing (b ∷ bs) c =
      count_buckets missing bs
        (if covers b then count_items missing b.items (record c { matched = true }) else c)

unfoldable pub missing_for_milestone : TextOps → Bool → List Bucket → String → List ℕ → ℕ × Bool
unfolding count_buckets
missing_for_milestone ops is_ready buckets milestone_name missing =
    if not is_ready || ops.trim_space milestone_name == ""
    then (0, false)
    else let c =
        count_buckets ops (ops.to_lower milestone_name) missing buckets
          (record { count = 0; matched = false; counted_items = [] }) in
      (c.count, c.matched)
