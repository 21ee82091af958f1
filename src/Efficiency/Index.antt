-- ===== src/Efficiency/Index.antt =====
-- services/efficiency/index.go and classify.go: the buckets of items by source. `clean_label` is the
-- regular expression of classify.go, which the language's library runs.
pub mod Buckets
pub mod Tracking
use guardian_tracker.Prelude.{
  ℕ, Bool, true, false, Option, none, some, List, [], ◌∷◌, ◌++◌, String, if◌then◌else◌, ◌==◌,
  nat_eq, Assoc, lookup, insert, has, TextOps,
}
use guardian_tracker.Sources.{Kind, action_kind}

pub record BucketItem : Type 0 where
  pub collectible_hash : ℕ
  pub item_hash : ℕ
  pub rarity : String

pub record Bucket : Type 0 where
  pub source_hash : ℕ
  pub label : String
  pub source_string : String
  pub kind : Kind
  pub items : List BucketItem

-- `manifest.CollectibleWithItem`, as far as the index reads it; `tier_type` is `none` for a nil item
pub record Row : Type 0 where
  pub hash : ℕ
  pub item_hash : ℕ
  pub source_hash : ℕ
  pub source_string : String
  pub tier_type : Option ℕ

-- `bungie.GetTierName`
unfoldable pub get_tier_name : ℕ → String
get_tier_name tier_type =
    if tier_type == 6
    then "Exotic"
    else if tier_type == 5
    then "Legendary"
    else if tier_type == 4
    then "Rare"
    else if tier_type == 3
    then "Uncommon"
    else "Common"

-- The two maps of `buildBuckets`.
pub record Building : Type 0 where
  pub buckets : Assoc ℕ Bucket
  pub seen_items : Assoc ℕ (List ℕ)

abbrev pub rarity_of : Option ℕ → String
rarity_of none = ""
rarity_of (some tier_type) = get_tier_name tier_type

abbrev pub or_empty : Option (List ℕ) → List ℕ
or_empty none = []
or_empty (some xs) = xs

abbrev pub bucket_item : Row → BucketItem
bucket_item row = record {
  collectible_hash = row.hash;
  item_hash = row.item_hash;
  rarity = rarity_of row.tier_type;
}

-- the item is appended to the bucket unless the source has shown it before
unfoldable pub add_item : Row → Bucket → Building → Building
add_item row b st =
    let seen = or_empty (lookup row.source_hash st.seen_items) in
    if has row.item_hash seen then st else record {
      buckets =
          insert row.source_hash (record b { items = b.items ++ bucket_item row ∷ [] }) st.buckets;
      seen_items = insert row.source_hash (row.item_hash ∷ seen) st.seen_items;
    }

module _ (ops : TextOps) (clean_label : String → String) where
  abbrev pub new_bucket : Row → Bucket
  new_bucket row = record {
    source_hash = row.source_hash;
    label = clean_label row.source_string;
    source_string = row.source_string;
    kind = action_kind ops row.source_hash row.source_string;
    items = [];
  }

  -- the bucket of the row's source, made at its first row
  unfoldable pub with_bucket : Row → Building → Bucket × Building
  with_bucket row st = elim (lookup row.source_hash st.buckets) [
    | some b ↦ (b, st)
    | none ↦ (
      new_bucket row,
      record {
        buckets = insert row.source_hash (new_bucket row) st.buckets;
        seen_items = insert row.source_hash [] st.seen_items;
      },
    )
  ]

  -- the body of the loop
  unfoldable pub add_row : Row → Building → Building
  unfolding with_bucket add_item
  add_row row st = let (b, st') = with_bucket row st in add_item row b st'

  unfoldable pub add_rows : List Row → Building → Building
  add_rows [] st = st
  add_rows (row ∷ rows) st = add_rows rows (add_row row st)

  unfoldable pub build_buckets : List Row → Assoc ℕ Bucket
  unfolding add_rows
  build_buckets rows = (add_rows rows (record { buckets = []; seen_items = [] })).buckets
