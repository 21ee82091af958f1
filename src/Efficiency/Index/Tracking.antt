-- ===== src/Efficiency/Index/Tracking.antt =====
-- What filing one item does to the buckets and to the items that a source has shown.
use guardian_tracker.Prelude.{
  ℕ, ◌≡◌, refl, sym, ap, ◌∙◌, Bool, true, false, ◌&&◌, ◌||◌, Option, none, some, List, [], ◌∷◌,
  ◌++◌, map, ◌==◌, nat_eq, Assoc, lookup, insert, has, arith, lookup-insert, beq_refl, AllDifferent,
  has-append, AllDifferent-snoc, inl, inr, Bool-cases, beq→eq,
}
use mathlib.Core.List.{map-append}
use guardian_tracker.Efficiency.Index.{
  BucketItem, Bucket, Row, Building, bucket_item, add_item, or_empty,
}

abbrev pub items_of : Option Bucket → List BucketItem
items_of none = []
items_of (some b) = b.items

abbrev pub item_hashes : Option Bucket → List ℕ
item_hashes o = map (λ i. i.item_hash) (items_of o)

-- Some row attributes the item to the source.
unfoldable pub attributes : ℕ → ℕ → List Row → Bool
attributes source item [] = false
attributes source item (row ∷ rows) =
    (row.source_hash == source && row.item_hash == item) || attributes source item rows

-- What the loop knows of one source: the set of seen items is the set of the bucket's items, no item
-- stands twice, and the bucket is filed under its own hash.
pub record Tracks (source : ℕ) (st : Building) : Type 0 where
  pub same :
      (h : ℕ)
      → has h (or_empty (lookup source st.seen_items))
        ≡ has h (item_hashes (lookup source st.buckets))
  pub different : AllDifferent (item_hashes (lookup source st.buckets))
  pub filed : (b : Bucket) → lookup source st.buckets ≡ some b → b.source_hash ≡ source

abbrev pub hashes_of : Bucket → List ℕ
hashes_of b = map (λ i. i.item_hash) b.items

pub hashes_of-snoc :
    (row : Row) (xs : List BucketItem)
    → map (λ i. i.item_hash) (xs ++ bucket_item row ∷ [])
      ≡ map (λ i. i.item_hash) xs ++ row.item_hash ∷ []
hashes_of-snoc row xs = map-append _ xs _

pub lookup-insert_self {ℓ} :
    {V : Type ℓ} (k : ℕ) (v : V) (m : Assoc ℕ V) → lookup k (insert k v m) ≡ some v
lookup-insert_self k v m = rw (lookup-insert, beq_refl k) refl

-- A set with an element that it holds, and with one that it does not.
pub has_again :
    (x : ℕ) (xs : List ℕ) → has x xs ≡ true → (h : ℕ) → has h xs ≡ ((x == h) || has h xs)
has_again x xs old h = elim (Bool-cases (x == h)) [
  | inl here ↦ let e : x ≡ h = beq→eq x h here in rw here (rw e at old)
  | inr other ↦ rw other refl
]

pub has_snoc : (x h : ℕ) (xs : List ℕ) → has h (xs ++ x ∷ []) ≡ ((x == h) || has h xs)
unfolding has
has_snoc x h xs = ground (arith, has-append h xs (x ∷ []))

module _ (row : Row) (b : Bucket) (st : Building) where
  abbrev seen : List ℕ
  seen = or_empty (lookup row.source_hash st.seen_items)

  abbrev fuller : Bucket
  fuller = record b { items = b.items ++ bucket_item row ∷ [] }

  pub appended :
      lookup row.source_hash st.buckets ≡ some b
      → Tracks row.source_hash st
      → has row.item_hash seen ≡ false
      → let st' : Building = record {
        buckets = insert row.source_hash fuller st.buckets;
        seen_items = insert row.source_hash (row.item_hash ∷ seen) st.seen_items;
      } in
        Tracks row.source_hash st'
        × ((h : ℕ)
            → has h (item_hashes (lookup row.source_hash st'.buckets))
              ≡ ((row.item_hash == h) || has h (item_hashes (lookup row.source_hash st.buckets))))
  unfolding has
  appended held t new =
      let eb = lookup-insert_self row.source_hash fuller st.buckets in
      let es = lookup-insert_self row.source_hash (row.item_hash ∷ seen) st.seen_items in
      let same : (h : ℕ) → has h seen ≡ has h (hashes_of b) =
        λ h. t.same h ∙ ap (λ o. has h (item_hashes o)) held in
      (
        record {
          same = λ h. rw (eb, es, hashes_of-snoc, has_snoc, same h) refl;
          different =
              rw (eb, hashes_of-snoc)
                (AllDifferent-snoc row.item_hash (hashes_of b) (sym (same row.item_hash) ∙ new)
                  (rw held at t.different));
          filed = λ c e. ground (arith, eb, t.filed b held);
        },
        λ h. rw (eb, hashes_of-snoc, has_snoc, held) refl,
      )

  -- One item more, into the bucket that the map holds.
  pub add_item-Tracks :
      lookup row.source_hash st.buckets ≡ some b
      → Tracks row.source_hash st
      → Tracks row.source_hash (add_item row b st)
        × ((h : ℕ)
            → has h (item_hashes (lookup row.source_hash (add_item row b st).buckets))
              ≡ ((row.item_hash == h) || has h (item_hashes (lookup row.source_hash st.buckets))))
  unfolding add_item
  add_item-Tracks held t =
      elim (Bool-cases (has row.item_hash (or_empty (lookup row.source_hash st.seen_items)))) [
        | inl old ↦
            rw (add_item, old) (t, has_again row.item_hash _ (sym (t.same row.item_hash) ∙ old))
        | inr new ↦ rw (add_item, new) (appended held t new)
      ]

  pub add_item-other :
      (source : ℕ)
      → (row.source_hash == source) ≡ false
      → (lookup source (add_item row b st).buckets ≡ lookup source st.buckets)
        × (lookup source (add_item row b st).seen_items ≡ lookup source st.seen_items)
  unfolding add_item
  add_item-other source other =
      elim (Bool-cases (has row.item_hash (or_empty (lookup row.source_hash st.seen_items)))) [
        | inl old ↦ rw (old, add_item) (refl, refl)
        | inr new ↦
            rw (new, add_item) (rw (lookup-insert, other) refl, rw (lookup-insert, other) refl)
      ]
