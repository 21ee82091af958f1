-- ===== src/Efficiency/Index/Buckets.antt =====
-- What the buckets hold.
use guardian_tracker.Prelude.{
  ℕ, ◌≡◌, refl, sym, ◌∙◌, false, ◌&&◌, ◌||◌, none, some, List, [], ◌∷◌, String, ◌==◌, nat_eq,
  lookup, insert, has, TextOps, arith, lookup-insert, AllDifferent, Option-cases, inl, inr,
  Bool-cases, beq→eq,
}
use guardian_tracker.Efficiency.Index.{
  Bucket, Row, Building, new_bucket, with_bucket, add_row, add_rows, build_buckets,
}
use guardian_tracker.Efficiency.Index.Tracking.{
  item_hashes, attributes, Tracks, lookup-insert_self, add_item-Tracks, add_item-other,
}

module _ (ops : TextOps) (clean_label : String → String) (row : Row) (st : Building) where
  with_bucket_hit :
      (b : Bucket)
      → lookup row.source_hash st.buckets ≡ some b
      → with_bucket ops clean_label row st ≡ (b, st)
  unfolding with_bucket
  with_bucket_hit b found = rw (found, with_bucket) refl

  abbrev opened : Building
  opened = record {
    buckets = insert row.source_hash (new_bucket ops clean_label row) st.buckets;
    seen_items = insert row.source_hash [] st.seen_items;
  }

  with_bucket_miss :
      lookup row.source_hash st.buckets ≡ none
      → with_bucket ops clean_label row st ≡ (new_bucket ops clean_label row, opened)
  unfolding with_bucket
  with_bucket_miss missing = rw (missing, with_bucket) refl

  opened-Tracks : Tracks row.source_hash opened
  unfolding has
  opened-Tracks =
      let eb = lookup-insert_self row.source_hash (new_bucket ops clean_label row) st.buckets in
      let es = lookup-insert_self {V = List ℕ} row.source_hash [] st.seen_items in
      record {
        same = λ h. rw (eb, es) refl;
        different = rw eb tt;
        filed = λ c e. ground (arith, eb);
      }

  -- At the row's own source.
  add_row-Tracks_self :
      Tracks row.source_hash st
      → Tracks row.source_hash (add_row ops clean_label row st)
        × ((h : ℕ)
            → has h (item_hashes (lookup row.source_hash (add_row ops clean_label row st).buckets))
              ≡ ((row.item_hash == h) || has h (item_hashes (lookup row.source_hash st.buckets))))
  unfolding add_row
  add_row-Tracks_self t = elim (Option-cases (lookup row.source_hash st.buckets)) [
    | inr (b, found) ↦ rw (add_row, with_bucket_hit b found) (add_item-Tracks row b st found t)
    | inl missing ↦
        let nb = new_bucket ops clean_label row in
        let eb = lookup-insert_self row.source_hash nb st.buckets in
        let (t', grown) = add_item-Tracks row nb opened eb opened-Tracks in
        rw (add_row, with_bucket_miss missing) (t', λ h. grown h ∙ rw (eb, missing) refl)
  ]

  -- At any other source.
  add_row-other :
      (source : ℕ)
      → (row.source_hash == source) ≡ false
      → (lookup source (add_row ops clean_label row st).buckets ≡ lookup source st.buckets)
        × (lookup source (add_row ops clean_label row st).seen_items ≡ lookup source st.seen_items)
  unfolding add_row
  add_row-other source other = elim (Option-cases (lookup row.source_hash st.buckets)) [
    | inr (b, found) ↦ rw (add_row, with_bucket_hit b found) (add_item-other row b st source other)
    | inl missing ↦
        let nb = new_bucket ops clean_label row in
        let (eb, es) = add_item-other row nb opened source other in
        rw (add_row, with_bucket_miss missing)
          (eb ∙ rw (lookup-insert, other) refl, es ∙ rw (lookup-insert, other) refl)
  ]

  add_row-Tracks :
      (source : ℕ)
      → Tracks source st
      → Tracks source (add_row ops clean_label row st)
        × ((h : ℕ)
            → has h (item_hashes (lookup source (add_row ops clean_label row st).buckets)) ≡ (
                ((row.source_hash == source) && (row.item_hash == h))
                || has h (item_hashes (lookup source st.buckets))))
  add_row-Tracks source t = elim (Bool-cases (row.source_hash == source)) [
    | inl here ↦
        let e : source ≡ row.source_hash = sym (beq→eq row.source_hash source here) in
        let (t', grown) = add_row-Tracks_self (rw e at t) in
        (rw e t', λ h. rw here (rw e (grown h)))
    | inr other ↦
        let (eb, es) = add_row-other source other in
        (
          record {
            same = λ h. rw (eb, es) (t.same h);
            different = rw eb t.different;
            filed = λ b. rw eb (t.filed b);
          },
          λ h. rw (eb, other) refl,
        )
  ]

module _ (ops : TextOps) (clean_label : String → String) where
  add_rows-Tracks :
      (rows : List Row) (source : ℕ) (st : Building)
      → Tracks source st
      → Tracks source (add_rows ops clean_label rows st)
        × ((h : ℕ)
            → has h (item_hashes (lookup source (add_rows ops clean_label rows st).buckets))
              ≡ (attributes source h rows || has h (item_hashes (lookup source st.buckets))))
  unfolding add_rows attributes
  add_rows-Tracks [] source st t = (t, λ h. refl)
  add_rows-Tracks (row ∷ rows) source st t =
      let (t', grown) = add_row-Tracks ops clean_label row st source t in
      let (t'', all) = add_rows-Tracks rows source (add_row ops clean_label row st) t' in
      (t'', λ h. ground (arith, all h, grown h))

  -- The bucket of a source holds exactly the items that some row attributes to the source, each once,
  -- and carries the source's own hash; a source that no row names has no items.
  pub build_buckets_lem :
      (rows : List Row) (source : ℕ)
      → let found = lookup source (build_buckets ops clean_label rows) in
        ((item : ℕ) → has item (item_hashes found) ≡ attributes source item rows)
        × AllDifferent (item_hashes found)
        × ((b : Bucket) → found ≡ some b → b.source_hash ≡ source)
  unfolding build_buckets lookup has
  build_buckets_lem rows source =
      let (t, all) =
        add_rows-Tracks rows source (record { buckets = []; seen_items = [] })
          (record { same = λ h. refl; different = tt; filed = λ b e. cc }) in
      (λ item. ground (arith, all item), t.different, t.filed)
