-- ===== src/Efficiency/Milestone/Counting.antt =====
-- What the number of a milestone counts.
use guardian_tracker.Prelude.{
  ℕ, ◌≡◌, refl, sym, ap, ◌∙◌, Bool, true, false, ◌&&◌, ◌||◌, List, [], ◌∷◌, String, ◌==◌, nat_eq,
  string_eq, has, TextOps, arith, AllDifferent, length, Bool-cases, inl, inr, beq→eq,
}
use guardian_tracker.Efficiency.Index.{Bucket, BucketItem}
use guardian_tracker.Efficiency.Milestone.{
  Count, count_item, count_items, covers, count_buckets, missing_for_milestone,
}

unfoldable pub has_item : ℕ → List BucketItem → Bool
has_item h [] = false
has_item h (it ∷ items) = it.item_hash == h || has_item h items

-- An item is in a bucket that the milestone covers.
unfoldable pub drops : TextOps → String → ℕ → List Bucket → Bool
drops ops name h [] = false
drops ops name h (b ∷ bs) = covers ops name b && has_item h b.items || drops ops name h bs

unfoldable pub any_covered : TextOps → String → List Bucket → Bool
any_covered ops name [] = false
any_covered ops name (b ∷ bs) = covers ops name b || any_covered ops name bs

record Tallied (c : Count) : Type 0 where
  different : AllDifferent c.counted_items
  numbered : length c.counted_items ≡ c.count

same_has : (a h : ℕ) (xs : List ℕ) → (a == h) ≡ true → has h xs ≡ has a xs
same_has a h xs e = ap (λ k. has k xs) (sym (beq→eq a h e))

module _ (missing : List ℕ) where
  count_item-Tallied :
      (it : BucketItem) (c : Count) (h : ℕ)
      → Tallied c
      → Tallied (count_item missing it c)
        × (has h (count_item missing it c).counted_items
            ≡ ((has h missing && (it.item_hash == h)) || has h c.counted_items))
        × ((count_item missing it c).matched ≡ c.matched)
  unfolding count_item has
  count_item-Tallied it c h t = elim (Bool-cases (has it.item_hash missing)) [
    | inr held ↦
        rw (held, count_item) (t, ground (arith, held, same_has it.item_hash h missing), refl)
    | inl wanted ↦ elim (Bool-cases (has it.item_hash c.counted_items)) [
      | inl again ↦
          rw (wanted, again, count_item)
            (t, ground (arith, again, same_has it.item_hash h c.counted_items), refl)
      | inr new ↦
          rw (wanted, new, count_item)
            (
              record { different = (new, t.different); numbered = omega (arith, t.numbered) },
              ground (arith, wanted, same_has it.item_hash h missing),
              refl,
            )
    ]
  ]

  count_items-Tallied :
      (items : List BucketItem) (c : Count) (h : ℕ)
      → Tallied c
      → Tallied (count_items missing items c)
        × (has h (count_items missing items c).counted_items
            ≡ ((has h missing && has_item h items) || has h c.counted_items))
        × ((count_items missing items c).matched ≡ c.matched)
  unfolding count_items has_item
  count_items-Tallied [] c h t = (t, ground arith, refl)
  count_items-Tallied (it ∷ items) c h t =
      let (t1, h1, m1) = count_item-Tallied it c h t in
      let (t2, h2, m2) = count_items-Tallied items (count_item missing it c) h t1 in
      (t2, ground (arith, h1, h2), m2 ∙ m1)

  module _ (ops : TextOps) (name : String) where
    count_buckets-Tallied :
        (bs : List Bucket) (c : Count) (h : ℕ)
        → Tallied c
        → Tallied (count_buckets ops name missing bs c)
          × (has h (count_buckets ops name missing bs c).counted_items
              ≡ ((has h missing && drops ops name h bs) || has h c.counted_items))
          × ((count_buckets ops name missing bs c).matched ≡ (c.matched || any_covered ops name bs))
    unfolding count_buckets drops any_covered
    count_buckets-Tallied [] c h t = (t, ground arith, ground arith)
    count_buckets-Tallied (b ∷ bs) c h t = elim (Bool-cases (covers ops name b)) [
      | inl covered ↦
          let c0 = record c { matched = true } in
          let (t1, h1, m1) =
            count_items-Tallied b.items c0 h
              (record { different = t.different; numbered = t.numbered }) in
          let (t2, h2, m2) = count_buckets-Tallied bs (count_items missing b.items c0) h t1 in
          rw (covered, count_buckets) (t2, ground (arith, h1, h2), ground (arith, m1, m2))
      | inr other ↦
          let (t2, h2, m2) = count_buckets-Tallied bs c h t in
          rw (other, count_buckets) (t2, ground (arith, other, h2), ground (arith, other, m2))
    ]

-- The number that a milestone shows counts a list without duplicates, of exactly the missing items that
-- some bucket covered by the milestone drops, so that an item of several buckets counts once; and it is
-- shown as matched exactly if some bucket is covered. For an index that is ready and a name that is not
-- blank.
pub missing_for_milestone_lem :
    (ops : TextOps) (bs : List Bucket) (milestone_name : String) (missing : List ℕ)
    → (ops.trim_space milestone_name == "") ≡ false
    → let name = ops.to_lower milestone_name in
      ((items : List ℕ) × AllDifferent items
        × (length items ≡ (missing_for_milestone ops true bs milestone_name missing).0)
        × ((h : ℕ) → has h items ≡ (has h missing && drops ops name h bs)))
      × ((missing_for_milestone ops true bs milestone_name missing).1 ≡ any_covered ops name bs)
unfolding missing_for_milestone has
missing_for_milestone_lem ops bs milestone_name missing named =
    let name = ops.to_lower milestone_name in
    let start : Count = record { count = 0; matched = false; counted_items = [] } in
    let tallied = λ (h : ℕ).
      count_buckets-Tallied missing ops name bs start h
        (record { different = tt; numbered = refl }) in
    let c = count_buckets ops name missing bs start in
    rw named (
      (
        c.counted_items,
        (tallied 0).0.different,
        (tallied 0).0.numbered,
        λ h. ground (arith, (tallied h).1),
      ),
      (tallied 0).2,
    )
