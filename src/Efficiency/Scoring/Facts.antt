-- ===== src/Efficiency/Scoring/Facts.antt =====
-- What every candidate that is listed satisfies.
use guardian_tracker.Prelude.{
  ℕ, zero, suc, ◌+◌, ◌≤◌, ◌<◌, ◌≡◌, refl, Bool, true, false, ◌&&◌, List, [], ◌∷◌, map,
  if◌then◌else◌, ◌==◌, nat_eq, TextOps, take, length, arith, has, Bool-cases, inl, inr,
}
use guardian_tracker.Prelude.Sort.{insert_sorted, sort_stable}
use guardian_tracker.Efficiency.Index.{Bucket, BucketItem}
use guardian_tracker.Efficiency.Scoring.{
  RankInput, RankedCandidate, ScoredCandidate, Tally, tally_item, tally, score_bucket, consider,
  scored, comes_first, top, rank, unless_none, is_excluded, any_available, bucket_multiplier,
  label_is_featured,
}

-- The missing items of a bucket, and those of them that are wished for, counted on their own.
unfoldable pub count_missing : RankInput → List BucketItem → ℕ
count_missing input [] = 0
count_missing input (i ∷ is) =
    (if has i.item_hash input.missing_item_hashes then 1 else 0) + count_missing input is

unfoldable pub count_wished : RankInput → List BucketItem → ℕ
count_wished input [] = 0
count_wished input (i ∷ is) =
    (if has i.item_hash input.missing_item_hashes && has i.item_hash input.wishlist_item_hashes
      then 1
      else 0)
    + count_wished input is

module _ (input : RankInput) (multiplier : ℕ) where
  tally-counts :
      (is : List BucketItem) (t : Tally)
      → ((tally input multiplier is t).missing_count ≡ t.missing_count + count_missing input is)
        × ((tally input multiplier is t).wishlist_count ≡ t.wishlist_count + count_wished input is)
  unfolding tally count_missing count_wished
  tally-counts [] t = (omega arith, omega arith)
  tally-counts (i ∷ is) t = ground (arith, tally-counts is (tally_item input multiplier i t))

count_wished-le :
    (input : RankInput) (is : List BucketItem) → count_wished input is ≤ count_missing input is
unfolding count_missing count_wished
count_wished-le input [] = omega arith
count_wished-le input (i ∷ is) = ground (arith, count_wished-le input is)

-- A candidate that was made from a bucket and belongs in the list.
pub record Justified (ops : TextOps) (input : RankInput) (b : Bucket) (c : RankedCandidate)
    : Type 0 where
  pub visible : is_excluded c.kind ≡ false
  pub from_bucket : (c.source_hash ≡ b.source_hash) × (c.kind ≡ b.kind)
  pub missing : c.missing_count ≡ count_missing input b.items
  pub wished : c.wishlist_count ≡ count_wished input b.items
  pub useful : 0 < c.missing_count
  pub wished_missing : c.wishlist_count ≤ c.missing_count
  pub available : c.available_now ≡ any_available input b.items

pub data From (ops : TextOps) (input : RankInput) (c : RankedCandidate) : List Bucket → Type 0 where
  here : {b : Bucket} {bs : List Bucket} → Justified ops input b c → From ops input c (b ∷ bs)
  there : {b : Bucket} {bs : List Bucket} → From ops input c bs → From ops input c (b ∷ bs)

abbrev pub AllFrom : TextOps → RankInput → List Bucket → List RankedCandidate → Type 0
AllFrom ops input bs [] = Unit
AllFrom ops input bs (c ∷ cs) = From ops input c bs × AllFrom ops input bs cs

module _ (ops : TextOps) (input : RankInput) where
  score_bucket-Justified :
      (b : Bucket)
      → is_excluded b.kind ≡ false
      → ((score_bucket ops input b).candidate.missing_count == 0) ≡ false
      → Justified ops input b (score_bucket ops input b).candidate
  unfolding score_bucket
  score_bucket-Justified b shown some_missing =
      let m =
        bucket_multiplier (any_available input b.items)
          (label_is_featured ops b.label input.active_milestone_names) in
      let (total, wanted) =
        tally-counts input m b.items
          (record { missing_count = 0; wishlist_count = 0; score = 0 }) in
      let bound = count_wished-le input b.items in
      record {
        visible = shown;
        from_bucket = (refl, refl);
        missing = omega arith;
        wished = omega arith;
        useful = ground arith;
        wished_missing = omega arith;
        available = refl;
      }

  AllFrom-there :
      (b : Bucket) (bs : List Bucket) (cs : List RankedCandidate)
      → AllFrom ops input bs cs
      → AllFrom ops input (b ∷ bs) cs
  AllFrom-there b bs [] a = tt
  AllFrom-there b bs (c ∷ cs) a = (there a.0, AllFrom-there b bs cs a.1)

  abbrev candidates : List ScoredCandidate → List RankedCandidate
  candidates = map (λ s. s.candidate)

  scored-AllFrom : (bs : List Bucket) → AllFrom ops input bs (candidates (scored ops input bs))
  unfolding scored
  scored-AllFrom [] = tt
  scored-AllFrom (b ∷ bs) = elim (Bool-cases (is_excluded b.kind)) [
    | inl hidden ↦ rw (consider, hidden) (AllFrom-there b bs _ (scored-AllFrom bs))
    | inr shown ↦ elim (Bool-cases ((score_bucket ops input b).candidate.missing_count == 0)) [
      | inl useless ↦ rw (consider, shown, useless) (AllFrom-there b bs _ (scored-AllFrom bs))
      | inr useful ↦
          rw (consider, shown, useful)
            (here (score_bucket-Justified b shown useful), AllFrom-there b bs _ (scored-AllFrom bs))
    ]
  ]

  AllFrom-insert_sorted :
      (bs : List Bucket) (s : ScoredCandidate) (ss : List ScoredCandidate)
      → From ops input s.candidate bs
      → AllFrom ops input bs (candidates ss)
      → AllFrom ops input bs (candidates (insert_sorted comes_first s ss))
  unfolding insert_sorted
  AllFrom-insert_sorted bs s [] f a = (f, tt)
  AllFrom-insert_sorted bs s (x ∷ xs) f a = elim (Bool-cases (comes_first x s)) [
    | inl first ↦ rw (first) (a.0, AllFrom-insert_sorted bs s xs f a.1)
    | inr last ↦ rw (last) (f, a)
  ]

  AllFrom-sort_stable :
      (bs : List Bucket) (ss : List ScoredCandidate)
      → AllFrom ops input bs (candidates ss)
      → AllFrom ops input bs (candidates (sort_stable comes_first ss))
  unfolding sort_stable
  AllFrom-sort_stable bs [] a = tt
  AllFrom-sort_stable bs (s ∷ ss) a =
      AllFrom-insert_sorted bs s (sort_stable comes_first ss) a.0 (AllFrom-sort_stable bs ss a.1)

  AllFrom-take :
      (n : ℕ) (bs : List Bucket) (ss : List ScoredCandidate)
      → AllFrom ops input bs (candidates ss)
      → AllFrom ops input bs (candidates (take n ss)) × (length (candidates (take n ss)) ≤ n)
  AllFrom-take zero bs ss a = (tt, omega arith)
  AllFrom-take (suc n) bs [] a = (tt, omega arith)
  AllFrom-take (suc n) bs (s ∷ ss) a =
      let (r, l) = AllFrom-take n bs ss a.1 in ((a.0, r), omega arith)

  top-AllFrom :
      (bs : List Bucket)
      → AllFrom ops input bs (candidates (top ops input bs))
        × (length (candidates (top ops input bs)) ≤ 6)
  unfolding top
  top-AllFrom bs = AllFrom-take 6 bs _ (AllFrom-sort_stable bs _ (scored-AllFrom bs))

unless_none-AllFrom :
    (ops : TextOps) (input : RankInput) (bs : List Bucket) (hs : List ℕ) (cs : List RankedCandidate)
    → AllFrom ops input bs cs × (length cs ≤ 6)
    → AllFrom ops input bs (unless_none hs cs) × (length (unless_none hs cs) ≤ 6)
unless_none-AllFrom ops input bs [] cs a = (tt, omega arith)
unless_none-AllFrom ops input bs (h ∷ hs) cs a = a

-- Every candidate that is listed comes from a bucket that is not excluded and has missing items, with
-- the numbers of the bucket's missing and of its wished-for missing items, counted on their own; there
-- are at most six; and an index that is not ready lists none.
pub rank_lem :
    (ops : TextOps) (is_ready : Bool) (bs : List Bucket) (input : RankInput)
    → AllFrom ops input bs (rank ops is_ready bs input).candidates
      × (length (rank ops is_ready bs input).candidates ≤ 6)
      × (is_ready ≡ false → (rank ops is_ready bs input).candidates ≡ [])
unfolding rank
rank_lem ops false bs input = (tt, omega arith, λ cold_now. refl)
rank_lem ops true bs input =
    let (all, few) =
      unless_none-AllFrom ops input bs input.missing_item_hashes _ (top-AllFrom ops input bs) in
    (all, few, λ cold_now. ground arith)
