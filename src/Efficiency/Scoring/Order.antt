-- ===== src/Efficiency/Scoring/Order.antt =====
-- The ranking as an order: what is listed, and that the order of the map does not matter.
use mathlib.Core.List.{Permᴰ}
use guardian_tracker.Prelude.{
  ◌≡◌, refl, Bool, false, not, List, ◌∷◌, map, if◌then◌else◌, ◌==◌, nat_eq, TextOps, take, arith,
  ap, ◌∙◌, sym, AllDifferent, AllDifferent-perm, has,
}
use guardian_tracker.Prelude.Sort.{insert_sorted, sort_stable, IsOrder, insert_sorted_comm}
use guardian_tracker.Efficiency.Index.{Bucket}
use guardian_tracker.Efficiency.Scoring.{
  RankInput, ScoredCandidate, score_bucket, consider, scored, comes_first, top, rank, is_excluded,
}

pub comes_first-IsOrder : IsOrder comes_first
unfolding comes_first
comes_first-IsOrder = record {
  asym = λ a b h. ground arith;
  trans = λ a b c h k. ground arith;
  cotrans = λ a b c h k. ground arith;
}

module _ (ops : TextOps) (input : RankInput) where
  -- One bucket's part in the sorted list.
  place : Bucket → List ScoredCandidate → List ScoredCandidate
  place b sorted =
      if is_excluded b.kind
      then sorted
      else if (score_bucket ops input b).candidate.missing_count == 0
      then sorted
      else insert_sorted comes_first (score_bucket ops input b) sorted

  sort_stable-consider :
      (b : Bucket) (rest : List ScoredCandidate)
      → sort_stable comes_first (consider ops input b rest) ≡ place b (sort_stable comes_first rest)
  unfolding consider place sort_stable
  sort_stable-consider b rest = ground arith

  source_hash-score_bucket :
      (b : Bucket) → (score_bucket ops input b).candidate.source_hash ≡ b.source_hash
  unfolding score_bucket
  source_hash-score_bucket b = refl

  -- Buckets of two sources are never tied.
  apart :
      (a b : Bucket)
      → (a.source_hash == b.source_hash) ≡ false
      → comes_first (score_bucket ops input a) (score_bucket ops input b)
        ≡ not (comes_first (score_bucket ops input b) (score_bucket ops input a))
  unfolding comes_first
  apart a b differ = ground (arith, source_hash-score_bucket a, source_hash-score_bucket b)

  place_comm :
      (a b : Bucket) (sorted : List ScoredCandidate)
      → (a.source_hash == b.source_hash) ≡ false
      → place a (place b sorted) ≡ place b (place a sorted)
  unfolding place
  place_comm a b sorted differ = ground (
    arith,
    insert_sorted_comm comes_first-IsOrder (score_bucket ops input a) (score_bucket ops input b)
        sorted (apart a b differ),
  )

  abbrev ranked : List Bucket → List ScoredCandidate
  ranked bs = sort_stable comes_first (scored ops input bs)

  ranked-cons : (b : Bucket) (bs : List Bucket) → ranked (b ∷ bs) ≡ place b (ranked bs)
  unfolding scored
  ranked-cons b bs = sort_stable-consider b (scored ops input bs)

  tell_apart :
      (a b : Bucket) (l : List Bucket)
      → has a.source_hash (map (λ c. c.source_hash) (b ∷ l)) ≡ false
      → (a.source_hash == b.source_hash) ≡ false
  unfolding has
  tell_apart a b l h = ground arith

  ranked-perm :
      {bs cs : List Bucket}
      → Permᴰ bs cs
      → AllDifferent (map (λ b. b.source_hash) bs)
      → ranked bs ≡ ranked cs
  ranked-perm Permᴰ.nil h = refl
  ranked-perm (Permᴰ.cons {a = a} {b = b} {l₁ = l₁} {l₂ = l₂} p d) h =
      ranked-cons a l₁ ∙ rw (p, ranked-perm d h.1) (sym (ranked-cons b l₂))
  ranked-perm (Permᴰ.swap {a = a} {b = b} {a' = a'} {b' = b'} {l = l} p q) h =
      let differ = tell_apart a b l h.0 in
      cc (
        ranked-cons a (b ∷ l),
        ranked-cons b l,
        place_comm a b (ranked l) differ,
        ranked-cons a' (b' ∷ l),
        ranked-cons b' l,
      )
  ranked-perm (Permᴰ.trans d₁ d₂) h =
      ranked-perm d₁ h ∙ ranked-perm d₂ (AllDifferent-perm (λ b. b.source_hash) d₁ h)

top-perm :
    (ops : TextOps) (input : RankInput) {bs cs : List Bucket}
    → Permᴰ bs cs
    → AllDifferent (map (λ b. b.source_hash) bs)
    → top ops input bs ≡ top ops input cs
unfolding top
top-perm ops input p h = ap (take 6) (ranked-perm ops input p h)

-- The answer does not depend on the order in which the map of buckets is visited, for buckets of
-- different sources.
pub rank-perm :
    (ops : TextOps) (is_ready : Bool) (input : RankInput) {bs cs : List Bucket}
    → Permᴰ bs cs
    → AllDifferent (map (λ b. b.source_hash) bs)
    → rank ops is_ready bs input ≡ rank ops is_ready cs input
unfolding rank
rank-perm ops is_ready input p h = ground (arith, top-perm ops input p h)
