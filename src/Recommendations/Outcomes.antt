-- ===== src/Recommendations/Outcomes.antt =====
-- What the planner promises: an answer always, the ranking's own order, and a short list of purchases.
use Prim.Native.String.{◌++◌}
use guardian_tracker.Prelude.{
  ℕ, zero, suc, ◌+◌, ◌≤◌, ◌≡◌, refl, ap, sym, ◌∙◌, Option-cases, Bool, true, false, Option, some,
  List, [], ◌∷◌, map, String, length, arith, TextOps, nat_eq, inl, inr, Bool-cases, ◌<◌,
}
use guardian_tracker.Sources
use guardian_tracker.Efficiency.Index.{Bucket}
use guardian_tracker.Efficiency.Scoring.{RankInput, RankResult, RankedCandidate, rank, is_excluded}
use guardian_tracker.Efficiency.Scoring.Facts.{AllFrom, From, here, there, rank_lem}
use guardian_tracker.Recommendations.{
  Input, XurItem, Recommendation, ranked_recommendations, xur_loop, xur_fallback, xur_outcome,
  recommend, presentation, or_else, as_rank_input, weekly_fallback, add_outcome, ranked_outcomes,
}

visible_lem :
    (ops : TextOps) (input : RankInput) (c : RankedCandidate) (bs : List Bucket)
    → From ops input c bs
    → is_excluded c.kind ≡ false
visible_lem ops input c [] f = elim f [ ]
visible_lem ops input c (b ∷ bs) (here j) = j.visible
visible_lem ops input c (b ∷ bs) (there f) = visible_lem ops input c bs f

length-map {ℓ κ} :
    {A : Type ℓ} {B : Type κ} (f : A → B) (xs : List A) → length (map f xs) ≡ length xs
length-map f [] = refl
length-map f (x ∷ xs) = ap suc (length-map f xs)

or_else_some {ℓ} : {A : Type ℓ} (xs ys : List A) → 0 < length xs → or_else xs ys ≡ xs
or_else_some [] ys h = absurd (omega arith)
or_else_some (x ∷ xs) ys h = refl

or_else-le {ℓ} : {A : Type ℓ} (xs ys : List A) → 0 < length ys → 0 < length (or_else xs ys)
or_else-le [] ys h = h
or_else-le (x ∷ xs) ys h = omega arith

module _ (ops : TextOps) (number : ℕ → String) where
  -- The id of a recommendation made from a candidate.
  abbrev pub ranked_id : RankedCandidate → String
  ranked_id c = "eff-" ++ number c.source_hash

  abbrev pub ids : List Recommendation → List String
  ids rs = map (λ r. r.id) rs

  add_outcome-ids :
      (k : Sources.Kind) (c : RankedCandidate) (rest : List Recommendation)
      → is_excluded k ≡ false
      → ids (add_outcome ops number c (presentation k) rest) ≡ ranked_id c ∷ ids rest
  add_outcome-ids Sources.activity c rest h = refl
  add_outcome-ids Sources.vendor c rest h = refl
  add_outcome-ids Sources.excluded c rest h = absurd (cc)

  ranked_recommendations-ids :
      (input : RankInput) (bs : List Bucket) (cs : List RankedCandidate)
      → AllFrom ops input bs cs
      → ids (ranked_recommendations ops number cs) ≡ map ranked_id cs
  unfolding ranked_recommendations
  ranked_recommendations-ids input bs [] a = refl
  ranked_recommendations-ids input bs (c ∷ cs) a =
      add_outcome-ids c.kind c (ranked_recommendations ops number cs)
        (visible_lem ops input c bs a.0)
      ∙ ap (λ l. ranked_id c ∷ l) (ranked_recommendations-ids input bs cs a.1)

  -- Something is always recommended, whatever the ranker answers and whatever the input is.
  pub recommend_some :
      (ranker : Option (RankInput → RankResult)) (input : Input)
      → 0 < length (recommend ops number ranker input)
  unfolding recommend xur_fallback weekly_fallback
  recommend_some ranker input =
      or_else-le (ranked_outcomes ops number ranker input) _
        (or_else-le (xur_fallback ops number input) (weekly_fallback ∷ []) (omega arith))

  xur_loop-le :
      (input : Input) (i room : ℕ) (items : List XurItem)
      → length (xur_loop ops number input i room items) ≤ room
  unfolding xur_loop
  xur_loop-le input i room [] = omega arith
  xur_loop-le input i zero (item ∷ items) = omega arith
  xur_loop-le input i (suc room) (item ∷ items) =
      elim (Option-cases (xur_outcome ops number input i item)) [
        | inl unwanted ↦ rw (unwanted) (xur_loop-le input (i + 1) (suc room) items)
        | inr (r, wanted) ↦ rw (wanted) (omega (arith, xur_loop-le input (i + 1) room items))
      ]

  -- With the efficiency engine as the ranker, and something ranked, the recommendations are those of the
  -- ranked candidates, all of them and in their order, and they are at most six.
  pub recommend-rank :
      (is_ready : Bool) (bs : List Bucket) (input : Input)
      → let ranked = (rank ops is_ready bs (as_rank_input input)).candidates in
        0 < length ranked
        → (ids (recommend ops number (some (rank ops is_ready bs)) input) ≡ map ranked_id ranked)
          × (length (recommend ops number (some (rank ops is_ready bs)) input) ≤ 6)
  unfolding recommend rank
  recommend-rank false bs input some_ranked = absurd (omega arith)
  recommend-rank true bs input some_ranked =
      let i = as_rank_input input in
      let cs = (rank ops true bs i).candidates in
      let (all, few, cold_none) = rank_lem ops true bs i in
      let listed = ranked_recommendations-ids i bs cs all in
      let rs = ranked_recommendations ops number cs in
      let same : length rs ≡ length cs =
        sym (length-map (λ r. r.id) rs) ∙ ap length listed ∙ length-map ranked_id cs in
      rw (or_else_some rs _ (omega (arith, same, some_ranked))) (listed, omega (arith, same, few))

  xur_fallback-le : (input : Input) → length (xur_fallback ops number input) ≤ 5
  unfolding xur_fallback
  xur_fallback-le input = elim (Bool-cases input.xur_present) [
    | inl present ↦ rw present (xur_loop-le input 0 5 input.xur_items)
    | inr away ↦ rw away (omega arith)
  ]

  fallback-le :
      (rs : List Recommendation) → length rs ≤ 5 → length (or_else rs (weekly_fallback ∷ [])) ≤ 5
  fallback-le [] h = omega arith
  fallback-le (r ∷ rs) h = h

  -- When nothing is ranked, because there is no ranker, its index is cold or no candidate is left,
  -- between one and five recommendations are made.
  pub recommend_unranked :
      (ranker : Option (RankInput → RankResult)) (input : Input)
      → ranked_outcomes ops number ranker input ≡ []
      → (0 < length (recommend ops number ranker input))
        × (length (recommend ops number ranker input) ≤ 5)
  unfolding recommend
  recommend_unranked ranker input none_ranked = (
    recommend_some ranker input,
    rw none_ranked (fallback-le (xur_fallback ops number input) (xur_fallback-le input)),
  )
