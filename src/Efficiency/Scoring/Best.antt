-- ===== src/Efficiency/Scoring/Best.antt =====
-- That the ranking lists the best candidates.

use mathlib.Core.List.{Permᴰ}
use guardian_tracker.Prelude.{
  ℕ, zero, suc, ◌≡◌, refl, sym, ap, subst, List, [], ◌∷◌, ◌++◌, TextOps, take, drop,
  take-append-drop, length-take, length, inl, inr, ◌⊎◌, ◌<◌, ◌≤◌, false, arith,
}
use guardian_tracker.Prelude.Sort.{
  sort_stable, sort_stable-perm, IsSorted, NoneBefore, sort_stable-IsSorted,
}
use guardian_tracker.Efficiency.Index.{Bucket}
use guardian_tracker.Efficiency.Scoring.{RankInput, ScoredCandidate, scored, comes_first, top}
use guardian_tracker.Efficiency.Scoring.Order.{comes_first-IsOrder}

-- Nothing is left over unless the cut is full.
drop-full {ℓ} : {A : Type ℓ} (n : ℕ) (xs : List A) → (drop n xs ≡ []) ⊎ (length (take n xs) ≡ n)
drop-full zero xs = inr refl
drop-full (suc n) [] = inl refl
drop-full (suc n) (x ∷ xs) = elim (drop-full n xs) [
  | inl none_left ↦ inl none_left
  | inr full ↦ inr (ap suc full)
]

-- The one candidate has the higher score, or the same score and a source that is not behind.
abbrev pub Precedes : ScoredCandidate → ScoredCandidate → Type 0
Precedes a b =
    (b.score < a.score)
    ⊎ ((a.score ≡ b.score) × (a.candidate.source_hash ≤ b.candidate.source_hash))

abbrev pub PrecedesAll : ScoredCandidate → List ScoredCandidate → Type 0
PrecedesAll a [] = Unit {0}
PrecedesAll a (b ∷ bs) = Precedes a b × PrecedesAll a bs

abbrev pub BestFirst : List ScoredCandidate → Type 0
BestFirst [] = Unit {0}
BestFirst (a ∷ bs) = PrecedesAll a bs × BestFirst bs

comes_first-Precedes : (a b : ScoredCandidate) → comes_first b a ≡ false → Precedes a b
unfolding comes_first
comes_first-Precedes a b h = ground arith

NoneBefore-PrecedesAll :
    (a : ScoredCandidate) (bs : List ScoredCandidate)
    → NoneBefore comes_first a bs
    → PrecedesAll a bs
NoneBefore-PrecedesAll a [] h = tt
NoneBefore-PrecedesAll a (b ∷ bs) (here, h) =
    (comes_first-Precedes a b here, NoneBefore-PrecedesAll a bs h)

IsSorted-BestFirst : (bs : List ScoredCandidate) → IsSorted comes_first bs → BestFirst bs
IsSorted-BestFirst [] h = tt
IsSorted-BestFirst (b ∷ bs) (here, h) = (NoneBefore-PrecedesAll b bs here, IsSorted-BestFirst bs h)

-- The list is the best of the candidates, six at most and the best first: with those that it leaves out, none of them if
-- it has fewer than six, it is a rearrangement of all candidates in which each one has a higher score
-- than every one behind it, or the same score and a source hash that is no larger.
pub top_lem :
    (ops : TextOps) (input : RankInput) (bs : List Bucket)
    → (left : List ScoredCandidate) × Permᴰ (top ops input bs ++ left) (scored ops input bs)
      × BestFirst (top ops input bs ++ left)
      × ((left ≡ []) ⊎ (length (top ops input bs) ≡ 6))
      × (length (top ops input bs) ≤ 6)
unfolding top
top_lem ops input bs =
    let all = sort_stable comes_first (scored ops input bs) in
    let whole = sym (take-append-drop 6 all) in
    (
      drop 6 all,
      subst (λ l. Permᴰ l (scored ops input bs)) whole
          (sort_stable-perm comes_first (scored ops input bs)),
      subst (λ l. BestFirst l) whole
          (IsSorted-BestFirst all (sort_stable-IsSorted comes_first-IsOrder (scored ops input bs))),
      drop-full 6 all,
      omega (arith, length-take 6 all),
    )
