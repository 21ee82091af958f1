-- ===== src/Prelude/TextOrder.antt =====
-- The order of texts, which is that of their characters' numbers from the front: `sort.Strings`.
use Prim.Native.Nat.{ℕ, compare as compare_ℕ, Ordering}
use Prim.Native.Char.{code}
use Prim.Native.String.compare
use Prim.Native.String.{String, compare, then as first_apart}
use mathlib.Core.Path.{◌≡◌, refl, sym, ap, ◌∙◌}
use mathlib.Core.Logic.{◌⊎◌, inl, inr}
use mathlib.Core.Bool.{Bool, true, false, not}
use native.Mathlib.Omega.{arith}
use text.Mathlib.TextEquality.{path_by_compare}
use guardian_tracker.Prelude.Sort.{IsOrder}

abbrev pub text_below : String → String → Bool
text_below a b = elim (compare a b) [ Ordering.lt ↦ true | _ ↦ false ]

abbrev flip : Ordering → Ordering
flip Ordering.lt = Ordering.gt
flip Ordering.eq = Ordering.eq
flip Ordering.gt = Ordering.lt

first_apart-flip : (o p : Ordering) → first_apart (flip o) (flip p) ≡ flip (first_apart o p)
first_apart-flip Ordering.lt p = refl
first_apart-flip Ordering.eq p = refl
first_apart-flip Ordering.gt p = refl

compare_ℕ-flip : (a b : ℕ) → compare_ℕ b a ≡ flip (compare_ℕ a b)
compare_ℕ-flip a b = ground arith

pub compare-flip : (s t : String) → compare t s ≡ flip (compare s t)
compare-flip String.[] String.[] = compare.nil-nil ∙ ap flip (sym compare.nil-nil)
compare-flip String.[] (String.◌∷◌ d t) =
    compare.cons-nil d t ∙ ap flip (sym (compare.nil-cons d t))
compare-flip (String.◌∷◌ c s) String.[] =
    compare.nil-cons c s ∙ ap flip (sym (compare.cons-nil c s))
compare-flip (String.◌∷◌ c s) (String.◌∷◌ d t) =
    compare.cons-cons d c t s
    ∙ (λ i. first_apart (compare_ℕ-flip (code c) (code d) i) (compare-flip s t i))
    ∙ first_apart-flip (compare_ℕ (code c) (code d)) (compare s t)
    ∙ ap flip (sym (compare.cons-cons c d s t))

text_below_trans :
    (s t u : String)
    → compare s t ≡ Ordering.lt
    → compare t u ≡ Ordering.lt
    → compare s u ≡ Ordering.lt
text_below_trans String.[] String.[] u h k = absurd (cc (sym compare.nil-nil ∙ h))
text_below_trans (String.◌∷◌ c s) String.[] u h k = absurd (cc (sym (compare.cons-nil c s) ∙ h))
text_below_trans s (String.◌∷◌ d t) String.[] h k = absurd (cc (sym (compare.cons-nil d t) ∙ k))
text_below_trans String.[] (String.◌∷◌ d t) (String.◌∷◌ e u) h k = compare.nil-cons e u
text_below_trans (String.◌∷◌ c s) (String.◌∷◌ d t) (String.◌∷◌ e u) h k =
    compare.cons-cons c e s u
    ∙ ground (
      arith,
      sym (compare.cons-cons c d s t) ∙ h,
      sym (compare.cons-cons d e t u) ∙ k,
      text_below_trans s t u,
    )

apart_at :
    (s t : String) (o : Ordering)
    → compare s t ≡ o
    → (s ≡ t) ⊎ (text_below s t ≡ not (text_below t s))
apart_at s t Ordering.eq h = inl (path_by_compare s t h)
apart_at s t Ordering.lt h = inr (ground (arith, compare-flip s t))
apart_at s t Ordering.gt h = inr (ground (arith, compare-flip s t))

pub text_below_apart : (s t : String) → (s ≡ t) ⊎ (text_below s t ≡ not (text_below t s))
text_below_apart s t = apart_at s t (compare s t) refl

pub text_below-IsOrder : IsOrder text_below
text_below-IsOrder = record {
  asym = λ a b h. ground (arith, compare-flip a b);
  trans = λ a b c h k. ground (arith, text_below_trans a b c);
  cotrans = λ a b c h k. ground (
    arith,
    compare-flip a b,
    compare-flip c b,
    compare-flip c a,
    text_below_trans c a b,
    path_by_compare b a,
  );
}
