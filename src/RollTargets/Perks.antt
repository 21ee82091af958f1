-- ===== src/RollTargets/Perks.antt =====
-- The binary search in a weapon's sorted perks finds exactly the perks that are there.

use text.Mathlib.TextEquality.{eq_iff}
use guardian_tracker.Prelude.{
  ◌≡◌, refl, Bool, true, false, ◌&&◌, List, [], ◌∷◌, String, string_eq, arith, has, Bool-cases, inl,
  inr,
}
use guardian_tracker.Prelude.TextOrder.{compare-flip, text_below}
use guardian_tracker.RollTargets.{search_strings, contains, contains_each, contains_all}

-- Ascending, as the reader of owned weapons leaves the perks.
abbrev NoneBelow : String → List String → Type 0
NoneBelow x [] = Unit {0}
NoneBelow x (y ∷ ys) = (text_below y x ≡ false) × NoneBelow x ys

abbrev pub IsAscending : List String → Type 0
IsAscending [] = Unit {0}
IsAscending (x ∷ xs) = NoneBelow x xs × IsAscending xs

-- A text that is not below the least of the rest and is not the first is nowhere.
absent :
    (x want : String) (xs : List String)
    → NoneBelow x xs
    → text_below want x ≡ true
    → has want xs ≡ false
unfolding has
absent x want [] n h = refl
absent x want (y ∷ ys) n h = ground (arith, absent x want ys n.1 h, eq_iff y want, n.0)

contains-has : (xs : List String) (want : String) → IsAscending xs → contains xs want ≡ has want xs
unfolding contains search_strings has
contains-has [] want a = refl
contains-has (x ∷ xs) want a = elim (Bool-cases (text_below x want)) [
  | inl below ↦ rw (below, search_strings) (ground (arith, below, contains-has xs want a.1))
  | inr reached ↦
      rw (reached, search_strings)
        (ground (arith, reached, compare-flip x want, absent x want xs a.0))
]

-- Every perk of a list is held.
unfoldable pub all_held : List String → List String → Bool
all_held owned [] = true
all_held owned (perk ∷ perks) = has perk owned && all_held owned perks

contains_each-all_held :
    (owned perks : List String)
    → IsAscending owned
    → contains_each owned perks ≡ all_held owned perks
unfolding contains_each all_held
contains_each-all_held owned [] a = refl
contains_each-all_held owned (perk ∷ perks) a =
    (λ i. contains-has owned perk a i && contains_each-all_held owned perks a i)

abbrev pub is_nonempty : List String → Bool
is_nonempty [] = false
is_nonempty (x ∷ xs) = true

-- A weapon whose perks stand in ascending order has all perks of a target exactly if the target names
-- some and each of them is among the weapon's perks; the binary search misses none.
pub contains_all-all_held :
    (owned wanted : List String)
    → IsAscending owned
    → contains_all owned wanted ≡ (is_nonempty wanted && all_held owned wanted)
unfolding contains_all
contains_all-all_held owned [] a = refl
contains_all-all_held owned (perk ∷ perks) a = contains_each-all_held owned (perk ∷ perks) a
