-- ===== src/Sources/Tiers.antt =====
-- How the two facets of the vocabulary fit together.
use text.Mathlib.TextEquality.{eq_iff}
use guardian_tracker.Prelude.{
  Bool, true, false, ◌&&◌, ◌||◌, ◌≡◌, refl, ◌⊎◌, inl, inr, List, [], ◌∷◌, String, if◌then◌else◌,
  ◌==◌, string_eq, arith, TextOps, contains, subst, Bool-cases,
}
use guardian_tracker.Sources.{
  DifficultyTier, challenging, moderate, easy, unrated, Entry, difficulty_table, unreacquirable,
  first_tier, any_raid_dungeon, describe,
}

abbrev is_hard : DifficultyTier → Bool
is_hard challenging = true
is_hard moderate = true
is_hard easy = false
is_hard unrated = false

abbrev any_raid : List Entry → Bool
any_raid [] = false
any_raid (e ∷ table) = e.raid_dungeon || any_raid table

-- Every row above or at a raid or dungeon row carries one of the two hard tiers.
raids_first : List Entry → Bool
raids_first [] = true
raids_first (e ∷ table) =
    (if e.raid_dungeon || any_raid table then is_hard e.tier else true) && raids_first table

any_raid_of :
    (s : String) (table : List Entry) → any_raid_dungeon s table ≡ true → any_raid table ≡ true
unfolding any_raid_dungeon
any_raid_of s [] h = h
any_raid_of s (e ∷ table) h = ground (arith, any_raid_of s table)

first_tier-is_hard :
    (s : String) (table : List Entry)
    → raids_first table ≡ true
    → any_raid_dungeon s table ≡ true
    → is_hard (first_tier s table) ≡ true
unfolding raids_first any_raid_dungeon first_tier
first_tier-is_hard s [] r h = cc
first_tier-is_hard s (e ∷ table) r h =
    ground (arith, first_tier-is_hard s table, any_raid_of s table)

difficulty_table-raids_first : raids_first difficulty_table ≡ true
unfolding raids_first difficulty_table
difficulty_table-raids_first = refl

empty-no_raid : any_raid_dungeon "" difficulty_table ≡ false
unfolding any_raid_dungeon difficulty_table contains
empty-no_raid = refl

not_empty : (u : String) → any_raid_dungeon u difficulty_table ≡ true → (u == "") ≡ false
not_empty u h = elim (Bool-cases (u == "")) [
  | inl same ↦
      let blank : any_raid_dungeon "" difficulty_table ≡ true =
        subst (λ x. any_raid_dungeon x difficulty_table ≡ true) ((eq_iff u "").0 same) h in
      cc empty-no_raid
  | inr other ↦ other
]

rated :
    (u : String)
    → any_raid_dungeon u difficulty_table ≡ true
    → let tier =
        if u == "" || contains u unreacquirable then unrated else first_tier u difficulty_table in
      (tier ≡ challenging) ⊎ (tier ≡ moderate) ⊎ (contains u unreacquirable ≡ true)
rated u h =
    let hard = first_tier-is_hard u difficulty_table difficulty_table-raids_first h in
    rw (not_empty u h) (ground arith)

-- A source that is described as a raid or a dungeon is rated challenging or moderate, or says that it
-- cannot be reacquired; for a `TrimSpace` that trimming again does not change.
pub describe_raid_dungeon :
    (ops : TextOps) (text : String)
    → ops.trim_space (ops.trim_space text) ≡ ops.trim_space text
    → (describe ops text).raid_dungeon ≡ true
    → ((describe ops text).difficulty ≡ challenging)
      ⊎ ((describe ops text).difficulty ≡ moderate)
      ⊎ (contains (ops.to_lower (ops.trim_space text)) unreacquirable ≡ true)
unfolding describe
describe_raid_dungeon ops text idem h = rw idem (rated (ops.to_lower (ops.trim_space text)) h)
