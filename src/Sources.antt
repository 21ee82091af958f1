-- ===== src/Sources.antt =====
-- services/sources/sources.go: the vocabulary of acquisition sources. `ops` are the Unicode functions
-- of the language's `strings` package.
pub mod Tiers
use guardian_tracker.Prelude.{
  ℕ, Bool, true, false, ◌&&◌, ◌||◌, List, [], ◌∷◌, String, if◌then◌else◌, ◌==◌, nat_eq, string_eq,
  has, TextOps, contains,
}

pub data DifficultyTier : Type 0 where
  challenging moderate easy unrated : DifficultyTier

pub record AcquisitionSource : Type 0 where
  pub text : String
  pub difficulty : DifficultyTier
  pub raid_dungeon : Bool

pub data Kind : Type 0 where
  excluded vendor activity : Kind

-- `entry`
pub record Entry : Type 0 where
  pub keyword : String
  pub tier : DifficultyTier
  pub raid_dungeon : Bool

abbrev row : String → DifficultyTier → Bool → Entry
row keyword tier raid_dungeon = record {
  keyword = keyword;
  tier = tier;
  raid_dungeon = raid_dungeon;
}

unfoldable pub difficulty_table : List Entry
difficulty_table =
    row "raid" challenging true
    ∷ row "vault of glass" challenging true
    ∷ row "king's fall" challenging true
    ∷ row "root of nightmares" challenging true
    ∷ row "crota" challenging true
    ∷ row "deep stone" challenging true
    ∷ row "garden of salvation" challenging true
    ∷ row "last wish" challenging true
    ∷ row "vow of the disciple" challenging true
    ∷ row "salvation's edge" challenging true
    ∷ row "desert perpetual" challenging true
    ∷ row "trials" challenging false
    ∷ row "competitive" challenging false
    ∷ row "iron banner" challenging false
    ∷ row "glory" challenging false
    ∷ row "grandmaster" challenging false
    ∷ row "pantheon" challenging false
    ∷ row "dungeon" moderate true
    ∷ row "prophecy" moderate true
    ∷ row "grasp of avarice" moderate true
    ∷ row "duality" moderate true
    ∷ row "spire of the watcher" moderate true
    ∷ row "shattered throne" moderate true
    ∷ row "pit of heresy" moderate true
    ∷ row "ghosts of the deep" moderate true
    ∷ row "warlord" moderate true
    ∷ row "vesper" moderate true
    ∷ row "sundered doctrine" moderate true
    ∷ row "nightfall" moderate false
    ∷ row "lost sector" moderate false
    ∷ row "exotic quest" moderate false
    ∷ row "exotic mission" moderate false
    ∷ row "dreaming city" moderate false
    ∷ row "season of" moderate false
    ∷ row "seasonal" moderate false
    ∷ row "episode" moderate false
    ∷ row "into the light" moderate false
    ∷ row "solstice" moderate false
    ∷ row "exploring" moderate false
    ∷ row "kepler" moderate false
    ∷ row "wellspring" moderate false
    ∷ row "dares" moderate false
    ∷ row "black armory" moderate false
    ∷ row "sparrow racing" moderate false
    ∷ row "rank-up package" easy false
    ∷ row "rank up package" easy false
    ∷ row "earned while leveling" easy false
    ∷ row "engram" easy false
    ∷ row "season pass" easy false
    ∷ row "eververse" easy false
    ∷ row "bright dust" easy false
    ∷ row "focusing" easy false
    ∷ row "world drop" easy false
    ∷ row "complete crucible" easy false
    ∷ row "complete gambit" easy false
    ∷ row "complete strikes" easy false
    ∷ row "complete vanguard" easy false
    ∷ row "rank-up" easy false
    ∷ row "vendor" easy false
    ∷ row "banshee" easy false
    ∷ row "ada-1" easy false
    ∷ row "xûr" easy false
    ∷ row "xur" easy false
    ∷ row "tower" easy false
    ∷ row "monument" easy false
    ∷ row "deluxe edition" easy false
    ∷ row "pre-order" easy false
    ∷ row "preorder" easy false
    ∷ row "charity" easy false
    ∷ row "special offer" easy false
    ∷ row "rewards pass" easy false
    ∷ row "new monarchy" easy false
    ∷ row "dead orbit" easy false
    ∷ row "future war cult" easy false
    ∷ row "saint-14" easy false
    ∷ []

abbrev pub unreacquirable : String
unreacquirable = "cannot be reacquired"

unfoldable pub matches_any : String → List String → Bool
matches_any s [] = false
matches_any s (kw ∷ keywords) = contains s kw || matches_any s keywords

-- the loop of `Difficulty`
unfoldable pub first_tier : String → List Entry → DifficultyTier
first_tier s [] = unrated
first_tier s (e ∷ table) = if contains s e.keyword then e.tier else first_tier s table

-- the loop of `IsRaidOrDungeon`
unfoldable pub any_raid_dungeon : String → List Entry → Bool
any_raid_dungeon s [] = false
any_raid_dungeon s (e ∷ table) = e.raid_dungeon && contains s e.keyword || any_raid_dungeon s table

abbrev pub excluded_source_hashes : List ℕ
excluded_source_hashes =
    860688654 ∷ 4036739795 ∷ 1593696611 ∷ 1358645302 ∷ 2892963218 ∷ 1658014144 ∷ 333761108
    ∷ 1118966764 ∷ 2387628034 ∷ []

abbrev pub exclude_keywords : List String
exclude_keywords =
    "eververse" ∷ "bright engram" ∷ "season pass" ∷ "special offer" ∷ "while leveling" ∷ "monument"
    ∷ "rewards pass" ∷ "dismantle" ∷ unreacquirable ∷ "silver" ∷ []

abbrev pub vendor_keywords : List String
vendor_keywords = "xûr" ∷ "xur" ∷ "banshee" ∷ "ada-1" ∷ "gunsmith" ∷ "rank-up packages" ∷ []

abbrev pub activity_keywords : List String
activity_keywords =
    "raid" ∷ "dungeon" ∷ "trials" ∷ "iron banner" ∷ "nightfall" ∷ "strike" ∷ "crucible" ∷ "gambit"
    ∷ "vault of glass" ∷ "exotic" ∷ "lost sector" ∷ "campaign" ∷ "quest" ∷ []

module _ (ops : TextOps) where
  open ops use {to_lower, trim_space}

  unfoldable pub is_unreacquirable : String → Bool
  is_unreacquirable source = contains (to_lower source) unreacquirable

  unfoldable pub difficulty : String → DifficultyTier
  unfolding first_tier
  difficulty source =
      let s = to_lower (trim_space source) in
      if s == "" || contains s unreacquirable then unrated else first_tier s difficulty_table

  unfoldable pub is_raid_or_dungeon : String → Bool
  unfolding any_raid_dungeon
  is_raid_or_dungeon source = any_raid_dungeon (to_lower source) difficulty_table

  unfoldable pub describe : String → AcquisitionSource
  unfolding difficulty is_raid_or_dungeon
  describe text =
      let text' = trim_space text in
      record {
        text = text';
        difficulty = difficulty text';
        raid_dungeon = is_raid_or_dungeon text';
      }

  unfoldable pub action_kind : ℕ → String → Kind
  unfolding matches_any
  action_kind source_hash source =
      let s = to_lower source in
      if has source_hash excluded_source_hashes
      then excluded
      else if matches_any s exclude_keywords
      then excluded
      else if matches_any s vendor_keywords
      then vendor
      else if matches_any s activity_keywords
      then activity
      else excluded

  unfoldable pub milestone_category : String → String
  milestone_category name =
      let s = to_lower name in
      if contains s "nightfall" || contains s "ordeal"
      then "Nightfall"
      else if contains s "raid"
      then "Featured Raid"
      else if contains s "dungeon"
      then "Featured Dungeon"
      else if contains s "crucible" || contains s "iron banner" || contains s "trials"
      then "Crucible"
      else if contains s "gambit"
      then "Gambit"
      else if contains s "strike" || contains s "vanguard"
      then "Strikes"
      else "Weekly Activity"
