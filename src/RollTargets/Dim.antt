-- ===== src/RollTargets/Dim.antt =====
-- services/rolltargets/dimfile.go: the parser of wish lists in the text format of DIM. A regular
-- expression of the source is read from left to right by the functions of Prelude/Scan: each of its
-- parts is followed by one that cannot begin with a character of the part, so no backtracking is lost.
-- An int64 is its value; `negate` is the negation of 64 bits, and `to_uint32` the conversion.
pub mod Parser
use Prim.Native.Char.{Char, code}
use Prim.Native.String
use Prim.Native.Nat.{◌≤◌}
use guardian_tracker.Prelude.Scan.{
  ◌<>◌, trim_prefix, strip_prefix, take_run, drop_run, split_at, is_digit, decimal,
}
use guardian_tracker.Prelude.{
  ℕ, zero, suc, ◌+◌, ◌-◌, ◌%◌, ◌^◌, Bool, true, false, not, ◌&&◌, ◌||◌, Option, none, some, List,
  [], ◌∷◌, ◌++◌, String, if◌then◌else◌, ◌==◌, nat_eq, string_eq, ltb, leb, ℤ, pos, negsuc, int_eq,
  TextOps, is_some,
}
use guardian_tracker.Prelude.Results.{Result, ok, err, ◌>>=◌}

pub data DimLineKind : Type 0 where
  roll comment unsupported malformed : DimLineKind

abbrev pub reason_no_perks : String
reason_no_perks = "names no perks, so it would match every copy of the weapon"

abbrev pub reason_legacy_url : String
reason_legacy_url = "a legacy banshee-44 or destinytracker line, which is not supported"

abbrev pub reason_unrecognized : String
reason_unrecognized = "not a recognized DIM wish list line"

abbrev pub reason_item_hash_range : String
reason_item_hash_range = "item hash is outside the range of a Destiny item hash"

pub record DimLine : Type 0 where
  pub number : ℕ
  pub kind : DimLineKind
  pub reason : String
  pub item_hash : ℕ
  pub any_weapon : Bool
  pub wanted : Bool
  pub perk_hashes : List ℕ
  pub notes : String

pub record DimFile : Type 0 where
  pub title : String
  pub description : String
  pub lines : List DimLine

-- A line of which nothing else is set.
abbrev pub bare_line : ℕ → DimLineKind → String → DimLine
bare_line number kind reason = record {
  number = number;
  kind = kind;
  reason = reason;
  item_hash = 0;
  any_weapon = false;
  wanted = false;
  perk_hashes = [];
  notes = "";
}

-- The groups of `dimRollLine`.
pub record RollMatch : Type 0 where
  pub item : String
  pub perks : String
  pub notes : String

abbrev pub is_perk_char : Char → Bool
is_perk_char c = is_digit c || code c == 124 || code c == 44

abbrev pub is_note_char : Char → Bool
is_note_char c = not (code c == 124)

-- the part behind the number of the item
abbrev pub roll_groups : String → String → RollMatch
roll_groups item behind =
    let perks = trim_prefix "&perks=" behind in
    record {
      item = item;
      perks = take_run is_perk_char perks;
      notes = take_run is_note_char (trim_prefix "#notes:" (drop_run is_perk_char perks));
    }

abbrev pub minus_sign : String → String
minus_sign s = if is_some (strip_prefix "-" s) then "-" else ""

-- the part behind `dimwishlist:item=`
unfoldable pub item_groups : String → Option RollMatch
unfolding strip_prefix take_run drop_run
item_groups s =
    let digits = trim_prefix "-" s in
    if take_run is_digit digits == ""
    then none
    else some (roll_groups (minus_sign s <> take_run is_digit digits) (drop_run is_digit digits))

unfoldable pub match_roll_line : String → Option RollMatch
unfolding item_groups
match_roll_line line = elim (strip_prefix "dimwishlist:item=" line) [
  | none ↦ none
  | some s ↦ item_groups s
]

abbrev pub in_int64 : Bool → ℕ → Option ℤ
in_int64 false n = if ltb n (2 ^ 63) then some (pos n) else none
in_int64 true n =
    if n == 0 then some (pos 0) else if leb n (2 ^ 63) then some (negsuc (n - 1)) else none

-- `strconv.ParseInt(s, 10, 64)`, on a text of the form that the expression captures
unfoldable pub parse_int64 : String → Option ℤ
unfolding decimal strip_prefix
parse_int64 s = elim (decimal (trim_prefix "-" s)) [
  | none ↦ none
  | some n ↦ in_int64 (is_some (strip_prefix "-" s)) n
]

-- `-raw`, which leaves the least number of 64 bits as it is
abbrev pub negate : ℤ → ℤ
negate (pos zero) = pos 0
negate (pos (suc n)) = negsuc n
negate (negsuc n) = if n == 2 ^ 63 - 1 then negsuc n else pos (n + 1)

abbrev pub to_uint32 : ℤ → ℕ
to_uint32 (pos n) = n % 2 ^ 32
to_uint32 (negsuc n) = 2 ^ 32 - 1 - n % 2 ^ 32

abbrev pub is_negative : ℤ → Bool
is_negative (pos n) = false
is_negative (negsuc n) = true

-- `raw > 4294967295`
abbrev pub above_uint32 : ℤ → Bool
above_uint32 (pos n) = ltb 4294967295 n
above_uint32 (negsuc n) = false

-- The switch on the parsed number. An error is a line returned at once.
unfoldable pub decode_item : ℤ → DimLine → Result DimLine DimLine
decode_item raw out =
    if raw == negsuc 69419
    then ok (record out { any_weapon = true })
    else if is_negative raw
    then (if above_uint32 (negate raw)
        then err (record out { wanted = false; kind = malformed; reason = reason_item_hash_range })
        else ok (record out { wanted = false; item_hash = to_uint32 (negate raw) }))
    else if above_uint32 raw
    then err (record out { kind = malformed; reason = reason_item_hash_range })
    else ok (record out { item_hash = to_uint32 raw })

-- `strconv.ParseUint(s, 10, 32)`
abbrev pub in_uint32 : Option ℕ → Option ℕ
in_uint32 none = none
in_uint32 (some n) = if ltb n (2 ^ 32) then some n else none

abbrev pub add_perk : Option ℕ → List ℕ → List ℕ
add_perk none rest = rest
add_perk (some n) rest = if n == 0 then rest else n ∷ rest

module _ (t : TextOps) where
  -- the loop of `dimPerkHashes`
  unfoldable pub perk_hashes_of : List String → List ℕ
  unfolding decimal
  perk_hashes_of [] = []
  perk_hashes_of (part ∷ parts) =
      add_perk (in_uint32 (decimal (t.trim_space part))) (perk_hashes_of parts)

  unfoldable pub dim_perk_hashes : String → List ℕ
  unfolding perk_hashes_of split_at
  dim_perk_hashes field = perk_hashes_of (split_at 44 field)

-- `strings.ReplaceAll` of a backslash and an n by a line end
unfoldable pub expand_breaks : String → String
expand_breaks String.[] = String.[]
expand_breaks (String.◌∷◌ c String.[]) = String.◌∷◌ c String.[]
expand_breaks (String.◌∷◌ c (String.◌∷◌ d s)) =
    let behind = expand_breaks s in
    let kept = expand_breaks (String.◌∷◌ d s) in
    if code c == 92 && code d == 110 then "\n" <> behind else String.◌∷◌ c kept

-- `strings.TrimRight` of the characters with a number
unfoldable pub trim_right : ℕ → String → String
trim_right n String.[] = String.[]
trim_right n (String.◌∷◌ c s) =
    let rest = trim_right n s in if rest == "" && code c == n then String.[] else String.◌∷◌ c rest

-- `strings.TrimSuffix` of one character
unfoldable pub trim_suffix : ℕ → String → String
trim_suffix n String.[] = String.[]
trim_suffix n (String.◌∷◌ c String.[]) = if code c == n then String.[] else String.◌∷◌ c String.[]
trim_suffix n (String.◌∷◌ c (String.◌∷◌ d s)) = String.◌∷◌ c (trim_suffix n (String.◌∷◌ d s))
