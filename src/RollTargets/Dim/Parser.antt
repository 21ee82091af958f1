-- ===== src/RollTargets/Dim/Parser.antt =====
-- services/rolltargets/dimfile.go: one outcome for each line of the file.
pub mod Parts
pub mod Rolls
pub mod Lines
use Prim.Native.Char.{code}
use Prim.Native.String
use guardian_tracker.Prelude.Scan.{◌<>◌, strip_prefix, trim_prefix, split_at, is_digit, decimal}
use guardian_tracker.Prelude.{
  ℕ, ◌+◌, Bool, true, false, ◌||◌, Option, none, some, List, [], ◌∷◌, ◌++◌, String, if◌then◌else◌,
  ◌==◌, string_eq, ℤ, TextOps, is_some,
}
use guardian_tracker.Prelude.Results.{Result, ok, err}
use guardian_tracker.RollTargets.Dim.{
  DimLine, DimFile, DimLineKind, roll, comment, unsupported, malformed, bare_line, RollMatch,
  match_roll_line, parse_int64, decode_item, dim_perk_hashes, expand_breaks, trim_right,
  trim_suffix, reason_no_perks, reason_legacy_url, reason_unrecognized,
}

-- The captured text of `^@?title:(.+)$` and `^@?description:(.+)$`.
abbrev pub nonempty : Option String → Option String
nonempty none = none
nonempty (some s) = if s == "" then none else some s

unfoldable pub metadata : String → String → Option String
unfolding strip_prefix
metadata name line = nonempty (strip_prefix name (trim_prefix "@" line))

abbrev pub begins_with_digit : Option String → Bool
begins_with_digit none = false
begins_with_digit (some String.[]) = false
begins_with_digit (some (String.◌∷◌ c s)) = is_digit c

unfoldable pub is_legacy : String → Bool
unfolding strip_prefix
is_legacy line =
    begins_with_digit (strip_prefix "https://destinytracker.com/destiny-2/db/items/" line)
    || is_some (strip_prefix "https://banshee-44.com/?weapon=" line)

-- the line as it is before its item is decoded; each branch overwrites the kind
abbrev pub begun : ℕ → String → DimLine
begun num notes = record (bare_line num comment "") { notes = notes; wanted = true }

module _ (t : TextOps) where
  unfoldable pub dim_notes : String → String
  unfolding expand_breaks
  dim_notes s = t.trim_space (expand_breaks s)

  -- the perks of a line whose item is decoded
  unfoldable pub with_perks : List ℕ → DimLine → DimLine
  with_perks [] out = record out { perk_hashes = []; kind = unsupported; reason = reason_no_perks }
  with_perks (h ∷ hs) out = record out { perk_hashes = h ∷ hs; kind = roll }

  abbrev pub finish : String → Result DimLine DimLine → DimLine
  finish perks (err out) = out
  finish perks (ok out) = with_perks (dim_perk_hashes t perks) out

  abbrev pub with_item : RollMatch → ℕ → String → Option ℤ → DimLine
  with_item m num notes none = bare_line num malformed reason_unrecognized
  with_item m num notes (some raw) = finish m.perks (decode_item raw (begun num notes))

  abbrev pub from_match : ℕ → String → Option RollMatch → DimLine
  from_match num block_notes none = bare_line num malformed reason_unrecognized
  from_match num block_notes (some m) =
      let notes = dim_notes m.notes in
      with_item m num (if notes == "" then block_notes else notes) (parse_int64 m.item)

  unfoldable pub parse_dim_roll : String → ℕ → String → DimLine
  unfolding with_perks dim_notes decode_item match_roll_line parse_int64 dim_perk_hashes
  parse_dim_roll line num block_notes = from_match num block_notes (match_roll_line line)

-- What the loop over the lines has gathered.
pub record Progress : Type 0 where
  pub file : DimFile
  pub block_notes : String

abbrev pub add_line : DimLine → Progress → Progress
add_line line p = record p { file = record p.file { lines = p.file.lines ++ line ∷ [] } }

abbrev pub no_lines : Progress
no_lines = record { file = record { title = ""; description = ""; lines = [] }; block_notes = "" }

-- the lines that the loop goes through
unfoldable pub lines_of : String → List String
unfolding trim_suffix split_at
lines_of text = split_at 10 (trim_suffix 13 (trim_suffix 10 text))

module _ (t : TextOps) where
  -- the body of the loop, the tests in the order of the source
  unfoldable pub parse_line : ℕ → String → Progress → Progress
  unfolding metadata is_legacy parse_dim_roll strip_prefix
  parse_line num line p = elim (strip_prefix "//notes:" line) [
    | some notes ↦
        add_line (bare_line num comment "") (record p { block_notes = dim_notes t notes })
    | none ↦
        if t.trim_space line == "" || is_some (strip_prefix "//" line)
        then add_line (bare_line num comment "") p
        else elim (metadata "title:" line) [
          | some title ↦
              add_line (bare_line num comment "")
                (record p { file = record p.file { title = t.trim_space title } })
          | none ↦ elim (metadata "description:" line) [
            | some text ↦
                add_line (bare_line num comment "")
                  (record p { file = record p.file { description = t.trim_space text } })
            | none ↦
                if is_legacy line
                then add_line (bare_line num unsupported reason_legacy_url) p
                else add_line (parse_dim_roll t line num p.block_notes) p
          ]
        ]
  ]

  unfoldable pub parse_lines : ℕ → List String → Progress → Progress
  unfolding parse_line trim_right
  parse_lines num [] p = p
  parse_lines num (raw ∷ rest) p = parse_lines (num + 1) rest (parse_line num (trim_right 13 raw) p)

  unfoldable pub parse_dim_file : String → DimFile
  unfolding parse_lines lines_of
  parse_dim_file text = (parse_lines 1 (lines_of text) no_lines).file
