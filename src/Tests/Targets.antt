-- ===== src/Tests/Targets.antt =====
-- The theorems on saved roll targets and their import at concrete targets.
use mathlib.Core.List.Permᴰ
use guardian_tracker.Prelude.{
  ◌+◌, ◌≤◌, ◌≡◌, ◌⊎◌, inl, refl, true, false, none, some, List, [], ◌∷◌, ◌++◌, map, String, arith,
  TextOps, length, pos, ℤ, string_eq, lookup, AllDifferent, if◌then◌else◌,
}
use guardian_tracker.Prelude.Sort.{IsSorted}
use guardian_tracker.Prelude.TextOrder.{text_below}
use guardian_tracker.Prelude.Results.{ok, err}
use guardian_tracker.RollTargets.Dim.Parser.{parse_dim_roll, lines_of}
use guardian_tracker.RollTargets.Dim.Parser.Rolls.{
  roll_text, line_of, own_notes, item_of, parse_dim_roll-roll_text,
}
use guardian_tracker.Prelude.Scan.{decimal, all_chars}
use guardian_tracker.RollTargets.Dim.Parser.Parts.{join, Names}
use guardian_tracker.RollTargets.Dim.Parser.Lines.{count_from}
use guardian_tracker.RollTargets.{StoredTarget}
use guardian_tracker.RollTargets.Service.{
  PerkPool, AddCommand, UpdateCommand, validate_perks, add, duplicate, other,
}
use guardian_tracker.RollTargets.Service.Validation.{validate_perks-perm, validate_perks-IsSorted}
use guardian_tracker.RollTargets.Service.Store.{RollTarget, Table, new_row, taken, patched}
use guardian_tracker.RollTargets.Service.Port.{
  roll_target_repository, repo_add, repo_update, user_id_of, stored_target,
}
use guardian_tracker.RollTargets.Service.Port.Uniqueness.{
  NoneTwice, removes_all, updates, after_call, after_call-NoneTwice,
}
use guardian_tracker.RollTargets.Service.Port.Ownership.{targets_of, after_call-targets_of}
use guardian_tracker.RollTargets.Service.Port.Saving.{
  plain, add-duplicate, same_command, without, repo_update-repo_add,
}
use guardian_tracker.RollTargets.Service.Import.{
  ImportLine, ImportReport, FmtOps, import_dim, count_imported,
}
use guardian_tracker.RollTargets.Service.Import.Report.{import_dim-count_from}
use guardian_tracker.RollTargets.Service.Import.Counting.{import_dim-count_imported}

abbrev as_is : TextOps
as_is = record { to_lower = λ s. s; trim_space = λ s. s }

perk_parts : Names ("11" ∷ "0" ∷ "12|3" ∷ []) (11 ∷ [])
unfolding decimal
perk_parts = Names.names 11 refl (omega arith) (omega arith) (
    Names.skips (λ n h. inl (ground (arith, h))) (Names.skips (λ n h. absurd (cc h)) Names.nothing))

parse_dim_roll-roll_text_example :
    parse_dim_roll as_is
      (roll_text true "347366834"
        (join "," ("11" ∷ "0" ∷ "12|3" ∷ []))
        (join "\\n" ("for" ∷ "pvp" ∷ []))
        "|more")
      3
      "block"
    ≡ line_of 3 (own_notes as_is ("for" ∷ "pvp" ∷ []) "block") (11 ∷ []) (item_of true 347366834)
unfolding decimal all_chars
parse_dim_roll-roll_text_example =
    parse_dim_roll-roll_text as_is 3 "block" true 347366834 "347366834" "11" ("0" ∷ "12|3" ∷ [])
      (11 ∷ []) ("for" ∷ "pvp" ∷ []) "|more" (λ s h. refl) refl refl (refl, (refl, (refl, tt)))
      perk_parts (refl, (refl, tt)) refl refl refl

abbrev pool : PerkPool
pool = record {
  get_weapon_perks = λ h. ok (
      record {
        socket_index = pos 3;
        role = "trait";
        label = "Trait 1";
        perks = "outlaw" ∷ "kill clip" ∷ [];
        plugs =
            record { name = "outlaw"; base = 11; enhanced = 21; ambiguous = false }
            ∷ record { name = "kill clip"; base = 12; enhanced = 0; ambiguous = false }
            ∷ [];
      }
      ∷ []);
  plug_names = λ hs. ok ((11, "outlaw") ∷ []);
  weapon_perk_names = ok (("outlaw", "outlaw") ∷ []);
}

abbrev named : List String
named = "outlaw" ∷ "kill clip" ∷ []

abbrev canonical : List String
canonical = "kill clip" ∷ "outlaw" ∷ []

is_valid : validate_perks as_is pool (some 7) named ≡ ok canonical
unfolding validate_perks
is_valid = refl

validate_perks-perm_example : validate_perks as_is pool (some 7) canonical ≡ ok canonical
validate_perks-perm_example =
    validate_perks-perm as_is pool (some 7) named canonical canonical (Permᴰ.swap refl refl)
      is_valid

validate_perks-IsSorted_example :
    IsSorted text_below canonical
    × AllDifferent canonical
    × (1 ≤ length canonical)
    × (length canonical ≤ 10)
validate_perks-IsSorted_example =
    validate_perks-IsSorted as_is pool (some 7) named canonical is_valid

-- Two users; the first has two targets on one weapon.
abbrev row : ℤ → ℤ → List String → RollTarget
row id user_id perks = record {
  id = id;
  user_id = user_id;
  item_hash = some 7;
  wanted = true;
  perks = perks;
  notes = "";
  import_id = "";
  import_title = "";
  created_at = 5;
}

abbrev table : Table
table = record {
  online = true;
  users = ("ann", pos 1) ∷ ("bob", pos 2) ∷ [];
  rows =
      row (pos 1) (pos 1) ("outlaw" ∷ [])
      ∷ row (pos 2) (pos 1) ("kill clip" ∷ [])
      ∷ row (pos 3) (pos 2) ("outlaw" ∷ [])
      ∷ [];
  next_id = 4;
  now = 9;
}

after_call-NoneTwice_example :
    NoneTwice
      (after_call table "ann" (updates (pos 2) (record { perks = some named; notes = none }))).rows
unfolding taken
after_call-NoneTwice_example =
    after_call-NoneTwice table "ann" (updates (pos 2) (record { perks = some named; notes = none }))
      (refl, (refl, (refl, tt)))

after_call-targets_of_example :
    targets_of (pos 2) (after_call table "ann" removes_all) ≡ targets_of (pos 2) table
unfolding user_id_of lookup
after_call-targets_of_example = after_call-targets_of table "ann" (pos 2) removes_all (λ e. cc)

abbrev wish : AddCommand
wish = record {
  import_id = "x";
  import_title = "y";
  item_hash = some 7;
  wanted = true;
  perks = named;
  notes = "pvp";
}

abbrev wish_row : RollTarget
wish_row = new_row table (pos 1) (plain wish canonical)

add-duplicate_example : add as_is pool roll_target_repository table "ann" wish ≡ (
    if taken wish_row table.rows then (err duplicate, record table { next_id = 5 }) else (
      ok (stored_target wish_row),
      record table { next_id = 5; rows = table.rows ++ wish_row ∷ [] },
    ))
unfolding lookup guardian_tracker.RollTargets.Service.validate_notes
add-duplicate_example =
    add-duplicate as_is pool table "ann" (pos 1) wish canonical refl refl is_valid refl

abbrev edit : UpdateCommand
edit = record { perks = some ("outlaw" ∷ []); notes = none }

abbrev edited_row : RollTarget
edited_row = patched edit (row (pos 2) (pos 1) ("kill clip" ∷ []))

repo_update-repo_add_example :
    let saved = (repo_add (without (pos 1) (pos 2) table) "ann" (same_command edited_row)).0 in
    let edited = repo_update table "ann" (pos 2) edit in
    ((saved ≡ err duplicate) × (edited ≡ (err (other "unique constraint violated"), table)))
    ⊎ ((x : StoredTarget) × (saved ≡ ok x)
        × (y : StoredTarget) × (edited.0 ≡ ok y)
        × (y.perks ≡ x.perks)
        × (y.notes ≡ x.notes)
        × (y.id ≡ pos 2))
unfolding lookup guardian_tracker.RollTargets.Service.Store.first_row
repo_update-repo_add_example =
    repo_update-repo_add table "ann" (pos 1) (pos 2) (row (pos 2) (pos 1) ("kill clip" ∷ [])) edit
      refl refl refl refl

abbrev fmt : FmtOps
fmt = record { print = λ n. "5"; quote = λ s. s }

abbrev text : String
text =
    "title:mine\n// a remark\ndimwishlist:item=7&perks=11,12#notes:pvp\ndimwishlist:item=7&perks=99\nhello"

abbrev imported_state : Table
imported_state = (import_dim as_is fmt pool roll_target_repository "ann" "batch" table text).1

abbrev report : ImportReport
report = elim (import_dim as_is fmt pool roll_target_repository "ann" "batch" table text).0 [
  | ok r ↦ r
  | err e ↦ record { import_id = ""; title = ""; description = ""; lines = [] }
]

imports : (import_dim as_is fmt pool roll_target_repository "ann" "batch" table text).0 ≡ ok report
unfolding import_dim roll_target_repository
imports = refl

one_is_imported : count_imported report.lines ≡ 1
unfolding import_dim roll_target_repository count_imported
one_is_imported = refl

import_dim-count_from_example :
    map (λ l. ImportLine.number l) report.lines ≡ count_from 1 (length (lines_of text))
import_dim-count_from_example =
    import_dim-count_from as_is fmt pool roll_target_repository "ann" "batch" table text report
      imports

import_dim-count_imported_example :
    length imported_state.rows ≡ length table.rows + count_imported report.lines
import_dim-count_imported_example =
    import_dim-count_imported as_is fmt pool "ann" "batch" table text report imports
