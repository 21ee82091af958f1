-- ===== src/RollTargets/Service/Import.antt =====
-- services/rolltargets/dimimport.go: the import of a wish list in the text format of DIM. The id of the
-- batch, which the source draws at random, is an argument.
pub mod Report
pub mod Counting
use Prim.Native.String.{count}
use guardian_tracker.Prelude.{
  ℕ, ◌+◌, Bool, true, false, not, ◌&&◌, ◌||◌, Option, none, some, List, [], ◌∷◌, ◌++◌, String,
  if◌then◌else◌, ◌==◌, nat_eq, string_eq, ltb, has, length, lookup, insert, Assoc, TextOps, is_some,
}
use guardian_tracker.Prelude.Scan.{◌<>◌, trim_prefix}
use guardian_tracker.Prelude.Results.{Result, ok, err, ◌>>=◌}
use guardian_tracker.RollTargets.{StoredTarget}
use guardian_tracker.RollTargets.Dim.{DimLine, DimFile, roll, comment, unsupported, malformed}
use guardian_tracker.RollTargets.Dim.Parser.{parse_dim_file}
use guardian_tracker.RollTargets.Service.{
  TargetError, unavailable, not_a_weapon, perks_unavailable, no_perks, too_many_perks, duplicate,
  unknown_perk_name, import_title_too_long, other, max_perks, max_import_title_runes, AddCommand,
  PerkPlug, PerkColumn, PerkPool, Repository, add_validated,
}
use guardian_tracker.RollTargets.Service.Resolve.{
  UnresolvedPerk, not_in_pool, ambiguous_plug, not_a_weapon_perk, ResolveError, target_error,
  unresolved, resolve_dim_perks,
}

pub data ImportOutcome : Type 0 where
  imported skipped already_saved unknown_weapon unresolved_perk : ImportOutcome
  unsupported_line malformed_line failed : ImportOutcome

pub record ImportLine : Type 0 where
  pub number : ℕ
  pub outcome : ImportOutcome
  pub detail : String
  pub unresolved : Option UnresolvedPerk
  pub item_hash : Option ℕ
  pub wanted : Bool
  pub perks : List String

pub record ImportReport : Type 0 where
  pub import_id : String
  pub title : String
  pub description : String
  pub lines : List ImportLine

-- The formatting of the language: a number in base 10, and `%q`.
pub record FmtOps : Type 0 where
  pub print : ℕ → String
  pub quote : String → String

-- `Error` of an unresolved perk
unfoldable pub unresolved_text : FmtOps → UnresolvedPerk → String
unresolved_text f u = elim u.reason [
  | ambiguous_plug ↦ "perk " <> f.quote u.name <> " resolves to more than one plug"
  | not_a_weapon_perk ↦ "perk " <> f.quote u.name <> " is not one any weapon can roll"
  | not_in_pool ↦
      if u.name == ""
      then "no perk matches hash " <> f.print u.hash
      else "this weapon cannot roll " <> f.quote u.name
]

-- The texts of the package's errors that an import can meet; they carry the package's name.
unfoldable pub error_text : TargetError → String
error_text TargetError.not_found = "rolltargets: target not found"
error_text TargetError.notes_too_long = "rolltargets: notes must be 500 characters or fewer"
error_text TargetError.no_perks = "rolltargets: at least one perk is required"
error_text TargetError.too_many_perks = "rolltargets: too many perks in one target"
error_text TargetError.duplicate_perk = "rolltargets: the same perk is named twice"
error_text TargetError.not_a_weapon = "rolltargets: item is not a weapon with perk columns"
error_text TargetError.unknown_perk = "rolltargets: weapon cannot roll a named perk"
error_text TargetError.unknown_perk_name = "rolltargets: no perk has that name"
error_text TargetError.unavailable = "rolltargets: persistence unavailable"
error_text TargetError.duplicate = "rolltargets: this roll is already saved"
error_text TargetError.perks_unavailable = "rolltargets: weapon perk pool unavailable"
error_text TargetError.import_title_too_long =
    "rolltargets: import title must be 500 characters or fewer"
error_text TargetError.invalid_import_id = "rolltargets: invalid import id"
error_text TargetError.no_targets = "rolltargets: ids must be a non-empty list"
error_text TargetError.too_many_targets = "rolltargets: too many target ids in one request"
error_text (other text) = text

unfoldable pub plain_detail : TargetError → String
unfolding error_text
plain_detail e = trim_prefix "rolltargets: " (error_text e)

abbrev pub with_detail : ImportOutcome → String → ImportLine → ImportLine
with_detail outcome detail out = record out { outcome = outcome; detail = detail }

-- What a line is reported as that did not resolve; an error ends the import.
unfoldable pub resolve_failure : FmtOps → ResolveError → ImportLine → Result TargetError ImportLine
unfolding unresolved_text
resolve_failure f (unresolved u) out =
    ok (record (with_detail unresolved_perk (unresolved_text f u) out) { unresolved = some u })
resolve_failure f (target_error TargetError.not_a_weapon) out =
    ok (with_detail unknown_weapon "item hash does not resolve to a weapon with perk columns" out)
resolve_failure f (target_error TargetError.perks_unavailable) out = err perks_unavailable
resolve_failure f (target_error TargetError.no_perks) out =
    ok (with_detail unresolved_perk "names no perk this line could use" out)
resolve_failure f (target_error TargetError.too_many_perks) out =
    ok (with_detail unresolved_perk "names more perks than one roll target can hold" out)
resolve_failure f (target_error _) out =
    ok (with_detail unresolved_perk "could not resolve this line's perks" out)

-- What a line is reported as once it was handed to the store.
unfoldable pub save_outcome :
    Result TargetError StoredTarget → ImportLine → Result TargetError ImportLine
unfolding plain_detail
save_outcome (ok target) out = ok (record out { outcome = imported })
save_outcome (err TargetError.unavailable) out = err unavailable
save_outcome (err TargetError.duplicate) out = ok (record out { outcome = already_saved })
save_outcome (err TargetError.perks_unavailable) out = err perks_unavailable
save_outcome (err TargetError.unknown_perk_name) out =
    ok (with_detail unresolved_perk "not one any weapon can roll" out)
save_outcome (err e) out = ok (with_detail failed (plain_detail e) out)

abbrev pub is_imported : ImportLine → Bool
is_imported l = elim l.outcome [ imported ↦ true | _ ↦ false ]

-- The batch's id is part of the report once a line is imported.
abbrev pub add_to_report : String → ImportReport → ImportLine → ImportReport
add_to_report import_id report line = record report {
  import_id = if is_imported line then import_id else report.import_id;
  lines = report.lines ++ line ∷ [];
}

abbrev pub skipped_line : ℕ → ImportLine
skipped_line number = record {
  number = number;
  outcome = skipped;
  detail = "";
  unresolved = none;
  item_hash = none;
  wanted = false;
  perks = [];
}

abbrev pub item_of_line : DimLine → Option ℕ
item_of_line line = if line.any_weapon then none else some line.item_hash

abbrev pub roll_line : DimLine → ImportLine
roll_line line = record (skipped_line line.number) {
  wanted = line.wanted;
  item_hash = item_of_line line;
}

module _ {ℓ} {S : Type ℓ} (t : TextOps) (f : FmtOps) (pool : PerkPool) (repo : Repository S)
    (membership_id import_id : String) where
  abbrev pub save_resolved : String → S → DimLine → List String → Result TargetError ImportLine × S
  save_resolved title s line perks =
      let (saved, s') = add_validated t pool repo s membership_id (record {
        import_id = import_id;
        import_title = title;
        item_hash = item_of_line line;
        wanted = line.wanted;
        perks = perks;
        notes = line.notes;
      }) in
      (save_outcome saved (record (roll_line line) { perks = perks }), s')

  unfoldable pub import_roll : String → S → DimLine → Result TargetError ImportLine × S
  unfolding resolve_dim_perks resolve_failure save_outcome add_validated
  import_roll title s line = elim (resolve_dim_perks t pool (item_of_line line) line.perk_hashes) [
    | err e ↦ (resolve_failure f e (roll_line line), s)
    | ok perks ↦ save_resolved title s line perks
  ]

  -- the body of the loop
  unfoldable pub import_line : String → S → DimLine → Result TargetError ImportLine × S
  unfolding import_roll
  import_line title s line = elim line.kind [
    | comment ↦ (ok (skipped_line line.number), s)
    | unsupported ↦ (ok (with_detail unsupported_line line.reason (skipped_line line.number)), s)
    | malformed ↦ (ok (with_detail malformed_line line.reason (skipped_line line.number)), s)
    | roll ↦ import_roll title s line
  ]

  unfoldable pub import_lines :
      String → List DimLine → ImportReport → S → Result TargetError ImportReport × S
  unfolding import_line
  import_lines title [] report s = (ok report, s)
  import_lines title (line ∷ lines) report s =
      let (outcome, s') = import_line title s line in
      elim outcome [
        | err e ↦ (err e, s')
        | ok out ↦ import_lines title lines (add_to_report import_id report out) s'
      ]

  abbrev pub empty_report : DimFile → ImportReport
  empty_report file = record {
    import_id = "";
    title = file.title;
    description = file.description;
    lines = [];
  }

  unfoldable pub import_dim : S → String → Result TargetError ImportReport × S
  unfolding parse_dim_file import_lines
  import_dim s text =
      let file = parse_dim_file t text in
      if ltb max_import_title_runes (count file.title)
      then (err import_title_too_long, s)
      else import_lines file.title file.lines (empty_report file) s

-- `Imported`
unfoldable pub count_imported : List ImportLine → ℕ
count_imported [] = 0
count_imported (l ∷ ls) = let rest = count_imported ls in if is_imported l then 1 + rest else rest
